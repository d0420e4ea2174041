-- ===== src/LibcArgs/Generator/Parsed.antt =====
-- scripts/libc_function_args/tables/generator.py: what is read from a prototype.
use gef_extras.Common.{
  ℕ, true, false, List, [], ◌∷◌, ◌++◌, map, All, none, some, Chars, codes, ◌==◌, if◌then◌else◌, ◌≡◌,
  ◌≢◌, refl, ap, sym, ◌∙◌, arith, append_assoc, append-nil, Bool-cases, inl, inr,
}
use gef_extras.Common.Strings.{starts_with, split, cut_at, join, strip, lstrip}
use gef_extras.LibcArgs.Generator.{
  last_word, before_last, get_function_name, get_function_args, or_empty,
}

-- A character does not stand in a text.
abbrev pub Lacks : ℕ → Chars → Type 0
Lacks x s = All (λ c. c ≢ x) s

starts_with_self : (part s : Chars) → starts_with (part ++ s) part ≡ true
unfolding starts_with
starts_with_self [] [] = refl
starts_with_self [] (c ∷ s) = refl
starts_with_self (p ∷ part) s = let rest = starts_with_self part s in ground (arith, rest)

cut_at_first :
    (s rest : Chars)
    → Lacks b'(' s
    → cut_at (codes " (") (s ++ (codes " (" ++ rest)) ≡ some (s, rest)
unfolding cut_at starts_with
cut_at_first [] rest h = refl
cut_at_first (c ∷ []) rest (n, h) = let later = cut_at_first [] rest tt in ground (arith, later)
cut_at_first (c ∷ e ∷ s) rest (n, (k, h)) =
    let later = cut_at_first (e ∷ s) rest (k, h) in ground (arith, later)

last_word_rest : (word name : Chars) → Lacks b' ' name → last_word word name ≡ word ++ name
unfolding last_word
last_word_rest word [] h = sym (append-nil word)
last_word_rest word (c ∷ name) (n, h) =
    let e : (c == b' ') ≡ false = ground arith in
    rw (e, last_word) (last_word_rest (word ++ c ∷ []) name h ∙ append_assoc word (c ∷ []) name)

last_word-space :
    (word before name : Chars) → Lacks b' ' name → last_word word (before ++ (b' ' ∷ name)) ≡ name
unfolding last_word
last_word-space word [] name h = last_word_rest [] name h
last_word-space word (c ∷ before) name h =
    last_word-space (if c == b' ' then [] else word ++ c ∷ []) before name h

before_last_end : (x : ℕ) (s : Chars) → before_last x (s ++ x ∷ []) ≡ some s
unfolding before_last
before_last_end x [] = ground arith
before_last_end x (c ∷ s) = let rest = before_last_end x s in ground (arith, rest)

split_first : (x : ℕ) (s rest : Chars) → Lacks x s → split x (s ++ x ∷ rest) ≡ s ∷ split x rest
unfolding split
split_first x [] rest h = ground arith
split_first x (c ∷ s) rest (n, h) = let e = split_first x s rest h in ground (arith, e)

split_none : (x : ℕ) (s : Chars) → Lacks x s → split x s ≡ s ∷ []
unfolding split
split_none x [] h = refl
split_none x (c ∷ s) (n, h) = let e = split_none x s h in ground (arith, e)

split_cons : (x : ℕ) (s : Chars) → (p : Chars) × (ps : List Chars) × (split x s ≡ p ∷ ps)
unfolding split
split_cons x [] = ([], [], refl)
split_cons x (c ∷ s) =
    let (p, ps, e) = split_cons x s in
    elim (Bool-cases (c == x)) [
      | inl h ↦ ([], p ∷ ps, ground (arith, h, e))
      | inr h ↦ (c ∷ p, ps, ground (arith, h, e))
    ]

strip_first : (s : Chars) → map strip (split b',' (b' ' ∷ s)) ≡ map strip (split b',' s)
unfolding split strip lstrip
strip_first s = let (p, ps, e) = split_cons b',' s in rw e refl

-- An argument with no comma in it and no blanks around it.
abbrev pub IsArgument : Chars → Type 0
IsArgument a = Lacks b',' a × (strip a ≡ a)

split-join :
    (a : Chars) (args : List Chars)
    → All IsArgument (a ∷ args)
    → map strip (split b',' (join (codes ", ") (a ∷ args))) ≡ a ∷ args
unfolding join
split-join a [] (p, h) = ap (map strip) (split_none b',' a p.0) ∙ ap (λ t. t ∷ []) p.1
split-join a (b ∷ args) (p, h) =
    ap (map strip) (split_first b',' a (b' ' ∷ join (codes ", ") (b ∷ args)) p.0)
    ∙ ap (λ t. t ∷ map strip (split b',' (b' ' ∷ join (codes ", ") (b ∷ args)))) p.1
    ∙ ap (λ t. a ∷ t) (strip_first (join (codes ", ") (b ∷ args)) ∙ split-join b args h)

-- A prototype as the manual prints it.
abbrev pub prototype : Chars → Chars → List Chars → Chars
prototype type name args =
    (type ++ (b' ' ∷ name)) ++ (codes " (" ++ (join (codes ", ") args ++ b')' ∷ []))

-- From a printed prototype the name and the arguments are read back: where neither the type nor the
-- name has a parenthesis, the name has no blank, there is an argument, and no argument has a comma or
-- blanks around it. Parentheses within the arguments are no harm.
pub get_function-prototype :
    (type name a : Chars) (args : List Chars)
    → Lacks b'(' (type ++ (b' ' ∷ name))
    → Lacks b' ' name
    → All IsArgument (a ∷ args)
    → (get_function_name (prototype type name (a ∷ args)) ≡ name)
      × (get_function_args (prototype type name (a ∷ args)) ≡ a ∷ args)
unfolding get_function_name get_function_args
get_function-prototype type name a args h k p =
    let text = join (codes ", ") (a ∷ args) in
    let cut = cut_at_first (type ++ (b' ' ∷ name)) (text ++ b')' ∷ []) h in
    let inner = before_last_end b')' text in
    (
      ap (λ t. last_word [] (elim t [ none ↦ prototype type name (a ∷ args) | some (x, y) ↦ x ]))
            cut
          ∙ last_word-space [] type name k,
      ap
            (λ t.
              map strip
                (split b',' (or_empty (before_last b')' (elim t [ none ↦ [] | some (x, y) ↦ y ])))))
            cut
          ∙ ap (λ t. map strip (split b',' (or_empty t))) inner
          ∙ split-join a args p,
    )
