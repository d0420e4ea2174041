-- ===== src/LibcArgs/Named.antt =====
-- scripts/libc_function_args/__init__.py: the name of a call whose operand is printed with its symbol.
use gef_extras.Common.{
  ℕ, Bool, true, false, not, ◌&&◌, List, [], ◌∷◌, ◌++◌, none, some, Chars, codes, ok, ◌==◌, ◌≡◌,
  refl, arith, ap, ◌∙◌, all_of, Bool-cases, inl, inr, if◌then◌else◌,
}
use gef_extras.Common.Strings.{chars_mem, starts_with, contains, split, push_char, join}
use gef_extras.LibcArgs.{first_part, basename_of}
use gef_extras.LibcArgs.Called.{
  Call, size2type, last_operand, behind_last, take_while, is_name_char, symbol_of,
  extract_called_function_name,
}

-- What a symbol is printed with.
abbrev pub is_symbol_char : ℕ → Bool
is_symbol_char c = is_name_char c && not (c == b'<')

abbrev pub no_angle : Chars → Bool
no_angle s = all_of (λ (c : ℕ). not (c == b'<')) s

behind_last-none : (s : Chars) → no_angle s ≡ true → behind_last b'<' s ≡ none
unfolding behind_last
behind_last-none [] h = refl
behind_last-none (c ∷ s) h =
    let rest : behind_last b'<' s ≡ none = behind_last-none s (ground (arith, h)) in
    rw rest (ground (arith, h))

no_angle-append :
    (name behind : Chars)
    → all_of is_symbol_char name ≡ true
    → no_angle behind ≡ true
    → no_angle (name ++ b'>' ∷ behind) ≡ true
no_angle-append [] behind n h = ground (arith, h)
no_angle-append (c ∷ name) behind n h =
    let rest = no_angle-append name behind (ground (arith, n)) h in ground (arith, n, rest)

behind_last-some :
    (before s : Chars) → behind_last b'<' s ≡ none → behind_last b'<' (before ++ b'<' ∷ s) ≡ some s
unfolding behind_last
behind_last-some [] s h = rw h refl
behind_last-some (c ∷ before) s h = rw (behind_last-some before s h) refl

take_while-name :
    (name behind : Chars)
    → all_of is_symbol_char name ≡ true
    → take_while is_name_char (name ++ b'>' ∷ behind) ≡ name
unfolding take_while
take_while-name [] behind n = refl
take_while-name (c ∷ name) behind n =
    let rest = take_while-name name behind (ground (arith, n)) in
    let this : is_name_char c ≡ true = ground (arith, n) in rw this (ap (λ (t : Chars). c ∷ t) rest)

contains-behind :
    (before s : Chars) (x : ℕ) → contains s (x ∷ []) ≡ true → contains (before ++ s) (x ∷ []) ≡ true
unfolding contains
contains-behind [] s x h = h
contains-behind (c ∷ before) s x h = let rest = contains-behind before s x h in ground (arith, rest)

contains-here : (s : Chars) (x : ℕ) → contains (x ∷ s) (x ∷ []) ≡ true
unfolding contains starts_with
contains-here s x = ground arith

first_part-push :
    (c : ℕ) (parts : List Chars) → first_part (push_char c parts) ≡ c ∷ first_part parts
first_part-push c [] = refl
first_part-push c (part ∷ parts) = refl

-- A text up to its first `@`.
abbrev pub before_at : Chars → Chars
before_at [] = []
before_at (c ∷ s) = let rest = before_at s in if c == b'@' then [] else c ∷ rest

basename_of-before_at : (name : Chars) → basename_of name ≡ before_at name
unfolding split
basename_of-before_at [] = refl
basename_of-before_at (c ∷ name) = elim (Bool-cases (c == b'@')) [
  | inl e ↦ rw e refl
  | inr e ↦
      rw e (
        first_part-push c (split b'@' name)
        ∙ ap (λ (t : Chars). c ∷ t) (basename_of-before_at name))
]

symbol_of-named :
    (before name behind : Chars)
    → all_of is_symbol_char name ≡ true
    → no_angle behind ≡ true
    → symbol_of (before ++ b'<' ∷ (name ++ b'>' ∷ behind)) ≡ name
unfolding symbol_of
symbol_of-named before name behind n h =
    let text = name ++ b'>' ∷ behind in
    let last =
      behind_last-some before text (behind_last-none text (no_angle-append name behind n h)) in
    rw (symbol_of, last) (take_while-name name behind n)

-- The name of a call is the symbol that its operands are printed with: where the instruction is a call,
-- it has an operand, the last is no pointer of the architecture's size and the first is no register,
-- and the operands, joined by blanks, end in `<name>` and a text without `<`, the name is found, if it
-- has no blank, parenthesis or angle bracket. It is looked up in the table under its part before the
-- first `@`, or as a whole if it has none.
pub extract-named :
    (call : Call) (operand : Chars) (operands : List Chars) (type_name before name behind : Chars)
    → call.is_call ≡ true
    → call.operands ≡ operand ∷ operands
    → size2type call.ptrsize ≡ some type_name
    → starts_with (last_operand operand operands) (type_name ++ codes " PTR") ≡ false
    → chars_mem (b'$' ∷ operand) call.all_registers ≡ false
    → join (codes " ") (operand ∷ operands) ≡ before ++ b'<' ∷ (name ++ b'>' ∷ behind)
    → all_of is_symbol_char name ≡ true
    → no_angle behind ≡ true
    → (extract_called_function_name call ≡ ok name) × (basename_of name ≡ before_at name)
unfolding extract_called_function_name
extract-named call operand operands type_name before name behind c o t p r j n h =
    let text = name ++ b'>' ∷ behind in
    let left = contains-behind before (b'<' ∷ text) b'<' (contains-here text b'<') in
    let right =
      contains-behind before (b'<' ∷ text) b'>'
        (contains-behind (b'<' ∷ name) (b'>' ∷ behind) b'>' (contains-here behind b'>')) in
    (
      rw (extract_called_function_name, c, o, t, p, r, j, left, right)
          (ap (λ (s : Chars). ok s) (symbol_of-named before name behind n h)),
      basename_of-before_at name,
    )
