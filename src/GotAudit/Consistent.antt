-- ===== src/GotAudit/Consistent.antt =====
-- scripts/got_audit.py: the two dictionaries say the same, whatever the commands were.
use gef_extras.Common.{
  Bool, true, false, not, ◌&&◌, ◌||◌, List, [], ◌∷◌, ◌++◌, Chars, ◌≡◌, refl, ap, sym, ◌∙◌, arith,
  Bool-cases, Option-cases, inl, inr,
}
use gef_extras.Common.Strings.{chars_eq, eq_of_chars_eq, chars_eq_sym, chars_mem}
use gef_extras.GotAudit.{
  Dict, get, has, add, State, Section, symbol_of, add_symbol, get_symbols_from_path, collect,
}
use gef_extras.GotAudit.Dicts.{chars_mem-append, get-add_same, get-add_other, mem-get-add}

-- No text stands twice.
abbrev pub IsDistinct : List Chars → Type 0
IsDistinct [] = Unit
IsDistinct (x ∷ xs) = (chars_mem x xs ≡ false) × IsDistinct xs

-- A path is listed for a symbol just when the symbol is listed for the path, and no path twice.
pub record IsConsistent (st : State) : Type 0 where
  pub mutual_lists :
      (sym path : Chars) → chars_mem path (get sym st.symbols) ≡ chars_mem sym (get path st.paths)
  pub distinct : (sym : Chars) → IsDistinct (get sym st.symbols)

-- A text that is not in a list is neither its head nor in its tail.
pub apart :
    (v x : Chars) (xs : List Chars)
    → chars_mem v (x ∷ xs) ≡ false
    → (chars_eq x v ≡ false) × (chars_mem v xs ≡ false)
unfolding chars_mem
apart v x xs h = (chars_eq_sym x v ∙ ground (arith, h), ground (arith, h))

IsDistinct-append :
    (xs : List Chars) (v : Chars)
    → chars_mem v xs ≡ false
    → IsDistinct xs
    → IsDistinct (xs ++ v ∷ [])
IsDistinct-append [] v h d = (unfold chars_mem in refl, tt)
IsDistinct-append (x ∷ xs) v h (n, d) =
    let (a, b) = apart v x xs h in
    (chars_mem-append x xs v ∙ rw (n, a) refl, IsDistinct-append xs v b d)

-- Adding a value that is there would change no membership.
already :
    (x s v key : Chars) (d : Dict)
    → chars_mem v (get key d) ≡ true
    → chars_mem x (get s d) ≡ (chars_mem x (get s d) || (chars_eq key s && chars_eq x v))
already x s v key d h = elim (Bool-cases (chars_eq key s)) [
  | inr e ↦ rw e (ground arith)
  | inl e ↦ elim (Bool-cases (chars_eq x v)) [
    | inr f ↦ rw (e, f) (ground arith)
    | inl f ↦
        let there : chars_mem x (get s d) ≡ true =
          rw (eq_of_chars_eq x v f, sym (eq_of_chars_eq key s e)) h in
        rw (e, f, there) refl
  ]
]

symbols_after :
    (x s elf_file sym : Chars) (st : State)
    → chars_mem x (get s (add_symbol elf_file sym st).symbols)
      ≡ (chars_mem x (get s st.symbols) || (chars_eq sym s && chars_eq x elf_file))
unfolding add_symbol
symbols_after x s elf_file sym st = elim (Bool-cases (chars_mem elf_file (get sym st.symbols))) [
  | inr e ↦ rw e (mem-get-add x s sym elf_file st.symbols)
  | inl e ↦ rw e (already x s elf_file sym st.symbols e)
]

paths_after :
    (x path elf_file name : Chars) (st : State)
    → chars_mem x (get path (add_symbol elf_file name st).paths)
      ≡ (chars_mem x (get path st.paths) || (chars_eq elf_file path && chars_eq x name))
unfolding add_symbol
paths_after x path elf_file name st = mem-get-add x path elf_file name st.paths

IsDistinct-add :
    (s name elf_file : Chars) (d : Dict)
    → chars_mem elf_file (get name d) ≡ false
    → ((k : Chars) → IsDistinct (get k d))
    → IsDistinct (get s (add name elf_file d))
IsDistinct-add s name elf_file d h c = elim (Bool-cases (chars_eq name s)) [
  | inr e ↦ rw (get-add_other s name elf_file d e) (c s)
  | inl e ↦
      rw (sym (eq_of_chars_eq name s e))
        (rw (get-add_same name elf_file d) (IsDistinct-append (get name d) elf_file h (c name)))
]

IsDistinct-after :
    (s elf_file name : Chars) (st : State)
    → ((k : Chars) → IsDistinct (get k st.symbols))
    → IsDistinct (get s (add_symbol elf_file name st).symbols)
unfolding add_symbol
IsDistinct-after s elf_file name st c =
    elim (Bool-cases (chars_mem elf_file (get name st.symbols))) [
      | inl e ↦ rw e (c s)
      | inr e ↦ rw e (IsDistinct-add s name elf_file st.symbols e c)
    ]

and_swap :
    (m : Bool) (a b c d : Chars)
    → (m || (chars_eq a b && chars_eq c d)) ≡ (m || (chars_eq d c && chars_eq b a))
and_swap m a b c d = ground (arith, chars_eq_sym a b, chars_eq_sym c d)

add_symbol-IsConsistent :
    (elf_file name : Chars) (st : State)
    → IsConsistent st
    → IsConsistent (add_symbol elf_file name st)
add_symbol-IsConsistent elf_file name st c = record {
  mutual_lists = λ s path.
      symbols_after path s elf_file name st
      ∙ ap (λ t. t || (chars_eq name s && chars_eq path elf_file)) (c.mutual_lists s path)
      ∙ and_swap (chars_mem s (get path st.paths)) name s path elf_file
      ∙ sym (paths_after s path elf_file name st);
  distinct = λ s. IsDistinct-after s elf_file name st c.distinct;
}

get_symbols-IsConsistent :
    (elf_file : Chars) (lines : List Chars) (st : State)
    → IsConsistent st
    → IsConsistent (get_symbols_from_path elf_file lines st)
unfolding get_symbols_from_path
get_symbols-IsConsistent elf_file [] st c = c
get_symbols-IsConsistent elf_file (line ∷ lines) st c = elim (Option-cases (symbol_of line)) [
  | inl e ↦ rw (e, get_symbols_from_path) (get_symbols-IsConsistent elf_file lines st c)
  | inr (name, e) ↦
      rw (e, get_symbols_from_path)
        (get_symbols-IsConsistent elf_file lines (add_symbol elf_file name st)
          (add_symbol-IsConsistent elf_file name st c))
]

-- Collecting the symbols of the mapped files keeps the two dictionaries consistent: a path is listed
-- for a symbol just when the symbol is listed for the path, and no path is listed twice.
pub collect-IsConsistent :
    (nm : Chars → List Chars) (is_file : Chars → Bool) (maps : List Section) (st : State)
    → IsConsistent st
    → IsConsistent (collect nm is_file maps st)
unfolding collect
collect-IsConsistent nm is_file [] st c = c
collect-IsConsistent nm is_file (section ∷ maps) st c =
    elim (Bool-cases
      (not (has section.path st.paths) && (is_file section.path && section.executable))) [
        | inl e ↦ rw e (
            collect-IsConsistent nm is_file maps _
              (get_symbols-IsConsistent section.path (nm section.path) st c))
        | inr e ↦ rw e (collect-IsConsistent nm is_file maps st c)
      ]
