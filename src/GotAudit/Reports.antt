-- ===== src/GotAudit/Reports.antt =====
-- scripts/got_audit.py: what the errors of a line mean.
use gef_extras.Common.{
  ℕ, Bool, true, false, not, ◌&&◌, List, [], ◌∷◌, some, Chars, codes, length, ltb, if◌then◌else◌,
  ◌≡◌, refl, ap, sym, ◌∙◌, arith, Bool-cases, inl, inr,
}
use gef_extras.Common.Strings.{chars_eq, chars_eq_refl, chars_mem}
use gef_extras.GotAudit.{
  Dict, get, touch, State, Section, short_name, mapped, build_section, build_line,
}
use gef_extras.GotAudit.Dicts.{get-touch}
use gef_extras.GotAudit.Consistent.{IsConsistent, IsDistinct, apart}

-- The symbol of a line that is in error is really provided by two files.
abbrev pub Shared : State → Chars → Type 0
Shared st name =
    (p q : Chars) × (chars_eq q p ≡ false)
    × (chars_mem name (get p st.paths) ≡ true)
    × (chars_mem name (get q st.paths) ≡ true)

module _ (st : State) (c : IsConsistent st) where
  exported :
      (name p : Chars)
      → chars_mem p (get name st.symbols) ≡ true
      → chars_mem name (get p st.paths) ≡ true
  exported name p h = sym (c.mutual_lists name p) ∙ h

  head_mem : (x : Chars) (xs : List Chars) → chars_mem x (x ∷ xs) ≡ true
  unfolding chars_mem
  head_mem x xs = rw (chars_eq_refl x) refl

  second_mem : (y x : Chars) (xs : List Chars) → chars_mem x (y ∷ x ∷ xs) ≡ true
  unfolding chars_mem
  second_mem y x xs = rw (chars_eq_refl x) (ground arith)

  Shared-owners :
      (name : Chars) (owners : List Chars)
      → get name st.symbols ≡ owners
      → ltb 1 (length owners) ≡ true
      → Shared st name
  Shared-owners name [] e h = absurd (ground arith)
  Shared-owners name (p ∷ []) e h = absurd (ground arith)
  Shared-owners name (p ∷ q ∷ more) e h =
      let d : IsDistinct (p ∷ q ∷ more) = rw e at (c.distinct name) in
      let (a, b) = apart p q more d.0 in
      (
        p,
        q,
        a,
        exported name p (rw e (head_mem p (q ∷ more))),
        exported name q (rw e (second_mem p q more)),
      )

  section_owners :
      (name path : Chars) (section : Section) (place : Chars) (owners : List Chars) (b : Bool)
      → (build_section name path section st).0 ≡ mapped place (some owners) b
      → Shared st (short_name name)
  unfolding build_section
  section_owners name path section place owners b h =
      Shared-owners (short_name name) _ refl (ground (arith, h))

  -- When the collected dictionaries are consistent, a line with the error for a symbol that is found
  -- in several paths is right: two different files export the symbol.
  pub build_line_owners :
      (name path : Chars) (got_address : ℕ) (maps : List Section) (place : Chars)
      (owners : List Chars) (b : Bool)
      → (build_line name path got_address maps st).0 ≡ mapped place (some owners) b
      → Shared st (short_name name)
  unfolding build_line
  build_line_owners name path got_address [] place owners b h = absurd (cc h)
  build_line_owners name path got_address (section ∷ maps) place owners b h =
      elim (Bool-cases (section.contains got_address)) [
        | inl e ↦ section_owners name path section place owners b (rw e at h)
        | inr e ↦ build_line_owners name path got_address maps place owners b (rw e at h)
      ]

  same_lists :
      (st' : State)
      → ((k : Chars) → get k st'.symbols ≡ get k st.symbols)
      → ((k : Chars) → get k st'.paths ≡ get k st.paths)
      → IsConsistent st'
  same_lists st' s p = record {
    mutual_lists = λ name path.
        ap (λ t. chars_mem path t) (s name)
        ∙ c.mutual_lists name path
        ∙ sym (ap (λ t. chars_mem name t) (p path));
    distinct = λ name. rw (s name) (c.distinct name);
  }

  get-touch_if :
      (b : Bool) (k key : Chars) (d : Dict) → get k (if b then touch key d else d) ≡ get k d
  get-touch_if true k key d = get-touch k key d
  get-touch_if false k key d = refl

  section-IsConsistent :
      (name path : Chars) (section : Section) → IsConsistent (build_section name path section st).1
  unfolding build_section
  section-IsConsistent name path section =
      same_lists _ (λ k. get-touch k (short_name name) st.symbols)
        (λ k.
          get-touch_if
            (not (chars_eq section.path (codes "[vdso]")) && not (chars_eq section.path path)) k
            section.path st.paths)

  -- Printing a line keeps the collected dictionaries consistent, although looking a symbol or a path
  -- up may add an empty entry.
  pub build_line-IsConsistent :
      (name path : Chars) (got_address : ℕ) (maps : List Section)
      → IsConsistent (build_line name path got_address maps st).1
  unfolding build_line
  build_line-IsConsistent name path got_address [] = c
  build_line-IsConsistent name path got_address (section ∷ maps) =
      elim (Bool-cases (section.contains got_address)) [
        | inl e ↦ rw e (section-IsConsistent name path section)
        | inr e ↦ rw e (build_line-IsConsistent name path got_address maps)
      ]
