-- ===== src/Ida/Synced.antt =====
-- scripts/ida_interact.py: the colours of the database while the program counter is followed.
use gef_extras.Common.{
  ℕ, Bool, Option, min, max, any_of, leb, ltb, ◌&&◌, ◌||◌, true, false, List, [], ◌∷◌, none, some,
  Result, ok, ◌>>=◌, if◌then◌else◌, ◌≡◌, ◌⊎◌, refl, ap, sym, ◌∙◌, arith, Bool-cases, inl, inr,
  bind_ok,
}
use mathlib.Core.Path.{subst}
use gef_extras.Ida.{
  Error, ℤ, int_eq, Debuggee, State, store, find, remove, set_color, ea_of, highlight_add,
  highlight_del, restored, Section, lowest, highest, jump, green, unmark, follow_pc, is_own,
  own_sections, synchronize,
}
use gef_extras.Ida.Highlights.{int_eq_refl, eq_of_int_eq}

same_ok : {A : Type 0} {a b : A} → ◌≡◌ {A = Result Error A} (ok a) (ok b) → a ≡ b
same_ok h = cc

-- An address between the first page and the last of the program's sections.
abbrev pub lies_inside : ℕ → List Section → Bool
lies_inside pc sections =
    any_of (λ (s : Section). leb s.page_start pc) sections
    && any_of (λ (s : Section). ltb pc s.page_end) sections

-- The last of the addresses that lies in the program, or the one before.
abbrev pub last_inside : Debuggee → List ℕ → Option ℕ → Option ℕ
last_inside d [] before = before
last_inside d (pc ∷ pcs) before =
    last_inside d pcs (if lies_inside pc (own_sections d) then some pc else before)

module _ (d : Debuggee) (orig : ℤ → ℕ) where
  -- No line is highlighted.
  abbrev pub Clean : State → Type 0
  Clean st = (st.old_colors ≡ []) × ((e : ℤ) → st.idb.color e ≡ orig e)

  -- One line is highlighted, that of the address `last`, and its colour is remembered.
  abbrev pub Marked : ℕ → State → Type 0
  Marked last st =
      (ea : ℤ) × (ea_of d last ≡ ok ea)
      × (st.old_colors ≡ (ea, orig ea) ∷ [])
      × ((e : ℤ) → st.idb.color e ≡ (if int_eq e ea then green else orig e))

  abbrev pub Synced : State → Type 0
  Synced st =
      ((st.last_hl_ea ≡ none) × Clean st)
      ⊎ ((last : ℕ) × (st.last_hl_ea ≡ some last) × Marked last st)

  find_only : (ea : ℤ) (color : ℕ) → find ea ((ea, color) ∷ []) ≡ some color
  unfolding find
  find_only ea color = ground (arith, int_eq_refl ea)

  remove_only : (ea : ℤ) (color : ℕ) → remove ea ((ea, color) ∷ []) ≡ []
  unfolding remove
  remove_only ea color = ground (arith, int_eq_refl ea)

  unmarked : ℤ → State → State
  unfolding set_color remove
  unmarked ea st = record st {
    old_colors = remove ea st.old_colors;
    idb = set_color ea (orig ea) st.idb;
  }

  unmarked-Clean : (last : ℕ) (st : State) (m : Marked last st) → Clean (unmarked m.0 st)
  unfolding unmarked
  unmarked-Clean last st (ea, p, o, c) =
      (ap (remove ea) o ∙ remove_only ea (orig ea), λ e. back e (Bool-cases (int_eq e ea)))
    where
      back :
          (e : ℤ)
          → (int_eq e ea ≡ true) ⊎ (int_eq e ea ≡ false)
          → (set_color ea (orig ea) st.idb).color e ≡ orig e
      back e (inl h) = rw h (ap orig (sym (eq_of_int_eq e ea h)))
      back e (inr h) = rw h (c e ∙ rw h refl)

  restored-unmarked :
      (last : ℕ) (st : State) (m : Marked last st) → restored d m.0 st ≡ unmarked m.0 st
  unfolding unmarked
  restored-unmarked last st (ea, p, o, c) =
      let found : find ea st.old_colors ≡ some (orig ea) =
        ap (find ea) o ∙ find_only ea (orig ea) in
      rw (found, restored) refl

  highlight_del-Clean :
      (last : ℕ) (st st' : State) → Marked last st → highlight_del d last st ≡ ok st' → Clean st'
  unfolding highlight_del
  highlight_del-Clean last st st' m h =
      let (ea, p, k) = bind_ok (ea_of d last) _ h in
      let same : m.0 ≡ ea = same_ok (sym m.1 ∙ p) in
      let e = sym (restored-unmarked last st m) ∙ ap (λ a. restored d a st) same ∙ same_ok k in
      subst Clean e (unmarked-Clean last st m)

  unmark-Clean : (st st' : State) → Synced st → unmark d st.last_hl_ea st ≡ ok st' → Clean st'
  unmark-Clean st st' (inl (e, c)) h = subst Clean (same_ok (ap (λ o. unmark d o st) (sym e) ∙ h)) c
  unmark-Clean st st' (inr (last, e, m)) h =
      highlight_del-Clean last st st' m (ap (λ o. unmark d o st) (sym e) ∙ h)

  jump-Clean : (pc : ℕ) (st st' : State) → Clean st → jump d pc st ≡ ok st' → Clean st'
  unfolding jump
  jump-Clean pc st st' c h = let (ea, p, k) = bind_ok (ea_of d pc) _ h in subst Clean (same_ok k) c

  highlight_add-Marked :
      (pc : ℕ) (st st' : State) → Clean st → highlight_add d pc green st ≡ ok st' → Marked pc st'
  unfolding highlight_add store set_color
  highlight_add-Marked pc st st' (o, c) h =
      let (ea, p, k) = bind_ok (ea_of d pc) _ h in
      let stored = ap (store ea (st.idb.color ea)) o ∙ ap (λ n. (ea, n) ∷ []) (c ea) in
      subst (Marked pc) (same_ok k)
        (ea, p, stored, λ e. ap (λ n. if int_eq e ea then green else n) (c e))

  follow_pc-Synced : (pc : ℕ) (st st' : State) → Synced st → follow_pc d pc st ≡ ok st' → Synced st'
  unfolding follow_pc
  follow_pc-Synced pc st st' s h =
      let (a, ha, k) = bind_ok (unmark d st.last_hl_ea st) _ h in
      let (b, hb, l) = bind_ok (jump d pc a) _ k in
      let (c, hc, m) = bind_ok (highlight_add d pc green b) _ l in
      let marked = highlight_add-Marked pc b c (jump-Clean pc a b (unmark-Clean st a s ha) hb) hc in
      subst Synced (same_ok m) (inr (pc, refl, marked))

  leb-lowest :
      (low pc : ℕ) (sections : List Section)
      → leb (lowest low sections) pc
        ≡ (leb low pc || any_of (λ (s : Section). leb s.page_start pc) sections)
  leb-lowest low pc [] = ground arith
  leb-lowest low pc (s ∷ sections) =
      let rest = leb-lowest (min low s.page_start) pc sections in ground (arith, rest)

  ltb-highest :
      (high pc : ℕ) (sections : List Section)
      → ltb pc (highest high sections)
        ≡ (ltb pc high || any_of (λ (s : Section). ltb pc s.page_end) sections)
  ltb-highest high pc [] = ground arith
  ltb-highest high pc (s ∷ sections) =
      let rest = ltb-highest (max high s.page_end) pc sections in ground (arith, rest)

  is_own-lies_inside :
      (pc : ℕ) (sections : List Section) (own : Bool)
      → is_own d pc sections ≡ ok own
      → own ≡ lies_inside pc sections
  unfolding is_own
  is_own-lies_inside pc [] own h = cc
  is_own-lies_inside pc (s ∷ sections) own h =
      let low = leb-lowest s.page_start pc sections in
      let high = ltb-highest s.page_end pc sections in ground (arith, low, high, h)

  last-follow_pc : (pc : ℕ) (st st' : State) → follow_pc d pc st ≡ ok st' → st'.last_hl_ea ≡ some pc
  unfolding follow_pc
  last-follow_pc pc st st' h =
      let (a, ha, k) = bind_ok (unmark d st.last_hl_ea st) _ h in
      let (b, hb, l) = bind_ok (jump d pc a) _ k in
      let (c, hc, m) = bind_ok (highlight_add d pc green b) _ l in
      sym (ap (λ (s : State). s.last_hl_ea) (same_ok m))

  last-synchronize :
      (pc : ℕ) (st st' : State)
      → synchronize d pc st ≡ ok st'
      → st'.last_hl_ea ≡ (if lies_inside pc (own_sections d) then some pc else st.last_hl_ea)
  unfolding synchronize
  last-synchronize pc st st' h =
      let (own, o, k) = bind_ok (is_own d pc (own_sections d)) _ h in
      let inside = is_own-lies_inside pc (own_sections d) own o in
      elim (Bool-cases own) [
        | inl e ↦ rw (sym inside ∙ e) (last-follow_pc pc st st' (rw e at k))
        | inr e ↦ rw (sym inside ∙ e) (ap (λ (s : State). s.last_hl_ea) (sym (same_ok (rw e at k))))
      ]

  synchronize-Synced :
      (pc : ℕ) (st st' : State) → Synced st → synchronize d pc st ≡ ok st' → Synced st'
  unfolding synchronize
  synchronize-Synced pc st st' s h =
      let (own, _, k) = bind_ok (is_own d pc (own_sections d)) _ h in
      elim (Bool-cases own) [
        | inl e ↦ follow_pc-Synced pc st st' s (rw e at k)
        | inr e ↦ subst Synced (same_ok (rw e at k)) s
      ]

  -- The command after each stop, at the program counters of a run.
  unfoldable pub synchronize_all : List ℕ → State → Result Error State
  unfolding synchronize
  synchronize_all [] st = ok st
  synchronize_all (pc ∷ pcs) st = synchronize d pc st >>= synchronize_all pcs

  -- From a session where no line is highlighted, or only that of the remembered address, whatever
  -- addresses the program stops at: the remembered address is the last of them that lies between the
  -- first and the last page of the program, if any does, and the one before otherwise. With no
  -- remembered address all lines of the database have the colours that they had at first; with one,
  -- its line is green, all others have those colours, and the colour kept for it is its own.
  pub synchronize_all-Synced :
      (pcs : List ℕ) (st st' : State)
      → Synced st
      → synchronize_all pcs st ≡ ok st'
      → (st'.last_hl_ea ≡ last_inside d pcs st.last_hl_ea) × Synced st'
  unfolding synchronize_all
  synchronize_all-Synced [] st st' s h =
      (ap (λ (t : State). t.last_hl_ea) (sym (same_ok h)), subst Synced (same_ok h) s)
  synchronize_all-Synced (pc ∷ pcs) st st' s h =
      let (a, ha, k) = bind_ok (synchronize d pc st) _ h in
      let (last, synced) = synchronize_all-Synced pcs a st' (synchronize-Synced pc st a s ha) k in
      (last ∙ ap (last_inside d pcs) (last-synchronize pc st a ha), synced)
