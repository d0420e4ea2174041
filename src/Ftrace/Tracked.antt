-- ===== src/Ftrace/Tracked.antt =====
-- scripts/ftrace.py: what one call of a tracked function leaves behind.
use gef_extras.Common.{
  ℕ, zero, suc, ◌+◌, ◌-◌, Bool, true, false, not, ◌&&◌, ◌||◌, List, [], ◌∷◌, ◌++◌, map, Option,
  some, Chars, length, take, min, leb, ltb, ◌≡◌, refl, ap, sym, ◌∙◌, arith, append_assoc,
  append-nil, all_of, Bool-cases, inl, inr,
}
use mathlib.Core.Path.{subst}
use gef_extras.Common.Strings.{chars_mem}
use gef_extras.LibcArgs.Generator.Generated.{are_distinct}
use gef_extras.Ftrace.{
  Enter, Exit, Regs, State, set, assign, is_live, add_exit, save_register, save_registers, enter,
}

-- Is `n` one of the `count` numbers from `first` on?
abbrev pub is_between : ℕ → ℕ → ℕ → Bool
is_between first count n = leb first n && ltb n (first + count)

-- The number of the last of `count` breakpoints from `first` on, or what stood there before.
abbrev pub last_number : ℕ → ℕ → Option ℕ → Option ℕ
last_number first zero before = before
last_number first (suc count) before = some (first + count)

-- The breakpoints with the next `count` numbers, the newest first, before older ones.
unfoldable pub added : Enter → ℕ → ℕ → ℕ → List Exit → List Exit
added bp regs first zero exits = exits
added bp regs first (suc count) exits =
    added bp regs (suc first) count
      (record { number = first; location = bp.location; regs = regs } ∷ exits)

-- The registers with their values.
unfoldable pub saved : (Chars → ℕ) → List Chars → Regs
saved register params = map (λ (r : Chars). (r, register r)) params

-- None of the keys is among the parameters.
avoids : List Chars → Regs → Bool
avoids params regs = all_of (λ (p : Chars × ℕ). not (chars_mem p.0 params)) regs

assign_new :
    (key : Chars) (v : ℕ) (regs : Regs) (params : List Chars)
    → avoids (key ∷ params) regs ≡ true
    → assign key v regs ≡ regs ++ (key, v) ∷ []
unfolding assign avoids chars_mem
assign_new key v [] params h = refl
assign_new key v ((k, w) ∷ regs) params h =
    let rest = assign_new key v regs params in ground (arith, rest)

avoids-append :
    (key : Chars) (v : ℕ) (regs : Regs) (params : List Chars)
    → avoids (key ∷ params) regs ≡ true
    → chars_mem key params ≡ false
    → avoids params (regs ++ (key, v) ∷ []) ≡ true
unfolding avoids chars_mem
avoids-append key v [] params h n = ground arith
avoids-append key v ((k, w) ∷ regs) params h n =
    let rest = avoids-append key v regs params in ground (arith, rest)

module _ (register : Chars → ℕ) (bp : Enter) (regs : ℕ) where
  -- How many parameters the loop has yet to come to.
  abbrev rounds : ℕ → List Chars → ℕ
  rounds idx params = min (bp.nb_args - idx) (length params)

  pub is_live-save_registers :
      (n idx : ℕ) (params : List Chars) (st : State)
      → is_live n (save_registers register bp regs idx params st).live
        ≡ (is_between st.next (rounds idx params) n || is_live n st.live)
  unfolding save_registers add_exit save_register is_live
  is_live-save_registers n idx [] st = ground arith
  is_live-save_registers n idx (r ∷ params) st =
      let after = add_exit bp regs (save_register regs r (register r) st) in
      let rest = is_live-save_registers n (suc idx) params after in ground (arith, rest)

  pub retbp-save_registers :
      (idx : ℕ) (params : List Chars) (st : State)
      → (save_registers register bp regs idx params st).retbp bp.number
        ≡ last_number st.next (rounds idx params) (st.retbp bp.number)
  unfolding save_registers add_exit save_register
  retbp-save_registers idx [] st = ground arith
  retbp-save_registers idx (r ∷ params) st =
      let after = add_exit bp regs (save_register regs r (register r) st) in
      let rest = retbp-save_registers (suc idx) params after in ground (arith, rest)

  exits-save_registers :
      (idx : ℕ) (params : List Chars) (st : State)
      → (save_registers register bp regs idx params st).exits
        ≡ added bp regs st.next (rounds idx params) st.exits
  unfolding save_registers add_exit save_register added
  exits-save_registers idx [] st = let e : rounds idx [] ≡ 0 = omega arith in rw (e, added) refl
  exits-save_registers idx (r ∷ params) st =
      let after = add_exit bp regs (save_register regs r (register r) st) in
      let rest = exits-save_registers (suc idx) params after in
      elim (Bool-cases (leb bp.nb_args idx)) [
        | inl h ↦ let e : rounds idx (r ∷ params) ≡ 0 = ground arith in rw (h, e) refl
        | inr h ↦
            let e : rounds idx (r ∷ params) ≡ suc (rounds (suc idx) params) = ground arith in
            rw (h, e) rest
      ]

  dict-save_registers :
      (idx : ℕ) (params : List Chars) (st : State)
      → are_distinct params ≡ true
      → avoids params (st.dict regs) ≡ true
      → (save_registers register bp regs idx params st).dict regs
        ≡ (st.dict regs ++ saved register (take (bp.nb_args - idx) params))
  unfolding save_registers add_exit save_register are_distinct saved
  dict-save_registers idx [] st u a =
      elim (bp.nb_args - idx) as (λ k. st.dict regs ≡ st.dict regs ++ saved register (take k [])) [
        | zero ↦ sym (append-nil (st.dict regs))
        | suc k ↦ sym (append-nil (st.dict regs))
      ]
  dict-save_registers idx (r ∷ params) st u a =
      let after = add_exit bp regs (save_register regs r (register r) st) in
      let apart : chars_mem r params ≡ false = ground arith in
      let distinct : are_distinct params ≡ true = ground arith in
      let e : after.dict regs ≡ st.dict regs ++ (r, register r) ∷ [] =
        let new = assign_new r (register r) (st.dict regs) params a in ground (arith, new) in
      let free : avoids params (after.dict regs) ≡ true =
        rw e (avoids-append r (register r) (st.dict regs) params a apart) in
      let rest = dict-save_registers (suc idx) params after distinct free in
      elim (Bool-cases (leb bp.nb_args idx)) [
        | inl h ↦
            let z : bp.nb_args - idx ≡ 0 = ground arith in
            rw (h, z) (sym (append-nil (st.dict regs)))
        | inr h ↦
            let z : bp.nb_args - idx ≡ suc (bp.nb_args - suc idx) = ground arith in
            let later = saved register (take (bp.nb_args - suc idx) params) in
            rw (h, z)
              (rest
                ∙ ap (λ (d : Regs). d ++ later) e
                ∙ append_assoc (st.dict regs) ((r, register r) ∷ []) later)
      ]

  pub hooks-save_registers :
      (idx : ℕ) (params : List Chars) (st : State)
      → (save_registers register bp regs idx params st).hooks ≡ st.hooks
  unfolding save_registers add_exit save_register
  hooks-save_registers idx [] st = refl
  hooks-save_registers idx (r ∷ params) st =
      let after = add_exit bp regs (save_register regs r (register r) st) in
      let rest = hooks-save_registers (suc idx) params after in ground (arith, rest)

  pub bkps-save_registers :
      (idx : ℕ) (params : List Chars) (st : State)
      → (save_registers register bp regs idx params st).bkps ≡ st.bkps
  unfolding save_registers add_exit save_register
  bkps-save_registers idx [] st = refl
  bkps-save_registers idx (r ∷ params) st =
      let after = add_exit bp regs (save_register regs r (register r) st) in
      let rest = bkps-save_registers (suc idx) params after in ground (arith, rest)

-- Entering a tracked function reads the registers of its first `nb_args` parameters, which are distinct,
-- into a new dictionary, in their order. It makes as many exit breakpoints as registers it reads, all
-- for that dictionary, and remembers the last of them only.
pub enter-tracked :
    (register : Chars → ℕ) (params : List Chars) (bp : Enter) (st : State)
    → are_distinct params ≡ true
    → let after = enter register params bp st in
      let count = min bp.nb_args (length params) in
      ((after.dict st.next_dict ≡ saved register (take bp.nb_args params))
        × (after.exits ≡ added bp st.next_dict st.next count st.exits)
        × (after.retbp bp.number ≡ last_number st.next count (st.retbp bp.number)))
unfolding enter avoids
enter-tracked register params bp st u =
    let regs = st.next_dict in
    let start : State = record st { dict = set regs [] st.dict; next_dict = suc regs } in
    let empty : start.dict regs ≡ [] = ground arith in
    let free : avoids params (start.dict regs) ≡ true = rw empty refl in
    let all : bp.nb_args - 0 ≡ bp.nb_args = omega arith in
    let kept = saved register (take (bp.nb_args - 0) params) in
    subst
      (λ k.
        ((enter register params bp st).dict regs ≡ saved register (take k params))
        × ((enter register params bp st).exits
            ≡ added bp regs st.next (min k (length params)) st.exits)
        × ((enter register params bp st).retbp bp.number
            ≡ last_number st.next (min k (length params)) (st.retbp bp.number)))
      all
      (
        dict-save_registers register bp regs 0 params start u free
            ∙ ap (λ (d : Regs). d ++ kept) empty,
        exits-save_registers register bp regs 0 params start,
        retbp-save_registers register bp regs 0 params start,
      )
