-- ===== src/Ftrace/Cleaned.antt =====
-- scripts/ftrace.py: what the clean-up leaves behind after one call of a tracked function.
use gef_extras.Common.{
  Bool, select, if◌then◌else◌, ℕ, suc, ◌+◌, ◌-◌, ◌≤◌, true, false, not, ◌&&◌, ◌||◌, List, [], ◌∷◌,
  some, Chars, length, min, ltb, ◌==◌, ◌≡◌, refl, ap, ◌∙◌, arith, Bool-cases, inl, inr,
}
use gef_extras.Ftrace.{
  raised, discard, Enter, State, finished, set, is_live, without, delete, enter, delete_all,
  cleanup,
}
use gef_extras.Ftrace.Tracked.{
  is_between, last_number, is_live-save_registers, retbp-save_registers, hooks-save_registers,
  bkps-save_registers,
}

is_live-without :
    (n k : ℕ) (live : List ℕ) → is_live n (without k live) ≡ (is_live n live && not (n == k))
unfolding is_live without
is_live-without n k [] = refl
is_live-without n k (l ∷ live) = let rest = is_live-without n k live in ground (arith, rest)

is_live-select :
    (gone : ℕ → Bool) (n : ℕ) (live : List ℕ)
    → is_live n (select (λ k. not (gone k)) live) ≡ (is_live n live && not (gone n))
unfolding is_live
is_live-select gone n [] = refl
is_live-select gone n (k ∷ live) =
    let rest = is_live-select gone n live in
    elim (Bool-cases (n == k)) [
      | inr e ↦ ground (arith, e, rest)
      | inl e ↦
          let same : n ≡ k = ground (arith, e) in let h = ap gone same in ground (arith, e, rest, h)
    ]

cleanup-raised :
    (bp : Enter) (m : ℕ) (s : State)
    → s.bkps ≡ bp ∷ []
    → s.retbp bp.number ≡ some m
    → is_live m s.live ≡ false
    → cleanup s ≡ raised s
unfolding cleanup delete_all delete
cleanup-raised bp m s b r gone = rw (b, delete_all, r, gone) refl

cleanup-some :
    (bp : Enter) (hooks m : ℕ) (s : State)
    → s.bkps ≡ bp ∷ []
    → s.hooks ≡ suc hooks
    → s.retbp bp.number ≡ some m
    → is_live m s.live ≡ true
    → is_live bp.number (without m s.live) ≡ true
    → cleanup s ≡ finished (record s { live = without bp.number (without m s.live); hooks = hooks })
unfolding cleanup delete_all delete
cleanup-some bp hooks m s b h r alive both = rw (b, delete_all, r, alive, both, h) refl

live_early :
    (k next : ℕ) (live : List ℕ)
    → is_live k live ≡ true
    → ((n : ℕ) → next ≤ n → is_live n live ≡ false)
    → ltb k next ≡ true
live_early k next live alive fresh = elim (Bool-cases (ltb k next)) [
  | inl h ↦ h
  | inr h ↦ let new = fresh k (ground (arith, h)) in cc
]

-- With `suc c` exit breakpoints, of which gdb has deleted some.
cleanup_count :
    (gone : ℕ → Bool) (bp : Enter) (hooks next c : ℕ) (live : List ℕ) (s : State)
    → s.bkps ≡ bp ∷ []
    → s.hooks ≡ suc hooks
    → s.retbp bp.number ≡ some (next + c)
    → is_live bp.number live ≡ true
    → gone bp.number ≡ false
    → ((n : ℕ) → next ≤ n → is_live n live ≡ false)
    → ((n : ℕ) → is_live n s.live ≡ ((is_between next (suc c) n || is_live n live) && not (gone n)))
    → (st' : State) × (cleanup s ≡ (if gone (next + c) then raised s else finished st'))
      × ((n : ℕ)
          → is_live n st'.live
            ≡ ((is_between next c n || is_live n live && not (n == bp.number)) && not (gone n)))
cleanup_count gone bp hooks next c live s b h r alive kept fresh all =
    let m = next + c in
    let done : State = record s { live = without bp.number (without m s.live); hooks = hooks } in
    let here = all bp.number in
    let there = all m in
    let early : ltb bp.number next ≡ true = live_early bp.number next live alive fresh in
    let inner = is_live-without bp.number m s.live in
    (
      done,
      elim (Bool-cases (gone m)) [
        | inl g ↦ rw g (cleanup-raised bp m s b r (ground (arith, there, g)))
        | inr g ↦ rw g (
            cleanup-some bp hooks m s b h r (ground (arith, there, g))
              (ground (arith, here, inner, early, kept)))
      ],
      λ n.
          let now = all n in
          let e = is_live-without n bp.number (without m s.live) in
          let f = is_live-without n m s.live in
          let g = fresh m (omega arith) in ground (arith, now, e, f, g, early),
    )

-- After one call of the only function that is tracked, with at least one argument, and whichever exit
-- breakpoints gdb has deleted by itself when the program exits: if the one that was made last is among
-- them, the clean-up raises and changes nothing, so that it deletes neither the entry breakpoint nor any
-- other and stays connected. Otherwise it deletes the entry breakpoint and the last of the exit
-- breakpoints, and of those for the other arguments it deletes none.
pub cleanup-enter :
    (register : Chars → ℕ) (params : List Chars) (gone : ℕ → Bool) (bp : Enter) (hooks others : ℕ)
    (st : State)
    → st.bkps ≡ bp ∷ []
    → st.hooks ≡ suc hooks
    → min bp.nb_args (length params) ≡ suc others
    → is_live bp.number st.live ≡ true
    → gone bp.number ≡ false
    → ((n : ℕ) → st.next ≤ n → is_live n st.live ≡ false)
    → let after = discard gone (enter register params bp st) in
      (st' : State) × (cleanup after
        ≡ (if gone (st.next + others) then raised after else finished st'))
      × ((n : ℕ)
          → is_live n st'.live ≡ (
              (is_between st.next others n || is_live n st.live && not (n == bp.number))
              && not (gone n)))
unfolding enter
cleanup-enter register params gone bp hooks others st b connected some_made alive kept fresh =
    let regs = st.next_dict in
    let start : State = record st { dict = set regs [] st.dict; next_dict = suc regs } in
    let entered = enter register params bp st in
    let count : min (bp.nb_args - 0) (length params) ≡ suc others = omega (arith, some_made) in
    cleanup_count gone bp hooks st.next others st.live (discard gone entered)
      (bkps-save_registers register bp regs 0 params start ∙ b)
      (hooks-save_registers register bp regs 0 params start ∙ connected)
      (retbp-save_registers register bp regs 0 params start
        ∙ ap (λ k. last_number st.next k (st.retbp bp.number)) count)
      alive kept fresh
      (λ n.
        is_live-select gone n entered.live
        ∙ ap (λ o. o && not (gone n))
            (is_live-save_registers register bp regs n 0 params start
              ∙ ap (λ k. is_between st.next k n || is_live n st.live) count))
