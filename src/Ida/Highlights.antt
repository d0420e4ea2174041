-- ===== src/Ida/Highlights.antt =====
-- scripts/ida_interact.py: what is left of a highlight that was deleted.
use gef_extras.Common.{
  ℕ, true, [], ◌∷◌, some, ok, ◌>>=◌, ◌≡◌, refl, ap, sym, arith, Bool-cases, inl, inr,
}
use gef_extras.Ida.{
  ℤ, pos, negsuc, int_eq, Debuggee, State, Colors, store, find, remove, set_color, ea_of,
  highlight_add, highlight_del, highlighted, restored,
}

pub int_eq_refl : (a : ℤ) → int_eq a a ≡ true
unfolding int_eq
int_eq_refl (pos a) = ground arith
int_eq_refl (negsuc a) = ground arith

pub eq_of_int_eq : (a b : ℤ) → int_eq a b ≡ true → a ≡ b
unfolding int_eq
eq_of_int_eq (pos a) (pos b) h = ground arith
eq_of_int_eq (negsuc a) (negsuc b) h = ground arith
eq_of_int_eq (pos a) (negsuc b) h = cc
eq_of_int_eq (negsuc a) (pos b) h = cc

pub find-store :
    (ea : ℤ) (color : ℕ) (colors : Colors) → find ea (store ea color colors) ≡ some color
unfolding find store
find-store ea color [] = ground (arith, int_eq_refl ea)
find-store ea color ((k, v) ∷ colors) =
    let rest = find-store ea color colors in ground (arith, rest)

pub remove-store :
    (ea : ℤ) (color : ℕ) (colors : Colors) → remove ea (store ea color colors) ≡ remove ea colors
unfolding remove store
remove-store ea color [] = ground (arith, int_eq_refl ea)
remove-store ea color ((k, v) ∷ colors) =
    let rest = remove-store ea color colors in ground (arith, rest)

module _ (d : Debuggee) where
  -- The state behind a highlight that was added and deleted again.
  abbrev pub cleared : ℤ → ℕ → State → State
  cleared ea color st =
      let added = highlighted d ea color st in
      record added {
        old_colors = remove ea added.old_colors;
        idb = set_color ea (st.idb.color ea) added.idb;
      }

  restored-highlighted :
      (ea : ℤ) (color : ℕ) (st : State)
      → restored d ea (highlighted d ea color st) ≡ cleared ea color st
  restored-highlighted ea color st =
      let e = find-store ea (st.idb.color ea) st.old_colors in rw (e, restored) refl

  pub color-cleared :
      (ea e : ℤ) (color : ℕ) (st : State) → (cleared ea color st).idb.color e ≡ st.idb.color e
  unfolding set_color
  color-cleared ea e color st = elim (Bool-cases (int_eq e ea)) [
    | inl h ↦ let same = eq_of_int_eq e ea h in rw h (ap st.idb.color (sym same))
    | inr h ↦ rw h refl
  ]

  -- Deleting a highlight right after it was added at the same place gives every line of the database
  -- the colour that it had before, and forgets the colour that was remembered for the line: of a line
  -- that had been highlighted before, the original colour is lost.
  pub highlight_del-add :
      (address color : ℕ) (ea : ℤ) (st : State)
      → ea_of d address ≡ ok ea
      → (st' : State) × ((highlight_add d address color st >>= highlight_del d address) ≡ ok st')
        × ((e : ℤ) → st'.idb.color e ≡ st.idb.color e)
        × (st'.old_colors ≡ remove ea st.old_colors)
  unfolding highlight_add highlight_del
  highlight_del-add address color ea st h = (
    cleared ea color st,
    rw (h, ◌>>=◌, h, ◌>>=◌) (ap (λ s. ok s) (restored-highlighted ea color st)),
    λ e. color-cleared ea e color st,
    remove-store ea (st.idb.color ea) st.old_colors,
  )
