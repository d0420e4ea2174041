-- ===== src/GotAudit/Dicts.antt =====
-- scripts/got_audit.py: reading the dictionaries behind their updates.
use gef_extras.Common.{
  false, ◌&&◌, ◌||◌, List, [], ◌∷◌, ◌++◌, Chars, if◌then◌else◌, ◌≡◌, refl, ap, ◌∙◌, arith,
  Bool-cases, inl, inr,
}
use gef_extras.Common.Strings.{chars_eq, chars_eq_refl, eq_of_chars_eq, chars_mem}
use gef_extras.GotAudit.{Dict, get, has, add, touch}

pub chars_mem-append :
    (x : Chars) (xs : List Chars) (v : Chars)
    → chars_mem x (xs ++ v ∷ []) ≡ (chars_mem x xs || chars_eq x v)
unfolding chars_mem
chars_mem-append x [] v = ground arith
chars_mem-append x (y ∷ ys) v = ground (arith, chars_mem-append x ys v)

-- The key itself, and the other keys.
pub get-add_same : (key v : Chars) (d : Dict) → get key (add key v d) ≡ get key d ++ v ∷ []
unfolding get add
get-add_same key v [] = rw (chars_eq_refl key) refl
get-add_same key v ((k, values) ∷ d) = elim (Bool-cases (chars_eq k key)) [
  | inl e ↦ rw (e, get) (rw (e, get) refl)
  | inr e ↦ rw (e, get) (rw (e, get) (get-add_same key v d))
]

pub get-add_other :
    (k key v : Chars) (d : Dict) → chars_eq key k ≡ false → get k (add key v d) ≡ get k d
unfolding get add
get-add_other k key v [] h = rw h refl
get-add_other k key v ((j, values) ∷ d) h = elim (Bool-cases (chars_eq j key)) [
  | inl e ↦
      let other : chars_eq j k ≡ false = rw (eq_of_chars_eq j key e) h in
      rw (e, get) (rw (other, get) refl)
  | inr e ↦ rw (e, get) (ap (λ t. if chars_eq j k then values else t) (get-add_other k key v d h))
]

-- Which values a key has behind an addition.
pub mem-get-add :
    (x k key v : Chars) (d : Dict)
    → chars_mem x (get k (add key v d))
      ≡ (chars_mem x (get k d) || (chars_eq key k && chars_eq x v))
mem-get-add x k key v d = elim (Bool-cases (chars_eq key k)) [
  | inl e ↦
      let same : key ≡ k = eq_of_chars_eq key k e in
      rw e (rw same (ap (λ t. chars_mem x t) (get-add_same k v d) ∙ chars_mem-append x (get k d) v))
  | inr e ↦ rw (get-add_other k key v d e) (rw e (ground arith))
]

-- Reading changes no key's values.
get-touch_end : (k key : Chars) (d : Dict) → get k (d ++ (key, []) ∷ []) ≡ get k d
unfolding get
get-touch_end k key [] = ground arith
get-touch_end k key ((j, values) ∷ d) =
    ap (λ t. if chars_eq j k then values else t) (get-touch_end k key d)

pub get-touch : (k key : Chars) (d : Dict) → get k (touch key d) ≡ get k d
unfolding touch
get-touch k key d = elim (Bool-cases (has key d)) [
  | inl e ↦ rw e refl
  | inr e ↦ rw e (get-touch_end k key d)
]
