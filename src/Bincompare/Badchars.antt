-- ===== src/Bincompare/Badchars.antt =====
-- scripts/bincompare.py: the text of the differing bytes.
use gef_extras.Common.{
  ℕ, ◌≡◌, refl, sym, ◌∙◌, ap, true, false, List, [], ◌∷◌, ◌++◌, append_assoc, append-nil, Chars,
  ◌==◌, arith, Bool-cases, inl, inr,
}
use gef_extras.Common.Hex.{hex_byte}
use gef_extras.Bincompare.{State, compare_byte, add_badchar}
use gef_extras.Bincompare.Compare.{Pairs, compare_pairs}

-- The bytes of the file that differ, in their order.
abbrev pub differing : Pairs → List ℕ
differing [] = []
differing ((b, m) ∷ ps) =
    let rest = differing ps in elim (b == m) [ true ↦ rest | false ↦ b ∷ rest ]

abbrev pub joined_after : List ℕ → Chars
joined_after [] = []
joined_after (b ∷ bs) = b',' ∷ b' ' ∷ (hex_byte b ++ joined_after bs)

-- The digits of the bytes, with ", " between them.
abbrev pub joined : List ℕ → Chars
joined [] = []
joined (b ∷ bs) = hex_byte b ++ joined_after bs

module _ (b m : ℕ) (ps : Pairs) (s : State) where
  badchars_same :
      (b == m) ≡ true
      → ((compare_byte b m s).badchars ≡ s.badchars) × (differing ((b, m) ∷ ps) ≡ differing ps)
  unfolding compare_byte
  badchars_same e = (ground arith, ground arith)

  badchars_differs :
      (b == m) ≡ false
      → ((compare_byte b m s).badchars ≡ add_badchar s.badchars (hex_byte b))
        × (differing ((b, m) ∷ ps) ≡ b ∷ differing ps)
  unfolding compare_byte
  badchars_differs e = (ground arith, ground arith)

add_badchar-cons :
    (c : ℕ) (text hex : Chars) → add_badchar (c ∷ text) hex ≡ c ∷ (text ++ (b',' ∷ b' ' ∷ hex))
add_badchar-cons c text hex = refl

-- Once a byte was listed, each further one is listed behind a comma.
badchars_more :
    (ps : Pairs) (s : State) (c : ℕ) (text : Chars)
    → s.badchars ≡ c ∷ text
    → (compare_pairs ps s).badchars ≡ c ∷ (text ++ joined_after (differing ps))
badchars_more [] s c text e = e ∙ ap (λ t. c ∷ t) (sym (append-nil text))
badchars_more ((b, m) ∷ ps) s c text e = elim (Bool-cases (b == m)) [
  | inl h ↦
      let (kept, same) = badchars_same b m ps s h in
      badchars_more ps (compare_byte b m s) c text (kept ∙ e)
      ∙ ap (λ t. c ∷ (text ++ joined_after t)) (sym same)
  | inr h ↦
      let (added, more) = badchars_differs b m ps s h in
      badchars_more ps (compare_byte b m s) c (text ++ (b',' ∷ b' ' ∷ hex_byte b))
        (added ∙ ap (λ t. add_badchar t (hex_byte b)) e)
      ∙ ap (λ t. c ∷ t) (append_assoc text (b',' ∷ b' ' ∷ hex_byte b) (joined_after (differing ps)))
      ∙ ap (λ t. c ∷ (text ++ joined_after t)) (sym more)
]

pub badchars-compare_pairs :
    (ps : Pairs) (s : State)
    → s.badchars ≡ []
    → (compare_pairs ps s).badchars ≡ joined (differing ps)
badchars-compare_pairs [] s e = e
badchars-compare_pairs ((b, m) ∷ ps) s e = elim (Bool-cases (b == m)) [
  | inl h ↦
      let (kept, same) = badchars_same b m ps s h in
      badchars-compare_pairs ps (compare_byte b m s) (kept ∙ e) ∙ ap joined (sym same)
  | inr h ↦
      let (added, more) = badchars_differs b m ps s h in
      badchars_more ps (compare_byte b m s) _ _ (added ∙ ap (λ t. add_badchar t (hex_byte b)) e)
      ∙ ap joined (sym more)
]
