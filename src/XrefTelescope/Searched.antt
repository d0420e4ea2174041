-- ===== src/XrefTelescope/Searched.antt =====
-- scripts/xref-telescope.py: the order of the bytes in a pattern, and the depth of the tree.
use gef_extras.Common.{
  ℕ, zero, suc, ◌+◌, ◌-◌, ◌*◌, ◌/◌, ◌%◌, ◌<◌, true, false, List, [], ◌∷◌, ◌++◌, length, All, Chars,
  codes, ◌≡◌, refl, ap, sym, ◌∙◌, arith,
}
use mathlib.Core.List.{reverse, reverse-append}
use mathlib.Core.Path.{subst}
use gef_extras.XrefTelescope.{
  Location, Debuggee, byte_text, forward, backward, byte_texts, hex, pattern_of, locations, line,
  suffix_pre, suffix_post, show_locations, xref_telescope,
}

forward_end :
    (p : Chars) (i n : ℕ) → forward p i (suc n) ≡ forward p i n ++ byte_text p (i + 2 * n) ∷ []
unfolding forward
forward_end p i zero = ap (λ k. byte_text p k ∷ []) (omega arith)
forward_end p i (suc n) =
    let e : i + 2 + 2 * n ≡ i + 2 * suc n = omega arith in
    ap (λ t. byte_text p i ∷ t)
      (forward_end p (i + 2) n ∙ ap (λ k. forward p (i + 2) n ++ byte_text p k ∷ []) e)

backward-forward :
    (p : Chars) (i j n : ℕ) → j + 2 ≡ i + 2 * n → backward p j n ≡ reverse (forward p i n)
unfolding forward backward
backward-forward p i j zero h = refl
backward-forward p i j (suc zero) h = ap (λ k. byte_text p k ∷ []) (omega arith)
backward-forward p i j (suc (suc m)) h =
    let last = i + 2 * suc m in
    let e : j ≡ last = omega arith in
    let turned =
      ap reverse (forward_end p i (suc m))
      ∙ reverse-append (forward p i (suc m)) (byte_text p last ∷ []) in
    ap (λ k. byte_text p k ∷ backward p (j - 2) (suc m)) e
    ∙ ap (λ t. byte_text p last ∷ t) (backward-forward p i (j - 2) (suc m) (omega arith))
    ∙ sym turned

-- The pairs of characters from the place `i` on.
abbrev pub pairs_from : ℕ → Chars → List Chars
pairs_from i p = forward p i ((length p - 2 + 1) / 2)

-- For a pattern of more than its prefix `0x`: in the order of a big-endian memory its bytes are the
-- pairs of digits, and in that of a little-endian one the same pairs in reverse if the number of
-- digits is even. If it is odd the pairs start one place earlier, at the `x`, which comes last.
pub byte_texts-pairs :
    (p : Chars)
    → 2 < length p
    → (byte_texts true p ≡ pairs_from 2 p)
      × (byte_texts false p ≡ reverse (pairs_from (2 - length p % 2) p))
unfolding byte_texts
byte_texts-pairs p h = (
  refl,
  backward-forward p (2 - length p % 2) (length p - 2) ((length p - 2 + 1) / 2) (omega arith),
)

-- A heading `longer` is `heading` with `n` more parts, for the levels of the tree in between.
pub data Below : Chars → ℕ → Chars → Type 0 where
  same : {heading : Chars} → Below heading 0 heading
  deeper :
      {n : ℕ} {heading longer : Chars} (locs : List Location)
      → Below (heading ++ suffix_post locs) n longer
      → Below heading (suc n) longer

All-append {ℓ κ} :
    {A : Type ℓ} (P : A → Type κ) (xs ys : List A) → All P xs → All P ys → All P (xs ++ ys)
All-append P [] ys h k = k
All-append P (x ∷ xs) ys (p, h) k = (p, All-append P xs ys h k)

All-weaken {ℓ κ} :
    {A : Type ℓ} (P Q : A → Type κ) (xs : List A) → ((x : A) → P x → Q x) → All P xs → All Q xs
All-weaken P Q [] f h = tt
All-weaken P Q (x ∷ xs) f (p, h) = (f x p, All-weaken P Q xs f h)

longer_heading :
    (heading : Chars) (locs : List Location)
    → (c : ℕ) × (s : Chars) × (heading ++ suffix_post locs ≡ c ∷ s)
longer_heading [] [] = (_, _, refl)
longer_heading [] (loc ∷ locs) = (_, _, refl)
longer_heading (c ∷ s) locs = (c, s ++ suffix_post locs, refl)

module _ (d : Debuggee) where
  -- A line of the tree below a heading, of at most so many levels.
  abbrev pub Shown : Chars → ℕ → Chars → Type 0
  Shown heading depth text =
      (n : ℕ) × (longer : Chars) × (locs : List Location) × (loc : Location) × (n < depth)
      × Below heading n longer
      × (text ≡ line d longer (suffix_pre locs) loc)

  raise :
      (heading : Chars) (depth : ℕ) (locs : List Location) (text : Chars)
      → Shown (heading ++ suffix_post locs) depth text
      → Shown heading (suc depth) text
  raise heading depth locs text (n, longer, others, loc, lt, b, e) =
      (suc n, longer, others, loc, omega arith, deeper locs b, e)

  show_locations-Shown :
      (depth : ℕ) (below : Chars → Chars → List Chars) (heading : Chars) (locs : List Location)
      → ((p : Chars) (c : ℕ) (s : Chars) → All (Shown (c ∷ s) depth) (below p (c ∷ s)))
      → All (Shown heading (suc depth)) (show_locations d below heading locs)
  unfolding show_locations
  show_locations-Shown depth below heading [] h = tt
  show_locations-Shown depth below heading (loc ∷ locs) h =
      let (c, s, e) = longer_heading heading locs in
      let inner =
        subst (λ t. All (Shown t depth) (below (hex loc.start) t)) (sym e)
          (h (hex loc.start) c s) in
      (
        (0, heading, locs, loc, omega arith, same, refl),
        All-append (Shown heading (suc depth)) (below (hex loc.start) (heading ++ suffix_post locs))
            (show_locations d below heading locs)
            (All-weaken (Shown (heading ++ suffix_post locs) depth) (Shown heading (suc depth)) _
              (raise heading depth locs) inner)
            (show_locations-Shown depth below heading locs h),
      )

  lines-Shown :
      (depth : ℕ) (pattern : Chars) (c : ℕ) (s : Chars)
      → All (Shown (c ∷ s) depth) (xref_telescope d depth pattern (c ∷ s))
  unfolding xref_telescope
  lines-Shown zero pattern c s = tt
  lines-Shown (suc depth) pattern c s =
      show_locations-Shown depth (xref_telescope d depth) (c ∷ s)
        (locations d (pattern_of d pattern) d.maps) (lines-Shown depth)

  -- For a depth of at least one the output is the root of the tree and then lines of places, each at
  -- a level below the depth: no chain of references is followed further, also where the references go
  -- round in a circle.
  pub xref_telescope-Shown :
      (depth : ℕ) (pattern : Chars)
      → (lines : List Chars) × (xref_telescope d (suc depth) pattern [] ≡ codes " ." ∷ lines)
        × All (Shown [] (suc depth)) lines
  unfolding xref_telescope
  xref_telescope-Shown depth pattern = (
    _,
    refl,
    show_locations-Shown depth (xref_telescope d depth) []
        (locations d (pattern_of d pattern) d.maps) (lines-Shown depth),
  )
