-- ===== src/Bytearray/Expand.antt =====
-- scripts/bytearray.py: what the cleaned text of the option goes through before the table is made.
use gef_extras.Common.{
  ℕ, ◌%◌, ◌/◌, ◌<◌, ◌≡◌, refl, Bool, true, false, List, [], ◌∷◌, map, Option, none, some, Chars, ok,
  err, All, length, any_of, ◌==◌, arith,
}
use gef_extras.Common.Hex.{
  is_hex_digit, byte_value, byte_value_total, hex_byte, is_hex_digit-hex_digit, byte_value-hex_byte,
}
use gef_extras.Bytearray.{clean_hex, expand, excluded_of, hex_to_bin, bytes_mem, index_error}

abbrev pub AllHex : Chars → Type 0
AllHex = All (λ c. is_hex_digit c ≡ true)

pub clean_hex-AllHex : (s : Chars) → AllHex (clean_hex s)
unfolding clean_hex
clean_hex-AllHex [] = tt
clean_hex-AllHex (c ∷ s) = ground (arith, clean_hex-AllHex s)

-- The bytes that a text of digit pairs lists.
abbrev pub listed : Chars → List ℕ
listed [] = []
listed (a ∷ []) = []
listed (a ∷ b ∷ rest) = elim (byte_value a b) [ none ↦ listed rest | some v ↦ v ∷ listed rest ]

abbrev pub elem : ℕ → List ℕ → Bool
elem v = any_of (λ x. v == x)

pub expand_clean :
    (before : Option (ℕ × ℕ)) (s : Chars) → AllHex s → length s % 2 ≡ 0 → expand before s ≡ ok s
unfolding expand
expand_clean before [] h e = refl
expand_clean before (a ∷ []) h e = absurd (omega arith)
expand_clean before (a ∷ b ∷ rest) (ha, (hb, h)) e =
    ground (arith, expand_clean (some (a, b)) rest h)

pub expand_odd :
    (before : Option (ℕ × ℕ)) (s : Chars)
    → AllHex s
    → length s % 2 ≡ 1
    → expand before s ≡ err index_error
unfolding expand
expand_odd before [] h e = absurd (omega arith)
expand_odd before (a ∷ []) h e = refl
expand_odd before (a ∷ b ∷ rest) (ha, (hb, h)) e = ground (arith, expand_odd (some (a, b)) rest h)

-- A permitted character is none of those that `hex2bin` drops.
not_dropped :
    (c : ℕ)
    → is_hex_digit c ≡ true
    → ((c == b'\'') ≡ false) × ((c == b'"') ≡ false) × ((c == b'\\') ≡ false)
not_dropped c h = ground arith

hex_to_bin_pair :
    (a b v : ℕ)
    → is_hex_digit a ≡ true
    → is_hex_digit b ≡ true
    → byte_value a b ≡ some v
    → hex_to_bin (a ∷ b ∷ []) ≡ ok (v ∷ [])
unfolding hex_to_bin
hex_to_bin_pair a b v ha hb e =
    let (a1, a2, a3) = not_dropped a ha in
    let (b1, b2, b3) = not_dropped b hb in ground (arith, a1, a2, a3, b1, b2, e)

abbrev pub single : ℕ → List ℕ
single v = v ∷ []

pub excluded_of-listed :
    (s : Chars) → AllHex s → length s % 2 ≡ 0 → excluded_of s ≡ ok (map single (listed s))
unfolding excluded_of
excluded_of-listed [] h e = refl
excluded_of-listed (a ∷ []) h e = absurd (omega arith)
excluded_of-listed (a ∷ b ∷ rest) (ha, (hb, h)) e =
    let (v, ev, lv) = byte_value_total a b ha hb in
    ground (arith, hex_to_bin_pair a b v ha hb ev, excluded_of-listed rest h (omega arith), ev)

pub bytes_mem-single : (v : ℕ) (xs : List ℕ) → bytes_mem (single v) (map single xs) ≡ elem v xs
bytes_mem-single v [] = refl
bytes_mem-single v (x ∷ xs) = ground (arith, bytes_mem-single v xs)

-- The digits of a byte are permitted, so it is converted back to itself.
pub hex_to_bin-hex_byte : (v : ℕ) → v < 256 → hex_to_bin (hex_byte v) ≡ ok (single v)
hex_to_bin-hex_byte v h =
    hex_to_bin_pair _ _ v (is_hex_digit-hex_digit (v / 16) (omega arith))
      (is_hex_digit-hex_digit (v % 16) (omega arith)) (byte_value-hex_byte v h)

-- Cleaning drops the dots, so from an even number of digits on the expansion of ".." changes
-- nothing: no range is ever expanded.
pub expand-clean_hex :
    (s : Chars) → length (clean_hex s) % 2 ≡ 0 → expand none (clean_hex s) ≡ ok (clean_hex s)
expand-clean_hex s e = expand_clean none (clean_hex s) (clean_hex-AllHex s) e
