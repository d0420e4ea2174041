-- ===== src/Common/Hex.antt =====
-- Python's `"{:02x}".format(v)` and `int(s, 16)` on the two digits of a byte.
use Prim.Native.Nat.{zero, suc, ℕ, ◌+◌, ◌-◌, ◌*◌, ◌/◌, ◌%◌, ◌<◌}
use mathlib.Core.Path.{◌≡◌}
use mathlib.Core.Logic.{◌≢◌, inl, inr}
use mathlib.Core.Bool.{Bool, true, ◌&&◌, ◌||◌}
use mathlib.Core.Option.{Option, none, some}
use mathlib.Core.List.{[], ◌∷◌}
use native.Mathlib.Omega.{arith}
use gef_extras.Common.Tests.{Option-cases, ltb, leb, if◌then◌else◌}
use gef_extras.Common.Text.{Chars}

abbrev pub hex_digit : ℕ → ℕ
hex_digit d = if ltb d 10 then b'0' + d else b'a' + (d - 10)

-- `"{:02x}"` of a value below 256.
abbrev pub hex_byte : ℕ → Chars
hex_byte v = hex_digit (v / 16) ∷ hex_digit (v % 16) ∷ []

-- The digits of a number, in front of `acc`: `fuel` rounds are enough for a number below
-- 16 ^ (fuel + 1).
unfoldable pub hex_digits : ℕ → ℕ → Chars → Chars
hex_digits zero n acc = hex_digit (n % 16) ∷ acc
hex_digits (suc fuel) n acc =
    let more = hex_digits fuel (n / 16) (hex_digit (n % 16) ∷ acc) in
    if ltb n 16 then hex_digit n ∷ acc else more

-- `"{:x}"`, for any number: the fuel is more than the number of its digits.
unfoldable pub format_x : ℕ → Chars
unfolding hex_digits
format_x n = hex_digits n n []

-- `"{:02x}"`, for any number.
unfoldable pub format_02x : ℕ → Chars
unfolding format_x
format_02x n = if ltb n 256 then hex_byte n else format_x n

decimal_digits : ℕ → ℕ → Chars → Chars
decimal_digits zero n acc = (b'0' + n % 10) ∷ acc
decimal_digits (suc fuel) n acc =
    let more = decimal_digits fuel (n / 10) ((b'0' + n % 10) ∷ acc) in
    if ltb n 10 then (b'0' + n) ∷ acc else more

-- `"{:d}"`, for any number.
unfoldable pub format_d : ℕ → Chars
unfolding decimal_digits
format_d n = decimal_digits n n []

abbrev pub is_hex_digit : ℕ → Bool
is_hex_digit c =
    (leb b'A' c && leb c b'F') || (leb b'a' c && leb c b'f') || (leb b'0' c && leb c b'9')

-- The value of a digit, of either case.
unfoldable pub digit_value : ℕ → Option ℕ
digit_value c =
    if leb b'0' c && leb c b'9'
    then some (c - b'0')
    else if leb b'a' c && leb c b'f'
    then some (c - b'a' + 10)
    else if leb b'A' c && leb c b'F'
    then some (c - b'A' + 10)
    else none

unfoldable pub byte_value : ℕ → ℕ → Option ℕ
byte_value a b = elim (digit_value a) [
  | none ↦ none
  | some h ↦ elim (digit_value b) [ none ↦ none | some l ↦ some (h * 16 + l) ]
]

pub digit_value-hex_digit : (d : ℕ) → d < 16 → digit_value (hex_digit d) ≡ some d
unfolding digit_value
digit_value-hex_digit d h = ground arith

-- A byte is read back from its two digits.
pub byte_value-hex_byte :
    (v : ℕ) → v < 256 → byte_value (hex_digit (v / 16)) (hex_digit (v % 16)) ≡ some v
unfolding byte_value
byte_value-hex_byte v h =
    ground (arith, digit_value-hex_digit (v / 16), digit_value-hex_digit (v % 16))

digit_value-lt : (c d : ℕ) → digit_value c ≡ some d → d < 16
unfolding digit_value
digit_value-lt c d h = ground arith

digit_value-ne-none : (c : ℕ) → is_hex_digit c ≡ true → digit_value c ≢ none
unfolding digit_value
digit_value-ne-none c h = ground arith

-- A permitted character has a value.
pub digit_value_total :
    (c : ℕ) → is_hex_digit c ≡ true → (d : ℕ) × (digit_value c ≡ some d) × (d < 16)
digit_value_total c h = elim (Option-cases (digit_value c)) [
  | inl e ↦ absurd (digit_value-ne-none c h e)
  | inr (d, e) ↦ (d, e, digit_value-lt c d e)
]

pub byte_value_total :
    (a b : ℕ)
    → is_hex_digit a ≡ true
    → is_hex_digit b ≡ true
    → (v : ℕ) × (byte_value a b ≡ some v) × (v < 256)
unfolding byte_value
byte_value_total a b ha hb =
    let (h, eh, lh) = digit_value_total a ha in
    let (l, el, ll) = digit_value_total b hb in (h * 16 + l, ground (arith, eh, el), omega arith)

pub is_hex_digit-hex_digit : (d : ℕ) → d < 16 → is_hex_digit (hex_digit d) ≡ true
is_hex_digit-hex_digit d h = ground arith
