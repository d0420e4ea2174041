-- ===== src/Common/Strings/Numbers.antt =====
-- Numbers in hexadecimal and back.
use Prim.Native.Nat.{ℕ, zero, suc, ◌+◌, ◌*◌, ◌/◌, ◌%◌, ◌≤◌, ◌<◌}
use mathlib.Core.Path.{◌≡◌, refl, ap, ◌∙◌}
use mathlib.Core.Logic.{inl, inr}
use mathlib.Core.Option.{some}
use mathlib.Core.List.{[], ◌∷◌}
use native.Mathlib.Omega.{arith}
use gef_extras.Common.Tests.{Bool-cases, ltb}
use gef_extras.Common.Text.{Chars}
use gef_extras.Common.Hex.{hex_digit, hex_digits, format_x, digit_value-hex_digit}
use gef_extras.Common.Strings.{read_digits, read_int}

read_digit :
    (d : ℕ) (acc : Chars) (n : ℕ)
    → d < 16
    → read_digits 16 (hex_digit d ∷ acc) n ≡ read_digits 16 acc (n * 16 + d)
unfolding read_digits
read_digit d acc n h = ground (arith, digit_value-hex_digit d h)

read_digits-hex_digits :
    (fuel n : ℕ) (acc : Chars)
    → n ≤ fuel
    → read_digits 16 (hex_digits fuel n acc) 0 ≡ read_digits 16 acc n
unfolding hex_digits
read_digits-hex_digits zero n acc h =
    read_digit (n % 16) acc 0 (omega arith) ∙ ap (read_digits 16 acc) (omega arith)
read_digits-hex_digits (suc fuel) n acc h = elim (Bool-cases (ltb n 16)) [
  | inl e ↦ rw e (read_digit n acc 0 (ground arith) ∙ ap (read_digits 16 acc) (omega arith))
  | inr e ↦ rw e (
      read_digits-hex_digits fuel (n / 16) (hex_digit (n % 16) ∷ acc) (ground arith)
      ∙ read_digit (n % 16) acc (n / 16) (omega arith)
      ∙ ap (read_digits 16 acc) (omega arith))
]

hex_digits-cons :
    (fuel n : ℕ) (acc : Chars) → (c : ℕ) × (s : Chars) × (hex_digits fuel n acc ≡ c ∷ s)
unfolding hex_digits
hex_digits-cons zero n acc = (_, _, refl)
hex_digits-cons (suc fuel) n acc = elim (Bool-cases (ltb n 16)) [
  | inl e ↦ (hex_digit n, acc, rw e refl)
  | inr e ↦ rw e (hex_digits-cons fuel (n / 16) (hex_digit (n % 16) ∷ acc))
]

pub read_int-format_x : (n : ℕ) → read_int 16 (format_x n) ≡ some n
unfolding read_int format_x read_digits
read_int-format_x n =
    let (c, s, e) = hex_digits-cons n n [] in
    let read = read_digits-hex_digits n n [] (omega arith) in rw e (rw e at read)

pub eq_of_format_x : (m n : ℕ) → format_x m ≡ format_x n → m ≡ n
eq_of_format_x m n h =
    let e = ap (read_int 16) h in ground (arith, read_int-format_x m, read_int-format_x n, e)
