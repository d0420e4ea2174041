-- ===== src/Common/Bits.antt =====
-- `a & (1 << k)` on the native numbers: the digit of `a` at `k`, as a test reads it.
use Prim.Native.Nat.{ℕ, zero, suc, ◌+◌, ◌*◌, ◌/◌, ◌%◌, ◌≤◌, min, bit_and, digits, bit_and-bitwise}
use mathlib.Core.Path.{◌≡◌, refl}
use native.Mathlib.Omega.{arith}

-- The digit recursion of `bit_and`, with the bound on its rounds apart.
abbrev meet : ℕ → ℕ → ℕ → ℕ
meet rounds = digits (λ _. zero) min rounds

-- Any bound that reaches the left number gives the same digits.
meet_bound : (r s x y : ℕ) → x ≤ r → x ≤ s → meet r x y ≡ meet s x y
meet_bound zero zero zero y p q = refl
meet_bound zero zero (suc x) y p q = absurd (omega arith)
meet_bound zero (suc s) zero y p q = refl
meet_bound zero (suc s) (suc x) y p q = absurd (omega arith)
meet_bound (suc r) zero zero y p q = refl
meet_bound (suc r) zero (suc x) y p q = absurd (omega arith)
meet_bound (suc r) (suc s) zero y p q = refl
meet_bound (suc r) (suc s) (suc x) y p q =
    omega (arith, meet_bound r s (suc x / 2) (y / 2) (omega arith) (omega arith))

-- One digit of the conjunction.
pub bit_and_digit : (x y : ℕ) → bit_and x y ≡ bit_and (x / 2) (y / 2) * 2 + min (x % 2) (y % 2)
bit_and_digit zero y = omega (arith, bit_and-bitwise 0 y, bit_and-bitwise 0 (y / 2))
bit_and_digit (suc x) y = omega (
  arith,
  meet_bound x (suc x / 2) (suc x / 2) (y / 2) (omega arith) (omega arith),
  bit_and-bitwise (suc x / 2) (y / 2),
  bit_and-bitwise (suc x) y,
)

bit_and-zero_below : (bound x : ℕ) → x ≤ bound → bit_and x 0 ≡ 0
bit_and-zero_below zero zero h = refl
bit_and-zero_below zero (suc x) h = absurd (omega arith)
bit_and-zero_below (suc b) zero h = refl
bit_and-zero_below (suc b) (suc x) h =
    omega (arith, bit_and-zero_below b (suc x / 2) (omega arith), bit_and_digit (suc x) 0)

pub bit_and-zero : (x : ℕ) → bit_and x 0 ≡ 0
bit_and-zero x = bit_and-zero_below x x (omega arith)

pub bit_and-one : (x : ℕ) → bit_and x 1 ≡ x % 2
bit_and-one x = omega (arith, bit_and_digit x 1, bit_and-zero (x / 2))

-- The flags at positions 1, 2, 3: the digit there, at its weight.
pub bit_and-two : (x : ℕ) → bit_and x 2 ≡ (x / 2 % 2) * 2
bit_and-two x = omega (arith, bit_and_digit x 2, bit_and-one (x / 2))

pub bit_and_four : (x : ℕ) → bit_and x 4 ≡ (x / 4 % 2) * 4
bit_and_four x = omega (arith, bit_and_digit x 4, bit_and-two (x / 2))

pub bit_and_eight : (x : ℕ) → bit_and x 8 ≡ (x / 8 % 2) * 8
bit_and_eight x = omega (arith, bit_and_digit x 8, bit_and_four (x / 2))

-- A conjunction is at most its right number.
bit_and-le_below : (bound x y : ℕ) → y ≤ bound → bit_and x y ≤ y
bit_and-le_below zero x zero h = omega (arith, bit_and-zero x)
bit_and-le_below zero x (suc y) h = absurd (omega arith)
bit_and-le_below (suc b) x zero h = omega (arith, bit_and-zero x)
bit_and-le_below (suc b) x (suc y) h =
    omega (arith, bit_and_digit x (suc y), bit_and-le_below b (x / 2) (suc y / 2) (omega arith))

pub bit_and-le : (x y : ℕ) → bit_and x y ≤ y
bit_and-le x y = bit_and-le_below y x y (omega arith)
