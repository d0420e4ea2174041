-- ===== src/V8/Command/Shown.antt =====
-- scripts/v8-dereference.py: the words that the command goes through, and the tag of a pointer.
use gef_extras.Common.{
  ℕ, zero, suc, ◌+◌, ◌-◌, ◌*◌, ◌/◌, ◌%◌, ◌^◌, ◌≤◌, ◌<◌, true, false, List, [], ◌∷◌, ◌++◌, ◌≡◌, refl,
  ap, sym, ◌∙◌, arith, bit_and,
}
use mathlib.Core.List.{reverse, reverse-append}
use native.Mathlib.Nat.{zero-mul, one-le-pow}
use native.Mathlib.Omega.{pow_step}
use gef_extras.Common.Bits.{bit_and_digit, bit_and-le}
use gef_extras.V8.Command.{upward, downward, indices, untag}

-- The words of the first pages, one after the other: `n` uses of the command in a row.
abbrev pub pages : ℕ → ℕ → List ℕ
pages zero nb = []
pages (suc n) nb = pages n nb ++ indices false n nb

upward-add :
    (start m n next : ℕ) → next ≡ start + m → upward start (m + n) ≡ upward start m ++ upward next n
unfolding upward
upward-add start zero n next h =
    let e : zero + n ≡ n = omega arith in let f : start ≡ next = omega arith in rw (e, f) refl
upward-add start (suc m) n next h =
    let e : suc m + n ≡ suc (m + n) = omega arith in
    rw e (ap (λ s. start ∷ s) (upward-add (start + 1) m n next (omega arith)))

downward-upward : (start n : ℕ) → downward start n ≡ reverse (upward start n)
unfolding upward downward
downward-upward start zero = refl
downward-upward start (suc n) =
    let e : suc n ≡ n + 1 = omega arith in
    let last = ap (upward start) e ∙ upward-add start n 1 (start + n) refl in
    let turned = ap reverse last ∙ reverse-append (upward start n) ((start + n) ∷ []) in
    ap (λ s. (start + n) ∷ s) (downward-upward start n) ∙ sym turned

page_length : (n nb : ℕ) → nb * (n + 1) - n * nb ≡ nb
page_length n nb = grind arith

-- Listing downwards shows the words of the page in the reverse order, and the pages of repeated
-- commands follow one another: `n` of them show the first `n * nb` words, each once, with no gap.
pub indices-pages :
    (n nb : ℕ)
    → (indices true n nb ≡ reverse (indices false n nb)) × (pages n nb ≡ upward 0 (n * nb))
unfolding indices
indices-pages n nb = (downward-upward (n * nb) (nb * (n + 1) - n * nb), joined n nb)
  where
    joined : (n nb : ℕ) → pages n nb ≡ upward 0 (n * nb)
    joined zero nb = ap (upward 0) (sym (zero-mul nb))
    joined (suc n) nb =
        let e = page_length n nb in
        let f : suc n * nb ≡ n * nb + nb = grind arith in
        rw (joined n nb, e, f) (sym (upward-add 0 (n * nb) nb (n * nb) (omega arith)))

-- A power of two is twice another, which is positive.
half_power : (n : ℕ) → 0 < n → (2 ^ n ≡ 2 * 2 ^ (n - 1)) × (1 ≤ 2 ^ (n - 1))
half_power zero h = absurd (omega arith)
half_power (suc n) h =
    let e : suc n - 1 ≡ n = omega arith in rw e (pow_step 2 n, one-le-pow n 2 (omega arith))

low_digit : (addr mask : ℕ) → mask % 2 ≡ 0 → bit_and (2 * addr + 1) mask ≡ bit_and (2 * addr) mask
low_digit addr mask even =
    let e : (2 * addr + 1) / 2 ≡ addr = omega arith in
    let f : (2 * addr) / 2 ≡ addr = omega arith in
    let high = ap (λ t. bit_and t (mask / 2)) (e ∙ sym f) in
    omega (arith, bit_and_digit (2 * addr + 1) mask, bit_and_digit (2 * addr) mask, high)

-- For a width of at least one byte, an address without its tag is even, fits in the width, and is
-- the same for the tagged and the untagged pointer to a place.
pub untag_bounds :
    (ptrsize addr : ℕ)
    → 0 < ptrsize
    → (untag ptrsize addr % 2 ≡ 0)
      × (untag ptrsize addr < 2 ^ (8 * ptrsize))
      × (untag ptrsize (2 * addr + 1) ≡ untag ptrsize (2 * addr))
unfolding untag
untag_bounds ptrsize addr h =
    let (e, p) = half_power (8 * ptrsize) (omega arith) in
    let mask = 2 ^ (8 * ptrsize) - 2 in
    (
      omega (arith, bit_and_digit addr mask),
      omega (arith, bit_and-le addr mask),
      low_digit addr mask (omega arith),
    )
