-- ===== src/Common/Ranges.antt =====
-- How many rounds Python's `range` takes: `range(0, len, n)` has `(len + (n - 1)) / n` of them.
use Prim.Native.Nat.{ℕ, zero, suc, ◌+◌, ◌-◌, ◌*◌, ◌/◌, ◌≤◌, ◌<◌}
use native.Mathlib.Omega.{arith}
use native.Mathlib.Nat.{div-add-mod, mod-lt}

-- They are enough rounds, and no more.
pub rounds_bounds :
    (n len : ℕ) → 0 < n → (len ≤ ((len + (n - 1)) / n) * n) × (((len + (n - 1)) / n) * n < len + n)
rounds_bounds n len p = (
  omega (arith, div-add-mod (len + (n - 1)) n, mod-lt (len + (n - 1)) p),
  omega (arith, div-add-mod (len + (n - 1)) n, mod-lt (len + (n - 1)) p),
)

some_round : (n len rounds : ℕ) → 0 < len → len ≤ rounds * n → 0 < rounds
some_round n len zero h l = absurd (omega arith)
some_round n len (suc rounds) h l = omega arith

pub rounds_pos : (n len : ℕ) → 0 < n → 0 < len → 0 < (len + (n - 1)) / n
rounds_pos n len p h = some_round n len _ h (rounds_bounds n len p).0
