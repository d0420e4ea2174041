-- ===== src/Common/Python.antt =====
-- Python's truth values, where an expression mixes them with integers: `True` is 1, `False` is 0.
use Prim.Native.Nat.{ℕ}
use mathlib.Core.Bool.{Bool, not}
use gef_extras.Common.Tests.{◌==◌, if◌then◌else◌}

-- `if x:` for an integer `x`.
abbrev pub truth : ℕ → Bool
truth x = not (x == 0)

abbrev pub of_bool : Bool → ℕ
of_bool b = if b then 1 else 0

-- `not x`
abbrev pub py_not : ℕ → ℕ
py_not x = of_bool (x == 0)

-- `x and y`, `x or y`: the operand that decides.
abbrev pub py_and : ℕ → ℕ → ℕ
py_and x y = if truth x then y else x

abbrev pub py_or : ℕ → ℕ → ℕ
py_or x y = if truth x then x else y
