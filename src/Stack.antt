-- ===== src/Stack.antt =====
-- scripts/stack.py: the command `current-stack-frame`. The frames are gdb's; memory and the lines of
-- gef's `dereference` are parameters.
pub mod Framed
mod Tests
use mathlib.Core.List.{reverse}
use gef_extras.Common.{
  ℕ, zero, suc, ◌+◌, ◌-◌, Bool, true, false, not, ◌&&◌, List, [], ◌∷◌, ◌++◌, Option, none, some,
  Chars, codes, ltb, ◌==◌, if◌then◌else◌,
}

pub record Older : Type 0 where
  pub pc : ℕ
  pub sp : ℕ

-- The selected frame; `older` is none in the outermost frame and where gdb cannot unwind further.
pub record Frame : Type 0 where
  pub level : ℕ
  pub sp : ℕ
  pub bp : ℕ
  pub older : Option Older

-- `dereference` is none where the memory cannot be read.
pub record Debuggee : Type 0 where
  pub ptrsize : ℕ
  pub align_address : ℕ → ℕ
  pub dereference : ℕ → Option ℕ
  pub pprint_dereferenced : ℕ → ℕ → Chars
  pub underline : Chars → Chars
  pub grow_stack_down : Bool

-- What is printed: the two titles with the lines between them, or a warning.
pub data Output : Type 0 where
  warning : Output
  shown : Chars → List Chars → Chars → Output

-- The saved instruction pointer, if any, and the end of the frame; none is the warning.
unfoldable pub boundary : Debuggee → Frame → Option (Option ℕ × ℕ)
boundary d frame = elim frame.older [
  | some older ↦ some (some older.pc, d.align_address older.sp)
  | none ↦ if frame.level == 0 then some (none, d.align_address frame.bp) else none
]

-- `saved_ip and dereference(address) == saved_ip`
abbrev pub is_saved : Option ℕ → Option ℕ → Bool
is_saved none found = false
is_saved (some saved_ip) none = false
is_saved (some saved_ip) (some found) = not (saved_ip == 0) && found == saved_ip

module _ (d : Debuggee) (saved_ip : Option ℕ) (stack_lo : ℕ) where
  abbrev pub line : ℕ → ℕ → Chars
  line offset address =
      let pprint_str = d.pprint_dereferenced stack_lo offset in
      if is_saved saved_ip (d.dereference address)
      then pprint_str ++ (b' ' ∷ d.underline (codes "($savedip)"))
      else pprint_str

  -- The loop over `range(stack_lo, stack_hi, ptrsize)`, from an address and its number on.
  unfoldable pub results : ℕ → ℕ → ℕ → ℕ → List Chars
  results zero stack_hi offset address = []
  results (suc rounds) stack_hi offset address =
      let rest = results rounds stack_hi (suc offset) (address + d.ptrsize) in
      if ltb address stack_hi then line offset address ∷ rest else []

-- A pointer has at least one byte, so a frame has at most as many words as bytes.
unfoldable pub frame_lines : Debuggee → Option ℕ → ℕ → ℕ → List Chars
unfolding results
frame_lines d saved_ip stack_lo stack_hi =
    results d saved_ip stack_lo (stack_hi - stack_lo) stack_hi 0 stack_lo

abbrev pub top : Chars
top = codes "Stack top (higher address)"

abbrev pub bottom : Chars
bottom = codes "Stack bottom (lower address)"

-- `do_invoke` of a program that runs.
unfoldable pub do_invoke : Debuggee → Frame → Output
unfolding boundary frame_lines
do_invoke d frame = elim (boundary d frame) [
  | none ↦ warning
  | some (saved_ip, stack_hi) ↦
      let lines = frame_lines d saved_ip (d.align_address frame.sp) stack_hi in
      if d.grow_stack_down then shown top (reverse lines) bottom else shown bottom lines top
]
