-- ===== src/M68k/Branches.antt =====
-- archs/m68k.py: the branch predicates against the conditions that the mnemonics stand for.
use Prim.Native.String
use gef_extras.Common.{
  ℕ, ◌/◌, ◌%◌, String, Bool, true, false, not, ◌&&◌, ◌||◌, [], ◌≡◌, ◌≢◌, refl, arith, ◌==◌, truth,
}
use gef_extras.Common.Bits.{bit_and-one, bit_and-two, bit_and_four, bit_and_eight}
use gef_extras.Gef.{Instruction}
use gef_extras.M68k.{is_branch_taken, is_conditional_branch}

-- The conditions of the processor's Bcc instructions.
pub data Condition : Type 0 where
  carry_clear carry_set equal greater_equal greater high less_equal : Condition
  low_same less minus not_equal plus overflow_clear overflow_set : Condition

pub data Size : Type 0 where
  byte short word long : Size

abbrev letters : Condition → String
letters carry_clear = "bcc"
letters carry_set = "bcs"
letters equal = "beq"
letters greater_equal = "bge"
letters greater = "bgt"
letters high = "bhi"
letters less_equal = "ble"
letters low_same = "bls"
letters less = "blt"
letters minus = "bmi"
letters not_equal = "bne"
letters plus = "bpl"
letters overflow_clear = "bvc"
letters overflow_set = "bvs"

abbrev suffix : Size → String
suffix byte = "b"
suffix short = "s"
suffix word = "w"
suffix long = "l"

-- The instruction of a condition and a displacement size.
abbrev pub branch : Condition → Size → Instruction
branch c size = record {
  address = 0;
  location = "";
  mnemonic = String.◌++◌ (letters c) (suffix size);
  operands = [];
  opcodes = [];
}

-- The condition codes that a status register holds.
pub record Codes : Type 0 where
  pub carry : Bool
  pub overflow : Bool
  pub zero_flag : Bool
  pub negative : Bool

abbrev pub codes_of : ℕ → Codes
codes_of val = record {
  carry = val % 2 == 1;
  overflow = val / 2 % 2 == 1;
  zero_flag = val / 4 % 2 == 1;
  negative = val / 8 % 2 == 1;
}

abbrev same : Bool → Bool → Bool
same true b = b
same false b = not b

-- When the processor takes the branch.
abbrev pub holds : Condition → Codes → Bool
holds carry_clear f = not f.carry
holds carry_set f = f.carry
holds equal f = f.zero_flag
holds greater_equal f = same f.negative f.overflow
holds greater f = not f.zero_flag && same f.negative f.overflow
holds high f = not f.carry && not f.zero_flag
holds less_equal f = f.zero_flag || not (same f.negative f.overflow)
holds low_same f = f.carry || f.zero_flag
holds less f = not (same f.negative f.overflow)
holds minus f = f.negative
holds not_equal f = not f.zero_flag
holds plus f = not f.negative
holds overflow_clear f = not f.overflow
holds overflow_set f = f.overflow

module _ (val : ℕ) where
  taken-holds :
      (c : Condition)
      → c ≢ less
      → truth (is_branch_taken val (branch c word)).0 ≡ holds c (codes_of val)
  unfolding is_branch_taken
  taken-holds less h = absurd (h refl)
  taken-holds _ h =
      ground (arith, bit_and-one val, bit_and-two val, bit_and_four val, bit_and_eight val)

  -- The size of the displacement does not matter, except that a byte-sized name is unknown.
  short-word :
      (c : Condition) → is_branch_taken val (branch c short) ≡ is_branch_taken val (branch c word)
  unfolding is_branch_taken
  short-word less = refl
  short-word _ = refl

  long-word :
      (c : Condition) → is_branch_taken val (branch c long) ≡ is_branch_taken val (branch c word)
  unfolding is_branch_taken
  long-word less = refl
  long-word _ = refl

-- For every condition but `less`, and every size but `byte`, the branch is reported taken exactly
-- when the condition holds of the flags in the status register.
pub is_branch_taken-holds :
    (c : Condition) (size : Size) (val : ℕ)
    → c ≢ less
    → size ≢ byte
    → truth (is_branch_taken val (branch c size)).0 ≡ holds c (codes_of val)
is_branch_taken-holds c byte val h k = absurd (k refl)
is_branch_taken-holds c short val h k = rw short-word (taken-holds val c h)
is_branch_taken-holds c word val h k = taken-holds val c h
is_branch_taken-holds c long val h k = rw long-word (taken-holds val c h)

-- The `less` branches of short, word and long size are reported taken exactly when N or V is set,
-- also when both are: there the condition N != V does not hold, and the report is wrong.
pub is_branch_taken-less :
    (size : Size) (val : ℕ)
    → size ≢ byte
    → truth (is_branch_taken val (branch less size)).0
      ≡ (codes_of val).negative || (codes_of val).overflow
unfolding is_branch_taken
is_branch_taken-less byte val k = absurd (k refl)
is_branch_taken-less _ val k = ground (arith, bit_and-two val, bit_and_eight val)

-- For every condition, the byte-sized branch counts as conditional and is never reported taken, and
-- the short one, whose condition is evaluated, does not count as conditional.
pub byte_branches :
    (c : Condition) (val : ℕ)
    → (is_conditional_branch (branch c byte) ≡ true)
      × (is_branch_taken val (branch c byte) ≡ (0, ""))
      × (is_conditional_branch (branch c short) ≡ false)
unfolding is_conditional_branch is_branch_taken
byte_branches less val = (refl, refl, refl)
byte_branches _ val = (refl, refl, refl)
