-- ===== src/M68k/Tests.antt =====
-- Tests of archs/m68k.py and instances of the theorems.
use gef_extras.Common.{[], none, some, false, ◌≡◌, refl, truth, arith}
use gef_extras.Gef.{Instruction}
use gef_extras.M68k.{is_call, is_branch_taken, get_ra}
use gef_extras.M68k.Branches.{short, greater, branch, holds, codes_of, is_branch_taken-holds}

abbrev rts : Instruction
rts = record { address = 4; location = ""; mnemonic = "rts"; operands = []; opcodes = [] }

returns : get_ra rts 7 none ≡ some 7
unfolding get_ra
returns = refl

not_a_call : is_call rts ≡ false
unfolding is_call
not_a_call = refl

-- N and V set, Z clear: greater holds.
is_branch_taken-holds_example :
    truth (is_branch_taken 10 (branch greater short)).0 ≡ holds greater (codes_of 10)
is_branch_taken-holds_example = is_branch_taken-holds greater short 10 (ground arith) (ground arith)
