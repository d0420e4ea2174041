-- ===== src/Windbg/Tests.antt =====
-- Tests of scripts/windbg.py and instances of the theorems.
use gef_extras.Common.{
  none, if◌then◌else◌, ℕ, ◌+◌, Bool, true, false, List, [], ◌∷◌, Option, some, Chars, codes, ok,
  err, ◌≡◌, refl, ltb, ◌==◌,
}
use gef_extras.Common.Hex.{format_x}
use gef_extras.Common.Strings.{
  split_once, chars_eq, read_int, read_hex, ends_with, contains, split, join, remove_char,
  starts_with,
}
use gef_extras.Gef.{Instruction}
use gef_extras.Windbg.Sxe
use gef_extras.Windbg.Sxe.{
  Breakpoint, break_on_load, disable, disable_again, runtime_error, run_all,
}
use gef_extras.Windbg.Until.{
  session, Ends, execute_until, execute_until-Ends, finished, raised, tc, invoke, below_zero,
}
use gef_extras.Windbg.Registers
use gef_extras.Windbg.Registers.Chunks.{IsChunked, concat, rows_text, print_regs_lines}
use gef_extras.Windbg.Location.{unassemble, type_error, Request}

abbrev lib : Chars
lib = codes "a.so"

abbrev loaded : List Breakpoint
loaded = record { module_name = lib; enabled = true; valid = true } ∷ []

abbrev unloaded : List Breakpoint
unloaded = record { module_name = lib; enabled = false; valid = false } ∷ []

load_and_unload : Sxe.do_invoke (disable lib) loaded ≡ ok unloaded
unfolding Sxe.do_invoke split_once chars_eq
load_and_unload = refl

no_colon : Sxe.do_invoke (lib ∷ []) loaded ≡ err Sxe.value_error
unfolding Sxe.do_invoke split_once
no_colon = refl

stops : Sxe.stop (break_on_load lib) (some 4) (codes "/lib/a.so") ≡ true
unfolding Sxe.stop break_on_load ends_with
stops = refl

-- A debuggee that counts its steps, and is gone after ten.
abbrev step : Chars → ℕ → Bool × ℕ
step cmd n = (ltb n 10, n + 1)

abbrev insn_at : ℕ → Option Instruction
insn_at n = some (record { address = n; location = ""; mnemonic = ""; operands = []; opcodes = [] })

-- The program exits at its eleventh instruction.
abbrev exiting : ℕ → Option Instruction
exiting n = if ltb n 10 then insn_at n else none

abbrev at_seven : Instruction → Bool
at_seven insn = insn.address == 7

abbrev never : Instruction → Bool
never insn = false

-- A trace to address 7, and the step of the `context` command.
traced :
    invoke step insn_at 0 at_seven at_seven true tc [] (session 0 true)
    ≡ some (finished (session 8 true))
unfolding invoke
traced = refl

-- A trace that runs off the end leaves the context disabled.
lost :
    invoke step insn_at 0 never at_seven true tc [] (session 0 true)
    ≡ some (raised (session 11 false))
unfolding invoke
lost = refl

exited :
    invoke step exiting 0 never at_seven true tc (codes "12" ∷ []) (session 0 true)
    ≡ some (raised (session 10 false))
unfolding invoke read_int
exited = refl

-- A count below zero does not end the trace, unlike one of zero.
below : invoke step insn_at 5 never never true tc (codes "-1" ∷ []) (session 0 true) ≡ none
unfolding invoke read_int
below = refl

no_steps :
    invoke step insn_at 5 never never true tc (codes "-0" ∷ []) (session 0 false)
    ≡ some (finished (session 1 true))
unfolding invoke read_int
no_steps = refl

execute_until-Ends_example :
    Ends step insn_at at_seven
      (codes "stepi")
      20
      below_zero
      0
      (execute_until step insn_at 20 at_seven (codes "stepi") below_zero (session 0 true))
execute_until-Ends_example =
    execute_until-Ends step insn_at at_seven (codes "stepi") 20 below_zero (session 0 true)

abbrev regs : List Chars
regs = codes "rax" ∷ codes "rbx" ∷ codes "r8" ∷ codes "r9" ∷ []

abbrev values : Chars → ℕ
values reg = 0x1f

printed :
    Registers.print_regs 8 values (codes "i386:x86-64") regs 4
    ≡ ok (codes "rax=001f rbx=001f  r8=001f\n r9=001f\n")
unfolding Registers.print_regs format_x starts_with
printed = refl

assigned :
    Registers.do_invoke 8 values (codes "i386") (codes "@rax" ∷ codes "= 1F" ∷ [])
    ≡ ok (Registers.executed (codes "set $rax = 0x1f"))
unfolding Registers.do_invoke format_x contains split join remove_char read_hex
assigned = refl

print_regs_lines_example :
    (rows : List (List Chars)) × (Registers.print_regs 8 values (codes "i386:x86-64") regs 4
      ≡ ok (rows_text 8 values 3 4 rows))
    × (concat rows ≡ regs)
    × IsChunked 3 rows
unfolding Registers.arch_reg_width starts_with
print_regs_lines_example =
    print_regs_lines 8 values (codes "i386:x86-64") (codes "rax")
      (codes "rbx" ∷ codes "r8" ∷ codes "r9" ∷ []) 4 3 refl

abbrev five : Chars → Option ℕ
five s = some 5

elsewhere : unassemble five 64 (codes "main" ∷ []) ≡ err type_error
unfolding unassemble
elsewhere = refl

longer : unassemble five 64 (codes "L20" ∷ []) ≡ ok (record { size = 20; location = 64 })
unfolding unassemble read_int
longer = refl

abbrev request : Request
request = record { size = 20; location = 64 }
