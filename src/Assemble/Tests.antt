-- ===== src/Assemble/Tests.antt =====
-- Tests of scripts/assemble.py and instances of the theorems.
use gef_extras.Common.{
  ℕ, ◌+◌, true, false, List, [], ◌∷◌, Option, none, some, Chars, codes, ok, ◌≡◌, refl, length, ◌==◌,
  if◌then◌else◌,
}
use gef_extras.Common.Strings.{chars_eq, to_upper, split, join, strip}
use gef_extras.Assemble.Target.{Names, Target, resolve, modes_of, find_mode}
use gef_extras.Assemble.Run
use gef_extras.Assemble.Run.{
  Assembler, Keystone, Args, Loop, written, assemble_all, instructions_of, print_insn, is_alive,
  ks_assemble,
}
use gef_extras.Assemble.Run.Cached.{Encoded, stale_assembler}
use gef_extras.Assemble.Run.Written.{do_invoke_written}
use gef_extras.Assemble.Permission
use gef_extras.Assemble.Permission.{Memory, Debuggee, Restore, write_at, resumed}
use gef_extras.Assemble.Permission.Restored.{Assembled, do_invoke-restored}

-- An assembler that encodes a line as its characters, and knows no line that starts with "?".
abbrev plain_asm : Assembler → Chars → ℕ → Option (List ℕ × ℕ)
plain_asm a [] address = some ([], 0)
plain_asm a (c ∷ s) address = if c == b'?' then none else some (c ∷ s, 1)

abbrev keystone : Keystone
keystone = record { supports = λ arch mode. true; asm = plain_asm }

-- Every constant is its length.
abbrev constant : Chars → Option ℕ
constant name = some (length name)

abbrev x86 : Names
x86 = record { arch = codes "x86"; mode = codes "64"; endian = codes "little" }

abbrev arm64_big : Names
arm64_big = record { arch = codes "ARM64"; mode = codes "0"; endian = codes "big" }

abbrev x86_target : Target
x86_target = record { arch = 11; mode = 10; endian = 21 }

x86_resolved : resolve constant x86 none x86 ≡ ok x86_target
unfolding resolve modes_of find_mode chars_eq to_upper
x86_resolved = refl

nop_ret : instructions_of (codes "nop;" ∷ codes "ret" ∷ []) ≡ codes "nop" ∷ codes "ret" ∷ []
unfolding instructions_of split join strip
nop_ret = refl

abbrev nop_loop : Loop
nop_loop = record {
  cache = some (record { arch = 1; mode = 2 });
  raw = some (codes "nop");
  lines = print_insn false (codes "nop") (codes "nop") ∷ [];
}

nop_assembled : assemble_all keystone false 1 2 (codes "nop" ∷ []) none [] [] ≡ ok nop_loop
unfolding assemble_all
nop_assembled = refl

stale_assembler_example :
    assemble_all keystone false 3 4 (codes "ret" ∷ []) nop_loop.cache [] []
    ≡ assemble_all keystone false 5 6 (codes "ret" ∷ []) nop_loop.cache [] []
stale_assembler_example =
    stale_assembler keystone false 1 2 (codes "nop") [] none [] [] nop_loop false 3 4 5 6
      (codes "ret" ∷ []) [] [] nop_assembled

abbrev to_hundred : Chars → Option ℕ
to_hundred s = some 100

abbrev nop_args : Args
nop_args = record {
  list_archs = false;
  instructions = codes "nop;" ∷ codes "ret" ∷ [];
  names = x86;
  overwrite_location = codes "$pc";
  as_shellcode = false;
}

abbrev printed : List Chars
printed =
    print_insn false (codes "nop") (codes "nop") ∷ print_insn false (codes "ret") (codes "ret") ∷ []

nop_written :
    (Run.do_invoke keystone constant to_hundred x86 (some x86) nop_args none).1
    ≡ ok (written 100 (codes "nopret") printed)
unfolding Run.do_invoke resolve modes_of find_mode chars_eq to_upper instructions_of split join
    strip
nop_written = refl

do_invoke_written_example :
    (is_alive keystone (some x86) ≡ true)
    × (to_hundred nop_args.overwrite_location ≡ some 100)
    × (a : Assembler) × Encoded keystone a (instructions_of nop_args.instructions) (codes "nopret")
do_invoke_written_example =
    do_invoke_written keystone constant to_hundred x86 (some x86) nop_args none 100 (codes "nopret")
      printed nop_written

abbrev debuggee : Debuggee
debuggee = record {
  memory = λ x. x;
  pc = 16;
  arch = codes "X86";
  mode = codes "64";
  endianness = codes "little_endian";
  evaluate = λ s. some 20;
  lookup = λ x. some (record { page_start = 0; page_end = 4096 });
  permission = λ n. some n;
  mprotect_asm = λ addr size perm. codes "int 0x80";
}

abbrev after_stub : Memory
after_stub = write_at debuggee.memory 16 (codes "int 0x80")

abbrev to_restore : Restore
to_restore = record {
  location = 24;
  original_code = 16 ∷ 17 ∷ 18 ∷ 19 ∷ 20 ∷ 21 ∷ 22 ∷ 23 ∷ [];
  original_pc = 16;
}

stub_run :
    Permission.do_invoke keystone constant debuggee none (codes "$sp" ∷ [])
    ≡ ok (resumed after_stub to_restore)
unfolding Permission.do_invoke ks_assemble modes_of chars_eq to_upper
stub_run = refl

do_invoke-restored_example :
    (to_restore.original_pc ≡ debuggee.pc)
    × (write_at after_stub to_restore.original_pc to_restore.original_code ≡ debuggee.memory)
    × (target : Chars) × (rest : List Chars) × (stub : List ℕ) × (codes "$sp" ∷ [] ≡ target ∷ rest)
    × Assembled keystone constant debuggee none target rest stub
    × (after_stub ≡ write_at debuggee.memory debuggee.pc stub)
    × (to_restore.location ≡ debuggee.pc + length stub)
do_invoke-restored_example =
    do_invoke-restored keystone constant debuggee none (codes "$sp" ∷ []) after_stub to_restore
      stub_run
