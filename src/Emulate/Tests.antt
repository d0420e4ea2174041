-- ===== src/Emulate/Tests.antt =====
-- Tests of scripts/emulate/__init__.py and instances of the theorems.
use gef_extras.Common.{
  ℕ, ◌+◌, ◌-◌, ◌<◌, ◌≤◌, ◌⊎◌, ◌&&◌, List, Option, length, get_elem?, leb, ltb, ap, if◌then◌else◌,
  true, false, [], ◌∷◌, some, codes, ok, replicate, ◌≡◌, refl, arith,
}
use gef_extras.Common.Strings.{chars_eq, to_upper, to_lower}
use gef_extras.Common.Hex.{format_x}
use gef_extras.Capstone.{Arch}
use gef_extras.Emulate.{gef_to_uc_arch, uc_register}
use gef_extras.Emulate.Script.{Section, Debuggee, Script, Ending, duplicate, script_of}
use gef_extras.Emulate.Script.Loaded.{Unicorn}
use gef_extras.Emulate.Script.Filled.{Filled}

abbrev x86 : Arch
x86 = record {
  arch = codes "X86";
  mode = codes "64";
  is_arm = false;
  is_thumb = false;
  endianness = codes "LITTLE_ENDIAN";
}

-- The constant for the architecture is not one of unicorn's.
mips64 :
    gef_to_uc_arch (record x86 { arch = codes "MIPS"; mode = codes "MIPS64" })
    ≡ ok (codes "UC_ARCH_MIPS32", codes "UC_MODE_MIPS64", codes "UC_MODE_LITTLE_ENDIAN")
unfolding gef_to_uc_arch chars_eq
mips64 = refl

rax :
    uc_register (codes "unicorn.x86_const") (codes "X86") (codes "$rax")
    ≡ codes "unicorn.x86_const.UC_X86_REG_RAX"
unfolding uc_register to_upper to_lower
rax = refl

abbrev text : Section
text = record { path = codes "/bin/a"; page_start = 16; page_end = 18; permission = 5 }

abbrev stack : Section
stack = record { path = codes "[stack]"; page_start = 32; page_end = 34; permission = 2 }

abbrev vvar : Section
vvar = record { path = codes "[vvar]"; page_start = 48; page_end = 50; permission = 4 }

abbrev debuggee : Debuggee
debuggee = record {
  arch = x86;
  const_name = codes "unicorn.x86_const";
  is_x86 = true;
  is_x86_64 = true;
  ptrsize = 8;
  syscall_register = codes "$rax";
  all_registers = codes "$rax" ∷ [];
  register = λ r. 7;
  maps = text ∷ stack ∷ vvar ∷ [];
  read = λ start n. some (replicate n 9);
  fname = codes "a";
}

abbrev script : Script
script =
    script_of debuggee 16 18 false
      (codes "UC_ARCH_X86", codes "UC_MODE_64", codes "UC_MODE_LITTLE_ENDIAN")
      (codes "CS_ARCH_X86", codes "CS_MODE_64", codes "CS_MODE_LITTLE_ENDIAN")

abbrev ending : Ending
ending = record {
  path = codes "/tmp/gef-uc-1.py";
  written = some script;
  files = (duplicate debuggee debuggee.maps).1;
  is_open = false;
  executed = true;
  kept = false;
}

-- An emulator whose state is the bytes that were written.
abbrev Bytes : Type 0
Bytes = ℕ → Option ℕ

write_bytes : ℕ → List ℕ → Bytes → Bytes
write_bytes start bytes m a =
    if leb start a && ltb a (start + length bytes) then get_elem? bytes (a - start) else m a

write_bytes_outside :
    (start : ℕ) (bytes : List ℕ) (m : Bytes) (a : ℕ)
    → (a < start) ⊎ (start + length bytes ≤ a)
    → write_bytes start bytes m a ≡ m a
unfolding write_bytes
write_bytes_outside start bytes m a h = ground arith

write_bytes_inside :
    (start : ℕ) (bytes : List ℕ) (m : Bytes) (i : ℕ)
    → i < length bytes
    → write_bytes start bytes m (start + i) ≡ get_elem? bytes i
unfolding write_bytes
write_bytes_inside start bytes m i h =
    let e : start + i - start ≡ i = omega arith in
    let f = ap (get_elem? bytes) e in ground (arith, f)

abbrev unicorn : Unicorn Bytes
unicorn = record {
  mem_map = λ start n permission m. m;
  mem_write = write_bytes;
  byte = λ m a. m a;
  map_outside = λ start n permission m a h. refl;
  write_outside = write_bytes_outside;
  write_inside = write_bytes_inside;
}

one_file : ending.files ≡ (codes "/tmp/gef-a-0x10.raw", 9 ∷ 9 ∷ []) ∷ []
unfolding duplicate chars_eq format_x
one_file = refl
