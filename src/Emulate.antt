-- ===== src/Emulate.antt =====
-- scripts/emulate/__init__.py: the names for unicorn and capstone, and the addresses of a run. The
-- generated script is in the child `Script`.
pub mod Names
pub mod Script
mod Tests
use gef_extras.Common.{
  ℕ, zero, suc, ◌+◌, Bool, true, false, ◌&&◌, List, [], ◌∷◌, ◌++◌, drop, Option, none, some, Chars,
  codes, String, Result, ok, err, ◌>>=◌, if◌then◌else◌,
}
use gef_extras.Common.Strings.{chars_eq, to_upper, to_lower}
use gef_extras.Capstone.{Arch}

pub data Error : Type 0 where
  value_error index_error : Error

-- The names of an architecture, its mode and the order of its bytes.
abbrev pub Triple : Type 0
Triple = Chars × Chars × Chars

abbrev triple : String → Arch → String → String → Result Error Triple
triple modes a arch mode = ok (codes arch, codes mode, codes modes ++ a.endianness)

-- An architecture with two modes: each with the mode of gef, and the two names.
abbrev two_modes :
    String → Arch → String → String → String → String → String → String → Result Error Triple
two_modes modes a first arch mode second arch' mode' =
    if chars_eq a.mode (codes first)
    then triple modes a arch mode
    else if chars_eq a.mode (codes second)
    then triple modes a arch' mode'
    else err value_error

-- `gef_to_uc_arch`
unfoldable pub gef_to_uc_arch : Arch → Result Error Triple
gef_to_uc_arch a =
    if chars_eq a.arch (codes "ARM")
    then (if a.is_arm
        then (if a.is_thumb
            then triple "UC_MODE_" a "UC_ARCH_ARM" "UC_MODE_THUMB"
            else triple "UC_MODE_" a "UC_ARCH_ARM" "UC_MODE_ARM")
        else err value_error)
    else if chars_eq a.arch (codes "ARM64")
    then triple "UC_MODE_" a "UC_ARCH_ARM64" "0"
    else if chars_eq a.arch (codes "X86")
    then two_modes "UC_MODE_" a "32" "UC_ARCH_X86" "UC_MODE_32" "64" "UC_ARCH_X86" "UC_MODE_64"
    else if chars_eq a.arch (codes "PPC")
    then two_modes "UC_MODE_" a "PPC32" "UC_ARCH_PPC" "UC_MODE_PPC32" "PPC64" "UC_ARCH_PPC"
        "UC_MODE_PPC64"
    else if chars_eq a.arch (codes "MIPS")
    then two_modes "UC_MODE_" a "MIPS32" "UC_ARCH_MIPS" "UC_MODE_MIPS32" "MIPS64" "UC_ARCH_MIPS32"
        "UC_MODE_MIPS64"
    else err value_error

-- `gef_to_cs_arch`; the name of the 64-bit ARM architecture depends on the version of capstone.
unfoldable pub gef_to_cs_arch : String → Arch → Result Error Triple
gef_to_cs_arch arm64_name a =
    if chars_eq a.arch (codes "ARM")
    then (if a.is_arm
        then (if a.is_thumb
            then triple "CS_MODE_" a "CS_ARCH_ARM" "CS_MODE_THUMB"
            else triple "CS_MODE_" a "CS_ARCH_ARM" "CS_MODE_ARM")
        else err value_error)
    else if chars_eq a.arch (codes "ARM64")
    then triple "CS_MODE_" a arm64_name "CS_MODE_ARM"
    else if chars_eq a.arch (codes "X86")
    then two_modes "CS_MODE_" a "32" "CS_ARCH_X86" "CS_MODE_32" "64" "CS_ARCH_X86" "CS_MODE_64"
    else if chars_eq a.arch (codes "PPC")
    then two_modes "CS_MODE_" a "PPC32" "CS_ARCH_PPC" "CS_MODE_PPC32" "PPC64" "CS_ARCH_PPC"
        "CS_MODE_PPC64"
    else if chars_eq a.arch (codes "MIPS")
    then two_modes "CS_MODE_" a "MIPS32" "CS_ARCH_MIPS" "CS_MODE_MIPS32" "MIPS64" "CS_ARCH_MIPS"
        "CS_MODE_MIPS64"
    else err value_error

-- `uc_registers` with `to_string`: the name of the module, whose own name is `const_name`, and the
-- constant for a register. gef writes a register with a dollar sign before its name.
unfoldable pub uc_register : Chars → Chars → Chars → Chars
unfolding to_upper
uc_register const_name arch reg =
    const_name
    ++ (codes ".UC_" ++ (to_upper (to_lower arch) ++ (codes "_REG_" ++ to_upper (drop 1 reg))))

-- `get_unicorn_end_addr`: the addresses of the instructions that gef disassembles from an address,
-- for a count, are a parameter.
abbrev last_of : ℕ → List ℕ → ℕ
last_of a [] = a
last_of a (b ∷ rest) = last_of b rest

unfoldable pub get_unicorn_end_addr : (ℕ → ℕ → List ℕ) → ℕ → ℕ → Result Error ℕ
get_unicorn_end_addr gef_disassemble start_addr nb = elim (gef_disassemble start_addr (nb + 1)) [
  | [] ↦ err index_error
  | a ∷ rest ↦ ok (last_of a rest)
]

-- The arguments of the command.
pub record Arguments : Type 0 where
  pub nb : ℕ
  pub start : Chars
  pub until : Chars
  pub skip_emulation : Bool
  pub output_file : Chars

-- The two addresses of `do_invoke`: `parse_address` evaluates a text, and an empty option counts as
-- none. The program counter and the end address are written out and parsed again, which gives the
-- same number.
unfoldable pub run_addresses :
    (Chars → Result Error ℕ) → (ℕ → ℕ → List ℕ) → ℕ → Arguments → Result Error (ℕ × ℕ)
unfolding get_unicorn_end_addr
run_addresses parse_address gef_disassemble pc args = do
  start_address ← elim args.start [ [] ↦ ok pc | c ∷ s ↦ parse_address (c ∷ s) ]
  end_address ← elim args.until [
    | [] ↦ get_unicorn_end_addr gef_disassemble start_address args.nb
    | c ∷ s ↦ parse_address (c ∷ s)
  ]
  ok (start_address, end_address)
