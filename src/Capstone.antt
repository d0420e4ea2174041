-- ===== src/Capstone.antt =====
-- scripts/capstone.py: the command `capstone-disassemble`. The disassembler is a parameter: the
-- instructions that it finds in a run of bytes, converted to gef's.
pub mod Listing
mod Tests
use gef_extras.Common.{
  ℕ, zero, suc, ◌+◌, ◌-◌, ◌*◌, Bool, true, false, List, [], ◌∷◌, ◌++◌, Option, none, some, Chars,
  codes, String, Result, ok, err, ◌==◌, if◌then◌else◌,
}
use gef_extras.Common.Strings.{chars_eq}

pub data Error : Type 0 where
  value_error no_attribute : Error

-- What gef says of the architecture; `is_arm` asks for an instance of gef's class `ARM`, and
-- `endianness` is the text of the order of bytes in upper case.
pub record Arch : Type 0 where
  pub arch : Chars
  pub mode : Chars
  pub is_arm : Bool
  pub is_thumb : Bool
  pub endianness : Chars

abbrev pub Names : Type 0
Names = Chars × Chars × Chars

abbrev cs_names : Arch → String → String → Result Error Names
cs_names a arch mode = ok (codes arch, codes mode, codes "CS_MODE_" ++ a.endianness)

-- An architecture with two modes.
abbrev two_modes : Arch → String → String → String → String → String → Result Error Names
two_modes a arch first cs_first second cs_second =
    if chars_eq a.mode (codes first)
    then cs_names a arch cs_first
    else if chars_eq a.mode (codes second)
    then cs_names a arch cs_second
    else err value_error

-- `gef_to_cs_arch`; the name of the 64-bit ARM architecture depends on the version of capstone.
unfoldable pub gef_to_cs_arch : String → Arch → Result Error Names
gef_to_cs_arch arm64_name a =
    if chars_eq a.arch (codes "ARM")
    then (if a.is_arm
        then (if a.is_thumb
            then cs_names a "CS_ARCH_ARM" "CS_MODE_THUMB"
            else cs_names a "CS_ARCH_ARM" "CS_MODE_ARM")
        else err value_error)
    else if chars_eq a.arch (codes "ARM64")
    then cs_names a arm64_name "CS_MODE_ARM"
    else if chars_eq a.arch (codes "X86")
    then two_modes a "CS_ARCH_X86" "32" "CS_MODE_32" "64" "CS_MODE_64"
    else if chars_eq a.arch (codes "PPC")
    then two_modes a "CS_ARCH_PPC" "PPC32" "CS_MODE_PPC32" "PPC64" "CS_MODE_PPC64"
    else if chars_eq a.arch (codes "MIPS")
    then two_modes a "CS_ARCH_MIPS" "MIPS32" "CS_MODE_MIPS32" "MIPS64" "CS_MODE_MIPS64"
    else err value_error

module _ {A : Type 0} where
  -- The loop over the instructions. A count of zero is decremented below zero and never comes back
  -- to it, so it stays at zero here.
  pub yielded : ℕ → ℕ → List A → List A
  yielded skip nb_insn [] = []
  yielded (suc skip) nb_insn (insn ∷ insns) = yielded skip nb_insn insns
  yielded zero zero (insn ∷ insns) = insn ∷ yielded zero zero insns
  yielded zero (suc zero) (insn ∷ insns) = insn ∷ []
  yielded zero (suc (suc n)) (insn ∷ insns) = insn ∷ yielded zero (suc n) insns

-- What gef reads and the disassembler finds: `disasm` takes bytes and their address.
pub record Reader (A : Type 0) : Type 0 where
  pub page_start : ℕ → ℕ
  pub pagesize : ℕ
  pub read : ℕ → ℕ → List ℕ
  pub previous : ℕ → ℕ → Option ℕ
  pub disasm : List ℕ → ℕ → List A

module _ {A : Type 0} (r : Reader A) where
  -- `pagesize - offset - 1` bytes, with the offset of the location that was asked for.
  abbrev read_size : ℕ → ℕ
  read_size asked = r.pagesize - (asked - r.page_start asked) - 1

  pub disassemble_from : ℕ → ℕ → ℕ → ℕ → List A
  unfolding yielded
  disassemble_from asked location skip nb_insn =
      yielded skip nb_insn (r.disasm (r.read location (read_size asked)) location)

  -- `cs_disassemble` with no `code` given: `pc` is where `nb_prev` counts back from, and an address
  -- of zero counts as none.
  pub cs_disassemble : ℕ → ℕ → ℕ → ℕ → ℕ → List A
  unfolding disassemble_from
  cs_disassemble pc location nb_insn skip zero = disassemble_from location location skip nb_insn
  cs_disassemble pc location nb_insn skip (suc k) = elim (r.previous pc (suc k)) [
    | none ↦ []
    | some zero ↦ []
    | some (suc p) ↦ disassemble_from location (suc p) skip (nb_insn + suc k)
  ]

-- A row of the listing: another instruction, that at the program counter, or what is said of it.
pub data Row (A : Type 0) : Type 0 where
  other at_pc : A → Row A
  reason : Chars → Row A

-- What gef knows of instructions; `call_rows` is the text for a call.
pub record Analyser (A : Type 0) : Type 0 where
  pub address : A → ℕ
  pub is_conditional_branch : A → Bool
  pub is_branch_taken : A → Bool × Chars
  pub is_call : A → Bool
  pub call_rows : A → Chars

abbrev pub taken_text : Chars → Chars
taken_text [] = codes "\tTAKEN "
taken_text (c ∷ s) = codes "\tTAKEN [Reason: " ++ ((c ∷ s) ++ codes "]")

abbrev pub not_taken_text : Chars → Chars
not_taken_text [] = codes "\tNOT taken "
not_taken_text (c ∷ s) = codes "\tNOT taken [Reason: !(" ++ ((c ∷ s) ++ codes ")]")

module _ {A : Type 0} (an : Analyser A) where
  -- `capstone_analyze_pc`
  pub capstone_analyze_pc : A → Bool × Chars
  capstone_analyze_pc insn =
      let (is_taken, why) = an.is_branch_taken insn in
      if an.is_conditional_branch insn
      then (is_taken, if is_taken then taken_text why else not_taken_text why)
      else if an.is_call insn
      then (true, an.call_rows insn)
      else (false, [])

  -- The loop of `do_invoke` over the instructions.
  pub show : ℕ → List A → List (Row A)
  unfolding capstone_analyze_pc
  show pc [] = []
  show pc (insn ∷ insns) =
      let rest = show pc insns in
      let (valid, text) = capstone_analyze_pc insn in
      if an.address insn == pc
      then (if valid then at_pc insn ∷ reason text ∷ [] else at_pc insn ∷ rest)
      else other insn ∷ rest

  -- `do_invoke`, where the address of the location was found: the length is that of the arguments or
  -- of gef's setting, and the command counts its repetitions.
  pub do_invoke : Reader A → ℕ → ℕ → ℕ → ℕ → List (Row A)
  unfolding show
  do_invoke r pc location length repeat_count =
      show pc (cs_disassemble r pc location length (length * repeat_count) 0)
