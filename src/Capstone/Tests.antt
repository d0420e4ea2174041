-- ===== src/Capstone/Tests.antt =====
-- Tests of scripts/capstone.py and instances of the theorems.
use gef_extras.Common.{
  ℕ, ◌+◌, Bool, true, false, List, [], ◌∷◌, none, codes, ok, err, take, drop, ◌==◌, if◌then◌else◌,
  ◌≡◌, refl,
}
use gef_extras.Common.Strings.{chars_eq}
use gef_extras.Capstone.{Arch, gef_to_cs_arch, value_error, Reader, cs_disassemble, Analyser}
use gef_extras.Capstone.Listing.{found, cs_disassemble-found}

abbrev thumb : Arch
thumb = record {
  arch = codes "ARM";
  mode = [];
  is_arm = true;
  is_thumb = true;
  endianness = codes "LITTLE_ENDIAN";
}

thumb_names :
    gef_to_cs_arch "CS_ARCH_ARM64" thumb
    ≡ ok (codes "CS_ARCH_ARM", codes "CS_MODE_THUMB", codes "CS_MODE_LITTLE_ENDIAN")
unfolding gef_to_cs_arch chars_eq
thumb_names = refl

-- No name for the 16-bit mode.
no_real_mode :
    gef_to_cs_arch "CS_ARCH_ARM64" (record thumb { arch = codes "X86"; mode = codes "16" })
    ≡ err value_error
unfolding gef_to_cs_arch chars_eq
no_real_mode = refl

-- Instructions are their addresses, a byte each.
abbrev numbered : List ℕ → ℕ → List ℕ
numbered [] address = []
numbered (b ∷ bytes) address = address ∷ numbered bytes (address + 1)

abbrev reader : Reader ℕ
reader = record {
  page_start = λ address. 0;
  pagesize = 32;
  read = λ address n. 1 ∷ 2 ∷ 3 ∷ 4 ∷ [];
  previous = λ pc n. none;
  disasm = numbered;
}

cs_disassemble-found_example :
    cs_disassemble reader 10 10 2 1 0
    ≡ (if 2 == 0 then drop 1 (found reader 10) else take 2 (drop 1 (found reader 10)))
cs_disassemble-found_example = cs_disassemble-found reader 10 10 2 1

abbrev analyser : Bool → Analyser ℕ
analyser taken = record {
  address = λ insn. insn;
  is_conditional_branch = λ insn. true;
  is_branch_taken = λ insn. (taken, codes "Z");
  is_call = λ insn. false;
  call_rows = λ insn. [];
}
