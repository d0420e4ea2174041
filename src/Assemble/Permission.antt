-- ===== src/Assemble/Permission.antt =====
-- scripts/assemble.py: the command `set-permission`, which runs a stub over the current code. What
-- gef and gdb know of the debuggee is a record; its memory is a function from addresses to bytes.
pub mod Restored
use gef_extras.Common.{
  ℕ, zero, suc, ◌+◌, ◌-◌, ◌≤◌, ◌<◌, bit_or, Bool, true, false, ◌&&◌, List, [], ◌∷◌, Option, none,
  some, Chars, codes, Result, ok, err, ◌>>=◌, ◌++◌, length, ltb, leb, ◌==◌, if◌then◌else◌, ◌≡◌,
  refl, arith, Bool-cases, inl, inr, ◌⊎◌, ap, sym, ◌∙◌, Result-cases, Option-cases,
}
use gef_extras.Common.Strings.{chars_eq, to_upper, read_int}
use gef_extras.Assemble.Target.{valid_arch_modes, modes_of}
use gef_extras.Assemble.Run.{Assembler, Keystone, ks_assemble}

abbrev pub Memory : Type 0
Memory = ℕ → ℕ

-- `gef.memory.read` and `gef.memory.write`
unfoldable pub read_at : Memory → ℕ → ℕ → List ℕ
read_at memory address zero = []
read_at memory address (suc n) = memory address ∷ read_at memory (address + 1) n

unfoldable pub write_at : Memory → ℕ → List ℕ → Memory
write_at memory address [] x = memory x
write_at memory address (b ∷ bs) x = if x == address then b else write_at memory (address + 1) bs x

pub record Section : Type 0 where
  pub page_start : ℕ
  pub page_end : ℕ

pub data Error : Type 0 where
  value_error invalid_arch no_attribute ks_error : Error

-- The debuggee, and what gef answers about it; `evaluate` gives absolute values, and `permission`
-- refuses what is no permission.
pub record Debuggee : Type 0 where
  pub memory : Memory
  pub pc : ℕ
  pub arch : Chars
  pub mode : Chars
  pub endianness : Chars
  pub evaluate : Chars → Option ℕ
  pub lookup : ℕ → Option Section
  pub permission : ℕ → Option ℕ
  pub mprotect_asm : ℕ → ℕ → ℕ → Chars

-- The breakpoint behind the stub, with what it puts back.
pub record Restore : Type 0 where
  pub location : ℕ
  pub original_code : List ℕ
  pub original_pc : ℕ

pub data Outcome : Type 0 where
  incorrect_syntax invalid_address unmapped_address no_stub : Outcome
  resumed : Memory → Restore → Outcome

-- `Permission.ALL`
abbrev permission_all : ℕ
permission_all = 7

module _ (ks : Keystone) (constant : Chars → Option ℕ) (d : Debuggee) where
  abbrev getattr : Chars → Result Error ℕ
  getattr name = elim (constant name) [ none ↦ err no_attribute | some v ↦ ok v ]

  -- `get_arch_and_mode`, with the assembler that `ks_assemble` keeps.
  pub get_arch_and_mode : Option Assembler → ℕ → ℕ → ℕ → Result Error (Assembler × Option (List ℕ))
  get_arch_and_mode cache addr size perm =
      let code = d.mprotect_asm addr size perm in
      let arch_s = to_upper d.arch in
      let mode_s = to_upper d.mode in
      elim (modes_of arch_s valid_arch_modes) [
        | none ↦ err invalid_arch
        | some modes ↦ getattr (codes "KS_ARCH_" ++ arch_s) >>= λ ks_arch.
            (if chars_eq arch_s (codes "ARM64") && chars_eq mode_s []
              then ok 0
              else getattr (codes "KS_MODE_" ++ mode_s))
            >>= λ ks_mode. getattr (codes "KS_MODE_" ++ to_upper d.endianness) >>= λ ks_endian.
                elim (ks_assemble ks cache code ks_arch (bit_or ks_mode ks_endian) d.pc) [
                  | err e ↦ err ks_error
                  | ok r ↦ ok r
                ]
      ]

  -- From the stub on: the code under it is saved, a breakpoint set behind it, and the stub written.
  pub install : List ℕ → Outcome
  unfolding read_at write_at
  install stub = resumed (write_at d.memory d.pc stub) (record {
    location = d.pc + length stub;
    original_code = read_at d.memory d.pc (length stub);
    original_pc = d.pc;
  })

  pub install_stub : Assembler × Option (List ℕ) → Outcome
  unfolding install
  install_stub (a, none) = no_stub
  install_stub (a, some stub) = install stub

  -- `int(argv[1])` and `Permission(...)`
  abbrev pub permission_of : List Chars → Result Error ℕ
  permission_of [] = ok permission_all
  permission_of (arg ∷ rest) = elim (read_int 10 arg) [
    | none ↦ err value_error
    | some n ↦ elim (d.permission n) [ none ↦ err value_error | some perm ↦ ok perm ]
  ]

  -- `do_invoke` with one or two arguments.
  pub change : Option Assembler → Chars → List Chars → Result Error Outcome
  unfolding get_arch_and_mode install_stub
  change cache target rest = permission_of rest >>= λ perm. elim (d.evaluate target) [
    | none ↦ ok invalid_address
    | some loc ↦ elim (d.lookup loc) [
      | none ↦ ok unmapped_address
      | some sect ↦
          get_arch_and_mode cache sect.page_start (sect.page_end - sect.page_start) perm >>= λ r.
          ok (install_stub r)
    ]
  ]

  unfoldable pub do_invoke : Option Assembler → List Chars → Result Error Outcome
  unfolding change
  do_invoke cache (target ∷ []) = change cache target []
  do_invoke cache (target ∷ perm ∷ []) = change cache target (perm ∷ [])
  do_invoke cache _ = ok incorrect_syntax
