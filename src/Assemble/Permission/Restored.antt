-- ===== src/Assemble/Permission/Restored.antt =====
-- scripts/assemble.py: what `set-permission` puts back.
use gef_extras.Common.{
  ℕ, zero, suc, ◌+◌, ◌-◌, ◌≤◌, ◌<◌, ◌&&◌, List, [], ◌∷◌, Option, none, some, Chars, ok, length, ltb,
  leb, if◌then◌else◌, ◌≡◌, refl, arith, inl, inr, ◌⊎◌, Result-cases, Option-cases,
}
use mathlib.Core.Path.{fun_ext}
use gef_extras.Assemble.Run.{Assembler, Keystone}
use gef_extras.Assemble.Permission.{
  Memory, Section, read_at, write_at, Debuggee, Restore, resumed, permission_of, get_arch_and_mode,
  install, install_stub, change, do_invoke,
}

-- A write changes the bytes that it covers only.
write_at_outside :
    (memory : Memory) (address : ℕ) (bs : List ℕ) (x : ℕ)
    → (x < address) ⊎ (address + length bs ≤ x)
    → write_at memory address bs x ≡ memory x
unfolding write_at
write_at_outside memory address [] x h = refl
write_at_outside memory address (b ∷ bs) x h =
    ground (arith, write_at_outside memory (address + 1) bs x)

-- Writing back what was read, over any memory.
write_at-read_at :
    (old memory : Memory) (n address x : ℕ)
    → write_at memory address (read_at old address n) x
      ≡ (if leb address x && ltb x (address + n) then old x else memory x)
unfolding write_at read_at
write_at-read_at old memory zero address x = ground arith
write_at-read_at old memory (suc n) address x =
    ground (arith, write_at-read_at old memory n (address + 1) x)

restored :
    (memory : Memory) (address : ℕ) (stub : List ℕ)
    → write_at (write_at memory address stub) address (read_at memory address (length stub))
      ≡ memory
restored memory address stub = fun_ext λ x. ground (
  arith,
  write_at-read_at memory (write_at memory address stub) (length stub) address x,
  write_at_outside memory address stub x,
)

module _ (ks : Keystone) (constant : Chars → Option ℕ) (d : Debuggee) where
  install_parts :
      (stub : List ℕ) (memory : Memory) (restore : Restore)
      → install ks constant d stub ≡ resumed memory restore
      → (memory ≡ write_at d.memory d.pc stub)
        × (restore.original_pc ≡ d.pc)
        × (restore.original_code ≡ read_at d.memory d.pc (length stub))
        × (restore.location ≡ d.pc + length stub)
  unfolding install
  install_parts stub memory restore h = ground arith

  -- The bytes are the code that `get_arch_and_mode` assembles for the section of the address and for
  -- the permission that are asked for.
  abbrev pub Assembled : Option Assembler → Chars → List Chars → List ℕ → Type 0
  Assembled cache target rest stub =
      (perm : ℕ) × (loc : ℕ) × (sect : Section) × (a : Assembler) × (permission_of ks constant d
          rest
        ≡ ok perm)
      × (d.evaluate target ≡ some loc)
      × (d.lookup loc ≡ some sect)
      × (get_arch_and_mode ks constant d cache sect.page_start (sect.page_end - sect.page_start)
            perm
          ≡ ok (a, some stub))

  change_stub :
      (cache : Option Assembler) (target : Chars) (rest : List Chars) (memory : Memory)
      (restore : Restore)
      → change ks constant d cache target rest ≡ ok (resumed memory restore)
      → (stub : List ℕ) × Assembled cache target rest stub
        × (install ks constant d stub ≡ resumed memory restore)
  unfolding change install_stub
  change_stub cache target rest memory restore h =
      elim (Result-cases (permission_of ks constant d rest)) [
        | inr (x, e) ↦ absurd (cc (rw (e, change) at h))
        | inl (perm, e) ↦ elim (Option-cases (d.evaluate target)) [
          | inl f ↦ absurd (cc (rw (e, f, change) at h))
          | inr (loc, f) ↦ elim (Option-cases (d.lookup loc)) [
            | inl g ↦ absurd (cc (rw (e, f, g, change) at h))
            | inr (sect, g) ↦
                elim (Result-cases (
                  get_arch_and_mode ks constant d cache sect.page_start
                    (sect.page_end - sect.page_start) perm)) [
                      | inr (x, k) ↦ absurd (cc (rw (e, f, g, k, change) at h))
                      | inl ((a, none), k) ↦ absurd (cc (rw (e, f, g, k, change) at h))
                      | inl ((a, some stub), k) ↦ (
                        stub,
                        (perm, loc, sect, a, e, f, g, k),
                        cc (rw (e, f, g, k, change) at h),
                      )
                    ]
          ]
        ]
      ]

  do_invoke_stub :
      (cache : Option Assembler) (argv : List Chars) (memory : Memory) (restore : Restore)
      → do_invoke ks constant d cache argv ≡ ok (resumed memory restore)
      → (target : Chars) × (rest : List Chars) × (stub : List ℕ) × (argv ≡ target ∷ rest)
        × Assembled cache target rest stub
        × (install ks constant d stub ≡ resumed memory restore)
  unfolding do_invoke
  do_invoke_stub cache [] memory restore h = absurd (cc h)
  do_invoke_stub cache (target ∷ []) memory restore h =
      let (stub, a, e) = change_stub cache target [] memory restore h in
      (target, [], stub, refl, a, e)
  do_invoke_stub cache (target ∷ perm ∷ []) memory restore h =
      let (stub, a, e) = change_stub cache target (perm ∷ []) memory restore h in
      (target, perm ∷ [], stub, refl, a, e)
  do_invoke_stub cache (target ∷ perm ∷ more ∷ argv) memory restore h = absurd (cc h)

  -- Whenever `set-permission` resumes the debuggee, it was asked for an address in a section, and the
  -- stub is what `get_arch_and_mode` assembles for that section and the permission: the memory is the
  -- one before with the stub written at the program counter, the breakpoint stands right behind the
  -- stub, and what the breakpoint puts back, the saved code at the saved program counter, gives the
  -- memory before at every address.
  pub do_invoke-restored :
      (cache : Option Assembler) (argv : List Chars) (memory : Memory) (restore : Restore)
      → do_invoke ks constant d cache argv ≡ ok (resumed memory restore)
      → (restore.original_pc ≡ d.pc)
        × (write_at memory restore.original_pc restore.original_code ≡ d.memory)
        × (target : Chars) × (rest : List Chars) × (stub : List ℕ) × (argv ≡ target ∷ rest)
        × Assembled cache target rest stub
        × (memory ≡ write_at d.memory d.pc stub)
        × (restore.location ≡ d.pc + length stub)
  do_invoke-restored cache argv memory restore h =
      let (target, rest, stub, v, a, e) = do_invoke_stub cache argv memory restore h in
      let (m, p, c, l) = install_parts stub memory restore e in
      (p, rw (p, c) (rw m (restored d.memory d.pc stub)), target, rest, stub, v, a, m, l)
