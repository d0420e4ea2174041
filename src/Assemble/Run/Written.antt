-- ===== src/Assemble/Run/Written.antt =====
-- scripts/assemble.py: what `assemble` writes to the memory of the debuggee.
use gef_extras.Common.{
  ℕ, bit_or, Bool, true, List, [], ◌∷◌, Option, some, Chars, ok, ◌≡◌, sym, ◌∙◌, arith, Bool-cases,
  Result-cases, inl, inr,
}
use gef_extras.Assemble.Target.{Target, Names, resolve}
use gef_extras.Assemble.Run.{
  Assembler, Keystone, Loop, Args, written, get_assembler, assemble_all, finish, run, do_invoke,
  instructions_of, is_alive, is_none,
}
use gef_extras.Assemble.Run.Cached.{
  Encoded, nothing, assemble_all-Encoded, first_round, no_assembler,
}

module _ (ks : Keystone) where
  -- From any cache, one assembler makes all the bytes.
  assemble_all_one :
      (sh : Bool) (arch mode : ℕ) (insns : List Chars) (cache : Option Assembler) (bytes : List ℕ)
      (loop : Loop)
      → assemble_all ks sh arch mode insns cache [] [] ≡ ok loop
      → loop.raw ≡ some bytes
      → (a : Assembler) × Encoded ks a insns bytes
  assemble_all_one sh arch mode [] cache bytes loop h e =
      let empty : [] ≡ bytes = unfold assemble_all in ground (arith, h, e) in
      (record { arch = arch; mode = mode }, rw (sym empty) nothing)
  assemble_all_one sh arch mode (insn ∷ insns) cache bytes loop h e =
      elim (Result-cases (get_assembler ks cache arch mode)) [
        | inr (x, f) ↦ absurd (no_assembler ks sh arch mode insn insns cache [] [] loop x f h)
        | inl (a, f) ↦
            let (rest, g, enc) =
              assemble_all-Encoded ks a sh arch mode (insn ∷ insns) [] bytes [] loop
                (sym (first_round ks sh arch mode insn insns cache [] [] a f) ∙ h) e in
            (a, rw g enc)
      ]

  finish_written :
      (args : Args) (alive : Bool) (parse_address : Chars → Option ℕ) (loop : Loop) (address : ℕ)
      (bytes : List ℕ) (lines : List Chars)
      → finish ks args alive parse_address loop ≡ ok (written address bytes lines)
      → (alive ≡ true)
        × (parse_address args.overwrite_location ≡ some address)
        × (loop.raw ≡ some bytes)
  unfolding finish
  finish_written args alive parse_address loop address bytes lines h = ground arith

  run_written :
      (args : Args) (alive : Bool) (parse_address : Chars → Option ℕ) (cache : Option Assembler)
      (target : Target) (address : ℕ) (bytes : List ℕ) (lines : List Chars)
      → (run ks args alive parse_address cache target).1 ≡ ok (written address bytes lines)
      → (alive ≡ true)
        × (parse_address args.overwrite_location ≡ some address)
        × (a : Assembler) × Encoded ks a (instructions_of args.instructions) bytes
  unfolding run
  run_written args alive parse_address cache target address bytes lines h =
      elim (Result-cases (
        assemble_all ks args.as_shellcode target.arch (bit_or target.mode target.endian)
          (instructions_of args.instructions) cache [] [])) [
            | inr (x, e) ↦ absurd (cc (rw (e, run) at h))
            | inl (loop, e) ↦
                let (live, place, raw) =
                  finish_written args alive parse_address loop address bytes lines
                    (rw (e, run) at h) in
                let (a, enc) =
                  assemble_all_one args.as_shellcode _ _ (instructions_of args.instructions) cache
                    bytes loop e raw in
                (live, place, a, enc)
          ]

  -- `assemble` writes to memory only where the debuggee is alive, at the address that the option
  -- evaluates to, and then it writes exactly the encodings of all instructions, in their order, made
  -- by one assembler: with an invalid instruction among them nothing is written.
  pub do_invoke_written :
      (constant parse_address : Chars → Option ℕ) (defaults : Names) (alive : Option Names)
      (args : Args) (cache : Option Assembler) (address : ℕ) (bytes : List ℕ) (lines : List Chars)
      → (do_invoke ks constant parse_address defaults alive args cache).1
        ≡ ok (written address bytes lines)
      → (is_alive ks alive ≡ true)
        × (parse_address args.overwrite_location ≡ some address)
        × (a : Assembler) × Encoded ks a (instructions_of args.instructions) bytes
  unfolding do_invoke
  do_invoke_written constant parse_address defaults alive args cache address bytes lines h =
      elim (Bool-cases args.list_archs) [
        | inl e ↦ absurd (cc (rw (e, do_invoke) at h))
        | inr e ↦ elim (Bool-cases (is_none ks args.instructions)) [
          | inl f ↦ absurd (cc (rw (e, f, do_invoke) at h))
          | inr f ↦ elim (Result-cases (resolve constant defaults alive args.names)) [
            | inr (x, g) ↦ absurd (cc (rw (e, f, g, do_invoke) at h))
            | inl (target, g) ↦
                run_written args (is_alive ks alive) parse_address cache target address bytes lines
                  (rw (e, f, g, do_invoke) at h)
          ]
        ]
      ]
