-- ===== src/Assemble/Run/Cached.antt =====
-- scripts/assemble.py: what the cached assembler means for later calls, and which bytes are written.
use gef_extras.Common.{
  ℕ, Bool, List, [], ◌∷◌, ◌++◌, append_assoc, append-nil, Option, none, some, Chars, ok, err, ◌≡◌,
  refl, sym, ◌∙◌, arith, Option-cases, Result-cases, inl, inr,
}
use gef_extras.Assemble.Target.{Error}
use gef_extras.Assemble.Run.{
  Assembler, Keystone, Loop, get_assembler, encoding, assemble_all, print_insn,
}

module _ (ks : Keystone) (a : Assembler) (sh : Bool) (arch mode : ℕ) where
  -- One round with an assembler at hand.
  pub round_some :
      (insn : Chars) (insns : List Chars) (raw res : List ℕ) (lines : List Chars)
      → encoding ks (ks.asm a insn 0x4000) ≡ some res
      → assemble_all ks sh arch mode (insn ∷ insns) (some a) raw lines
        ≡ assemble_all ks sh arch mode insns
            (some a)
            (raw ++ res)
            (lines ++ print_insn sh res insn ∷ [])
  unfolding assemble_all
  round_some insn insns raw res lines e = rw (e, assemble_all)

  round_none :
      (insn : Chars) (insns : List Chars) (raw : List ℕ) (lines : List Chars)
      → encoding ks (ks.asm a insn 0x4000) ≡ none
      → assemble_all ks sh arch mode (insn ∷ insns) (some a) raw lines
        ≡ ok (record { cache = some a; raw = none; lines = lines })
  unfolding assemble_all
  round_none insn insns raw lines e = rw (e, assemble_all)

module _ (ks : Keystone) (a : Assembler) (sh : Bool) where
  -- With an assembler at hand the target of the call does not matter.
  ignores_target :
      (arch arch' mode mode' : ℕ) (insns : List Chars) (raw : List ℕ) (lines : List Chars)
      → assemble_all ks sh arch mode insns (some a) raw lines
        ≡ assemble_all ks sh arch' mode' insns (some a) raw lines
  ignores_target arch arch' mode mode' [] raw lines = unfold assemble_all in refl
  ignores_target arch arch' mode mode' (insn ∷ insns) raw lines =
      elim (Option-cases (encoding ks (ks.asm a insn 0x4000))) [
        | inl e ↦
            round_none ks a sh arch mode insn insns raw lines e
            ∙ sym (round_none ks a sh arch' mode' insn insns raw lines e)
        | inr (res, e) ↦
            round_some ks a sh arch mode insn insns raw res lines e
            ∙ ignores_target arch arch' mode mode' insns (raw ++ res)
                (lines ++ print_insn sh res insn ∷ [])
            ∙ sym (round_some ks a sh arch' mode' insn insns raw res lines e)
      ]

  -- The assembler at hand stays.
  cache-assemble_all :
      (arch mode : ℕ) (insns : List Chars) (raw : List ℕ) (lines : List Chars) (loop : Loop)
      → assemble_all ks sh arch mode insns (some a) raw lines ≡ ok loop
      → loop.cache ≡ some a
  cache-assemble_all arch mode [] raw lines loop h = unfold assemble_all in ground (arith, h)
  cache-assemble_all arch mode (insn ∷ insns) raw lines loop h =
      elim (Option-cases (encoding ks (ks.asm a insn 0x4000))) [
        | inl e ↦ ground (arith, round_none ks a sh arch mode insn insns raw lines e, h)
        | inr (res, e) ↦
            cache-assemble_all arch mode insns (raw ++ res) (lines ++ print_insn sh res insn ∷ [])
              loop (sym (round_some ks a sh arch mode insn insns raw res lines e) ∙ h)
      ]

-- The first instruction settles the assembler.
pub first_round :
    (ks : Keystone) (sh : Bool) (arch mode : ℕ) (insn : Chars) (insns : List Chars)
    (cache : Option Assembler) (raw : List ℕ) (lines : List Chars) (a : Assembler)
    → get_assembler ks cache arch mode ≡ ok a
    → assemble_all ks sh arch mode (insn ∷ insns) cache raw lines
      ≡ assemble_all ks sh arch mode (insn ∷ insns) (some a) raw lines
unfolding assemble_all
first_round ks sh arch mode insn insns cache raw lines a e = rw (e, assemble_all)

pub no_assembler :
    (ks : Keystone) (sh : Bool) (arch mode : ℕ) (insn : Chars) (insns : List Chars)
    (cache : Option Assembler) (raw : List ℕ) (lines : List Chars) (loop : Loop) (x : Error)
    → get_assembler ks cache arch mode ≡ err x
    → ¬ (assemble_all ks sh arch mode (insn ∷ insns) cache raw lines ≡ ok loop)
unfolding assemble_all
no_assembler ks sh arch mode insn insns cache raw lines loop x e h = cc (rw (e, assemble_all) at h)

-- Once a call has assembled an instruction, the architecture and the mode of every later call are
-- ignored: its instructions come out as they would for any other target.
pub stale_assembler :
    (ks : Keystone) (sh : Bool) (arch mode : ℕ) (insn : Chars) (insns : List Chars)
    (cache : Option Assembler) (raw : List ℕ) (lines : List Chars) (loop : Loop) (sh' : Bool)
    (arch1 mode1 arch2 mode2 : ℕ) (later : List Chars) (raw' : List ℕ) (lines' : List Chars)
    → assemble_all ks sh arch mode (insn ∷ insns) cache raw lines ≡ ok loop
    → assemble_all ks sh' arch1 mode1 later loop.cache raw' lines'
      ≡ assemble_all ks sh' arch2 mode2 later loop.cache raw' lines'
stale_assembler ks sh arch mode insn insns cache raw lines loop sh' arch1 mode1 arch2 mode2 later
      raw' lines' h =
    elim (Result-cases (get_assembler ks cache arch mode)) [
      | inl (a, e) ↦
          let kept : loop.cache ≡ some a =
            cache-assemble_all ks a sh arch mode (insn ∷ insns) raw lines loop
              (sym (first_round ks sh arch mode insn insns cache raw lines a e) ∙ h) in
          rw kept (ignores_target ks a sh' arch1 arch2 mode1 mode2 later raw' lines')
      | inr (x, e) ↦ absurd (no_assembler ks sh arch mode insn insns cache raw lines loop x e h)
    ]

-- The instructions with their encodings by one assembler, at the default address.
pub data Encoded (ks : Keystone) (a : Assembler) : List Chars → List ℕ → Type 0 where
  nothing : Encoded ks a [] []
  also :
      {insn : Chars} {insns : List Chars} {res bytes : List ℕ}
      → encoding ks (ks.asm a insn 0x4000) ≡ some res
      → Encoded ks a insns bytes
      → Encoded ks a (insn ∷ insns) (res ++ bytes)

module _ (ks : Keystone) (a : Assembler) (sh : Bool) (arch mode : ℕ) where
  pub assemble_all-Encoded :
      (insns : List Chars) (raw bytes : List ℕ) (lines : List Chars) (loop : Loop)
      → assemble_all ks sh arch mode insns (some a) raw lines ≡ ok loop
      → loop.raw ≡ some bytes
      → (rest : List ℕ) × (bytes ≡ raw ++ rest) × Encoded ks a insns rest
  assemble_all-Encoded [] raw bytes lines loop h e =
      ([], unfold assemble_all in ground (arith, append-nil raw, h, e), nothing)
  assemble_all-Encoded (insn ∷ insns) raw bytes lines loop h e =
      elim (Option-cases (encoding ks (ks.asm a insn 0x4000))) [
        | inl f ↦ absurd (ground (arith, round_none ks a sh arch mode insn insns raw lines f, h, e))
        | inr (res, f) ↦
            let (rest, g, enc) =
              assemble_all-Encoded insns (raw ++ res) bytes (lines ++ print_insn sh res insn ∷ [])
                loop (sym (round_some ks a sh arch mode insn insns raw res lines f) ∙ h) e in
            (res ++ rest, g ∙ append_assoc raw res rest, also f enc)
      ]
