-- ===== src/Capstone/Listing.antt =====
-- scripts/capstone.py: which instructions are listed, and what is said of the one at the program counter.
use gef_extras.Common.{
  ℕ, zero, suc, true, false, List, [], ◌∷◌, ◌++◌, map, All, take, drop, ◌==◌, if◌then◌else◌, ◌≡◌,
  refl, ap, ◌∙◌, arith, Bool-cases, inl, inr,
}
use gef_extras.Capstone.{
  yielded, Reader, read_size, disassemble_from, cs_disassemble, other, at_pc, reason, Analyser,
  taken_text, capstone_analyze_pc, show,
}

suc_not_zero : (n : ℕ) → (suc n == 0) ≡ false
suc_not_zero n = ground arith

module _ {A : Type 0} where
  -- Past a count of zero.
  yielded-zero : (insns : List A) → yielded zero zero insns ≡ insns
  unfolding yielded
  yielded-zero [] = refl
  yielded-zero (insn ∷ insns) = ap (λ t. insn ∷ t) (yielded-zero insns)

  yielded_some : (n : ℕ) (insns : List A) → yielded zero (suc n) insns ≡ take (suc n) insns
  unfolding yielded
  yielded_some n [] = refl
  yielded_some zero (insn ∷ insns) = refl
  yielded_some (suc n) (insn ∷ insns) = ap (λ t. insn ∷ t) (yielded_some n insns)

  yielded_skip :
      (skip n : ℕ) (insns : List A) → yielded skip n insns ≡ yielded zero n (drop skip insns)
  unfolding yielded
  yielded_skip zero n insns = refl
  yielded_skip (suc skip) n [] = refl
  yielded_skip (suc skip) n (insn ∷ insns) = yielded_skip skip n insns

module _ {A : Type 0} (r : Reader A) where
  -- What the disassembler finds from a location on.
  abbrev pub found : ℕ → List A
  found location = r.disasm (r.read location (read_size r location)) location

  -- Without previous instructions, a disassembly for a positive count has that many of the
  -- instructions that are found from the location on, past those that are skipped; for a count of
  -- zero it has all of them.
  pub cs_disassemble-found :
      (pc location nb_insn skip : ℕ)
      → cs_disassemble r pc location nb_insn skip 0 ≡ (
          if nb_insn == 0
          then drop skip (found location)
          else take nb_insn (drop skip (found location)))
  unfolding cs_disassemble disassemble_from
  cs_disassemble-found pc location zero skip =
      yielded_skip skip 0 (found location) ∙ yielded-zero (drop skip (found location))
  cs_disassemble-found pc location (suc n) skip =
      yielded_skip skip (suc n) (found location)
      ∙ rw (suc_not_zero n) (yielded_some n (drop skip (found location)))

module _ {A : Type 0} (an : Analyser A) where
  show_before :
      (pc : ℕ) (before rest : List A)
      → All (λ insn. (an.address insn == pc) ≡ false) before
      → show an pc (before ++ rest) ≡ map other before ++ show an pc rest
  unfolding show
  show_before pc [] rest h = refl
  show_before pc (insn ∷ before) rest (h, hs) =
      rw (h, show) (ap (λ t. other insn ∷ t) (show_before pc before rest hs))

  show_branch :
      (pc : ℕ) (insn : A) (after : List A)
      → (an.address insn == pc) ≡ true
      → an.is_conditional_branch insn ≡ true
      → show an pc (insn ∷ after) ≡ (
          if (an.is_branch_taken insn).0
          then at_pc insn ∷ reason (taken_text (an.is_branch_taken insn).1) ∷ []
          else at_pc insn ∷ show an pc after)
  unfolding show capstone_analyze_pc
  show_branch pc insn after a b = elim (Bool-cases (an.is_branch_taken insn).0) [
    | inl t ↦ rw (a, b, t, capstone_analyze_pc) refl
    | inr t ↦ rw (a, b, t, capstone_analyze_pc) refl
  ]

  -- The listing of instructions the first of which at the program counter is a conditional branch:
  -- if it is taken, the reason is shown and the listing stops there; if it is not, the listing goes
  -- on behind it, and no reason is shown for it.
  pub show_conditional_branch :
      (pc : ℕ) (before : List A) (insn : A) (after : List A)
      → All (λ insn. (an.address insn == pc) ≡ false) before
      → (an.address insn == pc) ≡ true
      → an.is_conditional_branch insn ≡ true
      → show an pc (before ++ insn ∷ after)
        ≡ map other before
          ++ (if (an.is_branch_taken insn).0
              then at_pc insn ∷ reason (taken_text (an.is_branch_taken insn).1) ∷ []
              else at_pc insn ∷ show an pc after)
  show_conditional_branch pc before insn after h a b =
      show_before pc before (insn ∷ after) h
      ∙ ap (λ t. map other before ++ t) (show_branch pc insn after a b)
