-- ===== src/Emulate/Script/Ended.antt =====
-- scripts/emulate/__init__.py: what a run leaves behind.
use gef_extras.Common.{
  ℕ, Bool, true, false, List, [], ◌∷◌, none, Chars, String, ok, ◌≡◌, ◌↔◌, arith, bind_ok,
}
use mathlib.Core.Path.{subst}
use gef_extras.Emulate.{gef_to_uc_arch, gef_to_cs_arch}
use gef_extras.Emulate.Script.{Section, Debuggee, Script, script_of, Ending, leave, run_unicorn}

-- How a run on a map ended.
abbrev pub Left : List Section → Bool → Chars → Ending → Type 0
Left maps skip to_file e =
    ((e.is_open ≡ true) ↔ (maps ≡ []))
    × ((e.written ≡ none) ↔ (maps ≡ []))
    × ((e.kept ≡ false) ↔ (e.executed ≡ true) × (to_file ≡ []))
    × ((e.executed ≡ true) ↔ (skip ≡ false) × ¬ (maps ≡ []))

module _ (d : Debuggee) where
  leave-Left :
      (maps : List Section) (temporary to_file : Chars) (skip : Bool) (made : Script)
      → Left maps skip to_file (leave d maps temporary to_file made skip)
  unfolding leave
  leave-Left [] temporary [] skip made = ground arith
  leave-Left [] temporary (c ∷ s) skip made = ground arith
  leave-Left (s ∷ sections) temporary [] true made = ground arith
  leave-Left (s ∷ sections) temporary [] false made = ground arith
  leave-Left (s ∷ sections) temporary (c ∷ name) true made = ground arith
  leave-Left (s ∷ sections) temporary (c ∷ name) false made = ground arith

  -- When `unicorn-emulate` returns for an architecture that it knows: the descriptor of the script's
  -- file is left open, and nothing is written to it, exactly where the map is empty; the script is
  -- run exactly if that was not to be skipped and the map is not empty; and the file is removed
  -- exactly if the script was run and no name was given for it.
  pub run_unicorn-Left :
      (arm64_name : String) (temporary : Chars) (verbose : Bool) (start_addr end_addr : ℕ)
      (skip : Bool) (to_file : Chars) (e : Ending)
      → run_unicorn d arm64_name temporary verbose start_addr end_addr skip to_file ≡ ok e
      → Left d.maps skip to_file e
  unfolding run_unicorn
  run_unicorn-Left arm64_name temporary verbose start_addr end_addr skip to_file e h =
      let (uc, _, h1) = bind_ok (gef_to_uc_arch d.arch) _ h in
      let (cs, _, h2) = bind_ok (gef_to_cs_arch arm64_name d.arch) _ h1 in
      let made = script_of d start_addr end_addr verbose uc cs in
      let left : leave d d.maps temporary to_file made skip ≡ e = cc in
      subst (Left d.maps skip to_file) left (leave-Left d.maps temporary to_file skip made)
