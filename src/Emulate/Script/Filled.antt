-- ===== src/Emulate/Script/Filled.antt =====
-- scripts/emulate/__init__.py: the bytes in the emulator are those of the debuggee.
use gef_extras.Common.{
  ℕ, ◌+◌, ◌≤◌, ◌<◌, true, false, List, ◌++◌, get_elem?, All, none, some, ◌≡◌, ◌⊎◌,
}
use gef_extras.Emulate.Script.{
  Section, size, Statement, Files, Debuggee, location, register_writes, section_bytes, is_skipped,
  duplicate, hooks, Script,
}
use gef_extras.Emulate.Script.Loaded.{Unicorn, contents}

-- An address in none of the sections.
abbrev Outside : ℕ → List Section → Type 0
Outside a sections = All (λ t. (a < t.page_start) ⊎ (t.page_end ≤ a)) sections

module _ {M : Type 0} (uc : Unicorn M) (d : Debuggee) where
  -- What was read of a section is at its addresses.
  abbrev pub Filled : M → Section → Type 0
  Filled m s =
      (bytes : List ℕ)
      → is_skipped s ≡ false
      → section_bytes d s ≡ some bytes
      → (i : ℕ) → i < size s
      → uc.byte m (s.page_start + i) ≡ get_elem? bytes i

  -- The machine behind the statements for one section.
  behind_section : Files → Section → M → M
  behind_section files s m = elim (is_skipped s) [
    | true ↦ m
    | false ↦ elim (section_bytes d s) [
      | none ↦ uc.mem_map s.page_start (size s) s.permission m
      | some bytes ↦
          uc.mem_write s.page_start (contents (location d s.page_start) files)
            (uc.mem_map s.page_start (size s) s.permission m)
    ]
  ]

  -- The body of the script does what the statements for the map do.
  body : List Statement
  unfolding duplicate
  body = register_writes d d.all_registers ++ ((duplicate d d.maps).0 ++ hooks d)
