-- ===== src/Emulate/Script.antt =====
-- scripts/emulate/__init__.py: UnicornEmulateCommand.run_unicorn. The generated script is the record of
-- what is put into its fixed text, with the statements of its function `reset`.
pub mod Loaded
pub mod Filled
pub mod Ended
use gef_extras.Common.{
  ℕ, zero, suc, ◌+◌, ◌-◌, ◌*◌, ◌/◌, ◌%◌, Bool, true, false, not, List, [], ◌∷◌, ◌++◌, map, Option,
  none, some, Chars, codes, String, Result, ok, err, ◌>>=◌, ◌==◌, if◌then◌else◌,
}
use gef_extras.Common.Strings.{chars_eq, strip}
use gef_extras.Common.Hex.{format_x}
use gef_extras.Capstone.{Arch}
use gef_extras.Emulate.{Error, Triple, gef_to_uc_arch, gef_to_cs_arch, uc_register}

-- A section of gef's map; `permission` is its value, with `READ` at 4.
pub record Section : Type 0 where
  pub path : Chars
  pub page_start : ℕ
  pub page_end : ℕ
  pub permission : ℕ

abbrev pub size : Section → ℕ
size s = s.page_end - s.page_start

abbrev pub is_readable : Section → Bool
is_readable s = s.permission / 4 % 2 == 1

pub data Statement : Type 0 where
  reg_write : Chars → ℕ → Statement
  comment : Chars → ℕ → ℕ → Statement
  mem_map : ℕ → ℕ → ℕ → Statement
  mem_write : ℕ → Chars → Statement
  hook_code hook_intr hook_syscall : Statement

abbrev pub Files : Type 0
Files = List (Chars × List ℕ)

-- `read` is none where gdb raises a `MemoryError`.
pub record Debuggee : Type 0 where
  pub arch : Arch
  pub const_name : Chars
  pub is_x86 : Bool
  pub is_x86_64 : Bool
  pub ptrsize : ℕ
  pub syscall_register : Chars
  pub all_registers : List Chars
  pub register : Chars → ℕ
  pub maps : List Section
  pub read : ℕ → ℕ → Option (List ℕ)
  pub fname : Chars

-- The parts of the script: `segmentation` is whether the two blocks for x86 are in it.
pub record Script : Type 0 where
  pub fname : Chars
  pub start_addr : ℕ
  pub end_addr : ℕ
  pub registers : List (Chars × Chars)
  pub verbose : Bool
  pub syscall_register : Chars
  pub cs : Triple
  pub width : ℕ
  pub segmentation : Bool
  pub uc : Triple
  pub body : List Statement

-- This section is gdb's only.
abbrev pub is_skipped : Section → Bool
is_skipped s = chars_eq s.path (codes "[vvar]")

abbrev pub map_section : Section → List Statement → List Statement
map_section s rest =
    comment s.path s.page_start s.page_end ∷ mem_map s.page_start (size s) s.permission ∷ rest

module _ (d : Debuggee) where
  -- The file for the bytes of a section.
  pub location : ℕ → Chars
  location page_start =
      codes "/tmp/gef-" ++ (d.fname ++ (codes "-0x" ++ (format_x page_start ++ codes ".raw")))

  abbrev register_name : Chars → Chars
  register_name r = uc_register d.const_name d.arch.arch r

  pub registers_of : List Chars → List (Chars × Chars)
  unfolding uc_register
  registers_of [] = []
  registers_of (r ∷ rs) = (strip r, register_name r) ∷ registers_of rs

  pub register_writes : List Chars → List Statement
  unfolding uc_register
  register_writes [] = []
  register_writes (r ∷ rs) = reg_write (register_name r) (d.register r) ∷ register_writes rs

  -- What is read of a section: nothing where it is not readable or where reading fails.
  pub section_bytes : Section → Option (List ℕ)
  section_bytes s = if is_readable s then d.read s.page_start (size s) else none

  -- The loop over the map: the statements, and the files that are written, the last one first.
  unfoldable pub duplicate : List Section → List Statement × Files
  unfolding location section_bytes
  duplicate [] = ([], [])
  duplicate (s ∷ sections) =
      let (rest, files) = duplicate sections in
      elim (is_skipped s) [
        | true ↦ (rest, files)
        | false ↦ elim (section_bytes s) [
          | none ↦ (map_section s rest, files)
          | some bytes ↦ (
            map_section s (mem_write s.page_start (location s.page_start) ∷ rest),
            files ++ (location s.page_start, bytes) ∷ [],
          )
        ]
      ]

  abbrev pub hooks : List Statement
  hooks = hook_code ∷ hook_intr ∷ (if d.is_x86_64 then hook_syscall ∷ [] else [])

  unfoldable pub script_of : ℕ → ℕ → Bool → Triple → Triple → Script
  unfolding registers_of register_writes duplicate
  script_of start_addr end_addr verbose uc cs = record {
    fname = d.fname;
    start_addr = start_addr;
    end_addr = end_addr;
    registers = registers_of d.all_registers;
    verbose = verbose;
    syscall_register = d.syscall_register;
    cs = cs;
    width = d.ptrsize * 2 + 2;
    segmentation = d.is_x86;
    uc = uc;
    body = register_writes d.all_registers ++ ((duplicate d.maps).0 ++ hooks);
  }

-- How a run ended: with no script, because the map is empty, or with the script in a file.
-- `is_open` is whether the descriptor of that file is left open, `kept` whether the file is left.
pub record Ending : Type 0 where
  pub path : Chars
  pub written : Option Script
  pub files : Files
  pub is_open : Bool
  pub executed : Bool
  pub kept : Bool

module _ (d : Debuggee) where
  -- `temporary` is the name that mkstemp gives; an empty `to_file` counts as none.
  abbrev pub path_of : Chars → Chars → Chars
  path_of temporary [] = temporary
  path_of temporary (c ∷ s) = c ∷ s

  abbrev pub is_named : Chars → Bool
  is_named [] = false
  is_named (c ∷ s) = true

  finish : Chars → Chars → Script → Bool → Ending
  unfolding duplicate
  finish temporary to_file script skip_emulation = record {
    path = path_of temporary to_file;
    written = some script;
    files = (duplicate d d.maps).1;
    is_open = false;
    executed = not skip_emulation;
    kept = if skip_emulation then true else is_named to_file;
  }

  abbrev no_map : Chars → Chars → Ending
  no_map temporary to_file = record {
    path = path_of temporary to_file;
    written = none;
    files = [];
    is_open = true;
    executed = false;
    kept = true;
  }

  -- An empty map ends the run before anything is written.
  leave : List Section → Chars → Chars → Script → Bool → Ending
  unfolding finish
  leave [] temporary to_file script skip_emulation = no_map temporary to_file
  leave (s ∷ sections) temporary to_file script skip_emulation =
      finish temporary to_file script skip_emulation

  unfoldable pub run_unicorn : String → Chars → Bool → ℕ → ℕ → Bool → Chars → Result Error Ending
  unfolding leave script_of
  run_unicorn arm64_name temporary verbose start_addr end_addr skip_emulation to_file = do
    uc ← gef_to_uc_arch d.arch
    cs ← gef_to_cs_arch arm64_name d.arch
    ok (
        leave d.maps temporary to_file (script_of d start_addr end_addr verbose uc cs)
          skip_emulation)
