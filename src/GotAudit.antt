-- ===== src/GotAudit.antt =====
-- scripts/got_audit.py: the command `got-audit`. The lines of `nm`, which paths are files, and the memory
-- map are parameters.
pub mod ExpectedDups
pub mod Dicts
pub mod Consistent
pub mod Reports
mod Tests
use gef_extras.Common.{
  ℕ, Bool, true, false, not, ◌&&◌, ◌||◌, List, [], ◌∷◌, ◌++◌, Option, none, some, Chars, codes,
  length, ltb, if◌then◌else◌,
}
use gef_extras.Common.Strings.{chars_eq, chars_mem, split, split_words}
use gef_extras.GotAudit.ExpectedDups.{expected_dups}

-- A `defaultdict(list)`: a key that was never set has the empty list.
abbrev pub Dict : Type 0
Dict = List (Chars × List Chars)

unfoldable pub get : Chars → Dict → List Chars
get key [] = []
get key ((k, values) ∷ d) = if chars_eq k key then values else get key d

unfoldable pub has : Chars → Dict → Bool
has key [] = false
has key ((k, values) ∷ d) = chars_eq k key || has key d

-- `d[key].append(value)`
unfoldable pub add : Chars → Chars → Dict → Dict
add key value [] = (key, value ∷ []) ∷ []
add key value ((k, values) ∷ d) =
    let rest = add key value d in
    if chars_eq k key then (k, values ++ value ∷ []) ∷ d else (k, values) ∷ rest

-- Reading `d[key]` sets a key that is missing.
pub touch : Chars → Dict → Dict
touch key d = if has key d then d else d ++ (key, []) ∷ []

-- `_symbols_` and `_paths_`
pub record State : Type 0 where
  pub symbols : Dict
  pub paths : Dict

-- A mapping of the debuggee; `contains` asks for an address.
pub record Section : Type 0 where
  pub path : Chars
  pub executable : Bool
  pub contains : ℕ → Bool

-- `name.split("@")[0]`
abbrev pub short_name : Chars → Chars
short_name name = elim (split b'@' name) [ [] ↦ [] | part ∷ parts ↦ part ]

abbrev symbol_kinds : List Chars
symbol_kinds =
    codes "T" ∷ codes "i" ∷ codes "I" ∷ codes "v" ∷ codes "V" ∷ codes "w" ∷ codes "W" ∷ []

-- The symbol of a line of `nm`, if it has one that counts.
pub symbol_of : Chars → Option Chars
symbol_of line = elim (split_words line) [
  | address ∷ kind ∷ name ∷ [] ↦
      if chars_mem kind symbol_kinds then some (short_name name) else none
  | _ ↦ none
]

pub add_symbol : Chars → Chars → State → State
add_symbol elf_file sym st = record {
  symbols =
      if chars_mem elf_file (get sym st.symbols) then st.symbols else add sym elf_file st.symbols;
  paths = add elf_file sym st.paths;
}

-- `get_symbols_from_path`
pub get_symbols_from_path : Chars → List Chars → State → State
unfolding symbol_of add_symbol
get_symbols_from_path elf_file [] st = st
get_symbols_from_path elf_file (line ∷ lines) st = elim (symbol_of line) [
  | none ↦ get_symbols_from_path elf_file lines st
  | some sym ↦ get_symbols_from_path elf_file lines (add_symbol elf_file sym st)
]

-- The loop of `do_invoke` over the memory map.
unfoldable pub collect : (Chars → List Chars) → (Chars → Bool) → List Section → State → State
unfolding get_symbols_from_path
collect nm is_file [] st = st
collect nm is_file (section ∷ maps) st = collect nm is_file maps (
    if not (has section.path st.paths) && (is_file section.path && section.executable)
    then get_symbols_from_path section.path (nm section.path) st
    else st)

-- What `build_line` adds to the name of an entry: the path of the section that it points into, the
-- paths that provide the symbol if that is an error, and whether the section does not export it.
pub data Line : Type 0 where
  no_mapping : Line
  mapped : Chars → Option (List Chars) → Bool → Line

pub build_section : Chars → Chars → Section → State → Line × State
unfolding touch
build_section name path section st =
    let short = short_name name in
    let owners = get short st.symbols in
    let foreign =
      not (chars_eq section.path (codes "[vdso]")) && not (chars_eq section.path path) in
    (
      mapped section.path
          (if ltb 1 (length owners) && not (chars_mem short expected_dups)
            then some owners
            else none)
          (foreign && not (chars_mem short (get section.path st.paths))),
      record {
        symbols = touch short st.symbols;
        paths = if foreign then touch section.path st.paths else st.paths;
      },
    )

-- `build_line`
unfoldable pub build_line : Chars → Chars → ℕ → List Section → State → Line × State
unfolding build_section
build_line name path got_address [] st = (no_mapping, st)
build_line name path got_address (section ∷ maps) st =
    let rest = build_line name path got_address maps st in
    if section.contains got_address then build_section name path section st else rest
