-- ===== src/Ida.antt =====
-- scripts/ida_interact.py: the session with IDA and the commands `ida-rpyc`. What gdb and gef know, and
-- whether IDA accepts a connection, are parameters; IDA is its database of colours and comments.
pub mod Session
pub mod Synced
pub mod Highlights
mod Tests
use gef_extras.Common.{
  ℕ, zero, suc, ◌+◌, ◌-◌, Bool, true, false, ◌&&◌, List, [], ◌∷◌, ◌++◌, select, Option, none, some,
  Chars, Result, ok, err, ◌>>=◌, ltb, leb, ◌==◌, if◌then◌else◌, min, max,
}
use gef_extras.Common.Strings.{chars_eq}

pub data Error : Type 0 where
  gdb_error index_error value_error : Error

-- Addresses in the database: `negsuc n` is -(n + 1).
pub data ℤ : Type 0 where
  pos : ℕ → ℤ
  negsuc : ℕ → ℤ

unfoldable pub sub_ℕ : ℕ → ℕ → ℤ
sub_ℕ a b = if leb b a then pos (a - b) else negsuc (b - a - 1)

unfoldable pub int_eq : ℤ → ℤ → Bool
int_eq (pos a) (pos b) = a == b
int_eq (negsuc a) (negsuc b) = a == b
int_eq (pos a) (negsuc b) = false
int_eq (negsuc a) (pos b) = false

pub record Section : Type 0 where
  pub path : Chars
  pub page_start : ℕ
  pub page_end : ℕ

pub record Debuggee : Type 0 where
  pub is_pie : Bool
  pub maps : List Section
  pub filepath : Chars
  pub parse_address : Chars → Result Error ℕ

-- IDA's database, with the address that it shows.
pub record Idb : Type 0 where
  pub color : ℤ → ℕ
  pub comment : ℤ → Chars
  pub cursor : Option ℤ

-- The session, with how often the function for synchronisation is hooked, and the command's
-- `last_hl_ea`, which is -1 for none. No command ever changes `breakpoints`.
pub record State : Type 0 where
  pub is_connected : Bool
  pub hooks : ℕ
  pub old_colors : List (ℤ × ℕ)
  pub last_hl_ea : Option ℕ
  pub idb : Idb

abbrev pub Colors : Type 0
Colors = List (ℤ × ℕ)

-- `old_colors[ea] = color`, `old_colors.get(ea)`, and `del old_colors[ea]`.
unfoldable pub store : ℤ → ℕ → Colors → Colors
unfolding int_eq
store ea color [] = (ea, color) ∷ []
store ea color ((k, v) ∷ colors) =
    let rest = store ea color colors in if int_eq k ea then (k, color) ∷ colors else (k, v) ∷ rest

unfoldable pub find : ℤ → Colors → Option ℕ
unfolding int_eq
find ea [] = none
find ea ((k, v) ∷ colors) = let rest = find ea colors in if int_eq k ea then some v else rest

unfoldable pub remove : ℤ → Colors → Colors
unfolding int_eq
remove ea [] = []
remove ea ((k, v) ∷ colors) =
    let rest = remove ea colors in if int_eq k ea then colors else (k, v) ∷ rest

unfoldable pub set_color : ℤ → ℕ → Idb → Idb
unfolding int_eq
set_color ea color idb = record idb { color = λ e. if int_eq e ea then color else idb.color e }

unfoldable pub set_cmt : ℤ → Chars → Idb → Idb
unfolding int_eq
set_cmt ea text idb = record idb { comment = λ e. if int_eq e ea then text else idb.comment e }

-- The default of the option `--color`.
abbrev pub green : ℕ
green = 0x00ff00

abbrev pub lowest : ℕ → List Section → ℕ
lowest low [] = low
lowest low (s ∷ sections) = lowest (min low s.page_start) sections

abbrev pub highest : ℕ → List Section → ℕ
highest high [] = high
highest high (s ∷ sections) = highest (max high s.page_end) sections

module _ (d : Debuggee) where
  abbrev pub own_sections : List Section
  own_sections = select (λ s. chars_eq s.path d.filepath) d.maps

  abbrev first_start : List Section → Result Error ℕ
  first_start [] = err index_error
  first_start (s ∷ sections) = ok s.page_start

  unfoldable pub get_rva : ℕ → Result Error ℤ
  unfolding sub_ℕ
  get_rva address = do base_address ← first_start own_sections; ok (sub_ℕ address base_address)

  -- The address in the database for one in the debuggee.
  unfoldable pub ea_of : ℕ → Result Error ℤ
  unfolding get_rva
  ea_of address = if d.is_pie then get_rva address else ok (pos address)

  abbrev pub highlighted : ℤ → ℕ → State → State
  highlighted ea color st = record st {
    old_colors = store ea (st.idb.color ea) st.old_colors;
    idb = set_color ea color st.idb;
  }

  -- RpycIdaHighlightAddCommand, at an address.
  unfoldable pub highlight_add : ℕ → ℕ → State → Result Error State
  unfolding ea_of set_color store
  highlight_add address color st = do ea ← ea_of address; ok (highlighted ea color st)

  -- The value of a key that is there, and back to the old colour.
  abbrev pub restored : ℤ → State → State
  restored ea st = elim (find ea st.old_colors) [
    | none ↦ st
    | some color ↦ record st {
      old_colors = remove ea st.old_colors;
      idb = set_color ea color st.idb;
    }
  ]

  -- RpycIdaHighlightDeleteCommand, at an address.
  unfoldable pub highlight_del : ℕ → State → Result Error State
  unfolding ea_of set_color find remove
  highlight_del address st = do ea ← ea_of address; ok (restored ea st)

  -- RpycIdaJumpCommand
  unfoldable pub jump : ℕ → State → Result Error State
  unfolding ea_of
  jump address st = do
    ea ← ea_of address
    ok (record st { idb = record st.idb { cursor = some ea } })

  -- RpycIdaCommentAddCommand; RpycIdaCommentDeleteCommand sets the empty comment.
  unfoldable pub comment_add : ℕ → Chars → State → Result Error State
  unfolding ea_of set_cmt
  comment_add address text st = do
    ea ← ea_of address
    ok (record st { idb = set_cmt ea text st.idb })

  unfoldable pub comment_del : ℕ → State → Result Error State
  unfolding comment_add
  comment_del address st = comment_add address [] st

  -- Whether an address lies between the first and the last page of the program.
  unfoldable pub is_own : ℕ → List Section → Result Error Bool
  is_own pc [] = err value_error
  is_own pc (s ∷ sections) =
      ok (leb (lowest s.page_start sections) pc && ltb pc (highest s.page_end sections))

  abbrev pub unmark : Option ℕ → State → Result Error State
  unmark none st = ok st
  unmark (some last) st = highlight_del last st

  -- The commands that `synchronize` hands to gdb, with the addresses that they are parsed to.
  unfoldable pub follow_pc : ℕ → State → Result Error State
  unfolding highlight_del highlight_add jump
  follow_pc pc st = do
    unmarked ← unmark st.last_hl_ea st
    moved ← jump pc unmarked
    marked ← highlight_add pc green moved
    ok (record marked { last_hl_ea = some pc })

  -- `synchronize`
  unfoldable pub synchronize : ℕ → State → Result Error State
  unfolding is_own follow_pc
  synchronize pc st = do own ← is_own pc own_sections; if own then follow_pc pc st else ok st
