-- ===== src/LibcArgs.antt =====
-- scripts/libc_function_args/__init__.py: the tables of function arguments and the context pane. The files,
-- what gef knows of parameters and, here, the name of the called function are arguments: LibcArgs/Called has
-- how that name is found.
pub mod Pane
pub mod Called
pub mod Named
pub mod Generator
mod Tests
use gef_extras.Common.{
  ℕ, zero, suc, ◌+◌, Bool, true, false, not, ◌&&◌, ◌||◌, List, [], ◌∷◌, ◌++◌, Option, none, some,
  Chars, codes, Result, ok, err, ◌>>=◌, length, ◌==◌, if◌then◌else◌,
}
use gef_extras.Common.Strings.{chars_eq, ends_with, split, join, to_lower}

pub data Error : Type 0 where
  runtime_error key_error index_error : Error

-- A dictionary with text keys; setting a key that is there replaces its value.
module _ {V : Type 0} where
  unfoldable pub find : Chars → List (Chars × V) → Option V
  find key [] = none
  find key ((k, v) ∷ d) = let rest = find key d in if chars_eq k key then some v else rest

  unfoldable pub put : Chars → V → List (Chars × V) → List (Chars × V)
  put key v [] = (key, v) ∷ []
  put key v ((k, w) ∷ d) =
      let rest = put key v d in if chars_eq k key then (k, v) ∷ d else (k, w) ∷ rest

-- The parameters of a function with their descriptions, the functions of a table, and the tables of
-- `argument_table`.
abbrev pub Parameters : Type 0
Parameters = List (Chars × Chars)

abbrev pub Functions : Type 0
Functions = List (Chars × Parameters)

abbrev pub Tables : Type 0
Tables = List (Chars × Functions)

-- What opening and reading a table gives.
pub data File : Type 0 where
  missing malformed : File
  loaded : Functions → File

-- The directory and the table of an architecture and a mode, before and after a generation, and what
-- the generator returns.
pub record Files : Type 0 where
  pub has_directory : Bool
  pub exists_before : Chars → Bool
  pub generated : Bool
  pub file : Chars → File

pub record Target : Type 0 where
  pub arch : Chars
  pub mode : Chars

abbrev pub arch_mode : Target → Chars
arch_mode t = to_lower t.arch ++ (b'_' ∷ t.mode)

abbrev pub read_table : Chars → File → Tables → Bool × Tables
read_table name (loaded functions) tables = (true, put name functions tables)
read_table name missing tables = (false, put name [] tables)
read_table name malformed tables = (false, put name [] tables)

-- `load_libc_args`
unfoldable pub load_libc_args : Files → Target → Tables → Result Error (Bool × Tables)
unfolding find put
load_libc_args files t tables =
    if not files.has_directory
    then err runtime_error
    else if not (files.exists_before (arch_mode t)) && not files.generated
    then err runtime_error
    else elim (find (arch_mode t) tables) [
      | some functions ↦ ok (true, tables)
      | none ↦ ok (read_table (arch_mode t) (files.file (arch_mode t)) tables)
    ]

-- `gef.arch.get_ith_parameter` and `dereference_from`, with the arrow of gef's display.
pub record Debuggee : Type 0 where
  pub parameter : ℕ → Chars × Option ℕ
  pub dereference_from : ℕ → List Chars
  pub arrow : Chars

-- A line of the pane for a value that is there.
abbrev pub value_line : Debuggee → Parameters → Chars → ℕ → Result Error Chars
value_line d parameters key value = elim (find key parameters) [
  | none ↦ err key_error
  | some description ↦ ok (
      b'\t'
      ∷ (key
          ++ (codes " = "
              ++ (join d.arrow (d.dereference_from value)
                  ++ (codes " /* " ++ (description ++ codes ") */"))))))
]

-- The line of parameter `i`; a register with no value or with zero is not shown.
pub line_of : Debuggee → Parameters → ℕ → Result Error Chars
unfolding find
line_of d parameters i =
    let (key, found) = d.parameter i in
    elim found [
      | none ↦ ok (key ++ codes ": <invalid>")
      | some value ↦
          if value == 0 then ok (key ++ codes ": <invalid>") else value_line d parameters key value
    ]

-- The loop over the parameters.
pub lines_of : Debuggee → Parameters → ℕ → ℕ → Result Error (List Chars)
unfolding line_of
lines_of d parameters zero i = ok []
lines_of d parameters (suc n) i = line_of d parameters i >>= λ line.
    lines_of d parameters n (i + 1) >>= λ lines. ok (line ∷ lines)

abbrev pub is_empty : Tables → Bool
is_empty [] = true
is_empty (t ∷ ts) = false

abbrev pub first_part : List Chars → Chars
first_part [] = []
first_part (part ∷ parts) = part

-- `function_name.split("@")[0]`
abbrev pub basename_of : Chars → Chars
basename_of name = first_part (split b'@' name)

abbrev pub is_plt : Chars → Bool
is_plt name = ends_with name (codes "@plt") && not (ends_with name (codes "@got.plt"))

-- The lines of a call, `none` where nothing is printed.
unfoldable pub show_call : Debuggee → Target → Chars → Tables → Result Error (Option (List Chars))
unfolding lines_of find
show_call d t name tables =
    if not (is_plt name) then ok none else elim (find (arch_mode t) tables) [
      | none ↦ err key_error
      | some functions ↦ elim (find (basename_of name) functions) [
        | none ↦ err key_error
        | some parameters ↦ lines_of d parameters (length parameters) 0 >>= λ lines. ok (some lines)
      ]
    ]

-- `pane_content`: the tables behind it, and what is printed or raised.
unfoldable pub pane_content :
    Files → Debuggee → Target → Chars → Tables → Tables × Result Error (Option (List Chars))
unfolding load_libc_args show_call
pane_content files d t name tables =
    if is_empty tables
    then elim (load_libc_args files t tables) [
      | err e ↦ (tables, err e)
      | ok r ↦ (r.1, show_call d t name r.1)
    ]
    else (tables, show_call d t name tables)
