-- ===== src/LibcArgs/Generator.antt =====
-- scripts/libc_function_args/tables/generator.py: the prototypes of the manual and the tables that are made
-- of them. The lines of the manual are an argument.
pub mod Parsed
pub mod Generated
mod Tests
use gef_extras.Common.{
  ℕ, zero, suc, ◌-◌, Bool, true, false, not, List, [], ◌∷◌, ◌++◌, length, map, Option, none, some,
  Chars, codes, Result, ok, err, ◌>>=◌, ◌==◌, if◌then◌else◌,
}
use gef_extras.Common.Strings.{
  starts_with, ends_with, contains, split, cut_at, strip, rstrip, lstrip,
}
use gef_extras.LibcArgs.{Parameters, Functions, put}

pub data Error : Type 0 where
  index_error : Error

-- What stands behind the last blank.
unfoldable pub last_word : Chars → Chars → Chars
last_word word [] = word
last_word word (c ∷ s) = last_word (if c == b' ' then [] else word ++ c ∷ []) s

-- The part of a text before the last place of a character.
unfoldable pub before_last : ℕ → Chars → Option Chars
before_last x [] = none
before_last x (c ∷ s) =
    let rest = before_last x s in
    elim rest [ some t ↦ some (c ∷ t) | none ↦ if c == x then some [] else none ]

-- `l.split(" (")[0]`, and `" (".join(l.split(" (")[1:])`.
abbrev pub before_arguments : Chars → Chars
before_arguments l = elim (cut_at (codes " (") l) [ none ↦ l | some (a, b) ↦ a ]

abbrev pub behind_name : Chars → Chars
behind_name l = elim (cut_at (codes " (") l) [ none ↦ [] | some (a, b) ↦ b ]

-- `__get_function_name`
unfoldable pub get_function_name : Chars → Chars
unfolding last_word cut_at
get_function_name l = last_word [] (before_arguments l)

abbrev pub or_empty : Option Chars → Chars
or_empty none = []
or_empty (some s) = s

-- `__get_function_args`
unfoldable pub get_function_args : Chars → List Chars
unfolding before_last split strip cut_at
get_function_args l = map strip (split b',' (or_empty (before_last b')' (behind_name l))))

-- `s.replace(part, "")`: `skip` characters of a place are left.
unfoldable pub without : Chars → ℕ → Chars → Chars
unfolding starts_with
without part skip [] = []
without part (suc skip) (c ∷ s) = without part skip s
without part zero (c ∷ s) =
    let found = without part (length part - 1) s in
    let kept = without part zero s in if starts_with (c ∷ s) part then found else c ∷ kept

-- `s.rstrip(";")`
unfoldable pub rstrip_semicolons : Chars → Chars
rstrip_semicolons [] = []
rstrip_semicolons (c ∷ s) =
    let rest = rstrip_semicolons s in
    elim rest [ [] ↦ if c == b';' then [] else c ∷ [] | d ∷ ds ↦ c ∷ d ∷ ds ]

abbrev pub mark : Chars
mark = codes " -- Function: "

unfoldable pub stripped_line : Chars → Chars
unfolding without rstrip_semicolons rstrip lstrip
stripped_line line = lstrip (rstrip_semicolons (rstrip (without mark zero line)))

-- `f"{line} {next_line}"`, where the next line is stripped too; behind the last one it is empty.
abbrev joined : Chars → Chars → Chars
joined line next_line = line ++ (b' ' ∷ lstrip (rstrip next_line))

-- The prototypes of the manual: each from a marked line, and from the next one too if it does not end
-- in a parenthesis. That next line is not looked at again.
unfoldable pub prototypes : List Chars → List Chars
unfolding stripped_line contains ends_with rstrip lstrip
prototypes [] = []
prototypes (line ∷ []) =
    let text = stripped_line line in
    if contains line mark
    then (if ends_with text (codes ")") then text ∷ [] else joined text [] ∷ [])
    else []
prototypes (line ∷ next_line ∷ lines) =
    let text = stripped_line line in
    let behind = prototypes (next_line ∷ lines) in
    let behind_next = prototypes lines in
    if contains line mark
    then (if ends_with text (codes ")") then text ∷ behind else joined text next_line ∷ behind_next)
    else behind

abbrev pub Prototypes : Type 0
Prototypes = List (Chars × List Chars)

-- `function_dict`: a later prototype of a function replaces an earlier one.
unfoldable pub collect : List Chars → Prototypes → Prototypes
unfolding get_function_name get_function_args put
collect [] function_dict = function_dict
collect (text ∷ texts) function_dict =
    collect texts (put (get_function_name text) (get_function_args text) function_dict)

-- `_dict[_key][_params[i]] = _value[i]`, from the first to the last argument.
unfoldable pub fill : List Chars → List Chars → Parameters → Result Error Parameters
unfolding put
fill params [] filled = ok filled
fill [] (value ∷ values) filled = err index_error
fill (param ∷ params) (value ∷ values) filled = fill params values (put param value filled)

-- The table of `generate_json_file`.
unfoldable pub generate : List Chars → Prototypes → Result Error Functions
unfolding fill
generate params [] = ok []
generate params ((name, values) ∷ function_dict) = do
  filled ← fill params values []
  rest ← generate params function_dict
  ok ((name, filled) ∷ rest)

abbrev pub params_64 : List Chars
params_64 =
    codes "$rdi" ∷ codes "$rsi" ∷ codes "$rdx" ∷ codes "$rcx" ∷ codes "$r8" ∷ codes "$r9" ∷ []

abbrev pub params_32 : List Chars
params_32 =
    codes "[sp + 0x0]"
    ∷ codes "[sp + 0x4]"
    ∷ codes "[sp + 0x8]"
    ∷ codes "[sp + 0xc]"
    ∷ codes "[sp + 0x10]"
    ∷ codes "[sp + 0x14]"
    ∷ []

-- The two tables of `generate_all_json_files`, for the manual's lines: those that are wanted.
abbrev if_wanted : Bool → Result Error Functions → Result Error (Option Functions)
if_wanted false table = ok none
if_wanted true table = do functions ← table; ok (some functions)

unfoldable pub generate_all :
    Bool → Bool → List Chars → Result Error (Option Functions × Option Functions)
unfolding generate collect prototypes
generate_all want_64 want_32 lines = do
  let function_dict = collect (prototypes lines) []
  table_64 ← if_wanted want_64 (generate params_64 function_dict)
  table_32 ← if_wanted want_32 (generate params_32 function_dict)
  ok (table_64, table_32)
