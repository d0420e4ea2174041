-- ===== src/Bincompare.antt =====
-- scripts/bincompare.py: the command `bincompare`. gef evaluates the address and reads the memory,
-- the file system gives the file: what they return are arguments.
pub mod Compare
pub mod Badchars
pub mod Corrupted
pub mod Print
pub mod Report
mod Tests
use gef_extras.Common.{
  ℕ, zero, suc, ◌+◌, ◌-◌, ◌/◌, Bool, true, false, List, [], ◌∷◌, ◌++◌, Option, none, some, String,
  Result, ok, err, ◌>>=◌, Chars, codes, length, get_elem?, replicate, ltb, ◌==◌, if◌then◌else◌,
}
use gef_extras.Common.Hex.{hex_byte, format_02x}

-- `memory_data[cnt]` past the end.
pub data Error : Type 0 where
  index_error : Error

-- The variables of the comparison loop; `corrupted` is none where the source has -1.
pub record State : Type 0 where
  pub result_table : List (Chars × Chars)
  pub badchars : Chars
  pub cnt : ℕ
  pub corrupted : Option ℕ

abbrev pub start : State
start = record { result_table = []; badchars = []; cnt = 0; corrupted = none }

abbrev is_empty : Chars → Bool
is_empty [] = true
is_empty (c ∷ s) = false

-- `badchars = hexchar`, or `badchars += ", " + hexchar`
abbrev pub add_badchar : Chars → Chars → Chars
add_badchar badchars hexchar =
    if is_empty badchars then hexchar else badchars ++ (b',' ∷ b' ' ∷ hexchar)

-- `if corrupted == -1: corrupted = cnt`
abbrev pub mark : Option ℕ → ℕ → Option ℕ
mark none cnt = some cnt
mark (some k) cnt = some k

-- The round for a byte of the file where the memory has the byte `m`.
pub compare_byte : ℕ → ℕ → State → State
compare_byte byte m s =
    if byte == m
    then record {
      result_table = s.result_table ++ (hex_byte byte, codes "  ") ∷ [];
      badchars = s.badchars;
      cnt = s.cnt + 1;
      corrupted = none;
    }
    else record {
      result_table = s.result_table ++ (hex_byte byte, hex_byte m) ∷ [];
      badchars = add_badchar s.badchars (hex_byte byte);
      cnt = s.cnt + 1;
      corrupted = mark s.corrupted s.cnt;
    }

-- One round of the loop `for eachByte in file_data`.
pub round : List ℕ → ℕ → State → Result Error State
unfolding compare_byte
round memory byte s =
    if ltb (length memory) s.cnt
    then ok (record {
      result_table = s.result_table ++ (hex_byte byte, codes "--") ∷ [];
      badchars = s.badchars;
      cnt = s.cnt + 1;
      corrupted = none;
    })
    else elim (get_elem? memory s.cnt) [
      | none ↦ err index_error
      | some m ↦ ok (compare_byte byte m s)
    ]

pub compare : List ℕ → List ℕ → State → Result Error State
unfolding round
compare memory [] s = ok s
compare memory (byte ∷ file) s = round memory byte s >>= λ s'. compare memory file s'

-- `for i in range(line, line + 16): if i < len(result_table)`, one column of the table.
pub gather : (Chars × Chars → Chars) → List (Chars × Chars) → ℕ → ℕ → List Chars
gather column table zero i = []
gather column table (suc rounds) i =
    let rest = gather column table rounds (i + 1) in
    elim (get_elem? table i) [ none ↦ rest | some entry ↦ column entry ∷ rest ]

-- A printed line: what stands before it, its sixteen cells, and its label.
pub record Line : Type 0 where
  pub offset : Chars
  pub cells : List Chars
  pub label : String

-- `print_line`
pub print_line : Chars → List Chars → String → Line
print_line line cells label = record {
  offset = line;
  cells = cells ++ replicate (16 - length cells) (codes "--");
  label = label;
}

-- The loop `for line in range(0, len(result_table), 16)`.
pub print_table : List (Chars × Chars) → ℕ → ℕ → List (Line × Line)
unfolding gather print_line
print_table table zero line = []
print_table table (suc rounds) line =
    (
      print_line (format_02x line) (gather (λ e. e.0) table 16 line) "file",
      print_line (codes "  ") (gather (λ e. e.1) table 16 line) "memory",
    )
    ∷ print_table table rounds (line + 16)

-- What an invocation reports.
pub data Outcome : Type 0 where
  no_arguments : Outcome
  file_not_found : Outcome
  file_too_short : Outcome
  memory_unreachable : Outcome
  compared : List (Line × Line) → Option ℕ → Chars → Outcome

pub report : State → Outcome
unfolding print_table
report s =
    compared (print_table s.result_table ((length s.result_table + 15) / 16) 0) s.corrupted
      s.badchars

-- `do_invoke`: `file` is the content of the file, if it exists, and `read n` what gef reads at the
-- address, `none` for a memory error.
pub do_invoke : Chars → Chars → Option (List ℕ) → (ℕ → Option (List ℕ)) → Result Error Outcome
unfolding compare report
do_invoke address filename file read =
    if is_empty address
    then ok no_arguments
    else if is_empty filename
    then ok no_arguments
    else elim file [
      | none ↦ ok file_not_found
      | some file_data ↦
          if ltb (length file_data) 8 then ok file_too_short else elim (read (length file_data)) [
            | none ↦ ok memory_unreachable
            | some memory ↦ compare memory file_data start >>= λ s. ok (report s)
          ]
    ]
