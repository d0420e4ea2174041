-- ===== src/Bytearray.antt =====
-- scripts/bytearray.py: the command `bytearray`. Texts are lists of code points, a bytes object is
-- a list of numbers. What `do_invoke` leaves behind are the two files that it writes.
pub mod Dump
mod Expand
pub mod Table
mod Tests
use gef_extras.Common.{
  ℕ, zero, suc, ◌+◌, ◌-◌, Bool, true, false, ◌&&◌, ◌||◌, not, List, [], ◌∷◌, ◌++◌, Option, none,
  some, String, Result, ok, err, ◌>>=◌, Chars, codes, select, ltb, ◌==◌, if◌then◌else◌, str_eq,
}
use gef_extras.Common.Hex.{hex_byte, is_hex_digit, byte_value}

-- `badchars[bpos + 1]` past the end, `int` of a text that is no number, `unhexlify` of a text that
-- is no sequence of digit pairs.
pub data Error : Type 0 where
  index_error value_error unhexlify_error : Error

-- `permitted_char` and `cleanHex`.
abbrev pub permitted_char : ℕ → Bool
permitted_char c = is_hex_digit c

unfoldable pub clean_hex : Chars → Chars
clean_hex hex = select permitted_char hex

-- `hex2int` and `int(s, 16)`, on texts of two characters, which is all that the code gives them.
unfoldable pub hex_to_int : Chars → Result Error ℕ
hex_to_int (a ∷ b ∷ []) = elim (byte_value a b) [ none ↦ err value_error | some v ↦ ok v ]
hex_to_int _ = err value_error

-- `pattern.replace("\\x", "")`
strip_escape : Chars → Chars
strip_escape [] = []
strip_escape (a ∷ []) = a ∷ []
strip_escape (a ∷ b ∷ rest) =
    let cut = strip_escape rest in
    let keep = a ∷ strip_escape (b ∷ rest) in if a == b'\\' && b == b'x' then cut else keep

-- `binascii.unhexlify`
unhexlify : Chars → Result Error (List ℕ)
unhexlify [] = ok []
unhexlify (a ∷ []) = err unhexlify_error
unhexlify (a ∷ b ∷ rest) = elim (byte_value a b) [
  | none ↦ err unhexlify_error
  | some v ↦ unhexlify rest >>= λ vs. ok (v ∷ vs)
]

pub hex_to_bin : Chars → Result Error (List ℕ)
unfolding strip_escape unhexlify
hex_to_bin pattern =
    unhexlify
      (select (λ c. not (c == b'\'')) (select (λ c. not (c == b'"')) (strip_escape pattern)))

-- The loop `while bbefore < bafter`: the bytes from `cur`, in `rounds` rounds.
hex_run : ℕ → ℕ → Chars
hex_run zero cur = []
hex_run (suc rounds) cur = hex_byte cur ++ hex_run rounds (cur + 1)

-- What stands for "..": the bytes between the one before (none at the start) and the one after.
between : Option (ℕ × ℕ) → Chars → Result Error Chars
unfolding hex_run hex_to_int
between (some (p, q)) (c ∷ d ∷ rest) = do
  before ← hex_to_int (p ∷ q ∷ [])
  after ← hex_to_int (c ∷ d ∷ [])
  ok (hex_run (after - (before + 1)) (before + 1))
between _ _ = ok []

-- The loop over `badchars`, two characters a round; `before` are the two of the last round.
pub expand : Option (ℕ × ℕ) → Chars → Result Error Chars
unfolding between
expand before [] = ok []
expand before (a ∷ []) = err index_error
expand before (a ∷ b ∷ rest) =
    (if a == b'.' && b == b'.' then between before rest else ok (a ∷ b ∷ [])) >>= λ new.
    expand (some (a, b)) rest >>= λ more. ok (new ++ more)

-- The loop that fills `excluded`.
pub excluded_of : Chars → Result Error (List (List ℕ))
unfolding hex_to_bin
excluded_of [] = ok []
excluded_of (a ∷ []) = err index_error
excluded_of (a ∷ b ∷ rest) =
    hex_to_bin (a ∷ b ∷ []) >>= λ bin. excluded_of rest >>= λ more. ok (bin ∷ more)

abbrev bytes_eq : List ℕ → List ℕ → Bool
bytes_eq [] [] = true
bytes_eq [] (y ∷ ys) = false
bytes_eq (x ∷ xs) [] = false
bytes_eq (x ∷ xs) (y ∷ ys) = x == y && bytes_eq xs ys

-- `bin in excluded`
abbrev pub bytes_mem : List ℕ → List (List ℕ) → Bool
bytes_mem bin [] = false
bytes_mem bin (x ∷ xs) = bytes_eq bin x || bytes_mem bin xs

-- `arraytable` and `binarray`
pub record Arrays : Type 0 where
  pub table : List Chars
  pub binary : List ℕ

abbrev pub append_byte : Bool → Chars → ℕ → Arrays → Arrays
append_byte true hex v rest = rest
append_byte false hex v rest = record { table = hex ∷ rest.table; binary = v ∷ rest.binary }

-- The loop `for thisval in range(startval, endval)`, over the values from `v` in `n` rounds.
pub create_bytes : ℕ → ℕ → List (List ℕ) → Result Error Arrays
unfolding hex_to_bin hex_to_int
create_bytes zero v excluded = ok (record { table = []; binary = [] })
create_bytes (suc n) v excluded = hex_to_bin (hex_byte v) >>= λ bin.
    hex_to_int (hex_byte v) >>= λ i. create_bytes n (v + 1) excluded >>= λ rest.
    ok (append_byte (bytes_mem bin excluded) (hex_byte v) i rest)

abbrev bytes_per_line : ℕ
bytes_per_line = 32

abbrev pub quote_end : Chars
quote_end = b'"' ∷ b'\n' ∷ []

abbrev pub escaped : Chars → Chars
escaped hex = b'\\' ∷ b'x' ∷ hex

-- The loop over `arraytable`, with its variables `cnt`, `outputline` and `output`.
pub dump_loop : List Chars → ℕ → Chars → Chars → Chars
dump_loop [] cnt line output =
    output ++ (if ltb (cnt - 1) bytes_per_line then line ++ quote_end else line)
dump_loop (hex ∷ rest) cnt line output = elim (ltb cnt bytes_per_line) [
  | true ↦ dump_loop rest (cnt + 1) (line ++ escaped hex) output
  | false ↦ dump_loop rest 1 (b'"' ∷ escaped hex) (output ++ (line ++ quote_end))
]

pub dump : List Chars → Chars
unfolding dump_loop
dump table = dump_loop table 0 (b'"' ∷ []) []

-- What an invocation leaves: `bytearray.bin` and `bytearray.txt`, or the usage text.
pub data Outcome : Type 0 where
  usage : Outcome
  files : List ℕ → Chars → Outcome

-- `do_invoke` behind `getopt`, from the cleaned text of the option on.
pub generate : Chars → Result Error Arrays
generate badchars = do
  expanded ← expand none (clean_hex badchars)
  excluded ← excluded_of expanded
  create_bytes 256 0 excluded

-- The loop over the options that `getopt` found, each with its argument: `none` if "-h" was met.
pub read_options : List (String × Chars) → Chars → Option Chars
read_options [] badchars = some badchars
read_options ((o, a) ∷ rest) badchars = elim (str_eq o "-b") [
  | true ↦ read_options rest a
  | false ↦ elim (str_eq o "-h") [ true ↦ none | false ↦ read_options rest badchars ]
]

pub do_invoke : List (String × Chars) → Result Error Outcome
unfolding read_options
do_invoke opts = elim (read_options opts []) [
  | none ↦ ok usage
  | some badchars ↦ generate badchars >>= λ arrays. ok (files arrays.binary (dump arrays.table))
]
