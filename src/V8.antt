-- ===== src/V8.antt =====
-- scripts/v8-dereference.py: the command `vereference`. What gdb and gef know of the debuggee is a
-- parameter; colours are left out of the texts. The chain of pointers is in the child `Chain`, the
-- command in `Command`.
pub mod Chain
pub mod Isolate
pub mod Command
mod Tests
use gef_extras.Common.{
  ℕ, zero, suc, ◌+◌, ◌*◌, ◌%◌, ◌/◌, ◌^◌, ◌-◌, Bool, true, false, ◌&&◌, List, [], ◌∷◌, ◌++◌, length,
  drop, replicate, Option, none, some, Chars, codes, ltb, ◌==◌, if◌then◌else◌, truth,
}
use gef_extras.Common.Strings.{cut_at}
use gef_extras.Common.Hex.{format_x}

pub data Error : Type 0 where
  gdb_error index_error value_error type_error : Error

pub record Section : Type 0 where
  pub is_executable : Bool
  pub is_readable : Bool

-- gef's `Address`; `shown` is its `str`.
pub record Address : Type 0 where
  pub value : ℕ
  pub section : Option Section
  pub valid : Bool
  pub is_in_text_segment : Bool
  pub shown : Chars

pub record Instruction : Type 0 where
  pub location : Chars
  pub mnemonic : Chars
  pub operands : List Chars

-- `execute` is the output of a command of gdb, none where it raises; `read_key` is the decimal text
-- of the `int` at an address, none where gdb cannot read it; `max_recursion` is gef's setting.
pub record Debuggee : Type 0 where
  pub is_alive : Bool
  pub ptrsize : ℕ
  pub memory_alignment : ℕ
  pub max_recursion : ℕ
  pub grow_stack_down : Bool
  pub registers : List (Chars × ℕ)
  pub align_address : ℕ → ℕ
  pub lookup_address : ℕ → Address
  pub dereference : ℕ → Option ℕ
  pub is_mapped : ℕ → Bool
  pub format_address : ℕ → Chars
  pub is_ascii_string : ℕ → Bool
  pub read_cstring : ℕ → Chars
  pub instruction : ℕ → Instruction
  pub execute : Chars → Option Chars
  pub read_key : ℕ → Option Chars
  pub parse_and_eval : Chars → Option ℕ
  pub right_arrow : Chars
  pub left_arrow : Chars
  pub vertical_line : Chars

-- `"{:#0{width}x}"`
unfoldable pub format_0x : ℕ → ℕ → Chars
format_0x width n =
    let digits = format_x n in codes "0x" ++ (replicate (width - 2 - length digits) b'0' ++ digits)

-- `"{:08x}"`
unfoldable pub format_08x : ℕ → Chars
format_08x n = let digits = format_x n in replicate (8 - length digits) b'0' ++ digits

-- `s.split(sep)[0]` and `s.split(sep)[1]`
unfoldable pub first_part : Chars → Chars → Chars
unfolding cut_at
first_part sep s = elim (cut_at sep s) [ none ↦ s | some (before, behind) ↦ before ]

unfoldable pub second_part : Chars → Chars → Option Chars
unfolding cut_at first_part
second_part sep s = elim (cut_at sep s) [
  | none ↦ none
  | some (before, behind) ↦ some (first_part sep behind)
]

-- `format_compressed`
unfoldable pub format_compressed : ℕ → Chars
unfolding format_08x
format_compressed address =
    codes "0x" ++ (format_08x (address / 2 ^ 32) ++ format_08x (address % 2 ^ 32))

module _ (d : Debuggee) where
  open d use {lookup_address, align_address, dereference, format_address}

  -- The address that half a word stands for, in the heap of the isolate.
  abbrev pub decompressed : ℕ → ℕ → Address
  decompressed isolate_root half = lookup_address (align_address (isolate_root + half))

  -- A half counts as a compressed pointer when it can be dereferenced, to a value that is not zero,
  -- lies behind the first pages of the heap and is tagged.
  pub is_compressed : ℕ → Address → Bool
  is_compressed isolate_root address = elim (dereference address.value) [
    | none ↦ false
    | some v ↦ truth v && ltb (isolate_root + 0x0c000) address.value && (address.value % 2 == 1)
  ]

  -- A half that is no pointer: a small integer, if its lowest bit is clear.
  pub format_half : ℕ → Chars
  unfolding format_0x
  format_half val =
      let text = codes "        " ++ format_0x 10 val in
      if val % 2 == 1
      then text
      else text ++ (codes " (SMI: 0x" ++ (format_x (val / 2) ++ codes ")"))

  pub format_part : ℕ → ℕ → Chars
  unfolding is_compressed format_half format_compressed
  format_part isolate_root half =
      if is_compressed isolate_root (decompressed isolate_root half)
      then format_compressed (decompressed isolate_root half).value
      else format_half half
