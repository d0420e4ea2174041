-- ===== src/LibcArgs/Called.antt =====
-- scripts/libc_function_args/__init__.py: extract_called_function_name, and the pane for the call at the
-- program counter.
use gef_extras.Common.{
  ℕ, Bool, not, ◌&&◌, List, [], ◌∷◌, ◌++◌, Option, none, some, Chars, codes, Result, ok, err, ◌==◌,
  if◌then◌else◌, drop,
}
use gef_extras.Common.Strings.{chars_mem, starts_with, contains, join, rstrip, is_blank}
use gef_extras.Common.Hex.{format_x, is_hex_digit}
use gef_extras.LibcArgs.{
  Error, runtime_error, key_error, index_error, Tables, Files, Target, Debuggee, pane_content,
}

-- What gef knows of the instruction at the program counter and of the registers.
pub record Call : Type 0 where
  pub is_call : Bool
  pub operands : List Chars
  pub ptrsize : ℕ
  pub all_registers : List Chars
  pub register : Chars → ℕ

-- `size2type`
abbrev pub size2type : ℕ → Option Chars
size2type size =
    if size == 1
    then some (codes "BYTE")
    else if size == 2
    then some (codes "WORD")
    else if size == 4
    then some (codes "DWORD")
    else if size == 8
    then some (codes "QWORD")
    else none

-- `operands[-1]` of operands that are not empty.
abbrev pub last_operand : Chars → List Chars → Chars
last_operand operand [] = operand
last_operand operand (next ∷ operands) = last_operand next operands

-- `text.split()[-1]`
unfoldable pub last_word : Chars → Chars → Chars
last_word word [] = word
last_word word (c ∷ s) = last_word (if is_blank c then [] else word ++ c ∷ []) s

-- What stands behind the last place of a character, and behind the last `0x`.
unfoldable pub behind_last : ℕ → Chars → Option Chars
behind_last x [] = none
behind_last x (c ∷ s) = elim (behind_last x s) [
  | some t ↦ some t
  | none ↦ if c == x then some s else none
]

unfoldable pub behind_last_0x : Chars → Option Chars
unfolding starts_with
behind_last_0x [] = none
behind_last_0x (c ∷ s) = elim (behind_last_0x s) [
  | some t ↦ some t
  | none ↦ if starts_with (c ∷ s) (codes "0x") then some (drop 1 s) else none
]

unfoldable pub take_while : (ℕ → Bool) → Chars → Chars
take_while p [] = []
take_while p (c ∷ s) = let rest = take_while p s in if p c then c ∷ rest else []

-- The characters of `[^\(> ]`.
abbrev pub is_name_char : ℕ → Bool
is_name_char c = not (c == b'(') && (not (c == b'>') && not (c == b' '))

-- `re.sub(r".*<([^\(> ]*).*", r"\1", ops)`: the greedy star goes up to the last `<`.
unfoldable pub symbol_of : Chars → Chars
unfolding behind_last take_while
symbol_of ops = elim (behind_last b'<' ops) [ none ↦ ops | some t ↦ take_while is_name_char t ]

-- `re.sub(r".*(0x[a-fA-F0-9]*).*", r"\1", ops)`
unfoldable pub number_of : Chars → Chars
unfolding behind_last_0x take_while
number_of ops = elim (behind_last_0x ops) [
  | none ↦ ops
  | some t ↦ codes "0x" ++ take_while is_hex_digit t
]

abbrev direct : Chars → Chars
direct ops =
    if contains ops (codes "<") && contains ops (codes ">") then symbol_of ops else number_of ops

-- `extract_called_function_name`
unfoldable pub extract_called_function_name : Call → Result Error Chars
unfolding symbol_of number_of last_word contains join
extract_called_function_name call =
    if not call.is_call then err runtime_error else elim call.operands [
      | [] ↦ err index_error
      | operand ∷ operands ↦ elim (size2type call.ptrsize) [
        | none ↦ err key_error
        | some type_name ↦
            let last = last_operand operand operands in
            if starts_with last (type_name ++ codes " PTR")
            then ok (b'*' ∷ last_word [] (rstrip last))
            else if chars_mem (b'$' ∷ operand) call.all_registers
            then ok (codes "*0x" ++ format_x (call.register (b'$' ∷ operand)))
            else ok (direct (join (codes " ") (operand ∷ operands)))
      ]
    ]

-- The pane for the call at the program counter.
unfoldable pub show_pane :
    Files → Debuggee → Target → Call → Tables → Tables × Result Error (Option (List Chars))
unfolding extract_called_function_name
show_pane files d t call tables = elim (extract_called_function_name call) [
  | err e ↦ (tables, err e)
  | ok name ↦ pane_content files d t name tables
]
