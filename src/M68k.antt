-- ===== src/M68k.antt =====
-- archs/m68k.py: the class `M68K`. A mnemonic is a text, and the status register a natural number.
-- `is_branch_taken` returns whatever operand its expression stops at, so the first part of the
-- result is an integer that the caller only tests.
pub mod Branches
mod Tests
use gef_extras.Common.{
  ℕ, ◌^◌, String, Bool, List, [], ◌∷◌, map, Option, none, some, bit_and, str_eq, str_mem,
  if◌then◌else◌, ◌==◌, truth, of_bool, py_not, py_and, py_or, not,
}
use gef_extras.Gef.{Instruction}

-- `flags_table`: the position of a flag, and its name.
abbrev pub flags_table : List (ℕ × String)
flags_table =
    (0, "carry")
    ∷ (1, "overflow")
    ∷ (2, "zero")
    ∷ (3, "negative")
    ∷ (4, "extend")
    ∷ (12, "master")
    ∷ (13, "supervisor")
    ∷ []

-- `flags[name]` in the inverted table; `none` is the `KeyError`.
abbrev flag_position : String → List (ℕ × String) → Option ℕ
flag_position name [] = none
flag_position name ((k, flag) ∷ rest) = if str_eq flag name then some k else flag_position name rest

-- `val & (1 << flags[name])`. All names that the code asks for are in the table.
abbrev flag : ℕ → String → ℕ
flag val name = elim (flag_position name flags_table) [ some k ↦ bit_and val (2 ^ k) | none ↦ 0 ]

pub is_call : Instruction → Bool
is_call insn = str_mem insn.mnemonic ("jsr" ∷ "bsrb" ∷ "bsrw" ∷ "bsrl" ∷ [])

pub is_ret : Instruction → Bool
is_ret insn = str_eq insn.mnemonic "rts"

-- `branch_mnemos`
abbrev branch_mnemos : List String
branch_mnemos =
    "bccb" ∷ "bcsb" ∷ "beqb" ∷ "bgeb" ∷ "bgtb" ∷ "bhib" ∷ "bleb" ∷ "blsb" ∷ "bltb" ∷ "bmib" ∷ "bneb"
    ∷ "bplb" ∷ "bvcb" ∷ "bvsb" ∷ "bccw" ∷ "bcsw" ∷ "beqw" ∷ "bgew" ∷ "bgtw" ∷ "bhiw" ∷ "blew"
    ∷ "blsw" ∷ "bltw" ∷ "bmiw" ∷ "bnew" ∷ "bplw" ∷ "bvcw" ∷ "bvsw" ∷ "bccl" ∷ "bcsl" ∷ "beql"
    ∷ "bgel" ∷ "bgtl" ∷ "bhil" ∷ "blel" ∷ "blsl" ∷ "bltl" ∷ "bmil" ∷ "bnel" ∷ "bpll" ∷ "bvcl"
    ∷ "bvsl" ∷ []

pub is_conditional_branch : Instruction → Bool
is_conditional_branch insn = str_mem insn.mnemonic branch_mnemos

-- `bool(x) == bool(y)`
abbrev same_truth : ℕ → ℕ → ℕ
same_truth x y = if truth x then of_bool (truth y) else py_not y

-- The branch conditions of `is_branch_taken`, with the value of `$ps` given.
pub is_branch_taken : ℕ → Instruction → ℕ × String
is_branch_taken val insn =
    let mnemo = insn.mnemonic in
    let c = flag val "carry" in
    let v = flag val "overflow" in
    let z = flag val "zero" in
    let n = flag val "negative" in
    if str_mem mnemo ("bccs" ∷ "bccw" ∷ "bccl" ∷ [])
    then (py_not c, "!C")
    else if str_mem mnemo ("bcss" ∷ "bcsw" ∷ "bcsl" ∷ [])
    then (c, "C")
    else if str_mem mnemo ("beqs" ∷ "beqw" ∷ "beql" ∷ [])
    then (z, "Z")
    else if str_mem mnemo ("bges" ∷ "bgew" ∷ "bgel" ∷ [])
    then (same_truth n v, "N==O")
    else if str_mem mnemo ("bgts" ∷ "bgtw" ∷ "bgtl" ∷ [])
    then (py_and (py_not z) (same_truth v n), "!Z && N==O")
    else if str_mem mnemo ("bhis" ∷ "bhiw" ∷ "bhil" ∷ [])
    then (py_and (py_not c) (py_not z), "!C && !Z")
    else if str_mem mnemo ("bles" ∷ "blew" ∷ "blel" ∷ [])
    then (py_or z (py_not (same_truth v n)), "Z || N!=O")
    else if str_mem mnemo ("blss" ∷ "blsw" ∷ "blsl" ∷ [])
    then (py_or c z, "C || Z")
    else if str_mem mnemo ("blts" ∷ "bltw" ∷ "bltl" ∷ [])
    then (of_bool (not (v == n)), "N!=O")
    else if str_mem mnemo ("bmis" ∷ "bmiw" ∷ "bmil" ∷ [])
    then (n, "N")
    else if str_mem mnemo ("bnes" ∷ "bnew" ∷ "bnel" ∷ [])
    then (py_not z, "!Z")
    else if str_mem mnemo ("bpls" ∷ "bplw" ∷ "bpll" ∷ [])
    then (py_not n, "!N")
    else if str_mem mnemo ("bvcs" ∷ "bvcw" ∷ "bvcl" ∷ [])
    then (py_not v, "!O")
    else if str_mem mnemo ("bvss" ∷ "bvsw" ∷ "bvsl" ∷ [])
    then (v, "O")
    else (0, "")

-- `get_ra`: `stack_top` is the word at the stack pointer, `older` the program counter of the caller's
-- frame, if there is one.
pub get_ra : Instruction → ℕ → Option ℕ → Option ℕ
unfolding is_ret
get_ra insn stack_top (some pc) = some pc
get_ra insn stack_top none = if is_ret insn then some stack_top else none
