-- ===== src/Windbg/Registers.antt =====
-- scripts/windbg.py: the command `r`, which prints registers or sets one. Register values come from
-- gef, and the names that are printed and the commands for gdb are texts.
pub mod Chunks
use gef_extras.Common.{
  ℕ, zero, suc, ◌+◌, ◌-◌, ◌*◌, ◌/◌, ◌%◌, ◌^◌, ◌≤◌, ◌<◌, max, Bool, true, false, List, [], ◌∷◌, ◌++◌,
  map, append_assoc, Option, none, some, Chars, codes, Result, ok, err, ◌>>=◌, length, take, drop,
  replicate, take-append-drop, length-take, length-drop, ltb, if◌then◌else◌, ◌≡◌, refl, ap, ◌∙◌,
  arith, length-append, length-replicate,
}
use gef_extras.Common.Hex.{format_x}
use gef_extras.Common.Strings.{starts_with, contains, split, join, remove_char, read_hex, chars_eq}

pub data Error : Type 0 where
  not_implemented value_error : Error

-- `arch_reg_width`
unfoldable pub arch_reg_width : Chars → Result Error ℕ
arch_reg_width arch =
    if starts_with arch (codes "i386:x86-64")
    then ok 3
    else if starts_with arch (codes "i386")
    then ok 6
    else if starts_with arch (codes "aarch64")
    then ok 4
    else err not_implemented

-- `chunks`: the slices `l[ii : ii + n]` for `ii` in `range(0, len(l), n)`, in `rounds` rounds.
pub chunks {ℓ} : {A : Type ℓ} → ℕ → ℕ → List A → List (List A)
chunks n zero l = []
chunks n (suc rounds) l = take n l ∷ chunks n rounds (drop n l)

abbrev pub max_length : List Chars → ℕ
max_length [] = 0
max_length (r ∷ rs) = max (length r) (max_length rs)

-- `max(map(len, reg_list))`, which raises on an empty list.
abbrev pub longest : List Chars → Result Error ℕ
longest [] = err value_error
longest (reg ∷ regs) = ok (max_length (reg ∷ regs))

-- `s.rjust(width)` and `"%0{width}x" % v`
abbrev pub rjust : ℕ → Chars → Chars
rjust width s = replicate (width - length s) b' ' ++ s

abbrev pub zero_padded : ℕ → ℕ → Chars
zero_padded width v = let s = format_x v in replicate (width - length s) b'0' ++ s

-- The registers that `print_gprs` prints.
abbrev pub i386_gprs : List Chars
i386_gprs =
    codes "eax"
    ∷ codes "ebx"
    ∷ codes "ecx"
    ∷ codes "edx"
    ∷ codes "esi"
    ∷ codes "edi"
    ∷ codes "eip"
    ∷ codes "esp"
    ∷ codes "ebp"
    ∷ []

abbrev pub x86_64_gprs : List Chars
x86_64_gprs =
    codes "rax"
    ∷ codes "rbx"
    ∷ codes "rcx"
    ∷ codes "rdx"
    ∷ codes "rsi"
    ∷ codes "rdi"
    ∷ codes "rip"
    ∷ codes "rsp"
    ∷ codes "rbp"
    ∷ codes "r8"
    ∷ codes "r9"
    ∷ codes "r10"
    ∷ codes "r11"
    ∷ codes "r12"
    ∷ codes "r13"
    ∷ codes "r14"
    ∷ codes "r15"
    ∷ []

abbrev pub aarch64_gprs : List Chars
aarch64_gprs =
    codes "x0"
    ∷ codes "x1"
    ∷ codes "x2"
    ∷ codes "x3"
    ∷ codes "x4"
    ∷ codes "x5"
    ∷ codes "x6"
    ∷ codes "x7"
    ∷ codes "x8"
    ∷ codes "x9"
    ∷ codes "x10"
    ∷ codes "x11"
    ∷ codes "x12"
    ∷ codes "x13"
    ∷ codes "x14"
    ∷ codes "x15"
    ∷ codes "x16"
    ∷ codes "x17"
    ∷ codes "x18"
    ∷ codes "x19"
    ∷ codes "x20"
    ∷ codes "x21"
    ∷ codes "x22"
    ∷ codes "x23"
    ∷ codes "x24"
    ∷ codes "x25"
    ∷ codes "x26"
    ∷ codes "x27"
    ∷ codes "x28"
    ∷ codes "fp"
    ∷ codes "lr"
    ∷ codes "sp"
    ∷ codes "pc"
    ∷ []

abbrev pub segregs : List Chars
segregs = codes "cs" ∷ codes "ss" ∷ codes "ds" ∷ codes "es" ∷ codes "fs" ∷ codes "gs" ∷ []

pub data Outcome : Type 0 where
  printed : Chars → Outcome
  executed : Chars → Outcome

-- `"".join(argv).replace(" ", "").replace("@", "")`
abbrev pub combine : List Chars → Chars
combine argv = remove_char b'@' (remove_char b' ' (join [] argv))

-- `set $REG = 0xVALUE`, from the two parts of a text that was split at "=".
pub set_register : List Chars → Result Error Outcome
set_register (regstr ∷ valstr ∷ []) = elim (read_hex valstr) [
  | none ↦ err value_error
  | some val ↦ ok (executed (codes "set $" ++ (regstr ++ (codes " = 0x" ++ format_x val))))
]
set_register _ = err value_error

-- What gef knows: the pointer size, and the value of a register.
module _ (ptrsize : ℕ) (register : Chars → ℕ) where
  -- `print_reg`: the value as an unsigned word of the pointer's size.
  pub print_reg : ℕ → ℕ → Chars → Chars
  print_reg max_reg_len width reg =
      let regval = register (b'$' ∷ reg) % 2 ^ (ptrsize * 8) in
      rjust max_reg_len reg ++ (b'=' ∷ zero_padded width regval)

  -- One line: the registers of a chunk, with blanks between them.
  pub print_line : ℕ → ℕ → List Chars → Chars
  unfolding print_reg
  print_line max_reg_len width [] = []
  print_line max_reg_len width (reg ∷ []) = print_reg max_reg_len width reg ++ (b'\n' ∷ [])
  print_line max_reg_len width (reg ∷ r ∷ regs) =
      print_reg max_reg_len width reg ++ (b' ' ∷ print_line max_reg_len width (r ∷ regs))

  pub print_lines : ℕ → ℕ → List (List Chars) → Chars
  unfolding print_line
  print_lines max_reg_len width [] = []
  print_lines max_reg_len width (regs ∷ more) =
      print_line max_reg_len width regs ++ print_lines max_reg_len width more

  -- `print_regs`
  unfoldable pub print_regs : Chars → List Chars → ℕ → Result Error Chars
  unfolding arch_reg_width print_lines chunks
  print_regs arch reg_list width = arch_reg_width arch >>= λ n. longest reg_list >>= λ max_reg_len.
      ok (print_lines max_reg_len width (chunks n ((length reg_list + (n - 1)) / n) reg_list))

  -- `print_gprs`; the texts of two calls of `print_regs` follow one another.
  pub print_gprs : Chars → Result Error Chars
  unfolding print_regs
  print_gprs arch =
      if chars_eq arch (codes "i386")
      then (do
        gprs ← print_regs arch i386_gprs 8
        segs ← print_regs arch segregs 4
        ok (gprs ++ segs))
      else if starts_with arch (codes "i386:x86-64")
      then (do
        gprs ← print_regs arch x86_64_gprs 16
        segs ← print_regs arch segregs 4
        ok (gprs ++ segs))
      else if starts_with arch (codes "aarch64")
      then print_regs arch aarch64_gprs 16
      else err not_implemented

  -- `do_invoke`: what is printed, or the command that gdb is given.
  unfoldable pub do_invoke : Chars → List Chars → Result Error Outcome
  unfolding print_gprs set_register
  do_invoke arch [] = print_gprs arch >>= λ text. ok (printed text)
  do_invoke arch (arg ∷ rest) =
      let combined = combine (arg ∷ rest) in
      if contains combined (codes "=")
      then set_register (split b'=' combined)
      else (print_regs arch (split b',' combined) 16 >>= λ text. ok (printed text))
