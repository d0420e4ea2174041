-- ===== src/Assemble/Run.antt =====
-- scripts/assemble.py: `ks_assemble` with its cached assembler, and the rest of `do_invoke` of
-- `assemble`. Keystone is a parameter: which assemblers it can make, and what one makes of a line.
pub mod Cached
pub mod Written
use gef_extras.Common.{
  ℕ, suc, ◌+◌, bit_or, Bool, true, false, not, ◌&&◌, ◌||◌, List, [], ◌∷◌, ◌++◌, append_assoc,
  append-nil, Option, none, some, Chars, codes, Result, ok, err, ◌>>=◌, if◌then◌else◌, ◌==◌, ◌≡◌,
  refl, sym, ap, ◌∙◌, arith, Option-cases, Bool-cases, inl, inr, bind_ok, length, select,
}
use gef_extras.Common.Hex.{hex_byte}
use gef_extras.Common.Strings.{split, join, strip, ljust}
use gef_extras.Assemble.Target.{
  Error, ks_error, bad_address, Target, Names, resolve, valid_arch_modes, Mode,
}

-- `__ks`: the architecture and mode that the assembler was made with.
pub record Assembler : Type 0 where
  pub arch : ℕ
  pub mode : ℕ

-- Keystone's two operations: `none` of `asm` is a `KsError`.
pub record Keystone : Type 0 where
  pub supports : ℕ → ℕ → Bool
  pub asm : Assembler → Chars → ℕ → Option (List ℕ × ℕ)

abbrev pub is_empty_text : Chars → Bool
is_empty_text [] = true
is_empty_text (c ∷ s) = false

abbrev is_empty_bytes : List ℕ → Bool
is_empty_bytes [] = true
is_empty_bytes (b ∷ bs) = false

-- `" ".join(instructions)`, split at ";", the empty parts dropped and the others stripped.
strip_all : List Chars → List Chars
strip_all [] = []
strip_all (part ∷ parts) = strip part ∷ strip_all parts

unfoldable pub instructions_of : List Chars → List Chars
unfolding strip_all
instructions_of words =
    strip_all (select (λ s. not (is_empty_text s)) (split b';' (join (codes " ") words)))

-- `"\\x" + "\\x".join(...)` over the digits of the bytes.
pub escape_bytes : List ℕ → Chars
escape_bytes [] = codes "\\x"
escape_bytes (b ∷ []) = codes "\\x" ++ hex_byte b
escape_bytes (b ∷ c ∷ bs) = codes "\\x" ++ (hex_byte b ++ escape_bytes (c ∷ bs))

abbrev shellcode_line : Chars → Chars
shellcode_line text = codes "sc+=\"" ++ (text ++ codes "\" ")

pub print_insn : Bool → List ℕ → Chars → Chars
unfolding escape_bytes
print_insn as_shellcode res insn =
    ljust 60 (if as_shellcode then shellcode_line (escape_bytes res) else escape_bytes res)
    ++ (codes " # " ++ insn)

-- What the loop over the instructions leaves: the assembler, the bytes unless an instruction was
-- invalid, and the printed lines. The source keeps the bytes only where they are to be written.
pub record Loop : Type 0 where
  pub cache : Option Assembler
  pub raw : Option (List ℕ)
  pub lines : List Chars

-- The arguments of the command.
pub record Args : Type 0 where
  pub list_archs : Bool
  pub instructions : List Chars
  pub names : Names
  pub overwrite_location : Chars
  pub as_shellcode : Bool

pub data Outcome : Type 0 where
  listed : List Chars → Outcome
  no_instruction : Outcome
  invalid : List Chars → Outcome
  assembled : List Chars → Outcome
  not_alive : List Chars → Outcome
  written : ℕ → List ℕ → List Chars → Outcome

-- The text for the endianness of a mode; with neither, the text of the mode before stays.
abbrev endianness_text : Mode → Chars → Chars
endianness_text m old =
    if m.little && m.big
    then codes "little, big"
    else if m.little
    then codes "little"
    else if m.big
    then codes "big"
    else old

list_modes : Chars → List Mode → List Chars
list_modes old [] = []
list_modes old (m ∷ ms) =
    (codes "  * " ++ (ljust 7 m.name ++ (codes " (" ++ (endianness_text m old ++ codes ")"))))
    ∷ list_modes (endianness_text m old) ms

-- `list_archs`
pub list_archs : List (Chars × List Mode) → List Chars
unfolding list_modes
list_archs [] = []
list_archs ((arch, modes) ∷ more) = (codes "- " ++ arch) ∷ (list_modes [] modes ++ list_archs more)

module _ (ks : Keystone) where
  -- The `if not __ks` of `ks_assemble`.
  pub get_assembler : Option Assembler → ℕ → ℕ → Result Error Assembler
  get_assembler (some assembler) arch mode = ok assembler
  get_assembler none arch mode =
      if ks.supports arch mode then ok (record { arch = arch; mode = mode }) else err ks_error

  abbrev pub encoding : Option (List ℕ × ℕ) → Option (List ℕ)
  encoding none = none
  encoding (some (enc, cnt)) = if cnt == 0 || is_empty_bytes enc then none else some enc

  -- The cached assembler behind the call, and the bytes.
  unfoldable pub ks_assemble :
      Option Assembler → Chars → ℕ → ℕ → ℕ → Result Error (Assembler × Option (List ℕ))
  unfolding get_assembler
  ks_assemble cache code arch mode address = get_assembler cache arch mode >>= λ assembler.
      ok (assembler, encoding (ks.asm assembler code address))

  unfoldable pub assemble_all :
      Bool → ℕ → ℕ → List Chars → Option Assembler → List ℕ → List Chars → Result Error Loop
  unfolding ks_assemble print_insn
  assemble_all as_shellcode arch mode [] cache raw lines =
      ok (record { cache = cache; raw = some raw; lines = lines })
  assemble_all as_shellcode arch mode (insn ∷ insns) cache raw lines =
      ks_assemble cache insn arch mode 0x4000 >>= λ r. elim r.1 [
        | none ↦ ok (record { cache = some r.0; raw = none; lines = lines })
        | some res ↦
            assemble_all as_shellcode arch mode insns (some r.0) (raw ++ res)
              (lines ++ print_insn as_shellcode res insn ∷ [])
      ]

  -- Behind the loop: `alive` holds the names of the debuggee's target, and `parse_address` is gef's.
  pub finish : Args → Bool → (Chars → Option ℕ) → Loop → Result Error Outcome
  finish args alive parse_address loop = elim loop.raw [
    | none ↦ ok (invalid loop.lines)
    | some raw ↦
        if is_empty_text args.overwrite_location
        then ok (assembled loop.lines)
        else if not alive
        then ok (not_alive loop.lines)
        else elim (parse_address args.overwrite_location) [
          | none ↦ err bad_address
          | some address ↦ ok (written address raw loop.lines)
        ]
  ]

  abbrev pub is_alive : Option Names → Bool
  is_alive none = false
  is_alive (some names) = true

  -- From the target on.
  pub run :
      Args
      → Bool
      → (Chars → Option ℕ)
      → Option Assembler
      → Target
      → Option Assembler × Result Error Outcome
  unfolding assemble_all finish instructions_of
  run args alive parse_address cache target =
      elim (assemble_all args.as_shellcode target.arch (bit_or target.mode target.endian)
        (instructions_of args.instructions) cache [] []) [
          | err e ↦ (cache, err e)
          | ok loop ↦ (loop.cache, finish args alive parse_address loop)
        ]

  abbrev pub is_none : List Chars → Bool
  is_none [] = true
  is_none (w ∷ ws) = false

  -- `do_invoke`
  unfoldable pub do_invoke :
      (Chars → Option ℕ)
      → (Chars → Option ℕ)
      → Names
      → Option Names
      → Args
      → Option Assembler
      → Option Assembler × Result Error Outcome
  unfolding run list_archs
  do_invoke constant parse_address defaults alive args cache =
      if args.list_archs
      then (cache, ok (listed (list_archs valid_arch_modes)))
      else if is_none args.instructions
      then (cache, ok no_instruction)
      else elim (resolve constant defaults alive args.names) [
        | err e ↦ (cache, err e)
        | ok target ↦ run args (is_alive alive) parse_address cache target
      ]
