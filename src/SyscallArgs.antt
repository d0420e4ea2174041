-- ===== src/SyscallArgs.antt =====
-- scripts/syscall_args/__init__.py: the command `syscall-args`. The table of the architecture and what gef
-- knows of the debuggee are arguments.
pub mod Shown
pub mod Tables
mod Tests
use gef_extras.Common.{
  ℕ, zero, suc, ◌+◌, Bool, true, false, not, ◌||◌, List, [], ◌∷◌, ◌++◌, map, Option, none, some,
  Chars, codes, Result, ok, err, ◌==◌, if◌then◌else◌,
}
use gef_extras.Common.Strings.{join, ljust}
use gef_extras.Common.Hex.{format_x}

pub data Error : Type 0 where
  file_not_found : Error

-- A parameter of a system call with its register, and an entry of a table.
pub record Param : Type 0 where
  pub reg : Chars
  pub param : Chars

pub record Entry : Type 0 where
  pub name : Chars
  pub params : List Param

abbrev pub Table : Type 0
Table = List (ℕ × Entry)

unfoldable pub entry_of : ℕ → Table → Option Entry
entry_of n [] = none
entry_of n ((k, entry) ∷ table) = let rest = entry_of n table in if k == n then some entry else rest

pub record Debuggee : Type 0 where
  pub syscall_register : Chars
  pub pc : ℕ
  pub is_syscall : ℕ → Bool
  pub previous : Option ℕ
  pub register : Chars → ℕ
  pub dereference_from : ℕ → List Chars
  pub arrow : Chars

-- What an invocation shows: nothing, a message, or the call, its parameters and a line for each.
pub data Outcome : Type 0 where
  no_register nothing : Outcome
  unknown : ℕ → Outcome
  shown : Chars → List Chars → List Chars → Outcome

-- `s.lstrip("$")`
unfoldable pub strip_dollars : Chars → Chars
strip_dollars [] = []
strip_dollars (c ∷ s) = let rest = strip_dollars s in if c == b'$' then rest else c ∷ s

-- `re.split(r" |\*", p)[-1]`: what stands behind the last blank or star.
unfoldable pub last_from : Chars → Chars → Chars
last_from word [] = word
last_from word (c ∷ s) = last_from (if c == b' ' || c == b'*' then [] else word ++ c ∷ []) s

abbrev pub param_name : Chars → Chars
param_name p = last_from [] p

module _ (d : Debuggee) where
  -- The number of the call: from the register before the instruction, and from the saved register
  -- behind it. An address of zero counts as none.
  pub call_number : Option ℕ
  unfolding strip_dollars
  call_number =
      if d.is_syscall d.pc then some (d.register d.syscall_register) else elim d.previous [
        | none ↦ none
        | some zero ↦ none
        | some (suc p) ↦
            if d.is_syscall (suc p)
            then some (d.register (codes "$orig_" ++ strip_dollars d.syscall_register))
            else none
      ]

  abbrev deref_text : List Chars → Chars
  deref_text [] = []
  deref_text (a ∷ []) = []
  deref_text (a ∷ b ∷ more) = d.arrow ++ join d.arrow (b ∷ more)

  pub line : Chars → Chars → ℕ → Chars
  line name register value =
      codes "    "
      ++ (ljust 20 name
          ++ (b' '
              ∷ (ljust 20 register
                  ++ (codes " 0x" ++ (format_x value ++ deref_text (d.dereference_from value))))))

  -- The loop over `zip(param_names, registers, values)`.
  pub zip_lines : List Chars → List Chars → List ℕ → List Chars
  unfolding line
  zip_lines (name ∷ names) (register ∷ registers) (value ∷ values) =
      line name register value ∷ zip_lines names registers values
  zip_lines _ _ _ = []

  pub show_entry : Entry → Outcome
  unfolding zip_lines last_from
  show_entry entry =
      let parameters = map (λ (p : Param). p.param) entry.params in
      let registers = map (λ (p : Param). p.reg) entry.params in
      let values = map (λ (p : Param). d.register p.reg) entry.params in
      shown entry.name parameters (zip_lines (map param_name parameters) registers values)

  -- `do_invoke`; `table` is none where the file of the architecture is missing.
  unfoldable pub do_invoke : Option Table → Result Error Outcome
  unfolding call_number show_entry entry_of
  do_invoke table = elim d.syscall_register [
    | [] ↦ ok no_register
    | c ∷ s ↦ elim table [
      | none ↦ err file_not_found
      | some entries ↦ elim call_number [
        | none ↦ ok nothing
        | some n ↦ elim (entry_of n entries) [
          | none ↦ ok (unknown n)
          | some entry ↦ ok (show_entry entry)
        ]
      ]
    ]
  ]
