-- ===== src/PeekPointers.antt =====
-- scripts/peekpointers.py: the command `peek-pointers`. What gdb and gef know of the debuggee is a
-- parameter. The loop runs on fuel, and `Scanned` has how much is enough.
pub mod Scanned
mod Tests
use gef_extras.Common.{
  ℕ, zero, suc, ◌+◌, ◌%◌, Bool, true, false, not, ◌&&◌, ◌||◌, List, [], ◌∷◌, ◌++◌, select, Option,
  none, some, Chars, codes, Result, ok, err, ltb, leb, ◌==◌, if◌then◌else◌,
}
use gef_extras.Common.Strings.{
  chars_eq, chars_mem, contains, to_lower, starts_with, strip, read_hex,
}

pub data Error : Type 0 where
  value_error memory_error : Error

pub record Section : Type 0 where
  pub path : Chars
  pub page_start : ℕ
  pub page_end : ℕ

-- `is_valid` is whether an address lies in a mapping, `permission` is the text for the one that it
-- lies in, and `is_known` whether gef's address for a value counts as true. `read_integer` is none
-- where gdb raises. `path_text` is `str` of a `pathlib.Path`.
pub record Debuggee : Type 0 where
  pub page_size : ℕ
  pub ptrsize : ℕ
  pub maps : List Section
  pub is_valid : ℕ → Bool
  pub is_known : ℕ → Bool
  pub permission : ℕ → Chars
  pub read_integer : ℕ → Option ℕ
  pub location : ℕ → Option (Chars × ℕ)
  pub path_text : Chars → Chars
  pub session_file : Chars

-- A line of the output, and the section that it is about.
pub record Found : Type 0 where
  pub address : ℕ
  pub value : ℕ
  pub symbol : Option (Chars × ℕ)
  pub name : Chars
  pub permission : Chars
  pub section : Section

pub data End : Type 0 where
  done out_of_fuel : End
  raised : Error → End

pub data Outcome : Type 0 where
  usage not_aligned : Outcome
  shown : List Found → End → Outcome

-- The sections that the second argument selects.
unfoldable pub sections_of : List Section → List Chars → List Section
sections_of vmmap [] = vmmap
sections_of vmmap (object_name ∷ _) =
    let section_name = to_lower object_name in
    if chars_eq section_name (codes "stack")
    then select (λ s. chars_eq s.path (codes "[stack]")) vmmap
    else if chars_eq section_name (codes "heap")
    then select (λ s. chars_eq s.path (codes "[heap]")) vmmap
    else if chars_eq section_name (codes "all")
    then vmmap
    else select (λ s. contains s.path section_name) vmmap

abbrev pub is_in : ℕ → Section → Bool
is_in v s = leb s.page_start v && ltb v s.page_end

-- The first section that a value lies in, and the other sections.
unfoldable pub find_section : ℕ → List Section → Option (Section × List Section)
find_section v [] = none
find_section v (s ∷ sections) =
    let later = find_section v sections in
    elim (is_in v s) [
      | true ↦ some (s, sections)
      | false ↦ elim later [ none ↦ none | some (found, others) ↦ some (found, s ∷ others) ]
    ]

module _ (d : Debuggee) where
  name_of : Chars → Chars
  name_of [] = d.session_file
  name_of (c ∷ name) = if c == b'/' then d.path_text (c ∷ name) else c ∷ name

  pub found_at : ℕ → ℕ → Section → Found
  unfolding name_of
  found_at address value section = record {
    address = address;
    value = value;
    symbol = d.location value;
    name = name_of section.path;
    permission = d.permission address;
    section = section;
  }

  -- The section for a value that is read, which has none if gef does not know the value.
  pub look : List Section → ℕ → Option (Section × List Section)
  look sections value = if d.is_known value then find_section value sections else none

  -- The `while` loop: the lines and how it ended.
  unfoldable pub scan : ℕ → Bool → List Section → ℕ → List Found × End
  unfolding found_at look
  scan zero unique sections address = ([], if d.is_valid address then out_of_fuel else done)
  scan (suc fuel) unique sections address = elim (d.is_valid address) [
    | false ↦ ([], done)
    | true ↦ elim (d.read_integer address) [
      | none ↦ ([], raised memory_error)
      | some value ↦ elim (look sections value) [
        | none ↦ scan fuel unique sections (address + d.ptrsize)
        | some (section, others) ↦
            (let (lines, end) =
                scan fuel unique (if unique then others else sections) (address + d.ptrsize) in
              (found_at address value section ∷ lines, end))
      ]
    ]
  ]

  -- `do_invoke`
  start_at : ℕ → ℕ → List Chars → List Chars → Outcome
  unfolding scan
  start_at fuel address argv names =
      if address % d.page_size == 0
      then (let (lines, end) =
            scan fuel (not (chars_mem (codes "all") argv)) (sections_of d.maps names) address in
          shown lines end)
      else not_aligned

  unfoldable pub do_invoke : ℕ → List Chars → Result Error Outcome
  unfolding start_at
  do_invoke fuel [] = ok usage
  do_invoke fuel (a ∷ b ∷ c ∷ e ∷ argv) = ok usage
  do_invoke fuel (starting_address ∷ names) = elim (read_hex (strip starting_address)) [
    | none ↦ err value_error
    | some address ↦ ok (start_at fuel address (starting_address ∷ names) names)
  ]
