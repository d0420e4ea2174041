-- ===== src/V8/Chain.antt =====
-- scripts/v8-dereference.py: V8DereferenceCommand.dereference_from.
pub mod Followed
use gef_extras.Common.{
  ℕ, zero, suc, ◌+◌, ◌*◌, ◌%◌, ◌/◌, ◌^◌, Bool, true, false, not, ◌&&◌, ◌||◌, List, [], ◌∷◌, ◌++◌,
  length, take, Option, none, some, Chars, codes, Result, ok, err, ltb, ◌==◌, if◌then◌else◌,
}
use gef_extras.Common.Strings.{join}
use gef_extras.V8.{
  Error, type_error, Section, Address, Instruction, Debuggee, format_0x, is_compressed, format_part,
  decompressed,
}
use gef_extras.V8.Isolate.{Cache, get_isolate_root}

abbrev pub loop_detected : Chars
loop_detected = codes "[loop detected]"

-- `addr.value in seen_addrs`
pub seen_before : ℕ → List ℕ → Bool
seen_before v [] = false
seen_before v (s ∷ seen) = v == s || seen_before v seen

-- The two lists of texts; the second is none where the debuggee is not alive.
abbrev pub Message : Type 0
Message = List Chars × Option (List Chars)

module _ (d : Debuggee) where
  open d use {lookup_address, dereference, format_address, is_ascii_string}

  instruction_text : Instruction → Chars
  instruction_text insn =
      insn.location ++ (b' ' ∷ (insn.mnemonic ++ (b' ' ∷ join (codes ", ") insn.operands)))

  string_text : ℕ → Chars → Chars
  string_text deref s =
      if ltb (length s) d.memory_alignment
      then format_address deref ++ (codes " (\"" ++ (s ++ codes "\"?)"))
      else if ltb 50 (length s)
      then codes "\"" ++ (take 50 s ++ codes "[...]\"")
      else codes "\"" ++ (s ++ codes "\"")

  number_text : ℕ → Chars
  number_text deref = format_0x (d.ptrsize * 2 + 2) (deref % 2 ^ 64)

  -- The end of a chain: `section` is that of `addr`, and `deref` the value there, no pointer.
  pub value_text : Section → Address → ℕ → Chars
  unfolding instruction_text string_text number_text
  value_text section addr deref =
      if section.is_executable && addr.is_in_text_segment && not (is_ascii_string addr.value)
      then instruction_text (d.instruction addr.value)
      else if section.is_readable && is_ascii_string addr.value
      then string_text deref (d.read_cstring addr.value)
      else number_text deref

  -- The `while` loop, with the rounds left of `max_recursion`: the texts that it appends.
  unfoldable pub follow : ℕ → List ℕ → Address → List Chars
  unfolding seen_before value_text
  follow zero seen addr = []
  follow (suc rounds) seen addr = elim addr.section [
    | none ↦ []
    | some section ↦ elim (seen_before addr.value seen) [
      | true ↦ loop_detected ∷ []
      | false ↦ elim (dereference addr.value) [
        | none ↦ addr.shown ∷ []
        | some deref ↦ elim (lookup_address deref).valid [
          | true ↦
              (lookup_address deref).shown
              ∷ follow rounds (addr.value ∷ seen) (lookup_address deref)
          | false ↦ value_text section addr deref ∷ []
        ]
      ]
    ]
  ]

  -- `gef.config["dereference.max_recursion"] or 10`
  abbrev pub rounds_of : ℕ
  rounds_of = if d.max_recursion == 0 then 10 else d.max_recursion

  abbrev pub chain : Address → Message
  chain addr = (format_address addr.value ∷ follow rounds_of [] addr, some [])

  -- Two halves of which at least one is a compressed pointer.
  abbrev pub halves : Address → ℕ → ℕ → Message
  halves addr isolate_root deref = (
    format_address addr.value ∷ format_part d isolate_root (deref % 2 ^ 32) ∷ [],
    some (format_address (addr.value + 4) ∷ format_part d isolate_root (deref / 2 ^ 32) ∷ []),
  )

  abbrev pub any_compressed : ℕ → ℕ → Bool
  any_compressed isolate_root deref =
      is_compressed d isolate_root (decompressed d isolate_root (deref % 2 ^ 32))
      || is_compressed d isolate_root (decompressed d isolate_root (deref / 2 ^ 32))

  -- With the root that get_isolate_root gave; adding to `None` raises.
  pub with_root : Address → ℕ → Result Error (Option ℕ) → Result Error Message
  unfolding follow is_compressed format_part
  with_root addr deref (err e) = err e
  with_root addr deref (ok none) = err type_error
  with_root addr deref (ok (some isolate_root)) =
      if any_compressed isolate_root deref
      then ok (halves addr isolate_root deref)
      else ok (chain addr)

  unfoldable pub dereference_from : Cache → ℕ → Cache × Result Error Message
  unfolding follow with_root get_isolate_root
  dereference_from cache address =
      if d.is_alive
      then (let addr = lookup_address (d.align_address address) in
          elim (dereference addr.value) [
            | none ↦ (cache, ok (chain addr))
            | some deref ↦
                if d.ptrsize == 8
                then (let (kept, found) = get_isolate_root d cache in
                    (kept, with_root addr deref found))
                else (cache, ok (chain addr))
          ])
      else (cache, ok (format_address address ∷ [], none))
