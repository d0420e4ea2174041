-- ===== src/V8/Command.antt =====
-- scripts/v8-dereference.py: V8DereferenceCommand.do_invoke and pprint_dereferenced.
pub mod Shown
use gef_extras.Common.{
  ℕ, zero, suc, ◌+◌, ◌-◌, ◌*◌, ◌^◌, Bool, true, false, ◌&&◌, ◌||◌, List, [], ◌∷◌, ◌++◌, Option,
  none, some, Chars, codes, Result, ok, err, ◌>>=◌, ltb, leb, ◌==◌, if◌then◌else◌, all_of,
  replicate, length, bit_and,
}
use gef_extras.Common.Strings.{join, ljust, read_int, read_hex}
use gef_extras.V8.{Error, index_error, value_error, Debuggee, format_0x}
use gef_extras.V8.Isolate.{Cache, or_raise}
use gef_extras.V8.Chain.{Message, dereference_from}

pub record Options : Type 0 where
  pub target : Chars
  pub nb : ℕ

abbrev pub is_digits : Chars → Bool
is_digits [] = false
is_digits (c ∷ s) = all_of (λ x. leb b'0' x && leb x b'9') (c ∷ s)

unfoldable pub parse_argument : Chars → Options → Result Error Options
parse_argument [] o = err index_error
parse_argument (c ∷ s) o =
    if is_digits (c ∷ s)
    then (do n ← or_raise value_error (read_int 10 (c ∷ s)); ok (record o { nb = n }))
    else if (c == b'l' || c == b'L') && is_digits s
    then (do n ← or_raise value_error (read_int 10 s); ok (record o { nb = n }))
    else ok (record o { target = c ∷ s })

-- The loop over the arguments; a later one wins.
unfoldable pub parse_arguments : List Chars → Options → Result Error Options
unfolding parse_argument
parse_arguments [] o = ok o
parse_arguments (arg ∷ argv) o = do o' ← parse_argument arg o; parse_arguments argv o'

abbrev pub defaults : Options
defaults = record { target = codes "$sp"; nb = 10 }

-- `range(start, start + count)`, and `range(start + count - 1, start - 1, -1)`.
unfoldable pub upward : ℕ → ℕ → List ℕ
upward start zero = []
upward start (suc count) = start ∷ upward (start + 1) count

unfoldable pub downward : ℕ → ℕ → List ℕ
downward start zero = []
downward start (suc count) = (start + count) ∷ downward start count

-- The numbers of the words to show: `repeat_count` counts how often gdb has repeated the command.
unfoldable pub indices : Bool → ℕ → ℕ → List ℕ
unfolding upward downward
indices grow_stack_down repeat_count nb =
    if grow_stack_down
    then downward (repeat_count * nb) (nb * (repeat_count + 1) - repeat_count * nb)
    else upward (repeat_count * nb) (nb * (repeat_count + 1) - repeat_count * nb)

-- Removes the tag of a tagged pointer.
unfoldable pub untag : ℕ → ℕ → ℕ
untag ptrsize addr = bit_and addr (2 ^ (8 * ptrsize) - 2)

-- What an invocation does: a message, the printed words with the exception that stopped them, or an
-- exception before any.
pub data Outcome : Type 0 where
  invalid unmapped : Outcome
  shown : List Chars → Option Error → Outcome
  raised : Error → Outcome

module _ (d : Debuggee) where
  -- One line: the base, the offset and the texts behind the first.
  row : Chars → ℕ → List Chars → Chars
  unfolding format_0x
  row base offset texts =
      base
      ++ (d.vertical_line
          ++ (codes "+"
              ++ (format_0x 6 offset
                  ++ (codes ": "
                      ++ ljust (d.ptrsize * 2 + 2)
                          (join (b' ' ∷ (d.right_arrow ++ codes " ")) texts)))))

  abbrev names_at : ℕ → List (Chars × ℕ) → List Chars
  names_at address [] = []
  names_at address ((name, value) ∷ registers) =
      let rest = names_at address registers in if address == value then name ∷ rest else rest

  hints : ℕ → Chars
  hints address = elim (names_at address d.registers) [
    | [] ↦ []
    | name ∷ names ↦ 9 ∷ (d.left_arrow ++ join (codes ", ") (name ∷ names))
  ]

  -- The head of a list and what stands behind it, and the base that the head is read back to.
  abbrev uncons : List Chars → Result Error (Chars × List Chars)
  uncons [] = err index_error
  uncons (text ∷ texts) = do
    value ← or_raise value_error (read_hex text)
    ok (d.format_address value, texts)

  -- An empty second list counts as missing.
  pub print_message : ℕ → ℕ → Message → Result Error Chars
  unfolding row hints
  print_message address offset (texts, some (second ∷ behind)) = do
    (base, rest) ← uncons texts
    ok (row base offset rest ++ (10 ∷ row (replicate (length base) b' ') (offset + 4) behind))
  print_message address offset (texts, some []) = do
    (base, rest) ← uncons texts
    ok (row base offset rest ++ hints address)
  print_message address offset (texts, none) = do
    (base, rest) ← uncons texts
    ok (row base offset rest ++ hints address)

  -- `pprint_dereferenced`
  pub pprint_dereferenced : Cache → ℕ → ℕ → Cache × Result Error Chars
  unfolding print_message dereference_from
  pprint_dereferenced cache addr off =
      let offset = off * d.ptrsize in
      let current_address = d.align_address (addr + offset) in
      let (kept, message) = dereference_from d cache current_address in
      (kept, message >>= print_message current_address offset)

  -- The loop over the words: what was printed when it ended, and the exception that ended it.
  pub show_words : Cache → ℕ → List ℕ → Cache × List Chars × Option Error
  unfolding pprint_dereferenced
  show_words cache start [] = (cache, [], none)
  show_words cache start (i ∷ is) =
      let (kept, line) = pprint_dereferenced cache start i in
      elim line [
        | err e ↦ (kept, [], some e)
        | ok text ↦
            (let (last, printed, failed) = show_words kept start is in
              (last, text ∷ printed, failed))
      ]

  -- The command in a live debuggee.
  pub do_invoke : ℕ → Cache → List Chars → Cache × Outcome
  unfolding show_words indices parse_arguments untag
  do_invoke repeat_count cache argv = elim (parse_arguments argv defaults) [
    | err e ↦ (cache, raised e)
    | ok o ↦ elim (d.parse_and_eval o.target) [
      | none ↦ (cache, invalid)
      | some value ↦
          let addr = untag d.ptrsize value in
          if d.is_mapped addr
          then (let (kept, printed, failed) =
                show_words cache (d.align_address addr)
                  (indices d.grow_stack_down repeat_count o.nb) in
              (kept, shown printed failed))
          else (cache, unmapped)
    ]
  ]
