-- ===== src/Heap.antt =====
-- scripts/visualize_heap.py: the command `visualize-libc-heap-chunks`. What gef reads of the debuggee
-- is a record.
pub mod Words
pub mod Chunks
pub mod Bins
mod Tests
use gef_extras.Common.{
  ℕ, zero, suc, ◌+◌, ◌-◌, ◌*◌, ◌/◌, ◌%◌, Bool, true, false, not, ◌&&◌, ◌||◌, List, [], ◌∷◌, ◌++◌,
  Option, none, some, Chars, length, ltb, leb, ◌==◌, if◌then◌else◌,
}
use gef_extras.Common.Strings.{split}

pub record Chunk : Type 0 where
  pub base_address : ℕ
  pub data_address : ℕ
  pub size : ℕ
  pub flags : Chars

-- An entry of the memory map, `path` empty for anonymous memory.
pub record MapEntry : Type 0 where
  pub page_start : ℕ
  pub page_end : ℕ
  pub path : Chars

abbrev pub Ranges : Type 0
Ranges = List (ℕ × ℕ × Chars)

-- `known_ranges` is what the cache of `collect_known_ranges` holds from an earlier invocation, none
-- before the first and where gef has cleared it.
pub record Debuggee : Type 0 where
  pub known_ranges : Option Ranges
  pub ptrsize : ℕ
  pub little_endian : Bool
  pub has_arena : Bool
  pub heap_base : ℕ
  pub top : ℕ
  pub maps : List MapEntry
  pub read_integer : ℕ → ℕ
  pub read : ℕ → ℕ → List ℕ
  pub dereference_from : ℕ → List Chars

-- A line of a word: its value in the colour of its chunk, the bytes as characters, where a chain of
-- pointers ends, the number and flags of the chunk in front of its first word, and the mapped
-- files that the value points into.
pub record Line : Type 0 where
  pub address : ℕ
  pub value : ℕ
  pub color : ℕ
  pub hexdump : Chars
  pub deref : Option Chars
  pub header : Option (ℕ × Chars)
  pub ranges : List Chars

pub data Row : Type 0 where
  top_chunk : ℕ → ℕ → ℕ → Row
  aggregated : Row
  word_line : Line → Row

-- `os.path.basename`
abbrev last_part : List Chars → Chars
last_part [] = []
last_part (part ∷ []) = part
last_part (part ∷ p ∷ parts) = last_part (p ∷ parts)

pub basename : Chars → Chars
basename path = last_part (split b'/' path)

-- The body of `collect_known_ranges`.
pub ranges_in : List MapEntry → Ranges
unfolding basename
ranges_in [] = []
ranges_in (entry ∷ maps) =
    let rest = ranges_in maps in
    elim entry.path [
      | [] ↦ rest
      | c ∷ s ↦ (entry.page_start, entry.page_end, basename (c ∷ s)) ∷ rest
    ]

-- `collect_known_ranges` under its `lru_cache`: the map is read only where nothing is kept.
unfoldable pub collect_known_ranges : Debuggee → Ranges
unfolding ranges_in
collect_known_ranges d = elim d.known_ranges [ some known ↦ known | none ↦ ranges_in d.maps ]

-- The debuggee behind an invocation, with another map.
abbrev pub later : List MapEntry → Debuggee → Debuggee
later maps d = record d { maps = maps; known_ranges = some (collect_known_ranges d) }

-- The names of the ranges that a value is in.
pub ranges_of : ℕ → Ranges → List Chars
ranges_of value [] = []
ranges_of value ((first, end, name) ∷ known) =
    let rest = ranges_of value known in
    if leb first value && ltb value end then name ∷ rest else rest

-- `is_corrupted`
pub is_corrupted : ℕ → Chunk → Bool
is_corrupted top chunk =
    if ltb chunk.data_address chunk.base_address
    then false
    else if ltb top chunk.base_address
    then true
    else chunk.size == 0

-- The bytes of a word as characters, "." for those that are not printable.
pub printable : List ℕ → Chars
printable [] = []
printable (b ∷ bs) = (if leb 0x20 b && ltb b 0x7f then b else b'.') ∷ printable bs

abbrev reverse_onto : Chars → Chars → Chars
reverse_onto [] done = done
reverse_onto (c ∷ s) done = reverse_onto s (c ∷ done)

-- `derefs[-1]`, if there are more than two.
abbrev last_deref : List Chars → Option Chars
last_deref (a ∷ b ∷ c ∷ more) = some (last_part (c ∷ more))
last_deref _ = none

-- `colors` has five entries.
abbrev pub colors : ℕ
colors = 5

-- What the loops keep.
pub record Counters : Type 0 where
  pub color_idx : ℕ
  pub chunk_idx : ℕ
  pub aggregate_nuls : ℕ

module _ (d : Debuggee) where
  -- The part of the loop that prints a word.
  pub line_at : Chunk → ℕ → Counters → Line
  unfolding printable ranges_of collect_known_ranges
  line_at chunk current c =
      let value = d.read_integer current in
      let dump = printable (d.read current d.ptrsize) in
      record {
        address = current;
        value = value;
        color = c.color_idx;
        hexdump = if d.little_endian then reverse_onto dump [] else dump;
        deref = last_deref (d.dereference_from current);
        header = if current == chunk.base_address then some (c.chunk_idx, chunk.flags) else none;
        ranges = ranges_of value (collect_known_ranges d);
      }

  -- A null word that neither starts nor finishes the chunk.
  abbrev pub is_inner_null : Chunk → ℕ → Bool
  is_inner_null chunk current =
      d.read_integer current == 0
      && (not (current == chunk.base_address)
          && not (current + d.ptrsize == chunk.base_address + chunk.size))

  abbrev pub count_null : Chunk → ℕ → ℕ → ℕ
  count_null chunk current nuls = if is_inner_null chunk current then nuls + 1 else nuls

  -- The counters behind a line.
  abbrev pub behind : Chunk → ℕ → ℕ → Counters → Counters
  behind chunk current nuls c = record {
    color_idx = c.color_idx;
    chunk_idx = if current == chunk.base_address then c.chunk_idx + 1 else c.chunk_idx;
    aggregate_nuls = nuls;
  }

  -- One round of the loop over the words of a chunk.
  pub word : Chunk → ℕ → Counters → List Row × Counters
  unfolding line_at
  word chunk current c =
      let nuls = count_null chunk current c.aggregate_nuls in
      if is_inner_null chunk current && ltb 1 nuls
      then ([], record c { aggregate_nuls = nuls })
      else if ltb 2 nuls
      then (aggregated ∷ word_line (line_at chunk current c) ∷ [], behind chunk current 0 c)
      else (word_line (line_at chunk current c) ∷ [], behind chunk current nuls c)

  -- `for current in range(base, base + chunk.size, ptrsize)`
  pub words : Chunk → ℕ → ℕ → Counters → List Row × Counters
  unfolding word
  words chunk zero current c = ([], c)
  words chunk (suc n) current c =
      let r = word chunk current c in
      let rest = words chunk n (current + d.ptrsize) r.1 in (r.0 ++ rest.0, rest.1)

  pub chunk_words : Chunk → Counters → List Row × Counters
  unfolding words
  chunk_words chunk c =
      words chunk ((chunk.size + (d.ptrsize - 1)) / d.ptrsize) chunk.base_address
        (record c { aggregate_nuls = 0 })

  pub data Ending : Type 0 where
    not_initialized corrupted top_reached exhausted : Ending

  abbrev pub top_row : Row
  top_row = top_chunk d.top (d.read_integer d.top) (d.read_integer (d.top + d.ptrsize))

  abbrev pub next_color : Counters → Counters
  next_color c = record c { color_idx = (c.color_idx + 1) % colors }

  -- The loop over the chunks of the heap.
  pub show_chunks : List Chunk → Counters → List Row × Ending
  unfolding is_corrupted chunk_words
  show_chunks [] c = ([], exhausted)
  show_chunks (chunk ∷ chunks) c =
      let r = chunk_words chunk c in
      let rest = show_chunks chunks (next_color r.1) in
      if is_corrupted d.top chunk
      then ([], corrupted)
      else if chunk.base_address == d.top
      then (top_row ∷ [], top_reached)
      else (r.0 ++ rest.0, rest.1)

  abbrev pub at_start : Counters
  at_start = record { color_idx = 0; chunk_idx = 0; aggregate_nuls = 0 }

  -- `do_invoke`
  pub do_invoke : List Chunk → List Row × Ending
  unfolding show_chunks
  do_invoke chunks =
      if not d.has_arena || d.heap_base == 0
      then ([], not_initialized)
      else show_chunks chunks at_start
