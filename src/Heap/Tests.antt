-- ===== src/Heap/Tests.antt =====
-- Tests of scripts/visualize_heap.py and instances of the theorems.
use gef_extras.Common.{ℕ, true, [], ◌∷◌, none, some, codes, ◌==◌, if◌then◌else◌, ◌≡◌, refl, arith}
use gef_extras.Common.Strings.{split}
use gef_extras.Common.Hex.{format_d}
use gef_extras.Heap.{
  Chunk, Debuggee, Counters, chunk_words, do_invoke, basename, collect_known_ranges, later,
}
use gef_extras.Heap.Words.{Covers, chunk_words-Covers}
use gef_extras.Heap.Chunks.{Listing, do_invoke-Listing}
use gef_extras.Heap.Bins.{Arena, Chain, last, link, named, walk, walk_chain}

-- A chunk of six words at 16, whose second, third and fifth words are null.
abbrev chunk : Chunk
chunk = record { base_address = 16; data_address = 32; size = 48; flags = [] }

abbrev at_top_chunk : Chunk
at_top_chunk = record { base_address = 64; data_address = 80; size = 100; flags = [] }

abbrev memory : ℕ → ℕ
memory address =
    if address == 24 then 0 else if address == 32 then 0 else if address == 48 then 0 else 7

abbrev debuggee : Debuggee
debuggee = record {
  known_ranges = none;
  ptrsize = 8;
  little_endian = true;
  has_arena = true;
  heap_base = 16;
  top = 64;
  maps = record { page_start = 0; page_end = 10; path = codes "/lib/libc.so" } ∷ [];
  read_integer = memory;
  read = λ address n. b'a' ∷ 0 ∷ [];
  dereference_from = λ address. [];
}

abbrev counters : Counters
counters = record { color_idx = 0; chunk_idx = 0; aggregate_nuls = 0 }

-- Of a library that was loaded after the first invocation, the ranges are not known.
stale_ranges :
    collect_known_ranges
      (later (record { page_start = 10; page_end = 20; path = codes "/lib/b.so" } ∷ []) debuggee)
    ≡ (0, 10, codes "libc.so") ∷ []
unfolding collect_known_ranges split
stale_ranges = refl

named_libc : basename (codes "/lib/libc.so") ≡ codes "libc.so"
unfolding basename split
named_libc = refl

chunk_words-Covers_example : Covers debuggee chunk 16 (chunk_words debuggee chunk counters).0
chunk_words-Covers_example = chunk_words-Covers debuggee chunk counters (omega arith)

do_invoke-Listing_example :
    Listing debuggee 0 (chunk ∷ at_top_chunk ∷ []) (do_invoke debuggee (chunk ∷ at_top_chunk ∷ []))
do_invoke-Listing_example =
    do_invoke-Listing debuggee (chunk ∷ at_top_chunk ∷ []) refl refl (omega arith)
      (omega arith, (omega arith, tt))

-- Two free chunks, and an arena whose first bin is not empty.
abbrev arena : Arena
arena = record {
  ptrsize = 8;
  version = (2, 31);
  tcache_max_bins = 64;
  tcachebin = λ i. none;
  fastbin = λ i. none;
  bin = λ i. (40, 40);
  get_fwd_ptr = λ chunk. if chunk == 16 then 32 else 0;
  fwd = λ chunk. 40;
}

abbrev two_chunks : Chain arena 16 16 (16 ∷ 48 ∷ [])
two_chunks = link refl (omega arith) (last refl)

walk_chain_example :
    walk arena 2 format_d 16 0 (some 16) [] ≡ some (named arena format_d 0 (16 ∷ 48 ∷ []) [])
walk_chain_example = walk_chain arena format_d 16 0 [] two_chunks
