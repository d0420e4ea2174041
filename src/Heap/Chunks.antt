-- ===== src/Heap/Chunks.antt =====
-- scripts/visualize_heap.py: which chunks are shown, and their numbers and colours.
use gef_extras.Common.{
  ℕ, zero, suc, ◌+◌, ◌-◌, ◌/◌, ◌%◌, ◌≤◌, ◌<◌, true, false, List, [], ◌∷◌, ◌++◌, append_assoc, All,
  ◌==◌, ◌≡◌, refl, ap, sym, ◌∙◌, arith, Bool-cases, inl, inr,
}
use gef_extras.Common.Ranges.{rounds_pos}
use gef_extras.Heap.{
  Chunk, Debuggee, Row, Counters, word, words, chunk_words, is_corrupted, Ending, corrupted,
  top_reached, exhausted, top_row, next_color, show_chunks, at_start, colors, do_invoke,
}

-- The data of a chunk lie behind its header.
abbrev pub IsAhead : Chunk → Type 0
IsAhead chunk = chunk.base_address ≤ chunk.data_address

module _ (d : Debuggee) (chunk : Chunk) where
  color_idx-word : (current : ℕ) (c : Counters) → (word d chunk current c).1.color_idx ≡ c.color_idx
  unfolding word
  color_idx-word current c = ground arith

  color_idx-words :
      (n current : ℕ) (c : Counters) → (words d chunk n current c).1.color_idx ≡ c.color_idx
  unfolding words
  color_idx-words zero current c = refl
  color_idx-words (suc n) current c =
      color_idx-words n (current + d.ptrsize) (word d chunk current c).1 ∙ color_idx-word current c

  chunk_idx-word :
      (current : ℕ) (c : Counters)
      → chunk.base_address < current
      → (word d chunk current c).1.chunk_idx ≡ c.chunk_idx
  unfolding word
  chunk_idx-word current c h = ground arith

  chunk_idx-words :
      (n current : ℕ) (c : Counters)
      → chunk.base_address < current
      → (words d chunk n current c).1.chunk_idx ≡ c.chunk_idx
  unfolding words
  chunk_idx-words zero current c h = refl
  chunk_idx-words (suc n) current c h =
      chunk_idx-words n (current + d.ptrsize) (word d chunk current c).1 (omega (arith, h))
      ∙ chunk_idx-word current c h

  chunk_idx-first :
      (c : Counters)
      → c.aggregate_nuls ≡ 0
      → (word d chunk chunk.base_address c).1.chunk_idx ≡ c.chunk_idx + 1
  unfolding word
  chunk_idx-first c z = ground arith

  chunk_idx-all_words :
      (n : ℕ) (c : Counters)
      → 0 < n
      → 0 < d.ptrsize
      → c.aggregate_nuls ≡ 0
      → (words d chunk n chunk.base_address c).1.chunk_idx ≡ c.chunk_idx + 1
  unfolding words
  chunk_idx-all_words zero c h p z = absurd (omega arith)
  chunk_idx-all_words (suc n) c h p z =
      chunk_idx-words n (chunk.base_address + d.ptrsize) (word d chunk chunk.base_address c).1
        (omega (arith, p))
      ∙ chunk_idx-first c z

  -- A chunk that is shown takes one number, and keeps the colour.
  counters-chunk_words :
      (c : Counters)
      → 0 < d.ptrsize
      → 0 < chunk.size
      → ((chunk_words d chunk c).1.chunk_idx ≡ c.chunk_idx + 1)
        × ((chunk_words d chunk c).1.color_idx ≡ c.color_idx)
  unfolding chunk_words
  counters-chunk_words c p s = (
    chunk_idx-all_words _ _ (rounds_pos d.ptrsize chunk.size p s) p refl,
    color_idx-words ((chunk.size + (d.ptrsize - 1)) / d.ptrsize) chunk.base_address
        (record c { aggregate_nuls = 0 }),
  )

size_pos :
    (top : ℕ) (chunk : Chunk) → IsAhead chunk → is_corrupted top chunk ≡ false → 0 < chunk.size
unfolding is_corrupted
size_pos top chunk a h = ground arith

module _ (d : Debuggee) where
  -- The counters in front of chunk number `i`.
  abbrev pub numbered : ℕ → Counters
  numbered i = record { color_idx = i % colors; chunk_idx = i; aggregate_nuls = 0 }

  -- The rows of chunks from number `i` on.
  abbrev pub rows_of : ℕ → List Chunk → List Row
  rows_of i [] = []
  rows_of i (chunk ∷ chunks) = (chunk_words d chunk (numbered i)).0 ++ rows_of (i + 1) chunks

  abbrev pub IsShown : Chunk → Type 0
  IsShown chunk = (is_corrupted d.top chunk ≡ false) × ((chunk.base_address == d.top) ≡ false)

  -- What stops the listing: the end of the heap, a corrupted chunk, or the top chunk.
  pub data Stops : List Chunk → List Row → Ending d → Type 0 where
    at_end : Stops [] [] exhausted
    at_corrupted :
        {chunk : Chunk} {chunks : List Chunk}
        → is_corrupted d.top chunk ≡ true
        → Stops (chunk ∷ chunks) [] corrupted
    at_top :
        {chunk : Chunk} {chunks : List Chunk}
        → is_corrupted d.top chunk ≡ false
        → chunk.base_address ≡ d.top
        → Stops (chunk ∷ chunks) (top_row d ∷ []) top_reached

  -- The rows and the ending of a listing of the chunks from number `i` on.
  abbrev pub Listing : ℕ → List Chunk → List Row × Ending d → Type 0
  Listing i chunks out =
      (shown rest : List Chunk) × (tail : List Row) × (chunks ≡ shown ++ rest)
      × All IsShown shown
      × Stops rest tail out.1
      × (out.0 ≡ rows_of i shown ++ tail)

  same_words :
      (i : ℕ) (chunk : Chunk) (c : Counters)
      → c.color_idx ≡ i % colors
      → c.chunk_idx ≡ i
      → chunk_words d chunk c ≡ chunk_words d chunk (numbered i)
  unfolding chunk_words
  same_words i chunk c hc hi = rw (hc, hi) refl

  -- A chunk that is shown goes in front of a listing.
  one_more :
      (i : ℕ) (chunk : Chunk) (chunks : List Chunk) (rows : List Row) (out : List Row × Ending d)
      → IsShown chunk
      → rows ≡ (chunk_words d chunk (numbered i)).0
      → Listing (i + 1) chunks out
      → Listing i (chunk ∷ chunks) (rows ++ out.0, out.1)
  one_more i chunk chunks rows out s e (shown, rest, tail, parts, all, stops, r) = (
    chunk ∷ shown,
    rest,
    tail,
    ap (λ t. chunk ∷ t) parts,
    (s, all),
    stops,
    rw (e, r)
        (sym (append_assoc (chunk_words d chunk (numbered i)).0 (rows_of (i + 1) shown) tail)),
  )

  show_chunks-Listing :
      (i : ℕ) (chunks : List Chunk) (c : Counters)
      → 0 < d.ptrsize
      → All IsAhead chunks
      → c.color_idx ≡ i % colors
      → c.chunk_idx ≡ i
      → Listing i chunks (show_chunks d chunks c)
  unfolding show_chunks
  show_chunks-Listing i [] c p a hc hi = ([], [], [], refl, tt, at_end, refl)
  show_chunks-Listing i (chunk ∷ chunks) c p (h, a) hc hi =
      elim (Bool-cases (is_corrupted d.top chunk)) [
        | inl e ↦ rw (e, show_chunks) ([], chunk ∷ chunks, [], refl, tt, at_corrupted e, refl)
        | inr e ↦ elim (Bool-cases (chunk.base_address == d.top)) [
          | inl f ↦
              rw (e, f, show_chunks)
                ([], chunk ∷ chunks, top_row d ∷ [], refl, tt, at_top e (ground arith), refl)
          | inr f ↦
              let (idx, color) = counters-chunk_words d chunk c p (size_pos d.top chunk h e) in
              rw (e, f, show_chunks)
                (one_more i chunk chunks _ _ (e, f) (ap (λ r. r.0) (same_words i chunk c hc hi))
                  (show_chunks-Listing (i + 1) chunks (next_color d (chunk_words d chunk c).1) p a
                    (omega (arith, color, hc)) (omega (arith, idx, hi))))
        ]
      ]

  do_invoke_starts :
      (chunks : List Chunk)
      → d.has_arena ≡ true
      → (d.heap_base == 0) ≡ false
      → do_invoke d chunks ≡ show_chunks d chunks (at_start d)
  unfolding do_invoke
  do_invoke_starts chunks h b = ground arith

  -- The command on an initialized heap whose chunks have their data behind their headers: the chunks
  -- before the first that is corrupted or the top chunk are shown in their order, chunk number `i`
  -- with the number `i` and the colour `i` modulo the number of colours, and there the listing
  -- stops, with the rows of the top chunk if that was reached.
  pub do_invoke-Listing :
      (chunks : List Chunk)
      → d.has_arena ≡ true
      → (d.heap_base == 0) ≡ false
      → 0 < d.ptrsize
      → All IsAhead chunks
      → Listing 0 chunks (do_invoke d chunks)
  do_invoke-Listing chunks h b p a =
      rw (do_invoke_starts chunks h b) (show_chunks-Listing 0 chunks (at_start d) p a refl refl)
