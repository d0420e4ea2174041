-- ===== src/Heap/Words.antt =====
-- scripts/visualize_heap.py: which words of a chunk have a line.
use gef_extras.Common.{
  ℕ, zero, suc, ◌+◌, ◌*◌, ◌≤◌, ◌<◌, true, false, List, [], ◌∷◌, ◌++◌, ltb, ◌≡◌, refl, arith,
  Bool-cases, inl, inr,
}
use gef_extras.Heap.{
  Chunk, Debuggee, Line, Row, aggregated, word_line, Counters, line_at, is_inner_null, behind, word,
  words, chunk_words,
}
use gef_extras.Common.Ranges.{rounds_bounds}

module _ (d : Debuggee) (chunk : Chunk) where
  -- Rows that go through the words of the chunk from an address on, up to the chunk's end: each word
  -- has a line with its value, in front of which an aggregation may be mentioned, or it is a null
  -- word inside the chunk.
  pub data Covers : ℕ → List Row → Type 0 where
    done : {current : ℕ} → chunk.base_address + chunk.size ≤ current → Covers current []
    printed :
        {current : ℕ} {rows : List Row} {line : Line}
        → current < chunk.base_address + chunk.size
        → line.address ≡ current
        → line.value ≡ d.read_integer current
        → Covers (current + d.ptrsize) rows
        → Covers current (word_line line ∷ rows)
    marked :
        {current : ℕ} {rows : List Row} {line : Line}
        → current < chunk.base_address + chunk.size
        → line.address ≡ current
        → line.value ≡ d.read_integer current
        → Covers (current + d.ptrsize) rows
        → Covers current (aggregated ∷ word_line line ∷ rows)
    dropped :
        {current : ℕ} {rows : List Row}
        → current < chunk.base_address + chunk.size
        → is_inner_null d chunk current ≡ true
        → Covers (current + d.ptrsize) rows
        → Covers current rows

  -- What a round shows, before what the later ones show.
  word-Covers :
      (current : ℕ) (c : Counters) (rows : List Row)
      → current < chunk.base_address + chunk.size
      → Covers (current + d.ptrsize) rows
      → Covers current ((word d chunk current c).0 ++ rows)
  unfolding word line_at
  word-Covers current c rows lt rest = elim (Bool-cases (is_inner_null d chunk current)) [
    | inl e ↦ elim (Bool-cases (ltb 1 (c.aggregate_nuls + 1))) [
      | inl f ↦ rw (e, f, word) (dropped lt e rest)
      | inr f ↦ elim (Bool-cases (ltb 2 (c.aggregate_nuls + 1))) [
        | inl g ↦ rw (e, f, g, word) (marked lt refl refl rest)
        | inr g ↦ rw (e, f, g, word) (printed lt refl refl rest)
      ]
    ]
    | inr e ↦ elim (Bool-cases (ltb 2 c.aggregate_nuls)) [
      | inl g ↦ rw (e, g, word) (marked lt refl refl rest)
      | inr g ↦ rw (e, g, word) (printed lt refl refl rest)
    ]
  ]

  words-Covers :
      (n current : ℕ) (c : Counters)
      → chunk.base_address + chunk.size ≤ current + n * d.ptrsize
      → current + n * d.ptrsize < chunk.base_address + chunk.size + d.ptrsize
      → Covers current (words d chunk n current c).0
  unfolding words
  words-Covers zero current c enough tight = done (omega arith)
  words-Covers (suc n) current c enough tight =
      word-Covers current c _ (omega arith) (
        words-Covers n (current + d.ptrsize) (word d chunk current c).1 (omega arith) (omega arith))

  -- The rows of a chunk go through all its words in their order, from its base up to its size behind
  -- it: every word has a line that shows its value at its address, except null words that are neither
  -- the first nor the last of the chunk, which may be left out.
  pub chunk_words-Covers :
      (c : Counters) → 0 < d.ptrsize → Covers chunk.base_address (chunk_words d chunk c).0
  unfolding chunk_words
  chunk_words-Covers c p =
      let (enough, tight) = rounds_bounds d.ptrsize chunk.size p in
      words-Covers _ chunk.base_address _ (omega arith) (omega arith)

  -- The rounds, by the count of null words before them.
  first_null :
      (current : ℕ) (c : Counters)
      → c.aggregate_nuls ≡ 0
      → is_inner_null d chunk current ≡ true
      → word d chunk current c
        ≡ (word_line (line_at d chunk current c) ∷ [], behind d chunk current 1 c)
  unfolding word
  first_null current c z e = rw (e, word) (rw z refl)

  later_null :
      (current k : ℕ) (c : Counters)
      → c.aggregate_nuls ≡ suc k
      → is_inner_null d chunk current ≡ true
      → word d chunk current c ≡ ([], record c { aggregate_nuls = suc (suc k) })
  unfolding word
  later_null current k c z e = rw (e, word) (rw z (ground arith))

  few_nulls :
      (current k : ℕ) (c : Counters)
      → c.aggregate_nuls ≡ k
      → ltb 2 k ≡ false
      → is_inner_null d chunk current ≡ false
      → word d chunk current c
        ≡ (word_line (line_at d chunk current c) ∷ [], behind d chunk current k c)
  unfolding word
  few_nulls current k c z f e = rw (e, word) (rw z (rw (f, word) refl))

  many_nulls :
      (current k : ℕ) (c : Counters)
      → c.aggregate_nuls ≡ k
      → ltb 2 k ≡ true
      → is_inner_null d chunk current ≡ false
      → word d chunk current c
        ≡ (aggregated ∷ word_line (line_at d chunk current c) ∷ [], behind d chunk current 0 c)
  unfolding word
  many_nulls current k c z f e = rw (e, word) (rw z (rw (f, word) refl))

  -- Five words in a row where the first, second and fourth are null words inside the chunk and the
  -- others are not, from a count of zero: the second word is left out with nothing to mention it,
  -- and the count goes on behind the third, so that the fourth is left out as an aggregation.
  pub words_two_nulls :
      (n current : ℕ) (c : Counters)
      → c.aggregate_nuls ≡ 0
      → is_inner_null d chunk current ≡ true
      → is_inner_null d chunk (current + d.ptrsize) ≡ true
      → is_inner_null d chunk (current + d.ptrsize + d.ptrsize) ≡ false
      → is_inner_null d chunk (current + d.ptrsize + d.ptrsize + d.ptrsize) ≡ true
      → is_inner_null d chunk (current + d.ptrsize + d.ptrsize + d.ptrsize + d.ptrsize) ≡ false
      → (first third fifth : Line) × (rest : List Row) × ((words d chunk
            (suc (suc (suc (suc (suc n)))))
            current
            c).0
          ≡ word_line first ∷ word_line third ∷ aggregated ∷ word_line fifth ∷ rest)
        × (first.address ≡ current)
        × (third.address ≡ current + d.ptrsize + d.ptrsize)
        × (fifth.address ≡ current + d.ptrsize + d.ptrsize + d.ptrsize + d.ptrsize)
  unfolding words line_at
  words_two_nulls n current c z a b x y w =
      let p = d.ptrsize in
      let c1 = behind d chunk current 1 c in
      let c2 : Counters = record c1 { aggregate_nuls = 2 } in
      let c3 = behind d chunk (current + p + p) 2 c2 in
      let c4 : Counters = record c3 { aggregate_nuls = 3 } in
      rw
        (
          first_null current c z a,
          later_null (current + p) 0 c1 refl b,
          few_nulls (current + p + p) 2 c2 refl refl x,
          later_null (current + p + p + p) 1 c3 refl y,
          many_nulls (current + p + p + p + p) 3 c4 refl refl w,
        )
        (
          line_at d chunk current c,
          line_at d chunk (current + p + p) c2,
          line_at d chunk (current + p + p + p + p) c4,
          _,
          refl,
          refl,
          refl,
          refl,
        )
