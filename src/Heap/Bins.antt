-- ===== src/Heap/Bins.antt =====
-- scripts/visualize_heap.py: `collect_known_values`, which names the free chunks in the bins. A chunk is
-- given by the address of its data. The dictionary is a list with the newest entry in front.
use gef_extras.Common.{
  ℕ, zero, suc, ◌+◌, ◌-◌, ◌*◌, ◌/◌, ◌<◌, Bool, false, ◌&&◌, ◌||◌, List, [], ◌∷◌, ◌++◌, Option, none,
  some, Chars, codes, length, ltb, leb, ◌==◌, if◌then◌else◌, ◌≡◌, refl, arith, Bool-cases,
  Option-cases, inl, inr,
}
use gef_extras.Common.Hex.{format_d, format_x}

abbrev pub Known : Type 0
Known = List (ℕ × Chars)

-- What gef reads of the arena: the version of the library, the heads of the thread cache's bins and
-- of the fast bins, the two pointers of another bin, and the forward pointer of a chunk.
pub record Arena : Type 0 where
  pub ptrsize : ℕ
  pub version : ℕ × ℕ
  pub tcache_max_bins : ℕ
  pub tcachebin : ℕ → Option ℕ
  pub fastbin : ℕ → Option ℕ
  pub bin : ℕ → ℕ × ℕ
  pub get_fwd_ptr : ℕ → ℕ
  pub fwd : ℕ → ℕ

-- `nfastbins()`, as the number of rounds of a `range`.
abbrev nfastbins : ℕ → ℕ
nfastbins ptrsize = (if ptrsize == 8 then 80 * ptrsize / 4 / 16 else 80 * ptrsize / 4 / 8) - 3

-- Python's order on pairs.
abbrev at_least : ℕ × ℕ → ℕ × ℕ → Bool
at_least (a, b) (c, d) = ltb c a || (a == c && leb d b)

-- `"{name}[{i}/{j}]"`
abbrev bin_label : Chars → ℕ → ℕ → Chars
bin_label name i j = name ++ (b'[' ∷ (format_d i ++ (b'/' ∷ (format_d j ++ (b']' ∷ [])))))

infixl 5 ◌and_then◌
abbrev ◌and_then◌ : {A B : Type 0} → Option A → (A → Option B) → Option B
none and_then f = none
(some a) and_then f = f a

and_then-none :
    {A B : Type 0} (o : Option A) (f : A → Option B)
    → ((a : A) → f a ≡ none)
    → (o and_then f) ≡ none
and_then-none none f h = refl
and_then-none (some a) f h = h a

module _ (arena : Arena) where
  -- The loop along a list of chunks. A pointer leads to the chunk whose data are `offset` behind it.
  -- `none`: the fuel does not reach the end of the list.
  pub walk : ℕ → (ℕ → Chars) → ℕ → ℕ → Option ℕ → Known → Option Known
  walk zero label offset j chunk known = none
  walk (suc fuel) label offset j none known = some known
  walk (suc fuel) label offset j (some chunk) known =
      let found = (chunk, label j) ∷ known in
      let next = arena.get_fwd_ptr chunk in
      let rest = walk fuel label offset (j + 1) (some (next + offset)) found in
      if next == 0 then some found else rest

  -- `tcachebins[{i}/{j}] (size={sz:#x})`
  abbrev tcache_label : ℕ → ℕ → Chars
  tcache_label i j =
      bin_label (codes "tcachebins") i j
      ++ (codes " (size=0x" ++ (format_x ((i + 1) * 0x10 + 0x10) ++ codes ")"))

  -- A loop over bins that are numbered, `bins` of them from `i` on.
  pub walk_bins : ℕ → (ℕ → Option ℕ) → (ℕ → ℕ → Chars) → ℕ → ℕ → Known → Option Known
  unfolding walk
  walk_bins fuel head label zero i known = some known
  walk_bins fuel head label (suc bins) i known = elim (walk fuel (label i) 0 0 (head i) known) [
    | none ↦ none
    | some more ↦ walk_bins fuel head label bins (i + 1) more
  ]

  -- The loop `while True` over the other bins: `i` is never increased.
  pub other_bins : ℕ → Chars → ℕ → Known → Option Known
  unfolding walk
  other_bins zero name i known = none
  other_bins (suc fuel) name i known =
      let (fw, bk) = arena.bin i in
      let head = arena.fwd (bk + 2 * arena.ptrsize) in
      let again = other_bins fuel name i known in
      if fw == 0 && bk == 0
      then some known
      else if head == fw
      then again
      else elim (walk fuel (bin_label name i) (2 * arena.ptrsize) 0
          (some (head + 2 * arena.ptrsize)) known) [
            | none ↦ none
            | some more ↦ other_bins fuel name i more
          ]

  pub named_bins : ℕ → List Chars → Known → Option Known
  unfolding other_bins
  named_bins fuel [] known = some known
  named_bins fuel (name ∷ names) known = elim (other_bins fuel name 0 known) [
    | none ↦ none
    | some more ↦ named_bins fuel names more
  ]

  -- The three parts of `collect_known_values`.
  abbrev tcache_values : ℕ → Option Known
  tcache_values fuel =
      let bins = if at_least arena.version (2, 27) then arena.tcache_max_bins else 0 in
      walk_bins fuel arena.tcachebin tcache_label bins 0 []

  abbrev fastbin_values : ℕ → Known → Option Known
  fastbin_values fuel known =
      walk_bins fuel arena.fastbin (bin_label (codes "fastbins")) (nfastbins arena.ptrsize) 0 known

  abbrev other_names : List Chars
  other_names = codes "unorderedbins" ∷ codes "smallbins" ∷ codes "largebins" ∷ []

  -- `collect_known_values`
  pub collect_known_values : ℕ → Option Known
  unfolding walk_bins named_bins
  collect_known_values fuel =
      (tcache_values fuel and_then λ cached.
      (fastbin_values fuel cached and_then λ fast. named_bins fuel other_names fast))

  -- A list of chunks, by their data: each points to the next, whose data are `offset` behind where the
  -- pointer leads, and the last has a null pointer.
  pub data Chain (offset : ℕ) : ℕ → List ℕ → Type 0 where
    last : {chunk : ℕ} → arena.get_fwd_ptr chunk ≡ 0 → Chain offset chunk (chunk ∷ [])
    link :
        {chunk next : ℕ} {chunks : List ℕ}
        → arena.get_fwd_ptr chunk ≡ next
        → 0 < next
        → Chain offset (next + offset) chunks
        → Chain offset chunk (chunk ∷ chunks)

  -- The chunks of a list with their names, the last in front.
  abbrev pub named : (ℕ → Chars) → ℕ → List ℕ → Known → Known
  named label j [] known = known
  named label j (chunk ∷ chunks) known = named label (j + 1) chunks ((chunk, label j) ∷ known)

  -- Along a list of chunks that ends, with pointers to the data of the chunks or to their headers, as
  -- many rounds as it has chunks are enough, and every chunk gets the name of its place.
  pub walk_chain :
      (label : ℕ → Chars) (offset j : ℕ) (known : Known) {chunk : ℕ} {chunks : List ℕ}
      → Chain offset chunk chunks
      → walk (length chunks) label offset j (some chunk) known ≡ some (named label j chunks known)
  unfolding walk
  walk_chain label offset j known (last e) = rw e refl
  walk_chain label offset j known (link {chunk} {next} {chunks} e p c) =
      ground (arith, e, p, walk_chain label offset (j + 1) ((chunk, label j) ∷ known) c)

  -- The loop over the bins of a name takes the same bin again as long as it is not empty.
  other_bins_stuck :
      (fuel : ℕ) (name : Chars) (i : ℕ) (known : Known)
      → ((arena.bin i).0 == 0 && (arena.bin i).1 == 0) ≡ false
      → other_bins fuel name i known ≡ none
  unfolding other_bins
  other_bins_stuck zero name i known h = refl
  other_bins_stuck (suc fuel) name i known h =
      let head = arena.fwd ((arena.bin i).1 + 2 * arena.ptrsize) in
      let found =
        walk fuel (bin_label name i) (2 * arena.ptrsize) 0 (some (head + 2 * arena.ptrsize))
          known in
      elim (Bool-cases (head == (arena.bin i).0)) [
        | inl e ↦ rw (h, e, other_bins) (other_bins_stuck fuel name i known h)
        | inr e ↦ elim (Option-cases found) [
          | inl f ↦ rw (h, e, f, other_bins) refl
          | inr (more, f) ↦ rw (h, e, f, other_bins) (other_bins_stuck fuel name i more h)
        ]
      ]

  named_bins_stuck :
      (fuel : ℕ) (name : Chars) (names : List Chars) (known : Known)
      → ((arena.bin 0).0 == 0 && (arena.bin 0).1 == 0) ≡ false
      → named_bins fuel (name ∷ names) known ≡ none
  unfolding named_bins
  named_bins_stuck fuel name names known h =
      rw (other_bins_stuck fuel name 0 known h, named_bins) refl

  -- With a first bin that is not empty the collection never comes to an end: no fuel is enough.
  pub collect_known_values_endless :
      (fuel : ℕ)
      → ((arena.bin 0).0 == 0 && (arena.bin 0).1 == 0) ≡ false
      → collect_known_values fuel ≡ none
  unfolding collect_known_values
  collect_known_values_endless fuel h =
      and_then-none (tcache_values fuel)
        (λ cached. fastbin_values fuel cached and_then λ fast. named_bins fuel other_names fast)
        (λ cached.
          and_then-none (fastbin_values fuel cached) (λ fast. named_bins fuel other_names fast)
            (λ fast.
              named_bins_stuck fuel (codes "unorderedbins")
                (codes "smallbins" ∷ codes "largebins" ∷ []) fast h))
