-- ===== src/Bincompare/Print.antt =====
-- scripts/bincompare.py: the printed table holds every entry of the result table, in rows of
-- sixteen.
use gef_extras.Common.{
  ℕ, zero, suc, ◌+◌, ◌-◌, ◌*◌, ◌/◌, ◌≤◌, ◌<◌, ◌≡◌, refl, ap, ◌∙◌, List, [], ◌∷◌, ◌++◌, map,
  append_assoc, map-append, append-nil, some, Chars, codes, length, length-append, get_elem?,
  get_elem?-none, get_elem?-middle, length-map, take_all, take-append-drop, length-take,
  length-drop, take, drop, replicate, arith,
}
use gef_extras.Bincompare.{Line, gather, print_table}

abbrev pub Table : Type 0
Table = List (Chars × Chars)

abbrev pub dashes : ℕ → List Chars
dashes n = replicate n (codes "--")

abbrev padded : List Chars → List Chars
padded cells = cells ++ dashes (16 - length cells)

abbrev pub cells_of : (Line × Line → Line) → List (Line × Line) → List Chars
cells_of side [] = []
cells_of side (line ∷ lines) = (side line).cells ++ cells_of side lines

module _ (column : Chars × Chars → Chars) where
  gather_end : (t : Table) (rounds i : ℕ) → length t ≤ i → gather column t rounds i ≡ []
  unfolding gather
  gather_end t zero i h = refl
  gather_end t (suc n) i h =
      ground (arith, get_elem?-none t i h, gather_end t n (i + 1) (omega arith))

  -- The entries from the place `length done` on.
  gather-append :
      (done t : Table) (rounds i : ℕ)
      → i ≡ length done
      → gather column (done ++ t) rounds i ≡ map column (take rounds t)
  unfolding gather
  gather-append done t zero i e = refl
  gather-append done [] (suc n) i e =
      gather_end (done ++ []) (suc n) i (omega (arith, length-append done []))
  gather-append done (x ∷ t) (suc n) i e =
      let next =
        gather-append (done ++ x ∷ []) t n (i + 1) (omega (arith, length-append done (x ∷ []))) in
      let here : get_elem? (done ++ x ∷ t) i ≡ some x = rw e (get_elem?-middle done x t) in
      rw (here, gather) (ap (λ l. column x ∷ l) (rw append_assoc at next))

  -- The cells of the rows from `line` on.
  rows : Table → ℕ → ℕ → List Chars
  rows t zero line = []
  rows t (suc n) line = padded (gather column t 16 line) ++ rows t n (line + 16)

  rows_step :
      (t : Table) (n line : ℕ)
      → rows t (suc n) line ≡ padded (gather column t 16 line) ++ rows t n (line + 16)
  unfolding rows
  rows_step t n line = refl

  row_full :
      (done t : Table)
      → 16 ≤ length t
      → padded (gather column (done ++ t) 16 (length done)) ≡ map column (take 16 t)
  row_full done t h =
      let full : 16 - length (map column (take 16 t)) ≡ 0 =
        omega (arith, length-map column (take 16 t), length-take 16 t) in
      rw (gather-append done t 16 (length done) refl, full) (append-nil _)

  row_last :
      (done t : Table)
      → length t ≤ 16
      → padded (gather column (done ++ t) 16 (length done)) ≡ map column t ++ dashes (16 - length t)
  row_last done t h =
      rw (gather-append done t 16 (length done) refl, take_all 16 t h, length-map column t)

  -- With as many rows as the entries behind `done` need.
  rows-append :
      (n : ℕ) (done t : Table)
      → length t ≤ 16 * n
      → 16 * n < length t + 16
      → rows (done ++ t) n (length done) ≡ map column t ++ dashes (16 * n - length t)
  rows-append zero done [] h k = unfold rows in refl
  rows-append zero done (x ∷ t) h k = absurd (omega arith)
  rows-append (suc zero) done t h k =
      unfold rows in rw (row_last done t (omega arith)) (append-nil _)
  rows-append (suc (suc n)) done t h k =
      let first = take 16 t in
      let rest = drop 16 t in
      let full : 16 ≤ length t = omega arith in
      let behind =
        rows-append (suc n) (done ++ first) rest (omega (arith, length-drop 16 t))
          (omega (arith, length-drop 16 t)) in
      let place : length (done ++ first) ≡ length done + 16 =
        omega (arith, length-append done first, length-take 16 t) in
      let left : 16 * suc n - length rest ≡ 16 * suc (suc n) - length t =
        omega (arith, length-drop 16 t) in
      cc (
        rows_step (done ++ t) (suc n) (length done),
        row_full done t full,
        behind,
        place,
        left,
        append_assoc done first rest,
        take-append-drop 16 t,
        map-append column first rest,
        append_assoc (map column first) (map column rest) (dashes (16 * suc n - length rest)),
      )

-- The rows that the loop prints are those of the two columns.
print_table-rows :
    (t : Table) (n line : ℕ)
    → (cells_of (λ l. l.0) (print_table t n line) ≡ rows (λ e. e.0) t n line)
      × (cells_of (λ l. l.1) (print_table t n line) ≡ rows (λ e. e.1) t n line)
unfolding print_table rows
print_table-rows t zero line = (refl, refl)
print_table-rows t (suc n) line =
    let (file, memory) = print_table-rows t n (line + 16) in
    (
      ap (λ r. padded (gather (λ e. e.0) t 16 line) ++ r) file,
      ap (λ r. padded (gather (λ e. e.1) t 16 line) ++ r) memory,
    )

-- The printed lines for a table of `length t` entries.
abbrev pub printed : Table → List (Line × Line)
printed t = print_table t ((length t + 15) / 16) 0

-- The cells of the lines for the file are the first column of the table, in its order, and then
-- dashes up to the end of the last line; likewise the lines for the memory and the second column.
pub print_table_cells :
    (t : Table)
    → (cells_of (λ l. l.0) (printed t)
        ≡ map (λ e. e.0) t ++ dashes (16 * ((length t + 15) / 16) - length t))
      × (cells_of (λ l. l.1) (printed t)
          ≡ map (λ e. e.1) t ++ dashes (16 * ((length t + 15) / 16) - length t))
print_table_cells t =
    let n = (length t + 15) / 16 in
    let (file, memory) = print_table-rows t n 0 in
    (
      file ∙ rows-append (λ e. e.0) n [] t (omega arith) (omega arith),
      memory ∙ rows-append (λ e. e.1) n [] t (omega arith) (omega arith),
    )
