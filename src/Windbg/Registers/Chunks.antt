-- ===== src/Windbg/Registers/Chunks.antt =====
-- scripts/windbg.py: the lines of `print_regs`.
use gef_extras.Common.{
  ℕ, zero, suc, ◌+◌, ◌-◌, ◌*◌, ◌/◌, ◌≤◌, ◌<◌, List, [], ◌∷◌, ◌++◌, Chars, ok, length, take, drop,
  take-append-drop, length-take, length-drop, ◌≡◌, ◌%◌, ◌^◌, map, sym, append_assoc, codes, refl,
  ap, ◌∙◌, arith,
}
use gef_extras.Common.Ranges.{rounds_bounds}
use gef_extras.Windbg.Registers.{
  chunks, arch_reg_width, max_length, rjust, zero_padded, print_line, print_lines, print_regs,
}
use gef_extras.Common.Strings.{join}

module _ {ℓ} {A : Type ℓ} where
  -- All rows but the last have `n` entries, and the last has one to `n`.
  abbrev pub IsChunked : ℕ → List (List A) → Type 0
  IsChunked n [] = Unit
  IsChunked n (row ∷ []) = (0 < length row) × (length row ≤ n)
  IsChunked n (row ∷ r ∷ rows) = (length row ≡ n) × IsChunked n (r ∷ rows)

  abbrev pub concat : List (List A) → List A
  concat [] = []
  concat (row ∷ rows) = row ++ concat rows

  -- With as many rounds as the list needs.
  concat-chunks :
      (n rounds : ℕ) (l : List A) → length l ≤ rounds * n → concat (chunks n rounds l) ≡ l
  unfolding chunks
  concat-chunks n zero [] h = refl
  concat-chunks n zero (x ∷ l) h = absurd (omega arith)
  concat-chunks n (suc rounds) l h =
      ap (λ t. take n l ++ t) (concat-chunks n rounds (drop n l) (omega (arith, length-drop n l)))
      ∙ take-append-drop n l

  chunks-IsChunked :
      (n rounds : ℕ) (l : List A)
      → 0 < n
      → rounds * n < length l + n
      → IsChunked n (chunks n rounds l)
  unfolding chunks
  chunks-IsChunked n zero l p h = tt
  chunks-IsChunked n (suc zero) l p h = omega (arith, length-take n l)
  chunks-IsChunked n (suc (suc rounds)) l p h = (
    omega (arith, length-take n l),
    chunks-IsChunked n (suc rounds) (drop n l) p (omega (arith, length-drop n l)),
  )

arch_reg_width_pos : (arch : Chars) (n : ℕ) → arch_reg_width arch ≡ ok n → 0 < n
unfolding arch_reg_width
arch_reg_width_pos arch n h = ground arith

later {ℓ} :
    {A : Type ℓ} (n : ℕ) (row : List A) (rows : List (List A))
    → IsChunked n (row ∷ rows)
    → IsChunked n rows
later n row [] h = tt
later n row (r ∷ rows) h = h.1

module _ (ptrsize : ℕ) (register : Chars → ℕ) where
  -- A register: its name, aligned to the right, and its value as an unsigned word.
  abbrev pub reg_text : ℕ → ℕ → Chars → Chars
  reg_text name_width width reg =
      rjust name_width reg ++ (b'=' ∷ zero_padded width (register (b'$' ∷ reg) % 2 ^ (ptrsize * 8)))

  -- The rows, each on a line with blanks between its registers.
  abbrev pub rows_text : ℕ → ℕ → List (List Chars) → Chars
  rows_text name_width width [] = []
  rows_text name_width width (row ∷ rows) =
      join (codes " ") (map (reg_text name_width width) row)
      ++ (b'\n' ∷ rows_text name_width width rows)

  print_line-join :
      (name_width width : ℕ) (reg : Chars) (regs : List Chars)
      → print_line ptrsize register name_width width (reg ∷ regs)
        ≡ join (codes " ") (map (reg_text name_width width) (reg ∷ regs)) ++ b'\n' ∷ []
  unfolding print_line join
  print_line-join name_width width reg [] = refl
  print_line-join name_width width reg (r ∷ regs) =
      let rest = print_line-join name_width width r regs in
      ap (λ (t : Chars). reg_text name_width width reg ++ (b' ' ∷ t)) rest
      ∙ sym (
          append_assoc (reg_text name_width width reg)
            (b' ' ∷ join (codes " ") (map (reg_text name_width width) (r ∷ regs))) (b'\n' ∷ []))

  print_lines-rows_text :
      (name_width width n : ℕ) (rows : List (List Chars))
      → 0 < n
      → IsChunked n rows
      → print_lines ptrsize register name_width width rows ≡ rows_text name_width width rows
  unfolding print_lines
  print_lines-rows_text name_width width n [] p h = refl
  print_lines-rows_text name_width width n ([] ∷ []) p h = absurd (omega arith)
  print_lines-rows_text name_width width n ([] ∷ r ∷ rows) p h = absurd (omega arith)
  print_lines-rows_text name_width width n ((reg ∷ regs) ∷ rows) p h =
      let rest = print_lines-rows_text name_width width n rows p (later n (reg ∷ regs) rows h) in
      let row = join (codes " ") (map (reg_text name_width width) (reg ∷ regs)) in
      ap (λ (t : Chars). t ++ print_lines ptrsize register name_width width rows)
        (print_line-join name_width width reg regs)
      ∙ append_assoc row (b'\n' ∷ []) (print_lines ptrsize register name_width width rows)
      ∙ ap (λ (t : Chars). row ++ (b'\n' ∷ t)) rest

-- For an architecture of known width and a list that is not empty, `print_regs` prints each register of
-- the list once, in the list's order: `n` to a line on all lines but the last, which has one to `n`. A
-- register is printed with its name, aligned to the right in the width of the longest, and the
-- unsigned word in it, in hexadecimal with zeros up to the width that was asked for.
pub print_regs_lines :
    (ptrsize : ℕ) (register : Chars → ℕ) (arch : Chars) (reg : Chars) (regs : List Chars)
    (width n : ℕ)
    → arch_reg_width arch ≡ ok n
    → (rows : List (List Chars)) × (print_regs ptrsize register arch (reg ∷ regs) width
        ≡ ok (rows_text ptrsize register (max_length (reg ∷ regs)) width rows))
      × (concat rows ≡ reg ∷ regs)
      × IsChunked n rows
unfolding print_regs
print_regs_lines ptrsize register arch reg regs width n h =
    let p = arch_reg_width_pos arch n h in
    let all = reg ∷ regs in
    let (enough, tight) = rounds_bounds n (length all) p in
    let rows = chunks n ((length all + (n - 1)) / n) all in
    let chunked = chunks-IsChunked n _ all p tight in
    (
      rows,
      rw (h, print_regs)
          (ap (λ (t : Chars). ok t)
            (print_lines-rows_text ptrsize register (max_length all) width n rows p chunked)),
      concat-chunks n _ all enough,
      chunked,
    )
