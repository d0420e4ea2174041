-- ===== src/Bytearray/Dump.antt =====
-- scripts/bytearray.py: the lines of the text file.
use gef_extras.Common.{
  ℕ, zero, suc, ◌+◌, ◌-◌, ◌≤◌, ◌<◌, ◌≡◌, refl, List, [], ◌∷◌, ◌++◌, append_assoc, append-nil,
  length, Chars, arith, lt→ltb, ap,
}
use gef_extras.Bytearray.{dump, dump_loop, escaped, quote_end}

abbrev escaped_all : List Chars → Chars
escaped_all [] = []
escaped_all (hex ∷ row) = escaped hex ++ escaped_all row

-- One line: the bytes of a row between quotation marks.
abbrev pub quoted : List Chars → Chars
quoted row = b'"' ∷ (escaped_all row ++ quote_end)

abbrev pub text_of : List (List Chars) → Chars
text_of [] = []
text_of (row ∷ rows) = quoted row ++ text_of rows

abbrev pub all_rows : List (List Chars) → List Chars
all_rows [] = []
all_rows (row ∷ rows) = row ++ all_rows rows

-- Rows as they are laid out: all but the last are full, and only the first may be empty.
abbrev pub IsLaidOut : List Chars → List (List Chars) → Type 0
IsLaidOut first [] = length first ≤ 32
IsLaidOut first (row ∷ rows) = (length first ≡ 32) × (0 < length row) × IsLaidOut row rows

abbrev Rows : Type 0
Rows = List Chars × List (List Chars)

abbrev push_new : Chars → Rows → Rows
push_new x rows = ([], (x ∷ rows.0) ∷ rows.1)

abbrev push : Chars → Rows → Rows
push x rows = (x ∷ rows.0, rows.1)

-- The rows of a table, with `room` places left in the first.
fill : ℕ → List Chars → Rows
fill room [] = ([], [])
fill zero (x ∷ xs) = push_new x (fill 31 xs)
fill (suc room) (x ∷ xs) = push x (fill room xs)

dump_loop-fill :
    (xs : List Chars) (room cnt : ℕ) (line output : Chars)
    → cnt + room ≡ 32
    → dump_loop xs cnt line output
      ≡ output
        ++ ((line ++ (escaped_all (fill room xs).0 ++ quote_end)) ++ text_of (fill room xs).1)
unfolding dump_loop fill
dump_loop-fill [] room cnt line output e = rw (lt→ltb (cnt - 1) 32 (omega arith)) (simp append-nil)
dump_loop-fill (x ∷ xs) zero cnt line output e =
    let full : cnt ≡ 32 = omega arith in
    rw full (
      simp (
        dump_loop-fill xs 31 1 (b'"' ∷ escaped x) (output ++ (line ++ quote_end)) refl,
        append_assoc,
      ))
dump_loop-fill (x ∷ xs) (suc room) cnt line output e =
    rw (lt→ltb cnt 32 (omega arith), dump_loop)
      (simp
        (dump_loop-fill xs room (cnt + 1) (line ++ escaped x) output (omega arith), append_assoc))

all_rows-fill : (room : ℕ) (xs : List Chars) → (fill room xs).0 ++ all_rows (fill room xs).1 ≡ xs
unfolding fill
all_rows-fill room [] = refl
all_rows-fill zero (x ∷ xs) = ap (λ t. x ∷ t) (all_rows-fill 31 xs)
all_rows-fill (suc room) (x ∷ xs) = ap (λ t. x ∷ t) (all_rows-fill room xs)

-- `k` places of the first row are taken before.
abbrev IsLaidOutAfter : ℕ → List Chars → List (List Chars) → Type 0
IsLaidOutAfter k first [] = k + length first ≤ 32
IsLaidOutAfter k first (row ∷ rows) =
    (k + length first ≡ 32) × (0 < length row) × IsLaidOut row rows

of_after :
    (first : List Chars) (rows : List (List Chars))
    → IsLaidOutAfter 0 first rows
    → IsLaidOut first rows
of_after first [] h = omega arith
of_after first (row ∷ rows) (h, p, l) = (omega arith, p, l)

after_cons :
    (k : ℕ) (x : Chars) (first : List Chars) (rows : List (List Chars))
    → IsLaidOutAfter (k + 1) first rows
    → IsLaidOutAfter k (x ∷ first) rows
after_cons k x first [] h = omega arith
after_cons k x first (row ∷ rows) (h, p, l) = (omega arith, p, l)

fill-IsLaidOutAfter :
    (xs : List Chars) (room k : ℕ)
    → k + room ≡ 32
    → IsLaidOutAfter k (fill room xs).0 (fill room xs).1
unfolding fill
fill-IsLaidOutAfter [] room k e = omega arith
fill-IsLaidOutAfter (x ∷ xs) zero k e =
    (omega arith, omega arith, of_after _ _ (after_cons 0 x _ _ (fill-IsLaidOutAfter xs 31 1 refl)))
fill-IsLaidOutAfter (x ∷ xs) (suc room) k e =
    after_cons k x _ _ (fill-IsLaidOutAfter xs room (k + 1) (omega arith))

-- The text of a table is a sequence of quoted lines, which hold the bytes of the table in its
-- order: each line but the last holds 32 of them, the last at most 32, and only the line of an
-- empty table none.
pub dump_lines :
    (table : List Chars)
    → (first : List Chars) × (rows : List (List Chars)) × (dump table ≡ text_of (first ∷ rows))
      × (all_rows (first ∷ rows) ≡ table)
      × IsLaidOut first rows
unfolding dump
dump_lines table = (
  (fill 32 table).0,
  (fill 32 table).1,
  dump_loop-fill table 32 0 (b'"' ∷ []) [] refl,
  all_rows-fill 32 table,
  of_after _ _ (fill-IsLaidOutAfter table 32 0 refl),
)
