-- ===== src/Bincompare/Compare.antt =====
-- scripts/bincompare.py: the comparison loop against the list of byte pairs.
use gef_extras.Common.{
  ℕ, ◌+◌, ◌≡◌, refl, sym, ◌∙◌, ap, List, [], ◌∷◌, ◌++◌, map, append_assoc, append-nil, Chars, codes,
  ok, length, length-append, get_elem?-middle, ◌==◌, if◌then◌else◌, arith,
}
use gef_extras.Common.Hex.{hex_byte}
use gef_extras.Bincompare.{State, compare_byte, round, compare}

-- The bytes of the file, each with the byte of the memory in its place.
abbrev pub Pairs : Type 0
Pairs = List (ℕ × ℕ)

abbrev pub file_of : Pairs → List ℕ
file_of = map (λ p. p.0)

abbrev pub memory_of : Pairs → List ℕ
memory_of = map (λ p. p.1)

-- The loop over the pairs, with no reads out of the memory.
abbrev pub compare_pairs : Pairs → State → State
compare_pairs [] s = s
compare_pairs ((b, m) ∷ ps) s = compare_pairs ps (compare_byte b m s)

pub cnt-compare_byte : (b m : ℕ) (s : State) → (compare_byte b m s).cnt ≡ s.cnt + 1
unfolding compare_byte
cnt-compare_byte b m s = ground arith

round-middle :
    (done : List ℕ) (b m : ℕ) (rest : List ℕ) (s : State)
    → s.cnt ≡ length done
    → round (done ++ m ∷ rest) b s ≡ ok (compare_byte b m s)
unfolding round
round-middle done b m rest s e =
    ground (arith, length-append done (m ∷ rest), get_elem?-middle done m rest, e)

pub compare-pairs :
    (done : List ℕ) (ps : Pairs) (s : State)
    → s.cnt ≡ length done
    → compare (done ++ memory_of ps) (file_of ps) s ≡ ok (compare_pairs ps s)
unfolding compare
compare-pairs done [] s e = refl
compare-pairs done ((b, m) ∷ ps) s e =
    let next : (compare_byte b m s).cnt ≡ length (done ++ m ∷ []) =
      omega (arith, cnt-compare_byte b m s, length-append done (m ∷ [])) in
    let rest = compare-pairs (done ++ m ∷ []) ps (compare_byte b m s) next in
    rw (round-middle done b m (memory_of ps) s e) (rw append_assoc at rest)

-- What the table shows of a pair: the memory's byte only where it differs.
abbrev pub entry : ℕ × ℕ → Chars × Chars
entry p = (hex_byte p.0, if p.0 == p.1 then codes "  " else hex_byte p.1)

pub result_table-compare_pairs :
    (ps : Pairs) (s : State) → (compare_pairs ps s).result_table ≡ s.result_table ++ map entry ps
result_table-compare_pairs [] s = sym (append-nil _)
result_table-compare_pairs ((b, m) ∷ ps) s =
    result_table-compare_pairs ps (compare_byte b m s)
    ∙ ap (λ t. t ++ map entry ps) (table_step b m s)
    ∙ append_assoc s.result_table (entry (b, m) ∷ []) (map entry ps)
  where
    table_step :
        (b m : ℕ) (s : State)
        → (compare_byte b m s).result_table ≡ s.result_table ++ entry (b, m) ∷ []
    table_step b m s = unfold compare_byte in ground arith
