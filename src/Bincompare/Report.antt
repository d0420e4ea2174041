-- ===== src/Bincompare/Report.antt =====
-- scripts/bincompare.py: what an invocation reports.
use gef_extras.Common.{
  ℕ, ◌≤◌, ◌≡◌, ◌≢◌, refl, ◌∙◌, ap, List, [], ◌∷◌, ◌++◌, map, Option, some, Chars, Result, ok, err,
  ◌>>=◌, All, length, length-map, get_elem?-none, ltb, arith, false,
}
use gef_extras.Bincompare.{
  Error, index_error, State, start, round, compare, report, do_invoke, compared, is_empty,
}
use gef_extras.Bincompare.Compare.{
  Pairs, file_of, memory_of, compare_pairs, compare-pairs, entry, result_table-compare_pairs,
}
use gef_extras.Bincompare.Badchars.{differing, joined, badchars-compare_pairs}
use gef_extras.Bincompare.Corrupted.{Agrees, Differs, corrupted-compare_pairs, cnt-compare_pairs}
use gef_extras.Bincompare.Print.{printed}

-- A file of at least eight bytes, at whose length the memory can be read, is compared in full: the
-- printed table is that of all pairs of bytes, and the bad characters are the bytes of the file that
-- differ, in their order.
pub do_invoke-pairs :
    (ps : Pairs) (address filename : Chars) (read : ℕ → Option (List ℕ))
    → is_empty address ≡ false
    → is_empty filename ≡ false
    → 8 ≤ length ps
    → read (length ps) ≡ some (memory_of ps)
    → do_invoke address filename (some (file_of ps)) read
      ≡ ok (
          compared
            (printed (map entry ps))
            (compare_pairs ps start).corrupted
            (joined (differing ps)))
unfolding do_invoke report
do_invoke-pairs ps address filename read a f h r =
    let same : length (file_of ps) ≡ length ps = length-map _ ps in
    let enough : ltb (length ps) 8 ≡ false = ground arith in
    rw (a, f, same, enough, r, do_invoke, compare-pairs [] ps start refl)
      (rw (result_table-compare_pairs ps start, badchars-compare_pairs ps start refl) refl)

-- The place that is reported as "Corruption after" is where the last run of differing bytes begins:
-- for pairs that end in such a run, behind nothing or behind a byte that agrees, it is the number of
-- bytes before the run.
pub compare_corrupted :
    (before run : Pairs) (s : State)
    → Agrees before
    → All Differs run
    → run ≢ []
    → compare (memory_of (before ++ run)) (file_of (before ++ run)) start ≡ ok s
    → s.corrupted ≡ some (length before)
compare_corrupted before run s ends h n e =
    let whole = compare-pairs [] (before ++ run) start refl in
    let same : s ≡ compare_pairs (before ++ run) start = cc in
    ap (λ (t : State). t.corrupted) same ∙ corrupted-compare_pairs before run ends h n

compare-append :
    (memory f g : List ℕ) (s : State)
    → compare memory (f ++ g) s ≡ (compare memory f s >>= λ t. compare memory g t)
unfolding compare
compare-append memory [] g s = refl
compare-append memory (b ∷ f) g s = after (round memory b s) (compare-append memory f g)
  where
    after :
        (r : Result Error State)
        → ((t : State)
            → compare memory (f ++ g) t ≡ (compare memory f t >>= λ t. compare memory g t))
        → (r >>= λ t. compare memory (f ++ g) t)
          ≡ ((r >>= λ t. compare memory f t) >>= λ t. compare memory g t)
    after (ok t) ih = ih t
    after (err e) ih = refl

round_end :
    (memory : List ℕ) (b : ℕ) (s : State)
    → s.cnt ≡ length memory
    → round memory b s ≡ err index_error
unfolding round
round_end memory b s e = ground (arith, get_elem?-none memory s.cnt (omega arith), e)

-- A memory that was read short of the file raises an `IndexError` at its end: the marks "--" for
-- missing bytes are never made.
pub compare_short :
    (ps : Pairs) (b : ℕ) (more : List ℕ)
    → compare (memory_of ps) (file_of ps ++ b ∷ more) start ≡ err index_error
unfolding compare
compare_short ps b more =
    let place : (compare_pairs ps start).cnt ≡ length (memory_of ps) =
      omega (arith, cnt-compare_pairs ps start, length-map (λ (p : ℕ × ℕ). p.1) ps) in
    compare-append (memory_of ps) (file_of ps) (b ∷ more) start
    ∙ rw (compare-pairs [] ps start refl, round_end (memory_of ps) b (compare_pairs ps start) place)
