-- ===== src/Bincompare/Tests.antt =====
-- Tests of scripts/bincompare.py and instances of the theorems.
use gef_extras.Common.{
  ℕ, ◌≡◌, refl, List, [], ◌∷◌, ◌++◌, map, Option, none, some, codes, ok, arith, inr,
}
use gef_extras.Bincompare.{
  State, start, compare, compare_byte, do_invoke, compared, no_arguments, file_too_short,
  memory_unreachable,
}
use gef_extras.Bincompare.Compare.{Pairs, file_of, memory_of, compare_pairs, entry}
use gef_extras.Bincompare.Badchars.{differing, joined}
use gef_extras.Bincompare.Print.{Table, printed}
use gef_extras.Bincompare.Report.{do_invoke-pairs, compare_corrupted}

abbrev before : Pairs
before = (1, 1) ∷ (2, 9) ∷ (3, 3) ∷ (4, 4) ∷ (5, 5) ∷ (6, 6) ∷ []

abbrev run : Pairs
run = (7, 0) ∷ (8, 0) ∷ []

abbrev reader : ℕ → Option (List ℕ)
reader n = some (memory_of (before ++ run))

reported : (compare_pairs (before ++ run) start).badchars ≡ codes "02, 07, 08"
unfolding compare_byte
reported = refl

unreachable :
    do_invoke (codes "$sp") (codes "f") (some (file_of (before ++ run))) (λ n. none)
    ≡ ok memory_unreachable
unfolding do_invoke
unreachable = refl

short_file : do_invoke (codes "$sp") (codes "f") (some (1 ∷ [])) reader ≡ ok file_too_short
unfolding do_invoke
short_file = refl

no_filename : do_invoke (codes "$sp") [] none reader ≡ ok no_arguments
unfolding do_invoke
no_filename = refl

do_invoke-pairs_example :
    do_invoke (codes "$sp") (codes "f") (some (file_of (before ++ run))) reader
    ≡ ok (
        compared
          (printed (map entry (before ++ run)))
          (compare_pairs (before ++ run) start).corrupted
          (joined (differing (before ++ run))))
do_invoke-pairs_example =
    do_invoke-pairs (before ++ run) (codes "$sp") (codes "f") reader refl refl (omega arith) refl

compared_state : State
compared_state = compare_pairs (before ++ run) start

runs : compare (memory_of (before ++ run)) (file_of (before ++ run)) start ≡ ok compared_state
unfolding compare compared_state
runs = refl

compare_corrupted_example : compared_state.corrupted ≡ some 6
compare_corrupted_example =
    compare_corrupted before run compared_state
      (inr ((1, 1) ∷ (2, 9) ∷ (3, 3) ∷ (4, 4) ∷ (5, 5) ∷ [], 6, refl)) (omega arith) (cc) runs

abbrev table : Table
table = (codes "41", codes "  ") ∷ []
