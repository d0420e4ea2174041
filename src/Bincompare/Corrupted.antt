-- ===== src/Bincompare/Corrupted.antt =====
-- scripts/bincompare.py: where the last run of differing bytes begins.
use gef_extras.Common.{
  ℕ, ◌+◌, ◌≡◌, ◌≢◌, refl, ◌∙◌, ap, [], ◌∷◌, ◌++◌, none, some, All, length, arith, ◌⊎◌, inl, inr,
}
use gef_extras.Bincompare.{State, start, compare_byte, mark}
use gef_extras.Bincompare.Compare.{Pairs, compare_pairs, cnt-compare_byte}

-- The loop over two parts of the file, one after the other.
compare_pairs-append :
    (xs ys : Pairs) (s : State) → compare_pairs (xs ++ ys) s ≡ compare_pairs ys (compare_pairs xs s)
compare_pairs-append [] ys s = refl
compare_pairs-append ((b, m) ∷ xs) ys s = compare_pairs-append xs ys (compare_byte b m s)

pub cnt-compare_pairs : (ps : Pairs) (s : State) → (compare_pairs ps s).cnt ≡ s.cnt + length ps
cnt-compare_pairs [] s = omega arith
cnt-compare_pairs ((b, m) ∷ ps) s =
    omega (arith, cnt-compare_pairs ps (compare_byte b m s), cnt-compare_byte b m s)

abbrev pub Differs : ℕ × ℕ → Type 0
Differs p = p.0 ≢ p.1

corrupted-compare_byte :
    (b m : ℕ) (s : State) → b ≢ m → (compare_byte b m s).corrupted ≡ mark s.corrupted s.cnt
unfolding compare_byte
corrupted-compare_byte b m s h = ground arith

-- A byte that agrees takes the mark back.
corrupted_same : (b : ℕ) (s : State) → (compare_byte b b s).corrupted ≡ none
unfolding compare_byte
corrupted_same b s = ground arith

-- A mark stays where it is over bytes that differ.
corrupted_keeps :
    (ps : Pairs) (s : State) (k : ℕ)
    → All Differs ps
    → s.corrupted ≡ some k
    → (compare_pairs ps s).corrupted ≡ some k
corrupted_keeps [] s k h e = e
corrupted_keeps ((b, m) ∷ ps) s k (d, h) e =
    corrupted_keeps ps (compare_byte b m s) k h
      (corrupted-compare_byte b m s d ∙ ap (λ o. mark o s.cnt) e)

corrupted_run :
    (ps : Pairs) (s : State)
    → All Differs ps
    → ps ≢ []
    → s.corrupted ≡ none
    → (compare_pairs ps s).corrupted ≡ some s.cnt
corrupted_run [] s h n e = absurd (n refl)
corrupted_run ((b, m) ∷ ps) s (d, h) n e =
    corrupted_keeps ps (compare_byte b m s) s.cnt h
      (corrupted-compare_byte b m s d ∙ ap (λ o. mark o s.cnt) e)

corrupted_agrees :
    (xs : Pairs) (a : ℕ) (s : State) → (compare_pairs (xs ++ (a, a) ∷ []) s).corrupted ≡ none
corrupted_agrees xs a s =
    ap (λ (t : State). t.corrupted) (compare_pairs-append xs ((a, a) ∷ []) s)
    ∙ corrupted_same a (compare_pairs xs s)

-- Nothing stands before the run, or a byte that agrees.
abbrev pub Agrees : Pairs → Type 0
Agrees before = (before ≡ []) ⊎ ((xs : Pairs) × (a : ℕ) × (before ≡ xs ++ (a, a) ∷ []))

corrupted_before : (before : Pairs) → Agrees before → (compare_pairs before start).corrupted ≡ none
corrupted_before before (inl e) = rw e
corrupted_before before (inr (xs, a, e)) = rw e (corrupted_agrees xs a start)

pub corrupted-compare_pairs :
    (before run : Pairs)
    → Agrees before
    → All Differs run
    → run ≢ []
    → (compare_pairs (before ++ run) start).corrupted ≡ some (length before)
corrupted-compare_pairs before run ends h n =
    ap (λ (t : State). t.corrupted) (compare_pairs-append before run start)
    ∙ corrupted_run run (compare_pairs before start) h n (corrupted_before before ends)
    ∙ ap some (cnt-compare_pairs before start ∙ omega arith)
