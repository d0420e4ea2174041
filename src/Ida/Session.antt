-- ===== src/Ida/Session.antt =====
-- scripts/ida_interact.py: reconnect and the decorator only_if_active_rpyc_session.
use gef_extras.Common.{
  ℕ, ◌+◌, ◌-◌, Bool, true, false, ◌||◌, List, [], ◌∷◌, Chars, codes, Result, ok, err, if◌then◌else◌,
  ◌≡◌, refl, sym, ◌⊎◌, arith, Bool-cases, Result-cases, inl, inr,
}
use mathlib.Core.Path.{subst}
use gef_extras.Common.Strings.{chars_eq}
use gef_extras.Ida.{Error, State, Debuggee, synchronize}

-- `reconnect`: `accepted` is whether IDA takes the connection. It returns False either way. Unhooking
-- a function that is not hooked does nothing.
unfoldable pub reconnect : Bool → State → State
reconnect accepted st =
    if accepted
    then record st { is_connected = true; hooks = st.hooks + 1 }
    else record st { is_connected = false; hooks = st.hooks - 1 }

-- How a command ended: it ran, it was not run, with or without a warning, or it raised.
pub data Ending : Type 0 where
  ran not_run no_session : Ending
  raised : Error → Ending

abbrev run_with : (State → Result Error State) → State → State × Ending
run_with f st = elim (f st) [ ok st' ↦ (st', ran) | err e ↦ (st, raised e) ]

-- The wrapper around a command: `first` and `second` are whether IDA takes a connection at the two
-- attempts.
unfoldable pub guarded : Bool → Bool → (State → Result Error State) → State → State × Ending
unfolding reconnect
guarded first second f st =
    if st.is_connected
    then run_with f st
    else if (reconnect first st).is_connected
    then run_with f (reconnect first st)
    else (let last = reconnect second (reconnect first st) in
        (last, if last.is_connected then not_run else no_session))

-- `do_invoke` of the root command.
unfoldable pub do_invoke : Debuggee → Bool → ℕ → List Chars → State → Result Error State
unfolding synchronize
do_invoke d sync_cursor pc [] st = ok st
do_invoke d sync_cursor pc (arg ∷ argv) st =
    if chars_eq arg (codes "synchronize") || sync_cursor then synchronize d pc st else ok st

-- A session after a connection, and without one after a refusal.
abbrev pub connected : State → State
connected st = record st { is_connected = true; hooks = st.hooks + 1 }

abbrev pub refused : State → State
refused st = record st { is_connected = false; hooks = st.hooks - 1 }

-- The command ran in a state, or raised and left the state alone.
abbrev pub Ran : (State → Result Error State) → State → State × Ending → Type 0
Ran f st r =
    ((st' : State) × (f st ≡ ok st') × (r ≡ (st', ran)))
    ⊎ ((x : Error) × (f st ≡ err x) × (r ≡ (st, raised x)))

-- What the wrapper does with a command.
pub data Handed (first second : Bool) (f : State → Result Error State) (st : State)
    (r : State × Ending) : Type 0 where
  at_once : st.is_connected ≡ true → Ran f st r → Handed first second f st r
  after_connecting :
      st.is_connected ≡ false → first ≡ true → Ran f (connected st) r → Handed first second f st r
  dropped :
      st.is_connected ≡ false
      → first ≡ false
      → second ≡ true
      → r ≡ (connected (refused st), not_run)
      → Handed first second f st r
  warned :
      st.is_connected ≡ false
      → first ≡ false
      → second ≡ false
      → r ≡ (refused (refused st), no_session)
      → Handed first second f st r

run_with-Ran : (f : State → Result Error State) (st : State) → Ran f st (run_with f st)
run_with-Ran f st = elim (Result-cases (f st)) [
  | inl (st', e) ↦ inl (st', e, ground (arith, e))
  | inr (x, e) ↦ inr (x, e, ground (arith, e))
]

guarded_connected :
    (first second : Bool) (f : State → Result Error State) (st : State)
    → st.is_connected ≡ true
    → guarded first second f st ≡ run_with f st
unfolding guarded reconnect
guarded_connected first second f st e = ground (arith, e)

without_session :
    (first second : Bool) (f : State → Result Error State) (st : State)
    → st.is_connected ≡ false
    → Handed first second f st (guarded first second f st)
unfolding guarded reconnect
without_session true second f st e =
    after_connecting e refl (rw (e, guarded) (run_with-Ran f (connected st)))
without_session false true f st e = dropped e refl refl (rw (e, guarded) refl)
without_session false false f st e = warned e refl refl (rw (e, guarded) refl)

-- A wrapped command runs where there is a session, or behind the first attempt to connect if IDA takes
-- it. Where IDA refuses the first attempt the command is not run: with a warning where it refuses the
-- second as well, and with none where it takes it, though the session is there by then and the
-- function for synchronisation is hooked.
pub guarded-Handed :
    (first second : Bool) (f : State → Result Error State) (st : State)
    → Handed first second f st (guarded first second f st)
unfolding guarded reconnect
guarded-Handed first second f st = elim (Bool-cases st.is_connected) [
  | inl e ↦
      at_once e (subst (Ran f st) (sym (guarded_connected first second f st e)) (run_with-Ran f st))
  | inr e ↦ without_session first second f st e
]
