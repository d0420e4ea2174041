-- ===== src/Ftrace/Tests.antt =====
-- scripts/ftrace.py: tests and examples.
use gef_extras.Common.{
  Bool, ℕ, ◌+◌, ◌≤◌, true, false, not, ◌&&◌, ◌||◌, List, [], ◌∷◌, ◌++◌, length, take, none, some,
  Chars, codes, ◌==◌, ◌≡◌, refl, arith,
}
use gef_extras.Common.Hex.{format_d}
use gef_extras.Common.Strings.{chars_eq, chars_mem, split, strip, read_int, join}
use gef_extras.LibcArgs.Generator.Generated.{are_distinct}
use gef_extras.Ftrace.{
  Enter, Exit, set, State, finished, raised, discard, Gef, enter, leave, do_invoke, cleanup,
  is_live,
}
use gef_extras.Ftrace.Tracked.{is_between, last_number, added, saved, enter-tracked}
use gef_extras.Ftrace.Cleaned.{cleanup-enter}

abbrev registers : List Chars
registers = codes "$rdi" ∷ codes "$rsi" ∷ codes "$rdx" ∷ []

abbrev value : Chars → ℕ
value r = length r

abbrev memcpy : Enter
memcpy = record { number = 7; location = codes "memcpy"; nb_args = 3 }

abbrev before : State
before = record {
  bkps = [];
  retbp = λ n. none;
  exits = [];
  live = 2 ∷ [];
  next = 7;
  dict = λ n. [];
  next_dict = 0;
  hooks = 0;
  files = λ path. [];
  stderr = [];
}

-- The state behind `ftrace memcpy,3`.
abbrev tracking : State
tracking = record before {
  bkps = memcpy ∷ [];
  retbp = set 7 none before.retbp;
  live = 7 ∷ 2 ∷ [];
  next = 8;
  hooks = 1;
}

track_one : do_invoke (codes "memcpy,3" ∷ []) before ≡ finished tracking
unfolding do_invoke split strip read_int
track_one = refl

-- The second item has no count: the first is tracked already, and nothing will remove it.
track_bad :
    do_invoke (codes "memcpy,3" ∷ codes "puts" ∷ []) before ≡ raised (record tracking { hooks = 0 })
unfolding do_invoke split strip read_int
track_bad = refl

track_nothing : do_invoke [] before ≡ finished before
unfolding do_invoke split strip read_int
track_nothing = refl

abbrev entered : State
entered = enter value registers memcpy tracking

live_entered : entered.live ≡ 10 ∷ 9 ∷ 8 ∷ 7 ∷ 2 ∷ []
unfolding enter
live_entered = refl

no_arguments : (enter value registers (record memcpy { nb_args = 0 }) tracking).live ≡ 7 ∷ 2 ∷ []
unfolding enter
no_arguments = refl

abbrev gef : Gef
gef = record {
  format_address = λ n. codes "0x" ++ ((n + b'0') ∷ []);
  yellowify = λ s. codes "<" ++ s ++ codes ">";
  right_arrow = codes " → ";
  dereference_from = λ n. ((n + b'0') ∷ []) ∷ codes "?" ∷ [];
}

abbrev second : Exit
second = record { number = 9; location = codes "memcpy"; regs = 0 }

report_kept :
    (leave gef
        (codes "/tmp/log")
        (some 5)
        6
        second
        (leave gef (codes "/tmp/log") none 6 second entered)).files
      (codes "/tmp/log")
    ≡ codes "memcpy() = 0x5 {\n\t$rdi  →  4 → ?\n\t$rsi  →  4 → ?\n\t$rdx  →  4 → ?\n}\n"
unfolding leave enter format_d join
report_kept = refl

report_stderr :
    (leave gef (codes "/dev/stderr") (some 0) 6 second entered).stderr
    ≡ codes "<memcpy>() = 6 {\n\t$rdi  →  4 → ?\n\t$rsi  →  4 → ?\n\t$rdx  →  4 → ?\n}\n"
unfolding leave enter format_d join
report_stderr = refl

cleanup_twice :
    cleanup (record tracking { live = 2 ∷ [] }) ≡ raised (record tracking { live = 2 ∷ [] })
unfolding cleanup
cleanup_twice = refl

distinct : are_distinct registers ≡ true
unfolding are_distinct chars_mem chars_eq
distinct = refl

alive : is_live 7 tracking.live ≡ true
unfolding is_live
alive = refl

fresh : (n : ℕ) → 8 ≤ n → is_live n tracking.live ≡ false
unfolding is_live
fresh n h = ground arith

enter-tracked_example :
    (entered.dict 0 ≡ saved value (take 3 registers))
    × (entered.exits ≡ added memcpy 0 8 3 [])
    × (entered.retbp 7 ≡ last_number 8 3 none)
enter-tracked_example = enter-tracked value registers memcpy tracking distinct

-- gdb has deleted the first exit breakpoint, and then the last.
first_gone : ℕ → Bool
first_gone n = n == 8

last_gone : cleanup (discard (λ n. n == 10) entered) ≡ raised (discard (λ n. n == 10) entered)
unfolding cleanup enter
last_gone = refl

cleanup-enter_example :
    let after = discard first_gone entered in
    (st' : State) × (cleanup after ≡ finished st')
    × ((n : ℕ)
        → is_live n st'.live
          ≡ ((is_between 8 2 n || is_live n (7 ∷ 2 ∷ []) && not (n == 7)) && not (first_gone n)))
unfolding first_gone
cleanup-enter_example =
    cleanup-enter value registers first_gone memcpy 0 2 tracking refl refl refl alive refl fresh
