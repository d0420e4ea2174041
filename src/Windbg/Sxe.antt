-- ===== src/Windbg/Sxe.antt =====
-- scripts/windbg.py: `BreakOnLoadSharedLibrary` and the command `sxe`. The list of the command holds
-- references to gdb's breakpoint objects; nothing else holds them, so it is a list of their states.
use gef_extras.Common.{
  ℕ, Bool, true, false, not, ◌||◌, List, [], ◌∷◌, ◌++◌, Option, none, some, Chars, codes, Result,
  ok, err, Result-cases, ◌≡◌, refl, inl, inr, arith, if◌then◌else◌, ◌==◌, Bool-cases, Option-cases,
  ◌∙◌,
}
use gef_extras.Common.Strings.{chars_eq, split_once, ends_with}

-- `ValueError` of the unpacking of `split`, and gdb's `RuntimeError` for a deleted breakpoint.
pub data Error : Type 0 where
  value_error runtime_error : Error

-- A breakpoint on `dlopen`; `valid` until it is deleted.
pub record Breakpoint : Type 0 where
  pub module_name : Chars
  pub enabled : Bool
  pub valid : Bool

-- `__init__`
unfoldable pub break_on_load : Chars → Breakpoint
break_on_load name = record { module_name = name; enabled = true; valid = true }

-- `stop`: `parameter` is the address in the first parameter's register, `none` where the
-- architecture has no parameter registers; `path` is the text at that address.
unfoldable pub stop : Breakpoint → Option ℕ → Chars → Bool
stop bp none path = false
stop bp (some addr) path = if addr == 0 then false else ends_with path bp.module_name

-- `bkp.enabled = False; bkp.delete()` on the first breakpoint of the module: gdb refuses to change
-- one that was deleted. The local list `bkps` is a copy, so `bkps.remove` changes nothing here.
pub disable_first : Chars → List Breakpoint → Result Error (List Breakpoint)
disable_first name [] = ok []
disable_first name (bp ∷ bps) = elim (chars_eq bp.module_name name) [
  | true ↦
      if bp.valid
      then ok (record bp { enabled = false; valid = false } ∷ bps)
      else err runtime_error
  | false ↦ elim (disable_first name bps) [ ok rest ↦ ok (bp ∷ rest) | err e ↦ err e ]
]

-- `do_invoke`; with no argument, or an action that is neither, the usage is printed.
unfoldable pub do_invoke : List Chars → List Breakpoint → Result Error (List Breakpoint)
unfolding break_on_load disable_first
do_invoke [] bps = ok bps
do_invoke (arg ∷ rest) bps = elim (split_once b':' arg) [
  | none ↦ err value_error
  | some (action, name) ↦
      if chars_eq action (codes "ld")
      then ok (bps ++ break_on_load name ∷ [])
      else if chars_eq action (codes "ud")
      then disable_first name bps
      else ok bps
]

-- A command that raises leaves the list as it was.
pub after : Result Error (List Breakpoint) → List Breakpoint → List Breakpoint
after (ok bps) old = bps
after (err e) old = old

unfoldable pub run_all : List (List Chars) → List Breakpoint → List Breakpoint
unfolding do_invoke after
run_all [] bps = bps
run_all (argv ∷ more) bps = run_all more (after (do_invoke argv bps) bps)

-- The first breakpoint of a module is a deleted one.
pub is_stale : Chars → List Breakpoint → Bool
is_stale name [] = false
is_stale name (bp ∷ bps) = if chars_eq bp.module_name name then not bp.valid else is_stale name bps

unfoldable pub is_tracked : Chars → List Breakpoint → Bool
is_tracked name [] = false
is_tracked name (bp ∷ bps) = chars_eq bp.module_name name || is_tracked name bps

abbrev pub disable : Chars → List Chars
disable name = (codes "ud:" ++ name) ∷ []

is_stale-append :
    (name : Chars) (bps more : List Breakpoint)
    → is_stale name bps ≡ true
    → is_stale name (bps ++ more) ≡ true
unfolding is_stale
is_stale-append name [] more h = cc
is_stale-append name (bp ∷ bps) more h = ground (arith, is_stale-append name bps more)

abbrev keep_first : Breakpoint → Result Error (List Breakpoint) → Result Error (List Breakpoint)
keep_first bp r = elim r [ ok rest ↦ ok (bp ∷ rest) | err e ↦ err e ]

-- A breakpoint in front carries staleness over.
keep_first-is_stale :
    (name : Chars) (bp : Breakpoint) (bps bps' : List Breakpoint)
    (r : Result Error (List Breakpoint))
    → ((b : List Breakpoint) → r ≡ ok b → is_stale name bps ≡ true → is_stale name b ≡ true)
    → keep_first bp r ≡ ok bps'
    → is_stale name (bp ∷ bps) ≡ true
    → is_stale name bps' ≡ true
unfolding is_stale
keep_first-is_stale name bp bps bps' (ok rest) ih e h = ground (arith, ih rest refl)
keep_first-is_stale name bp bps bps' (err x) ih e h = cc

-- No call changes which module a breakpoint is for, and none makes a deleted one valid.
disable_first-is_stale :
    (name other : Chars) (bps bps' : List Breakpoint)
    → disable_first other bps ≡ ok bps'
    → is_stale name bps ≡ true
    → is_stale name bps' ≡ true
unfolding disable_first is_stale
disable_first-is_stale name other [] bps' e h = cc
disable_first-is_stale name other (bp ∷ bps) bps' e h =
    elim (Bool-cases (chars_eq bp.module_name other)) [
      | inl q ↦ ground (arith, q)
      | inr q ↦
          keep_first-is_stale name bp bps bps' (disable_first other bps)
            (λ b. disable_first-is_stale name other bps b) (rw (q, disable_first) at e) h
    ]

disable_first_makes_stale :
    (name : Chars) (bps bps' : List Breakpoint)
    → disable_first name bps ≡ ok bps'
    → is_tracked name bps ≡ true
    → is_stale name bps' ≡ true
unfolding disable_first is_stale is_tracked
disable_first_makes_stale name [] bps' e h = cc
disable_first_makes_stale name (bp ∷ bps) bps' e h =
    elim (Bool-cases (chars_eq bp.module_name name)) [
      | inl q ↦ ground (arith, q)
      | inr q ↦ elim (Result-cases (disable_first name bps)) [
        | inl (rest, f) ↦ ground (arith, disable_first_makes_stale name bps rest f, q, f)
        | inr (x, f) ↦ ground (arith, q, f)
      ]
    ]

disable_first_stale :
    (name : Chars) (bps : List Breakpoint)
    → is_stale name bps ≡ true
    → disable_first name bps ≡ err runtime_error
unfolding disable_first is_stale
disable_first_stale name [] h = cc
disable_first_stale name (bp ∷ bps) h = ground (arith, disable_first_stale name bps)

after-is_stale :
    (name : Chars) (bps : List Breakpoint) (r : Result Error (List Breakpoint))
    → ((b : List Breakpoint) → r ≡ ok b → is_stale name b ≡ true)
    → is_stale name bps ≡ true
    → is_stale name (after r bps) ≡ true
unfolding after
after-is_stale name bps (ok b) keep h = keep b refl
after-is_stale name bps (err e) keep h = h

do_invoke-is_stale :
    (name : Chars) (argv : List Chars) (bps bps' : List Breakpoint)
    → do_invoke argv bps ≡ ok bps'
    → is_stale name bps ≡ true
    → is_stale name bps' ≡ true
unfolding do_invoke
do_invoke-is_stale name [] bps bps' e h = ground (arith, h, e)
do_invoke-is_stale name (arg ∷ rest) bps bps' e h = elim (Option-cases (split_once b':' arg)) [
  | inl q ↦ ground (arith, q, e)
  | inr (part, q) ↦ ground (
    arith,
    q,
    disable_first-is_stale name part.1 bps bps',
    is_stale-append name bps (break_on_load part.1 ∷ []),
  )
]

run_all-is_stale :
    (name : Chars) (more : List (List Chars)) (bps : List Breakpoint)
    → is_stale name bps ≡ true
    → is_stale name (run_all more bps) ≡ true
unfolding run_all
run_all-is_stale name [] bps h = h
run_all-is_stale name (argv ∷ more) bps h =
    run_all-is_stale name more _ (
      after-is_stale name bps (do_invoke argv bps) (λ b e. do_invoke-is_stale name argv bps b e h)
        h)

do_invoke-disable :
    (name : Chars) (bps : List Breakpoint) → do_invoke (disable name) bps ≡ disable_first name bps
unfolding do_invoke split_once chars_eq
do_invoke-disable name bps = refl

-- Once `ud` has disabled the breakpoint of a module, every later `ud` of that module raises gdb's
-- error for a deleted breakpoint, whatever commands come between, those that load the module again
-- among them: the breakpoint that they set cannot be disabled.
pub disable_again :
    (name : Chars) (bps bps' : List Breakpoint) (between : List (List Chars))
    → is_tracked name bps ≡ true
    → do_invoke (disable name) bps ≡ ok bps'
    → do_invoke (disable name) (run_all between bps') ≡ err runtime_error
disable_again name bps bps' between t e =
    let first : disable_first name bps ≡ ok bps' = cc (do_invoke-disable name bps) in
    do_invoke-disable name (run_all between bps')
    ∙ disable_first_stale name _
        (run_all-is_stale name between bps' (disable_first_makes_stale name bps bps' first t))
