-- ===== src/Remote.antt =====
-- What archs/arm-blackmagicprobe.py and archs/arm-openocd.py share: gef's session state, the hooks for new
-- object files, the commands that gdb was given, and code that may raise.
pub mod Bmp
pub mod OpenOcd
mod Tests
use gef_extras.Common.{
  Bool, true, false, List, [], ◌∷◌, ◌++◌, Option, none, some, Chars, codes, if◌then◌else◌, ◌&&◌,
}
use gef_extras.Common.Strings.{contains, ends_with}

-- The handlers for new object files: `new_objfile_handler` of gef and that of a remote session.
pub data Hook : Type 0 where
  default_hook remote_hook : Hook

-- `supports_gdb_arch`, which stands in both files: `none` leaves the decision to others.
pub supports_gdb_arch : Chars → Option Bool
unfolding contains ends_with
supports_gdb_arch arch =
    if contains arch (codes "arm") && ends_with arch (codes "-m") then some true else none

-- `A` is the type of the session manager.
pub record State (A : Type 0) : Type 0 where
  pub remote : Option A
  pub remote_initializing : Bool
  pub hooks : List Hook
  pub commands : List Chars

pub data Step (A B : Type 0) : Type 0 where
  returned : B → State A → Step A B
  raised : State A → Step A B

infixl 5 ◌and_then◌
abbrev pub ◌and_then◌ : {A B C : Type 0} → Step A B → (B → State A → Step A C) → Step A C
(returned b st) and_then f = f b st
(raised st) and_then f = raised st

abbrev pub same_hook : Hook → Hook → Bool
same_hook default_hook default_hook = true
same_hook default_hook remote_hook = false
same_hook remote_hook default_hook = false
same_hook remote_hook remote_hook = true

-- The list without the first such hook; `none` if there is none, where gdb raises a `SystemError`.
unfoldable pub remove_hook : Hook → List Hook → Option (List Hook)
remove_hook hook [] = none
remove_hook hook (h ∷ hooks) =
    let rest = remove_hook hook hooks in
    if same_hook h hook then some hooks else elim rest [ none ↦ none | some more ↦ some (h ∷ more) ]

-- `raises` says of a command, given those before it, whether gdb raises an error.
module _ {A : Type 0} (raises : List Chars → Chars → Bool) where
  abbrev pub sent : Chars → State A → State A
  sent cmd st = record st { commands = st.commands ++ cmd ∷ [] }

  -- `_gdb_execute`
  pub execute : Chars → State A → Step A Unit
  execute cmd st =
      if raises st.commands cmd then raised (sent cmd st) else returned tt (sent cmd st)

  -- What runs only under a condition.
  abbrev pub execute_if : Bool → Chars → State A → Step A Unit
  execute_if true cmd st = execute cmd st
  execute_if false cmd st = returned tt st

  -- A `try` block whose exception makes the method return `False`.
  abbrev pub try_return : Step A Unit → Step A Bool
  try_return (returned u st) = returned true st
  try_return (raised st) = returned false st

  -- The hooks of `connect`: gef's is taken off, if it is there, and the session's put on.
  abbrev pub swap_hooks : State A → State A
  swap_hooks st = elim (remove_hook default_hook st.hooks) [
    | none ↦ record st { hooks = st.hooks ++ remote_hook ∷ [] }
    | some hooks ↦ record st { hooks = hooks ++ remote_hook ∷ [] }
  ]

  -- The part of `do_invoke` behind the checks of the arguments. `setup` returns true or raises.
  pub open_session : A → (State A → Step A Bool) → (State A → Step A Bool) → State A → Step A Unit
  unfolding execute
  open_session session connect setup st =
      connect (record st { remote_initializing = true }) and_then λ connected st1.
      (if connected
        then (setup st1 and_then λ ready st2.
            (if ready
              then execute (codes "context")
                  (record st2 { remote_initializing = false; remote = some session })
              else raised (record st2 { remote = none; remote_initializing = false })))
        else returned tt (record st1 { remote = none; remote_initializing = false }))
