-- ===== src/Remote/Bmp.antt =====
-- archs/arm-blackmagicprobe.py: the command `gef-bmp-remote` and its session manager. What gdb raises on,
-- the expansion of a user's directory and which files are no ELF files are parameters.
pub mod Opened
use gef_extras.Common.{
  Bool, true, false, not, ◌&&◌, List, [], ◌∷◌, ◌++◌, append_assoc, Option, none, some, Chars, codes,
  if◌then◌else◌, ◌≡◌, ◌≢◌, refl, arith,
}
use gef_extras.Remote.{
  Hook, default_hook, remote_hook, State, Step, returned, raised, ◌and_then◌, remove_hook, execute,
  execute_if, try_return, swap_hooks, open_session,
}

pub record Session : Type 0 where
  pub tty : Chars
  pub file : Chars
  pub attach : Chars
  pub scan : Bool
  pub power : Bool
  pub keep_power : Bool

abbrev pub is_empty : Chars → Bool
is_empty [] = true
is_empty (c ∷ s) = false

-- What `do_invoke` returns with.
pub data Answer : Type 0 where
  already_remote missing_parameters missing_target opened : Answer

module _ (raises : List Chars → Chars → Bool) (expanduser : Chars → Chars)
    (no_elf : Chars → Bool) where
  -- `self.__attach or 1`
  abbrev pub attach_target : Chars → Chars
  attach_target [] = codes "1"
  attach_target (c ∷ s) = c ∷ s

  -- The `try` block of `connect`.
  pub attach : Session → State Session → Step Session Unit
  unfolding execute
  attach s st =
      execute_if raises (not (is_empty s.file)) (codes "file " ++ expanduser s.file) st
      and_then λ u st1. execute raises (codes "attach " ++ attach_target s.attach) st1

  -- `connect`
  pub connect : Session → State Session → Step Session Bool
  unfolding attach
  connect s st =
      execute raises (codes "target extended-remote " ++ s.tty) (swap_hooks raises st)
      and_then λ u st1.
          execute_if raises s.power (codes "monitor tpwr enable") st1 and_then λ u st2.
          execute raises (codes "monitor swdp_scan") st2 and_then λ u st3.
          (if s.scan
            then (execute raises (codes "disconnect") st3 and_then λ u st4. returned false st4)
            else try_return raises (attach s st3))

  -- `setup`
  pub setup : Session → State Session → Step Session Bool
  setup s st =
      if not (is_empty s.file) && no_elf (expanduser s.file) then raised st else returned true st

  -- `do_invoke`: of the arguments, `keep_power` is not handed on.
  unfoldable pub do_invoke : Session → State Session → Step Session Answer
  unfolding open_session connect setup
  do_invoke args st = elim st.remote [
    | some session ↦ returned already_remote st
    | none ↦
        if is_empty args.tty
        then returned missing_parameters st
        else if not args.scan && is_empty args.attach
        then returned missing_target st
        else (open_session raises (record args { keep_power = false })
              (connect (record args { keep_power = false }))
              (setup (record args { keep_power = false })) st
            and_then λ u st1. returned opened st1)
  ]

  abbrev pub restored_hooks : List Hook → List Hook
  restored_hooks hooks = hooks ++ default_hook ∷ []

  -- The `try` block of `close`; whatever it raises is caught, so the state is all that is left.
  abbrev caught : Step Session Unit → State Session
  caught (returned u st) = st
  caught (raised st) = st

  -- `close`
  pub close : Session → State Session → State Session
  unfolding remove_hook execute
  close s st = elim (remove_hook remote_hook st.hooks) [
    | none ↦ st
    | some hooks ↦ caught (
        execute_if raises (s.power && not s.keep_power) (codes "monitor tpwr disable")
          (record st { hooks = restored_hooks hooks }))
  ]
