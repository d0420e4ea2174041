-- ===== src/Remote/OpenOcd.antt =====
-- archs/arm-openocd.py: the command `gef-openocd-remote` and its session manager.
use gef_extras.Common.{
  ℕ, Bool, true, false, not, ◌&&◌, ◌||◌, List, [], ◌∷◌, ◌++◌, none, some, Chars, codes,
  if◌then◌else◌, ◌==◌, ◌≡◌, arith, ◌⊎◌,
}
use gef_extras.Common.Hex.{format_d}
use gef_extras.Remote.{
  default_hook, remote_hook, State, Step, returned, raised, ◌and_then◌, remove_hook, execute,
  execute_if, try_return, swap_hooks, open_session,
}
use gef_extras.Remote.Bmp.{is_empty}

pub record Session : Type 0 where
  pub host : Chars
  pub port : ℕ
  pub file : Chars

pub data Answer : Type 0 where
  already_remote missing_parameters opened : Answer

-- `target`
abbrev pub target : Session → Chars
target s = s.host ++ (b':' ∷ format_d s.port)

module _ (raises : List Chars → Chars → Bool) (expanduser : Chars → Chars)
    (no_elf : Chars → Bool) where
  abbrev quoted_file : Session → Chars
  quoted_file s = codes "file '" ++ (expanduser s.file ++ codes "'")

  -- `connect`
  pub connect : Session → State Session → Step Session Bool
  unfolding execute
  connect s st =
      execute raises (codes "target extended-remote " ++ target s) (swap_hooks raises st)
      and_then λ u st1.
          try_return raises (execute_if raises (not (is_empty s.file)) (quoted_file s) st1)

  -- `setup`
  pub setup : Session → State Session → Step Session Bool
  setup s st =
      if not (is_empty s.file) && no_elf (expanduser s.file) then raised st else returned true st

  -- `do_invoke`
  unfoldable pub do_invoke : Session → State Session → Step Session Answer
  unfolding open_session connect setup
  do_invoke args st = elim st.remote [
    | some session ↦ returned already_remote st
    | none ↦
        if is_empty args.host || args.port == 0
        then returned missing_parameters st
        else (open_session raises args (connect args) (setup args) st and_then λ u st1.
            returned opened st1)
  ]

  -- `close`
  pub close : Session → State Session → State Session
  unfolding remove_hook
  close s st = elim (remove_hook remote_hook st.hooks) [
    | none ↦ st
    | some hooks ↦ record st { hooks = hooks ++ default_hook ∷ [] }
  ]

  -- Where there was no session and gef's own handler was the only one: when `gef-openocd-remote`
  -- returns, there is no session, or that of the arguments, and then gef is not initializing one any
  -- more, and closing it puts gef's handler back.
  pub open_ocd_returned :
      (args s : Session) (st st' : State Session) (a : Answer)
      → st.remote ≡ none
      → st.hooks ≡ default_hook ∷ []
      → do_invoke args st ≡ returned a st'
      → st'.remote ≡ some s
      → (s ≡ args) × (st'.remote_initializing ≡ false) × ((close s st').hooks ≡ st.hooks)
  unfolding do_invoke open_session connect setup execute remove_hook close
  open_ocd_returned args s st st' a n d h e =
      (ground (arith, n, h, e), ground (arith, n, h, e), ground (arith, n, d, h, e))

  -- Where there was no session and gef's own handler was the only one, and `gef-openocd-remote`
  -- raises: gef is left initializing with no session and the session's handler, or the session was
  -- opened and only `context` raised.
  pub open_ocd_raised :
      (args : Session) (st st' : State Session)
      → st.remote ≡ none
      → st.hooks ≡ default_hook ∷ []
      → do_invoke args st ≡ raised st'
      → (st'.hooks ≡ remote_hook ∷ [])
        × (((st'.remote_initializing ≡ true) × (st'.remote ≡ none))
            ⊎ ((st'.remote_initializing ≡ false) × (st'.remote ≡ some args)))
  unfolding do_invoke open_session connect setup execute remove_hook
  open_ocd_raised args st st' n d h = (ground (arith, n, d, h), ground (arith, n, d, h))
