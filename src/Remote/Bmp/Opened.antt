-- ===== src/Remote/Bmp/Opened.antt =====
-- archs/arm-blackmagicprobe.py: the session state and the hooks behind `gef-bmp-remote`.
use gef_extras.Common.{
  Bool, true, false, not, List, [], ◌∷◌, ◌++◌, append-nil, none, some, Chars, codes, ◌≡◌, refl, ap,
  ◌∙◌, arith, inl, inr, ◌⊎◌,
}
use gef_extras.Remote.{
  default_hook, remote_hook, State, Step, returned, raised, remove_hook, execute, swap_hooks,
  open_session,
}
use gef_extras.Remote.Bmp.{
  Session, Answer, is_empty, connect, setup, do_invoke, close, attach, attach_target,
}

module _ (raises : List Chars → Chars → Bool) (expanduser : Chars → Chars)
    (no_elf : Chars → Bool) where
  Step-cases :
      {B : Type 0} (r : Step Session B)
      → ((b : B) × (st : State Session) × (r ≡ returned b st))
        ⊎ ((st : State Session) × (r ≡ raised st))
  Step-cases (returned b st) = inl (b, st, refl)
  Step-cases (raised st) = inr (st, refl)

  abbrev pub only_if : Bool → Chars → List Chars
  only_if true cmd = cmd ∷ []
  only_if false cmd = []

  -- The commands of a connection that attaches.
  abbrev pub script : Session → List Chars
  script s =
      (codes "target extended-remote " ++ s.tty)
      ∷ (only_if s.power (codes "monitor tpwr enable")
          ++ (codes "monitor swdp_scan"
              ∷ (only_if (not (is_empty s.file)) (codes "file " ++ expanduser s.file)
                  ++ (codes "attach " ++ attach_target raises expanduser no_elf s.attach) ∷ [])))

  abbrev pub appended : List Chars → List Chars → List Chars
  appended cmds [] = cmds
  appended cmds (cmd ∷ more) = appended (cmds ++ cmd ∷ []) more

  appended-append :
      (cmds more : List Chars) (cmd : Chars)
      → appended cmds (more ++ cmd ∷ []) ≡ appended cmds more ++ cmd ∷ []
  appended-append cmds [] cmd = refl
  appended-append cmds (x ∷ more) cmd = appended-append (cmds ++ x ∷ []) more cmd

  connect-true :
      (s : Session) (st st' : State Session)
      → connect raises expanduser no_elf s st ≡ returned true st'
      → (s.scan ≡ false)
        × (st' ≡ record (swap_hooks raises st) { commands = appended st.commands (script s) })
  unfolding connect attach execute
  connect-true s st st' h = ground arith

  -- The manager that `do_invoke` makes of its arguments.
  abbrev pub manager : Session → Session
  manager args = record args { keep_power = false }

  abbrev initializing : State Session → State Session
  initializing st = record st { remote_initializing = true }

  opened_parts :
      (args : Session) (st st' : State Session) (a : Answer) (s : Session)
      → do_invoke raises expanduser no_elf args st ≡ returned a st'
      → st.remote ≡ none
      → st'.remote ≡ some s
      → (st1 : State Session) × (connect raises expanduser no_elf (manager args) (initializing st)
          ≡ returned true st1)
        × (s ≡ manager args)
        × (st' ≡ record st1 {
          remote_initializing = false;
          remote = some s;
          commands = st1.commands ++ codes "context" ∷ [];
        })
  unfolding do_invoke open_session execute setup
  opened_parts args st st' a s h n e =
      elim (Step-cases (connect raises expanduser no_elf (manager args) (initializing st))) [
        | inr (st1, f) ↦ ground (arith, f, h, n, e)
        | inl (true, st1, f) ↦ (st1, f, ground (arith, f, h, n, e), ground (arith, f, h, n, e))
        | inl (false, st1, f) ↦ ground (arith, f, h, n, e)
      ]

  -- When `gef-bmp-remote` opens a session where there was none, it attaches and does not only scan,
  -- the session is that of the arguments without `keep_power`, gdb was given exactly the commands of
  -- the connection and `context`, and the initialization is over.
  pub do_invoke_opened :
      (args : Session) (st st' : State Session) (a : Answer) (s : Session)
      → do_invoke raises expanduser no_elf args st ≡ returned a st'
      → st.remote ≡ none
      → st'.remote ≡ some s
      → (args.scan ≡ false)
        × (s ≡ manager args)
        × (st'.commands ≡ appended st.commands (script args ++ codes "context" ∷ []))
        × (st'.remote_initializing ≡ false)
  do_invoke_opened args st st' a s h n e =
      let (st1, f, m, k) = opened_parts args st st' a s h n e in
      let (b, c) = connect-true (manager args) (initializing st) st1 f in
      (
        b,
        m,
        cc (
          ap (λ t. t.commands) k,
          ap (λ t. t.commands) c,
          appended-append st.commands (script args) (codes "context"),
        ),
        cc (ap (λ t. t.remote_initializing) k),
      )

  hooks-opened :
      (args : Session) (st st' : State Session) (a : Answer) (s : Session)
      → do_invoke raises expanduser no_elf args st ≡ returned a st'
      → st.remote ≡ none
      → st'.remote ≡ some s
      → st'.hooks ≡ (swap_hooks raises (initializing st)).hooks
  hooks-opened args st st' a s h n e =
      let (st1, f, m, k) = opened_parts args st st' a s h n e in
      let (b, c) = connect-true (manager args) (initializing st) st1 f in
      cc (ap (λ t. t.hooks) k, ap (λ t. t.hooks) c)

  swapped_one :
      (st : State Session)
      → st.hooks ≡ default_hook ∷ []
      → (swap_hooks raises st).hooks ≡ remote_hook ∷ []
  unfolding remove_hook
  swapped_one st h = ground (arith, h)

  closed :
      (s : Session) (st : State Session)
      → st.hooks ≡ remote_hook ∷ []
      → s.keep_power ≡ false
      → ((close raises expanduser no_elf s st).hooks ≡ default_hook ∷ [])
        × ((close raises expanduser no_elf s st).commands
            ≡ st.commands ++ only_if s.power (codes "monitor tpwr disable"))
  unfolding close execute remove_hook
  closed s st h k = (ground (arith, h, k), ground (arith, h, k, append-nil st.commands))

  -- Closing a session that `gef-bmp-remote` opened puts gef's own handler back in place of the
  -- session's, and switches the power off when it was switched on, even if the arguments ask to keep
  -- it.
  pub close-do_invoke :
      (args : Session) (st st' : State Session) (a : Answer) (s : Session)
      → do_invoke raises expanduser no_elf args st ≡ returned a st'
      → st.remote ≡ none
      → st'.remote ≡ some s
      → st.hooks ≡ default_hook ∷ []
      → ((close raises expanduser no_elf s st').hooks ≡ st.hooks)
        × ((close raises expanduser no_elf s st').commands
            ≡ st'.commands ++ only_if args.power (codes "monitor tpwr disable"))
  close-do_invoke args st st' a s h n e d =
      let m = (opened_parts args st st' a s h n e).2 in
      let swapped : st'.hooks ≡ remote_hook ∷ [] =
        hooks-opened args st st' a s h n e ∙ swapped_one (initializing st) d in
      let (hooks, commands) = closed s st' swapped (cc (ap (λ t. t.keep_power) m)) in
      (cc, cc (ap (λ t. t.power) m))

  -- When `gef-bmp-remote` raises, the session is left initializing and without a manager, or it was
  -- opened and only `context` raised.
  pub do_invoke_raised :
      (args : Session) (st st' : State Session)
      → do_invoke raises expanduser no_elf args st ≡ raised st'
      → (st.remote ≡ none)
        × (((st'.remote_initializing ≡ true) × (st'.remote ≡ none))
            ⊎ (st'.remote ≡ some (manager args)))
  unfolding do_invoke open_session execute setup connect attach
  do_invoke_raised args st st' h = (ground (arith, h), ground (arith, h))
