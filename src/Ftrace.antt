-- ===== src/Ftrace.antt =====
-- scripts/ftrace.py: the command `ftrace` and its two kinds of breakpoints. gdb's breakpoints have
-- numbers here, by which the objects that outlive a call are told apart; gef's and gdb's functions are
-- parameters.
pub mod Tracked
pub mod Cleaned
mod Tests
use gef_extras.Common.{
  ℕ, zero, suc, ◌+◌, Bool, true, false, not, ◌&&◌, ◌||◌, List, [], ◌∷◌, ◌++◌, Option, none, some,
  Chars, codes, leb, select, not, ◌==◌, if◌then◌else◌,
}
use gef_extras.Common.Strings.{chars_eq, read_int, split, strip, join}
use gef_extras.Common.Hex.{format_d}

-- `FtraceEnterBreakpoint`, whose attribute `retbp` is in the state. A count below zero tracks as many
-- arguments as zero.
pub record Enter : Type 0 where
  pub number : ℕ
  pub location : Chars
  pub nb_args : ℕ

-- `FtraceExitBreakpoint`: `regs` says which of the dictionaries it was given.
pub record Exit : Type 0 where
  pub number : ℕ
  pub location : Chars
  pub regs : ℕ

abbrev pub Regs : Type 0
Regs = List (Chars × ℕ)

-- `live` has the breakpoints that gdb has not deleted, `next` and `next_dict` the first number and the
-- first dictionary that are not in use, and `hooks` how often `cleanup` is connected to the exit.
pub record State : Type 0 where
  pub bkps : List Enter
  pub retbp : ℕ → Option ℕ
  pub exits : List Exit
  pub live : List ℕ
  pub next : ℕ
  pub dict : ℕ → Regs
  pub next_dict : ℕ
  pub hooks : ℕ
  pub files : Chars → Chars
  pub stderr : Chars

-- A command or a handler comes to its end or raises, where the state is what it has done so far.
pub data Outcome : Type 0 where
  finished : State → Outcome
  raised : State → Outcome

abbrev pub and_then : Outcome → (State → Outcome) → Outcome
and_then (finished st) k = k st
and_then (raised st) k = raised st

abbrev pub set : {A : Type 0} → ℕ → A → (ℕ → A) → ℕ → A
set k v f n = if n == k then v else f n

-- `regs[r] = value` of an ordered dictionary.
unfoldable pub assign : Chars → ℕ → Regs → Regs
unfolding chars_eq
assign r value [] = (r, value) ∷ []
assign r value ((k, v) ∷ regs) =
    if chars_eq k r then (k, value) ∷ regs else (k, v) ∷ assign r value regs

unfoldable pub is_live : ℕ → List ℕ → Bool
is_live n [] = false
is_live n (k ∷ ks) = n == k || is_live n ks

unfoldable pub without : ℕ → List ℕ → List ℕ
without n [] = []
without n (k ∷ ks) = let rest = without n ks in if k == n then rest else k ∷ rest

-- `delete` of a breakpoint raises where gdb has deleted it already.
unfoldable pub delete : ℕ → State → Outcome
unfolding is_live without
delete n st =
    if is_live n st.live then finished (record st { live = without n st.live }) else raised st

-- gdb deletes exit breakpoints by itself, once they were hit or their frame is gone: which it has deleted
-- is up to gdb.
abbrev pub discard : (ℕ → Bool) → State → State
discard gone st = record st { live = select (λ n. not (gone n)) st.live }

-- `FtraceExitBreakpoint(location=self.location, regs=regs)`, kept in `self.retbp`.
unfoldable pub add_exit : Enter → ℕ → State → State
add_exit bp regs st = record st {
  retbp = set bp.number (some st.next) st.retbp;
  exits = record { number = st.next; location = bp.location; regs = regs } ∷ st.exits;
  live = st.next ∷ st.live;
  next = suc st.next;
}

unfoldable pub save_register : ℕ → Chars → ℕ → State → State
unfolding assign
save_register regs r value st = record st {
  dict = set regs (assign r value (st.dict regs)) st.dict;
}

module _ (register : Chars → ℕ) where
  -- The loop over the registers of the parameters, from number `idx` on.
  unfoldable pub save_registers : Enter → ℕ → ℕ → List Chars → State → State
  unfolding add_exit save_register
  save_registers bp regs idx [] st = st
  save_registers bp regs idx (r ∷ params) st =
      let rest =
        save_registers bp regs (suc idx) params
          (add_exit bp regs (save_register regs r (register r) st)) in
      if leb bp.nb_args idx then st else rest

  -- `stop` of an entry breakpoint, where `params` is `gef.arch.function_parameters`.
  unfoldable pub enter : List Chars → Enter → State → State
  unfolding save_registers
  enter params bp st =
      let regs = st.next_dict in
      save_registers bp regs 0 params
        (record st { dict = set regs [] st.dict; next_dict = suc regs })

-- `PLUGIN_FTRACE_DEFAULT_OUTPUT`
abbrev pub default_output : Chars
default_output = codes "/dev/stderr"

-- What gef makes of addresses and colours.
pub record Gef : Type 0 where
  pub format_address : ℕ → Chars
  pub yellowify : Chars → Chars
  pub right_arrow : Chars
  pub dereference_from : ℕ → List Chars

module _ (gef : Gef) where
  unfoldable pub register_lines : Regs → Chars
  register_lines [] = []
  register_lines ((reg, regval) ∷ regs) =
      (b'\t'
        ∷ (reg
            ++ (b' '
                ∷ (gef.right_arrow
                    ++ (b' '
                        ∷ (join gef.right_arrow (gef.dereference_from regval) ++ (b'\n' ∷ [])))))))
      ++ register_lines regs

  -- `return_value` is the absolute value of the one that gdb has read, if any, and `register` what is
  -- in the register for it.
  abbrev retval : Option ℕ → ℕ → Chars
  retval none register = format_d register
  retval (some value) register = if value == 0 then format_d register else gef.format_address value

  abbrev pub shown_location : Chars → Chars → Chars
  shown_location output location =
      if chars_eq default_output output then gef.yellowify location else location

  unfoldable pub report : Chars → Option ℕ → ℕ → Chars → Regs → Chars
  unfolding register_lines
  report output return_value register location regs =
      shown_location output location
      ++ (codes "() = "
          ++ (retval return_value register
              ++ (codes " {\n" ++ (register_lines regs ++ codes "}\n"))))

  -- Opening a file to write it drops what it holds; the standard error is a terminal.
  abbrev pub write : Chars → Chars → State → State
  write output text st =
      if chars_eq default_output output
      then record st { stderr = st.stderr ++ text }
      else record st { files = λ path. if chars_eq path output then text else st.files path }

  -- `stop` of an exit breakpoint.
  unfoldable pub leave : Chars → Option ℕ → ℕ → Exit → State → State
  unfolding report
  leave output return_value register bp st =
      write output (report output return_value register bp.location (st.dict bp.regs)) st

-- `int(nb_args)`
abbrev count_of : Chars → Option ℕ
count_of [] = none
count_of (c ∷ s) =
    if c == b'-'
    then elim (read_int 10 s) [ none ↦ none | some n ↦ some 0 ]
    else read_int 10 (if c == b'+' then s else c ∷ s)

-- `funcname, nb_args = item.split(",")`; none is a `ValueError`.
unfoldable pub read_item : Chars → Option (Chars × ℕ)
read_item item = elim (split b',' item) [
  | [] ↦ none
  | funcname ∷ parts ↦ elim parts [
    | [] ↦ none
    | nb_args ∷ more ↦ elim more [
      | [] ↦ elim (count_of (strip nb_args)) [ none ↦ none | some n ↦ some (funcname, n) ]
      | part ∷ rest ↦ none
    ]
  ]
]

unfoldable pub add_enter : Chars → ℕ → State → State
add_enter funcname nb_args st =
    let bp : Enter = record { number = st.next; location = funcname; nb_args = nb_args } in
    record st {
      bkps = st.bkps ++ (bp ∷ []);
      retbp = set st.next none st.retbp;
      live = st.next ∷ st.live;
      next = suc st.next;
    }

-- The loop over the arguments.
unfoldable pub track : List Chars → State → Outcome
unfolding read_item add_enter
track [] st = finished st
track (item ∷ args) st = elim (read_item item) [
  | none ↦ raised st
  | some (funcname, nb_args) ↦ track args (add_enter funcname nb_args st)
]

abbrev connect : State → Outcome
connect st = finished (record st { hooks = suc st.hooks })

-- `do_invoke`; without arguments the usage is shown.
unfoldable pub do_invoke : List Chars → State → Outcome
unfolding track
do_invoke [] st = finished st
do_invoke (item ∷ args) st = and_then (track (item ∷ args) (record st { bkps = [] })) connect

abbrev delete_exit : Option ℕ → State → Outcome
delete_exit none st = finished st
delete_exit (some n) st = delete n st

unfoldable pub delete_all : List Enter → State → Outcome
unfolding delete
delete_all [] st = finished st
delete_all (bp ∷ bkps) st =
    and_then (delete_exit (st.retbp bp.number) st)
      λ s. and_then (delete bp.number s) λ s'. delete_all bkps s'

abbrev disconnect : State → Outcome
disconnect st = elim st.hooks [
  | zero ↦ raised st
  | suc hooks ↦ finished (record st { hooks = hooks })
]

-- `cleanup`, which is called when the program exits.
unfoldable pub cleanup : State → Outcome
unfolding delete_all
cleanup st = and_then (delete_all st.bkps st) disconnect
