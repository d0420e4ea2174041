-- ===== src/Windbg/Until.antt =====
-- scripts/windbg.py: `windbg_execute_until` and the commands `tc`, `pc`, `tt`, `pt` and `ptc` that
-- trace with it. The debuggee is a parameter: its states, what gdb's commands do to them, and the
-- instruction at the program counter, if there is a program to read it of.
use gef_extras.Common.{
  ℕ, zero, suc, ◌-◌, ◌^◌, ◌<◌, Bool, true, false, ◌||◌, List, [], ◌∷◌, Option, none, some, Chars,
  codes, ◌≡◌, refl, ◌==◌, if◌then◌else◌, ◌⊎◌, arith, Bool-cases, Option-cases, inl, inr,
}
use gef_extras.Common.Strings.{read_int}
use gef_extras.Gef.{Instruction}

-- The debuggee, and gef's setting `context.enable`.
pub record Session (S : Type 0) : Type 0 where
  pub inferior : S
  pub context_enabled : Bool

pub data Outcome (S : Type 0) : Type 0 where
  finished : Session S → Outcome S
  raised : Session S → Outcome S

abbrev pub session : {S : Type 0} → S → Bool → Session S
session s b = record { inferior = s; context_enabled = b }

-- The commands, each with the step that it makes and what it stops at.
pub data Tracer : Type 0 where
  tc pc tt pt ptc : Tracer

-- How often to go through the loop: `while cnt` never ends by a count below zero.
pub data Count : Type 0 where
  times : ℕ → Count
  below_zero : Count

-- How the loop is left: its rounds are used up, at a `break`, or by an exception.
pub data Loop (S : Type 0) : Type 0 where
  used_up broken thrown : Session S → Loop S

-- The rounds that are run; the fuel is for a count below zero.
abbrev pub rounds_of : ℕ → Count → ℕ
rounds_of fuel (times n) = n
rounds_of fuel below_zero = fuel

module _ {S : Type 0} (execute : Chars → S → Bool × S) (current : S → Option Instruction) where
  -- The loop `while cnt`, in as many rounds; `execute` says whether gdb's command raised, and `current`
  -- is none where there is no program any more to read the instruction of.
  pub until : (Instruction → Bool) → Chars → ℕ → Session S → Loop S
  until stop cmd zero st = used_up st
  until stop cmd (suc cnt) st =
      let r = execute cmd st.inferior in
      let more = until stop cmd cnt (session r.1 false) in
      elim r.0 [
        | false ↦ thrown (session r.1 false)
        | true ↦ elim (current r.1) [
          | none ↦ thrown (session r.1 false)
          | some insn ↦ elim (stop insn) [ true ↦ broken (session r.1 false) | false ↦ more ]
        ]
      ]

  -- `gef.config["context.enable"] = True`, which an exception skips. With a count below zero, rounds
  -- that are used up are not the end: the trace is still running, which is none.
  abbrev pub enable_context : Count → Loop S → Option (Outcome S)
  enable_context (times n) (used_up st) = some (finished (session st.inferior true))
  enable_context below_zero (used_up st) = none
  enable_context count (broken st) = some (finished (session st.inferior true))
  enable_context count (thrown st) = some (raised st)

  -- `windbg_execute_until`
  unfoldable pub execute_until :
      ℕ → (Instruction → Bool) → Chars → Count → Session S → Option (Outcome S)
  unfolding until
  execute_until fuel stop cmd count st =
      enable_context count (until stop cmd (rounds_of fuel count) st)

  module _ (stop : Instruction → Bool) (cmd : Chars) where
    -- A step from `s` to `t` that does not raise, and what the program stands at behind it.
    abbrev pub Steps : S → S → Option Instruction → Type 0
    Steps s t insn = (execute cmd s ≡ (true, t)) × (current t ≡ insn)

    -- `n` steps from `s` to `t`, none of which raises or stops the loop.
    pub data Quiet : ℕ → S → S → Type 0 where
      start : {s : S} → Quiet zero s s
      step :
          {n : ℕ} {s t u : S} (insn : Instruction)
          → Steps s t (some insn)
          → stop insn ≡ false
          → Quiet n t u
          → Quiet (suc n) s u

    -- How a trace from `s` ends, if it does.
    pub data Ends (fuel : ℕ) (count : Count) (s : S) : Option (Outcome S) → Type 0 where
      stopped :
          (n : ℕ) (t u : S) (insn : Instruction)
          → n < rounds_of fuel count
          → Quiet n s t
          → Steps t u (some insn)
          → stop insn ≡ true
          → Ends fuel count s (some (finished (session u true)))
      counted :
          (n : ℕ) (t : S)
          → count ≡ times n
          → Quiet n s t
          → Ends fuel count s (some (finished (session t true)))
      failed :
          (n : ℕ) (t u : S)
          → n < rounds_of fuel count
          → Quiet n s t
          → execute cmd t ≡ (false, u)
          → Ends fuel count s (some (raised (session u false)))
      unreadable :
          (n : ℕ) (t u : S)
          → n < rounds_of fuel count
          → Quiet n s t
          → Steps t u none
          → Ends fuel count s (some (raised (session u false)))
      running : (t : S) → count ≡ below_zero → Quiet fuel s t → Ends fuel count s none

    -- How the loop is left.
    data Leaves (rounds : ℕ) (s : S) : Loop S → Type 0 where
      breaks :
          (n : ℕ) (t u : S) (insn : Instruction)
          → n < rounds
          → Quiet n s t
          → Steps t u (some insn)
          → stop insn ≡ true
          → Leaves rounds s (broken (session u false))
      uses_up : (t : S) (b : Bool) → Quiet rounds s t → Leaves rounds s (used_up (session t b))
      throws :
          (n : ℕ) (t u : S)
          → n < rounds
          → Quiet n s t
          → (execute cmd t ≡ (false, u)) ⊎ Steps t u none
          → Leaves rounds s (thrown (session u false))

    later :
        {rounds : ℕ} {s t : S} {l : Loop S} (insn : Instruction)
        → Steps s t (some insn)
        → stop insn ≡ false
        → Leaves rounds t l
        → Leaves (suc rounds) s l
    later i e q (breaks n t u insn h w x y) =
        breaks (suc n) t u insn (omega arith) (step i e q w) x y
    later i e q (uses_up t b w) = uses_up t b (step i e q w)
    later i e q (throws n t u h w x) = throws (suc n) t u (omega arith) (step i e q w) x

    until-Leaves :
        (rounds : ℕ) (st : Session S) → Leaves rounds st.inferior (until stop cmd rounds st)
    unfolding until
    until-Leaves zero st = uses_up st.inferior st.context_enabled start
    until-Leaves (suc rounds) st =
        let s = st.inferior in
        let t = (execute cmd s).1 in
        let rest = until-Leaves rounds (session t false) in
        elim (Bool-cases (execute cmd s).0) [
          | inr e ↦ rw (e, until) (throws zero s t (omega arith) start (inl (λ i. (e i, t))))
          | inl e ↦ elim (Option-cases (current t)) [
            | inl c ↦
                rw (e, until)
                  (rw (c, until) (throws zero s t (omega arith) start (inr (λ i. (e i, t), c))))
            | inr (insn, c) ↦ elim (Bool-cases (stop insn)) [
              | inl q ↦
                  rw (e, until)
                    (rw (c, until)
                      (rw (q, until)
                        (breaks zero s t insn (omega arith) start (λ i. (e i, t), c) q)))
              | inr q ↦
                  rw (e, until)
                    (rw (c, until) (rw (q, until) (later insn (λ i. (e i, t), c) q rest)))
            ]
          ]
        ]

    enable_context-Ends :
        (fuel : ℕ) (count : Count) (s : S) (l : Loop S)
        → Leaves (rounds_of fuel count) s l
        → Ends fuel count s (enable_context count l)
    enable_context-Ends fuel (times k) s _ (breaks n t u insn h w x y) = stopped n t u insn h w x y
    enable_context-Ends fuel below_zero s _ (breaks n t u insn h w x y) = stopped n t u insn h w x y
    enable_context-Ends fuel (times n) s _ (uses_up t b w) = counted n t refl w
    enable_context-Ends fuel below_zero s _ (uses_up t b w) = running t refl w
    enable_context-Ends fuel (times k) s _ (throws n t u h w (inl x)) = failed n t u h w x
    enable_context-Ends fuel (times k) s _ (throws n t u h w (inr x)) = unreadable n t u h w x
    enable_context-Ends fuel below_zero s _ (throws n t u h w (inl x)) = failed n t u h w x
    enable_context-Ends fuel below_zero s _ (throws n t u h w (inr x)) = unreadable n t u h w x

    -- From any state the trace ends in one of four ways: at the first step that reaches a stopping
    -- instruction, with the context enabled; after `n` steps none of which does, for a count of `n` of
    -- zero or more, with the context enabled; at the first command that raises, or at the first step
    -- behind which no instruction can be read, and then the context is left disabled. A trace with a
    -- count below zero may also not have ended after any number of steps, the fuel, none of which raises
    -- or reaches a stopping instruction: it does not end by its count.
    pub execute_until-Ends :
        (fuel : ℕ) (count : Count) (st : Session S)
        → Ends fuel count st.inferior (execute_until fuel stop cmd count st)
    unfolding execute_until
    execute_until-Ends fuel count st =
        enable_context-Ends fuel count st.inferior _ (until-Leaves (rounds_of fuel count) st)

  -- `0xFFFFFFFFFFFFFFFF`, the count of a command with no argument.
  abbrev unlimited : ℕ
  unlimited = 2 ^ 64 - 1

  abbrev tracer_command : Tracer → Chars
  tracer_command tc = codes "stepi"
  tracer_command pc = codes "nexti"
  tracer_command tt = codes "stepi"
  tracer_command pt = codes "nexti"
  tracer_command ptc = codes "nexti"

  abbrev tracer_stop : (Instruction → Bool) → (Instruction → Bool) → Tracer → Instruction → Bool
  tracer_stop is_call is_ret tc insn = is_call insn
  tracer_stop is_call is_ret pc insn = is_call insn
  tracer_stop is_call is_ret tt insn = is_ret insn
  tracer_stop is_call is_ret pt insn = is_ret insn
  tracer_stop is_call is_ret ptc insn = is_ret insn || is_call insn

  -- `int(argv[0]) if len(argv) else ...`, with a sign.
  abbrev count_of : List Chars → Option Count
  count_of [] = some (times unlimited)
  count_of ([] ∷ rest) = none
  count_of ((c ∷ s) ∷ rest) =
      if c == b'-'
      then elim (read_int 10 s) [
        | none ↦ none
        | some n ↦ some (if n == 0 then times 0 else below_zero)
      ]
      else elim (read_int 10 (if c == b'+' then s else c ∷ s)) [
        | none ↦ none
        | some n ↦ some (times n)
      ]

  -- `gdb.execute("context")`, where the trace came to its end.
  pub show_context : Option (Outcome S) → Option (Outcome S)
  show_context none = none
  show_context (some (finished st)) =
      let r = execute (codes "context") st.inferior in
      some (elim r.0 [
        | true ↦ finished (session r.1 st.context_enabled)
        | false ↦ raised (session r.1 st.context_enabled)
      ])
  show_context (some (raised st)) = some (raised st)

  -- `do_invoke` of a tracer; `alive` is what `only_if_gdb_running` asks. It is none where a trace with a
  -- count below zero is still running when the fuel is used up.
  unfoldable pub invoke :
      ℕ
      → (Instruction → Bool)
      → (Instruction → Bool)
      → Bool
      → Tracer
      → List Chars
      → Session S
      → Option (Outcome S)
  unfolding execute_until show_context
  invoke fuel is_call is_ret alive tracer argv st = elim alive [
    | false ↦ some (finished st)
    | true ↦ elim (count_of argv) [
      | none ↦ some (raised st)
      | some count ↦
          show_context (
            execute_until fuel (tracer_stop is_call is_ret tracer) (tracer_command tracer) count st)
    ]
  ]
