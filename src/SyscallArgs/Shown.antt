-- ===== src/SyscallArgs/Shown.antt =====
-- scripts/syscall_args/__init__.py: which call is shown, and with which values.
use gef_extras.Common.{
  ℕ, zero, suc, ◌<◌, Bool-cases, true, false, List, [], ◌∷◌, ◌++◌, map, Option, some, Chars, codes,
  ok, ◌≡◌, refl, ap, arith, Option-cases, inl, inr, ◌⊎◌,
}
use gef_extras.SyscallArgs.{
  Param, Entry, Table, entry_of, Debuggee, shown, call_number, line, zip_lines, show_entry,
  do_invoke, param_name, strip_dollars,
}

module _ (d : Debuggee) where
  -- The line of a parameter, with the value of its register.
  abbrev pub param_line : Param → Chars
  param_line p = line d (param_name p.param) p.reg (d.register p.reg)

  zip_lines-map :
      (params : List Param)
      → zip_lines d
          (map param_name (map (λ (p : Param). p.param) params))
          (map (λ (p : Param). p.reg) params)
          (map (λ (p : Param). d.register p.reg) params)
        ≡ map param_line params
  unfolding zip_lines
  zip_lines-map [] = refl
  zip_lines-map (p ∷ params) = ap (λ t. param_line p ∷ t) (zip_lines-map params)

  -- Where the number of the call is read.
  abbrev pub IsNumber : ℕ → Type 0
  IsNumber n =
      ((d.is_syscall d.pc ≡ true) × (n ≡ d.register d.syscall_register))
      ⊎ ((d.is_syscall d.pc ≡ false)
          × (p : ℕ) × (d.previous ≡ some p)
          × (0 < p)
          × (d.is_syscall p ≡ true)
          × (n ≡ d.register (codes "$orig_" ++ strip_dollars d.syscall_register)))

  call_number-IsNumber : (n : ℕ) → call_number d ≡ some n → IsNumber n
  unfolding call_number
  call_number-IsNumber n h = elim (Bool-cases (d.is_syscall d.pc)) [
    | inl e ↦ inl (e, ground (arith, e, h))
    | inr e ↦ elim (Option-cases d.previous) [
      | inl f ↦ absurd (ground (arith, e, f, h))
      | inr (zero, f) ↦ absurd (ground (arith, e, f, h))
      | inr (suc p, f) ↦ elim (Bool-cases (d.is_syscall (suc p))) [
        | inr g ↦ absurd (ground (arith, e, f, g, h))
        | inl g ↦ inr (e, suc p, f, omega arith, g, ground (arith, e, f, g, h))
      ]
    ]
  ]

  shown_entry :
      (entry : Entry) (name : Chars) (parameters lines : List Chars)
      → show_entry d entry ≡ shown name parameters lines
      → (name ≡ entry.name)
        × (parameters ≡ map (λ (p : Param). p.param) entry.params)
        × (lines ≡ map param_line entry.params)
  unfolding show_entry
  shown_entry entry name parameters lines h =
      let same = zip_lines-map entry.params in
      (ground (arith, h), ground (arith, h), ground (arith, h, same))

  -- With a register and a table.
  shown_parts :
      (c : ℕ) (s : Chars) (entries : Table) (name : Chars) (parameters lines : List Chars)
      → d.syscall_register ≡ c ∷ s
      → do_invoke d (some entries) ≡ ok (shown name parameters lines)
      → (n : ℕ) × (entry : Entry) × (call_number d ≡ some n)
        × (entry_of n entries ≡ some entry)
        × (show_entry d entry ≡ shown name parameters lines)
  unfolding do_invoke
  shown_parts c s entries name parameters lines r h = elim (Option-cases (call_number d)) [
    | inl e ↦ absurd (ground (arith, r, e, h))
    | inr (n, e) ↦ elim (Option-cases (entry_of n entries)) [
      | inl f ↦ absurd (ground (arith, r, e, f, h))
      | inr (entry, f) ↦ (n, entry, e, f, ground (arith, r, e, f, h))
    ]
  ]

  register_cases : (s : Chars) → (s ≡ []) ⊎ ((c : ℕ) × (t : Chars) × (s ≡ c ∷ t))
  register_cases [] = inl refl
  register_cases (c ∷ t) = inr (c, t, refl)

  nothing_shown :
      (table : Option Table) (name : Chars) (parameters lines : List Chars)
      → do_invoke d table ≡ ok (shown name parameters lines)
      → (c : ℕ) × (s : Chars) × (entries : Table) × (d.syscall_register ≡ c ∷ s)
        × (table ≡ some entries)
  unfolding do_invoke
  nothing_shown table name parameters lines h = elim (register_cases d.syscall_register) [
    | inl e ↦ absurd (ground (arith, e, h))
    | inr (c, s, e) ↦ elim (Option-cases table) [
      | inl f ↦ absurd (ground (arith, e, f, h))
      | inr (entries, f) ↦ (c, s, entries, e, f)
    ]
  ]

  -- When `syscall-args` shows a call, its entry is that of the table under a number. It is the number
  -- in the register for system calls where the program stands before a system call; elsewhere the
  -- previous instruction is one, at an address other than zero, and it is the number in the saved
  -- register. Each parameter of the entry has its line, in their order, with the value that its register has now.
  pub do_invoke-shown :
      (table : Option Table) (name : Chars) (parameters lines : List Chars)
      → do_invoke d table ≡ ok (shown name parameters lines)
      → (entries : Table) × (n : ℕ) × (entry : Entry) × (table ≡ some entries)
        × (entry_of n entries ≡ some entry)
        × (name ≡ entry.name)
        × (lines ≡ map param_line entry.params)
        × IsNumber n
  do_invoke-shown table name parameters lines h =
      let (c, s, entries, r, t) = nothing_shown table name parameters lines h in
      let (n, entry, e, f, g) = shown_parts c s entries name parameters lines r (rw t at h) in
      let (a, b, k) = shown_entry entry name parameters lines g in
      (entries, n, entry, t, f, a, k, call_number-IsNumber n e)
