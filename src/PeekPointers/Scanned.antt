-- ===== src/PeekPointers/Scanned.antt =====
-- scripts/peekpointers.py: what the loop reports, and when it ends.
use gef_extras.Common.{
  ℕ, zero, suc, ◌+◌, ◌≤◌, ◌<◌, Bool, true, false, List, [], ◌∷◌, ◌++◌, map, none, some,
  if◌then◌else◌, ◌≡◌, ◌≢◌, inl, inr, arith, Bool-cases, Option-cases,
}
use mathlib.Core.Path.{subst}
use mathlib.Core.List.{Perm}
use mathlib.Core.List.Perm
use gef_extras.PeekPointers.{
  Section, Debuggee, Found, End, done, out_of_fuel, raised, memory_error, is_in, find_section,
  found_at, look, scan,
}

find_section-Perm :
    (v : ℕ) (sections : List Section) (s : Section) (others : List Section)
    → find_section v sections ≡ some (s, others)
    → Perm (s ∷ others) sections
unfolding find_section
find_section-Perm v [] s others h = cc
find_section-Perm v (t ∷ sections) s others h = elim (Bool-cases (is_in v t)) [
  | inl e ↦
      let same : t ∷ sections ≡ s ∷ others = ground (arith, e, h) in
      rw same (Perm.refl (s ∷ others))
  | inr e ↦ elim (Option-cases (find_section v sections)) [
    | inl f ↦ absurd (ground (arith, e, f, h))
    | inr ((u, rest), f) ↦
        let same : s ∷ others ≡ u ∷ t ∷ rest = ground (arith, e, f, h) in
        rw same
          (Perm.trans (Perm.swap t u rest) (Perm.cons t (find_section-Perm v sections u rest f)))
  ]
]

find_section-is_in :
    (v : ℕ) (sections : List Section) (s : Section) (others : List Section)
    → find_section v sections ≡ some (s, others)
    → is_in v s ≡ true
unfolding find_section
find_section-is_in v [] s others h = cc
find_section-is_in v (t ∷ sections) s others h = elim (Bool-cases (is_in v t)) [
  | inl e ↦ let same : t ≡ s = ground (arith, e, h) in rw (← same) e
  | inr e ↦ elim (Option-cases (find_section v sections)) [
    | inl f ↦ absurd (ground (arith, e, f, h))
    | inr ((u, rest), f) ↦
        let same : u ≡ s = ground (arith, e, f, h) in
        rw (← same) (find_section-is_in v sections u rest f)
  ]
]

module _ (d : Debuggee) where
  look-found :
      (sections : List Section) (v : ℕ) (s : Section) (others : List Section)
      → look d sections v ≡ some (s, others)
      → find_section v sections ≡ some (s, others)
  unfolding look
  look-found sections v s others h = elim (Bool-cases (d.is_known v)) [
    | inl e ↦ rw e at h
    | inr e ↦ absurd (ground (arith, e, h))
  ]

  -- The runs of the loop, by what a round does.
  data Scans (unique : Bool) : ℕ → List Section → ℕ → List Found → End → Type 0 where
    spent :
        {sections : List Section} {address : ℕ}
        → d.is_valid address ≡ true
        → Scans unique 0 sections address [] out_of_fuel
    stops :
        {fuel : ℕ} {sections : List Section} {address : ℕ}
        → d.is_valid address ≡ false
        → Scans unique fuel sections address [] done
    fails :
        {fuel : ℕ} {sections : List Section} {address : ℕ}
        → d.read_integer address ≡ none
        → Scans unique (suc fuel) sections address [] (raised memory_error)
    passes :
        {fuel : ℕ} {sections : List Section} {address : ℕ} {lines : List Found} {end : End}
        → Scans unique fuel sections (address + d.ptrsize) lines end
        → Scans unique (suc fuel) sections address lines end
    reports :
        {fuel : ℕ} {sections : List Section} {address : ℕ} {lines : List Found} {end : End}
        {value : ℕ} {s : Section} {others : List Section}
        → d.is_valid address ≡ true
        → d.read_integer address ≡ some value
        → find_section value sections ≡ some (s, others)
        → Scans unique fuel (if unique then others else sections) (address + d.ptrsize) lines end
        → Scans unique (suc fuel) sections address (found_at d address value s ∷ lines) end

  abbrev Ran : Bool → ℕ → List Section → ℕ → List Found × End → Type 0
  Ran unique fuel sections address (lines, end) = Scans unique fuel sections address lines end

  ran :
      (unique : Bool) (fuel : ℕ) (sections : List Section) (address : ℕ) {r : List Found × End}
      → r ≡ scan d fuel unique sections address
      → Ran unique fuel sections address r
      → Ran unique fuel sections address (scan d fuel unique sections address)
  ran unique fuel sections address e t = subst (Ran unique fuel sections address) e t

  scan-Ran :
      (unique : Bool) (fuel : ℕ) (sections : List Section) (address : ℕ)
      → Ran unique fuel sections address (scan d fuel unique sections address)
  unfolding scan
  scan-Ran unique zero sections address = elim (Bool-cases (d.is_valid address)) [
    | inl e ↦ ran unique zero sections address (ground (arith, e)) (spent e)
    | inr e ↦ ran unique zero sections address (ground (arith, e)) (stops e)
  ]
  scan-Ran unique (suc fuel) sections address = elim (Bool-cases (d.is_valid address)) [
    | inr e ↦ ran unique (suc fuel) sections address (ground (arith, e)) (stops e)
    | inl e ↦ elim (Option-cases (d.read_integer address)) [
      | inl r ↦ ran unique (suc fuel) sections address (ground (arith, e, r)) (fails r)
      | inr (value, r) ↦ elim (Option-cases (look d sections value)) [
        | inl l ↦
            ran unique (suc fuel) sections address (ground (arith, e, r, l))
              (passes (scan-Ran unique fuel sections (address + d.ptrsize)))
        | inr ((s, others), l) ↦ ran unique (suc fuel) sections address (ground (arith, e, r, l)) (
            reports e r (look-found sections value s others l)
              (scan-Ran unique fuel (if unique then others else sections) (address + d.ptrsize)))
      ]
    ]
  ]

  Scans-ends :
      {unique : Bool} {fuel : ℕ} {sections : List Section} {address : ℕ} {lines : List Found}
      {end : End} (bound : ℕ)
      → ((a : ℕ) → d.is_valid a ≡ true → a < bound)
      → 0 < d.ptrsize
      → bound ≤ fuel + address
      → Scans unique fuel sections address lines end
      → end ≢ out_of_fuel
  Scans-ends {address} bound v p f (spent e) = let last = v address e in λ q. omega arith
  Scans-ends bound v p f (stops e) = λ q. cc
  Scans-ends bound v p f (fails r) = λ q. cc
  Scans-ends bound v p f (passes t) = Scans-ends bound v p (omega arith) t
  Scans-ends bound v p f (reports e r l t) = Scans-ends bound v p (omega arith) t

  -- The loop ends: where addresses below `bound` only are valid and a pointer has at least one byte,
  -- as many rounds are enough as there are addresses from the first one on.
  pub scan_ends :
      (fuel bound : ℕ) (unique : Bool) (sections : List Section) (address : ℕ)
      → ((a : ℕ) → d.is_valid a ≡ true → a < bound)
      → 0 < d.ptrsize
      → bound ≤ fuel + address
      → (scan d fuel unique sections address).1 ≢ out_of_fuel
  scan_ends fuel bound unique sections address v p f =
      Scans-ends bound v p f (scan-Ran unique fuel sections address)

  -- A line is about a pointer that stands at its address, into the section that it names.
  abbrev pub IsPointer : Found → Type 0
  IsPointer f =
      (d.is_valid f.address ≡ true)
      × (d.read_integer f.address ≡ some f.value)
      × (f.section.page_start ≤ f.value)
      × (f.value < f.section.page_end)

  -- Lines in the order of their addresses, of which each is at least a pointer behind the one before.
  abbrev pub Rising : ℕ → List Found → Type 0
  Rising address [] = Unit
  Rising address (f ∷ lines) =
      (address ≤ f.address) × IsPointer f × Rising (f.address + d.ptrsize) lines

  Rising-le :
      (low high : ℕ) (lines : List Found) → low ≤ high → Rising high lines → Rising low lines
  Rising-le low high [] h r = tt
  Rising-le low high (f ∷ lines) h (a, p, r) = (omega arith, p, r)

  Scans-Rising :
      {unique : Bool} {fuel : ℕ} {sections : List Section} {address : ℕ} {lines : List Found}
      {end : End}
      → Scans unique fuel sections address lines end
      → Rising address lines
  unfolding found_at
  Scans-Rising (spent e) = tt
  Scans-Rising (stops e) = tt
  Scans-Rising (fails r) = tt
  Scans-Rising {address} {lines} (passes t) =
      Rising-le address (address + d.ptrsize) lines (omega arith) (Scans-Rising t)
  Scans-Rising {sections} (reports {value} {s} {others} e r l t) =
      let inside = find_section-is_in value sections s others l in
      (omega arith, (e, r, ground arith, ground arith), Scans-Rising t)

  abbrev sections_in : List Found → List Section
  sections_in lines = map (λ (f : Found). f.section) lines

  Scans-Perm :
      {fuel : ℕ} {sections : List Section} {address : ℕ} {lines : List Found} {end : End}
      → Scans true fuel sections address lines end
      → (left : List Section) × Perm (sections_in lines ++ left) sections
  unfolding found_at
  Scans-Perm {sections} (spent e) = (sections, Perm.refl sections)
  Scans-Perm {sections} (stops e) = (sections, Perm.refl sections)
  Scans-Perm {sections} (fails r) = (sections, Perm.refl sections)
  Scans-Perm (passes t) = Scans-Perm t
  Scans-Perm {sections} (reports {value} {s} {others} e r l t) =
      let (left, p) = Scans-Perm t in
      (left, Perm.trans (Perm.cons s p) (find_section-Perm value sections s others l))

  -- However the loop ends, its lines stand in the order of their addresses, at least a pointer apart,
  -- and each is about a value that stands at its address and lies in the section of the line. Unless
  -- the argument `all` is given, no section has more lines than it has places in the list of the
  -- sections that were asked for.
  pub scan-reported :
      (fuel : ℕ) (unique : Bool) (sections : List Section) (address : ℕ)
      → Rising address (scan d fuel unique sections address).0
        × ((left : List Section) × Perm
              (map (λ (f : Found). f.section) (scan d fuel true sections address).0 ++ left)
              sections)
  scan-reported fuel unique sections address = (
    Scans-Rising (scan-Ran unique fuel sections address),
    Scans-Perm (scan-Ran true fuel sections address),
  )
