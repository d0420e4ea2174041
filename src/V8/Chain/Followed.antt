-- ===== src/V8/Chain/Followed.antt =====
-- scripts/v8-dereference.py: where a chain of pointers goes, and how long its texts are.
use gef_extras.Common.{
  ℕ, zero, suc, ◌+◌, ◌%◌, ◌/◌, ◌^◌, ◌≤◌, true, false, List, [], ◌∷◌, ◌++◌, map, length, Option,
  some, none, Chars, Result, ok, err, ◌≡◌, refl, ap, arith, Bool-cases, Option-cases, inl, inr, ◌⊎◌,
  ◌==◌, ◌↔◌,
}
use mathlib.Core.Path.{subst}
use gef_extras.V8.{Error, Section, Address, Debuggee, is_compressed, decompressed}
use gef_extras.V8.Isolate.{Cache, get_isolate_root}
use gef_extras.V8.Chain.{
  loop_detected, seen_before, Message, value_text, follow, rounds_of, chain, halves, with_root,
  dereference_from, any_compressed,
}

abbrev pub Among : ℕ → List ℕ → Type 0
Among v [] = ⊥
Among v (s ∷ seen) = (v ≡ s) ⊎ Among v seen

seen_before-Among : (v : ℕ) (seen : List ℕ) → (seen_before v seen ≡ true) ↔ Among v seen
unfolding seen_before
seen_before-Among v [] = (λ h. cc, λ h. absurd h)
seen_before-Among v (s ∷ seen) = let rest = seen_before-Among v seen in ground (arith, rest)

not_seen : (v : ℕ) (seen : List ℕ) → seen_before v seen ≡ false → ¬ Among v seen
not_seen v seen h m = cc ((seen_before-Among v seen).1 m)

-- The last address of a path, and the values of those before it, on top of those seen before.
abbrev pub end_of : Address → List Address → Address
end_of a [] = a
end_of a (b ∷ path) = end_of b path

abbrev pub passed : List ℕ → Address → List Address → List ℕ
passed seen a [] = seen
passed seen a (b ∷ path) = passed (a.value ∷ seen) b path

module _ (d : Debuggee) where
  open d use {lookup_address, dereference, format_address}

  -- The value at one address is a pointer to the next.
  abbrev pub Points : Address → Address → Type 0
  Points a b = (v : ℕ) × (dereference a.value ≡ some v) × (b ≡ lookup_address v) × (b.valid ≡ true)

  -- A path of pointers that passes no address twice.
  abbrev pub Linked : List ℕ → Address → List Address → Type 0
  Linked seen a [] = Unit
  Linked seen a (b ∷ path) = Points a b × ¬ Among a.value seen × Linked (a.value ∷ seen) b path

  -- How a chain ends at an address: `rounds` are left, and `seen` was passed.
  pub data Ends (rounds : ℕ) (seen : List ℕ) (a : Address) : List Chars → Type 0 where
    out_of_rounds : rounds ≡ 0 → Ends rounds seen a []
    no_section : a.section ≡ none → Ends rounds seen a []
    looped : Among a.value seen → Ends rounds seen a (loop_detected ∷ [])
    unreadable : dereference a.value ≡ none → Ends rounds seen a (a.shown ∷ [])
    value :
        (section : Section) (v : ℕ)
        → a.section ≡ some section
        → dereference a.value ≡ some v
        → (lookup_address v).valid ≡ false
        → Ends rounds seen a (value_text d section a v ∷ [])

  -- The texts are those of a path of pointers from `a`, and the end of the chain.
  pub record Trail (rounds : ℕ) (seen : List ℕ) (a : Address) (texts : List Chars) : Type 0 where
    pub path : List Address
    pub last : List Chars
    pub left : ℕ
    pub linked : Linked seen a path
    pub ends : Ends left (passed seen a path) (end_of a path) last
    pub shown : texts ≡ map (λ (b : Address). b.shown) path ++ last
    pub count : length path + left ≡ rounds

  ended :
      {rounds : ℕ} {seen : List ℕ} {a : Address} {last : List Chars}
      → Ends rounds seen a last
      → Trail rounds seen a last
  ended {rounds} {last} e = record {
    path = [];
    last = last;
    left = rounds;
    linked = tt;
    ends = e;
    shown = refl;
    count = omega arith;
  }

  go_on :
      {rounds : ℕ} {seen : List ℕ} {a b : Address} {texts : List Chars}
      → Points a b
      → ¬ Among a.value seen
      → Trail rounds (a.value ∷ seen) b texts
      → Trail (suc rounds) seen a (b.shown ∷ texts)
  go_on {b} p fresh t = record {
    path = b ∷ t.path;
    last = t.last;
    left = t.left;
    linked = (p, fresh, t.linked);
    ends = t.ends;
    shown = ap (λ s. b.shown ∷ s) t.shown;
    count = omega (arith, t.count);
  }

  as_shown :
      {rounds : ℕ} {seen : List ℕ} {a : Address} {texts shown : List Chars}
      → texts ≡ shown
      → Trail rounds seen a texts
      → Trail rounds seen a shown
  as_shown {rounds} {seen} {a} e t = subst (λ s. Trail rounds seen a s) e t

  pub follow-Trail :
      (rounds : ℕ) (seen : List ℕ) (a : Address) → Trail rounds seen a (follow d rounds seen a)
  unfolding follow
  follow-Trail zero seen a = ended (out_of_rounds refl)
  follow-Trail (suc rounds) seen a = elim (Option-cases a.section) [
    | inl e ↦ as_shown (ground (arith, e)) (ended (no_section e))
    | inr (section, e) ↦ elim (Bool-cases (seen_before a.value seen)) [
      | inl s ↦
          as_shown (ground (arith, e, s)) (ended (looped ((seen_before-Among a.value seen).0 s)))
      | inr s ↦ elim (Option-cases (dereference a.value)) [
        | inl r ↦ as_shown (ground (arith, e, s, r)) (ended (unreadable r))
        | inr (v, r) ↦ elim (Bool-cases (lookup_address v).valid) [
          | inl p ↦ as_shown (ground (arith, e, s, r, p)) (
              go_on (v, r, refl, p) (not_seen a.value seen s)
                (follow-Trail rounds (a.value ∷ seen) (lookup_address v)))
          | inr p ↦ as_shown (ground (arith, e, s, r, p)) (ended (value section v e r p))
        ]
      ]
    ]
  ]

  follow_bound :
      (rounds : ℕ) (seen : List ℕ) (a : Address) → length (follow d rounds seen a) ≤ rounds
  unfolding follow
  follow_bound zero seen a = omega arith
  follow_bound (suc rounds) seen a = elim (Option-cases a.section) [
    | inl e ↦ ground (arith, e)
    | inr (section, e) ↦ elim (Option-cases (dereference a.value)) [
      | inl r ↦ ground (arith, e, r)
      | inr (v, r) ↦
          let rest = follow_bound rounds (a.value ∷ seen) (lookup_address v) in
          ground (arith, e, r, rest)
    ]
  ]

  -- The sizes of the two lists of texts.
  abbrev pub Sized : Message → Type 0
  Sized (texts, more) =
      (1 ≤ length texts)
      × (length texts ≤ rounds_of d + 1)
      × ((more ≡ none) ⊎ (more ≡ some []) ⊎ ((a b : Chars) × (more ≡ some (a ∷ b ∷ []))))

  chain-Sized : (a : Address) → Sized (chain d a)
  chain-Sized a = (omega arith, omega (arith, follow_bound (rounds_of d) [] a), inr (inl refl))

  -- The address that a look starts from.
  abbrev pub start : ℕ → Address
  start address = lookup_address (d.align_address address)

  -- Why a look has found no compressed pointers: there is nothing to read or no 64-bit word, or neither
  -- half of the word, added to the root, is a compressed pointer.
  abbrev pub NoneCompressed : Cache → ℕ → Type 0
  NoneCompressed cache address =
      (dereference (start address).value ≡ none)
      ⊎ ((d.ptrsize == 8) ≡ false)
      ⊎ ((word : ℕ) × (root : ℕ) × (dereference (start address).value ≡ some word)
          × ((get_isolate_root d cache).1 ≡ ok (some root))
          × (is_compressed d root (decompressed d root (word % 2 ^ 32)) ≡ false)
          × (is_compressed d root (decompressed d root (word / 2 ^ 32)) ≡ false))

  -- What a look returns: the bare address, a chain, or two halves.
  abbrev Returned : Cache → ℕ → Message → Type 0
  Returned cache address m =
      (m ≡ (format_address address ∷ [], none))
      ⊎ ((m ≡ chain d (start address)) × NoneCompressed cache address)
      ⊎ ((root : ℕ) × (deref : ℕ) × (m ≡ halves d (start address) root deref))

  with_root-Returned :
      (cache : Cache) (address deref : ℕ) (found : Result Error (Option ℕ)) (m : Message)
      → dereference (start address).value ≡ some deref
      → (get_isolate_root d cache).1 ≡ found
      → with_root d (start address) deref found ≡ ok m
      → Returned cache address m
  unfolding with_root
  with_root-Returned cache address deref (err e) m r g h = cc
  with_root-Returned cache address deref (ok none) m r g h = cc
  with_root-Returned cache address deref (ok (some root)) m r g h =
      elim (Bool-cases (any_compressed d root deref)) [
        | inl c ↦ inr (inr (root, deref, ground (arith, c, h)))
        | inr c ↦ inr (
            inl (
              ground (arith, c, h),
              inr (inr (deref, root, r, g, ground (arith, c), ground (arith, c))),
            ))
      ]

  dereference_from-Returned :
      (cache kept : Cache) (address : ℕ) (m : Message)
      → dereference_from d cache address ≡ (kept, ok m)
      → Returned cache address m
  unfolding dereference_from
  dereference_from-Returned cache kept address m h = elim (Bool-cases d.is_alive) [
    | inr a ↦ inl (ground (arith, a, h))
    | inl a ↦ elim (Option-cases (dereference (start address).value)) [
      | inl e ↦ inr (inl (ground (arith, a, e, h), inl e))
      | inr (deref, e) ↦ elim (Bool-cases (d.ptrsize == 8)) [
        | inr p ↦ inr (inl (ground (arith, a, e, p, h), inr (inl p)))
        | inl p ↦
            with_root-Returned cache address deref (get_isolate_root d cache).1 m e refl
              (ground (arith, a, e, p, h))
      ]
    ]
  ]

  -- Whatever a look at an address of the debuggee returns, the first list of texts has at least one
  -- and at most one more than the setting for the recursion, ten where the setting is zero; the
  -- second is missing, empty, or has two.
  pub dereference_from-Sized :
      (cache kept : Cache) (address : ℕ) (m : Message)
      → dereference_from d cache address ≡ (kept, ok m)
      → Sized m
  dereference_from-Sized cache kept address m h =
      elim (dereference_from-Returned cache kept address m h) [
        | inl e ↦ rw e (omega arith, ground arith, inl refl)
        | inr (inl (e, _)) ↦ rw e (chain-Sized (start address))
        | inr (inr (root, deref, e)) ↦ rw e (omega arith, ground arith, inr (inr (_, _, refl)))
      ]

  -- Where a look returns an empty second list, it has found no compressed pointers: the address cannot
  -- be read, the pointers do not have 64 bits, or neither half of the word at it is one for the root
  -- that get_isolate_root gives. The first list is the address and then the chain of pointers from it. The chain passes no address twice and shows
  -- each address that it comes to. It ends where the rounds are used up, at an address in no section,
  -- at one that it has passed before, which is reported as a loop, at one that cannot be read, or at
  -- a value that is no pointer.
  pub dereference_from-Trail :
      (cache kept : Cache) (address : ℕ) (texts : List Chars)
      → dereference_from d cache address ≡ (kept, ok (texts, some []))
      → (rest : List Chars) × (texts ≡ format_address (start address).value ∷ rest)
        × Trail (rounds_of d) [] (start address) rest
        × NoneCompressed cache address
  dereference_from-Trail cache kept address texts h =
      elim (dereference_from-Returned cache kept address (texts, some []) h) [
        | inl e ↦ absurd (ground (arith, e))
        | inr (inl (e, c)) ↦
            (_, ground (arith, e), follow-Trail (rounds_of d) [] (start address), c)
        | inr (inr (root, deref, e)) ↦ absurd (ground (arith, e))
      ]
