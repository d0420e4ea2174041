-- ===== src/Emulate/Script/Loaded.antt =====
-- scripts/emulate/__init__.py: the memory of the emulator behind the statements of the script.
use gef_extras.Common.{
  ℕ, ◌+◌, ◌≤◌, ◌<◌, true, false, List, [], ◌∷◌, ◌++◌, length, get_elem?, All, Option, none, some,
  Chars, codes, if◌then◌else◌, ◌≡◌, refl, ◌≢◌, ◌⊎◌, inl, inr, ap, sym, ◌∙◌, arith, Bool-cases,
  Option-cases,
}
use mathlib.Core.Path.{subst}
use mathlib.Core.List.{append_cancel_left, append_cancel_right}
use gef_extras.Common.Strings.{chars_eq, chars_ne, chars_eq_refl}
use gef_extras.Common.Hex.{format_x}
use gef_extras.Common.Strings.Numbers.{eq_of_format_x}
use gef_extras.Emulate.Script.{
  Section, size, Statement, reg_write, comment, mem_map, mem_write, hook_code, hook_intr,
  hook_syscall, Files, Debuggee, location, section_bytes, is_skipped, map_section, duplicate,
}

-- The emulator, unicorn, whatever its states are: its two functions for memory, and the bytes at its
-- addresses. Mapping a region changes no byte outside it, and writing changes those that it covers.
pub record Unicorn (M : Type 0) : Type 0 where
  pub mem_map : ℕ → ℕ → ℕ → M → M
  pub mem_write : ℕ → List ℕ → M → M
  pub byte : M → ℕ → Option ℕ
  pub map_outside :
      (start n permission : ℕ) (m : M) (a : ℕ)
      → (a < start) ⊎ (start + n ≤ a)
      → byte (mem_map start n permission m) a ≡ byte m a
  pub write_outside :
      (start : ℕ) (bytes : List ℕ) (m : M) (a : ℕ)
      → (a < start) ⊎ (start + length bytes ≤ a)
      → byte (mem_write start bytes m) a ≡ byte m a
  pub write_inside :
      (start : ℕ) (bytes : List ℕ) (m : M) (i : ℕ)
      → i < length bytes
      → byte (mem_write start bytes m) (start + i) ≡ get_elem? bytes i

-- What a file holds: the last time it was written counts.
pub contents : Chars → Files → List ℕ
contents name [] = []
contents name ((other, bytes) ∷ files) =
    let rest = contents name files in if chars_eq name other then bytes else rest

-- The statements for the memory, run one after another.
unfoldable pub emulate : {M : Type 0} → Unicorn M → Files → List Statement → M → M
unfolding contents
emulate uc files [] m = m
emulate uc files (mem_map start n permission ∷ rest) m =
    emulate uc files rest (uc.mem_map start n permission m)
emulate uc files (mem_write start name ∷ rest) m =
    emulate uc files rest (uc.mem_write start (contents name files) m)
emulate uc files (reg_write name value ∷ rest) m = emulate uc files rest m
emulate uc files (comment path start end ∷ rest) m = emulate uc files rest m
emulate uc files (hook_code ∷ rest) m = emulate uc files rest m
emulate uc files (hook_intr ∷ rest) m = emulate uc files rest m
emulate uc files (hook_syscall ∷ rest) m = emulate uc files rest m

-- The arguments of the calls of `mem_map`, in their order.
unfoldable pub map_calls : List Statement → List (ℕ × ℕ × ℕ)
map_calls [] = []
map_calls (mem_map start n permission ∷ rest) = (start, n, permission) ∷ map_calls rest
map_calls (mem_write start name ∷ rest) = map_calls rest
map_calls (reg_write name value ∷ rest) = map_calls rest
map_calls (comment path start end ∷ rest) = map_calls rest
map_calls (hook_code ∷ rest) = map_calls rest
map_calls (hook_intr ∷ rest) = map_calls rest
map_calls (hook_syscall ∷ rest) = map_calls rest

abbrev pub region : Section → ℕ × ℕ × ℕ
region s = (s.page_start, size s, s.permission)

-- The region of a section is not empty, and lies apart from those of the others.
abbrev pub Apart : Section → Section → Type 0
Apart s t = (s.page_end ≤ t.page_start) ⊎ (t.page_end ≤ s.page_start)

abbrev pub AreApart : List Section → Type 0
AreApart [] = Unit
AreApart (s ∷ sections) =
    (s.page_start < s.page_end) × All (λ t. Apart s t) sections × AreApart sections

-- The regions of the sections that are not skipped, with gef's number for their permissions.
abbrev pub mapped : List Section → List (ℕ × ℕ × ℕ)
mapped [] = []
mapped (s ∷ sections) = let rest = mapped sections in if is_skipped s then rest else region s ∷ rest

All-concat {ℓ κ} :
    {A : Type ℓ} (P : A → Type κ) (xs : List A) {x : A} → All P xs → P x → All P (xs ++ x ∷ [])
All-concat P [] h p = (p, tt)
All-concat P (y ∷ xs) (q, h) p = (q, All-concat P xs h p)

module _ (d : Debuggee) where
  -- Reading gives as many bytes as were asked for.
  abbrev pub ReadsAll : Type 0
  ReadsAll = (start n : ℕ) (bytes : List ℕ) → d.read start n ≡ some bytes → length bytes ≡ n

  -- The calls are those for the sections.
  pub map_calls-duplicate :
      (sections : List Section) → map_calls (duplicate d sections).0 ≡ mapped sections
  unfolding map_calls duplicate
  map_calls-duplicate [] = refl
  map_calls-duplicate (s ∷ sections) = elim (Bool-cases (is_skipped s)) [
    | inl e ↦ rw (e, duplicate) (map_calls-duplicate sections)
    | inr e ↦ elim (Option-cases (section_bytes d s)) [
      | inl f ↦ rw (e, f, duplicate) (ap (λ t. region s ∷ t) (map_calls-duplicate sections))
      | inr (bytes, f) ↦
          rw (e, f, duplicate) (ap (λ t. region s ∷ t) (map_calls-duplicate sections))
    ]
  ]

  -- The files hold what was read of the sections.
  abbrev pub Holds : Files → List Section → Type 0
  Holds files [] = Unit
  Holds files (s ∷ sections) =
      ((bytes : List ℕ)
        → is_skipped s ≡ false
        → section_bytes d s ≡ some bytes
        → contents (location d s.page_start) files ≡ bytes)
      × Holds files sections

  contents-append_self :
      (name : Chars) (bytes : List ℕ) (files : Files)
      → All (λ (f : Chars × List ℕ). name ≢ f.0) files
      → contents name (files ++ (name, bytes) ∷ []) ≡ bytes
  unfolding contents
  contents-append_self name bytes [] h = ground (arith, chars_eq_refl name)
  contents-append_self name bytes ((other, _) ∷ files) (n, h) =
      let rest = contents-append_self name bytes files h in
      ground (arith, chars_ne name other n, rest)

  contents-append_other :
      (name other : Chars) (bytes : List ℕ) (files : Files)
      → name ≢ other
      → contents name (files ++ (other, bytes) ∷ []) ≡ contents name files
  unfolding contents
  contents-append_other name other bytes [] n = ground (arith, chars_ne name other n)
  contents-append_other name other bytes ((third, _) ∷ files) n =
      let rest = contents-append_other name other bytes files n in ground (arith, rest)

  location-ne : (a b : ℕ) → a ≢ b → location d a ≢ location d b
  unfolding location
  location-ne a b n h = n (
      eq_of_format_x a b (
        append_cancel_right (format_x a) (format_x b) (codes ".raw") (
          append_cancel_left (codes "-0x") _ _
            (append_cancel_left d.fname _ _ (append_cancel_left (codes "/tmp/gef-") _ _ h)))))

  -- The files of later sections have other names.
  names_differ :
      (start : ℕ) (sections : List Section)
      → All (λ t. start ≢ t.page_start) sections
      → All (λ (f : Chars × List ℕ). location d start ≢ f.0) (duplicate d sections).1
  unfolding duplicate
  names_differ start [] h = tt
  names_differ start (s ∷ sections) (n, h) = elim (Bool-cases (is_skipped s)) [
    | inl e ↦ rw (e, duplicate) (names_differ start sections h)
    | inr e ↦ elim (Option-cases (section_bytes d s)) [
      | inl f ↦ rw (e, f, duplicate) (names_differ start sections h)
      | inr (bytes, f) ↦
          rw (e, f, duplicate)
            (All-concat (λ f. location d start ≢ f.0) (duplicate d sections).1
              (names_differ start sections h) (location-ne start s.page_start n))
    ]
  ]

  Holds-append :
      (files : Files) (start : ℕ) (bytes : List ℕ) (sections : List Section)
      → All (λ t. start ≢ t.page_start) sections
      → Holds files sections
      → Holds (files ++ (location d start, bytes) ∷ []) sections
  Holds-append files start bytes [] n h = tt
  Holds-append files start bytes (s ∷ sections) (n, ns) (h, hs) = (
    λ b e f.
        contents-append_other (location d s.page_start) (location d start) bytes files
          (location-ne s.page_start start (λ q. n (sym q)))
        ∙ h b e f,
    Holds-append files start bytes sections ns hs,
  )

  starts_differ :
      (s : Section) (sections : List Section)
      → s.page_start < s.page_end
      → All (λ t. Apart s t) sections
      → AreApart sections
      → All (λ t. s.page_start ≢ t.page_start) sections
  starts_differ s [] h p q = tt
  starts_differ s (t ∷ sections) h (p, ps) (w, q, qs) =
      (λ e. omega arith, starts_differ s sections h ps qs)

  module _ (s : Section) (sections : List Section) where
    pub duplicate_skipped :
        is_skipped s ≡ true
        → ◌≡◌ {A = List Statement × Files}
            ((duplicate d sections).0, (duplicate d sections).1)
            (duplicate d (s ∷ sections))
    unfolding duplicate
    duplicate_skipped e = ground (arith, e)

    pub duplicate_unread :
        is_skipped s ≡ false
        → section_bytes d s ≡ none
        → ◌≡◌ {A = List Statement × Files}
            (map_section s (duplicate d sections).0, (duplicate d sections).1)
            (duplicate d (s ∷ sections))
    unfolding duplicate
    duplicate_unread e f = ground (arith, e, f)

    pub duplicate_read :
        (bytes : List ℕ)
        → is_skipped s ≡ false
        → section_bytes d s ≡ some bytes
        → ◌≡◌ {A = List Statement × Files}
            (
              map_section s
                  (mem_write s.page_start (location d s.page_start) ∷ (duplicate d sections).0),
              (duplicate d sections).1 ++ (location d s.page_start, bytes) ∷ [],
            )
            (duplicate d (s ∷ sections))
    unfolding duplicate
    duplicate_read bytes e f = ground (arith, e, f)

  pub duplicate-Holds :
      (sections : List Section) → AreApart sections → Holds (duplicate d sections).1 sections
  unfolding duplicate
  duplicate-Holds [] h = tt
  duplicate-Holds (s ∷ sections) (w, p, h) =
      let differ = starts_differ s sections w p h in
      let rest = duplicate-Holds sections h in
      elim (Bool-cases (is_skipped s)) [
        | inl e ↦
            subst (λ files. Holds files (s ∷ sections))
              (ap (λ t. t.1) (duplicate_skipped s sections e))
              (λ b k f. absurd (ground arith), rest)
        | inr e ↦ elim (Option-cases (section_bytes d s)) [
          | inl f ↦
              subst (λ files. Holds files (s ∷ sections))
                (ap (λ t. t.1) (duplicate_unread s sections e f))
                (λ b k g. absurd (ground arith), rest)
          | inr (bytes, f) ↦
              subst (λ files. Holds files (s ∷ sections))
                (ap (λ t. t.1) (duplicate_read s sections bytes e f))
                (
                  λ b k g.
                      contents-append_self (location d s.page_start) bytes (duplicate d sections).1
                        (names_differ s.page_start sections differ)
                      ∙ ground (arith, f, g),
                  Holds-append (duplicate d sections).1 s.page_start bytes sections differ rest,
                )
        ]
      ]
