-- ===== src/Assemble/Target.antt =====
-- scripts/assemble.py: the table of architectures, and how `do_invoke` of `assemble` settles on the
-- target. `constant` looks up an attribute of the keystone module.
use gef_extras.Common.{
  ℕ, Bool, true, false, not, ◌&&◌, ◌||◌, List, [], ◌∷◌, ◌++◌, Option, none, some, Chars, codes,
  Result, ok, err, ◌>>=◌, if◌then◌else◌, ◌≡◌, ◌≢◌, refl, arith, Option-cases, inl, inr, bind_ok,
}
use gef_extras.Common.Strings.{chars_eq, to_upper}

-- A mode: its name, and whether it has little and big endian variants.
pub record Mode : Type 0 where
  pub name : Chars
  pub little : Bool
  pub big : Bool

abbrev mode : Chars → Bool → Bool → Mode
mode name little big = record { name = name; little = little; big = big }

-- `VALID_ARCH_MODES`
abbrev pub valid_arch_modes : List (Chars × List Mode)
valid_arch_modes =
    (
      codes "ARM",
      mode (codes "ARM") true true
          ∷ mode (codes "THUMB") true true
          ∷ mode (codes "ARMV8") true true
          ∷ mode (codes "THUMBV8") true true
          ∷ [],
    )
    ∷ (codes "ARM64", mode (codes "0") true false ∷ [])
    ∷ (codes "MIPS", mode (codes "MIPS32") true true ∷ mode (codes "MIPS64") true true ∷ [])
    ∷ (codes "PPC", mode (codes "PPC32") false true ∷ mode (codes "PPC64") true true ∷ [])
    ∷ (codes "SPARC", mode (codes "SPARC32") true true ∷ mode (codes "SPARC64") false true ∷ [])
    ∷ (codes "SYSTEMZ", mode (codes "SYSTEMZ") true true ∷ [])
    ∷ (
      codes "X86",
      mode (codes "16") true false
          ∷ mode (codes "32") true false
          ∷ mode (codes "64") true false
          ∷ [],
    )
    ∷ []

unfoldable pub modes_of : Chars → List (Chars × List Mode) → Option (List Mode)
modes_of arch [] = none
modes_of arch ((name, modes) ∷ more) = if chars_eq name arch then some modes else modes_of arch more

-- `[m[0] for m in valid_modes].index(mode_s)`, and the entry there.
unfoldable pub find_mode : Chars → List Mode → Option Mode
find_mode name [] = none
find_mode name (m ∷ ms) = if chars_eq m.name name then some m else find_mode name ms

-- The texts that name a target.
pub record Names : Type 0 where
  pub arch : Chars
  pub mode : Chars
  pub endian : Chars

abbrev override : Chars → Chars → Chars
override [] old = old
override (c ∷ s) old = c ∷ s

-- The defaults of the settings, what the debuggee is if it is alive, and the options given.
pub choose : Names → Option Names → Names → Names
choose defaults alive args =
    let base : Names = elim alive [ none ↦ defaults | some names ↦ names ] in
    record {
      arch = to_upper (override args.arch base.arch);
      mode = to_upper (override args.mode base.mode);
      endian = to_upper (override args.endian base.endian);
    }

pub data Error : Type 0 where
  invalid_arch invalid_mode invalid_endianness no_attribute ks_error bad_address : Error

-- The three checks.
pub check_names : Names → Result Error Mode
unfolding modes_of find_mode
check_names names = elim (modes_of names.arch valid_arch_modes) [
  | none ↦ err invalid_arch
  | some modes ↦ elim (find_mode names.mode modes) [
    | none ↦ err invalid_mode
    | some m ↦
        if (chars_eq names.endian (codes "little") && not m.little)
          || (chars_eq names.endian (codes "big") && not m.big)
        then err invalid_endianness
        else ok m
  ]
]

-- Keystone's numbers for a target.
pub record Target : Type 0 where
  pub arch : ℕ
  pub mode : ℕ
  pub endian : ℕ

module _ (constant : Chars → Option ℕ) where
  pub getattr : Chars → Result Error ℕ
  getattr name = elim (constant name) [ none ↦ err no_attribute | some v ↦ ok v ]

  -- `ks_arch`, `ks_mode` with its fixup for "ARM64", and `ks_endian`.
  pub to_keystone : Names → Result Error Target
  unfolding getattr
  to_keystone names = do
    arch ← getattr (codes "KS_ARCH_" ++ names.arch)
    mode ←
        (if chars_eq names.arch (codes "ARM64") && chars_eq names.mode (codes "0")
          then ok 0
          else getattr (codes "KS_MODE_" ++ names.mode))
    endian ← getattr (codes "KS_MODE_" ++ (names.endian ++ codes "_ENDIAN"))
    ok (record { arch = arch; mode = mode; endian = endian })

  unfoldable pub resolve : Names → Option Names → Names → Result Error Target
  unfolding choose check_names to_keystone
  resolve defaults alive args = do
    m ← check_names (choose defaults alive args)
    to_keystone (choose defaults alive args)

-- No upper-case text is "little" or "big".
to_upper-ne-little : (s : Chars) → chars_eq (to_upper s) (codes "little") ≡ false
unfolding chars_eq to_upper
to_upper-ne-little [] = refl
to_upper-ne-little (c ∷ s) = ground arith

to_upper-ne-big : (s : Chars) → chars_eq (to_upper s) (codes "big") ≡ false
unfolding chars_eq to_upper
to_upper-ne-big [] = refl
to_upper-ne-big (c ∷ s) = ground arith

check_upper :
    (names : Names)
    → chars_eq names.endian (codes "little") ≡ false
    → chars_eq names.endian (codes "big") ≡ false
    → check_names names ≢ err invalid_endianness
unfolding check_names
check_upper names l b = elim (Option-cases (modes_of names.arch valid_arch_modes)) [
  | inl e ↦ ground (arith, e)
  | inr (modes, e) ↦ elim (Option-cases (find_mode names.mode modes)) [
    | inl f ↦ ground (arith, e, f)
    | inr (m, f) ↦ ground (arith, e, f, l, b)
  ]
]

-- Whatever the settings, the debuggee and the options, the check of the endianness never refuses a
-- target: the names are upper-case by then, and are compared with lower-case ones.
pub endianness_unchecked :
    (defaults : Names) (alive : Option Names) (args : Names)
    → check_names (choose defaults alive args) ≢ err invalid_endianness
endianness_unchecked defaults alive args =
    check_upper (choose defaults alive args) (unfold choose in to_upper-ne-little _)
      (unfold choose in to_upper-ne-big _)

check_names_sound :
    (names : Names) (m : Mode)
    → check_names names ≡ ok m
    → (modes : List Mode) × (modes_of names.arch valid_arch_modes ≡ some modes)
      × (find_mode names.mode modes ≡ some m)
unfolding check_names
check_names_sound names m h = elim (Option-cases (modes_of names.arch valid_arch_modes)) [
  | inl e ↦ ground (arith, e)
  | inr (modes, e) ↦ (modes, e, ground (arith, e))
]

module _ (constant : Chars → Option ℕ) where
  to_keystone_arch :
      (names : Names) (t : Target)
      → to_keystone constant names ≡ ok t
      → constant (codes "KS_ARCH_" ++ names.arch) ≡ some t.arch
  unfolding to_keystone
  to_keystone_arch names t h = ground arith

  -- A target is settled on only for an architecture of the table and a mode of that architecture,
  -- and its architecture is keystone's constant for the name.
  pub resolve_sound :
      (defaults : Names) (alive : Option Names) (args : Names) (t : Target)
      → resolve constant defaults alive args ≡ ok t
      → (modes : List Mode) × (m : Mode) × (modes_of
            (choose defaults alive args).arch
            valid_arch_modes
          ≡ some modes)
        × (find_mode (choose defaults alive args).mode modes ≡ some m)
        × (constant (codes "KS_ARCH_" ++ (choose defaults alive args).arch) ≡ some t.arch)
  unfolding resolve
  resolve_sound defaults alive args t h =
      let names = choose defaults alive args in
      let (m, e, k) = bind_ok (check_names names) (λ _. to_keystone constant names) h in
      let (modes, f, g) = check_names_sound names m e in
      (modes, m, f, g, to_keystone_arch names t k)
