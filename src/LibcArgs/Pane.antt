-- ===== src/LibcArgs/Pane.antt =====
-- scripts/libc_function_args/__init__.py: what the pane prints, and which tables are ever loaded.
use gef_extras.Common.{
  ℕ, zero, suc, ◌+◌, Bool, true, false, not, ◌&&◌, List, [], ◌∷◌, none, some, Chars, codes, ◌++◌,
  ◌<◌, ok, err, ◌>>=◌, bind_ok, length, ◌≡◌, refl, ap, sym, arith, Bool-cases, Option-cases, inl,
  inr,
}
use mathlib.Core.Path.{subst}
use gef_extras.Common.Strings.{chars_eq, chars_eq_refl, join}
use gef_extras.LibcArgs.{
  key_error, find, put, Parameters, Functions, Tables, File, missing, malformed, loaded, Files,
  Target, arch_mode, load_libc_args, read_table, Debuggee, line_of, lines_of, is_empty, is_plt,
  basename_of, show_call, pane_content,
}

module _ {V : Type 0} where
  find-put : (key : Chars) (v : V) (d : List (Chars × V)) → find key (put key v d) ≡ some v
  unfolding find put
  find-put key v [] = rw (chars_eq_refl key) refl
  find-put key v ((k, w) ∷ d) = elim (Bool-cases (chars_eq k key)) [
    | inl e ↦ rw (e, find) (rw (e, find) refl)
    | inr e ↦ rw (e, find) (rw (e, find) (find-put key v d))
  ]

-- The line of parameter `i`: its register or place with the value there and the description in the
-- table, or with "<invalid>" where there is no value or zero.
pub data IsLine (d : Debuggee) (parameters : Parameters) (i : ℕ) : Chars → Type 0 where
  no_value :
      (d.parameter i).1 ≡ none → IsLine d parameters i ((d.parameter i).0 ++ codes ": <invalid>")
  null :
      (d.parameter i).1 ≡ some 0 → IsLine d parameters i ((d.parameter i).0 ++ codes ": <invalid>")
  described :
      (value : ℕ) (description : Chars)
      → (d.parameter i).1 ≡ some value
      → 0 < value
      → find (d.parameter i).0 parameters ≡ some description
      → IsLine d parameters i (
          b'\t'
          ∷ ((d.parameter i).0
              ++ (codes " = "
                  ++ (join d.arrow (d.dereference_from value)
                      ++ (codes " /* " ++ (description ++ codes ") */"))))))

-- The lines of the parameters from number `i` on.
abbrev pub IsLines : Debuggee → Parameters → ℕ → List Chars → Type 0
IsLines d parameters i [] = Unit
IsLines d parameters i (line ∷ lines) =
    IsLine d parameters i line × IsLines d parameters (i + 1) lines

line_of-IsLine :
    (d : Debuggee) (parameters : Parameters) (i : ℕ) (line : Chars)
    → line_of d parameters i ≡ ok line
    → IsLine d parameters i line
unfolding line_of
line_of-IsLine d parameters i line h = elim (Option-cases (d.parameter i).1) [
  | inl e ↦ subst (IsLine d parameters i) (ground (arith, e, h)) (no_value e)
  | inr (zero, e) ↦ subst (IsLine d parameters i) (ground (arith, e, h)) (null e)
  | inr (suc v, e) ↦ elim (Option-cases (find (d.parameter i).0 parameters)) [
    | inl f ↦ absurd (ground (arith, e, f, h))
    | inr (description, f) ↦
        subst (IsLine d parameters i) (ground (arith, e, f, h))
          (described (suc v) description e (omega arith) f)
  ]
]

lines_of-IsLines :
    (d : Debuggee) (parameters : Parameters) (n i : ℕ) (lines : List Chars)
    → lines_of d parameters n i ≡ ok lines
    → (length lines ≡ n) × IsLines d parameters i lines
unfolding lines_of
lines_of-IsLines d parameters zero i [] h = (refl, tt)
lines_of-IsLines d parameters zero i (line ∷ lines) h = absurd (cc h)
lines_of-IsLines d parameters (suc n) i lines h =
    let (line, e, h1) =
      bind_ok (line_of d parameters i)
        (λ line. lines_of d parameters n (i + 1) >>= λ more. ok (line ∷ more)) h in
    let (more, f, h2) = bind_ok (lines_of d parameters n (i + 1)) (λ more. ok (line ∷ more)) h1 in
    let (len, all) = lines_of-IsLines d parameters n (i + 1) more f in
    let same : line ∷ more ≡ lines = ground (arith, h2) in
    rw (sym same) (ap suc len, (line_of-IsLine d parameters i line e, all))

-- When the pane shows a call, it has one line for each parameter of the function in the table of the
-- architecture, in their order: line `i` has the key and the value of the call's parameter `i`, with the
-- chain of pointers from the value and the description of the key in the table, or marks the key as
-- invalid where the value is zero or missing.
pub show_call-IsLines :
    (d : Debuggee) (t : Target) (name : Chars) (tables : Tables) (lines : List Chars)
    → show_call d t name tables ≡ ok (some lines)
    → (functions : Functions) × (parameters : Parameters) × (find (arch_mode t) tables
        ≡ some functions)
      × (find (basename_of name) functions ≡ some parameters)
      × (length lines ≡ length parameters)
      × IsLines d parameters 0 lines
unfolding show_call
show_call-IsLines d t name tables lines h = elim (Bool-cases (is_plt name)) [
  | inr p ↦ absurd (cc (rw (p, show_call) at h))
  | inl p ↦ elim (Option-cases (find (arch_mode t) tables)) [
    | inl e ↦ absurd (cc (rw (p, e, show_call) at h))
    | inr (functions, e) ↦ elim (Option-cases (find (basename_of name) functions)) [
      | inl f ↦ absurd (cc (rw (p, e, f, show_call) at h))
      | inr (parameters, f) ↦
          let (shown, g, k) =
            bind_ok (lines_of d parameters (length parameters) 0) (λ lines. ok (some lines))
              (rw (p, e, f, show_call) at h) in
          let same : shown ≡ lines = ground (arith, k) in
          let (len, all) =
            lines_of-IsLines d parameters (length parameters) 0 lines (rw same at g) in
          (functions, parameters, e, f, len, all)
    ]
  ]
]

read_table_found :
    (name : Chars) (file : File) (tables : Tables)
    → (functions : Functions) × (find name (read_table name file tables).1 ≡ some functions)
read_table_found name missing tables = ([], find-put name [] tables)
read_table_found name malformed tables = ([], find-put name [] tables)
read_table_found name (loaded functions) tables = (functions, find-put name functions tables)

load_table :
    (files : Files) (t : Target) (tables tables' : Tables) (b : Bool)
    → load_libc_args files t tables ≡ ok (b, tables')
    → (functions : Functions) × (find (arch_mode t) tables' ≡ some functions)
unfolding load_libc_args
load_table files t tables tables' b h = elim (Option-cases (find (arch_mode t) tables)) [
  | inr (functions, e) ↦ (functions, ground (arith, h, e))
  | inl e ↦
      let (functions, f) = read_table_found (arch_mode t) (files.file (arch_mode t)) tables in
      let same : (read_table (arch_mode t) (files.file (arch_mode t)) tables).1 ≡ tables' =
        ground (arith, h, e) in
      (functions, rw same at f)
]

-- A load that returns has gone by the checks.
load_checks :
    (files : Files) (t : Target) (tables tables' : Tables) (b : Bool)
    → load_libc_args files t tables ≡ ok (b, tables')
    → (files.has_directory ≡ true)
      × ((not (files.exists_before (arch_mode t)) && not files.generated) ≡ false)
unfolding load_libc_args
load_checks files t tables tables' b h = (ground (arith, h), ground (arith, h))

-- Loading a second time changes nothing and reports success, also where the first load reported that
-- the file was missing or malformed.
pub load_again :
    (files : Files) (t : Target) (tables tables' : Tables) (b : Bool)
    → load_libc_args files t tables ≡ ok (b, tables')
    → load_libc_args files t tables' ≡ ok (true, tables')
unfolding load_libc_args
load_again files t tables tables' b h =
    let (d, g) = load_checks files t tables tables' b h in
    let (functions, e) = load_table files t tables tables' b h in rw (d, g, e, load_libc_args) refl

-- Calls of the pane for whatever targets and names.
abbrev pub after_calls : Files → Debuggee → List (Target × Chars) → Tables → Tables
after_calls files d [] tables = tables
after_calls files d ((t, name) ∷ calls) tables =
    after_calls files d calls (pane_content files d t name tables).0

kept_tables :
    (files : Files) (d : Debuggee) (calls : List (Target × Chars)) (tables : Tables)
    → is_empty tables ≡ false
    → after_calls files d calls tables ≡ tables
unfolding pane_content
kept_tables files d [] tables h = refl
kept_tables files d ((t, name) ∷ calls) tables h = rw h (kept_tables files d calls tables h)

-- Once a table is loaded, the pane loads no other: whatever calls come between, a call through the
-- procedure linkage table on an architecture whose table is not among those loaded raises a
-- `KeyError`.
pub pane_content_other :
    (files : Files) (d : Debuggee) (calls : List (Target × Chars)) (tables : Tables) (t : Target)
    (name : Chars)
    → is_empty tables ≡ false
    → find (arch_mode t) tables ≡ none
    → is_plt name ≡ true
    → (pane_content files d t name (after_calls files d calls tables)).1 ≡ err key_error
unfolding pane_content show_call
pane_content_other files d calls tables t name h e p =
    rw (kept_tables files d calls tables h) (rw h (rw (p, e, show_call) refl))
