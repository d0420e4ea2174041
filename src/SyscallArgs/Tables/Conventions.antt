-- ===== src/SyscallArgs/Tables/Conventions.antt =====
-- scripts/syscall_args/syscall-tables: what holds of every entry of the tables for x86.
mod Tests
use gef_extras.Common.{
  ℕ, zero, suc, ◌+◌, ◌≤◌, Bool, true, false, ◌&&◌, List, [], ◌∷◌, map, length, take, get_elem?,
  all_of, Option, some, Chars, codes, ok, leb, ◌==◌, if◌then◌else◌, ◌≡◌, refl, ap, arith,
  Bool-cases, inl, inr,
}
use gef_extras.Common.Strings.{chars_eq, eq_of_chars_eq}
use gef_extras.SyscallArgs.{Param, Entry, Table, entry_of, Debuggee, shown, do_invoke}
use gef_extras.SyscallArgs.Shown.{param_line, do_invoke-shown}
use gef_extras.SyscallArgs.Tables.X8664.{x86_64}
use gef_extras.SyscallArgs.Tables.X8632.{x86}

-- The registers for the parameters of a system call, in their order.
abbrev pub linux_64 : List Chars
linux_64 =
    codes "$rdi" ∷ codes "$rsi" ∷ codes "$rdx" ∷ codes "$r10" ∷ codes "$r8" ∷ codes "$r9" ∷ []

abbrev pub linux_32 : List Chars
linux_32 =
    codes "$ebx" ∷ codes "$ecx" ∷ codes "$edx" ∷ codes "$esi" ∷ codes "$edi" ∷ codes "$ebp" ∷ []

-- A table with its convention.
pub data Follows : Table → List Chars → Type 0 where
  for_64 : Follows x86_64 linux_64
  for_32 : Follows x86 linux_32

is_prefix : List Chars → List Chars → Bool
is_prefix [] ys = true
is_prefix (x ∷ xs) [] = false
is_prefix (x ∷ xs) (y ∷ ys) = chars_eq x y && is_prefix xs ys

is_prefix_sound : (xs ys : List Chars) → is_prefix xs ys ≡ true → xs ≡ take (length xs) ys
unfolding is_prefix
is_prefix_sound [] ys h = refl
is_prefix_sound (x ∷ xs) [] h = cc
is_prefix_sound (x ∷ xs) (y ∷ ys) h =
    let rest = is_prefix_sound xs ys in
    let first = eq_of_chars_eq x y in ground (arith, rest, first)

abbrev pub register_names : Entry → List Chars
register_names entry = map (λ (p : Param). p.reg) entry.params

abbrev follows : List Chars → ℕ × Entry → Bool
follows convention (n, entry) = is_prefix (register_names entry) convention

entry_of-all_of :
    (p : ℕ × Entry → Bool) (n : ℕ) (table : Table) (entry : Entry)
    → all_of p table ≡ true
    → entry_of n table ≡ some entry
    → p (n, entry) ≡ true
unfolding entry_of
entry_of-all_of p n [] entry h e = cc
entry_of-all_of p n ((k, first) ∷ table) entry h e =
    let later = entry_of-all_of p n table entry in ground (arith, later)

rows_follow :
    {table : Table} {convention : List Chars}
    → Follows table convention
    → all_of (follows convention) table ≡ true
unfolding is_prefix chars_eq
rows_follow for_64 = refl
rows_follow for_32 = refl

-- The numbers of the rows rise from `low` on.
rises : ℕ → Table → Bool
rises low [] = true
rises low ((n, entry) ∷ table) = leb low n && rises (n + 1) table

numbers_rise :
    {table : Table} {convention : List Chars} → Follows table convention → rises 0 table ≡ true
unfolding rises
numbers_rise for_64 = refl
numbers_rise for_32 = refl

rises-le :
    (low : ℕ) (table : Table) (i n : ℕ) (entry : Entry)
    → rises low table ≡ true
    → get_elem? table i ≡ some (n, entry)
    → low ≤ n
unfolding rises
rises-le low [] i n entry h e = cc
rises-le low ((k, first) ∷ table) zero n entry h e = ground arith
rises-le low ((k, first) ∷ table) (suc i) n entry h e =
    let later = rises-le (k + 1) table i n entry in ground (arith, later)

entry_of-rises :
    (low : ℕ) (table : Table) (i n : ℕ) (entry : Entry)
    → rises low table ≡ true
    → get_elem? table i ≡ some (n, entry)
    → entry_of n table ≡ some entry
unfolding rises entry_of
entry_of-rises low [] i n entry h e = cc
entry_of-rises low ((k, first) ∷ table) zero n entry h e = ground arith
entry_of-rises low ((k, first) ∷ table) (suc i) n entry h e =
    let later = entry_of-rises (k + 1) table i n entry in
    let behind = rises-le (k + 1) table i n entry in ground (arith, later, behind)

-- No row of the tables for x86 is overwritten by another: the entry under the number of a row is that
-- of the row.
pub entry_of-row :
    {table : Table} {convention : List Chars} (i n : ℕ) (entry : Entry)
    → Follows table convention
    → get_elem? table i ≡ some (n, entry)
    → entry_of n table ≡ some entry
entry_of-row {table} i n entry k e = entry_of-rises 0 table i n entry (numbers_rise k) e

-- When `syscall-args` shows a call with a table for x86, its lines are about the first registers of
-- the kernel's convention, in their order: one register for each parameter of an entry of the table,
-- with the value that it has.
pub do_invoke-convention :
    {table : Table} {convention : List Chars} (d : Debuggee) (name : Chars)
    (parameters lines : List Chars)
    → Follows table convention
    → do_invoke d (some table) ≡ ok (shown name parameters lines)
    → (n : ℕ) × (entry : Entry) × (entry_of n table ≡ some entry)
      × (name ≡ entry.name)
      × (lines ≡ map (param_line d) entry.params)
      × (register_names entry ≡ take (length (register_names entry)) convention)
do_invoke-convention {table} {convention} d name parameters lines k h =
    let (entries, n, entry, t, f, a, l, _) =
      do_invoke-shown d (some table) name parameters lines h in
    let same : table ≡ entries = cc in
    let found = rw (← same) at f in
    (
      n,
      entry,
      found,
      a,
      l,
      is_prefix_sound (register_names entry) convention
          (entry_of-all_of (follows convention) n table entry (rows_follow k) found),
    )
