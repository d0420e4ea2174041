-- ===== src/PeekPointers/Tests.antt =====
-- Tests of scripts/peekpointers.py and instances of the theorems.
use gef_extras.Common.{
  ℕ, ◌<◌, true, false, List, [], ◌∷◌, ◌++◌, map, Option, some, none, codes, ok, ltb, ◌==◌,
  if◌then◌else◌, ◌≡◌, ◌≢◌, refl, arith,
}
use mathlib.Core.List.{Perm}
use gef_extras.Common.Strings.{chars_eq, chars_mem, to_lower, strip, read_hex}
use gef_extras.PeekPointers.{
  Section, Debuggee, Found, shown, done, out_of_fuel, find_section, scan, sections_of, do_invoke,
}
use gef_extras.PeekPointers.Scanned.{Rising, scan-reported, scan_ends}

-- A page with two pointers into the heap and one into the stack.
abbrev heap : Section
heap = record { path = codes "[heap]"; page_start = 64; page_end = 80 }

abbrev stack : Section
stack = record { path = codes "[stack]"; page_start = 96; page_end = 112 }

abbrev memory : ℕ → Option ℕ
memory a =
    if a == 0 then some 65 else if a == 4 then some 100 else if a == 8 then some 66 else some 0

abbrev debuggee : Debuggee
debuggee = record {
  page_size = 16;
  ptrsize = 4;
  maps = heap ∷ stack ∷ [];
  is_valid = λ a. ltb a 16;
  is_known = λ v. true;
  permission = λ a. codes "rw-";
  read_integer = memory;
  location = λ v. none;
  path_text = λ p. p;
  session_file = codes "a";
}

abbrev line : ℕ → ℕ → Section → Found
line address value section = record {
  address = address;
  value = value;
  symbol = none;
  name = section.path;
  permission = codes "rw-";
  section = section;
}

once_each :
    do_invoke debuggee 5 (codes "0x0" ∷ [])
    ≡ ok (shown (line 0 65 heap ∷ line 4 100 stack ∷ []) done)
unfolding do_invoke scan find_section read_hex strip chars_mem chars_eq sections_of
once_each = refl

heap_only :
    do_invoke debuggee 5 (codes "0" ∷ codes "Heap" ∷ codes "all" ∷ [])
    ≡ ok (shown (line 0 65 heap ∷ line 8 66 heap ∷ []) done)
unfolding do_invoke scan find_section read_hex strip chars_mem chars_eq sections_of to_lower
heap_only = refl

scan-reported_example :
    Rising debuggee 0 (scan debuggee 5 false debuggee.maps 0).0
    × ((left : List Section) × Perm
          (map (λ (f : Found). f.section) (scan debuggee 5 true debuggee.maps 0).0 ++ left)
          debuggee.maps)
scan-reported_example = scan-reported debuggee 5 false debuggee.maps 0

below : (a : ℕ) → ltb a 16 ≡ true → a < 16
below a h = ground arith

scan_ends_example : (scan debuggee 16 true debuggee.maps 0).1 ≢ out_of_fuel
scan_ends_example = scan_ends debuggee 16 16 true debuggee.maps 0 below (omega arith) (omega arith)
