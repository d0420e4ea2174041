-- ===== src/GotAudit/Tests.antt =====
-- Tests of scripts/got_audit.py and instances of the theorems.
use gef_extras.Common.{ℕ, Bool, true, false, List, [], ◌∷◌, some, Chars, codes, ltb, leb, ◌≡◌, refl}
use gef_extras.Common.Strings.{chars_eq, chars_mem, split, split_words}
use gef_extras.GotAudit.{State, Section, get, add, has, short_name, collect, build_line, mapped}
use gef_extras.GotAudit.Consistent.{IsConsistent, collect-IsConsistent}
use gef_extras.GotAudit.Reports.{Shared, build_line_owners, build_line-IsConsistent}

abbrev empty : State
empty = record { symbols = []; paths = [] }

empty-IsConsistent : IsConsistent empty
unfolding get chars_mem
empty-IsConsistent = record { mutual_lists = λ name path. refl; distinct = λ name. tt }

abbrev library : Chars → (ℕ → Bool) → Section
library path contains = record { path = path; executable = true; contains = contains }

abbrev maps : List Section
maps =
    library (codes "/lib/a.so") (λ address. ltb address 100)
    ∷ library (codes "/lib/b.so") (λ address. leb 100 address)
    ∷ []

-- Both libraries provide "go".
abbrev nm : Chars → List Chars
nm path = codes "0010 T go@V1" ∷ codes "U other" ∷ []

abbrev is_file : Chars → Bool
is_file path = true

abbrev collected : State
collected = record {
  symbols = (codes "go", codes "/lib/a.so" ∷ codes "/lib/b.so" ∷ []) ∷ [];
  paths = (codes "/lib/a.so", codes "go" ∷ []) ∷ (codes "/lib/b.so", codes "go" ∷ []) ∷ [];
}

collected_run : collect nm is_file maps empty ≡ collected
unfolding collect get add has chars_eq chars_mem split split_words
collected_run = refl

collect-IsConsistent_example : IsConsistent (collect nm is_file maps empty)
collect-IsConsistent_example = collect-IsConsistent nm is_file maps empty empty-IsConsistent

collected-IsConsistent : IsConsistent collected
collected-IsConsistent =
    rw⁻¹ collected_run (collect-IsConsistent nm is_file maps empty empty-IsConsistent)

build_line-IsConsistent_example :
    IsConsistent (build_line (codes "go@V1") (codes "/bin/x") 120 maps collected).1
build_line-IsConsistent_example =
    build_line-IsConsistent collected collected-IsConsistent (codes "go@V1") (codes "/bin/x") 120
      maps

in_two_paths :
    (build_line (codes "go@V1") (codes "/bin/x") 120 maps collected).0
    ≡ mapped (codes "/lib/b.so") (some (codes "/lib/a.so" ∷ codes "/lib/b.so" ∷ [])) false
unfolding build_line get has chars_eq chars_mem split
in_two_paths = refl

build_line_owners_example : Shared collected (short_name (codes "go@V1"))
build_line_owners_example =
    build_line_owners collected collected-IsConsistent (codes "go@V1") (codes "/bin/x") 120 maps
      (codes "/lib/b.so") (codes "/lib/a.so" ∷ codes "/lib/b.so" ∷ []) false in_two_paths
