-- ===== src/Stack/Tests.antt =====
-- scripts/stack.py: tests and examples.
use mathlib.Core.List.{reverse}
use gef_extras.Common.{
  ℕ, ◌+◌, ◌*◌, true, List, [], ◌∷◌, none, some, Chars, codes, ltb, get_elem?, ◌==◌, if◌then◌else◌,
  ◌≡◌, refl, arith,
}
use gef_extras.Stack.{Frame, Debuggee, warning, shown, line, top, bottom, boundary, do_invoke}
use gef_extras.Stack.Framed.{do_invoke-lines}

abbrev d : Debuggee
d = record {
  ptrsize = 8;
  align_address = λ n. n;
  dereference = λ n. if n == 40 then some 7 else none;
  pprint_dereferenced = λ base offset. (base + offset) ∷ [];
  underline = λ s. s;
  grow_stack_down = true;
}

abbrev inner : Frame
inner = record { level = 0; sp = 32; bp = 56; older = some (record { pc = 7; sp = 52 }) }

abbrev lost : Frame
lost = record inner { level = 1; older = none }

three_words :
    do_invoke d inner ≡ shown top ((34 ∷ []) ∷ (33 ∷ codes " ($savedip)") ∷ (32 ∷ []) ∷ []) bottom
unfolding do_invoke
three_words = refl

no_boundary : do_invoke d lost ≡ warning
unfolding do_invoke
no_boundary = refl

outermost : boundary d (record inner { older = none }) ≡ some (none, 56)
unfolding boundary
outermost = refl

known_end : boundary d inner ≡ some (some 7, 52)
unfolding boundary
known_end = refl

do_invoke-lines_example :
    (lines : List Chars) × (do_invoke d inner ≡ shown top (reverse lines) bottom)
    × ((i : ℕ)
        → get_elem? lines i
          ≡ (if ltb (32 + i * 8) 52 then some (line d (some 7) 32 i (32 + i * 8)) else none))
do_invoke-lines_example = do_invoke-lines d inner (some 7) 52 (omega arith) known_end
