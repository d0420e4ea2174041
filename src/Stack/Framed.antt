-- ===== src/Stack/Framed.antt =====
-- scripts/stack.py: the lines of a frame.
use mathlib.Core.List.{reverse}
use gef_extras.Common.{
  ℕ, zero, suc, ◌+◌, ◌-◌, ◌*◌, ◌<◌, ◌≤◌, false, List, Option, none, some, Chars, ltb, if◌then◌else◌,
  ◌≡◌, refl, arith, Bool-cases, inl, inr, get_elem?,
}
use gef_extras.Stack.{
  Frame, Debuggee, shown, boundary, line, results, frame_lines, top, bottom, do_invoke,
}

get_elem?-results :
    (d : Debuggee) (saved_ip : Option ℕ) (stack_lo stack_hi rounds offset address i : ℕ)
    → 0 < d.ptrsize
    → stack_hi ≤ address + rounds
    → get_elem? (results d saved_ip stack_lo rounds stack_hi offset address) i ≡ (
        if ltb (address + i * d.ptrsize) stack_hi
        then some (line d saved_ip stack_lo (offset + i) (address + i * d.ptrsize))
        else none)
unfolding results
get_elem?-results d saved_ip stack_lo stack_hi zero offset address i p h =
    let e : ltb (address + i * d.ptrsize) stack_hi ≡ false = ground arith in rw e refl
get_elem?-results d saved_ip stack_lo stack_hi (suc rounds) offset address zero p h =
    let e : address + 0 * d.ptrsize ≡ address = omega arith in
    let f : offset + 0 ≡ offset = omega arith in
    rw (e, f) (elim (Bool-cases (ltb address stack_hi)) [ inl t ↦ rw t refl | inr t ↦ rw t refl ])
get_elem?-results d saved_ip stack_lo stack_hi (suc rounds) offset address (suc i) p h =
    let rest =
      get_elem?-results d saved_ip stack_lo stack_hi rounds (suc offset) (address + d.ptrsize) i p
        (omega arith) in
    let e : address + suc i * d.ptrsize ≡ address + d.ptrsize + i * d.ptrsize = omega arith in
    let f : offset + suc i ≡ suc offset + i = omega arith in
    rw (e, f)
      (elim (Bool-cases (ltb address stack_hi)) [
        | inl t ↦ rw t rest
        | inr t ↦
            let past : ltb (address + d.ptrsize + i * d.ptrsize) stack_hi ≡ false = ground arith in
            rw (t, past) refl
      ])

-- A frame with a known boundary is shown as the words from its stack pointer up to the boundary: the
-- line with number `i`, counted from the lower addresses, is about the word `i` pointers above the
-- stack pointer, and there is one exactly where that word begins below the boundary. The lines stand
-- in the order of the addresses, or in the reverse order where the stack is set to grow downwards.
pub do_invoke-lines :
    (d : Debuggee) (frame : Frame) (saved_ip : Option ℕ) (stack_hi : ℕ)
    → 0 < d.ptrsize
    → boundary d frame ≡ some (saved_ip, stack_hi)
    → let stack_lo = d.align_address frame.sp in
      (lines : List Chars) × (do_invoke d frame
        ≡ (if d.grow_stack_down then shown top (reverse lines) bottom else shown bottom lines top))
      × ((i : ℕ)
          → get_elem? lines i ≡ (
              if ltb (stack_lo + i * d.ptrsize) stack_hi
              then some (line d saved_ip stack_lo i (stack_lo + i * d.ptrsize))
              else none))
unfolding do_invoke frame_lines
do_invoke-lines d frame saved_ip stack_hi p h =
    let stack_lo = d.align_address frame.sp in
    (
      frame_lines d saved_ip stack_lo stack_hi,
      rw (h, do_invoke) refl,
      λ i.
          let all =
            get_elem?-results d saved_ip stack_lo stack_hi (stack_hi - stack_lo) 0 stack_lo i p
              (omega arith) in
          let e : 0 + i ≡ i = omega arith in rw (frame_lines, all, e) refl,
    )
