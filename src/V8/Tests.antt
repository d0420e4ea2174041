-- ===== src/V8/Tests.antt =====
-- Tests of scripts/v8-dereference.py and instances of the theorems.
use gef_extras.Common.{
  ℕ, ◌*◌, true, false, List, [], ◌∷◌, Option, some, none, Chars, codes, ok, ◌==◌, ltb,
  if◌then◌else◌, ◌≡◌, refl, arith,
}
use mathlib.Core.List.{reverse}
use gef_extras.Common.Strings.{chars_eq, read_hex, strip, starts_with}
use gef_extras.Common.Hex.{format_x, format_d}
use gef_extras.V8.{Section, Address, Debuggee, format_0x, format_compressed, format_half}
use gef_extras.V8.Isolate.{get_isolate_root, find_isolate_root, del_isolate_root}
use gef_extras.V8.Isolate.Cached.{get_isolate_root-again}
use gef_extras.V8.Chain.{dereference_from}
use gef_extras.V8.Chain.Followed.{NoneCompressed, Trail, start, dereference_from-Trail}
use gef_extras.V8.Command.{indices, upward}
use gef_extras.V8.Command.Shown.{pages, indices-pages}

-- Two words that point to one another, in a page of their own.
abbrev data_section : Section
data_section = record { is_executable = false; is_readable = true }

abbrev address_of : ℕ → Address
address_of v = record {
  value = v;
  section = if ltb v 256 then some data_section else none;
  valid = ltb v 256;
  is_in_text_segment = false;
  shown = format_0x 6 v;
}

abbrev memory : ℕ → Option ℕ
memory v = if v == 16 then some 32 else if v == 32 then some 16 else none

-- What gdb says of the two symbols, and of the call.
abbrev output : Chars → Option Chars
output command =
    if chars_eq command (codes "info address v8::internal::Isolate::isolate_key_")
    then some (codes "Symbol is at 0x30 in a file.")
    else if chars_eq command (codes "info address v8::base::Thread::GetThreadLocal")
    then some (codes "Symbol is at 0x40 in a file.")
    else some (codes "$1 = (void *) 0x5500\n")

abbrev debuggee : Debuggee
debuggee = record {
  is_alive = true;
  ptrsize = 4;
  memory_alignment = 4;
  max_recursion = 7;
  grow_stack_down = false;
  registers = [];
  align_address = λ a. a;
  lookup_address = address_of;
  dereference = memory;
  is_mapped = λ a. ltb a 256;
  format_address = format_0x 10;
  is_ascii_string = λ a. false;
  read_cstring = λ a. [];
  instruction = λ a. record { location = []; mnemonic = []; operands = [] };
  execute = output;
  read_key = λ a. some (codes "3");
  parse_and_eval = λ s. some 17;
  right_arrow = codes "->";
  left_arrow = codes "<-";
  vertical_line = codes "|";
}

abbrev loop_texts : List Chars
loop_texts = codes "0x00000010" ∷ codes "0x0020" ∷ codes "0x0010" ∷ codes "[loop detected]" ∷ []

look_in_loop : dereference_from debuggee none 16 ≡ (none, ok (loop_texts, some []))
unfolding dereference_from format_0x format_x
look_in_loop = refl

small_integer : format_half debuggee 84 ≡ codes "        0x00000054 (SMI: 0x2a)"
unfolding format_half format_x
small_integer = refl

compressed : format_compressed 0x550000001234 ≡ codes "0x0000550000001234"
unfolding format_compressed format_x
compressed = refl

root_found : get_isolate_root debuggee none ≡ (some 0x5500, ok (some 0x5500))
unfolding get_isolate_root find_isolate_root read_hex strip chars_eq starts_with format_d
root_found = refl

get_isolate_root-again_example :
    (get_isolate_root debuggee (some 0x5500) ≡ (some 0x5500, ok (some 0x5500)))
    × ((get_isolate_root debuggee (del_isolate_root (some 0x5500))).1 ≡ find_isolate_root debuggee)
get_isolate_root-again_example =
    get_isolate_root-again debuggee none (some 0x5500) 0x5500 (λ e. absurd (omega arith)) root_found
      debuggee

dereference_from-Trail_example :
    (rest : List Chars) × (loop_texts ≡ format_0x 10 16 ∷ rest)
    × Trail debuggee 7 [] (start debuggee 16) rest
    × NoneCompressed debuggee none 16
dereference_from-Trail_example =
    dereference_from-Trail debuggee none none 16 loop_texts look_in_loop

indices-pages_example :
    (indices true 2 3 ≡ reverse (indices false 2 3)) × (pages 2 3 ≡ upward 0 (2 * 3))
indices-pages_example = indices-pages 2 3

second_page : (indices false 1 3 ≡ 3 ∷ 4 ∷ 5 ∷ []) × (indices true 1 3 ≡ 5 ∷ 4 ∷ 3 ∷ [])
unfolding indices
second_page = (refl, refl)
