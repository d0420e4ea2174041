-- ===== src/XrefTelescope/Tests.antt =====
-- Tests of scripts/xref-telescope.py and instances of the theorems.
use gef_extras.Common.{
  true, false, List, [], ◌∷◌, All, Chars, codes, length, if◌then◌else◌, ◌≡◌, refl, arith,
}
use mathlib.Core.List.{reverse}
use gef_extras.Common.Strings.{chars_eq, join}
use gef_extras.Common.Hex.{format_x}
use gef_extras.XrefTelescope.{
  Section, Location, Debuggee, byte_texts, hex, pattern_of, locations, show_locations,
  xref_telescope,
}
use gef_extras.XrefTelescope.Searched.{pairs_from, byte_texts-pairs, Shown, xref_telescope-Shown}

little : byte_texts false (codes "0x1234") ≡ codes "\\\\x34" ∷ codes "\\\\x12" ∷ []
unfolding byte_texts
little = refl

-- The digits of an address below 0x10000000 are odd in number: the last byte is no byte.
odd_digits :
    byte_texts false (hex 0x8048000)
    ≡ codes "\\\\x00" ∷ codes "\\\\x80" ∷ codes "\\\\x04" ∷ codes "\\\\xx8" ∷ []
unfolding byte_texts format_x
odd_digits = refl

byte_texts-pairs_example :
    (byte_texts true (codes "0x123") ≡ pairs_from 2 (codes "0x123"))
    × (byte_texts false (codes "0x123") ≡ reverse (pairs_from 1 (codes "0x123")))
byte_texts-pairs_example = byte_texts-pairs (codes "0x123") (omega arith)

abbrev page : Section
page = record { path = codes "/bin/a"; page_start = 16; page_end = 64; permission = 6 }

-- Two places that refer to one another.
abbrev place : Chars → List Location
place pattern =
    if chars_eq pattern (codes "\\\\x10")
    then record { start = 32; text = [] } ∷ []
    else record { start = 16; text = [] } ∷ []

abbrev debuggee : Debuggee
debuggee = record {
  is_big_endian = false;
  maps = page ∷ [];
  search_pattern_by_address = λ pattern start end. place pattern;
  section_at = λ a. page;
  permission_text = λ p. codes "rw-";
  is_hex = λ p. true;
}

circle : length (xref_telescope debuggee 4 (codes "0x10") []) ≡ 5
unfolding xref_telescope show_locations locations pattern_of byte_texts join format_x chars_eq
circle = refl

xref_telescope-Shown_example :
    (lines : List Chars) × (xref_telescope debuggee 4 (codes "0x10") [] ≡ codes " ." ∷ lines)
    × All (Shown debuggee [] 4) lines
xref_telescope-Shown_example = xref_telescope-Shown debuggee 3 (codes "0x10")
