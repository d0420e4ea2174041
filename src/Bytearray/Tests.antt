-- ===== src/Bytearray/Tests.antt =====
-- Tests of scripts/bytearray.py and instances of the theorems.
use gef_extras.Common.{◌≡◌, refl, List, [], ◌∷◌, map, none, String, Chars, codes, ok}
use gef_extras.Common.Hex.{hex_byte, digit_value, byte_value}
use gef_extras.Bytearray.{
  clean_hex, hex_to_bin, expand, dump, do_invoke, read_options, files, usage,
}
use gef_extras.Bytearray.Expand.{listed}
use gef_extras.Bytearray.Table.{kept, do_invoke-kept}

abbrev bad : Chars
bad = codes "\\x00\\x0a\\x0d"

abbrev with_bad : Chars → List (String × Chars)
with_bad s = ("-b", s) ∷ []

cleaned : clean_hex bad ≡ codes "000a0d"
unfolding clean_hex
cleaned = refl

listed_bad : listed (codes "000a0d") ≡ 0 ∷ 10 ∷ 13 ∷ []
unfolding byte_value digit_value
listed_bad = refl

escaped_byte : hex_to_bin (codes "\\x41'\"") ≡ ok (65 ∷ [])
unfolding hex_to_bin byte_value digit_value
escaped_byte = refl

-- With the dots in place a range would be expanded.
range_expanded : expand none (codes "00..03") ≡ ok (codes "00010203")
unfolding expand byte_value digit_value
range_expanded = refl

helped : do_invoke (("-h", []) ∷ []) ≡ ok usage
unfolding do_invoke
helped = refl

short_dump : dump (codes "41" ∷ codes "42" ∷ []) ≡ codes "\"\\x41\\x42\"\n"
unfolding dump
short_dump = refl

do_invoke-kept_example :
    do_invoke (with_bad bad)
    ≡ ok (
        files
          (kept (listed (clean_hex bad)) 0 256)
          (dump (map hex_byte (kept (listed (clean_hex bad)) 0 256))))
unfolding clean_hex read_options
do_invoke-kept_example = do_invoke-kept (with_bad bad) bad refl refl
