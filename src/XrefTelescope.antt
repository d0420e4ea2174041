-- ===== src/XrefTelescope.antt =====
-- scripts/xref-telescope.py: the command `xref-telescope`. The search of gef's command for patterns and
-- the map are parameters.
pub mod Searched
mod Tests
use gef_extras.Common.{
  ℕ, zero, suc, ◌+◌, ◌-◌, ◌/◌, ◌%◌, Bool, true, false, ◌||◌, List, [], ◌∷◌, ◌++◌, length, take,
  drop, Option, none, some, Chars, codes, ltb, leb, ◌==◌, if◌then◌else◌, all_of,
}
use gef_extras.Common.Strings.{chars_eq, read_int, strip, join}
use gef_extras.Common.Hex.{format_x, is_hex_digit}

pub record Section : Type 0 where
  pub path : Chars
  pub page_start : ℕ
  pub page_end : ℕ
  pub permission : ℕ

-- A place that was found: where it starts and what stands there.
pub record Location : Type 0 where
  pub start : ℕ
  pub text : Chars

-- `section_at` is the section of an address, and `permission_text` is `str` of a permission.
pub record Debuggee : Type 0 where
  pub is_big_endian : Bool
  pub maps : List Section
  pub search_pattern_by_address : Chars → ℕ → ℕ → List Location
  pub section_at : ℕ → Section
  pub permission_text : ℕ → Chars
  pub is_hex : Chars → Bool

abbrev pub is_readable : Section → Bool
is_readable s = s.permission / 4 % 2 == 1

-- `"\\\\x" + pattern[i:i + 2]` for `i` from `i` on, in the rounds left.
abbrev pub byte_text : Chars → ℕ → Chars
byte_text pattern i = codes "\\\\x" ++ take 2 (drop i pattern)

unfoldable pub forward : Chars → ℕ → ℕ → List Chars
forward pattern i zero = []
forward pattern i (suc rounds) = byte_text pattern i ∷ forward pattern (i + 2) rounds

-- From `i` down to one or two, in steps of two.
unfoldable pub backward : Chars → ℕ → ℕ → List Chars
backward pattern i zero = []
backward pattern i (suc rounds) = byte_text pattern i ∷ backward pattern (i - 2) rounds

-- `range(2, len(pattern), 2)` and `range(len(pattern) - 2, 0, -2)` have as many rounds.
unfoldable pub byte_texts : Bool → Chars → List Chars
unfolding forward backward
byte_texts is_big_endian pattern =
    let rounds = (length pattern - 2 + 1) / 2 in
    if is_big_endian then forward pattern 2 rounds else backward pattern (length pattern - 2) rounds

-- `hex(n)`
abbrev pub hex : ℕ → Chars
hex n = codes "0x" ++ format_x n

-- `int(text)` of the second argument, with a sign, or 3. A depth below zero prints as little as zero.
abbrev read_depth : Chars → ℕ
read_depth [] = 3
read_depth (c ∷ s) =
    if c == b'-'
    then elim (read_int 10 s) [ none ↦ 3 | some n ↦ 0 ]
    else elim (read_int 10 (if c == b'+' then s else c ∷ s)) [ none ↦ 3 | some n ↦ n ]

abbrev depth_of : List Chars → ℕ
depth_of [] = 3
depth_of (text ∷ _) = read_depth (strip text)

-- The headings of a place and of the places below it.
abbrev pub suffix_pre : List Location → Chars
suffix_pre [] = codes " └──"
suffix_pre (loc ∷ locs) = codes " ├──"

abbrev pub suffix_post : List Location → Chars
suffix_post [] = codes "    "
suffix_post (loc ∷ locs) = codes " │  "

module _ (d : Debuggee) where
  -- The pattern of a search: that of a number in hexadecimal is its bytes in memory.
  unfoldable pub pattern_of : Chars → Chars
  unfolding byte_texts
  pattern_of pattern =
      if d.is_hex pattern then join [] (byte_texts d.is_big_endian pattern) else pattern

  -- The loop over the map.
  unfoldable pub locations : Chars → List Section → List Location
  locations pattern [] = []
  locations pattern (s ∷ sections) =
      let rest = locations pattern sections in
      if is_readable s
      then (if chars_eq s.path (codes "[vvar]")
          then rest
          else d.search_pattern_by_address pattern s.page_start (s.page_end - 1) ++ rest)
      else rest

  unfoldable pub line : Chars → Chars → Location → Chars
  line heading suffix loc =
      let s = d.section_at loc.start in
      heading
      ++ (suffix
          ++ (b' '
              ∷ (hex loc.start
                  ++ (b' '
                      ∷ (s.path
                          ++ (b' '
                              ∷ (d.permission_text s.permission
                                  ++ (codes " \"" ++ (loc.text ++ codes "\"")))))))))

  -- The loop over the places found, where `below` is the search for an address one level deeper.
  unfoldable pub show_locations : (Chars → Chars → List Chars) → Chars → List Location → List Chars
  unfolding line
  show_locations below heading [] = []
  show_locations below heading (loc ∷ locs) =
      line heading (suffix_pre locs) loc
      ∷ (below (hex loc.start) (heading ++ suffix_post locs) ++ show_locations below heading locs)

  -- `xref_telescope_`: a depth below zero prints nothing, as zero does.
  unfoldable pub xref_telescope : ℕ → Chars → Chars → List Chars
  unfolding pattern_of locations show_locations
  xref_telescope zero pattern heading = []
  xref_telescope (suc depth) pattern heading =
      let shown =
        show_locations (xref_telescope depth) heading (locations (pattern_of pattern) d.maps) in
      elim heading [ [] ↦ codes " ." ∷ shown | c ∷ s ↦ shown ]

  -- `do_invoke`; none is the usage.
  unfoldable pub do_invoke : List Chars → Option (List Chars)
  unfolding xref_telescope
  do_invoke [] = none
  do_invoke (pattern ∷ argv) = some (xref_telescope (depth_of argv) pattern [])
