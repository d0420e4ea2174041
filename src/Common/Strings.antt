-- ===== src/Common/Strings.antt =====
-- The operations of Python's `str` that the commands use, on lists of code points.
pub mod Numbers
use Prim.Native.Nat.{ℕ, ◌+◌, ◌-◌, ◌*◌}
use mathlib.Core.Path.{◌≡◌, refl}
use mathlib.Core.Logic.{◌↔◌, ◌≢◌, inl, inr}
use mathlib.Core.Bool.{Bool, true, false, not, ◌&&◌, ◌||◌}
use mathlib.Core.Option.{Option, none, some}
use mathlib.Core.List.{List, [], ◌∷◌, ◌++◌}
use native.Mathlib.Omega.{arith}
use gef_extras.Common.Tests.{Bool-cases, ltb, leb, ◌==◌, if◌then◌else◌}
use gef_extras.Common.Lists.{select, replicate, length, drop}
use gef_extras.Common.Text.{Chars}
use gef_extras.Common.Hex.{digit_value}

-- `s == t`
unfoldable pub chars_eq : Chars → Chars → Bool
chars_eq [] [] = true
chars_eq [] (y ∷ ys) = false
chars_eq (x ∷ xs) [] = false
chars_eq (x ∷ xs) (y ∷ ys) = x == y && chars_eq xs ys

pub chars_eq_refl : (s : Chars) → chars_eq s s ≡ true
unfolding chars_eq
chars_eq_refl [] = refl
chars_eq_refl (c ∷ s) = ground (arith, chars_eq_refl s)

pub eq_of_chars_eq : (s t : Chars) → chars_eq s t ≡ true → s ≡ t
unfolding chars_eq
eq_of_chars_eq [] [] h = refl
eq_of_chars_eq [] (y ∷ ys) h = cc
eq_of_chars_eq (x ∷ xs) [] h = cc
eq_of_chars_eq (x ∷ xs) (y ∷ ys) h = ground (arith, eq_of_chars_eq xs ys)

pub chars_eq_iff : (s t : Chars) → (chars_eq s t ≡ true) ↔ (s ≡ t)
chars_eq_iff s t = (eq_of_chars_eq s t, λ e. rw e (chars_eq_refl t))

pub chars_ne : (s t : Chars) → s ≢ t → chars_eq s t ≡ false
chars_ne s t n = elim (Bool-cases (chars_eq s t)) [
  | inl e ↦ absurd (n (eq_of_chars_eq s t e))
  | inr e ↦ e
]

pub chars_eq_sym : (s t : Chars) → chars_eq s t ≡ chars_eq t s
unfolding chars_eq
chars_eq_sym [] [] = refl
chars_eq_sym [] (y ∷ ys) = refl
chars_eq_sym (x ∷ xs) [] = refl
chars_eq_sym (x ∷ xs) (y ∷ ys) = ground (arith, chars_eq_sym xs ys)

-- `s in (a, b, ...)`, `s in {a, b, ...}`
unfoldable pub chars_mem : Chars → List Chars → Bool
chars_mem s [] = false
chars_mem s (t ∷ ts) = chars_eq s t || chars_mem s ts

-- `s.startswith(prefix)`
unfoldable pub starts_with : Chars → Chars → Bool
starts_with s [] = true
starts_with [] (p ∷ ps) = false
starts_with (c ∷ s) (p ∷ ps) = c == p && starts_with s ps

-- `s.endswith(suffix)`
unfoldable pub ends_with : Chars → Chars → Bool
unfolding chars_eq
ends_with [] suffix = chars_eq [] suffix
ends_with (c ∷ s) suffix = chars_eq (c ∷ s) suffix || ends_with s suffix

-- `part in s`
unfoldable pub contains : Chars → Chars → Bool
unfolding starts_with
contains [] part = starts_with [] part
contains (c ∷ s) part = starts_with (c ∷ s) part || contains s part

abbrev pub push_char : ℕ → List Chars → List Chars
push_char c [] = (c ∷ []) ∷ []
push_char c (part ∷ parts) = (c ∷ part) ∷ parts

-- `s.split(sep)` at one character.
unfoldable pub split : ℕ → Chars → List Chars
split sep [] = [] ∷ []
split sep (c ∷ s) = let parts = split sep s in if c == sep then [] ∷ parts else push_char c parts

-- `s.split(sep, 1)`: `none` where the text has no separator.
unfoldable pub split_once : ℕ → Chars → Option (Chars × Chars)
split_once sep [] = none
split_once sep (c ∷ s) = elim (c == sep) [
  | true ↦ some ([], s)
  | false ↦ elim (split_once sep s) [ none ↦ none | some (a, b) ↦ some (c ∷ a, b) ]
]

-- The part of a text before the first place of a separator and the part behind it.
unfoldable pub cut_at : Chars → Chars → Option (Chars × Chars)
unfolding starts_with
cut_at sep [] = none
cut_at sep (c ∷ s) = elim (starts_with (c ∷ s) sep) [
  | true ↦ some ([], drop (length sep) (c ∷ s))
  | false ↦ elim (cut_at sep s) [ none ↦ none | some (before, behind) ↦ some (c ∷ before, behind) ]
]

-- `sep.join(parts)`
unfoldable pub join : Chars → List Chars → Chars
join sep [] = []
join sep (part ∷ []) = part
join sep (part ∷ q ∷ parts) = part ++ (sep ++ join sep (q ∷ parts))

-- `s.replace(c, "")` of one character.
unfoldable pub remove_char : ℕ → Chars → Chars
remove_char c s = select (λ x. not (x == c)) s

unfoldable pub to_lower : Chars → Chars
to_lower [] = []
to_lower (c ∷ s) = (if leb b'A' c && leb c b'Z' then c + 32 else c) ∷ to_lower s

unfoldable pub to_upper : Chars → Chars
to_upper [] = []
to_upper (c ∷ s) = (if leb b'a' c && leb c b'z' then c - 32 else c) ∷ to_upper s

unfoldable pub read_digits : ℕ → Chars → ℕ → Option ℕ
read_digits base [] n = some n
read_digits base (c ∷ s) n = elim (digit_value c) [
  | none ↦ none
  | some d ↦ elim (ltb d base) [ true ↦ read_digits base s (n * base + d) | false ↦ none ]
]

-- `int(s, base)` on a text of digits; `none` is the `ValueError`. Signs, blanks and underscores,
-- which Python accepts too, are not modelled.
unfoldable pub read_int : ℕ → Chars → Option ℕ
unfolding read_digits digit_value
read_int base [] = none
read_int base (c ∷ s) = read_digits base (c ∷ s) 0

abbrev is_prefix : ℕ → ℕ → Bool
is_prefix a b = a == b'0' && (b == b'x' || b == b'X')

-- `int(s, 16)`, which also takes the prefix `0x`.
unfoldable pub read_hex : Chars → Option ℕ
unfolding read_int
read_hex (a ∷ b ∷ s) = if is_prefix a b then read_int 16 s else read_int 16 (a ∷ b ∷ s)
read_hex s = read_int 16 s

-- Python's white space, without the blanks beyond the first 256 characters.
abbrev pub is_blank : ℕ → Bool
is_blank c =
    c == b' ' || (leb 9 c && leb c 13) || (leb 0x1c c && leb c 0x1f) || c == 0x85 || c == 0xa0

unfoldable pub lstrip : Chars → Chars
lstrip [] = []
lstrip (c ∷ s) = let rest = lstrip s in if is_blank c then rest else c ∷ s

unfoldable pub rstrip : Chars → Chars
rstrip [] = []
rstrip (c ∷ s) =
    let rest = rstrip s in
    elim rest [ [] ↦ if is_blank c then [] else c ∷ [] | d ∷ ds ↦ c ∷ d ∷ ds ]

-- `s.strip()`
unfoldable pub strip : Chars → Chars
unfolding lstrip rstrip
strip s = rstrip (lstrip s)

-- `"{s:<width}"`
unfoldable pub ljust : ℕ → Chars → Chars
ljust width s = s ++ replicate (width - length s) b' '

-- `s.split()`: the parts between runs of blanks.
abbrev push_word : Chars → List Chars → List Chars
push_word [] words = words
push_word (c ∷ word) words = (c ∷ word) ∷ words

split_from : Chars → Chars → List Chars
split_from word [] = push_word word []
split_from word (c ∷ s) =
    let rest = split_from (if is_blank c then [] else word ++ c ∷ []) s in
    if is_blank c then push_word word rest else rest

unfoldable pub split_words : Chars → List Chars
unfolding split_from
split_words s = split_from [] s
