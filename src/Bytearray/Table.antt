-- ===== src/Bytearray/Table.antt =====
-- scripts/bytearray.py: the bytes that an invocation writes.
use gef_extras.Common.{
  ℕ, zero, suc, ◌+◌, ◌%◌, ◌≤◌, ◌<◌, ◌≡◌, refl, ap, ◌∙◌, not, List, [], ◌∷◌, map, none, some, String,
  Chars, ok, err, length, select, arith, Bool, true, false,
}
use gef_extras.Common.Hex.{hex_byte, byte_value-hex_byte}
use gef_extras.Bytearray.{
  clean_hex, hex_to_int, create_bytes, append_byte, Arrays, generate, dump, index_error, files,
  do_invoke, read_options,
}
use gef_extras.Bytearray.Expand.{
  clean_hex-AllHex, listed, elem, single, expand_clean, expand_odd, excluded_of-listed,
  bytes_mem-single, hex_to_bin-hex_byte,
}

-- The numbers from `v` on, `n` of them.
abbrev pub range : ℕ → ℕ → List ℕ
range v zero = []
range v (suc n) = v ∷ range (v + 1) n

-- The bytes, in ascending order, that are not among `bad`.
abbrev pub kept : List ℕ → ℕ → ℕ → List ℕ
kept bad v n = select (λ x. not (elem x bad)) (range v n)

hex_to_int-hex_byte : (v : ℕ) → v < 256 → hex_to_int (hex_byte v) ≡ ok v
unfolding hex_to_int
hex_to_int-hex_byte v h = ground (arith, byte_value-hex_byte v h)

abbrev arrays_of : List ℕ → Arrays
arrays_of bytes = record { table = map hex_byte bytes; binary = bytes }

-- One round of the loop over the byte values.
create_bytes_step :
    (n v : ℕ) (bad : List ℕ) (rest : Arrays)
    → v < 256
    → create_bytes n (v + 1) (map single bad) ≡ ok rest
    → create_bytes (suc n) v (map single bad) ≡ ok (append_byte (elem v bad) (hex_byte v) v rest)
unfolding create_bytes
create_bytes_step n v bad rest h e =
    rw (hex_to_bin-hex_byte v h, hex_to_int-hex_byte v h, e, bytes_mem-single v bad)

append_byte-arrays_of :
    (b : Bool) (v : ℕ) (bytes : List ℕ)
    → append_byte b (hex_byte v) v (arrays_of bytes)
      ≡ arrays_of (elim (not b) [ true ↦ v ∷ bytes | false ↦ bytes ])
append_byte-arrays_of true v bytes = refl
append_byte-arrays_of false v bytes = refl

create_bytes-kept :
    (n v : ℕ) (bad : List ℕ)
    → v + n ≤ 256
    → create_bytes n v (map single bad) ≡ ok (arrays_of (kept bad v n))
create_bytes-kept zero v bad h = unfold create_bytes in refl
create_bytes-kept (suc n) v bad h =
    create_bytes_step n v bad _ (omega arith) (create_bytes-kept n (v + 1) bad (omega arith))
    ∙ ap ok (append_byte-arrays_of (elem v bad) v (kept bad (v + 1) n))

generate-kept :
    (s : Chars)
    → length (clean_hex s) % 2 ≡ 0
    → generate s ≡ ok (arrays_of (kept (listed (clean_hex s)) 0 256))
unfolding generate
generate-kept s e =
    let hex = clean_hex-AllHex s in
    rw (
      expand_clean none (clean_hex s) hex e,
      excluded_of-listed (clean_hex s) hex e,
      create_bytes-kept 256 0 (listed (clean_hex s)) (omega arith),
    )

-- With the text `s` for the option and an even number of hexadecimal digits in it, the command
-- writes to its binary file the bytes from 0 to 255, in ascending order, without those that the
-- digit pairs of `s` list, and to its text file the dump of their digits.
pub do_invoke-kept :
    (opts : List (String × Chars)) (s : Chars)
    → read_options opts [] ≡ some s
    → length (clean_hex s) % 2 ≡ 0
    → do_invoke opts
      ≡ ok (
          files
            (kept (listed (clean_hex s)) 0 256)
            (dump (map hex_byte (kept (listed (clean_hex s)) 0 256))))
unfolding do_invoke
do_invoke-kept opts s o e = rw (o, do_invoke, generate-kept s e)

-- With an odd number of hexadecimal digits the command raises an `IndexError` and writes nothing.
pub do_invoke_odd :
    (opts : List (String × Chars)) (s : Chars)
    → read_options opts [] ≡ some s
    → length (clean_hex s) % 2 ≡ 1
    → do_invoke opts ≡ err index_error
unfolding do_invoke generate
do_invoke_odd opts s o e = rw (o, do_invoke, expand_odd none (clean_hex s) (clean_hex-AllHex s) e)
