-- ===== src/Pe/Tests.antt =====
-- Tests of os/pe.py and an instance of the theorem.
use gef_extras.Common.{
  ℕ, ◌+◌, true, false, List, [], ◌∷◌, ◌++◌, Option, none, some, ok, err, length, replicate, ◌==◌,
  if◌then◌else◌, ◌≡◌, refl, arith,
}
use gef_extras.Pe.{
  Headers, parse, reset_architecture, read, fields, machine_type, x86_64, bad_dos_magic,
  unknown_architecture, little_number, pe, arm,
}
use gef_extras.Pe.Fields.{numbers_at, stamps, entries, file_sizes, parse-numbers_at}

abbrev u32 : List ℕ → Option ℕ
u32 bytes = if length bytes == 4 then some (little_number bytes) else none

four_bytes : (bytes : List ℕ) (n : ℕ) → u32 bytes ≡ some n → length bytes ≡ 4
four_bytes bytes n h = ground (arith, h)

-- A file whose headers follow the DOS header at once.
abbrev file : List ℕ
file =
    (0x4d ∷ 0x5a ∷ replicate 58 0)
    ++ (0x40 ∷ 0 ∷ 0 ∷ 0 ∷ 0x50 ∷ 0x45 ∷ 0 ∷ 0 ∷ 0x64 ∷ 0x86 ∷ 3 ∷ 0 ∷ replicate 32 0)
    ++ (0x10 ∷ 0x20 ∷ 0 ∷ 0 ∷ replicate 12 1)

abbrev headers : Headers
headers = record {
  e_magic = 0x4d5a;
  e_lfanew = 64;
  machine = x86_64;
  number_of_sections = 3;
  time_date_stamp = 0;
  pointer_to_symbol_table = 0;
  number_of_symbols = 0;
  size_of_optional_header = 0;
  characteristics = 0;
  address_of_entry_point = 0x2010;
  base_of_code = 0x1010101;
  base_of_data = 0x1010101;
  image_base = 0x1010101;
  entry_point = 0x2010;
}

parsed : parse true u32 file ≡ ok headers
unfolding parse
parsed = refl

not_mz : parse true u32 (replicate 64 0) ≡ err bad_dos_magic
unfolding parse
not_mz = refl

-- An ARM file is parsed, but no architecture is chosen for it.
no_arm : reset_architecture (pe (record headers { machine = arm })) ≡ err unknown_architecture
unfolding reset_architecture
no_arm = refl

parse-numbers_at_example :
    (fields false (2 ∷ []) (read true u32 file 0 2) ≡ 0x4d5a ∷ [])
    × (u32 (read true u32 file 0x3c 4) ≡ some headers.e_lfanew)
    × (u32 (read true u32 file headers.e_lfanew 4) ≡ some 0x4550)
    × (m : ℕ) × (numbers_at true u32 file four_bytes (headers.e_lfanew + 4) (2 ∷ 2 ∷ [])
        ≡ m ∷ headers.number_of_sections ∷ [])
    × (machine_type m ≡ ok headers.machine)
    × (numbers_at true u32 file four_bytes
          (headers.e_lfanew + 8)
          (file_sizes true u32 file four_bytes)
        ≡ stamps true u32 file four_bytes headers)
    × (numbers_at true u32 file four_bytes (headers.e_lfanew + 40) (4 ∷ 4 ∷ 4 ∷ 4 ∷ [])
        ≡ entries true u32 file four_bytes headers)
    × (headers.entry_point ≡ headers.address_of_entry_point)
parse-numbers_at_example = parse-numbers_at true u32 file four_bytes headers parsed
