-- ===== src/Pe.antt =====
-- os/pe.py: the headers of a PE file and the choice of the architecture. A file is the list of its bytes.
pub mod Fields
mod Tests
use gef_extras.Common.{
  ℕ, ◌+◌, ◌*◌, Bool, true, false, List, [], ◌∷◌, Option, none, some, Result, ok, err, ◌>>=◌, length,
  take, drop, ◌==◌, if◌then◌else◌,
}

-- `struct.error`, the two exceptions of a corrupted file, the `ValueError` of an unknown machine type
-- and the exception of an unknown architecture.
pub data Error : Type 0 where
  struct_error bad_dos_magic bad_pe_magic bad_machine unknown_architecture : Error

-- `PE.MachineType`
pub data MachineType : Type 0 where
  x86_64 x86_32 arm arm64 : MachineType

pub machine_type : ℕ → Result Error MachineType
machine_type machine =
    if machine == 0x8664
    then ok x86_64
    else if machine == 0x14c
    then ok x86_32
    else if machine == 0x1c0
    then ok arm
    else if machine == 0xaa64
    then ok arm64
    else err bad_machine

-- The fields that `__init__` assigns.
pub record Headers : Type 0 where
  pub e_magic : ℕ
  pub e_lfanew : ℕ
  pub machine : MachineType
  pub number_of_sections : ℕ
  pub time_date_stamp : ℕ
  pub pointer_to_symbol_table : ℕ
  pub number_of_symbols : ℕ
  pub size_of_optional_header : ℕ
  pub characteristics : ℕ
  pub address_of_entry_point : ℕ
  pub base_of_code : ℕ
  pub base_of_data : ℕ
  pub image_base : ℕ
  pub entry_point : ℕ

abbrev pub little_number : List ℕ → ℕ
little_number [] = 0
little_number (b ∷ bs) = b + 256 * little_number bs

abbrev pub big_number : ℕ → List ℕ → ℕ
big_number n [] = n
big_number n (b ∷ bs) = big_number (n * 256 + b) bs

-- An unsigned number in one of the two orders of bytes.
abbrev pub number : Bool → List ℕ → ℕ
number true bytes = little_number bytes
number false bytes = big_number 0 bytes

-- `struct.unpack` with numbers of these sizes, and `struct.calcsize`.
abbrev pub fields : Bool → List ℕ → List ℕ → List ℕ
fields little [] bytes = []
fields little (w ∷ ws) bytes = number little (take w bytes) ∷ fields little ws (drop w bytes)

abbrev pub calcsize : List ℕ → ℕ
calcsize [] = 0
calcsize (w ∷ ws) = w + calcsize ws

pub unpack : Bool → List ℕ → List ℕ → Result Error (List ℕ)
unpack little ws bytes =
    if length bytes == calcsize ws then ok (fields little ws bytes) else err struct_error

-- The order of bytes of the debuggee, and gef's `u32`, which raises on anything but four bytes.
module _ (little : Bool) (u32 : List ℕ → Option ℕ) (file : List ℕ) where
  -- `self.fd.read(n)` at a position.
  abbrev pub read : ℕ → ℕ → List ℕ
  read pos n = take n (drop pos file)

  -- `read_and_unpack` in an order of bytes, and the position behind it.
  pub read_and_unpack : Bool → List ℕ → ℕ → Result Error (List ℕ × ℕ)
  unfolding unpack
  read_and_unpack order ws pos = unpack order ws (read pos (calcsize ws)) >>= λ values.
      ok (values, pos + length (read pos (calcsize ws)))

  pub read_u32 : ℕ → Result Error (ℕ × ℕ)
  read_u32 pos = elim (u32 (read pos 4)) [
    | none ↦ err struct_error
    | some n ↦ ok (n, pos + length (read pos 4))
  ]

  -- The numbers of IMAGE_FILE_HEADER and those of IMAGE_OPTIONAL_HEADER, from the position of the first.
  pub optional_header : ℕ → ℕ → MachineType → ℕ → List ℕ → ℕ → Result Error Headers
  unfolding read_and_unpack
  optional_header magic lfanew machine sections (stamp ∷ symbols ∷ count ∷ size ∷ flags ∷ []) pos =
      read_and_unpack little (4 ∷ 4 ∷ 4 ∷ 4 ∷ []) (pos + 0x10) >>= λ r. elim r.0 [
        | entry ∷ code ∷ rdata ∷ base ∷ [] ↦ ok (record {
          e_magic = magic;
          e_lfanew = lfanew;
          machine = machine;
          number_of_sections = sections;
          time_date_stamp = stamp;
          pointer_to_symbol_table = symbols;
          number_of_symbols = count;
          size_of_optional_header = size;
          characteristics = flags;
          address_of_entry_point = entry;
          base_of_code = code;
          base_of_data = rdata;
          image_base = base;
          entry_point = entry;
        })
        | _ ↦ err struct_error
      ]
  optional_header magic lfanew machine sections _ pos = err struct_error

  pub file_header : ℕ → ℕ → List ℕ → ℕ → Result Error Headers
  unfolding optional_header machine_type
  file_header magic lfanew (machine ∷ sections ∷ []) pos = do
    kind ← machine_type machine
    r ← read_and_unpack little (4 ∷ 4 ∷ 4 ∷ 2 ∷ 2 ∷ []) pos
    optional_header magic lfanew kind sections r.0 r.1
  file_header magic lfanew _ pos = err struct_error

  -- From the signature on.
  pub nt_headers : ℕ → ℕ → Result Error Headers
  unfolding file_header read_u32
  nt_headers magic lfanew = read_u32 lfanew >>= λ r.
      (if r.0 == 0x4550
        then (read_and_unpack little (2 ∷ 2 ∷ []) r.1 >>= λ s. file_header magic lfanew s.0 s.1)
        else err bad_pe_magic)

  pub dos_header : List ℕ → Result Error Headers
  unfolding nt_headers
  dos_header (magic ∷ []) =
      if magic == 0x4d5a then (read_u32 0x3c >>= λ r. nt_headers magic r.0) else err bad_dos_magic
  dos_header _ = err struct_error

  -- `__init__` of a file that can be read.
  unfoldable pub parse : Result Error Headers
  unfolding dos_header
  parse = read_and_unpack false (2 ∷ []) 0 >>= λ r. dos_header r.0

-- `gef.binary`
pub data Binary : Type 0 where
  pe : Headers → Binary
  elf : Binary
  other : Binary

-- What `reset_architecture` chooses; for an ELF file the function that it replaced decides.
pub data Architecture : Type 0 where
  abi_x86_32 abi_x86_64 from_elf : Architecture

pub pe_reset_architecture : MachineType → Result Error Architecture
pe_reset_architecture x86_32 = ok abi_x86_32
pe_reset_architecture x86_64 = ok abi_x86_64
pe_reset_architecture arm = err unknown_architecture
pe_reset_architecture arm64 = err unknown_architecture

unfoldable pub reset_architecture : Binary → Result Error Architecture
unfolding pe_reset_architecture
reset_architecture (pe headers) = pe_reset_architecture headers.machine
reset_architecture elf = ok from_elf
reset_architecture other = err unknown_architecture
