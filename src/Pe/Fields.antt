-- ===== src/Pe/Fields.antt =====
-- os/pe.py: where in the file the parsed headers stand.
use gef_extras.Common.{
  ℕ, ◌+◌, Bool, false, List, [], ◌∷◌, Option, some, ok, err, ◌>>=◌, bind_ok, length, ◌==◌,
  if◌then◌else◌, ◌≡◌, refl, ap, sym, ◌∙◌, arith, Option-cases, inl, inr,
}
use gef_extras.Pe.{
  MachineType, machine_type, bad_pe_magic, Headers, fields, calcsize, unpack, read, read_and_unpack,
  read_u32, optional_header, file_header, nt_headers, dos_header, parse,
}

unpack_ok :
    (order : Bool) (ws bytes vs : List ℕ)
    → unpack order ws bytes ≡ ok vs
    → (vs ≡ fields order ws bytes) × (length bytes ≡ calcsize ws)
unfolding unpack
unpack_ok order ws bytes vs h = (ground (arith, h), ground (arith, h))

module _ (little : Bool) (u32 : List ℕ → Option ℕ) (file : List ℕ)
    (four : (bytes : List ℕ) (n : ℕ) → u32 bytes ≡ some n → length bytes ≡ 4) where
  read_and_unpack_ok :
      (order : Bool) (ws : List ℕ) (pos : ℕ) (r : List ℕ × ℕ)
      → read_and_unpack little u32 file order ws pos ≡ ok r
      → (fields order ws (read little u32 file pos (calcsize ws)) ≡ r.0) × (r.1 ≡ pos + calcsize ws)
  unfolding read_and_unpack
  read_and_unpack_ok order ws pos r h =
      let bytes = read little u32 file pos (calcsize ws) in
      let (vs, e, f) =
        bind_ok (unpack order ws bytes) (λ values. ok (values, pos + length bytes)) h in
      let (g, k) = unpack_ok order ws bytes vs e in (ground (arith, g, f), ground (arith, k, f))

  read_u32_ok :
      (pos : ℕ) (r : ℕ × ℕ)
      → read_u32 little u32 file pos ≡ ok r
      → (u32 (read little u32 file pos 4) ≡ some r.0) × (r.1 ≡ pos + 4)
  unfolding read_u32
  read_u32_ok pos r h = elim (Option-cases (u32 (read little u32 file pos 4))) [
    | inl e ↦ absurd (ground (arith, e, h))
    | inr (n, e) ↦ (ground (arith, e, h), ground (arith, four _ n e, e, h))
  ]

  -- The numbers at a place in the file, as the format lays them out.
  abbrev pub numbers_at : ℕ → List ℕ → List ℕ
  numbers_at pos ws = fields little ws (read little u32 file pos (calcsize ws))

  abbrev pub stamps : Headers → List ℕ
  stamps h =
      h.time_date_stamp ∷ h.pointer_to_symbol_table ∷ h.number_of_symbols
      ∷ h.size_of_optional_header ∷ h.characteristics ∷ []

  abbrev pub entries : Headers → List ℕ
  entries h = h.address_of_entry_point ∷ h.base_of_code ∷ h.base_of_data ∷ h.image_base ∷ []

  abbrev IsOptional : ℕ → ℕ → MachineType → ℕ → List ℕ → ℕ → Headers → Type 0
  IsOptional magic lfanew machine sections values pos h =
      (values ≡ stamps h)
      × (numbers_at (pos + 0x10) (4 ∷ 4 ∷ 4 ∷ 4 ∷ []) ≡ entries h)
      × (h.entry_point ≡ h.address_of_entry_point)
      × (h.e_magic ≡ magic)
      × (h.e_lfanew ≡ lfanew)
      × (h.machine ≡ machine)
      × (h.number_of_sections ≡ sections)

  optional_header_ok :
      (magic lfanew : ℕ) (machine : MachineType) (sections : ℕ) (values : List ℕ) (pos : ℕ)
      (h : Headers)
      → optional_header little u32 file magic lfanew machine sections values pos ≡ ok h
      → IsOptional magic lfanew machine sections values pos h
  unfolding optional_header
  optional_header_ok magic lfanew machine sections values pos h e =
      ground (arith, e, read_and_unpack_ok little (4 ∷ 4 ∷ 4 ∷ 4 ∷ []) (pos + 0x10))

  abbrev pub file_sizes : List ℕ
  file_sizes = 4 ∷ 4 ∷ 4 ∷ 2 ∷ 2 ∷ []

  -- Behind the numbers of machine and sections.
  abbrev IsFile : ℕ → ℕ → List ℕ → ℕ → Headers → Type 0
  IsFile magic lfanew values pos h =
      (m : ℕ) × (values ≡ m ∷ h.number_of_sections ∷ [])
      × (machine_type m ≡ ok h.machine)
      × (numbers_at pos file_sizes ≡ stamps h)
      × (numbers_at (pos + 32) (4 ∷ 4 ∷ 4 ∷ 4 ∷ []) ≡ entries h)
      × (h.entry_point ≡ h.address_of_entry_point)
      × (h.e_magic ≡ magic)
      × (h.e_lfanew ≡ lfanew)

  file_header_two :
      (magic lfanew m sections pos : ℕ) (h : Headers)
      → file_header little u32 file magic lfanew (m ∷ sections ∷ []) pos ≡ ok h
      → IsFile magic lfanew (m ∷ sections ∷ []) pos h
  unfolding file_header
  file_header_two magic lfanew m sections pos h e =
      let (kind, k, e1) =
        bind_ok (machine_type m)
          (λ kind. read_and_unpack little u32 file little file_sizes pos >>= λ r.
            optional_header little u32 file magic lfanew kind sections r.0 r.1)
          e in
      let (r, f, e2) =
        bind_ok (read_and_unpack little u32 file little file_sizes pos)
          (λ r. optional_header little u32 file magic lfanew kind sections r.0 r.1) e1 in
      let (a, b) = read_and_unpack_ok little file_sizes pos r f in
      let (v, n, p, g, l, mt, s) = optional_header_ok magic lfanew kind sections r.0 r.1 h e2 in
      let far : pos + 16 + 16 ≡ pos + 32 = omega arith in
      (m, rw s refl, rw mt k, a ∙ v, rw far at (rw b at n), p, g, l)

  file_header_ok :
      (magic lfanew : ℕ) (values : List ℕ) (pos : ℕ) (h : Headers)
      → file_header little u32 file magic lfanew values pos ≡ ok h
      → IsFile magic lfanew values pos h
  file_header_ok magic lfanew (m ∷ sections ∷ []) pos h e =
      file_header_two magic lfanew m sections pos h e
  file_header_ok magic lfanew [] pos h e = absurd (unfold file_header in cc e)
  file_header_ok magic lfanew (m ∷ []) pos h e = absurd (unfold file_header in cc e)
  file_header_ok magic lfanew (m ∷ s ∷ t ∷ more) pos h e = absurd (unfold file_header in cc e)

  nt_headers_ok :
      (magic lfanew : ℕ) (h : Headers)
      → nt_headers little u32 file magic lfanew ≡ ok h
      → (u32 (read little u32 file lfanew 4) ≡ some 0x4550)
        × IsFile magic lfanew (numbers_at (lfanew + 4) (2 ∷ 2 ∷ [])) (lfanew + 8) h
  unfolding nt_headers
  nt_headers_ok magic lfanew h e =
      let rest = λ (pos : ℕ). read_and_unpack little u32 file little (2 ∷ 2 ∷ []) pos >>= λ s.
      file_header little u32 file magic lfanew s.0 s.1 in
      let (r, f, e1) =
        bind_ok (read_u32 little u32 file lfanew)
          (λ r. if r.0 == 0x4550 then rest r.1 else err bad_pe_magic) e in
      let (u, q) = read_u32_ok lfanew r f in
      let signature : r.0 ≡ 0x4550 = ground (arith, e1) in
      let e2 : rest r.1 ≡ ok h = rw signature at e1 in
      let (s, g, e3) =
        bind_ok (read_and_unpack little u32 file little (2 ∷ 2 ∷ []) r.1)
          (λ s. file_header little u32 file magic lfanew s.0 s.1) e2 in
      let (a, b) = read_and_unpack_ok little (2 ∷ 2 ∷ []) r.1 s g in
      let far : s.1 ≡ lfanew + 8 = omega (arith, b, q) in
      let place : s.0 ≡ numbers_at (lfanew + 4) (2 ∷ 2 ∷ []) = sym a ∙ rw q refl in
      (rw signature at u, rw (place, far) at (file_header_ok magic lfanew s.0 s.1 h e3))

  dos_signature :
      (magic : ℕ) (h : Headers)
      → magic ≡ 0x4d5a
      → dos_header little u32 file (magic ∷ []) ≡ ok h
      → (read_u32 little u32 file 0x3c >>= λ r. nt_headers little u32 file magic r.0) ≡ ok h
  unfolding dos_header
  dos_signature magic h s e = ground (arith, s, e)

  dos_header_ok :
      (magic : ℕ) (h : Headers)
      → dos_header little u32 file (magic ∷ []) ≡ ok h
      → (magic ≡ 0x4d5a)
        × (r : ℕ × ℕ) × (read_u32 little u32 file 0x3c ≡ ok r)
        × (nt_headers little u32 file magic r.0 ≡ ok h)
  unfolding dos_header
  dos_header_ok magic h e =
      let signature : magic ≡ 0x4d5a = ground (arith, e) in
      let (r, f, g) =
        bind_ok (read_u32 little u32 file 0x3c) (λ r. nt_headers little u32 file magic r.0)
          (dos_signature magic h signature e) in
      (signature, r, f, g)

  further :
      (lfanew : ℕ) (ws : List ℕ) {values : List ℕ}
      → numbers_at (lfanew + 8 + 32) ws ≡ values
      → numbers_at (lfanew + 40) ws ≡ values
  further lfanew ws h = let far : lfanew + 8 + 32 ≡ lfanew + 40 = omega arith in rw far at h

  moved :
      {a b : ℕ} (k : ℕ) (ws : List ℕ) {values : List ℕ}
      → a ≡ b
      → numbers_at (b + k) ws ≡ values
      → numbers_at (a + k) ws ≡ values
  moved k ws e h = rw e h

  found_u32 :
      {a b n : ℕ}
      → a ≡ b
      → u32 (read little u32 file b 4) ≡ some n
      → u32 (read little u32 file a 4) ≡ some n
  found_u32 e h = rw e h

  -- When a file is parsed, the headers are the numbers that stand at the offsets of the format, in the
  -- debuggee's order of bytes: the file begins with "MZ", the offset at 0x3c leads to the signature
  -- "PE", behind which stand the machine type, which is a known one, and the number of sections, then
  -- the rest of the file header, and 16 bytes into the optional header the entry point, which is also
  -- that of the object, and the bases. `u32` accepts nothing but four bytes.
  pub parse-numbers_at :
      (h : Headers)
      → parse little u32 file ≡ ok h
      → (fields false (2 ∷ []) (read little u32 file 0 2) ≡ 0x4d5a ∷ [])
        × (u32 (read little u32 file 0x3c 4) ≡ some h.e_lfanew)
        × (u32 (read little u32 file h.e_lfanew 4) ≡ some 0x4550)
        × (m : ℕ) × (numbers_at (h.e_lfanew + 4) (2 ∷ 2 ∷ []) ≡ m ∷ h.number_of_sections ∷ [])
        × (machine_type m ≡ ok h.machine)
        × (numbers_at (h.e_lfanew + 8) file_sizes ≡ stamps h)
        × (numbers_at (h.e_lfanew + 40) (4 ∷ 4 ∷ 4 ∷ 4 ∷ []) ≡ entries h)
        × (h.entry_point ≡ h.address_of_entry_point)
  unfolding parse
  parse-numbers_at h e =
      let (r, f, e1) =
        bind_ok (read_and_unpack little u32 file false (2 ∷ []) 0)
          (λ r. dos_header little u32 file r.0) e in
      let (a, b) = read_and_unpack_ok false (2 ∷ []) 0 r f in
      let (magic, s, g, e2) = dos_header_ok _ h (rw (sym a) at e1) in
      let (u, v) = read_u32_ok 0x3c s g in
      let (w, parts) = nt_headers_ok _ s.0 h e2 in
      let (m, place, kind, file_part, optional, entry, n, l) = parts in
      (
        ap (λ t. t ∷ []) magic,
        u ∙ ap some (sym l),
        found_u32 l w,
        m,
        moved 4 (2 ∷ 2 ∷ []) l place,
        kind,
        moved 8 file_sizes l file_part,
        moved 40 (4 ∷ 4 ∷ 4 ∷ 4 ∷ []) l (further s.0 (4 ∷ 4 ∷ 4 ∷ 4 ∷ []) optional),
        entry,
      )
