-- ===== src/LibcArgs/Generator/Generated.antt =====
-- scripts/libc_function_args/tables/generator.py: the tables that are made of the prototypes.
use gef_extras.Common.{
  Bool, true, false, not, ◌&&◌, List, [], ◌∷◌, ◌++◌, map, length, all_of, Chars, ok, err, ◌>>=◌,
  leb, if◌then◌else◌, ◌≡◌, refl, ap, sym, ◌∙◌, arith, append_assoc, append-nil, Bool-cases, inl,
  inr,
}
use gef_extras.Common.Strings.{chars_mem}
use gef_extras.LibcArgs.{Parameters, Functions, put}
use gef_extras.LibcArgs.Generator.{index_error, Prototypes, fill, generate}

-- No text stands twice in a list.
unfoldable pub are_distinct : List Chars → Bool
are_distinct [] = true
are_distinct (s ∷ texts) = not (chars_mem s texts) && are_distinct texts

abbrev pub keys : Parameters → List Chars
keys d = map (λ (p : Chars × Chars). p.0) d

-- The parameters with the arguments, as far as both go.
unfoldable pub zip : List Chars → List Chars → Parameters
zip [] values = []
zip (param ∷ params) [] = []
zip (param ∷ params) (value ∷ values) = (param, value) ∷ zip params values

-- None of the keys is among the parameters.
avoids : List Chars → Parameters → Bool
avoids params d = all_of (λ (p : Chars × Chars). not (chars_mem p.0 params)) d

put_new :
    (key v : Chars) (d : Parameters) (params : List Chars)
    → avoids (key ∷ params) d ≡ true
    → put key v d ≡ d ++ (key, v) ∷ []
unfolding put avoids chars_mem
put_new key v [] params h = refl
put_new key v ((k, w) ∷ d) params h = let rest = put_new key v d params in ground (arith, rest)

avoids-put :
    (key v : Chars) (d : Parameters) (params : List Chars)
    → avoids (key ∷ params) d ≡ true
    → chars_mem key params ≡ false
    → avoids params (d ++ (key, v) ∷ []) ≡ true
unfolding avoids chars_mem
avoids-put key v [] params h n = ground arith
avoids-put key v ((k, w) ∷ d) params h n =
    let rest = avoids-put key v d params in ground (arith, rest)

fill-zip :
    (params values : List Chars) (filled : Parameters)
    → are_distinct params ≡ true
    → avoids params filled ≡ true
    → fill params values filled ≡ (
        if leb (length values) (length params)
        then ok (filled ++ zip params values)
        else err index_error)
unfolding fill are_distinct zip
fill-zip [] [] filled u a = ap (λ t. ok t) (sym (append-nil filled))
fill-zip (param ∷ params) [] filled u a = let e = sym (append-nil filled) in ground (arith, e)
fill-zip [] (value ∷ values) filled u a = ground arith
fill-zip (param ∷ params) (value ∷ values) filled u a =
    let apart : chars_mem param params ≡ false = ground arith in
    let distinct : are_distinct params ≡ true = ground arith in
    let e = put_new param value filled params a in
    let rest =
      fill-zip params values (filled ++ (param, value) ∷ []) distinct
        (avoids-put param value filled params a apart) in
    let regrouped = append_assoc filled ((param, value) ∷ []) (zip params values) in
    ap (fill params values) e ∙ rest ∙ ground (arith, regrouped)

-- The functions with their parameters.
abbrev pub rows : List Chars → Prototypes → Functions
rows params function_dict = map (λ (f : Chars × List Chars). (f.0, zip params f.1)) function_dict

abbrev pub fit : List Chars → Prototypes → Bool
fit params function_dict =
    all_of (λ (f : Chars × List Chars). leb (length f.1) (length params)) function_dict

-- With distinct parameters, a table is made exactly if no function has more arguments than there are
-- parameters: it has every function in its place, with its arguments under the first parameters in
-- their order. Otherwise there is an `IndexError` and no table.
pub generate-rows :
    (params : List Chars) (function_dict : Prototypes)
    → are_distinct params ≡ true
    → generate params function_dict
      ≡ (if fit params function_dict then ok (rows params function_dict) else err index_error)
unfolding generate avoids
generate-rows params [] u = refl
generate-rows params ((name, values) ∷ function_dict) u =
    let one = fill-zip params values [] u refl in
    let rest = generate-rows params function_dict u in
    elim (Bool-cases (leb (length values) (length params))) [
      | inr e ↦ rw (one, e, ◌>>=◌) refl
      | inl e ↦ elim (Bool-cases (fit params function_dict)) [
        | inl f ↦ rw (one, e, ◌>>=◌, rest, f, ◌>>=◌) refl
        | inr f ↦ rw (one, e, ◌>>=◌, rest, f, ◌>>=◌) refl
      ]
    ]
