-- ===== src/LibcArgs/Generator/Tests.antt =====
-- Tests of scripts/libc_function_args/tables/generator.py and instances of the theorems.
use gef_extras.Common.{true, List, [], ◌∷◌, Chars, codes, ok, err, if◌then◌else◌, ◌≡◌, refl, arith}
use gef_extras.Common.Strings.{strip, rstrip, lstrip, chars_eq, chars_mem}
use gef_extras.LibcArgs.Generator.{
  index_error, get_function_name, get_function_args, stripped_line, prototypes, collect, generate,
  params_64,
}
use gef_extras.LibcArgs.Generator.Parsed.{IsArgument, prototype, get_function-prototype}
use gef_extras.LibcArgs.Generator.Generated.{are_distinct, rows, fit, generate-rows}

abbrev manual : List Chars
manual =
    codes "text\n"
    ∷ codes " -- Function: char * strcpy (char *TO,\n"
    ∷ codes "          const char *FROM);\n"
    ∷ codes " -- Function: int abs (int N)\n"
    ∷ []

read_manual :
    collect (prototypes manual) []
    ≡ (codes "strcpy", codes "char *TO" ∷ codes "const char *FROM" ∷ [])
      ∷ (codes "abs", codes "int N" ∷ [])
      ∷ []
unfolding collect prototypes stripped_line get_function_name get_function_args chars_eq
read_manual = refl

int_n : IsArgument (codes "int N")
unfolding strip lstrip rstrip
int_n = (omega arith, refl)

get_function-prototype_example :
    (get_function_name (prototype (codes "int") (codes "abs") (codes "int N" ∷ [])) ≡ codes "abs")
    × (get_function_args (prototype (codes "int") (codes "abs") (codes "int N" ∷ []))
        ≡ codes "int N" ∷ [])
get_function-prototype_example =
    get_function-prototype (codes "int") (codes "abs") (codes "int N") [] (omega arith)
      (omega arith) (int_n, tt)

distinct_64 : are_distinct params_64 ≡ true
unfolding are_distinct chars_mem chars_eq
distinct_64 = refl

-- A function of seven arguments.
abbrev seven : List (Chars × List Chars)
seven = (codes "f", [] ∷ [] ∷ [] ∷ [] ∷ [] ∷ [] ∷ [] ∷ []) ∷ []

generate-rows_example :
    generate params_64 seven
    ≡ (if fit params_64 seven then ok (rows params_64 seven) else err index_error)
generate-rows_example = generate-rows params_64 seven distinct_64

too_many : generate params_64 seven ≡ err index_error
unfolding generate
too_many = refl
