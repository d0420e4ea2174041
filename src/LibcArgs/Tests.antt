-- ===== src/LibcArgs/Tests.antt =====
-- Tests of scripts/libc_function_args/__init__.py and instances of the theorems.
use gef_extras.Common.{
  true, false, List, [], ◌∷◌, none, some, Chars, codes, ok, err, length, if◌then◌else◌, ◌≡◌, refl,
}
use gef_extras.Common.Strings.{
  chars_eq, chars_mem, starts_with, ends_with, split, join, to_lower, rstrip,
}
use gef_extras.Common.Hex.{format_x}
use gef_extras.LibcArgs.{
  find, put, Parameters, Functions, Tables, missing, loaded, Files, Target, arch_mode,
  load_libc_args, Debuggee, basename_of, show_call, pane_content, index_error,
}
use gef_extras.LibcArgs.Called.{Call, extract_called_function_name, show_pane}
use gef_extras.LibcArgs.Named.{extract-named}
use gef_extras.LibcArgs.Pane.{IsLines, show_call-IsLines}

abbrev close_parameters : Parameters
close_parameters = (codes "$rdi", codes "int FILEDES") ∷ []

abbrev functions : Functions
functions = (codes "close", close_parameters) ∷ []

abbrev x86_64 : Target
x86_64 = record { arch = codes "X86"; mode = codes "64" }

abbrev x86_32 : Target
x86_32 = record { arch = codes "X86"; mode = codes "32" }

abbrev tables : Tables
tables = (codes "x86_64", functions) ∷ []

abbrev files : Files
files = record {
  has_directory = true;
  exists_before = λ name. true;
  generated = false;
  file = λ name. if chars_eq name (codes "x86_64") then loaded functions else missing;
}

abbrev debuggee : Debuggee
debuggee = record {
  parameter = λ i. (codes "$rdi", some 3);
  dereference_from = λ value. codes "0x3" ∷ [];
  arrow = codes "->";
}

abbrev close_lines : List Chars
close_lines = (b'\t' ∷ codes "$rdi = 0x3 /* int FILEDES) */") ∷ []

close_shown : show_call debuggee x86_64 (codes "close@plt") tables ≡ ok (some close_lines)
unfolding show_call find chars_eq ends_with split to_lower join
close_shown = refl

show_call-IsLines_example :
    (fs : Functions) × (parameters : Parameters) × (find (arch_mode x86_64) tables ≡ some fs)
    × (find (basename_of (codes "close@plt")) fs ≡ some parameters)
    × (length close_lines ≡ length parameters)
    × IsLines debuggee parameters 0 close_lines
show_call-IsLines_example =
    show_call-IsLines debuggee x86_64 (codes "close@plt") tables close_lines close_shown

abbrev with_missing : Tables
with_missing = (codes "x86_32", []) ∷ []

missing_loaded : load_libc_args files x86_32 [] ≡ ok (false, with_missing)
unfolding load_libc_args find put chars_eq to_lower
missing_loaded = refl

abbrev calls : List (Target × Chars)
calls = (x86_64, codes "close@plt") ∷ (x86_32, codes "close@plt") ∷ []

no_table : find (arch_mode x86_32) tables ≡ none
unfolding find chars_eq to_lower
no_table = refl

abbrev call_of : List Chars → Call
call_of operands = record {
  is_call = true;
  operands = operands;
  ptrsize = 8;
  all_registers = codes "$rax" ∷ [];
  register = λ r. 0x4a;
}

abbrev close_call : Call
close_call = call_of (codes "0x401030 <close@plt>" ∷ [])

call_register : extract_called_function_name (call_of (codes "rax" ∷ [])) ≡ ok (codes "*0x4a")
unfolding extract_called_function_name starts_with chars_mem chars_eq format_x
call_register = refl

call_memory :
    extract_called_function_name (call_of (codes "QWORD PTR [rip+0x2fe2]" ∷ []))
    ≡ ok (codes "*[rip+0x2fe2]")
unfolding extract_called_function_name starts_with rstrip
call_memory = refl

call_address :
    extract_called_function_name (call_of (codes "0x7ff0 + 0x401g" ∷ [])) ≡ ok (codes "0x401")
unfolding extract_called_function_name starts_with chars_mem chars_eq join
call_address = refl

call_nothing : extract_called_function_name (call_of []) ≡ err index_error
unfolding extract_called_function_name
call_nothing = refl

pane_shown : show_pane files debuggee x86_64 close_call tables ≡ (tables, ok (some close_lines))
unfolding show_pane extract_called_function_name starts_with chars_mem chars_eq join pane_content
    show_call find ends_with split to_lower
pane_shown = refl

no_pointer : starts_with (codes "0x401030 <close@plt>") (codes "QWORD PTR") ≡ false
unfolding starts_with
no_pointer = refl

no_register : chars_mem (codes "$0x401030 <close@plt>") (codes "$rax" ∷ []) ≡ false
unfolding chars_mem chars_eq
no_register = refl

joined_operands :
    join (codes " ") (codes "0x401030 <close@plt>" ∷ []) ≡ codes "0x401030 <close@plt>"
unfolding join
joined_operands = refl

extract-named_example :
    (extract_called_function_name close_call ≡ ok (codes "close@plt"))
    × (basename_of (codes "close@plt") ≡ codes "close")
extract-named_example =
    extract-named close_call (codes "0x401030 <close@plt>") [] (codes "QWORD") (codes "0x401030 ")
      (codes "close@plt") [] refl refl refl no_pointer no_register joined_operands refl refl
