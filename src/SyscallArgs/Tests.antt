-- ===== src/SyscallArgs/Tests.antt =====
-- Tests of scripts/syscall_args/__init__.py and an instance of the theorem.
use gef_extras.Common.{
  ℕ, List, [], ◌∷◌, map, some, Chars, codes, ok, ◌==◌, if◌then◌else◌, ◌≡◌, refl,
}
use gef_extras.Common.Strings.{chars_eq}
use gef_extras.SyscallArgs.{
  Param, Entry, Table, entry_of, Debuggee, shown, last_from, param_name, do_invoke,
}
use gef_extras.SyscallArgs.Shown.{param_line, IsNumber, do_invoke-shown}

pointer_name : param_name (codes "const char *buf") ≡ codes "buf"
unfolding last_from
pointer_name = refl

abbrev params : List Param
params = record { reg = codes "$rdi"; param = codes "int fd" } ∷ []

abbrev close : Entry
close = record { name = codes "sys_close"; params = params }

abbrev table : Table
table = (3, close) ∷ []

-- Behind the instruction: the number is in the saved register.
abbrev debuggee : Debuggee
debuggee = record {
  syscall_register = codes "$rax";
  pc = 18;
  is_syscall = λ address. address == 16;
  previous = some 16;
  register = λ name. if chars_eq name (codes "$orig_rax") then 3 else 7;
  dereference_from = λ value. [];
  arrow = codes "->";
}

abbrev lines : List Chars
lines = map (param_line debuggee) params

close_shown :
    do_invoke debuggee (some table) ≡ ok (shown (codes "sys_close") (codes "int fd" ∷ []) lines)
unfolding do_invoke chars_eq
close_shown = refl

do_invoke-shown_example :
    (entries : Table) × (n : ℕ) × (entry : Entry) × (some table ≡ some entries)
    × (entry_of n entries ≡ some entry)
    × (codes "sys_close" ≡ entry.name)
    × (lines ≡ map (param_line debuggee) entry.params)
    × IsNumber debuggee n
do_invoke-shown_example =
    do_invoke-shown debuggee (some table) (codes "sys_close") (codes "int fd" ∷ []) lines
      close_shown
