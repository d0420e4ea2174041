-- ===== src/SyscallArgs/Tables/Conventions/Tests.antt =====
-- Tests of scripts/syscall_args/syscall-tables and instances of the theorems.
use gef_extras.Common.{
  ℕ, List, [], ◌∷◌, map, length, take, some, Chars, codes, ok, ◌==◌, if◌then◌else◌, ◌≡◌, refl,
}
use gef_extras.Common.Strings.{chars_eq}
use gef_extras.SyscallArgs.{Entry, entry_of, Debuggee, shown, do_invoke}
use gef_extras.SyscallArgs.Shown.{param_line}
use gef_extras.SyscallArgs.Tables.{param}
use gef_extras.SyscallArgs.Tables.X8664.{x86_64}
use gef_extras.SyscallArgs.Tables.Conventions.{
  linux_64, for_64, register_names, do_invoke-convention,
}

abbrev close : Entry
close = record { name = codes "close"; params = param "$rdi" "unsigned int fd" ∷ [] }

abbrev restart : Entry
restart = record { name = codes "restart_syscall"; params = [] }

abbrev debuggee : Debuggee
debuggee = record {
  syscall_register = codes "$rax";
  pc = 16;
  is_syscall = λ address. address == 16;
  previous = some 14;
  register = λ name. if chars_eq name (codes "$rax") then 3 else 7;
  dereference_from = λ value. [];
  arrow = codes "->";
}

abbrev lines : List Chars
lines = map (param_line debuggee) close.params

close_shown :
    do_invoke debuggee (some x86_64)
    ≡ ok (shown (codes "close") (codes "unsigned int fd" ∷ []) lines)
unfolding do_invoke chars_eq
close_shown = refl

do_invoke-convention_example :
    (n : ℕ) × (entry : Entry) × (entry_of n x86_64 ≡ some entry)
    × (codes "close" ≡ entry.name)
    × (lines ≡ map (param_line debuggee) entry.params)
    × (register_names entry ≡ take (length (register_names entry)) linux_64)
do_invoke-convention_example =
    do_invoke-convention debuggee (codes "close") (codes "unsigned int fd" ∷ []) lines for_64
      close_shown
