-- ===== src/SyscallArgs/Tables.antt =====
-- scripts/syscall_args/syscall-tables: the tables of the system calls, of which those for x86 are
-- modelled.
pub mod X8664
pub mod X8632
pub mod Conventions
use gef_extras.Common.{ℕ, List, codes, String}
use gef_extras.SyscallArgs.{Param, Entry}

abbrev pub param : String → String → Param
param reg text = record { reg = codes reg; param = codes text }

-- `syscall_table[number] = Entry(name, params)`
abbrev pub row : ℕ → String → List Param → ℕ × Entry
row number name params = (number, record { name = codes name; params = params })
