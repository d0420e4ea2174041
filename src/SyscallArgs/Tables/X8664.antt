-- ===== src/SyscallArgs/Tables/X8664.antt =====
-- scripts/syscall_args/syscall-tables/X86_64.py: the whole table.
mod From0
mod From64
mod From128
mod From202
mod From271
use gef_extras.Common.{◌++◌}
use gef_extras.SyscallArgs.{Table}
use gef_extras.SyscallArgs.Tables.X8664.From0.{from_0}
use gef_extras.SyscallArgs.Tables.X8664.From64.{from_64}
use gef_extras.SyscallArgs.Tables.X8664.From128.{from_128}
use gef_extras.SyscallArgs.Tables.X8664.From202.{from_202}
use gef_extras.SyscallArgs.Tables.X8664.From271.{from_271}

abbrev pub x86_64 : Table
x86_64 = from_0 ++ (from_64 ++ (from_128 ++ (from_202 ++ from_271)))
