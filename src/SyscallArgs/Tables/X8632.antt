-- ===== src/SyscallArgs/Tables/X8632.antt =====
-- scripts/syscall_args/syscall-tables/X86.py: the whole table.
mod From0
mod From72
mod From141
mod From209
mod From277
mod From342
use gef_extras.Common.{◌++◌}
use gef_extras.SyscallArgs.{Table}
use gef_extras.SyscallArgs.Tables.X8632.From0.{from_0}
use gef_extras.SyscallArgs.Tables.X8632.From72.{from_72}
use gef_extras.SyscallArgs.Tables.X8632.From141.{from_141}
use gef_extras.SyscallArgs.Tables.X8632.From209.{from_209}
use gef_extras.SyscallArgs.Tables.X8632.From277.{from_277}
use gef_extras.SyscallArgs.Tables.X8632.From342.{from_342}

abbrev pub x86 : Table
x86 = from_0 ++ (from_72 ++ (from_141 ++ (from_209 ++ (from_277 ++ from_342))))
