-- ===== src/Lib.antt =====
-- Verification of gef-extras, a collection of commands, architectures and file formats that extend
-- gef, the gdb plugin.
--
-- The scripts are independent commands that gef loads; they meet in gef's state (architecture, memory,
-- settings) and in gdb. Everything that belongs to gef, gdb, Keystone or the file system is an
-- argument of the definitions: an evaluation of expressions is a function, an exception of a called
-- library an `Option` or a `Result`, and the debuggee a record or a type of states with the effect of a
-- command on it.
--
-- Common: numbers, lists, fallible results, Python's truth values and operators (Common/Python),
--   texts as lists of code points (Common/Text) with the methods of `str` that the scripts call
--   (Common/Strings), numerals (Common/Hex), single bits (Common/Bits) and the rounds of a `range`
--   (Common/Ranges).
-- Gef: gef's `Instruction`.
-- M68k: archs/m68k.py, the class M68K.
-- Assemble: scripts/assemble.py. Assemble/Target is the table VALID_ARCH_MODES and the part of
--   AssembleCommand.do_invoke that settles on a target; Assemble/Run is ks_assemble with the global
--   `__ks`, list_archs and the rest of do_invoke; Assemble/Permission is ChangePermissionCommand and its
--   breakpoint.
-- Windbg: scripts/windbg.py. Windbg/Sxe is BreakOnLoadSharedLibrary and WindbgSxeCommand, Windbg/Until
--   windbg_execute_until and the tracers, Windbg/Registers WindbgRCommand, and Windbg/Location the
--   commands u, xs, g and hh and the prompt.
-- Bincompare: scripts/bincompare.py, BincompareCommand.
-- Bytearray: scripts/bytearray.py, BytearrayCommand.
-- Heap: scripts/visualize_heap.py. Heap itself is VisualizeHeapChunksCommand.do_invoke with is_corrupted and
--   collect_known_ranges; Heap/Bins is collect_known_values, whose loops along lists of chunks run on
--   fuel: a list that ends needs as many rounds as it has chunks.
-- Remote: archs/arm-blackmagicprobe.py (Remote/Bmp) and archs/arm-openocd.py (Remote/OpenOcd), over gef's
--   session state, the hooks for new object files and the commands that gdb was given.
-- Pe: os/pe.py, the parsing of PE.__init__ over the bytes of a file, and reset_architecture.
-- GotAudit: scripts/got_audit.py, GotAuditCommand with its two dictionaries; GotAudit/ExpectedDups is
--   the table _expected_dups_.
-- LibcArgs: scripts/libc_function_args/__init__.py, load_libc_args and pane_content of
--   GlibcFunctionArguments over its table of tables.
-- Capstone: scripts/capstone.py, gef_to_cs_arch, cs_disassemble and the listing of
--   CapstoneDisassembleCommand.do_invoke.
-- SyscallArgs: scripts/syscall_args/__init__.py, SyscallArgsCommand.do_invoke with the table of the
--   architecture as an argument.
-- V8: scripts/v8-dereference.py. V8/Isolate is get_isolate_root with its global, V8/Chain dereference_from,
--   and V8/Command do_invoke with pprint_dereferenced. The loop along the pointers has as many rounds as
--   the setting `max_recursion`.
-- Emulate: scripts/emulate/__init__.py. Emulate itself has the names for unicorn and capstone, Emulate/Script
--   run_unicorn with the statements and files that it writes; in Emulate/Script/Loaded the
--   emulator is a parameter, with what the script relies on: writing changes the bytes that it covers, and
--   mapping a region none outside it.
-- PeekPointers: scripts/peekpointers.py. The scan runs on fuel: where the valid addresses have a bound, the
--   distance to it is enough.
-- SyscallArgs/Tables: scripts/syscall_args/syscall-tables/X86_64.py and X86.py, one row for each assignment;
--   SyscallArgs/Tables/Conventions is about all their rows.
-- Ida: scripts/ida_interact.py. Ida itself has the commands on the database, Ida/Session reconnect and the
--   wrapper only_if_active_rpyc_session.
-- XrefTelescope: scripts/xref-telescope.py. The recursion is on the depth, three where none is given.
-- LibcArgs/Generator: scripts/libc_function_args/tables/generator.py, from the lines of the manual to the
--   tables that LibcArgs reads.
-- Ftrace: scripts/ftrace.py, the breakpoints on tracked functions and on their returns.
-- Stack: scripts/stack.py, the words of the selected frame.
-- LibcArgs/Called: extract_called_function_name; the two regular expressions are written out as searches
--   for the last `<` and the last `0x`.
--
-- Loops over lists are recursion on the list, and loops over a range recursion on the number of its
-- rounds, which the definitions compute from the range as Python does; only Heap/Bins and PeekPointers run
-- on fuel, and in Windbg/Until a trace with a count below zero, which the count never ends.
-- Machine words are natural numbers with the wrap-around written out where the source masks them.
--
-- Not modelled: the colours and messages that have no effect on later behaviour, the registration of
-- commands with gef, and the scripts that only forward to a service or a library (retdec.py,
-- ropper.py, remote.py), the type stubs and the structure definitions. Nor are the
-- directories scripts/kernel and scripts/error, os/macho.py,
-- archs/arm-cortex-m.py and the tables of system calls of ARM, PowerPC and SPARC.
pub mod Common
pub mod Gef
pub mod M68k
pub mod Assemble
pub mod Windbg
pub mod Bincompare
pub mod Bytearray
pub mod Heap
pub mod Remote
pub mod Pe
pub mod GotAudit
pub mod LibcArgs
pub mod Capstone
pub mod SyscallArgs
pub mod V8
pub mod Emulate
pub mod Ftrace
pub mod Stack
pub mod PeekPointers
pub mod Ida
pub mod XrefTelescope
