-- ===== src/Windbg.antt =====
-- scripts/windbg.py: the WinDBG compatibility layer, one module for each family of commands.
pub mod Sxe
pub mod Until
pub mod Registers
pub mod Location
mod Tests
