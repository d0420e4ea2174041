-- ===== src/Assemble.antt =====
-- scripts/assemble.py: the commands `assemble` and `set-permission`.
pub mod Target
pub mod Run
pub mod Permission
mod Tests
