-- ===== src/Gef.antt =====
-- What the commands see of gef itself: the data types that scripts/__init__.pyi declares.
use gef_extras.Common.{ℕ, String, List}

-- `class Instruction`; `opcodes` holds the raw bytes.
pub record Instruction : Type 0 where
  pub address : ℕ
  pub location : String
  pub mnemonic : String
  pub operands : List String
  pub opcodes : List ℕ
