-- ===== src/Emulate/Names.antt =====
-- scripts/emulate/__init__.py: the names for unicorn beside those for capstone.
use gef_extras.Common.{drop, codes, String, Result, ok, err, ◌≡◌, ◌≢◌, arith}
use gef_extras.Common.Strings.{chars_ne}
use gef_extras.Capstone.{Arch}
use gef_extras.Emulate.{Error, Triple, gef_to_uc_arch, gef_to_cs_arch}

-- The names without the prefix of their library.
abbrev pub bare : Result Error Triple → Result Error Triple
bare (ok (arch, mode, endian)) = ok (drop 3 arch, drop 3 mode, drop 3 endian)
bare (err e) = err e

-- For every architecture but 64-bit ARM, and every mode but that of 64-bit MIPS, unicorn and capstone
-- are given the same architecture, mode and order of bytes, or both are refused.
pub uc_names-cs_names :
    (arm64_name : String) (a : Arch)
    → a.arch ≢ codes "ARM64"
    → a.mode ≢ codes "MIPS64"
    → bare (gef_to_uc_arch a) ≡ bare (gef_to_cs_arch arm64_name a)
unfolding gef_to_uc_arch gef_to_cs_arch
uc_names-cs_names arm64_name a n m =
    let e = chars_ne a.arch (codes "ARM64") n in
    let f = chars_ne a.mode (codes "MIPS64") m in ground (arith, e, f)
