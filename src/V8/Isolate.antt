-- ===== src/V8/Isolate.antt =====
-- scripts/v8-dereference.py: get_isolate_root and del_isolate_root, over the cached address.
pub mod Cached
use gef_extras.Common.{ℕ, zero, suc, ◌++◌, Option, none, some, Chars, codes, Result, ok, err, ◌>>=◌}
use gef_extras.Common.Strings.{strip, read_hex}
use gef_extras.Common.Hex.{format_d}
use gef_extras.V8.{Error, gdb_error, index_error, value_error, Debuggee, first_part, second_part}

-- The global `isolate_root`.
abbrev pub Cache : Type 0
Cache = Option ℕ

-- An exception where the value is missing.
abbrev pub or_raise : {A : Type 0} → Error → Option A → Result Error A
or_raise e none = err e
or_raise e (some a) = ok a

-- What is cached: a root that was found.
abbrev pub keep : Cache → Result Error (Option ℕ) → Cache × Result Error (Option ℕ)
keep cache (ok (some root)) = (some root, ok (some root))
keep cache (ok none) = (cache, ok none)
keep cache (err e) = (cache, err e)

module _ (d : Debuggee) where
  unfoldable pub lookup_symbol_hack : Chars → Result Error ℕ
  unfolding second_part first_part
  lookup_symbol_hack symbol = do
    info ← or_raise gdb_error (d.execute (codes "info address " ++ symbol))
    rest ← or_raise index_error (second_part (codes " is at ") info)
    or_raise value_error (read_hex (strip (first_part (codes " ") rest)))

  -- What the `try` block reads.
  isolate_key : Result Error Chars
  unfolding lookup_symbol_hack
  isolate_key = do
    address ← lookup_symbol_hack (codes "v8::internal::Isolate::isolate_key_")
    or_raise gdb_error (d.read_key address)

  call_thread_local : Chars → Result Error ℕ
  unfolding lookup_symbol_hack
  call_thread_local key = do
    address ← lookup_symbol_hack (codes "v8::base::Thread::GetThreadLocal")
    res ← or_raise gdb_error (
        d.execute (codes "call (void*)" ++ (format_d address ++ (codes "(" ++ (key ++ codes ")")))))
    root ← or_raise index_error (second_part (codes "0x") res)
    or_raise value_error (read_hex (strip root))

  -- Where nothing is cached, or zero. A key that cannot be read is `None`, behind a message.
  unfoldable pub find_isolate_root : Result Error (Option ℕ)
  unfolding isolate_key call_thread_local
  find_isolate_root = elim isolate_key [
    | err e ↦ ok none
    | ok key ↦ elim (call_thread_local key) [ err e ↦ err e | ok root ↦ ok (some root) ]
  ]

  unfoldable pub get_isolate_root : Cache → Cache × Result Error (Option ℕ)
  unfolding find_isolate_root
  get_isolate_root none = keep none find_isolate_root
  get_isolate_root (some zero) = keep (some zero) find_isolate_root
  get_isolate_root (some (suc root)) = (some (suc root), ok (some (suc root)))

unfoldable pub del_isolate_root : Cache → Cache
del_isolate_root cache = none
