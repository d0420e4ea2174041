-- ===== src/V8/Isolate/Cached.antt =====
-- scripts/v8-dereference.py: how long the root of the isolate stays cached.
use gef_extras.Common.{ℕ, zero, suc, Option, none, some, Result, ok, err, ◌≡◌, ◌≢◌, refl, arith}
use gef_extras.V8.{Error, Debuggee}
use gef_extras.V8.Isolate.{Cache, find_isolate_root, get_isolate_root, del_isolate_root, keep}

kept_root :
    (cache kept : Cache) (found : Result Error (Option ℕ)) (root : ℕ)
    → keep cache found ≡ (kept, ok (some root))
    → kept ≡ some root
kept_root cache kept (ok (some r)) root h = ground (arith, h)
kept_root cache kept (ok none) root h = absurd (ground (arith, h))
kept_root cache kept (err e) root h = absurd (ground (arith, h))

root_kept :
    (d : Debuggee) (cache kept : Cache) (root : ℕ)
    → get_isolate_root d cache ≡ (kept, ok (some root))
    → kept ≡ some root
unfolding get_isolate_root
root_kept d none kept root h = kept_root none kept (find_isolate_root d) root h
root_kept d (some zero) kept root h = kept_root (some zero) kept (find_isolate_root d) root h
root_kept d (some (suc r)) kept root h = ground (arith, h)

-- Once a root that is not zero was found, every later question has that answer, whatever the
-- debuggee is by then, until the debuggee exits: the next question looks it up again.
pub get_isolate_root-again :
    (d : Debuggee) (cache kept : Cache) (root : ℕ)
    → root ≢ 0
    → get_isolate_root d cache ≡ (kept, ok (some root))
    → (later : Debuggee)
    → (get_isolate_root later kept ≡ (kept, ok (some root)))
      × ((get_isolate_root later (del_isolate_root kept)).1 ≡ find_isolate_root later)
unfolding get_isolate_root del_isolate_root
get_isolate_root-again d cache kept zero n h later = absurd (n refl)
get_isolate_root-again d cache kept (suc root) n h later =
    let e = root_kept d cache kept (suc root) h in (rw e refl, keep_found (find_isolate_root later))
  where
    keep_found : (found : Result Error (Option ℕ)) → (keep none found).1 ≡ found
    keep_found (ok (some r)) = refl
    keep_found (ok none) = refl
    keep_found (err e) = refl
