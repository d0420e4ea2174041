-- ===== src/Ida/Tests.antt =====
-- Tests of scripts/ida_interact.py and instances of the theorems.
use gef_extras.Common.{true, false, [], ◌∷◌, some, none, codes, ok, err, ◌>>=◌, ◌≡◌, refl, inl}
use gef_extras.Common.Strings.{chars_eq}
use gef_extras.Ida.{
  ℤ, pos, Section, Debuggee, Idb, State, gdb_error, remove, set_color, ea_of, highlight_add,
  highlight_del, synchronize,
}
use gef_extras.Ida.Session.{not_run, guarded, Handed, guarded-Handed}
use gef_extras.Ida.Highlights.{highlight_del-add}
use gef_extras.Ida.Synced.{Synced, last_inside, synchronize_all, synchronize_all-Synced}

abbrev own : Section
own = record { path = codes "/bin/a"; page_start = 100; page_end = 200 }

abbrev debuggee : Debuggee
debuggee = record {
  is_pie = true;
  maps = own ∷ [];
  filepath = codes "/bin/a";
  parse_address = λ s. err gdb_error;
}

abbrev idb : Idb
idb = record { color = λ e. 7; comment = λ e. []; cursor = none }

abbrev fresh : State
fresh = record { is_connected = true; hooks = 1; old_colors = []; last_hl_ea = none; idb = idb }

line : ea_of debuggee 130 ≡ ok (pos 30)
unfolding ea_of chars_eq
line = refl

highlight_del-add_example :
    (st' : State) × ((highlight_add debuggee 130 5 fresh >>= highlight_del debuggee 130) ≡ ok st')
    × ((e : ℤ) → st'.idb.color e ≡ 7)
    × (st'.old_colors ≡ remove (pos 30) [])
highlight_del-add_example = highlight_del-add debuggee 130 5 (pos 30) fresh line

-- The session is there by the second attempt, and nothing was run.
late :
    (guarded false true (highlight_add debuggee 130 5) (record fresh { is_connected = false })).1
    ≡ not_run
unfolding guarded
late = refl

abbrev alone : State
alone = record fresh { is_connected = false }

guarded-Handed_example :
    Handed false true (λ st. ok st) alone (guarded false true (λ st. ok st) alone)
guarded-Handed_example = guarded-Handed false true (λ st. ok st) alone

-- The program stops twice in itself, and in a library in between.
abbrev followed : State
followed = record fresh {
  old_colors = (pos 50, 7) ∷ [];
  last_hl_ea = some 150;
  idb =
      set_color (pos 50) 0x00ff00 (
        set_color (pos 30) 7 (set_color (pos 30) 0x00ff00 (record idb { cursor = some (pos 50) })));
}

stops : synchronize_all debuggee idb.color (130 ∷ 900 ∷ 150 ∷ []) fresh ≡ ok followed
unfolding synchronize synchronize_all chars_eq
stops = refl

synchronize_all-Synced_example :
    (some 150 ≡ last_inside debuggee (130 ∷ 900 ∷ 150 ∷ []) none)
    × Synced debuggee idb.color followed
synchronize_all-Synced_example =
    synchronize_all-Synced debuggee idb.color (130 ∷ 900 ∷ 150 ∷ []) fresh followed
      (inl (refl, (refl, λ e. refl))) stops
