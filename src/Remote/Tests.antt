-- ===== src/Remote/Tests.antt =====
-- Tests of archs/arm-blackmagicprobe.py and archs/arm-openocd.py, and instances of the theorems.
use gef_extras.Common.{Bool, true, false, List, [], ◌∷◌, ◌++◌, none, some, Chars, codes, ◌≡◌, refl}
use gef_extras.Common.Hex.{format_d}
use gef_extras.Remote.{remove_hook, State, returned, raised, default_hook, remote_hook}
use gef_extras.Remote.Bmp
use gef_extras.Remote.Bmp.Opened.{
  manager, script, appended, do_invoke_opened, close-do_invoke, only_if,
}
use gef_extras.Remote.OpenOcd
use gef_extras.Remote.OpenOcd.{open_ocd_returned, open_ocd_raised}

-- A gdb that raises on no command, or on the connection.
abbrev works : List Chars → Chars → Bool
works sent cmd = false

abbrev refuses : List Chars → Chars → Bool
refuses sent cmd = true

abbrev same : Chars → Chars
same path = path

abbrev none_bad : Chars → Bool
none_bad path = false

abbrev probe : Bmp.Session
probe = record {
  tty = codes "/dev/ttyUSB1";
  file = [];
  attach = codes "1";
  scan = false;
  power = true;
  keep_power = true;
}

abbrev fresh : {A : Type 0} → State A
fresh = record {
  remote = none;
  remote_initializing = false;
  hooks = default_hook ∷ [];
  commands = [];
}

abbrev probed : State Bmp.Session
probed = record {
  remote = some (manager works same none_bad probe);
  remote_initializing = false;
  hooks = remote_hook ∷ [];
  commands =
      codes "target extended-remote /dev/ttyUSB1"
      ∷ codes "monitor tpwr enable"
      ∷ codes "monitor swdp_scan"
      ∷ codes "attach 1"
      ∷ codes "context"
      ∷ [];
}

probe_run : Bmp.do_invoke works same none_bad probe fresh ≡ returned Bmp.opened probed
unfolding Bmp.do_invoke remove_hook
probe_run = refl

do_invoke_opened_example :
    (false ≡ false)
    × (manager works same none_bad probe ≡ manager works same none_bad probe)
    × (probed.commands
        ≡ appended works same none_bad []
            (script works same none_bad probe ++ codes "context" ∷ []))
    × (probed.remote_initializing ≡ false)
do_invoke_opened_example =
    do_invoke_opened works same none_bad probe fresh probed Bmp.opened
      (manager works same none_bad probe) probe_run refl refl

close-do_invoke_example :
    ((Bmp.close works same none_bad (manager works same none_bad probe) probed).hooks
      ≡ default_hook ∷ [])
    × ((Bmp.close works same none_bad (manager works same none_bad probe) probed).commands
        ≡ probed.commands ++ only_if works same none_bad true (codes "monitor tpwr disable"))
close-do_invoke_example =
    close-do_invoke works same none_bad probe fresh probed Bmp.opened
      (manager works same none_bad probe) probe_run refl refl refl

abbrev stuck : {A : Type 0} → Chars → State A
stuck cmd = record {
  remote = none;
  remote_initializing = true;
  hooks = remote_hook ∷ [];
  commands = cmd ∷ [];
}

abbrev probe_command : Chars
probe_command = codes "target extended-remote /dev/ttyUSB1"

probe_refused : Bmp.do_invoke refuses same none_bad probe fresh ≡ raised (stuck probe_command)
unfolding Bmp.do_invoke remove_hook
probe_refused = refl

abbrev server : OpenOcd.Session
server = record { host = codes "localhost"; port = 3333; file = [] }

abbrev server_command : Chars
server_command = codes "target extended-remote localhost:3333"

abbrev served : State OpenOcd.Session
served = record {
  remote = some server;
  remote_initializing = false;
  hooks = remote_hook ∷ [];
  commands = server_command ∷ codes "context" ∷ [];
}

server_run : OpenOcd.do_invoke works same none_bad server fresh ≡ returned OpenOcd.opened served
unfolding OpenOcd.do_invoke format_d remove_hook
server_run = refl

open_ocd_returned_example :
    (server ≡ server)
    × (served.remote_initializing ≡ false)
    × ((OpenOcd.close works same none_bad server served).hooks ≡ default_hook ∷ [])
open_ocd_returned_example =
    open_ocd_returned works same none_bad server server fresh served OpenOcd.opened refl refl
      server_run refl

server_refused :
    OpenOcd.do_invoke refuses same none_bad server fresh ≡ raised (stuck server_command)
unfolding OpenOcd.do_invoke format_d remove_hook
server_refused = refl
