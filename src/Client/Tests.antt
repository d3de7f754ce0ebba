-- ===== src/Client/Tests.antt =====
-- The client of practicum2/client.c and the server together, at concrete inputs.
use cs5600_computer_system.Common.{◌≡◌, refl, arith, true, none, some, [], ◌∷◌, ◌++◌}
use cs5600_computer_system.Common.Text.{codes}
use cs5600_computer_system.Server.{
  Server, Os, send, client_thread, handle_write, handle_get, handle_rm,
}
use cs5600_computer_system.Server.Permissions.{
  get_file_permission, set_file_permission, parse_perm, present,
}
use cs5600_computer_system.Server.Transfers.{Works, granted}
use cs5600_computer_system.Server.Dispatch.{Word}
use cs5600_computer_system.Client.{Net, outcome, write_command, get_command, rm_command, do_get}
use cs5600_computer_system.Client.Commands.{commands_reach_handlers}
use cs5600_computer_system.Client.Session.{
  upload, download, Connected, download-upload, coalesced_download_lost,
}

abbrev server : Server
server = record { table = []; files = λ q. none; resolve = λ q. q }

abbrev os : Os
os = record {
  opens = true;
  locks = true;
  reads = true;
  removes = true;
  recv_returns = true;
  upload = none;
  written = 1024;
}

os-Works : Works os
os-Works = record { opens = refl; locks = refl; reads = refl; removes = refl }

abbrev net : Net
net = record {
  sends = true;
  reply = none;
  local_file = none;
  sends_data = true;
  reply2 = none;
  saves = true;
}

net-Connected : Connected net
net-Connected = record { sends = refl; sends_data = refl; saves = refl }

a-Word : Word (codes "a")
a-Word = (ground arith, ground arith)

b-Word : Word (codes "b")
b-Word = (ground arith, ground arith)

rw-Word : Word (codes "RW")
rw-Word = (ground arith, ground arith)

commands_reach_handlers_example :
    (client_thread os (some (write_command (codes "a") (codes "b") (some (codes "RW")))) server
      ≡ handle_write os (codes "b") (some (codes "RW")) server)
    × (client_thread os (some (write_command (codes "a") (codes "b") none)) server
        ≡ handle_write os (codes "b") none server)
    × (client_thread os (some (get_command (codes "b") (codes "a"))) server
        ≡ handle_get os (codes "b") server)
    × (client_thread os (some (rm_command (codes "b"))) server ≡ handle_rm os (codes "b") server)
commands_reach_handlers_example =
    commands_reach_handlers os server a-Word b-Word rw-Word (omega arith)

b_granted : granted server (codes "b") (some (codes "RW")) ≡ true
unfolding granted get_file_permission set_file_permission parse_perm present
b_granted = refl

download-upload_example :
    let (t, up) =
      upload net os (codes "a") (codes "b") (some (codes "RW")) (codes "hello") server in
    let (u, down) = download net os (codes "b") (codes "a") t in
    (up.status ≡ 0) × (down.status ≡ 0) × (down.saved ≡ some (codes "hello"))
download-upload_example =
    download-upload net net os os (codes "a") (codes "a") (codes "b") (codes "RW") (codes "hello")
      server a-Word a-Word b-Word rw-Word (omega arith) (omega arith) b_granted os-Works os-Works
      (omega arith) net-Connected net-Connected (omega arith) (omega arith)

abbrev merged : Net
merged = record net { reply = some (send "OK_SENDING_FILE" 15 ++ codes "hello"); reply2 = none }

coalesced_download_lost_example :
    do_get merged (codes "b") (codes "a")
    ≡ outcome 0 (get_command (codes "b") (codes "a") ∷ []) none
coalesced_download_lost_example =
    coalesced_download_lost merged (codes "b") (codes "a") (codes "hello") refl refl refl
