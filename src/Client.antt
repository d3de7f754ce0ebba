-- ===== src/Client.antt =====
-- The client of practicum2/client.c, a command at a time. The connection and the local files are
-- outside: `Net` says how their calls turn out.
pub mod Commands
pub mod Session
mod Tests
use cs5600_computer_system.Common.{
  ℕ, ◌-◌, Bool, true, false, ◌&&◌, Option, none, some, List, [], ◌∷◌, ◌++◌, if◌then◌else◌, ltb,
  ◌==◌, length, take,
}
use cs5600_computer_system.Common.Text.{codes, str_case_eq}
use cs5600_computer_system.Server.{Bytes, buf_size, text_of}

-- How the calls of one command turn out: whether the first and the second `send` work; what the
-- first and the second `recv` deliver, `none` if nothing; what the local file to upload holds, `none`
-- if it does not open; and whether the local file to write opens.
pub record Net : Type 0 where
  pub sends : Bool
  pub reply : Option Bytes
  pub local_file : Option Bytes
  pub sends_data : Bool
  pub reply2 : Option Bytes
  pub saves : Bool

-- What a command returns, what it sent, and what it wrote to a local file.
pub record Outcome : Type 0 where
  pub status : ℕ
  pub sent : List Bytes
  pub saved : Option Bytes

abbrev pub outcome : ℕ → List Bytes → Option Bytes → Outcome
outcome status sent saved = record { status = status; sent = sent; saved = saved }

-- `strncmp(s, prefix, n) == 0`, with `n` the length of `prefix`.
abbrev pub starts_with : Bytes → Bytes → Bool
starts_with [] s = true
starts_with (c ∷ p) [] = false
starts_with (c ∷ p) (d ∷ s) = c == d && starts_with p s

-- The response that `recv` leaves in its buffer, read as a C string.
abbrev pub response_of : Bytes → Bytes
response_of received = text_of (take (buf_size - 1) received)

-- `recv` returns 0 or less: the connection is closed.
abbrev pub received? : Option Bytes → Option Bytes
received? none = none
received? (some []) = none
received? (some (c ∷ s)) = some (c ∷ s)

-- The three command lines; `snprintf` keeps 1023 bytes.
unfoldable pub write_command : Bytes → Bytes → Option Bytes → Bytes
write_command local remote (some perm) =
    take (buf_size - 1) (codes "WRITE " ++ local ++ (b' ' ∷ remote ++ (b' ' ∷ perm)))
write_command local remote none = take (buf_size - 1) (codes "WRITE " ++ local ++ (b' ' ∷ remote))

unfoldable pub get_command : Bytes → Bytes → Bytes
get_command remote local = take (buf_size - 1) (codes "GET " ++ remote ++ (b' ' ∷ local))

unfoldable pub rm_command : Bytes → Bytes
rm_command remote = take (buf_size - 1) (codes "RM " ++ remote)

-- The last `recv` of `do_write`: any answer at all counts as success.
unfoldable pub final_response : Net → List Bytes → Outcome
final_response net sent = elim (received? net.reply2) [
  | none ↦ outcome 1 sent none
  | some received ↦ outcome 0 sent none
]

-- `do_write` once the server is ready.
unfoldable pub send_local : Net → Bytes → Outcome
send_local net cmd = elim net.local_file [
  | none ↦ outcome 1 (cmd ∷ []) none
  | some content ↦
      let buf = take buf_size content in
      if ltb 0 (length buf)
      then (if net.sends_data
          then final_response net (cmd ∷ buf ∷ [])
          else outcome 1 (cmd ∷ []) none)
      else final_response net (cmd ∷ [])
]

unfoldable pub do_write : Net → Bytes → Bytes → Option Bytes → Outcome
do_write net local remote perm =
    let cmd = write_command local remote perm in
    if net.sends
    then elim (received? net.reply) [
      | none ↦ outcome 1 (cmd ∷ []) none
      | some received ↦
          if starts_with (codes "OK_READY_TO_RECEIVE") (response_of received)
          then send_local net cmd
          else outcome 1 (cmd ∷ []) none
    ]
    else outcome 1 [] none

-- `do_get` once the server has announced the file: one `recv` is all that is read.
unfoldable pub save_file : Net → Bytes → Outcome
save_file net cmd = elim (received? net.reply2) [
  | none ↦ outcome 0 (cmd ∷ []) none
  | some received ↦
      if net.saves
      then outcome 0 (cmd ∷ []) (some (take buf_size received))
      else outcome 1 (cmd ∷ []) none
]

unfoldable pub do_get : Net → Bytes → Bytes → Outcome
do_get net remote local =
    let cmd = get_command remote local in
    if net.sends
    then elim (received? net.reply) [
      | none ↦ outcome 1 (cmd ∷ []) none
      | some received ↦
          if starts_with (codes "ERR_FILE_NOT_FOUND") (response_of received)
          then outcome 1 (cmd ∷ []) none
          else (if starts_with (codes "OK_SENDING_FILE") (response_of received)
              then save_file net cmd
              else outcome 1 (cmd ∷ []) none)
    ]
    else outcome 1 [] none

-- `do_rm`: any answer at all counts as success.
unfoldable pub do_rm : Net → Bytes → Outcome
do_rm net remote =
    let cmd = rm_command remote in
    if net.sends
    then elim (received? net.reply) [
      | none ↦ outcome 1 (cmd ∷ []) none
      | some received ↦ outcome 0 (cmd ∷ []) none
    ]
    else outcome 1 [] none

-- The arguments of each command, with what `main` does where they are too few.
abbrev pub main_write : Net → List Bytes → Outcome
main_write net (local ∷ remote ∷ perm ∷ rest) = do_write net local remote (some perm)
main_write net (local ∷ remote ∷ []) = do_write net local remote none
main_write net (local ∷ []) = outcome 1 [] none
main_write net [] = outcome 1 [] none

abbrev pub main_get : Net → List Bytes → Outcome
main_get net (remote ∷ local ∷ rest) = do_get net remote local
main_get net (remote ∷ []) = outcome 1 [] none
main_get net [] = outcome 1 [] none

abbrev pub main_rm : Net → List Bytes → Outcome
main_rm net (remote ∷ rest) = do_rm net remote
main_rm net [] = outcome 1 [] none

-- `main` over `argv[1]`, `argv[2]` and so on; `connects` says whether the socket, the address and
-- the connection work.
unfoldable pub main : Bool → Net → List Bytes → Outcome
main connects net [] = outcome 1 [] none
main connects net (cmd ∷ args) =
    if connects
    then (if str_case_eq cmd (codes "WRITE")
        then main_write net args
        else (if str_case_eq cmd (codes "GET")
            then main_get net args
            else (if str_case_eq cmd (codes "RM") then main_rm net args else outcome 1 [] none)))
    else outcome 1 [] none
