-- ===== src/Client/Session.antt =====
-- The client of practicum2/client.c and the server of practicum2/server.c together.
use cs5600_computer_system.Common.{
  ◌+◌, ◌≤◌, ◌<◌, ◌≡◌, refl, arith, true, Option, none, some, List, [], ◌∷◌, ◌++◌, length, take,
  take_all, get_elem?,
}
use cs5600_computer_system.Server.{Server, Os, Bytes, buf_size, send, client_thread, handle_write}
use cs5600_computer_system.Server.Transfers.{Works, granted, handle_get-handle_write}
use cs5600_computer_system.Server.Dispatch.{Word}
use cs5600_computer_system.Client.{
  Net, Outcome, outcome, write_command, get_command, do_write, do_get, send_local, final_response,
  save_file,
}
use cs5600_computer_system.Client.Commands.{commands_reach_handlers}

-- Each `send` of the server arrives in a `recv` of its own.
abbrev pub delivered : Net → List Bytes → Net
delivered net sent = record net { reply = get_elem? sent 0; reply2 = get_elem? sent 1 }

-- An upload: the server reads the first 1024 bytes of the local file, which the client sends once
-- the server is ready.
pub upload : Net → Os → Bytes → Bytes → Option Bytes → Bytes → Server → Server × Outcome
upload net os local remote perm content s =
    let os' = record os { upload = some (take buf_size content) } in
    let (t, sent) = client_thread os' (some (write_command local remote perm)) s in
    (t, do_write (record (delivered net sent) { local_file = some content }) local remote perm)

pub download : Net → Os → Bytes → Bytes → Server → Server × Outcome
download net os remote local s =
    let (t, sent) = client_thread os (some (get_command remote local)) s in
    (t, do_get (delivered net sent) remote local)

-- The client's own calls work.
pub record Connected (net : Net) : Type 0 where
  pub sends : net.sends ≡ true
  pub sends_data : net.sends_data ≡ true
  pub saves : net.saves ≡ true

do_write-ready :
    (net : Net) (local remote content : Bytes) (perm : Option Bytes)
    → Connected net
    → 0 < length content
    → (do_write
        (record (delivered net (send "OK_READY_TO_RECEIVE" 20 ∷ send "WRITE_OK" 8 ∷ [])) {
          local_file = some content;
        })
        local
        remote
        perm).status
      ≡ 0
unfolding do_write send_local final_response
do_write-ready net local remote [] perm w p = absurd (omega arith)
do_write-ready net local remote (c ∷ content) perm w p = ground (arith, w)

do_get-ready :
    (net : Net) (remote local content : Bytes)
    → Connected net
    → 0 < length content
    → length content ≤ buf_size
    → let o = do_get (delivered net (send "OK_SENDING_FILE" 15 ∷ content ∷ [])) remote local in
      (o.status ≡ 0) × (o.saved ≡ some content)
unfolding do_get save_file
do_get-ready net remote local [] w p small = absurd (omega arith)
do_get-ready net remote local (c ∷ content) w p small =
    let whole : take buf_size (c ∷ content) ≡ c ∷ content = take_all buf_size (c ∷ content) small in
    ground (arith, w, whole)

-- Where each `send` arrives in a `recv` of its own and every call works: an upload of 1 to 1024
-- bytes, with plain words for its paths and its permission, that is granted returns 0, and a download of the same path then returns 0 and saves exactly
-- the bytes uploaded, through the command lines, their parsing and the handlers.
pub download-upload :
    (net net' : Net) (os os' : Os) (local local' remote perm content : Bytes) (s : Server)
    → Word local
    → Word local'
    → Word remote
    → Word perm
    → length local + length remote + length perm + 8 < 1024
    → length local' + length remote + length perm + 8 < 1024
    → granted s remote (some perm) ≡ true
    → Works os
    → Works os'
    → length content ≤ os.written
    → Connected net
    → Connected net'
    → 0 < length content
    → length content ≤ buf_size
    → let (t, up) = upload net os local remote (some perm) content s in
      let (u, down) = download net' os' remote local' t in
      (up.status ≡ 0) × (down.status ≡ 0) × (down.saved ≡ some content)
unfolding upload download
download-upload net net' os os' local local' remote perm content s lw lw' wanted pw fits fits' g w
      w' all c c' p small =
    let whole : take buf_size content ≡ content = take_all buf_size content small in
    let sending : Os = record os { upload = some content } in
    let works : Works sending = record {
      opens = w.opens;
      locks = w.locks;
      reads = w.reads;
      removes = w.removes;
    } in
    let t : Server = (handle_write sending remote (some perm) s).0 in
    let up = (commands_reach_handlers sending s lw wanted pw fits).0 in
    let down = (commands_reach_handlers os' t lw' wanted pw fits').2 in
    let both =
      handle_get-handle_write sending os' remote content (some perm) s g works w' refl p small
        all in
    rw (whole, up, both.0, down, both.1)
      ((
        do_write-ready net local remote content (some perm) c p,
        (do_get-ready net' remote local' content c' p small).0,
        (do_get-ready net' remote local' content c' p small).1,
      ))

-- If the two `send`s of a GET arrive in one `recv` and the connection closes, the client saves
-- nothing and still returns 0, whatever the file holds.
pub coalesced_download_lost :
    (net : Net) (remote local content : Bytes)
    → net.sends ≡ true
    → net.reply ≡ some (send "OK_SENDING_FILE" 15 ++ content)
    → net.reply2 ≡ none
    → do_get net remote local ≡ outcome 0 (get_command remote local ∷ []) none
unfolding do_get save_file
coalesced_download_lost net remote local content h e e' = ground (arith, h, e, e')
