-- ===== src/Server.antt =====
-- The handlers of the remote file server of practicum2/server.c, a request at a time. The file
-- system and the socket are outside: files are contents by name, the system resolves a path to the
-- name of a file, and `Os` says how the calls of a request turn out. `flock` only waits or fails here.
pub mod Permissions
pub mod Grants
pub mod Transfers
pub mod Protect
pub mod Dispatch
pub mod Threads
mod Tests
use cs5600_computer_system.Common.{
  ℕ, ◌+◌, ◌*◌, ◌<◌, Bool, true, false, ◌&&◌, ◌||◌, Option, none, some, List, [], ◌∷◌, ◌++◌,
  if◌then◌else◌, ltb, leb, ◌==◌, length, take, get_elem?, ◌-◌,
}
use cs5600_computer_system.Common.Text.{codes, str_eq, str_case_eq}
use Permissions.{
  Permission, read_write, read_only, get_file_permission, set_file_permission, parse_perm,
  is_read_write,
}
use Prim.Native.String.{String}

abbrev pub buf_size : ℕ
buf_size = 1024

abbrev pub Bytes : Type 0
Bytes = List ℕ

-- Contents by file, `none` where there is none.
abbrev pub FileSystem : Type 0
FileSystem = Bytes → Option Bytes

abbrev pub update : FileSystem → Bytes → Option Bytes → FileSystem
update files file c q = if str_eq file q then c else files q

-- What the server keeps. `resolve` is the file that the system finds under a path ("a/./b" and
-- "a/b" are two paths of one file).
pub record Server : Type 0 where
  pub table : Permissions.Table
  pub files : FileSystem
  pub resolve : Bytes → Bytes

-- How the system calls of one request turn out: whether the file may be opened, is locked, read
-- and removed; whether the `recv` after the command returns, which it does not for a client that
-- stays connected and silent; what it delivers then, `none` if nothing; and how many bytes `write`
-- writes. The handlers in one piece, of a request that ends, are for a `recv` that returns.
pub record Os : Type 0 where
  pub opens : Bool
  pub locks : Bool
  pub reads : Bool
  pub removes : Bool
  pub recv_returns : Bool
  pub upload : Option Bytes
  pub written : ℕ

-- `send(csock, text, n, 0)` sends the first `n` bytes of a literal and its NUL.
abbrev pub send : String → ℕ → Bytes
send text n = take n (codes text ++ (0 ∷ []))

-- `snprintf(full, sizeof(full), "%s/%s", SERVER_DATA_DIR, remotePath)`
unfoldable pub full_path : Bytes → Bytes
full_path remote = take (buf_size - 1) (codes "server_data/" ++ remote)

-- The file of a remote path.
abbrev pub file_of : Server → Bytes → Bytes
file_of s remote = s.resolve (full_path remote)

-- A handler returns the new state and what it sent, a list entry for each `send`.
abbrev pub Reply : Type 0
Reply = Server × List Bytes

-- `handle_write` from the opened and locked file on.
unfoldable pub receive : Os → Bytes → Server → Reply
receive os file s = elim os.upload [
  | none ↦ (s, send "ERR_RECV_FILE_DATA" 18 ∷ [])
  | some sent ↦
      let buf = take buf_size sent in
      let s' = record s { files = update s.files file (some (take os.written buf)) } in
      if length buf == 0
      then (s, send "ERR_RECV_FILE_DATA" 18 ∷ [])
      else (if leb (length buf) os.written
          then (s', send "WRITE_OK" 8 ∷ [])
          else (s', send "ERR_WRITE_FAILED" 16 ∷ []))
]

-- `handle_write` once the permission is granted. `open` empties the file before `flock`.
unfoldable pub write_file : Os → Bytes → Server → Reply
write_file os file s =
    if os.opens
    then (let s' = record s { files = update s.files file (some []) } in
        if os.locks then receive os file s' else (s', send "ERR_FLOCK_FAILED" 16 ∷ []))
    else (s, send "ERR_OPEN" 8 ∷ [])

abbrev also_sent : Bytes → Reply → Reply
also_sent b (s, sent) = (s, b ∷ sent)

unfoldable pub handle_write : Os → Bytes → Option Bytes → Server → Reply
handle_write os remote perm_str s =
    let before = get_file_permission s.table remote in
    let table =
      if is_read_write before
      then set_file_permission s.table remote (parse_perm perm_str)
      else s.table in
    let perm = if is_read_write before then get_file_permission table remote else before in
    let s' = record s { table = table } in
    if is_read_write perm
    then also_sent (send "OK_READY_TO_RECEIVE" 20) (write_file os (file_of s' remote) s')
    else (s', send "ERR_FILE_IS_READ_ONLY" 22 ∷ [])

-- `handle_get` with the file open and locked.
unfoldable pub send_file : Os → Bytes → Server → Reply
send_file os content s =
    let buf = if os.reads then take buf_size content else [] in
    if ltb 0 (length buf)
    then (s, send "OK_SENDING_FILE" 15 ∷ buf ∷ [])
    else (s, send "OK_SENDING_FILE" 15 ∷ [])

unfoldable pub handle_get : Os → Bytes → Server → Reply
handle_get os remote s = elim (s.files (file_of s remote)) [
  | none ↦ (s, send "ERR_FILE_NOT_FOUND" 18 ∷ [])
  | some content ↦
      if os.opens
      then (if os.locks then send_file os content s else (s, send "ERR_FLOCK_FAILED" 16 ∷ []))
      else (s, send "ERR_FILE_NOT_FOUND" 18 ∷ [])
]

-- `handle_rm` once the permission is granted.
unfoldable pub remove_file : Os → Bytes → Server → Reply
remove_file os file s = elim (s.files file) [
  | none ↦ (s, send "ERR_REMOVE_FAILED" 17 ∷ [])
  | some content ↦
      if os.opens
      then (if os.locks
          then (if os.removes
              then (record s { files = update s.files file none }, send "RM_OK" 5 ∷ [])
              else (s, send "ERR_REMOVE_FAILED" 17 ∷ []))
          else (s, send "ERR_FLOCK_FAILED" 16 ∷ []))
      else (s, send "ERR_REMOVE_FAILED" 17 ∷ [])
]

unfoldable pub handle_rm : Os → Bytes → Server → Reply
handle_rm os remote s =
    if is_read_write (get_file_permission s.table remote)
    then remove_file os (file_of s remote) s
    else (s, send "ERR_FILE_IS_READ_ONLY" 22 ∷ [])

-- The blanks that separate the words of a command.
abbrev pub is_blank : ℕ → Bool
is_blank c = c == b' ' || (c == 9 || (c == 13 || c == 10))

-- The text that `recv` left in the buffer: at most 1023 bytes, up to a NUL.
abbrev pub text_of : Bytes → Bytes
text_of [] = []
text_of (c ∷ s) = if c == 0 then [] else c ∷ text_of s

-- The calls of `strtok`: the words between blanks, `word` being the one that is read.
unfoldable pub words : Bytes → Bytes → List Bytes
words word [] = if length word == 0 then [] else word ∷ []
words word (c ∷ s) =
    let rest = words [] s in
    let on = words (word ++ (c ∷ [])) s in
    if is_blank c then (if length word == 0 then rest else word ∷ rest) else on

-- The dispatch of `client_thread` over the words that are there.
unfoldable pub dispatch : Os → Bytes → Option Bytes → Option Bytes → Option Bytes → Server → Reply
dispatch os cmd (some arg1) (some arg2) arg3 s =
    if str_case_eq cmd (codes "WRITE")
    then handle_write os arg2 arg3 s
    else (if str_case_eq cmd (codes "GET")
        then handle_get os arg1 s
        else (if str_case_eq cmd (codes "RM")
            then handle_rm os arg1 s
            else (s, send "ERR_BAD_ARGS" 12 ∷ [])))
dispatch os cmd (some arg1) none arg3 s =
    if str_case_eq cmd (codes "RM") then handle_rm os arg1 s else (s, send "ERR_BAD_ARGS" 12 ∷ [])
dispatch os cmd none arg2 arg3 s = (s, send "ERR_BAD_ARGS" 12 ∷ [])

-- `client_thread` once the command is split: a blank command is closed with no answer.
unfoldable pub handle_words : Os → List Bytes → Server → Reply
handle_words os [] s = (s, [])
handle_words os (cmd ∷ args) s =
    dispatch os cmd (get_elem? args 0) (get_elem? args 1) (get_elem? args 2) s

-- `client_thread`: a connection that sends nothing is closed with no answer.
unfoldable pub client_thread : Os → Option Bytes → Server → Reply
client_thread os none s = (s, [])
client_thread os (some received) s =
    handle_words os (words [] (text_of (take (buf_size - 1) received))) s
