-- ===== src/Server/Threads.antt =====
-- The client threads of practicum2/server.c, interleaved. A turn is what a thread does up to and with
-- the next call that others can notice: a use of the table under its mutex, `open`, `flock`, `recv`,
-- `read`, `write`, `remove`, or the unlocking. A descriptor is the number of the file's inode: a file
-- that was removed, or is another's now, keeps its inode as long as a thread has it open.
pub mod Start
pub mod Words
pub mod Files
pub mod Cases
pub mod Alone
pub mod Upload
pub mod Handlers
pub mod Whole
pub mod Locks
pub mod Exclusion
pub mod Rank
pub mod Changes
pub mod Settle
pub mod Progress
pub mod Guard
pub mod ReadOnly
pub mod Unprotected
pub mod Overlap
mod Tests
use cs5600_computer_system.Common.{
  ℕ, zero, suc, ◌+◌, ◌-◌, Bool, true, false, Option, none, some, List, [], ◌∷◌, ◌++◌, if◌then◌else◌,
  ltb, leb, ◌==◌, length, take, drop, get_elem?,
}
use cs5600_computer_system.Common.Text.{codes, str_eq, str_case_eq}
use cs5600_computer_system.Server.{Bytes, Os, buf_size, send, full_path, words, text_of}
use cs5600_computer_system.Server.Permissions.{
  Table, get_file_permission, set_file_permission, parse_perm, is_read_write,
}

abbrev pub Ino : Type 0
Ino = ℕ

abbrev pub put {ℓ} : {A : Type ℓ} → (Ino → A) → Ino → A → Ino → A
put f i v j = if i == j then v else f j

-- The lock of an inode; `shared n` has n + 1 holders.
pub data Lock : Type 0 where
  free : Lock
  shared : ℕ → Lock
  exclusive : Lock

-- `flock` waits where there is no result.
unfoldable pub lock_sh : Lock → Option Lock
lock_sh free = some (shared 0)
lock_sh (shared n) = some (shared (suc n))
lock_sh exclusive = none

unfoldable pub lock_ex : Lock → Option Lock
lock_ex free = some exclusive
lock_ex (shared n) = none
lock_ex exclusive = none

unfoldable pub unlock : Lock → Lock
unlock free = free
unlock (shared zero) = free
unlock (shared (suc n)) = shared n
unlock exclusive = free

-- What the threads share: the permission table and the file system, by inodes.
pub record System : Type 0 where
  pub table : Table
  pub entries : Bytes → Option Ino
  pub content : Ino → Bytes
  pub locks : Ino → Lock
  pub fresh : Ino
  pub resolve : Bytes → Bytes

-- Where a thread stands. Past `open` it knows the inode.
pub data Pc : Type 0 where
  write_start : Bytes → Option Bytes → Pc
  write_set : Bytes → Option Bytes → Pc
  write_check : Bytes → Pc
  write_open : Bytes → Pc
  write_lock : Ino → Pc
  write_recv : Ino → Pc
  write_data : Ino → Bytes → Pc
  write_unlock : Ino → Bytes → Pc
  get_open : Bytes → Pc
  get_lock : Ino → Pc
  get_read : Ino → Pc
  get_unlock : Ino → Bytes → Pc
  rm_check : Bytes → Pc
  rm_open : Bytes → Pc
  rm_lock : Ino → Bytes → Pc
  rm_remove : Ino → Bytes → Pc
  rm_unlock : Ino → Bytes → Pc
  finished : Pc

-- A turn: where the thread stands then, what is shared then, and what it sent.
abbrev pub Turn : Type 0
Turn = Pc × System × List Bytes

abbrev pub name_of : System → Bytes → Bytes
name_of s remote = s.resolve (full_path remote)

abbrev pub set_entry : System → Bytes → Option Ino → System
set_entry s file e = record s { entries = λ q. if str_eq file q then e else s.entries q }

-- `open(full, O_WRONLY | O_CREAT | O_TRUNC, 0666)`
unfoldable pub open_truncated : System → Bytes → Ino × System
open_truncated s file = elim (s.entries file) [
  | none ↦ (
    s.fresh,
    record (set_entry s file (some s.fresh)) {
      content = put s.content s.fresh [];
      fresh = s.fresh + 1;
    },
  )
  | some i ↦ (i, record s { content = put s.content i [] })
]

-- `flock(fd, …)`: no turn where it has to wait.
abbrev pub locked : System → Ino → Option Lock → Pc → Option Turn
locked s i none pc = none
locked s i (some l) pc = some (pc, record s { locks = put s.locks i l }, [])

-- `flock(fd, LOCK_UN)`, `close`, and the last answers.
abbrev pub unlocked : System → Ino → List Bytes → Option Turn
unlocked s i answers =
    some (finished, record s { locks = put s.locks i (unlock (s.locks i)) }, answers)

-- `write` at the start of a file.
abbrev pub overwrite : Bytes → Bytes → Bytes
overwrite written old = written ++ drop (length written) old

abbrev pub answer : System → Bytes → Option Turn
answer s a = some (finished, s, a ∷ [])

-- A turn of `handle_write`.
unfoldable pub write_turn : Os → Bytes → Option Bytes → System → Option Turn
write_turn os remote perm_str s =
    if is_read_write (get_file_permission s.table remote)
    then some (write_set remote perm_str, s, [])
    else answer s (send "ERR_FILE_IS_READ_ONLY" 22)

unfoldable pub check_turn : Os → Bytes → System → Option Turn
check_turn os remote s =
    if is_read_write (get_file_permission s.table remote)
    then some (write_open remote, s, send "OK_READY_TO_RECEIVE" 20 ∷ [])
    else answer s (send "ERR_FILE_IS_READ_ONLY" 22)

unfoldable pub open_turn : Os → Bytes → System → Option Turn
open_turn os remote s =
    let (i, s') = open_truncated s (name_of s remote) in
    if os.opens then some (write_lock i, s', []) else answer s (send "ERR_OPEN" 8)

unfoldable pub received_turn : Os → Ino → System → Option Turn
received_turn os i s = elim os.upload [
  | none ↦ some (write_unlock i (send "ERR_RECV_FILE_DATA" 18), s, [])
  | some sent ↦
      let buf = take buf_size sent in
      if length buf == 0
      then some (write_unlock i (send "ERR_RECV_FILE_DATA" 18), s, [])
      else some (write_data i buf, s, [])
]

-- `recv` waits, with the lock held, where there is no turn.
unfoldable pub recv_turn : Os → Ino → System → Option Turn
recv_turn os i s = if os.recv_returns then received_turn os i s else none

unfoldable pub data_turn : Os → Ino → Bytes → System → Option Turn
data_turn os i buf s =
    let s' = record s {
      content = put s.content i (overwrite (take os.written buf) (s.content i));
    } in
    if leb (length buf) os.written
    then some (write_unlock i (send "WRITE_OK" 8), s', [])
    else some (write_unlock i (send "ERR_WRITE_FAILED" 16), s', [])

-- Turns of `handle_get`.
unfoldable pub get_turn : Os → Bytes → System → Option Turn
get_turn os remote s = elim (s.entries (name_of s remote)) [
  | none ↦ answer s (send "ERR_FILE_NOT_FOUND" 18)
  | some i ↦ if os.opens then some (get_lock i, s, []) else answer s (send "ERR_FILE_NOT_FOUND" 18)
]

unfoldable pub sent_file : Bytes → List Bytes
sent_file buf =
    if ltb 0 (length buf)
    then send "OK_SENDING_FILE" 15 ∷ buf ∷ []
    else send "OK_SENDING_FILE" 15 ∷ []

-- Turns of `handle_rm`.
unfoldable pub rm_check_turn : Os → Bytes → System → Option Turn
rm_check_turn os remote s =
    if is_read_write (get_file_permission s.table remote)
    then some (rm_open remote, s, [])
    else answer s (send "ERR_FILE_IS_READ_ONLY" 22)

unfoldable pub rm_open_turn : Os → Bytes → System → Option Turn
rm_open_turn os remote s = elim (s.entries (name_of s remote)) [
  | none ↦ answer s (send "ERR_REMOVE_FAILED" 17)
  | some i ↦
      if os.opens then some (rm_lock i remote, s, []) else answer s (send "ERR_REMOVE_FAILED" 17)
]

-- `remove` goes by the name, which may have no file by then.
unfoldable pub remove_turn : Os → Ino → Bytes → System → Option Turn
remove_turn os i remote s = elim (s.entries (name_of s remote)) [
  | none ↦ some (rm_unlock i (send "ERR_REMOVE_FAILED" 17), s, [])
  | some j ↦
      if os.removes
      then some (rm_unlock i (send "RM_OK" 5), set_entry s (name_of s remote) none, [])
      else some (rm_unlock i (send "ERR_REMOVE_FAILED" 17), s, [])
]

-- A turn of a thread; none where it waits for a lock or for its client, or is done.
unfoldable pub turn : Os → Pc → System → Option Turn
turn os (write_start remote perm_str) s = write_turn os remote perm_str s
turn os (write_set remote perm_str) s = some (
  write_check remote,
  record s { table = set_file_permission s.table remote (parse_perm perm_str) },
  [],
)
turn os (write_check remote) s = check_turn os remote s
turn os (write_open remote) s = open_turn os remote s
turn os (write_lock i) s =
    if os.locks
    then locked s i (lock_ex (s.locks i)) (write_recv i)
    else answer s (send "ERR_FLOCK_FAILED" 16)
turn os (write_recv i) s = recv_turn os i s
turn os (write_data i buf) s = data_turn os i buf s
turn os (write_unlock i a) s = unlocked s i (a ∷ [])
turn os (get_open remote) s = get_turn os remote s
turn os (get_lock i) s =
    if os.locks
    then locked s i (lock_sh (s.locks i)) (get_read i)
    else answer s (send "ERR_FLOCK_FAILED" 16)
turn os (get_read i) s =
    some (get_unlock i (if os.reads then take buf_size (s.content i) else []), s, [])
turn os (get_unlock i buf) s = unlocked s i (sent_file buf)
turn os (rm_check remote) s = rm_check_turn os remote s
turn os (rm_open remote) s = rm_open_turn os remote s
turn os (rm_lock i remote) s =
    if os.locks
    then locked s i (lock_ex (s.locks i)) (rm_remove i remote)
    else answer s (send "ERR_FLOCK_FAILED" 16)
turn os (rm_remove i remote) s = remove_turn os i remote s
turn os (rm_unlock i a) s = unlocked s i (a ∷ [])
turn os finished s = none

-- A client's thread: how its calls turn out, where it stands, and what it sent so far.
pub record Thread : Type 0 where
  pub os : Os
  pub pc : Pc
  pub sent : List Bytes

-- A turn of a thread, if it has one.
abbrev pub moved : Thread → System → Option Turn → Thread × System
moved t s none = (t, s)
moved t s (some (pc, s', out)) = (record t { pc = pc; sent = t.sent ++ out }, s')

abbrev pub move_thread : Thread → System → Thread × System
move_thread t s = moved t s (turn t.os t.pc s)

-- A turn of the thread at a place in the list.
abbrev pub move_at : ℕ → List Thread → System → List Thread × System
move_at i [] s = ([], s)
move_at zero (t ∷ ts) s = ((move_thread t s).0 ∷ ts, (move_thread t s).1)
move_at (suc i) (t ∷ ts) s = (t ∷ (move_at i ts s).0, (move_at i ts s).1)

-- Turns in any order.
abbrev pub run : List ℕ → List Thread × System → List Thread × System
run [] w = w
run (i ∷ order) w = run order (move_at i w.0 w.1)
