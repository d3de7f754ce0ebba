-- ===== src/Message.antt =====
-- The message store of practicum1/message.c. A char array is the list of its bytes, a C string the
-- list of its bytes before the NUL. A file is named by the id that its path prints; what it holds
-- is one whole `Message` or less.
pub mod Strings
pub mod Disk
mod Tests
use cs5600_computer_system.Common.{
  ℕ, ◌-◌, ◌==◌, Bool, Option, none, some, List, if◌then◌else◌, set, take, drop, replicate, ◌++◌,
}
use cs5600_computer_system.Common.Int.{ℤ, pos, negsuc}

abbrev pub max_sender_len : ℕ
max_sender_len = 32

abbrev pub max_receiver_len : ℕ
max_receiver_len = 32

abbrev pub max_content_len : ℕ
max_content_len = 944

-- `Message`
pub record Message : Type 0 where
  pub id : ℕ
  pub time_sent : ℕ
  pub sender : List ℕ
  pub receiver : List ℕ
  pub content : List ℕ
  pub delivered : ℕ

-- `strncpy(dst, src, n)`: the first `n` bytes of `src`, filled up with NULs; the rest of the array
-- stays.
unfoldable pub strncpy : List ℕ → List ℕ → ℕ → List ℕ
strncpy dst src n = take n (src ++ replicate n 0) ++ drop n dst

-- A field of `create_msg`: copy all but one byte, and end the array with a NUL.
unfoldable pub fill : ℕ → List ℕ → List ℕ → List ℕ
unfolding strncpy
fill len dst src = set (strncpy dst src (len - 1)) (len - 1) 0

-- `create_msg`: `block` is the memory that `malloc` hands back, `none` if it has none, and `now`
-- the time.
unfoldable pub create_msg : Option Message → ℕ → ℕ → List ℕ → List ℕ → List ℕ → ℕ → Option Message
unfolding fill
create_msg none now id sender receiver content delivered = none
create_msg (some block) now id sender receiver content delivered = some (record {
  id = id;
  time_sent = now;
  sender = fill max_sender_len block.sender sender;
  receiver = fill max_receiver_len block.receiver receiver;
  content = fill max_content_len block.content content;
  delivered = delivered;
})

-- What a file holds: a message written whole, or less than one.
pub data File : Type 0 where
  whole : Message → File
  torn : File

-- The directory `messages/`, by id.
abbrev pub Files : Type 0
Files = ℕ → Option File

abbrev pub update : Files → ℕ → File → Files
update files id f j = if j == id then some f else files j

-- How the system calls of one request turn out: `writes` is what `fwrite` returns, and `flushes` whether
-- `fclose` then gets all of the buffered message into the file.
pub record Io : Type 0 where
  pub opens_write : Bool
  pub writes : Bool
  pub flushes : Bool
  pub opens_read : Bool
  pub allocates : Bool

-- `store_msg`: `fopen` with "wb" empties the file before `fwrite`, and what `fclose` returns is not
-- looked at.
unfoldable pub store_msg : Io → Option Message → Files → ℤ × Files
store_msg io none files = (negsuc 0, files)
store_msg io (some msg) files =
    if io.opens_write
    then (if io.writes
        then (pos 0, update files msg.id (if io.flushes then whole msg else torn))
        else (negsuc 0, update files msg.id torn))
    else (negsuc 0, files)

abbrev pub read_whole : Option File → Option Message
read_whole none = none
read_whole (some torn) = none
read_whole (some (whole msg)) = some msg

-- `retrieve_msg`: NULL if the file does not open, memory is short, or the file is not whole.
unfoldable pub retrieve_msg : Io → ℕ → Files → Option Message
retrieve_msg io msg_id files =
    if io.opens_read then (if io.allocates then read_whole (files msg_id) else none) else none
