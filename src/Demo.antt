-- ===== src/Demo.antt =====
-- The program of practicum1/main.c: it stores messages on disk and then tests the cache on them.
pub mod Stored
pub mod Statistics
mod Tests
use cs5600_computer_system.Common.{
  ℕ, ◌+◌, ◌/◌, ◌%◌, Option, none, some, List, [], ◌∷◌, ◌++◌, if◌then◌else◌, ltb, take,
}
use cs5600_computer_system.Common.Text.{codes}
use cs5600_computer_system.Message.{Message, Files, Io, create_msg, store_msg}
use cs5600_computer_system.Cache.{Ptr, Cache, Run, init_cache, test_cache}

-- "%d" for a number below 100.
abbrev pub decimal : ℕ → List ℕ
decimal n = if ltb n 10 then (b'0' + n) ∷ [] else (b'0' + n / 10) ∷ (b'0' + n % 10) ∷ []

-- What the calls of `snprintf` write: the buffers hold 31, 31 and 63 bytes before the NUL.
unfoldable pub sender_text : ℕ → List ℕ
sender_text i = take 31 (codes "sender" ++ decimal i)

unfoldable pub receiver_text : ℕ → List ℕ
receiver_text i = take 31 (codes "receiver" ++ decimal i)

unfoldable pub content_text : ℕ → List ℕ
content_text i = take 63 (codes "Hello, this is message " ++ (decimal i ++ codes "!"))

-- How one round of the first loop turns out: the memory that `malloc` hands back, the time, and the
-- calls that store the message.
pub record Round : Type 0 where
  pub block : Option Message
  pub now : ℕ
  pub io : Io

-- The end of a round: a message that was created is stored.
abbrev pub store_created : Io → Option Message → Files → Files
store_created io none files = files
store_created io (some msg) files = (store_msg io (some msg) files).1

-- The first loop, from message `i` on: what is on the disk after it.
unfoldable pub store_messages : List Round → ℕ → Files → Files
store_messages [] i files = files
store_messages (r ∷ rest) i files =
    let created = create_msg r.block r.now i (sender_text i) (receiver_text i) (content_text i) 0 in
    store_messages rest (i + 1) (store_created r.io created files)

-- `main`: the statistics that it prints. `rounds` are the accesses of `test_cache`, `rs` the 20 rounds
-- of the first loop, and the other arguments are what the memory holds at first and the files of
-- earlier runs.
unfoldable pub main :
    List Round
    → List (Io × ℕ)
    → (Ptr → ℕ)
    → (Ptr → Message)
    → (Ptr → Ptr)
    → (Ptr → Ptr)
    → Files
    → Run (ℕ × ℕ)
main rs rounds key value prev next files =
    test_cache rounds 20 (init_cache key value prev next (store_messages rs 1 files))
