-- ===== src/Cache/Lru.antt =====
-- What practicum1/cache.h promises: the 16 messages used last, oldest first, over the disk.
use cs5600_computer_system.Common.{
  ℕ, ◌+◌, Option, none, some, List, [], ◌∷◌, ◌++◌, if◌then◌else◌, ltb, ◌==◌, length,
}
use cs5600_computer_system.Message.{Message, Files, Io, store_msg, retrieve_msg}
use cs5600_computer_system.Cache.{cache_capacity}

abbrev pub Entries : Type 0
Entries = List (ℕ × Message)

pub record Lru : Type 0 where
  pub entries : Entries
  pub hits : ℕ
  pub misses : ℕ
  pub files : Files

abbrev pub lookup : ℕ → Entries → Option Message
lookup k [] = none
lookup k ((j, v) ∷ es) = if j == k then some v else lookup k es

abbrev pub drop_key : ℕ → Entries → Entries
drop_key k [] = []
drop_key k ((j, v) ∷ es) = if j == k then es else (j, v) ∷ drop_key k es

-- The oldest entry goes if all places are taken.
abbrev pub make_room : Entries → Entries
make_room [] = []
make_room (e ∷ es) = if ltb (length (e ∷ es)) cache_capacity then e ∷ es else es

abbrev pub use_entry : ℕ → Message → Entries → Entries
use_entry k v es = drop_key k es ++ ((k, v) ∷ [])

unfoldable pub put : Io → Message → Lru → Lru
put io msg l = record {
  entries = elim (lookup msg.id l.entries) [
    | some v ↦ use_entry msg.id msg l.entries
    | none ↦ make_room l.entries ++ ((msg.id, msg) ∷ [])
  ];
  hits = l.hits;
  misses = l.misses;
  files = (store_msg io (some msg) l.files).1;
}

unfoldable pub load : Io → ℕ → Lru → Option Message × Lru
unfolding put
load io id l = elim (retrieve_msg io id l.files) [
  | none ↦ (none, l)
  | some msg ↦ (some msg, put io msg l)
]

unfoldable pub get : Io → ℕ → Lru → Option Message × Lru
unfolding load
get io id l = elim (lookup id l.entries) [
  | some v ↦ (some v, record l { entries = use_entry id v l.entries; hits = l.hits + 1 })
  | none ↦ load io id (record l { misses = l.misses + 1 })
]

-- The requests of a client.
pub data Request : Type 0 where
  fetch : ℕ → Request
  store : Message → Request

abbrev pub request_id : Request → ℕ
request_id (fetch id) = id
request_id (store msg) = msg.id
