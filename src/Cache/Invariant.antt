-- ===== src/Cache/Invariant.antt =====
-- What holds of the cache of practicum1/cache.c between two calls, for ids below `HASH_SIZE`, which
-- share no slot.
use cs5600_computer_system.Common.{ℕ, ◌≤◌, ◌<◌, ◌≡◌, true, some, List, ◌∷◌, length, get_or, arith}
use cs5600_computer_system.Message.{Message, whole, Files}
use cs5600_computer_system.Cache.{Ptr, null, Cache, hash_size, cache_capacity}
use cs5600_computer_system.Cache.Links.{has, Distinct, Chain}
use cs5600_computer_system.Cache.Table.{node_for, DistinctKeys, entries}
use cs5600_computer_system.Cache.Lru.{Lru}

abbrev pub all_nodes : Cache → List Ptr → List Ptr
all_nodes s order = s.tail ∷ s.head ∷ order

-- A node that may be used, at an address that was handed out.
pub record Usable (s : Cache) (p : Ptr) : Type 0 where
  pub alive : s.live p ≡ true
  pub not_null : 0 < p
  pub given : p < s.fresh

-- The list: `order` is its nodes between the dummies, least recently used first.
pub record Linked (s : Cache) (order : List Ptr) : Type 0 where
  pub distinct : Distinct (all_nodes s order)
  pub chain : Chain s.next s.prev s.head order s.tail
  pub nodes : (p : Ptr) → has p (all_nodes s order) ≡ true → Usable s p

-- The keys are ids below `HASH_SIZE`, each at one node, and the table holds each node at its key.
pub record Indexed (s : Cache) (order : List Ptr) : Type 0 where
  pub small : (p : Ptr) → has p order ≡ true → s.key p < hash_size
  pub unique : DistinctKeys s.key order
  pub slots : (i : ℕ) → i < hash_size → get_or s.hash_table i null ≡ node_for s.key i order
  pub slot_count : length s.hash_table ≡ hash_size

-- A file holds the message of its name.
abbrev pub FilesMatch : Files → Type 0
FilesMatch files = (id : ℕ) (msg : Message) → files id ≡ some (whole msg) → msg.id ≡ id

pub record IsValid (s : Cache) (order : List Ptr) : Type 0 where
  pub linked : Linked s order
  pub indexed : Indexed s order
  pub count : s.current_size ≡ length order
  pub room : length order ≤ cache_capacity
  pub named : FilesMatch s.files

-- What the cache stands for.
abbrev pub view : Cache → List Ptr → Lru
view s order = record {
  entries = entries s.key s.value order;
  hits = s.hits;
  misses = s.misses;
  files = s.files;
}

-- What the nodes hold and what was counted does not matter.
pub payload-IsValid :
    (s : Cache) (order : List Ptr) (value : Ptr → Message) (hits misses : ℕ)
    → IsValid s order
    → IsValid (record s { value = value; hits = hits; misses = misses }) order
payload-IsValid s order value hits misses v = record {
  linked = record {
    distinct = v.linked.distinct;
    chain = v.linked.chain;
    nodes = λ p h. ground (arith, v.linked.nodes p h);
  };
  indexed = record {
    small = v.indexed.small;
    unique = v.indexed.unique;
    slots = v.indexed.slots;
    slot_count = v.indexed.slot_count;
  };
  count = v.count;
  room = v.room;
  named = v.named;
}
