-- ===== src/Cache/Tests.antt =====
-- Runs of the cache of practicum1/cache.c, and its theorems at concrete inputs.
use cs5600_computer_system.Common.{ℕ, ◌≡◌, refl, arith, true, Option, none, some, List, [], ◌∷◌}
use cs5600_computer_system.Message.{Message, Io, Files, whole, store_msg, retrieve_msg}
use cs5600_computer_system.Cache.{
  Cache, ok, fault, hangs, init_cache, get_msg_from_cache_or_disk, put_msg, deref, probe, free_slot,
  new_node, remove_node, add_node_to_tail, evict, evict_if_needed, update_existing, insert_new, hit,
  miss, hit_if_key,
}
use cs5600_computer_system.Cache.Invariant.{IsValid, FilesMatch}
use cs5600_computer_system.Cache.Lru.{Lru, Request, fetch, store}
use cs5600_computer_system.Cache.Refine.{Ends}
use cs5600_computer_system.Cache.Transparent.{working, disk_answers, cache_transparent}
use cs5600_computer_system.Cache.Requests.{serve, answers, cache_refines_lru, init_cache-IsValid}

abbrev works : Io
works = record {
  opens_write = true;
  writes = true;
  flushes = true;
  opens_read = true;
  allocates = true;
}

abbrev letter : ℕ → Message
letter id = record {
  id = id;
  time_sent = 0;
  sender = [];
  receiver = [];
  content = [];
  delivered = 0;
}

-- A disk that holds a letter for every id.
abbrev all_letters : Files
all_letters id = some (whole (letter id))

all_letters-FilesMatch : FilesMatch all_letters
all_letters-FilesMatch id msg e = ground arith

abbrev empty_cache : Cache
unfolding init_cache
empty_cache = init_cache (λ p. 0) letter (λ p. 0) (λ p. 0) all_letters

-- What a sequence of fetches ends in: hits, misses and entries, or a fault or a loop.
abbrev Result : Type 0
Result = Option (ℕ × ℕ × ℕ)

gets : List ℕ → Cache → Result
gets [] s = some (s.hits, s.misses, s.current_size)
gets (id ∷ ids) s = elim (get_msg_from_cache_or_disk works id s) [
  | ok m t ↦ gets ids t
  | fault ↦ none
  | hangs ↦ none
]

-- 4 misses and 2 hits.
fetch_small : gets (1 ∷ 2 ∷ 3 ∷ 1 ∷ 2 ∷ 4 ∷ []) empty_cache ≡ some (2, 4, 4)
unfolding gets get_msg_from_cache_or_disk hit_if_key hit miss put_msg insert_new update_existing
    evict_if_needed evict new_node free_slot probe remove_node add_node_to_tail deref retrieve_msg
    store_msg init_cache
fetch_small = refl

abbrev fourteen : List ℕ → List ℕ
fourteen l = 2 ∷ 3 ∷ 4 ∷ 5 ∷ 6 ∷ 7 ∷ 8 ∷ 9 ∷ 10 ∷ 11 ∷ 12 ∷ 13 ∷ 14 ∷ 15 ∷ l

abbrev seventeen : List ℕ → List ℕ
seventeen l = 31 ∷ 32 ∷ 33 ∷ 34 ∷ 35 ∷ 36 ∷ 37 ∷ 38 ∷ 39 ∷ 40 ∷ 41 ∷ 42 ∷ 43 ∷ 44 ∷ 45 ∷ 46 ∷ 47 ∷ l

-- The ids 20 and 123 share a slot. Once 20 is evicted, 123 is not found and enters again; the
-- eviction of one of its nodes leaves a slot that points to freed memory, and the fetch of 20 and
-- 123 reads it.
shared_slot_faults :
    gets (20 ∷ 123 ∷ fourteen (30 ∷ 123 ∷ seventeen (20 ∷ 123 ∷ []))) empty_cache ≡ none
unfolding gets get_msg_from_cache_or_disk hit_if_key hit miss put_msg insert_new update_existing
    evict_if_needed evict new_node free_slot probe remove_node add_node_to_tail deref retrieve_msg
    store_msg init_cache
shared_slot_faults = refl

abbrev script : List (Io × Request)
script = (works, fetch 1) ∷ (works, store (letter 2)) ∷ (works, fetch 2) ∷ (works, fetch 1) ∷ []

abbrev fresh_lru : Lru
fresh_lru = record { entries = []; hits = 0; misses = 0; files = all_letters }

cache_refines_lru_example :
    Ends
      (serve script (init_cache (λ p. 0) letter (λ p. 0) (λ p. 0) all_letters))
      (answers script fresh_lru).0
      (answers script fresh_lru).1
cache_refines_lru_example =
    cache_refines_lru (λ p. 0) letter (λ p. 0) (λ p. 0) all_letters script all_letters-FilesMatch
      (omega arith)

empty_cache-IsValid : IsValid (init_cache (λ p. 0) letter (λ p. 0) (λ p. 0) all_letters) []
empty_cache-IsValid =
    init_cache-IsValid (λ p. 0) letter (λ p. 0) (λ p. 0) all_letters all_letters-FilesMatch

abbrev requests : List Request
requests = fetch 1 ∷ store (letter 2) ∷ fetch 2 ∷ fetch 1 ∷ []

cache_transparent_example :
    (t : Cache) × (serve
        (working requests)
        (init_cache (λ p. 0) letter (λ p. 0) (λ p. 0) all_letters)
      ≡ ok (disk_answers requests all_letters).0 t)
    × ((j : ℕ) → t.files j ≡ (disk_answers requests all_letters).1 j)
cache_transparent_example =
    cache_transparent (λ p. 0) letter (λ p. 0) (λ p. 0) all_letters requests all_letters-FilesMatch
      (omega arith)

disk_alone :
    (disk_answers requests all_letters).0 ≡ some (letter 1) ∷ some (letter 2) ∷ some (letter 1) ∷ []
unfolding disk_answers store_msg retrieve_msg
disk_alone = refl
