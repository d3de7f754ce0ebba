-- ===== src/Cache/Slots.antt =====
-- The searches of the hash table of practicum1/cache.c, for keys below `HASH_SIZE`.
use cs5600_computer_system.Common.{ℕ, suc, ◌<◌, ◌≡◌, ◌≢◌, arith, true, List, get_or}
use native.Mathlib.Nat.{mod-eq_of_lt}
use cs5600_computer_system.Cache.{Ptr, null, Cache, ok, hash, hash_size, probe, free_slot}
use cs5600_computer_system.Cache.Links.{has}
use cs5600_computer_system.Cache.Table.{node_for, has-node_for, key-node_for}
use cs5600_computer_system.Cache.Invariant.{Linked, Indexed}

-- What the table has at a key's slot: nothing, or a node with that key.
abbrev pub SlotOk : Cache → ℕ → Type 0
SlotOk s k =
    get_or s.hash_table k null ≢ null
    → (s.live (get_or s.hash_table k null) ≡ true) × (s.key (get_or s.hash_table k null) ≡ k)

probe_first : (fuel : ℕ) (s : Cache) (k : ℕ) → SlotOk s k → probe (suc fuel) k k s ≡ ok k s
unfolding probe
probe_first fuel s k h = ground (arith, h)

free_slot_first :
    (fuel : ℕ) (s : Cache) (k : ℕ)
    → get_or s.hash_table k null ≡ null
    → free_slot (suc fuel) k s ≡ ok k s
unfolding free_slot
free_slot_first fuel s k h = ground arith

module _ (s : Cache) (k : ℕ) (lt : k < hash_size) where
  pub hash-small : hash k ≡ k
  hash-small = mod-eq_of_lt lt

  pub probe-ok : SlotOk s k → probe hash_size k (hash k) s ≡ ok k s
  probe-ok h = rw hash-small (probe_first 102 s k h)

  pub free_slot-ok : get_or s.hash_table k null ≡ null → free_slot hash_size k s ≡ ok k s
  free_slot-ok h = free_slot_first 102 s k h

  pub Indexed-SlotOk : {order : List Ptr} → Linked s order → Indexed s order → SlotOk s k
  Indexed-SlotOk {order} l x h =
      let at : get_or s.hash_table k null ≡ node_for s.key k order = x.slots k lt in
      let some_node : node_for s.key k order ≢ null = ground (arith, at) in
      let inside : has (node_for s.key k order) order ≡ true =
        has-node_for s.key k order some_node in
      rw at ((l.nodes _ (ground arith)).alive, key-node_for s.key k order some_node)
