-- ===== src/Cache/Table.antt =====
-- Nodes by their keys, and what a list of nodes stands for.
use cs5600_computer_system.Common.{
  ℕ, suc, ◌≡◌, ◌≢◌, refl, ap, arith, true, false, none, some, List, [], ◌∷◌, ◌++◌, if◌then◌else◌,
  ◌==◌, length,
}
use cs5600_computer_system.Message.{Message}
use cs5600_computer_system.Cache.{Ptr, null, update}
use cs5600_computer_system.Cache.Links.{has, erase}
use cs5600_computer_system.Cache.Lru.{Entries, lookup, drop_key}

module _ (key : Ptr → ℕ) where
  -- The first node with the key, or NULL.
  abbrev pub node_for : ℕ → List Ptr → Ptr
  node_for k [] = null
  node_for k (p ∷ ps) = if key p == k then p else node_for k ps

  -- No two nodes have the same key.
  abbrev pub DistinctKeys : List Ptr → Type 0
  DistinctKeys [] = Unit {0}
  DistinctKeys (p ∷ ps) = (node_for (key p) ps ≡ null) × DistinctKeys ps

  pub node_for-append :
      (k : ℕ) (ps : List Ptr) (m : Ptr)
      → has null ps ≡ false
      → node_for k (ps ++ (m ∷ []))
        ≡ (if node_for k ps == null then (if key m == k then m else null) else node_for k ps)
  node_for-append k [] m h = refl
  node_for-append k (p ∷ ps) m h = ground (arith, node_for-append k ps m)

  pub node_for-key :
      (ps : List Ptr) (m : Ptr)
      → has m ps ≡ true
      → DistinctKeys ps
      → has null ps ≡ false
      → node_for (key m) ps ≡ m
  node_for-key [] m i d h = ground arith
  node_for-key (p ∷ ps) m i d h = ground (arith, node_for-key ps m)

  pub node_for-erase :
      (k : ℕ) (ps : List Ptr) (m : Ptr)
      → has null ps ≡ false
      → has m ps ≡ true
      → DistinctKeys ps
      → node_for k (erase m ps) ≡ (if key m == k then null else node_for k ps)
  node_for-erase k [] m h i d = ground arith
  node_for-erase k (p ∷ ps) m h i d = ground (arith, node_for-erase k ps m, node_for-key ps m)

  pub has-node_for : (k : ℕ) (ps : List Ptr) → node_for k ps ≢ null → has (node_for k ps) ps ≡ true
  has-node_for k [] h = ground arith
  has-node_for k (p ∷ ps) h = ground (arith, has-node_for k ps)

  pub key-node_for : (k : ℕ) (ps : List Ptr) → node_for k ps ≢ null → key (node_for k ps) ≡ k
  key-node_for k [] h = ground arith
  key-node_for k (p ∷ ps) h = ground (arith, key-node_for k ps)

  pub erase-DistinctKeys :
      (ps : List Ptr) (m : Ptr)
      → has null ps ≡ false
      → has m ps ≡ true
      → DistinctKeys ps
      → DistinctKeys (erase m ps)
  erase-DistinctKeys [] m h i d = ground arith
  erase-DistinctKeys (p ∷ ps) m h i d =
      ground (arith, erase-DistinctKeys ps m, node_for-erase (key p) ps m)

  pub append-DistinctKeys :
      (ps : List Ptr) (m : Ptr)
      → has null ps ≡ false
      → DistinctKeys ps
      → node_for (key m) ps ≡ null
      → DistinctKeys (ps ++ (m ∷ []))
  append-DistinctKeys [] m h d k = (refl, tt)
  append-DistinctKeys (p ∷ ps) m h d k =
      ground (arith, append-DistinctKeys ps m, node_for-append (key p) ps m)

  module _ (value : Ptr → Message) where
    -- What the nodes stand for, in order.
    abbrev pub entries : List Ptr → Entries
    entries [] = []
    entries (p ∷ ps) = (key p, value p) ∷ entries ps

    pub length-entries : (ps : List Ptr) → length (entries ps) ≡ length ps
    length-entries [] = refl
    length-entries (p ∷ ps) = ap suc (length-entries ps)

    pub entries-append : (ps qs : List Ptr) → entries (ps ++ qs) ≡ entries ps ++ entries qs
    entries-append [] qs = refl
    entries-append (p ∷ ps) qs = ap (◌∷◌ (key p, value p)) (entries-append ps qs)

    pub lookup-entries :
        (k : ℕ) (ps : List Ptr)
        → has null ps ≡ false
        → lookup k (entries ps)
          ≡ (if node_for k ps == null then none else some (value (node_for k ps)))
    lookup-entries k [] h = refl
    lookup-entries k (p ∷ ps) h = ground (arith, lookup-entries k ps)

    pub entries-erase :
        (ps : List Ptr) (m : Ptr)
        → has m ps ≡ true
        → has null ps ≡ false
        → DistinctKeys ps
        → entries (erase m ps) ≡ drop_key (key m) (entries ps)
    entries-erase [] m i h d = ground arith
    entries-erase (p ∷ ps) m i h d = ground (arith, entries-erase ps m, node_for-key ps m)

-- A node that is not in the list may change.
pub node_for-update :
    (key : Ptr → ℕ) (m k : ℕ) (i : ℕ) (ps : List Ptr)
    → has m ps ≡ false
    → node_for (update key m k) i ps ≡ node_for key i ps
node_for-update key m k i [] h = refl
node_for-update key m k i (p ∷ ps) h = ground (arith, node_for-update key m k i ps)

pub DistinctKeys-update :
    (key : Ptr → ℕ) (m k : ℕ) (ps : List Ptr)
    → has m ps ≡ false
    → DistinctKeys key ps
    → DistinctKeys (update key m k) ps
DistinctKeys-update key m k [] h d = tt
DistinctKeys-update key m k (p ∷ ps) h d =
    ground (arith, DistinctKeys-update key m k ps, node_for-update key m k (key p) ps)

pub entries-update :
    (key : Ptr → ℕ) (value : Ptr → Message) (m k : ℕ) (v : Message) (ps : List Ptr)
    → has m ps ≡ false
    → entries (update key m k) (update value m v) ps ≡ entries key value ps
entries-update key value m k v [] h = refl
entries-update key value m k v (p ∷ ps) h = ground (arith, entries-update key value m k v ps)

pub entries-update_value :
    (key : Ptr → ℕ) (value : Ptr → Message) (m : ℕ) (v : Message) (ps : List Ptr)
    → has m ps ≡ false
    → entries key (update value m v) ps ≡ entries key value ps
entries-update_value key value m v [] h = refl
entries-update_value key value m v (p ∷ ps) h =
    ground (arith, entries-update_value key value m v ps)
