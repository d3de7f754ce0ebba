-- ===== src/Cache/Evict.antt =====
-- `evict_if_needed` of practicum1/cache.c on a valid cache.
use cs5600_computer_system.Common.{
  ℕ, ◌-◌, ◌<◌, ◌≡◌, refl, sym, subst, ◌∙◌, arith, true, false, List, [], ◌∷◌, ltb, ◌==◌, length,
  set, get_or-set_self, get_or-set_ne, length-set, inl, inr, Bool-cases, lt→ltb, le→ltb, ltb→lt,
  ==-refl, ==-false, ℕ_discrete,
}
use cs5600_computer_system.Cache.{
  Ptr, null, Cache, ok, hash_size, cache_capacity, update, evict, evict_if_needed, deref,
}
use cs5600_computer_system.Cache.Links.{has, erase}
use cs5600_computer_system.Cache.Table.{node_for, entries, length-entries}
use cs5600_computer_system.Cache.Invariant.{Linked, Indexed, IsValid, view}
use cs5600_computer_system.Cache.Steps.{unlinked, remove_node-ok, unlinked-Linked}
use cs5600_computer_system.Cache.Slots.{SlotOk, probe-ok, Indexed-SlotOk}
use cs5600_computer_system.Cache.Lru.{make_room}

-- The cache after the eviction of its oldest node `m`.
abbrev pub evicted : Cache → Ptr → Cache
evicted s m = record (unlinked s m) {
  live = update s.live m false;
  hash_table = set s.hash_table (s.key m) null;
  current_size = s.current_size - 1;
}

module _ (s : Cache) (m : Ptr) (rest : List Ptr) (v : IsValid s (m ∷ rest)) where
  oldest : has m (m ∷ rest) ≡ true
  oldest = ground arith

  key_small : s.key m < hash_size
  key_small = v.indexed.small m oldest

  -- `remove_node` does not change what the table says.
  found : SlotOk (unlinked s m) (s.key m)
  found = Indexed-SlotOk s (s.key m) key_small v.linked v.indexed

  pub evict-ok : evict m s ≡ ok tt (evicted s m)
  unfolding evict deref
  evict-ok =
      let here : s.live m ≡ true = (v.linked.nodes m (ground arith)).alive in
      rw (
        remove_node-ok v.linked m oldest,
        here,
        probe-ok (unlinked s m) (s.key m) key_small found,
        here,
      )

  erase_first : erase m (m ∷ rest) ≡ rest
  erase_first = rw (==-refl m)

  shorter : Linked (unlinked s m) rest
  shorter = subst (Linked (unlinked s m)) erase_first (unlinked-Linked v.linked m oldest)

  evicted-Linked : Linked (evicted s m) rest
  evicted-Linked = record {
    distinct = shorter.distinct;
    chain = shorter.chain;
    nodes = λ p i. ground (arith, shorter.nodes p i, v.linked.distinct);
  }

  in_table : s.key m < length s.hash_table
  in_table = omega (arith, v.indexed.slot_count, key_small)

  evicted-Indexed : Indexed (evicted s m) rest
  evicted-Indexed = record {
    small = λ p i. v.indexed.small p (ground arith);
    unique = v.indexed.unique.1;
    slots = λ i lt. elim (ℕ_discrete (s.key m) i) [
      | yes same ↦
          rw (← same)
            (get_or-set_self s.hash_table (s.key m) null null in_table ∙ sym v.indexed.unique.0)
      | no other ↦
          get_or-set_ne s.hash_table (s.key m) i null null other
          ∙ v.indexed.slots i lt
          ∙ rw (==-false (s.key m) i other)
    ];
    slot_count = length-set s.hash_table (s.key m) null ∙ v.indexed.slot_count;
  }

  pub evicted-IsValid : IsValid (evicted s m) rest
  evicted-IsValid = record {
    linked = evicted-Linked;
    indexed = evicted-Indexed;
    count = omega (arith, v.count);
    room = omega (arith, v.room);
    named = v.named;
  }

-- What `evict_if_needed` leaves: a valid cache with a free place, which stands for the entries that
-- `make_room` keeps; no key came in, and no address was handed out.
pub record MadeRoom (s : Cache) (order : List Ptr) (t : Cache) (order' : List Ptr) : Type 0 where
  pub valid : IsValid t order'
  pub space : length order' < cache_capacity
  pub same_view :
      view t order' ≡ record (view s order) { entries = make_room (entries s.key s.value order) }
  pub no_new : (k : ℕ) → node_for s.key k order ≡ null → node_for t.key k order' ≡ null
  pub same_fresh : t.fresh ≡ s.fresh

pub evict_if_needed-ok :
    (s : Cache) (order : List Ptr)
    → IsValid s order
    → (t : Cache) × (order' : List Ptr) × (evict_if_needed s ≡ ok tt t) × MadeRoom s order t order'
unfolding evict_if_needed deref
evict_if_needed-ok s [] v = (
  s,
  [],
  rw (lt→ltb s.current_size 16 (omega (arith, v.count))),
  record { valid = v; space = omega arith; same_view = refl; no_new = λ k h. h; same_fresh = refl },
)
evict_if_needed-ok s (m ∷ rest) v =
    let head_alive : s.live s.head ≡ true = (v.linked.nodes s.head (ground arith)).alive in
    let first : s.next s.head ≡ m = v.linked.chain.0 in
    let not_tail : (m == s.tail) ≡ false = ground (arith, v.linked.distinct) in
    elim (Bool-cases (ltb (length (m ∷ rest)) cache_capacity)) [
      | inl small ↦ (
        s,
        m ∷ rest,
        rw (lt→ltb s.current_size 16 (ground arith)),
        record {
          valid = v;
          space = ltb→lt _ _ small;
          same_view = rw (length-entries s.key s.value rest, small);
          no_new = λ k h. h;
          same_fresh = refl;
        },
      )
      | inr full ↦ (
        evicted s m,
        rest,
        rw (le→ltb s.current_size 16 (ground arith), head_alive, first, not_tail)
            (evict-ok s m rest v),
        record {
          valid = evicted-IsValid s m rest v;
          space = omega (arith, v.room);
          same_view = rw (length-entries s.key s.value rest, full);
          no_new = λ k h. ground (arith, v.linked.nodes m);
          same_fresh = refl;
        },
      )
    ]
