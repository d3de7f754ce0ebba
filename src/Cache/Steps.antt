-- ===== src/Cache/Steps.antt =====
-- The list and table operations of practicum1/cache.c, each as one update of a valid cache.
use cs5600_computer_system.Common.{◌≡◌, arith, true, false, List, [], ◌∷◌, ◌++◌}
use cs5600_computer_system.Cache.{Ptr, Cache, ok, deref, remove_node, add_node_to_tail}
use cs5600_computer_system.Cache.Links.{
  has, Distinct, erase, has-append, before_node, after_node, before_end, Chain-erase, Chain-append,
  append-Distinct, erase-Distinct, has-erase_of_not, has-erase_of_has, unlinked_next, unlinked_prev,
  linked_next, linked_prev,
}
use cs5600_computer_system.Cache.Invariant.{all_nodes, Usable, Linked}

-- The cache after `remove_node`.
abbrev pub unlinked : Cache → Ptr → Cache
unlinked s m = record s {
  next = unlinked_next s.next s.prev m;
  prev = unlinked_prev s.next s.prev m;
}

-- The cache after `add_node_to_tail`.
abbrev pub linked_last : Cache → Ptr → Cache
linked_last s m = record s {
  next = linked_next s.next s.prev m s.tail;
  prev = linked_prev s.next s.prev m s.tail;
}

-- The list with its two dummies at its ends.
ends-Distinct : (a b : Ptr) (xs : List Ptr) → Distinct (b ∷ a ∷ xs) → Distinct (a ∷ xs ++ (b ∷ []))
ends-Distinct a b xs d = append-Distinct (a ∷ xs) b d.1 d.0

module _ {s : Cache} {order : List Ptr} (l : Linked s order) where
  before_alive : (m : Ptr) → has m order ≡ true → s.live (s.prev m) ≡ true
  before_alive m h =
      (l.nodes (s.prev m)
        (ground (arith, before_node s.next s.prev s.head order s.tail m l.chain h))).alive

  after_alive : (m : Ptr) → has m order ≡ true → s.live (s.next m) ≡ true
  after_alive m h =
      (l.nodes (s.next m) (
        ground (
          arith,
          after_node s.next s.prev s.head order s.tail m l.chain h,
          has-append (s.next m) order (s.tail ∷ []),
        ))).alive

  pub remove_node-ok : (m : Ptr) → has m order ≡ true → remove_node m s ≡ ok tt (unlinked s m)
  unfolding remove_node deref
  remove_node-ok m h =
      let here : s.live m ≡ true = (l.nodes m (ground arith)).alive in
      let reread : unlinked_next s.next s.prev m m ≡ s.next m = ground arith in
      rw (here, here, before_alive m h, here, here, reread, after_alive m h)

  last_alive : s.live (s.prev s.tail) ≡ true
  last_alive =
      (l.nodes (s.prev s.tail)
        (ground (arith, before_end s.next s.prev s.head order s.tail l.chain))).alive

  pub add_node_to_tail-ok :
      (m : Ptr) → s.live m ≡ true → add_node_to_tail m s ≡ ok tt (linked_last s m)
  unfolding add_node_to_tail deref
  add_node_to_tail-ok m h =
      let end : s.live s.tail ≡ true = (l.nodes s.tail (ground arith)).alive in
      rw (end, last_alive, h, h, end)

  pub unlinked-Linked : (m : Ptr) → has m order ≡ true → Linked (unlinked s m) (erase m order)
  unlinked-Linked m h = record {
    distinct = ground (
      arith,
      erase-Distinct m order,
      has-erase_of_not s.tail m order,
      has-erase_of_not s.head m order,
    );
    chain =
        Chain-erase s.next s.prev s.head order s.tail m l.chain h
          (ends-Distinct s.head s.tail order l.distinct);
    nodes = λ p i. ground (arith, l.nodes p, has-erase_of_has p m order);
  }

  pub linked_last-Linked :
      (m : Ptr)
      → Usable s m
      → has m (all_nodes s order) ≡ false
      → Linked (linked_last s m) (order ++ (m ∷ []))
  linked_last-Linked m u out = record {
    distinct = ground (
      arith,
      append-Distinct order m,
      has-append s.tail order (m ∷ []),
      has-append s.head order (m ∷ []),
    );
    chain =
        Chain-append s.next s.prev s.head order s.tail m l.chain
          (ends-Distinct s.head s.tail order l.distinct)
          (ground (arith, has-append m order (s.tail ∷ [])));
    nodes = λ p i. ground (arith, l.nodes p, u, has-append p order (m ∷ []));
  }
