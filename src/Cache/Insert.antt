-- ===== src/Cache/Insert.antt =====
-- The insertion of a new message by `put_msg` of practicum1/cache.c on a valid cache.
use cs5600_computer_system.Common.{
  ℕ, ◌+◌, ◌<◌, ◌≡◌, ap, ◌∙◌, arith, true, false, List, [], ◌∷◌, ◌++◌, length, length-append, get_or,
  set, get_or-set_self, get_or-set_ne, length-set, ==-refl, ℕ_discrete, Bool-cases, inl, inr,
}
use cs5600_computer_system.Message.{Message}
use cs5600_computer_system.Cache.{
  Ptr, null, Cache, ok, hash_size, cache_capacity, update, new_node, add_node_to_tail, free_slot,
  insert_new, write_slot, get_state, put_state, ◌>>=◌, ◌>>◌,
}
use cs5600_computer_system.Cache.Links.{has, has-append}
use cs5600_computer_system.Cache.Table.{
  node_for, entries, entries-append, entries-update, node_for-append, node_for-update,
  DistinctKeys-update, append-DistinctKeys,
}
use cs5600_computer_system.Cache.Invariant.{Linked, Indexed, Usable, all_nodes, IsValid, view}
use cs5600_computer_system.Cache.Steps.{linked_last, add_node_to_tail-ok, linked_last-Linked}
use cs5600_computer_system.Cache.Slots.{free_slot-ok}
use cs5600_computer_system.Cache.Evict.{evict_if_needed-ok}
use cs5600_computer_system.Cache.Lru.{Lru, make_room}

-- The cache after `malloc` and the stores into the new node.
abbrev pub with_node : Cache → Message → Cache
with_node t msg = record t {
  live = update t.live t.fresh true;
  key = update t.key t.fresh msg.id;
  value = update t.value t.fresh msg;
  fresh = t.fresh + 1;
}

-- The cache after the insertion.
abbrev pub inserted : Cache → Message → Cache
inserted t msg = record (linked_last (with_node t msg) t.fresh) {
  hash_table = set t.hash_table msg.id t.fresh;
  current_size = t.current_size + 1;
}

module _ (t : Cache) (order : List Ptr) (msg : Message) (v : IsValid t order)
    (small : msg.id < hash_size) (space : length order < cache_capacity)
    (absent : node_for t.key msg.id order ≡ null) where
  unused : (ps : List Ptr) → ((p : Ptr) → has p ps ≡ true → Usable t p) → has t.fresh ps ≡ false
  unused ps all = elim (Bool-cases (has t.fresh ps)) [
    | inl used ↦ absurd (omega (arith, (all t.fresh used).given))
    | inr free ↦ free
  ]

  new : has t.fresh (all_nodes t order) ≡ false
  new = unused (all_nodes t order) v.linked.nodes

  new_in : has t.fresh order ≡ false
  new_in = ground (arith, new)

  no_null : has null order ≡ false
  no_null = elim (Bool-cases (has null order)) [
    | inl used ↦ absurd (omega (arith, (v.linked.nodes null (ground arith)).not_null))
    | inr free ↦ free
  ]

  with_node-Linked : Linked (with_node t msg) order
  with_node-Linked = record {
    distinct = v.linked.distinct;
    chain = v.linked.chain;
    nodes = λ p i. ground (arith, v.linked.nodes p i);
  }

  new_node-Usable : Usable (with_node t msg) t.fresh
  new_node-Usable = ground (arith, v.linked.nodes t.tail)

  inserted-Linked : Linked (inserted t msg) (order ++ (t.fresh ∷ []))
  inserted-Linked =
      let l = linked_last-Linked with_node-Linked t.fresh new_node-Usable new in
      record { distinct = l.distinct; chain = l.chain; nodes = λ p i. ground (arith, l.nodes p i) }

  key_of_new : update t.key t.fresh msg.id t.fresh ≡ msg.id
  key_of_new = rw (==-refl t.fresh)

  still_absent : (i : ℕ) → node_for (update t.key t.fresh msg.id) i order ≡ node_for t.key i order
  still_absent i = node_for-update t.key t.fresh msg.id i order new_in

  in_table : msg.id < length t.hash_table
  in_table = omega (arith, v.indexed.slot_count)

  inserted-Indexed : Indexed (inserted t msg) (order ++ (t.fresh ∷ []))
  inserted-Indexed = record {
    small = λ p i. ground (arith, v.indexed.small p, has-append p order (t.fresh ∷ []));
    unique =
        append-DistinctKeys (update t.key t.fresh msg.id) order t.fresh no_null
          (DistinctKeys-update t.key t.fresh msg.id order new_in v.indexed.unique)
          (rw key_of_new (still_absent msg.id ∙ absent));
    slots = λ i lt.
        rw
          (
            node_for-append (update t.key t.fresh msg.id) i order t.fresh no_null,
            still_absent i,
            key_of_new,
          )
          (elim (ℕ_discrete msg.id i) [
            | yes same ↦
                rw (← same, absent, ==-refl msg.id)
                  (get_or-set_self t.hash_table msg.id t.fresh null in_table)
            | no other ↦ ground (
              arith,
              get_or-set_ne t.hash_table msg.id i t.fresh null other,
              v.indexed.slots i lt,
            )
          ]);
    slot_count = length-set t.hash_table msg.id t.fresh ∙ v.indexed.slot_count;
  }

  pub inserted-IsValid : IsValid (inserted t msg) (order ++ (t.fresh ∷ []))
  inserted-IsValid = record {
    linked = inserted-Linked;
    indexed = inserted-Indexed;
    count = omega (arith, v.count, length-append order (t.fresh ∷ []));
    room = omega (arith, length-append order (t.fresh ∷ []));
    named = v.named;
  }

  pub entries-inserted :
      entries (inserted t msg).key (inserted t msg).value (order ++ (t.fresh ∷ []))
      ≡ entries t.key t.value order ++ ((msg.id, msg) ∷ [])
  entries-inserted = rw (
    entries-append (update t.key t.fresh msg.id) (update t.value t.fresh msg) order (t.fresh ∷ []),
    entries-update t.key t.value t.fresh msg.id msg order new_in,
    ==-refl t.fresh,
  )

  empty_slot : get_or t.hash_table msg.id null ≡ null
  empty_slot = v.indexed.slots msg.id small ∙ absent

  -- The commands of `put_msg` after `evict_if_needed`.
  pub place-ok :
      (do
        node ← new_node msg.id msg
        add_node_to_tail node
        h ← free_slot hash_size msg.id
        write_slot h node
        s ← get_state
        put_state (record s { current_size = s.current_size + 1 }))
        t
      ≡ ok tt (inserted t msg)
  unfolding new_node
  place-ok = rw (
    add_node_to_tail-ok with_node-Linked t.fresh new_node-Usable.alive,
    free_slot-ok (linked_last (with_node t msg) t.fresh) msg.id small empty_slot,
  )

-- Given no node with its id, `put_msg` inserts a message after the entries that `make_room` keeps.
pub insert_new-ok :
    (s : Cache) (order : List Ptr) (msg : Message)
    → IsValid s order
    → msg.id < hash_size
    → node_for s.key msg.id order ≡ null
    → (t : Cache) × (order' : List Ptr) × (insert_new msg.id msg s ≡ ok tt t)
      × IsValid t order'
      × (view t order' ≡ record (view s order) {
        entries = make_room (entries s.key s.value order) ++ ((msg.id, msg) ∷ []);
      })
unfolding insert_new
insert_new-ok s order msg v small absent =
    let (t, order', eq, made) = evict_if_needed-ok s order v in
    (
      inserted t msg,
      order' ++ (t.fresh ∷ []),
      rw eq (place-ok t order' msg made.valid small made.space (made.no_new msg.id absent)),
      inserted-IsValid t order' msg made.valid small made.space (made.no_new msg.id absent),
      ap (λ es. record (view t order') { entries = es })
            (entries-inserted t order' msg made.valid small made.space (made.no_new msg.id absent))
          ∙ ap (λ (l : Lru). record l { entries = l.entries ++ ((msg.id, msg) ∷ []) })
              made.same_view,
    )
