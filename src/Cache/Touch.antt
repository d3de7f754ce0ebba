-- ===== src/Cache/Touch.antt =====
-- A used node of practicum1/cache.c moves to the end of the list: the hit of
-- `get_msg_from_cache_or_disk` and the update of `put_msg`.
use cs5600_computer_system.Common.{
  ◌+◌, ◌≡◌, ap, ◌∙◌, arith, true, false, some, List, [], ◌∷◌, ◌++◌, length-append, Bool-cases, inl,
  inr, eq_of_==, ==-refl,
}
use cs5600_computer_system.Message.{Message}
use cs5600_computer_system.Cache.{Ptr, null, Cache, ok, update, deref, hit, update_existing}
use cs5600_computer_system.Cache.Links.{
  has, erase, has-append, has-erase_self, has-erase_of_has, length-erase,
}
use cs5600_computer_system.Cache.Table.{
  node_for, entries, entries-append, entries-erase, entries-update_value, node_for-append,
  node_for-erase, node_for-key, erase-DistinctKeys, append-DistinctKeys,
}
use cs5600_computer_system.Cache.Invariant.{
  Linked, Indexed, Usable, all_nodes, IsValid, view, payload-IsValid,
}
use cs5600_computer_system.Cache.Steps.{
  unlinked, linked_last, remove_node-ok, unlinked-Linked, add_node_to_tail-ok, linked_last-Linked,
}
use cs5600_computer_system.Cache.Lru.{use_entry}

-- The cache after `remove_node` and `add_node_to_tail`.
abbrev pub moved : Cache → Ptr → Cache
moved s m = linked_last (unlinked s m) m

module _ (s : Cache) (order : List Ptr) (m : Ptr) (v : IsValid s order)
    (inside : has m order ≡ true) where
  usable : Usable s m
  usable = v.linked.nodes m (ground arith)

  rest-Linked : Linked (unlinked s m) (erase m order)
  rest-Linked = unlinked-Linked v.linked m inside

  out : has m (all_nodes s (erase m order)) ≡ false
  out = ground (arith, has-erase_self m order, v.linked.distinct)

  no_null : has null order ≡ false
  no_null = elim (Bool-cases (has null order)) [
    | inl used ↦ absurd (omega (arith, (v.linked.nodes null (ground arith)).not_null))
    | inr free ↦ free
  ]

  rest_no_null : has null (erase m order) ≡ false
  rest_no_null = elim (Bool-cases (has null (erase m order))) [
    | inl used ↦ ground (arith, no_null, has-erase_of_has null m order used)
    | inr free ↦ free
  ]

  last_place : (p : Ptr) → has p (erase m order ++ (m ∷ [])) ≡ true → has p order ≡ true
  last_place p h = ground (
    arith,
    has-append p (erase m order) (m ∷ []),
    has-erase_of_has p m order,
    inside,
    eq_of_== p m,
  )

  rest_absent : node_for s.key (s.key m) (erase m order) ≡ null
  rest_absent =
      node_for-erase s.key (s.key m) order m no_null inside v.indexed.unique
      ∙ rw (==-refl (s.key m))

  moved-Indexed : Indexed (moved s m) (erase m order ++ (m ∷ []))
  moved-Indexed = record {
    small = λ p h. v.indexed.small p (last_place p h);
    unique =
        append-DistinctKeys s.key (erase m order) m rest_no_null
          (erase-DistinctKeys s.key order m no_null inside v.indexed.unique) rest_absent;
    slots = λ i lt. ground (
      arith,
      v.indexed.slots i lt,
      v.indexed.unique,
      node_for-append s.key i (erase m order) m rest_no_null,
      node_for-erase s.key i order m no_null inside v.indexed.unique,
      node_for-key s.key order m inside v.indexed.unique no_null,
    );
    slot_count = v.indexed.slot_count;
  }

  pub moved-IsValid : IsValid (moved s m) (erase m order ++ (m ∷ []))
  moved-IsValid = record {
    linked =
        linked_last-Linked rest-Linked m
          (record { alive = usable.alive; not_null = usable.not_null; given = usable.given }) out;
    indexed = moved-Indexed;
    count =
        omega (arith, v.count, length-append (erase m order) (m ∷ []), length-erase m order inside);
    room =
        omega (arith, v.room, length-append (erase m order) (m ∷ []), length-erase m order inside);
    named = v.named;
  }

  pub entries-moved :
      entries s.key s.value (erase m order ++ (m ∷ []))
      ≡ use_entry (s.key m) (s.value m) (entries s.key s.value order)
  entries-moved = rw (
    entries-append s.key s.value (erase m order) (m ∷ []),
    entries-erase s.key s.value order m inside no_null v.indexed.unique,
  )

  entries-replaced :
      (msg : Message)
      → s.key m ≡ msg.id
      → entries s.key (update s.value m msg) (erase m order ++ (m ∷ []))
        ≡ use_entry msg.id msg (entries s.key s.value order)
  entries-replaced msg named = rw (
    entries-append s.key (update s.value m msg) (erase m order) (m ∷ []),
    entries-update_value s.key s.value m msg (erase m order)
        (has-erase_self m order v.linked.distinct.1.1),
    entries-erase s.key s.value order m inside no_null v.indexed.unique,
    ==-refl m,
    named,
  )

-- A hit answers with the message of the node, counts, and moves the node's entry to the end.
pub hit-ok :
    (s : Cache) (order : List Ptr) (m : Ptr)
    → IsValid s order
    → has m order ≡ true
    → (t : Cache) × (hit m s ≡ ok (some (s.value m)) t)
      × IsValid t (erase m order ++ (m ∷ []))
      × (view t (erase m order ++ (m ∷ [])) ≡ record (view s order) {
        entries = use_entry (s.key m) (s.value m) (entries s.key s.value order);
        hits = s.hits + 1;
      })
unfolding hit deref
hit-ok s order m v inside =
    let s' = record s { hits = s.hits + 1 } in
    let v' : IsValid s' order = payload-IsValid s order s.value (s.hits + 1) s.misses v in
    (
      moved s' m,
      rw (
        remove_node-ok v'.linked m inside,
        add_node_to_tail-ok (rest-Linked s' order m v' inside) m (usable s order m v inside).alive,
        (usable s order m v inside).alive,
      ),
      moved-IsValid s' order m v' inside,
      ap (λ es. record (view s' order) { entries = es }) (entries-moved s order m v inside),
    )

-- An update replaces the message of the node and moves its entry to the end.
pub update_existing-ok :
    (s : Cache) (order : List Ptr) (m : Ptr) (msg : Message)
    → IsValid s order
    → has m order ≡ true
    → s.key m ≡ msg.id
    → (t : Cache) × (update_existing m msg s ≡ ok tt t)
      × IsValid t (erase m order ++ (m ∷ []))
      × (view t (erase m order ++ (m ∷ []))
          ≡ record (view s order) { entries = use_entry msg.id msg (entries s.key s.value order) })
unfolding update_existing deref
update_existing-ok s order m msg v inside named =
    let s' = record s { value = update s.value m msg } in
    let v' : IsValid s' order = payload-IsValid s order (update s.value m msg) s.hits s.misses v in
    (
      moved s' m,
      rw (
        (usable s order m v inside).alive,
        remove_node-ok v'.linked m inside,
        add_node_to_tail-ok (rest-Linked s' order m v' inside) m (usable s order m v inside).alive,
      ),
      moved-IsValid s' order m v' inside,
      ap (λ es. record (view s order) { entries = es })
          (entries-replaced s order m v inside msg named),
    )
