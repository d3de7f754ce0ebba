-- ===== src/Cache/Refine.antt =====
-- Over ids below `HASH_SIZE` the cache of practicum1/cache.c is the LRU cache that its header
-- promises: it never touches freed memory, never loops for ever, and answers as the specification.
use cs5600_computer_system.Common.{
  ℕ, ◌+◌, ◌<◌, ◌≡◌, ◌⊎◌, refl, sym, subst, ap, ◌∙◌, arith, true, false, Option, none, some, List,
  if◌then◌else◌, ◌==◌, get_or, Option-cases, Bool-cases, inl, inr, eq_of_==, ==-refl, ==-refl,
}
use cs5600_computer_system.Message.{Message, Files, Io, store_msg, retrieve_msg}
use cs5600_computer_system.Cache.{
  Ptr, null, Cache, Run, ok, hash_size, probe, hash, deref, put_msg, get_msg_from_cache_or_disk,
  hit_if_key, miss,
}
use cs5600_computer_system.Cache.Links.{has}
use cs5600_computer_system.Cache.Table.{
  node_for, has-node_for, key-node_for, entries, lookup-entries,
}
use cs5600_computer_system.Cache.Invariant.{IsValid, view, FilesMatch, payload-IsValid}
use cs5600_computer_system.Cache.Slots.{probe-ok, Indexed-SlotOk}
use cs5600_computer_system.Cache.Insert.{insert_new-ok}
use cs5600_computer_system.Cache.Touch.{hit-ok, update_existing-ok}
use cs5600_computer_system.Cache.Lru
use cs5600_computer_system.Cache.Lru.{Lru, lookup, use_entry, make_room}

store_msg-FilesMatch :
    (io : Io) (msg : Message) (files : Files)
    → FilesMatch files
    → FilesMatch (store_msg io (some msg) files).1
unfolding store_msg
store_msg-FilesMatch io msg files h id m e = ground (arith, h id m)

retrieve_msg-id :
    (io : Io) (id : ℕ) (files : Files) (msg : Message)
    → FilesMatch files
    → retrieve_msg io id files ≡ some msg
    → msg.id ≡ id
unfolding retrieve_msg
retrieve_msg-id io id files msg h e = ground (arith, h id msg)

store-IsValid :
    (io : Io) (msg : Message) (t : Cache) (order : List Ptr)
    → IsValid t order
    → IsValid (record t { files = (store_msg io (some msg) t.files).1 }) order
store-IsValid io msg t order v = record {
  linked = record {
    distinct = v.linked.distinct;
    chain = v.linked.chain;
    nodes = λ p h. ground (arith, v.linked.nodes p h);
  };
  indexed = record {
    small = v.indexed.small;
    unique = v.indexed.unique;
    slots = v.indexed.slots;
    slot_count = v.indexed.slot_count;
  };
  count = v.count;
  room = v.room;
  named = store_msg-FilesMatch io msg t.files v.named;
}

-- A command ends in a valid cache, with a given answer, standing for a given LRU cache.
pub record Ends {A : Type 0} (r : Run A) (answer : A) (l : Lru) : Type 0 where
  pub state : Cache
  pub order : List Ptr
  pub ends : r ≡ ok answer state
  pub valid : IsValid state order
  pub stands : view state order ≡ l

module _ (s : Cache) (order : List Ptr) (v : IsValid s order) (k : ℕ) (small : k < hash_size) where
  no_null : has null order ≡ false
  no_null = elim (Bool-cases (has null order)) [
    | inl used ↦ absurd (omega (arith, (v.linked.nodes null (ground arith)).not_null))
    | inr free ↦ free
  ]

  probe-key : probe hash_size k (hash k) s ≡ ok k s
  probe-key = probe-ok s k small (Indexed-SlotOk s k small v.linked v.indexed)

  slot-key : get_or s.hash_table k null ≡ node_for s.key k order
  slot-key = v.indexed.slots k small

  -- The key is not cached, or a node has it.
  key-cases :
      (node_for s.key k order ≡ null)
      ⊎ ((has (node_for s.key k order) order ≡ true)
          × (s.key (node_for s.key k order) ≡ k)
          × ((node_for s.key k order == null) ≡ false))
  key-cases = elim (Bool-cases (node_for s.key k order == null)) [
    | inl absent ↦ inl (eq_of_== _ _ absent)
    | inr present ↦ inr (
      has-node_for s.key k order (ground arith),
      key-node_for s.key k order (ground arith),
      present,
    )
  ]

  lookup-view :
      lookup k (view s order).entries
      ≡ (if node_for s.key k order == null then none else some (s.value (node_for s.key k order)))
  lookup-view = lookup-entries s.key s.value k order no_null

-- What `store_msg` does to the specification's state.
abbrev stored : Io → Message → Lru → Lru
stored io msg l = record l { files = (store_msg io (some msg) l.files).1 }

-- `put_msg` is the `put` of the specification.
pub put_msg_refines :
    (io : Io) (msg : Message) (s : Cache) (order : List Ptr)
    → IsValid s order
    → msg.id < hash_size
    → Ends (put_msg io msg s) tt (Lru.put io msg (view s order))
unfolding put_msg Lru.put
put_msg_refines io msg s order v small = elim (key-cases s order v msg.id small) [
  | inl absent ↦
      let (t, order', eq, valid, same) = insert_new-ok s order msg v small absent in
      record {
        state = record t { files = (store_msg io (some msg) t.files).1 };
        order = order';
        ends = rw (probe-key s order v msg.id small, slot-key s order v msg.id small, absent, eq);
        valid = store-IsValid io msg t order' valid;
        stands = rw (lookup-view s order v msg.id small, absent) (ap (stored io msg) same);
      }
  | inr (inside, named, present) ↦
      let (t, eq, valid, same) =
        update_existing-ok s order (node_for s.key msg.id order) msg v inside named in
      record {
        state = record t { files = (store_msg io (some msg) t.files).1 };
        order = _;
        ends = rw (probe-key s order v msg.id small, slot-key s order v msg.id small, present, eq);
        valid = store-IsValid io msg t _ valid;
        stands = rw (lookup-view s order v msg.id small, present) (ap (stored io msg) same);
      }
]

-- The specification's answer and state as a pair.
abbrev pub EndsAs : Run (Option Message) → Option Message × Lru → Type 0
EndsAs r p = Ends r p.0 p.1

-- A command that runs as another and a specification that answers as another.
EndsAs-eq :
    {r r' : Run (Option Message)} {p p' : Option Message × Lru}
    → r ≡ r'
    → p ≡ p'
    → EndsAs r' p'
    → EndsAs r p
EndsAs-eq {r} {p'} e f ends = subst (EndsAs r) (sym f) (subst (λ q. EndsAs q p') (sym e) ends)

module _ (io : Io) (id : ℕ) (l : Lru) where
  load-none : retrieve_msg io id l.files ≡ none → Lru.load io id l ≡ (none, l)
  unfolding Lru.load
  load-none h = ground arith

  load-some :
      (msg : Message)
      → retrieve_msg io id l.files ≡ some msg
      → Lru.load io id l ≡ (some msg, Lru.put io msg l)
  unfolding Lru.load
  load-some msg h = ground arith

  get-absent :
      lookup id l.entries ≡ none
      → Lru.get io id l ≡ Lru.load io id (record l { misses = l.misses + 1 })
  unfolding Lru.get
  get-absent h = ground arith

  get-present :
      (m : Message)
      → lookup id l.entries ≡ some m
      → Lru.get io id l
        ≡ (some m, record l { entries = use_entry id m l.entries; hits = l.hits + 1 })
  unfolding Lru.get
  get-present m h = ground arith

-- A miss counts, and loads the message from disk into the cache.
miss_refines :
    (io : Io) (id : ℕ) (s : Cache) (order : List Ptr)
    → IsValid s order
    → id < hash_size
    → EndsAs (miss io id s) (Lru.load io id (view (record s { misses = s.misses + 1 }) order))
unfolding miss
miss_refines io id s order v small =
    let s' = record s { misses = s.misses + 1 } in
    let v' = payload-IsValid s order s.value s.hits (s.misses + 1) v in
    elim (Option-cases (retrieve_msg io id s.files)) [
      | inl absent ↦
          EndsAs-eq (ground (arith, absent)) (load-none io id (view s' order) absent)
            (record { state = s'; order = order; ends = refl; valid = v'; stands = refl })
      | inr (msg, loaded) ↦
          let e = put_msg_refines io msg s' order v' (
            subst (λ k. k < hash_size) (sym (retrieve_msg-id io id s.files msg v.named loaded))
              small) in
          EndsAs-eq (ground (arith, loaded, e.ends)) (load-some io id (view s' order) msg loaded)
            (record {
              state = e.state;
              order = e.order;
              ends = refl;
              valid = e.valid;
              stands = e.stands;
            })
    ]

-- `get_msg_from_cache_or_disk` is the `get` of the specification.
pub get_msg_refines :
    (io : Io) (id : ℕ) (s : Cache) (order : List Ptr)
    → IsValid s order
    → id < hash_size
    → EndsAs (get_msg_from_cache_or_disk io id s) (Lru.get io id (view s order))
unfolding get_msg_from_cache_or_disk hit_if_key deref
get_msg_refines io id s order v small = elim (key-cases s order v id small) [
  | inl absent ↦
      EndsAs-eq (rw (probe-key s order v id small, slot-key s order v id small, absent))
        (get-absent io id (view s order) (lookup-view s order v id small ∙ rw absent))
        (miss_refines io id s order v small)
  | inr (inside, named, present) ↦
      let node = node_for s.key id order in
      let (t, eq, valid, same) = hit-ok s order node v inside in
      EndsAs-eq
        (rw
          (
            probe-key s order v id small,
            slot-key s order v id small,
            present,
            (v.linked.nodes node (ground arith)).alive,
            named,
            ==-refl id,
          )
          eq)
        (get-present io id (view s order) (s.value node)
          (lookup-view s order v id small ∙ rw present))
        (record {
          state = t;
          order = _;
          ends = refl;
          valid = valid;
          stands =
              same
              ∙ ap
                  (λ k. record (view s order) {
                    entries = use_entry k (s.value node) (entries s.key s.value order);
                    hits = s.hits + 1;
                  })
                  named;
        })
]
