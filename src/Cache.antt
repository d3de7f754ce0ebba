-- ===== src/Cache.antt =====
-- The LRU cache of practicum1/cache.c: nodes on a heap in a doubly linked list between two dummy
-- nodes, and a hash table with linear probing that points into it. Ids are the ints from 0 on (for
-- a negative id `hash` is no index). A field of the nodes is an array over the addresses; NULL is
-- 0. `malloc` succeeds and hands out addresses that were never used. The message that a node owns
-- stands in the node.
mod Tests
pub mod Links
pub mod Table
pub mod Slots
pub mod Evict
pub mod Insert
pub mod Touch
pub mod Lru
pub mod Invariant
pub mod Steps
pub mod Refine
pub mod Requests
pub mod Consistent
pub mod Transparent
use cs5600_computer_system.Common.{
  ℕ, zero, suc, ◌+◌, ◌-◌, ◌%◌, Bool, true, false, Option, none, some, List, [], ◌∷◌, if◌then◌else◌,
  ltb, ◌==◌, not, ◌&&◌, set, get_or, replicate,
}
use cs5600_computer_system.Message.{Message, Files, Io, store_msg, retrieve_msg}

abbrev pub Ptr : Type 0
Ptr = ℕ

abbrev pub null : Ptr
null = 0

abbrev pub cache_capacity : ℕ
cache_capacity = 16

abbrev pub hash_size : ℕ
hash_size = 103

abbrev pub update {ℓ} : {A : Type ℓ} → (Ptr → A) → Ptr → A → Ptr → A
update f p v a = if a == p then v else f a

-- The static variables, the nodes (`LRUNode`) by their fields, and the files. `live` says which
-- addresses hold a node; the addresses from `fresh` on were never handed out.
pub record Cache : Type 0 where
  pub live : Ptr → Bool
  pub key : Ptr → ℕ
  pub value : Ptr → Message
  pub prev : Ptr → Ptr
  pub next : Ptr → Ptr
  pub fresh : Ptr
  pub head : Ptr
  pub tail : Ptr
  pub current_size : ℕ
  pub hash_table : List Ptr
  pub hits : ℕ
  pub misses : ℕ
  pub files : Files

-- A command ends, touches memory that holds no node, or loops for ever.
pub data Run (A : Type 0) : Type 0 where
  ok : A → Cache → Run A
  fault : Run A
  hangs : Run A

abbrev pub Cmd : Type 0 → Type 0
Cmd A = Cache → Run A

module _ {A B : Type 0} where
  abbrev pub and_then : Run A → (A → Cmd B) → Run B
  and_then (ok a s) k = k a s
  and_then fault k = fault
  and_then hangs k = hangs

  infixl 5 ◌>>=◌ ◌>>◌
  abbrev pub ◌>>=◌ : Cmd A → (A → Cmd B) → Cmd B
  m >>= k = λ s. and_then (m s) k

  abbrev pub ◌>>◌ : Cmd A → Cmd B → Cmd B
  m >> k = m >>= λ _. k

abbrev pub pure : {A : Type 0} → A → Cmd A
pure = ok

abbrev pub get_state : Cmd Cache
get_state s = ok s s

abbrev pub put_state : Cache → Cmd (Unit {0})
put_state s' s = ok tt s'

-- Every access to a node is checked.
unfoldable pub deref : {A : Type 0} → Ptr → Cmd A → Cmd A
deref p m s = if s.live p then m s else fault

abbrev pub load_prev : Ptr → Cmd Ptr
load_prev p = deref p (λ s. ok (s.prev p) s)

abbrev pub load_next : Ptr → Cmd Ptr
load_next p = deref p (λ s. ok (s.next p) s)

abbrev pub load_key : Ptr → Cmd ℕ
load_key p = deref p (λ s. ok (s.key p) s)

abbrev pub load_value : Ptr → Cmd Message
load_value p = deref p (λ s. ok (s.value p) s)

abbrev pub store_prev : Ptr → Ptr → Cmd (Unit {0})
store_prev p q = deref p (λ s. ok tt (record s { prev = update s.prev p q }))

abbrev pub store_next : Ptr → Ptr → Cmd (Unit {0})
store_next p q = deref p (λ s. ok tt (record s { next = update s.next p q }))

abbrev pub store_value : Ptr → Message → Cmd (Unit {0})
store_value p v = deref p (λ s. ok tt (record s { value = update s.value p v }))

abbrev pub free_node : Ptr → Cmd (Unit {0})
free_node p = deref p (λ s. ok tt (record s { live = update s.live p false }))

-- `malloc(sizeof(LRUNode))` and the two stores that follow it in `put_msg`.
unfoldable pub new_node : ℕ → Message → Cmd Ptr
new_node k v s = ok s.fresh (record s {
  live = update s.live s.fresh true;
  key = update s.key s.fresh k;
  value = update s.value s.fresh v;
  fresh = s.fresh + 1;
})

abbrev pub hash : ℕ → ℕ
hash key = key % hash_size

-- The loops `while (hash_table[h] && hash_table[h]->key != key) h = (h + 1) % HASH_SIZE;`. The table
-- does not change meanwhile, so a search that has seen every slot goes on for ever.
unfoldable pub probe : ℕ → ℕ → ℕ → Cmd ℕ
probe zero key h s = hangs
probe (suc fuel) key h s =
    let next = probe fuel key ((h + 1) % hash_size) s in
    let slot = get_or s.hash_table h null in
    if slot == null
    then ok h s
    else if s.live slot
    then (if s.key slot == key then ok h s else next)
    else fault

-- The loop `while (hash_table[h]) h = (h + 1) % HASH_SIZE;` of `put_msg`.
unfoldable pub free_slot : ℕ → ℕ → Cmd ℕ
free_slot zero h s = hangs
free_slot (suc fuel) h s =
    let next = free_slot fuel ((h + 1) % hash_size) s in
    if get_or s.hash_table h null == null then ok h s else next

abbrev pub write_slot : ℕ → Ptr → Cmd (Unit {0})
write_slot h p s = ok tt (record s { hash_table = set s.hash_table h p })

unfoldable pub remove_node : Ptr → Cmd (Unit {0})
remove_node node = do
  before ← load_prev node
  after ← load_next node
  store_next before after
  after' ← load_next node
  before' ← load_prev node
  store_prev after' before'

unfoldable pub add_node_to_tail : Ptr → Cmd (Unit {0})
add_node_to_tail node = do
  s ← get_state
  prev_last ← load_prev s.tail
  store_next prev_last node
  store_prev node prev_last
  store_next node s.tail
  store_prev s.tail node

-- The part of `evict_if_needed` past its two tests.
unfoldable pub evict : Ptr → Cmd (Unit {0})
evict lru = do
  remove_node lru
  key ← load_key lru
  h ← probe hash_size key (hash key)
  write_slot h null
  free_node lru
  s ← get_state
  put_state (record s { current_size = s.current_size - 1 })

unfoldable pub evict_if_needed : Cmd (Unit {0})
evict_if_needed s =
    if ltb s.current_size cache_capacity
    then ok tt s
    else (do lru ← load_next s.head; if lru == s.tail then pure tt else evict lru) s

-- The branches of `put_msg`.
unfoldable pub update_existing : Ptr → Message → Cmd (Unit {0})
update_existing node msg = do store_value node msg; remove_node node; add_node_to_tail node

unfoldable pub insert_new : ℕ → Message → Cmd (Unit {0})
insert_new h msg = do
  evict_if_needed
  node ← new_node msg.id msg
  add_node_to_tail node
  h' ← free_slot hash_size h
  write_slot h' node
  s ← get_state
  put_state (record s { current_size = s.current_size + 1 })

unfoldable pub put_msg : Io → Message → Cmd (Unit {0})
put_msg io msg = do
  h ← probe hash_size msg.id (hash msg.id)
  s ← get_state
  let slot = get_or s.hash_table h null
  if slot == null then insert_new h msg else update_existing slot msg
  t ← get_state
  put_state (record t { files = (store_msg io (some msg) t.files).1 })

-- A hit moves the node to the end of the list.
unfoldable pub hit : Ptr → Cmd (Option Message)
hit node = do
  s ← get_state
  put_state (record s { hits = s.hits + 1 })
  remove_node node
  add_node_to_tail node
  v ← load_value node
  pure (some v)

unfoldable pub miss : Io → ℕ → Cmd (Option Message)
miss io msg_id = do
  s ← get_state
  put_state (record s { misses = s.misses + 1 })
  elim (retrieve_msg io msg_id s.files) [
    | none ↦ pure none
    | some msg ↦ put_msg io msg >> pure (some msg)
  ]

-- The second test of the lookup, `hash_table[h]->key == msg_id`.
unfoldable pub hit_if_key : Io → ℕ → Ptr → Cmd (Option Message)
hit_if_key io msg_id node = do k ← load_key node; if k == msg_id then hit node else miss io msg_id

unfoldable pub get_msg_from_cache_or_disk : Io → ℕ → Cmd (Option Message)
get_msg_from_cache_or_disk io msg_id = do
  h ← probe hash_size msg_id (hash msg_id)
  s ← get_state
  let slot = get_or s.hash_table h null
  if slot == null then miss io msg_id else hit_if_key io msg_id slot

-- The loop of `test_cache`, one round for each value of `rand` (with how its system calls turn
-- out).
unfoldable pub test_loop : List (Io × ℕ) → ℕ → Cmd (Unit {0})
test_loop [] num_messages = pure tt
test_loop ((io, r) ∷ rounds) num_messages =
    get_msg_from_cache_or_disk io (r % num_messages + 1) >> test_loop rounds num_messages

-- `test_cache`, with the statistics that it stores.
unfoldable pub test_cache : List (Io × ℕ) → ℕ → Cmd (ℕ × ℕ)
test_cache rounds num_messages = do
  s ← get_state
  put_state (record s { hits = 0; misses = 0 })
  test_loop rounds num_messages
  t ← get_state
  pure (t.hits, t.misses)

-- `init_cache` on a new heap: addresses 1 and 2 become the dummy nodes, whose other fields are
-- whatever was there.
unfoldable pub init_cache : (Ptr → ℕ) → (Ptr → Message) → (Ptr → Ptr) → (Ptr → Ptr) → Files → Cache
init_cache key value prev next files = record {
  live = update (update (λ _. false) 1 true) 2 true;
  key = key;
  value = value;
  prev = update prev 2 1;
  next = update next 1 2;
  fresh = 3;
  head = 1;
  tail = 2;
  current_size = 0;
  hash_table = replicate hash_size null;
  hits = 0;
  misses = 0;
  files = files;
}
