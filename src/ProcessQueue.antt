-- ===== src/ProcessQueue.antt =====
-- The queue of processes of week5/queue.c: a doubly linked list on a heap. A field of the nodes is an
-- array over the addresses, and NULL is 0. `malloc` fails, or hands out an address that was never
-- used. A pointer to a process stands for the process.
pub mod Links
pub mod Shape
pub mod Highest
pub mod Remove
pub mod Take
pub mod Destroy
pub mod Calls
pub mod Main
mod Tests
use cs5600_computer_system.Common.{
  ℕ, zero, suc, ◌+◌, ◌-◌, Bool, true, false, Option, none, some, List, if◌then◌else◌, ◌==◌,
}
use cs5600_computer_system.Common.Int.{ℤ, ltℤ}

abbrev pub Ptr : Type 0
Ptr = ℕ

abbrev pub null : Ptr
null = 0

abbrev pub update {ℓ} : {A : Type ℓ} → (Ptr → A) → Ptr → A → Ptr → A
update f p v a = if a == p then v else f a

-- `process_t`
pub record Process : Type 0 where
  pub id : ℤ
  pub name : List ℕ
  pub runtime : ℤ
  pub priority : ℤ

-- `queue_t`, with the nodes (`node_t`) by their fields. `live` says which addresses hold a node.
pub record Queue : Type 0 where
  pub live : Ptr → Bool
  pub element : Ptr → Process
  pub prev : Ptr → Ptr
  pub next : Ptr → Ptr
  pub fresh : Ptr
  pub head : Ptr
  pub tail : Ptr
  pub size : ℕ

-- A call ends, touches memory that holds no node, or does not end.
pub data Run {ℓ} (A : Type ℓ) : Type ℓ where
  ok : A → Run A
  fault : Run A
  hangs : Run A

-- `create_queue` on a heap: NULL if `malloc` fails.
unfoldable pub create_queue : Bool → Queue → Option Queue
create_queue allocates heap =
    if allocates then some (record heap { head = null; tail = null; size = 0 }) else none

-- The node that `push_queue` fills.
abbrev pub new_node : Queue → Process → Queue
new_node q element = record q {
  live = update q.live q.fresh true;
  element = update q.element q.fresh element;
  prev = update q.prev q.fresh null;
  next = update q.next q.fresh null;
  fresh = q.fresh + 1;
}

-- `push_queue`; the argument `none` is the NULL queue.
unfoldable pub push_queue : Bool → Option Queue → Process → Run (Option Queue)
push_queue allocates none element = ok none
push_queue allocates (some q) element =
    let node = q.fresh in
    let q' = new_node q element in
    if allocates
    then (if q.tail == null
        then ok (some (record q' { head = node; tail = node; size = q.size + 1 }))
        else (if q'.live q.tail
            then ok (
                some (record q' {
                  prev = update q'.prev node q.tail;
                  next = update q'.next q.tail node;
                  tail = node;
                  size = q.size + 1;
                }))
            else fault))
    else ok (some q)

-- `pop_queue`: NULL on an empty queue.
unfoldable pub pop_queue : Option Queue → Run (Option Process × Option Queue)
pop_queue none = ok (none, none)
pop_queue (some q) =
    let front = q.head in
    let after = q.next front in
    let freed = record q { head = after; live = update q.live front false; size = q.size - 1 } in
    if front == null
    then ok (none, some q)
    else (if q.live front
        then (if after == null
            then ok (some (q.element front), some (record freed { tail = null }))
            else (if q.live after
                then ok (
                  some (q.element front),
                  some (record freed { prev = update q.prev after null }),
                )
                else fault))
        else fault)

-- The loop of `remove_process` over the nodes from `current` on: the node of the highest priority,
-- `best` being the best so far.
unfoldable pub find_best : ℕ → Queue → Ptr → Ptr → Run Ptr
find_best zero q current best = hangs
find_best (suc fuel) q current best =
    let better = ltℤ (q.element best).priority (q.element current).priority in
    let rest = find_best fuel q (q.next current) (if better then current else best) in
    if current == null then ok best else (if q.live current then rest else fault)

-- `remove_process` from `if (best_node->prev)` on: the writes to the list, and `free`.
unfoldable pub unlink : Queue → Ptr → Run Queue
unlink q best =
    let before = q.prev best in
    let after = q.next best in
    let q1 =
      if before == null
      then record q { head = after }
      else record q { next = update q.next before after } in
    let after1 = q1.next best in
    let before1 = q1.prev best in
    let q2 =
      if after1 == null
      then record q1 { tail = before1 }
      else record q1 { prev = update q1.prev after1 before1 } in
    let before_ok = if before == null then true else q.live before in
    let after_ok = if after1 == null then true else q.live after1 in
    if before_ok
    then (if after_ok
        then ok (record q2 { live = update q2.live best false; size = q2.size - 1 })
        else fault)
    else fault

-- `remove_process`: NULL on an empty queue. The loop visits each node once.
unfoldable pub remove_process : Option Queue → Run (Option Process × Option Queue)
remove_process none = ok (none, none)
remove_process (some q) =
    if q.head == null then ok (none, some q) else elim (find_best (q.size + 1) q q.head q.head) [
      | ok best ↦ elim (unlink q best) [
        | ok q' ↦ ok (some (q.element best), some q')
        | fault ↦ fault
        | hangs ↦ hangs
      ]
      | fault ↦ fault
      | hangs ↦ hangs
    ]

unfoldable pub get_queue_size : Option Queue → ℕ
get_queue_size none = 0
get_queue_size (some q) = q.size

-- The loop of `destroy_queue`.
unfoldable pub free_nodes : ℕ → Queue → Ptr → Run Queue
free_nodes zero q current = hangs
free_nodes (suc fuel) q current =
    let rest = free_nodes fuel (record q { live = update q.live current false }) (q.next current) in
    if current == null then ok q else (if q.live current then rest else fault)

-- `destroy_queue`: the heap that it leaves.
unfoldable pub destroy_queue : Option Queue → Run (Option Queue)
destroy_queue none = ok none
destroy_queue (some q) = elim (free_nodes (q.size + 1) q q.head) [
  | ok q' ↦ ok (some q')
  | fault ↦ fault
  | hangs ↦ hangs
]
