-- ===== src/StringQueue.antt =====
-- The queue of strings of week6/queue.c: a singly linked list on a heap. A field of the nodes is an
-- array over the addresses, NULL is 0, and the string that a node owns stands in the node. `malloc`
-- hands out addresses that were never used; where it fails the program exits.
pub mod Shape
pub mod Fifo
mod Tests
use cs5600_computer_system.Common.{
  ℕ, zero, suc, ◌+◌, ◌-◌, Bool, true, false, Option, none, some, List, if◌then◌else◌, ◌==◌,
}

abbrev pub Ptr : Type 0
Ptr = ℕ

abbrev pub null : Ptr
null = 0

abbrev pub update {ℓ} : {A : Type ℓ} → (Ptr → A) → Ptr → A → Ptr → A
update f p v a = if a == p then v else f a

-- The queue and the heap: `live` says which addresses hold a node.
pub record Queue : Type 0 where
  pub live : Ptr → Bool
  pub text : Ptr → List ℕ
  pub next : Ptr → Ptr
  pub fresh : Ptr
  pub front : Ptr
  pub rear : Ptr
  pub size : ℕ

-- `initQueue` on a heap whose addresses from `fresh` on were never used.
unfoldable pub init_queue : Queue → Queue
init_queue heap = record heap { front = null; rear = null; size = 0 }

-- `enqueue`; `none` where it touches memory that holds no node.
unfoldable pub enqueue : Queue → List ℕ → Option Queue
enqueue q str =
    let node = q.fresh in
    let q' = record q {
      live = update q.live node true;
      text = update q.text node str;
      next = update q.next node null;
      fresh = q.fresh + 1;
    } in
    if q.rear == null
    then some (record q' { front = node; rear = node; size = q.size + 1 })
    else (if q'.live q.rear
        then some (record q' { next = update q'.next q.rear node; rear = node; size = q.size + 1 })
        else none)

-- `dequeue`: the string, or NULL on an empty queue, and the queue.
unfoldable pub dequeue : Queue → Option (Option (List ℕ) × Queue)
dequeue q =
    let next = q.next q.front in
    if q.front == null
    then some (none, q)
    else (if q.live q.front
        then some (
          some (q.text q.front),
          record q {
            front = next;
            rear = if next == null then null else q.rear;
            live = update q.live q.front false;
            size = q.size - 1;
          },
        )
        else none)

abbrev pub is_empty_queue : Queue → Bool
is_empty_queue q = q.size == 0

abbrev pub size_queue : Queue → ℕ
size_queue q = q.size

-- The loop of `freeQueue`, on fuel.
unfoldable pub free_queue : ℕ → Queue → Option Queue
free_queue zero q = none
free_queue (suc fuel) q =
    if is_empty_queue q
    then some q
    else elim (dequeue q) [ none ↦ none | some (str, q') ↦ free_queue fuel q' ]
