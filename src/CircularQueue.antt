-- ===== src/CircularQueue.antt =====
-- The unprotected circular queue of ints of week7/queuep.c. A function that updates `*q` returns
-- the new queue beside its result. `data` is `cells` here. `malloc` succeeds, as the source
-- assumes.
pub mod Bounds
pub mod Fifo
pub mod Refine
mod Tests
use cs5600_computer_system.Common.{
  ℕ, ◌+◌, ◌-◌, ◌%◌, Bool, List, if◌then◌else◌, ltb, ◌==◌, set, get_or,
}
use cs5600_computer_system.Common.Int.{ℤ, negsuc}

-- `struct queue`
pub record Queue : Type 0 where
  pub cells : List ℤ
  pub head : ℕ
  pub tail : ℕ
  pub size : ℕ
  pub capacity : ℕ

-- `queue_init`: `storage` is what `malloc` hands back, its contents not yet written.
unfoldable pub queue_init : List ℤ → ℕ → Queue
queue_init storage capacity = record {
  cells = storage;
  head = 0;
  tail = 0;
  size = 0;
  capacity = capacity;
}

-- `queue_put`: a full queue ignores the value.
unfoldable pub queue_put : Queue → ℤ → Queue
queue_put q value =
    if ltb q.size q.capacity
    then record q {
      cells = set q.cells q.tail value;
      tail = (q.tail + 1) % q.capacity;
      size = q.size + 1;
    }
    else q

-- `queue_get`: -1 on an empty queue. The fallback of `get_or`, a read out of range, is ruled out
-- by `Bounds.in_bounds`.
unfoldable pub queue_get : Queue → ℤ × Queue
queue_get q =
    if ltb 0 q.size
    then (
      get_or q.cells q.head (negsuc 0),
      record q { head = (q.head + 1) % q.capacity; size = q.size - 1 },
    )
    else (negsuc 0, q)

abbrev pub queue_empty : Queue → Bool
queue_empty q = q.size == 0

abbrev pub queue_full : Queue → Bool
queue_full q = q.size == q.capacity

abbrev pub queue_size : Queue → ℕ
queue_size q = q.size
