-- ===== src/BoundedBuffer.antt =====
-- The protected queue of week7/pqueuep.c and the producers and consumers of week7/pqueuepmain.c.
-- A critical section is one turn, since the mutex lets no other thread in between. A thread that
-- sleeps in `pthread_cond_wait` has given the mutex back; a broadcast wakes every sleeper, and a
-- sleeper may also wake for no reason. Delays and prints change no state.
pub mod Threads
pub mod Accounts
pub mod Sleep
pub mod Outcome
pub mod Hang
mod Tests
use cs5600_computer_system.Common.{ℕ, Option, none, some, List, if◌then◌else◌}
use cs5600_computer_system.Common.Int.{ℤ}
use cs5600_computer_system.CircularQueue.{
  Queue, queue_init, queue_put, queue_get, queue_empty, queue_full,
}

-- `struct pqueue`: the mutex and the condition are in the turns of the threads.
pub record Pqueue : Type 0 where
  pub q : Queue
  pub capacity : ℕ

unfoldable pub pqueueinit : List ℤ → ℕ → Pqueue
pqueueinit storage capacity = record { q = queue_init storage capacity; capacity = capacity }

-- One pass through `pput` with the mutex held: `none` if the thread goes to sleep on the condition,
-- else the queue with the value in, and a broadcast.
unfoldable pub pput : Pqueue → ℤ → Option Pqueue
pput pq value = if queue_full pq.q then none else some (record pq { q = queue_put pq.q value })

-- One pass through `pget` with the mutex held, in the same way.
unfoldable pub pget : Pqueue → Option (ℤ × Pqueue)
pget pq =
    if queue_empty pq.q
    then none
    else some ((queue_get pq.q).0, record pq { q = (queue_get pq.q).1 })
