-- ===== src/CircularQueue/Bounds.antt =====
-- The representation invariant of `struct queue`: every index stays inside the array.
use cs5600_computer_system.Common.{
  ℕ, ◌+◌, ◌-◌, ◌%◌, ◌≤◌, ◌<◌, ◌≡◌, ap, arith, List, length, length-set,
}
use cs5600_computer_system.Common.Int.{ℤ}
use cs5600_computer_system.CircularQueue.{Queue, queue_init, queue_put, queue_get}
use native.Mathlib.Nat.{mod-lt, mod-add-mod}

pub record IsValid (q : Queue) : Type 0 where
  pub storage : length q.cells ≡ q.capacity
  pub some_room : 0 < q.capacity
  pub head_in : q.head < q.capacity
  pub size_in : q.size ≤ q.capacity
  pub tail_at : q.tail ≡ (q.head + q.size) % q.capacity

pub in_bounds : {q : Queue} → IsValid q → (q.tail < length q.cells) × (q.head < length q.cells)
in_bounds {q} v = (grind (arith, mod-lt), omega arith)

pub queue_init-IsValid :
    (storage : List ℤ) (capacity : ℕ)
    → length storage ≡ capacity
    → 0 < capacity
    → IsValid (queue_init storage capacity)
unfolding queue_init
queue_init-IsValid storage capacity e h = record {
  storage = e;
  some_room = h;
  head_in = h;
  size_in = omega arith;
  tail_at = grind arith;
}

tail_next : (h s cap : ℕ) → ((h + s) % cap + 1) % cap ≡ (h + (s + 1)) % cap
tail_next h s cap = rw mod-add-mod (ap (λ k. k % cap) (omega arith))

tail_kept : (h s cap : ℕ) → 0 < s → (h + s) % cap ≡ ((h + 1) % cap + (s - 1)) % cap
tail_kept h s cap p = rw mod-add-mod (ap (λ k. k % cap) (omega arith))

pub queue_put-IsValid : {q : Queue} (x : ℤ) → IsValid q → IsValid (queue_put q x)
unfolding queue_put
queue_put-IsValid {q} x v =
    ground (arith, length-set q.cells q.tail x, tail_next q.head q.size q.capacity)

pub queue_get-IsValid : {q : Queue} → IsValid q → IsValid (queue_get q).1
unfolding queue_get
queue_get-IsValid {q} v = ground (arith, tail_kept q.head q.size q.capacity)
