-- ===== src/CircularQueue/Refine.antt =====
-- A valid circular queue behaves as the bounded first-in first-out list of what it holds.
mod Window
use cs5600_computer_system.Common.{ℕ, ◌<◌, ◌≡◌, refl, arith, List, [], ◌∷◌, length}
use cs5600_computer_system.Common.Int.{ℤ}
use cs5600_computer_system.CircularQueue.{Queue, queue_init, queue_put, queue_get}
use cs5600_computer_system.CircularQueue.Bounds.{
  IsValid, queue_init-IsValid, queue_put-IsValid, queue_get-IsValid,
}
use cs5600_computer_system.CircularQueue.Fifo.{Call, put, get, enter, leave, answers}
use Window.{window, length-window, window_grows, window_shrinks}

-- What the queue holds, oldest first.
abbrev pub contents : Queue → List ℤ
contents q = window q.cells q.capacity q.head q.size

pub length-contents : (q : Queue) → length (contents q) ≡ q.size
length-contents q = length-window q.cells q.capacity q.head q.size

pub queue_put_refines :
    {q : Queue} (x : ℤ) → IsValid q → contents (queue_put q x) ≡ enter q.capacity (contents q) x
unfolding queue_put enter
queue_put_refines {q} x v =
    ground (arith, length-contents q, window_grows q.cells q.capacity x q.size q.head q.tail)

pub queue_get_refines :
    {q : Queue} → IsValid q → let (x, q') = queue_get q in (x, contents q') ≡ leave (contents q)
unfolding queue_get leave
queue_get_refines {q} v = ground (arith, window_shrinks q.cells q.capacity q.size q.head)

capacity-queue_put : (q : Queue) (x : ℤ) → (queue_put q x).capacity ≡ q.capacity
unfolding queue_put
capacity-queue_put q x = ground arith

capacity-queue_get : (q : Queue) → (queue_get q).1.capacity ≡ q.capacity
unfolding queue_get
capacity-queue_get q = ground arith

-- The calls of `queue_get` among any calls answer what the list's do.
unfoldable pub queue_answers : Queue → List Call → List ℤ
queue_answers q [] = []
queue_answers q (put x ∷ calls) = queue_answers (queue_put q x) calls
queue_answers q (get ∷ calls) = (queue_get q).0 ∷ queue_answers (queue_get q).1 calls

answers_refines :
    (calls : List Call) {q : Queue}
    → IsValid q
    → queue_answers q calls ≡ answers q.capacity (contents q) calls
unfolding queue_answers answers
answers_refines [] v = refl
answers_refines (put x ∷ calls) {q} v =
    rw
      (answers_refines calls (queue_put-IsValid x v), queue_put_refines x v, capacity-queue_put q x)
answers_refines (get ∷ calls) {q} v =
    rw (answers_refines calls (queue_get-IsValid v), ← queue_get_refines v, capacity-queue_get q)

-- From `queue_init` with a positive capacity on, the values that `queue_get` returns among any
-- calls of `queue_put` and `queue_get` are those of a first-in first-out list that never holds more
-- than the capacity, ignores a put when full, and answers -1 when empty.
pub queue_refines_fifo :
    (storage : List ℤ) (capacity : ℕ) (calls : List Call)
    → length storage ≡ capacity
    → 0 < capacity
    → queue_answers (queue_init storage capacity) calls ≡ answers capacity [] calls
unfolding queue_init
queue_refines_fifo storage capacity calls e p =
    answers_refines calls (queue_init-IsValid storage capacity e p)
