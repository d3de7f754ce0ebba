-- ===== src/BoundedBuffer/Tests.antt =====
-- Runs of week7/pqueuepmain.c, and the theorems about it at concrete orders of turns.
use cs5600_computer_system.Common.{
  ℕ, zero, suc, ◌+◌, ◌≡◌, refl, true, ◌&&◌, List, [], ◌∷◌, if◌then◌else◌, leb, length, replicate,
  length-replicate,
}
use cs5600_computer_system.Common.Int.{ℤ, pos}
use cs5600_computer_system.CircularQueue.{queue_init, queue_put, queue_get}
use cs5600_computer_system.BoundedBuffer.{pput, pget}
use cs5600_computer_system.BoundedBuffer.Threads.{
  Event, turn, spurious, p1, p2, c1, c2, producer, consumer, step, run, start, broadcast, capacity,
  all_exited,
}
use cs5600_computer_system.BoundedBuffer.Accounts.{in_hand, held, stock}
use cs5600_computer_system.BoundedBuffer.Sleep.{Rested, no_lost_wakeup}
use cs5600_computer_system.BoundedBuffer.Outcome.{is_item, Delivered, items_once, joined_Delivered}

abbrev zeros : List ℤ
zeros = replicate capacity (pos 0)

abbrev rounds : ℕ → List Event → List Event
rounds zero rest = rest
rounds (suc n) rest = turn p1 ∷ turn p1 ∷ turn c1 ∷ turn c1 ∷ turn c1 ∷ rounds n rest

-- One producer and one consumer deliver all, and then every thread finds its limit reached.
abbrev orderly : List Event
orderly = rounds 30 (turn p1 ∷ turn p2 ∷ turn c1 ∷ turn c2 ∷ [])

orderly_exits : all_exited (run (start zeros) orderly) ≡ true
unfolding run start step broadcast producer consumer pput pget queue_init queue_put queue_get
orderly_exits = refl

joined_Delivered_example : Delivered 17 (run (start zeros) orderly).shared
joined_Delivered_example =
    joined_Delivered zeros orderly 17 (length-replicate 15 (pos 0)) orderly_exits

-- A consumer finds the queue empty and sleeps, and wakes without a broadcast.
abbrev sleepy : List Event
sleepy = turn c1 ∷ turn c1 ∷ turn p1 ∷ spurious c1 ∷ turn c1 ∷ turn p1 ∷ turn c1 ∷ []

items_once_example :
    let s = run (start zeros) sleepy in
    (in_hand (is_item 1) s.p1
        + in_hand (is_item 1) s.p2
        + held (is_item 1) s.c1
        + held (is_item 1) s.c2
        + stock (is_item 1) s.shared
      ≡ (if leb 1 1 && leb 1 s.shared.total_produced then 1 else 0))
    × (length s.shared.consumed ≡ s.shared.total_consumed)
items_once_example = items_once zeros sleepy 1 (length-replicate 15 (pos 0))

no_lost_wakeup_example : Rested (run (start zeros) sleepy)
no_lost_wakeup_example = no_lost_wakeup zeros sleepy
