-- ===== src/StringQueue/Tests.antt =====
-- The queue of week6/queue.c at concrete calls.
use cs5600_computer_system.Common.{suc, ◌≡◌, refl, arith, false, none, some, List, [], ◌∷◌, length}
use cs5600_computer_system.Common.Text.{codes}
use cs5600_computer_system.StringQueue.{Queue, init_queue, free_queue}
use cs5600_computer_system.StringQueue.Fifo.{Call, put, get, run, answers, run-init_queue}

abbrev heap : Queue
heap = record {
  live = λ p. false;
  text = λ p. [];
  next = λ p. 9;
  fresh = 1;
  front = 7;
  rear = 7;
  size = 3;
}

abbrev calls : List Call
calls = get ∷ put (codes "a") ∷ put (codes "b") ∷ get ∷ put (codes "c") ∷ []

left : (answers [] calls) ≡ (none ∷ some (codes "a") ∷ [], codes "b" ∷ codes "c" ∷ [])
unfolding answers
left = refl

run-init_queue_example :
    (t : Queue) × (u : Queue) × (run (init_queue heap) calls ≡ some ((answers [] calls).0, t))
    × (free_queue (suc (length (answers [] calls).1)) t ≡ some u)
    × (u.size ≡ 0)
run-init_queue_example = run-init_queue heap calls (omega arith)
