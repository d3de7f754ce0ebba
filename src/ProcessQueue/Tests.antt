-- ===== src/ProcessQueue/Tests.antt =====
-- The queue of week5/queue.c at concrete calls, and week5/queuetest.c.
use cs5600_computer_system.Common.{◌≡◌, refl, arith, true, false, some, List, [], ◌∷◌, ◌++◌}
use cs5600_computer_system.Common.Int.{pos, negsuc}
use cs5600_computer_system.ProcessQueue.{
  Ptr, Process, Queue, Run, ok, create_queue, push_queue, remove_process, pop_queue, find_best,
  unlink, destroy_queue, free_nodes, get_queue_size,
}
use cs5600_computer_system.ProcessQueue.Shape.{
  IsEmptyHeap, create_queue-IsValid, push_queue-IsValid,
}
use cs5600_computer_system.ProcessQueue.Highest.{AllLower, NoneHigher}
use cs5600_computer_system.ProcessQueue.Calls.{
  Call, push, pop, remove, get_size, use_queue, answers_on_list, Holds, remove_process-Holds,
  use_queue-create_queue,
}
use cs5600_computer_system.ProcessQueue.Main.{
  Line, size_now, popped, size_after_pop, removed, size_after_remove, p1, p2, p3, main, use_of_main,
  Result,
}

abbrev heap : Queue
heap = record {
  live = λ p. false;
  element = λ p. p1;
  prev = λ p. 9;
  next = λ p. 9;
  fresh = 1;
  head = 7;
  tail = 7;
  size = 3;
}

heap-IsEmptyHeap : IsEmptyHeap heap
heap-IsEmptyHeap = record { none_live = λ p. refl; positive = omega arith }

abbrev rival : Process
rival = record { id = pos 4; name = []; runtime = negsuc 0; priority = pos 5 }

abbrev calls : List Call
calls =
    pop ∷ push p1 ∷ push p2 ∷ push rival ∷ push p3 ∷ remove ∷ get_size ∷ remove ∷ pop ∷ push p1 ∷ []

use_queue-create_queue_example :
    (end : Queue) × (use_queue calls (create_queue true heap)
      ≡ ok (answers_on_list calls [], some end))
    × ((p : Ptr) → end.live p ≡ false)
use_queue-create_queue_example = use_queue-create_queue heap calls heap-IsEmptyHeap

-- A queue that holds two processes.
filled : (q : Queue) × Holds q (p1 ∷ (p2 ∷ []))
filled =
    let (q0, e0, v0) = create_queue-IsValid heap heap-IsEmptyHeap in
    let (q1, e1, v1) = push_queue-IsValid q0 [] [] p1 v0 in
    let (q2, e2, v2) = push_queue-IsValid q1 ([] ++ (q0.fresh ∷ [])) (p1 ∷ []) p2 v1 in
    (q2, (([] ++ (q0.fresh ∷ [])) ++ (q1.fresh ∷ []), v2))

remove_process-Holds_example :
    (front : List Process) × (p : Process) × (back : List Process) × (q' : Queue) × (p1 ∷ (p2 ∷ [])
      ≡ front ++ (p ∷ back))
    × AllLower p front
    × NoneHigher p back
    × (remove_process (some filled.0) ≡ ok (some p, some q'))
    × Holds q' (front ++ back)
remove_process-Holds_example = remove_process-Holds filled.0 p1 (p2 ∷ []) filled.1

abbrev lines : Run Result → List Line
lines (ok r) = r.lines
lines other = []

-- `main` prints the sizes 3, 2 and 1, and takes ProcA and then ProcB.
main_prints :
    lines (main true true true true heap)
    ≡ size_now 3
      ∷ popped (pos 1) p1.name (pos 2)
      ∷ size_after_pop 2
      ∷ removed (pos 2) p2.name (pos 5)
      ∷ size_after_remove 1
      ∷ []
unfolding main use_of_main create_queue push_queue pop_queue remove_process find_best unlink
    destroy_queue free_nodes get_queue_size
main_prints = refl
