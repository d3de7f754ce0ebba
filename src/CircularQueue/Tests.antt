-- ===== src/CircularQueue/Tests.antt =====
-- The circular queue of week7/queuep.c at concrete inputs.
use cs5600_computer_system.Common.{◌≡◌, refl, arith, List, [], ◌∷◌}
use cs5600_computer_system.Common.Int.{ℤ, pos, negsuc}
use cs5600_computer_system.CircularQueue.{queue_init, queue_put, queue_get}
use cs5600_computer_system.CircularQueue.Fifo.{Call, put, get, answers}
use cs5600_computer_system.CircularQueue.Refine.{queue_answers, queue_refines_fifo}

abbrev two_cells : List ℤ
two_cells = pos 0 ∷ pos 0 ∷ []

-- The third put finds the queue full, the fourth wraps round, and the last get finds it empty.
abbrev calls : List Call
calls = put (pos 1) ∷ put (pos 2) ∷ put (pos 3) ∷ get ∷ put (pos 4) ∷ get ∷ get ∷ get ∷ []

answers_wrap : queue_answers (queue_init two_cells 2) calls ≡ pos 1 ∷ pos 2 ∷ pos 4 ∷ negsuc 0 ∷ []
unfolding queue_answers queue_init queue_put queue_get
answers_wrap = refl

queue_refines_fifo_example : queue_answers (queue_init two_cells 2) calls ≡ answers 2 [] calls
queue_refines_fifo_example = queue_refines_fifo two_cells 2 calls refl (omega arith)
