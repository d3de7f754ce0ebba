-- ===== src/ProcessQueue/Calls.antt =====
-- Whole uses of week5/queue.c: a queue is made, called any number of times, and destroyed.
use cs5600_computer_system.Common.{
  ℕ, ◌≡◌, refl, sym, ap, ◌∙◌, subst, true, false, Option, none, some, List, [], ◌∷◌, ◌++◌, length,
}
use cs5600_computer_system.ProcessQueue.{
  Ptr, Process, Queue, Run, ok, fault, hangs, create_queue, push_queue, pop_queue, remove_process,
  get_queue_size, destroy_queue,
}
use cs5600_computer_system.ProcessQueue.Shape.{
  IsValid, IsEmptyHeap, create_queue-IsValid, push_queue-IsValid, length-map,
}
use cs5600_computer_system.ProcessQueue.Highest.{take_best, take_best_lem, AllLower, NoneHigher}
use cs5600_computer_system.ProcessQueue.Remove.{unlinked, unlinked-IsValid, pop_queue_lem}
use cs5600_computer_system.ProcessQueue.Take.{remove_process_lem}
use cs5600_computer_system.ProcessQueue.Destroy.{destroy_queue_all}

pub data Call : Type 0 where
  push : Process → Call
  pop : Call
  remove : Call
  get_size : Call

pub data Answer : Type 0 where
  nothing : Answer
  process : Option Process → Answer
  number : ℕ → Answer

abbrev pub answered : Run (Option Process × Option Queue) → Run (Answer × Option Queue)
answered (ok (p, q)) = ok (process p, q)
answered fault = fault
answered hangs = hangs

abbrev pub pushed : Run (Option Queue) → Run (Answer × Option Queue)
pushed (ok q) = ok (nothing, q)
pushed fault = fault
pushed hangs = hangs

-- One call, with memory at hand.
abbrev pub do_call : Call → Option Queue → Run (Answer × Option Queue)
do_call (push e) q = pushed (push_queue true q e)
do_call pop q = answered (pop_queue q)
do_call remove q = answered (remove_process q)
do_call get_size q = ok (number (get_queue_size q), q)

-- The same on the list of processes, the head first.
abbrev pub call_on_list : Call → List Process → Answer × List Process
call_on_list (push e) ps = (nothing, ps ++ (e ∷ []))
call_on_list pop [] = (process none, [])
call_on_list pop (p ∷ ps) = (process (some p), ps)
call_on_list remove ps = elim (take_best ps) [
  | none ↦ (process none, ps)
  | some (p, rest) ↦ (process (some p), rest)
]
call_on_list get_size ps = (number (length ps), ps)

abbrev pub answers_on_list : List Call → List Process → List Answer
answers_on_list [] ps = []
answers_on_list (c ∷ calls) ps = (call_on_list c ps).0 ∷ answers_on_list calls (call_on_list c ps).1

-- The calls in turn, and `destroy_queue` at the end.
abbrev pub use_queue : List Call → Option Queue → Run (List Answer × Option Queue)
use_queue [] q = elim (destroy_queue q) [ ok heap ↦ ok ([], heap) | fault ↦ fault | hangs ↦ hangs ]
use_queue (c ∷ calls) q = elim (do_call c q) [
  | ok (answer, q') ↦ elim (use_queue calls q') [
    | ok (answers, heap) ↦ ok (answer ∷ answers, heap)
    | fault ↦ fault
    | hangs ↦ hangs
  ]
  | fault ↦ fault
  | hangs ↦ hangs
]

-- The queue holds the processes `ps`.
abbrev pub Holds : Queue → List Process → Type 0
Holds q ps = (nodes : List Ptr) × IsValid q nodes ps

pop_empty :
    (q : Queue) (ps : List Process)
    → IsValid q [] ps
    → (q' : Queue) × (do_call pop (some q) ≡ ok ((call_on_list pop ps).0, some q'))
      × Holds q' ((call_on_list pop ps).1)
unfolding pop_queue
pop_empty q [] v = (q, rw v.head_is refl, ([], v))
pop_empty q (p ∷ ps) v = absurd (cc v.elements)

remove_empty :
    (q : Queue) (ps : List Process)
    → IsValid q [] ps
    → (q' : Queue) × (do_call remove (some q) ≡ ok ((call_on_list remove ps).0, some q'))
      × Holds q' ((call_on_list remove ps).1)
unfolding remove_process
remove_empty q [] v = (q, rw v.head_is refl, ([], v))
remove_empty q (p ∷ ps) v = absurd (cc v.elements)

pop_some :
    (q : Queue) (x : Ptr) (xs : List Ptr) (ps : List Process)
    → IsValid q (x ∷ xs) ps
    → (q' : Queue) × (do_call pop (some q) ≡ ok ((call_on_list pop ps).0, some q'))
      × Holds q' ((call_on_list pop ps).1)
pop_some q x xs ps v =
    let q' = unlinked q [] x xs in
    subst
      (λ l.
        (q' : Queue) × (do_call pop (some q) ≡ ok ((call_on_list pop l).0, some q'))
        × Holds q' ((call_on_list pop l).1))
      v.elements
      (q', ap answered (pop_queue_lem q x xs ps v), (xs, unlinked-IsValid q [] x xs ps v))

remove_some :
    (q : Queue) (x : Ptr) (xs : List Ptr) (ps : List Process)
    → IsValid q (x ∷ xs) ps
    → (q' : Queue) × (do_call remove (some q) ≡ ok ((call_on_list remove ps).0, some q'))
      × Holds q' ((call_on_list remove ps).1)
remove_some q x xs ps v =
    let (front, p, back, q', nodes, parts, lower_front, back_not, removed, w) =
      remove_process_lem q x xs ps v in
    let best : take_best ps ≡ some (p, front ++ back) =
      ap take_best parts ∙ take_best_lem front p back lower_front back_not in
    (q', rw (call_on_list, best) (ap answered removed), rw (call_on_list, best) (nodes, w))

get_size_some :
    (q : Queue) (nodes : List Ptr) (ps : List Process)
    → IsValid q nodes ps
    → get_queue_size (some q) ≡ length ps
unfolding get_queue_size
get_size_some q nodes ps v = v.size_is ∙ sym (length-map q.element nodes) ∙ ap length v.elements

do_call-on_list :
    (c : Call) (q : Queue) (ps : List Process)
    → Holds q ps
    → (q' : Queue) × (do_call c (some q) ≡ ok ((call_on_list c ps).0, some q'))
      × Holds q' ((call_on_list c ps).1)
do_call-on_list (push e) q ps (nodes, v) =
    let r = push_queue-IsValid q nodes ps e v in
    (r.0, ap pushed r.1, (nodes ++ (q.fresh ∷ []), r.2))
do_call-on_list pop q ps ([], v) = pop_empty q ps v
do_call-on_list pop q ps (x ∷ xs, v) = pop_some q x xs ps v
do_call-on_list remove q ps ([], v) = remove_empty q ps v
do_call-on_list remove q ps (x ∷ xs, v) = remove_some q x xs ps v
do_call-on_list get_size q ps (nodes, v) =
    (q, ap (λ n. ok (number n, some q)) (get_size_some q nodes ps v), (nodes, v))

use_queue-on_list :
    (calls : List Call) (q : Queue) (ps : List Process)
    → Holds q ps
    → (heap : Queue) × (use_queue calls (some q) ≡ ok (answers_on_list calls ps, some heap))
      × ((p : Ptr) → heap.live p ≡ false)
use_queue-on_list [] q ps (nodes, v) =
    let end = destroy_queue_all q nodes ps v in (end.0, rw (use_queue, end.1) refl, end.2)
use_queue-on_list (c ∷ calls) q ps h =
    let (q', e, h') = do_call-on_list c q ps h in
    let (heap, f, dead) = use_queue-on_list calls q' ((call_on_list c ps).1) h' in
    (heap, rw (use_queue, e, f) refl, dead)

-- With memory at hand, a queue that is made on a heap with no node and then called any number of
-- times answers as the list of its processes does: `push_queue` adds at the end, `pop_queue` takes
-- the first, `remove_process` the first of those of the highest priority, and both give NULL on an
-- empty queue. No call touches freed memory or runs forever, and `destroy_queue` then frees every node.
pub use_queue-create_queue :
    (heap : Queue) (calls : List Call)
    → IsEmptyHeap heap
    → (end : Queue) × (use_queue calls (create_queue true heap)
        ≡ ok (answers_on_list calls [], some end))
      × ((p : Ptr) → end.live p ≡ false)
use_queue-create_queue heap calls e =
    let (q, made, v) = create_queue-IsValid heap e in
    let (end, f, dead) = use_queue-on_list calls q [] ([], v) in
    (end, ap (use_queue calls) made ∙ f, dead)

-- On a queue that holds a process, `remove_process` ends and gives one of them: those before it are
-- lower, and none after it is higher. The others stay, in their order.
pub remove_process-Holds :
    (q : Queue) (first : Process) (ps : List Process)
    → Holds q (first ∷ ps)
    → (front : List Process) × (p : Process) × (back : List Process) × (q' : Queue) × (first ∷ ps
        ≡ front ++ (p ∷ back))
      × AllLower p front
      × NoneHigher p back
      × (remove_process (some q) ≡ ok (some p, some q'))
      × Holds q' (front ++ back)
remove_process-Holds q first ps ([], v) = absurd (cc v.elements)
remove_process-Holds q first ps (x ∷ xs, v) =
    let (front, p, back, q', nodes, parts, lower_front, back_not, removed, w) =
      remove_process_lem q x xs (first ∷ ps) v in
    (front, p, back, q', parts, lower_front, back_not, removed, (nodes, w))
