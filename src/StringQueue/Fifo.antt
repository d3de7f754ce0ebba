-- ===== src/StringQueue/Fifo.antt =====
-- The queue of week6/queue.c against a list of strings.
use cs5600_computer_system.Common.{
  ℕ, suc, ◌<◌, ◌≡◌, refl, arith, Option, none, some, List, [], ◌∷◌, ◌++◌, length,
}
use cs5600_computer_system.StringQueue.{Ptr, Queue, init_queue, enqueue, dequeue, free_queue}
use cs5600_computer_system.StringQueue.Shape.{
  IsValid, enqueue-IsValid, dequeue-IsValid, dequeue_empty,
}

pub data Call : Type 0 where
  put : List ℕ → Call
  get : Call

-- What the calls of `dequeue` return, and the queue at the end; `none` where a call touches memory
-- that holds no node.
unfoldable pub run : Queue → List Call → Option (List (Option (List ℕ)) × Queue)
run q [] = some ([], q)
run q (put s ∷ calls) = elim (enqueue q s) [ none ↦ none | some q' ↦ run q' calls ]
run q (get ∷ calls) = elim (dequeue q) [
  | none ↦ none
  | some (str, q') ↦ elim (run q' calls) [ none ↦ none | some (strs, t) ↦ some (str ∷ strs, t) ]
]

-- A list of strings under the same calls: what `get` answers, and the list at the end.
unfoldable pub answers : List (List ℕ) → List Call → List (Option (List ℕ)) × List (List ℕ)
answers xs [] = ([], xs)
answers xs (put s ∷ calls) = answers (xs ++ (s ∷ [])) calls
answers [] (get ∷ calls) = let (strs, t) = answers [] calls in (none ∷ strs, t)
answers (x ∷ xs) (get ∷ calls) = let (strs, t) = answers xs calls in (some x ∷ strs, t)

run_lem :
    (calls : List Call) {q : Queue} {base : Ptr} {xs : List (List ℕ)}
    → IsValid q base xs
    → (t : Queue) × (base' : Ptr) × (run q calls ≡ some ((answers xs calls).0, t))
      × IsValid t base' (answers xs calls).1
unfolding run answers
run_lem [] {q} {base} v = (q, base, refl, v)
run_lem (put s ∷ calls) {q} {base} v =
    let (q', e, v') = enqueue-IsValid s v in
    let (t, base', e', w) = run_lem calls v' in (t, base', ground (arith, e, e'), w)
run_lem (get ∷ calls) {q = q} {xs = []} v =
    let (t, base', e', w) = run_lem calls v in (t, base', ground (arith, dequeue_empty v, e'), w)
run_lem (get ∷ calls) {q = q} {xs = x ∷ xs} v =
    let (q', e, v') = dequeue-IsValid v in
    let (t, base', e', w) = run_lem calls v' in (t, base', ground (arith, e, e'), w)

pub free_queue_lem :
    (xs : List (List ℕ)) {q : Queue} {base : Ptr}
    → IsValid q base xs
    → (u : Queue) × (base' : Ptr) × (free_queue (suc (length xs)) q ≡ some u) × IsValid u base' []
unfolding free_queue
free_queue_lem [] {q} {base} v = (q, base, ground (arith, v), v)
free_queue_lem (x ∷ xs) {q} {base} v =
    let (q', e, v') = dequeue-IsValid v in
    let (u, base', e', w) = free_queue_lem xs v' in (u, base', ground (arith, v, e, e'), w)

-- An empty queue on a heap on which no node was handed out twice.
pub init_queue-IsValid : (heap : Queue) → 0 < heap.fresh → IsValid (init_queue heap) heap.fresh []
unfolding init_queue
init_queue-IsValid heap p = record {
  positive = p;
  fresh_is = omega arith;
  size_is = refl;
  front_is = refl;
  rear_is = refl;
  alive = λ i h. absurd (omega arith);
  links = λ i h. absurd (omega arith);
  ends = λ h. absurd (omega arith);
  texts = λ i h. absurd (omega arith);
}

-- From `initQueue` on, any calls of `enqueue` and `dequeue` never touch memory that holds no node,
-- and `dequeue` returns what a first-in first-out list of strings does, NULL when it is empty;
-- `freeQueue` then ends, within one round for each string that is left, with an empty queue.
pub run-init_queue :
    (heap : Queue) (calls : List Call)
    → 0 < heap.fresh
    → (t : Queue) × (u : Queue) × (run (init_queue heap) calls ≡ some ((answers [] calls).0, t))
      × (free_queue (suc (length (answers [] calls).1)) t ≡ some u)
      × (u.size ≡ 0)
run-init_queue heap calls p =
    let (t, base, e, v) = run_lem calls (init_queue-IsValid heap p) in
    let (u, base', e', w) = free_queue_lem (answers [] calls).1 v in (t, u, e, e', w.size_is)
