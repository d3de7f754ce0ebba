-- ===== src/ProcessQueue/Destroy.antt =====
-- `destroy_queue` of week5/queue.c.
use cs5600_computer_system.Common.{
  suc, ◌+◌, ◌≡◌, refl, ◌∙◌, subst, arith, Bool, true, false, some, List, [], ◌∷◌, ◌==◌, Bool-cases,
  inl, inr, eq_of_==, length,
}
use cs5600_computer_system.ProcessQueue.{
  Ptr, null, update, Process, Queue, ok, free_nodes, destroy_queue,
}
use cs5600_computer_system.ProcessQueue.Links.{has, Distinct, first_or, Links}
use cs5600_computer_system.ProcessQueue.Shape.{IsValid}

live_less :
    (live : Ptr → Bool) (x : Ptr) (xs : List Ptr)
    → ((p : Ptr) → live p ≡ has p (x ∷ xs))
    → has x xs ≡ false
    → (p : Ptr) → update live x false p ≡ has p xs
live_less live x xs h d p = elim (Bool-cases (p == x)) [
  | inl here ↦ let e : p ≡ x = eq_of_== p x here in ground (arith, e, d)
  | inr there ↦ ground (arith, h p)
]

-- The loop of `destroy_queue` frees every node, each once.
free_nodes_all :
    (q : Queue) (before current : Ptr) (xs : List Ptr)
    → current ≡ first_or xs null
    → Links q.next q.prev before xs null
    → Distinct xs
    → ((p : Ptr) → q.live p ≡ has p xs)
    → ((p : Ptr) → has p xs ≡ true → (p == null) ≡ false)
    → (heap : Queue) × (free_nodes (suc (length xs)) q current ≡ ok heap)
      × ((p : Ptr) → heap.live p ≡ false)
unfolding free_nodes
free_nodes_all q before current [] e l d live some_node = (q, rw e refl, live)
free_nodes_all q before current (x ∷ xs) e l d live some_node =
    let q' = record q { live = update q.live x false } in
    let here : has x (x ∷ xs) ≡ true = ground arith in
    let rest =
      free_nodes_all q' x (q.next x) xs l.1 l.2 d.1 (live_less q.live x xs live d.0)
        (λ p h. some_node p (ground arith)) in
    (rest.0, rw (e, some_node x here, live x ∙ here) rest.1, rest.2)

destroy_by :
    (q heap : Queue)
    → free_nodes (q.size + 1) q q.head ≡ ok heap
    → destroy_queue (some q) ≡ ok (some heap)
unfolding destroy_queue
destroy_by q heap e = rw (destroy_queue, e) refl

pub destroy_queue_all :
    (q : Queue) (nodes : List Ptr) (ps : List Process)
    → IsValid q nodes ps
    → (heap : Queue) × (destroy_queue (some q) ≡ ok (some heap)) × ((p : Ptr) → heap.live p ≡ false)
destroy_queue_all q nodes ps v =
    let all =
      free_nodes_all q null q.head nodes v.head_is v.linked v.distinct v.owned
        (λ p h. ground (arith, v.within p h)) in
    let fuel : suc (length nodes) ≡ q.size + 1 = omega (arith, v.size_is) in
    (all.0, destroy_by q all.0 (subst (λ n. free_nodes n q q.head ≡ ok all.0) fuel all.1), all.2)
