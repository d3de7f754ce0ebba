-- ===== src/ProcessQueue/Take.antt =====
-- `remove_process` of week5/queue.c on a queue that holds a process.
use cs5600_computer_system.Common.{
  suc, ◌+◌, ◌≡◌, refl, sym, ap, ◌∙◌, subst, arith, false, some, List, [], ◌∷◌, ◌++◌, ◌==◌, length,
  map,
}
use cs5600_computer_system.ProcessQueue.{
  Ptr, null, Process, Queue, ok, find_best, unlink, remove_process,
}
use cs5600_computer_system.ProcessQueue.Shape.{IsValid, map-append}
use cs5600_computer_system.ProcessQueue.Highest.{
  AllLower, NoneHigher, best_node, best_node_head, find_best_lem,
}
use cs5600_computer_system.ProcessQueue.Remove.{unlinked, unlinked-IsValid, unlink_lem, node_some}

remove_process_by :
    (q q' : Queue) (b : Ptr)
    → (q.head == null) ≡ false
    → find_best (q.size + 1) q q.head q.head ≡ ok b
    → unlink q b ≡ ok q'
    → remove_process (some q) ≡ ok (some (q.element b), some q')
unfolding remove_process
remove_process_by q q' b h found e = rw (h, found, e) refl

pub remove_process_lem :
    (q : Queue) (x : Ptr) (xs : List Ptr) (ps : List Process)
    → IsValid q (x ∷ xs) ps
    → (front : List Process) × (p : Process) × (back : List Process) × (q' : Queue) × (nodes : List
        Ptr)
      × (ps ≡ front ++ (p ∷ back))
      × AllLower p front
      × NoneHigher p back
      × (remove_process (some q) ≡ ok (some p, some q'))
      × IsValid q' nodes (front ++ back)
remove_process_lem q x xs ps v =
    let f = q.element in
    let b = best_node f x (x ∷ xs) in
    let i = best_node_head f x xs in
    let w : IsValid q (i.front ++ (b ∷ i.back)) ps = subst (λ l. IsValid q l ps) i.parts v in
    let fuel : suc (length (x ∷ xs)) ≡ q.size + 1 = omega (arith, v.size_is) in
    let found : find_best (q.size + 1) q q.head q.head ≡ ok b =
      subst (λ n. find_best n q q.head q.head ≡ ok b) fuel
        (subst (λ h. find_best (suc (length (x ∷ xs))) q q.head h ≡ ok b) (sym v.head_is)
          (find_best_lem q null q.head x (x ∷ xs) v.linked v.head_is (λ p h. v.owned p ∙ h)
            (λ p h. node_some q [] x xs ps v p h))) in
    let some_head : (q.head == null) ≡ false =
      ap (λ h. h == null) v.head_is ∙ node_some q [] x xs ps v x (ground arith) in
    (
      map f i.front,
      f b,
      map f i.back,
      unlinked q i.front b i.back,
      i.front ++ i.back,
      sym w.elements ∙ map-append f i.front (b ∷ i.back),
      i.before,
      i.after,
      remove_process_by q (unlinked q i.front b i.back) b some_head found
          (unlink_lem q i.front b i.back ps w),
      unlinked-IsValid q i.front b i.back ps w,
    )
