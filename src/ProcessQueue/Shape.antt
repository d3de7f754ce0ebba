-- ===== src/ProcessQueue/Shape.antt =====
-- What stands on the heap of week5/queue.c, and `push_queue`.
use cs5600_computer_system.Common.{
  suc, ◌+◌, ◌<◌, ◌≡◌, refl, sym, ap, ap₂, ◌∙◌, subst, arith, Bool, true, false, some, List, [], ◌∷◌,
  ◌++◌, ◌==◌, Bool-cases, inl, inr, eq_of_==, length, length-append, map,
}
use cs5600_computer_system.ProcessQueue.{
  Ptr, null, update, Process, Queue, ok, new_node, create_queue, push_queue,
}
use cs5600_computer_system.ProcessQueue.Links.{
  has, Distinct, first_or, last_or, Links, has-append, has-last_or, append-Distinct, Links-frame,
  Links-join, Links-retarget, update_outside, update_here, update_there, ==_sym, ne_of_has,
  last_or-append,
}

-- The queue holds the processes `ps` in `nodes`, and these are all the nodes on the heap.
pub record IsValid (q : Queue) (nodes : List Ptr) (ps : List Process) : Type 0 where
  pub distinct : Distinct nodes
  pub linked : Links q.next q.prev null nodes null
  pub head_is : q.head ≡ first_or nodes null
  pub tail_is : q.tail ≡ last_or null nodes
  pub size_is : q.size ≡ length nodes
  pub owned : (p : Ptr) → q.live p ≡ has p nodes
  pub within : (p : Ptr) → has p nodes ≡ true → (0 < p) × (p < q.fresh)
  pub positive : 0 < q.fresh
  pub elements : map q.element nodes ≡ ps

-- A heap with no node on it.
pub record IsEmptyHeap (heap : Queue) : Type 0 where
  pub none_live : (p : Ptr) → heap.live p ≡ false
  pub positive : 0 < heap.fresh

pub create_queue-IsValid :
    (heap : Queue)
    → IsEmptyHeap heap
    → (q : Queue) × (create_queue true heap ≡ some q) × IsValid q [] []
unfolding create_queue
create_queue-IsValid heap e = (
  record heap { head = null; tail = null; size = 0 },
  refl,
  record {
    distinct = tt;
    linked = tt;
    head_is = refl;
    tail_is = refl;
    size_is = refl;
    owned = e.none_live;
    within = λ p h. ground arith;
    positive = e.positive;
    elements = refl;
  },
)

pub map-frame :
    (f g : Ptr → Process) (nodes : List Ptr)
    → ((p : Ptr) → has p nodes ≡ true → g p ≡ f p)
    → map g nodes ≡ map f nodes
map-frame f g [] h = refl
map-frame f g (x ∷ nodes) h =
    ap₂ ◌∷◌ (h x (ground arith)) (map-frame f g nodes (λ p k. h p (ground arith)))

pub map-append : (f : Ptr → Process) (a b : List Ptr) → map f (a ++ b) ≡ map f a ++ map f b
map-append f [] b = refl
map-append f (x ∷ a) b = ap (λ r. f x ∷ r) (map-append f a b)

pub length-map : (f : Ptr → Process) (nodes : List Ptr) → length (map f nodes) ≡ length nodes
length-map f [] = refl
length-map f (x ∷ nodes) = ap suc (length-map f nodes)

-- The new node is none of the queue's.
fresh_outside :
    {q : Queue} {nodes : List Ptr} {ps : List Process}
    → IsValid q nodes ps
    → has q.fresh nodes ≡ false
fresh_outside {q} {nodes} v = elim (Bool-cases (has q.fresh nodes)) [
  | inl inside ↦ absurd (omega (arith, v.within q.fresh inside))
  | inr outside ↦ outside
]

-- What `push_queue` leaves of an empty queue and of one with a last node.
abbrev put_first : Queue → Process → Queue
put_first q element = record (new_node q element) {
  head = q.fresh;
  tail = q.fresh;
  size = q.size + 1;
}

abbrev put_after : Queue → Process → Queue
put_after q element = record (new_node q element) {
  prev = update (update q.prev q.fresh null) q.fresh q.tail;
  next = update (update q.next q.fresh null) q.tail q.fresh;
  tail = q.fresh;
  size = q.size + 1;
}

put_first-IsValid :
    {q : Queue} (e : Process) → IsValid q [] [] → IsValid (put_first q e) (q.fresh ∷ []) (e ∷ [])
put_first-IsValid {q} e v = record {
  distinct = (refl, tt);
  linked = (ground arith, ground arith, tt);
  head_is = refl;
  tail_is = refl;
  size_is = omega (arith, v.size_is);
  owned = λ p. ground (arith, v.owned p);
  within = λ p h. ground (arith, v.positive);
  positive = omega arith;
  elements = ground arith;
}

owned_more :
    (live : Ptr → Bool) (nodes : List Ptr) (q : Ptr)
    → ((p : Ptr) → live p ≡ has p nodes)
    → (p : Ptr) → update live q true p ≡ has p (nodes ++ (q ∷ []))
owned_more live nodes q h p = ground (arith, h p, has-append p nodes (q ∷ []))

within_more :
    (nodes : List Ptr) (fresh : Ptr)
    → ((p : Ptr) → has p nodes ≡ true → (0 < p) × (p < fresh))
    → 0 < fresh
    → (p : Ptr) → has p (nodes ++ (fresh ∷ [])) ≡ true
    → (0 < p) × (p < fresh + 1)
within_more nodes fresh h k p m =
    let e = has-append p nodes (fresh ∷ []) in
    elim (Bool-cases (has p nodes)) [
      | inl old ↦ ((h p old).0, omega (arith, (h p old).1))
      | inr other ↦ ground (arith, eq_of_== p fresh)
    ]

-- The links after `push_queue` on a queue with a last node.
chain_pushed :
    (next prev : Ptr → Ptr) (x : Ptr) (xs : List Ptr) (fresh tail : Ptr)
    → Links next prev null (x ∷ xs) null
    → Distinct (x ∷ xs)
    → has fresh (x ∷ xs) ≡ false
    → tail ≡ last_or x xs
    → Links
        (update (update next fresh null) tail fresh)
        (update (update prev fresh null) fresh tail)
        null
        (x ∷ (xs ++ (fresh ∷ [])))
        null
chain_pushed next prev x xs fresh tail l d outside e =
    let nodes : List Ptr = x ∷ xs in
    let next1 = update next fresh null in
    let prev1 = update prev fresh null in
    let prev2 = update prev1 fresh tail in
    let apart : (tail == fresh) ≡ false =
      ne_of_has tail fresh nodes (ap (λ t. has t nodes) e ∙ has-last_or x xs) outside in
    let old =
      Links-frame next prev {next' = next1} {prev' = prev2} null nodes null l
        (λ p h. update_outside next fresh null p nodes h outside)
        (λ p h.
          update_outside prev1 fresh tail p nodes h outside
          ∙ update_outside prev fresh null p nodes h outside) in
    let moved = Links-retarget next1 prev2 null x xs null fresh old d in
    Links-join (update next1 tail fresh) prev2 null nodes (fresh ∷ []) null
      (subst (λ t. Links (update next1 t fresh) prev2 null nodes fresh) (sym e) moved)
      (
        update_here prev1 fresh tail ∙ e,
        update_there next1 tail fresh fresh (==_sym fresh tail ∙ apart)
            ∙ update_here next fresh null,
        tt,
      )

elements_more :
    (f : Ptr → Process) (nodes : List Ptr) (ps : List Process) (q : Ptr) (e : Process)
    → has q nodes ≡ false
    → map f nodes ≡ ps
    → map (update f q e) (nodes ++ (q ∷ [])) ≡ ps ++ (e ∷ [])
elements_more f nodes ps q e outside h =
    let new : update f q e q ≡ e = ground arith in
    map-append (update f q e) nodes (q ∷ [])
    ∙ ap₂ ◌++◌
        (map-frame f (update f q e) nodes (λ p k. update_outside f q e p nodes k outside) ∙ h)
        (ap (λ a. a ∷ []) new)

put_after-IsValid :
    {q : Queue} {x : Ptr} {xs : List Ptr} {ps : List Process} (e : Process)
    → IsValid q (x ∷ xs) ps
    → IsValid (put_after q e) (x ∷ (xs ++ (q.fresh ∷ []))) (ps ++ (e ∷ []))
put_after-IsValid {q} {x} {xs} {ps} e v =
    let nodes : List Ptr = x ∷ xs in
    let new : List Ptr = q.fresh ∷ [] in
    let outside = fresh_outside v in
    record {
      distinct =
          append-Distinct nodes new v.distinct (refl, tt)
            (λ p h. ground (arith, ne_of_has p q.fresh nodes h outside));
      linked = chain_pushed q.next q.prev x xs q.fresh q.tail v.linked v.distinct outside v.tail_is;
      head_is = v.head_is;
      tail_is = sym (last_or-append null nodes new);
      size_is = omega (arith, v.size_is, length-append xs new);
      owned = owned_more q.live nodes q.fresh v.owned;
      within = within_more nodes q.fresh v.within v.positive;
      positive = omega arith;
      elements = elements_more q.element nodes ps q.fresh e outside v.elements;
    }

-- `push_queue` with memory at hand: the process is the last.
pub push_queue-IsValid :
    (q : Queue) (nodes : List Ptr) (ps : List Process) (e : Process)
    → IsValid q nodes ps
    → (q' : Queue) × (push_queue true (some q) e ≡ ok (some q'))
      × IsValid q' (nodes ++ (q.fresh ∷ [])) (ps ++ (e ∷ []))
unfolding push_queue
push_queue-IsValid q [] [] e v = (put_first q e, rw v.tail_is refl, put_first-IsValid e v)
push_queue-IsValid q [] (p ∷ ps) e v = absurd (cc (v.elements))
push_queue-IsValid q (x ∷ xs) ps e v =
    let last : has q.tail (x ∷ xs) ≡ true = ap (λ t. has t (x ∷ xs)) v.tail_is ∙ has-last_or x xs in
    let some_tail : (q.tail == null) ≡ false = ground (arith, v.within q.tail last) in
    let apart : (q.tail == q.fresh) ≡ false =
      ne_of_has q.tail q.fresh (x ∷ xs) last (fresh_outside v) in
    let live : update q.live q.fresh true q.tail ≡ true = rw (apart, v.owned q.tail, last) refl in
    (put_after q e, rw (some_tail, live) refl, put_after-IsValid e v)
