-- ===== src/StringQueue/Shape.antt =====
-- The linked list of week6/queue.c and its operations: what stands on the heap.
use cs5600_computer_system.Common.{
  ℕ, zero, suc, ◌+◌, ◌-◌, ◌<◌, ◌≡◌, refl, arith, true, false, none, some, List, [], ◌∷◌, ◌++◌,
  if◌then◌else◌, ◌==◌, length, length-append, get_or, ℕ_discrete,
}
use cs5600_computer_system.StringQueue.{Ptr, null, update, Queue, enqueue, dequeue}

-- The queue holds the strings `xs` in the nodes from `base` on, in the order in which they were
-- allocated.
pub record IsValid (q : Queue) (base : Ptr) (xs : List (List ℕ)) : Type 0 where
  pub positive : 0 < base
  pub fresh_is : q.fresh ≡ base + length xs
  pub size_is : q.size ≡ length xs
  pub front_is : q.front ≡ (if length xs == 0 then null else base)
  pub rear_is : q.rear ≡ (if length xs == 0 then null else base + length xs - 1)
  pub alive : (i : ℕ) → i < length xs → q.live (base + i) ≡ true
  pub links : (i : ℕ) → i + 1 < length xs → q.next (base + i) ≡ base + i + 1
  pub ends : 0 < length xs → q.next (base + length xs - 1) ≡ null
  pub texts : (i : ℕ) → i < length xs → q.text (base + i) ≡ get_or xs i []

get_or-append :
    {A : Type 0} (xs : List A) (v d : A) (i : ℕ)
    → i < length xs + 1
    → get_or (xs ++ (v ∷ [])) i d ≡ (if i == length xs then v else get_or xs i d)
get_or-append [] v d zero h = refl
get_or-append [] v d (suc i) h = absurd (omega arith)
get_or-append (x ∷ xs) v d zero h = ground arith
get_or-append (x ∷ xs) v d (suc i) h = ground (arith, get_or-append xs v d i)

-- What `enqueue` leaves of an empty queue and of one with a last node.
abbrev put_first : Queue → List ℕ → Queue
put_first q str = record q {
  live = update q.live q.fresh true;
  text = update q.text q.fresh str;
  next = update q.next q.fresh null;
  fresh = q.fresh + 1;
  front = q.fresh;
  rear = q.fresh;
  size = q.size + 1;
}

abbrev put_after : Queue → List ℕ → Queue
put_after q str = record q {
  live = update q.live q.fresh true;
  text = update q.text q.fresh str;
  next = update (update q.next q.fresh null) q.rear q.fresh;
  fresh = q.fresh + 1;
  rear = q.fresh;
  size = q.size + 1;
}

put_first-IsValid :
    {q : Queue} {base : Ptr} (s : List ℕ)
    → IsValid q base []
    → IsValid (put_first q s) base (s ∷ [])
put_first-IsValid {q} {base} s v = record {
  positive = v.positive;
  fresh_is = omega (arith, v);
  size_is = omega (arith, v);
  front_is = omega (arith, v);
  rear_is = ground (arith, v);
  alive = λ i h. ground (arith, v);
  links = λ i h. absurd (omega arith);
  ends = λ h. ground (arith, v);
  texts = λ i h. elim (ℕ_discrete i 0) [
    | yes e ↦ rw e (ground (arith, v))
    | no n ↦ absurd (omega arith)
  ];
}

put_after-IsValid :
    {q : Queue} {base : Ptr} {x : List ℕ} {xs : List (List ℕ)} (s : List ℕ)
    → IsValid q base (x ∷ xs)
    → IsValid (put_after q s) base (x ∷ (xs ++ (s ∷ [])))
put_after-IsValid {q} {base} {x} {xs} s v =
    let len = length-append xs (s ∷ []) in
    record {
      positive = v.positive;
      fresh_is = omega (arith, v, len);
      size_is = omega (arith, v, len);
      front_is = ground (arith, v, len);
      rear_is = ground (arith, v, len);
      alive = λ i h. ground (arith, v, len, v.alive i);
      links = λ i h. ground (arith, v, len, v.links i);
      ends = λ h. ground (arith, v, len);
      texts = λ i h. ground (arith, v, len, v.texts i, get_or-append (x ∷ xs) s [] i);
    }

pub enqueue-IsValid :
    {q : Queue} {base : Ptr} {xs : List (List ℕ)} (s : List ℕ)
    → IsValid q base xs
    → (t : Queue) × (enqueue q s ≡ some t) × IsValid t base (xs ++ (s ∷ []))
unfolding enqueue
enqueue-IsValid {q = q} {xs = []} s v = (put_first q s, ground (arith, v), put_first-IsValid s v)
enqueue-IsValid {q = q} {xs = x ∷ xs} s v =
    (put_after q s, ground (arith, v, v.alive (length xs)), put_after-IsValid s v)

-- What `dequeue` leaves of a queue with a first node.
abbrev take_first : Queue → Queue
take_first q = record q {
  front = q.next q.front;
  rear = if q.next q.front == null then null else q.rear;
  live = update q.live q.front false;
  size = q.size - 1;
}

take_first-IsValid :
    {q : Queue} {base : Ptr} {x : List ℕ} {xs : List (List ℕ)}
    → IsValid q base (x ∷ xs)
    → IsValid (take_first q) (base + 1) xs
take_first-IsValid {q} {base} {x} {xs} v = record {
  positive = omega arith;
  fresh_is = omega (arith, v);
  size_is = omega (arith, v);
  front_is = ground (arith, v, v.links 0, v.ends);
  rear_is = ground (arith, v, v.links 0, v.ends);
  alive = λ i h. ground (arith, v, v.alive (i + 1));
  links = λ i h. ground (arith, v, v.links (i + 1));
  ends = λ h. ground (arith, v);
  texts = λ i h. ground (arith, v, v.texts (i + 1));
}

pub dequeue-IsValid :
    {q : Queue} {base : Ptr} {x : List ℕ} {xs : List (List ℕ)}
    → IsValid q base (x ∷ xs)
    → (t : Queue) × (dequeue q ≡ some (some x, t)) × IsValid t (base + 1) xs
unfolding dequeue
dequeue-IsValid {q} {base} {x} {xs} v =
    (take_first q, ground (arith, v, v.alive 0, v.texts 0), take_first-IsValid v)

pub dequeue_empty : {q : Queue} {base : Ptr} → IsValid q base [] → dequeue q ≡ some (none, q)
unfolding dequeue
dequeue_empty v = ground (arith, v)
