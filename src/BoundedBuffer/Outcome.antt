-- ===== src/BoundedBuffer/Outcome.antt =====
-- What the producers and consumers of week7/pqueuepmain.c achieve, in every order of turns.
use cs5600_computer_system.Common.{
  ℕ, zero, suc, ◌+◌, ◌≤◌, ◌≡◌, refl, subst, arith, true, ◌&&◌, List, [], ◌∷◌, if◌then◌else◌, leb,
  ◌==◌, length,
}
use cs5600_computer_system.Common.Int.{ℤ, pos, negsuc}
use cs5600_computer_system.CircularQueue.Refine.{contents, length-contents}
use cs5600_computer_system.BoundedBuffer.Threads.{
  Shared, System, Event, Producer, Consumer, run, start, capacity, all_exited,
}
use cs5600_computer_system.BoundedBuffer.Accounts.{
  total, in_hand, held, stock, issued, run-Accounted, start-Accounted,
}
use cs5600_computer_system.BoundedBuffer.Sleep.{ProducerRests, ConsumerRests, no_lost_wakeup}

-- 1 if the value is item `k`: the weight that counts how often item `k` occurs.
abbrev pub is_item : ℕ → ℤ → ℕ
is_item k (pos n) = if n == k then 1 else 0
is_item k (negsuc n) = 0

-- The weight that counts values.
abbrev one : ℤ → ℕ
one x = 1

issued-one : (n : ℕ) → issued one n ≡ n
unfolding issued
issued-one zero = refl
issued-one (suc n) = omega (arith, issued-one n)

issued-is_item : (k n : ℕ) → issued (is_item k) n ≡ (if leb 1 k && leb k n then 1 else 0)
unfolding issued
issued-is_item k zero = ground arith
issued-is_item k (suc n) = ground (arith, issued-is_item k n)

total-one : (xs : List ℤ) → total one xs ≡ length xs
total-one [] = refl
total-one (x ∷ xs) = omega (arith, total-one xs)

-- In every order of turns, item `k` occurs exactly once among the producers' hands, the queue, the
-- consumers' hands and the consumed items if 1 ≤ `k` ≤ `totalProduced`, and nowhere otherwise; and
-- `totalConsumed` is the number of consumed items.
pub items_once :
    (storage : List ℤ) (es : List Event) (k : ℕ)
    → length storage ≡ capacity
    → let s = run (start storage) es in
      (in_hand (is_item k) s.p1
          + in_hand (is_item k) s.p2
          + held (is_item k) s.c1
          + held (is_item k) s.c2
          + stock (is_item k) s.shared
        ≡ (if leb 1 k && leb k s.shared.total_produced then 1 else 0))
      × (length s.shared.consumed ≡ s.shared.total_consumed)
items_once storage es k h =
    let s = run (start storage) es in
    let a = run-Accounted (is_item k) es (start-Accounted (is_item k) storage h) in
    (omega (arith, a, issued-is_item k s.shared.total_produced), a.tally)

-- The 30 items are consumed once each, and none is left.
pub record Delivered (k : ℕ) (m : Shared) : Type 0 where
  pub produced : m.total_produced ≡ 30
  pub consumed : m.total_consumed ≡ 30
  pub left : m.pq.q.size ≡ 0
  pub each : total (is_item k) m.consumed ≡ (if leb 1 k && leb k 30 then 1 else 0)

exited-parts :
    (s : System)
    → all_exited s ≡ true
    → (s.p1 ≡ Producer.exited)
      × (s.p2 ≡ Producer.exited)
      × (s.c1 ≡ Consumer.exited)
      × (s.c2 ≡ Consumer.exited)
exited-parts s done = ground arith

-- The counts, once no thread holds an item.
counts-Delivered :
    (k : ℕ) (m : Shared)
    → 30 ≤ m.total_produced
    → m.total_produced ≤ 30
    → 30 ≤ m.total_consumed
    → length m.consumed ≡ m.total_consumed
    → stock one m ≡ m.total_produced
    → stock (is_item k) m ≡ issued (is_item k) m.total_produced
    → Delivered k m
counts-Delivered k m p p' c t all item =
    let size : m.pq.q.size ≡ 0 =
      omega (arith, total-one (contents m.pq.q), total-one m.consumed, length-contents m.pq.q) in
    let full : m.total_produced ≡ 30 = omega arith in
    let empty : contents m.pq.q ≡ [] = ground (arith, length-contents m.pq.q) in
    record {
      produced = full;
      consumed =
          omega (arith, total-one (contents m.pq.q), total-one m.consumed, length-contents m.pq.q);
      left = size;
      each = ground (arith, issued-is_item k m.total_produced);
    }

-- In every order of turns, if the four joins of `main` all return, then 30 items were produced and
-- 30 consumed, the queue is empty, and each of the items 1 to 30, and nothing else, was consumed
-- exactly once.
pub joined_Delivered :
    (storage : List ℤ) (es : List Event) (k : ℕ)
    → length storage ≡ capacity
    → all_exited (run (start storage) es) ≡ true
    → Delivered k (run (start storage) es).shared
joined_Delivered storage es k h done =
    let s = run (start storage) es in
    let a = run-Accounted one es (start-Accounted one storage h) in
    let b = run-Accounted (is_item k) es (start-Accounted (is_item k) storage h) in
    let r = no_lost_wakeup storage es in
    let (e1, e2, e3, e4) = exited-parts s done in
    counts-Delivered k s.shared (subst (λ p. ProducerRests p s.shared) e1 r.p1_ok) a.limit
      (subst (λ c. ConsumerRests c s.shared) e3 r.c1_ok) a.tally
      (ground (arith, e1, e2, e3, e4, a.moved_only, issued-one s.shared.total_produced))
      (ground (arith, e1, e2, e3, e4, b.moved_only))
