-- ===== src/BoundedBuffer/Accounts.antt =====
-- Items are weighed: whatever the order of the turns, those issued are the ones in a thread's hand,
-- in the queue, or consumed.
use cs5600_computer_system.Common.{
  ℕ, zero, suc, ◌+◌, ◌≤◌, ◌<◌, ◌≡◌, refl, arith, Bool, true, false, some, List, [], ◌∷◌, ◌++◌,
  length, Option-cases, inl, inr,
}
use cs5600_computer_system.Common.Int.{ℤ, pos}
use cs5600_computer_system.CircularQueue.{queue_init}
use cs5600_computer_system.CircularQueue.Bounds.{
  IsValid, queue_put-IsValid, queue_get-IsValid, queue_init-IsValid,
}
use cs5600_computer_system.CircularQueue.Refine.{
  contents, length-contents, queue_put_refines, queue_get_refines,
}
use cs5600_computer_system.CircularQueue.Fifo.{enter, leave}
use native.Mathlib.Numerals.{add-one}
use cs5600_computer_system.BoundedBuffer.{Pqueue, pput, pget}
use cs5600_computer_system.BoundedBuffer.Threads.{
  Shared, Producer, Consumer, System, Event, turn, spurious, p1, p2, c1, c2, producer, consumer,
  step, run, start, item_limit, capacity, broadcast, wake_producer, wake_consumer, woken_producer,
  woken_consumer,
}

-- The weight of a list of values.
abbrev pub total : (ℤ → ℕ) → List ℤ → ℕ
total w [] = 0
total w (x ∷ xs) = w x + total w xs

abbrev pub in_hand : (ℤ → ℕ) → Producer → ℕ
in_hand w (Producer.put x) = w x
in_hand w (Producer.asleep x) = w x
in_hand w _ = 0

abbrev pub held : (ℤ → ℕ) → Consumer → ℕ
held w (Consumer.got x) = w x
held w _ = 0

abbrev pub stock : (ℤ → ℕ) → Shared → ℕ
stock w m = total w (contents m.pq.q) + total w m.consumed

-- The weight of the items 1 to n.
unfoldable pub issued : (ℤ → ℕ) → ℕ → ℕ
issued w zero = 0
issued w (suc n) = issued w n + w (pos (suc n))

issued-next : (w : ℤ → ℕ) (n : ℕ) → issued w (n + 1) ≡ issued w n + w (pos (n + 1))
unfolding issued
issued-next w n = rw (add-one n)

total-append : (w : ℤ → ℕ) (xs ys : List ℤ) → total w (xs ++ ys) ≡ total w xs + total w ys
total-append w [] ys = omega arith
total-append w (x ∷ xs) ys = omega (arith, total-append w xs ys)

-- The value goes into the queue.
pput-total :
    (w : ℤ → ℕ) (pq : Pqueue) (x : ℤ) {pq' : Pqueue}
    → IsValid pq.q
    → pput pq x ≡ some pq'
    → IsValid pq'.q × (total w (contents pq'.q) ≡ total w (contents pq.q) + w x)
unfolding pput enter
pput-total w pq x v e = ground (
  arith,
  queue_put-IsValid x v,
  queue_put_refines x v,
  length-contents pq.q,
  total-append w (contents pq.q) (x ∷ []),
)

leave-total :
    (w : ℤ → ℕ) (xs : List ℤ) → 0 < length xs → w (leave xs).0 + total w (leave xs).1 ≡ total w xs
unfolding leave
leave-total w [] h = absurd (omega arith)
leave-total w (x ∷ xs) h = refl

pget-total :
    (w : ℤ → ℕ) (pq : Pqueue) (x : ℤ) {pq' : Pqueue}
    → IsValid pq.q
    → pget pq ≡ some (x, pq')
    → IsValid pq'.q × (w x + total w (contents pq'.q) ≡ total w (contents pq.q))
unfolding pget
pget-total w pq x v e = ground (
  arith,
  queue_get-IsValid v,
  queue_get_refines v,
  length-contents pq.q,
  leave-total w (contents pq.q),
)

-- What one turn keeps: the queue is valid, and the weight of the items only moves, or grows by an item issued.
record Keeps (w : ℤ → ℕ) (before after : ℕ) (m m' : Shared) : Type 0 where
  valid : IsValid m'.pq.q
  limit : m'.total_produced ≤ item_limit
  moved :
      after + stock w m' + issued w m.total_produced
      ≡ before + stock w m + issued w m'.total_produced
  tally : length m'.consumed + m.total_consumed ≡ length m.consumed + m'.total_consumed

producer-Keeps :
    (w : ℤ → ℕ) (p : Producer) (m : Shared)
    → IsValid m.pq.q
    → m.total_produced ≤ item_limit
    → Keeps w (in_hand w p) (in_hand w (producer p m).0) m (producer p m).1
unfolding producer
producer-Keeps w Producer.check m v h = ground (arith, issued-next w m.total_produced)
producer-Keeps w (Producer.put x) m v h = elim (Option-cases (pput m.pq x)) [
  | inl full ↦ ground arith
  | inr (pq, e) ↦ ground (arith, pput-total w m.pq x v e)
]
producer-Keeps w (Producer.asleep x) m v h = ground arith
producer-Keeps w Producer.exited m v h = ground arith

consumer-Keeps :
    (w : ℤ → ℕ) (c : Consumer) (m : Shared)
    → IsValid m.pq.q
    → m.total_produced ≤ item_limit
    → Keeps w (held w c) (held w (consumer c m).0) m (consumer c m).1
unfolding consumer
consumer-Keeps w Consumer.check m v h = ground arith
consumer-Keeps w Consumer.get m v h = elim (Option-cases (pget m.pq)) [
  | inl empty ↦ ground arith
  | inr ((x, pq), e) ↦ ground (arith, pget-total w m.pq x v e)
]
consumer-Keeps w Consumer.asleep m v h = ground arith
consumer-Keeps w (Consumer.got x) m v h = ground arith
consumer-Keeps w Consumer.exited m v h = ground arith

-- The items issued are where the threads, the queue and the consumed ones say.
pub record Accounted (w : ℤ → ℕ) (s : System) : Type 0 where
  pub valid : IsValid s.shared.pq.q
  pub limit : s.shared.total_produced ≤ item_limit
  pub moved_only :
      in_hand w s.p1 + in_hand w s.p2 + held w s.c1 + held w s.c2 + stock w s.shared
      ≡ issued w s.shared.total_produced
  pub tally : length s.shared.consumed ≡ s.shared.total_consumed

in_hand-wake : (w : ℤ → ℕ) (p : Producer) → in_hand w (wake_producer p) ≡ in_hand w p
in_hand-wake w Producer.check = refl
in_hand-wake w _ = refl

held-wake : (w : ℤ → ℕ) (c : Consumer) → held w (wake_consumer c) ≡ held w c
held-wake w Consumer.check = refl
held-wake w _ = refl

in_hand-woken :
    (w : ℤ → ℕ) (woke : Bool) (p : Producer) → in_hand w (woken_producer woke p) ≡ in_hand w p
in_hand-woken w false p = refl
in_hand-woken w true p = in_hand-wake w p

held-woken : (w : ℤ → ℕ) (woke : Bool) (c : Consumer) → held w (woken_consumer woke c) ≡ held w c
held-woken w false c = refl
held-woken w true c = held-wake w c

broadcast-Accounted :
    (w : ℤ → ℕ) (woke : Bool) (s : System) → Accounted w s → Accounted w (broadcast woke s)
unfolding broadcast
broadcast-Accounted w woke s a = record {
  valid = a.valid;
  limit = a.limit;
  moved_only = omega (
    arith,
    a,
    in_hand-woken w woke s.p1,
    in_hand-woken w woke s.p2,
    held-woken w woke s.c1,
    held-woken w woke s.c2,
  );
  tally = a.tally;
}

pub step-Accounted : (w : ℤ → ℕ) (e : Event) {s : System} → Accounted w s → Accounted w (step s e)
unfolding step
step-Accounted w (turn p1) {s} a =
    broadcast-Accounted w _ _ (ground (arith, producer-Keeps w s.p1 s.shared))
step-Accounted w (turn p2) {s} a =
    broadcast-Accounted w _ _ (ground (arith, producer-Keeps w s.p2 s.shared))
step-Accounted w (turn c1) {s} a =
    broadcast-Accounted w _ _ (ground (arith, consumer-Keeps w s.c1 s.shared))
step-Accounted w (turn c2) {s} a =
    broadcast-Accounted w _ _ (ground (arith, consumer-Keeps w s.c2 s.shared))
step-Accounted w (spurious p1) {s} a = ground (arith, in_hand-wake w s.p1)
step-Accounted w (spurious p2) {s} a = ground (arith, in_hand-wake w s.p2)
step-Accounted w (spurious c1) {s} a = ground (arith, held-wake w s.c1)
step-Accounted w (spurious c2) {s} a = ground (arith, held-wake w s.c2)

pub run-Accounted :
    (w : ℤ → ℕ) (es : List Event) {s : System} → Accounted w s → Accounted w (run s es)
unfolding run
run-Accounted w [] a = a
run-Accounted w (e ∷ es) a = run-Accounted w es (step-Accounted w e a)

pub start-Accounted :
    (w : ℤ → ℕ) (storage : List ℤ) → length storage ≡ capacity → Accounted w (start storage)
unfolding start queue_init issued
start-Accounted w storage h = record {
  valid = queue_init-IsValid storage capacity h (omega arith);
  limit = omega arith;
  moved_only = refl;
  tally = refl;
}
