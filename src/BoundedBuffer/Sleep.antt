-- ===== src/BoundedBuffer/Sleep.antt =====
-- No wakeup is lost: in any order of turns, a thread that sleeps has something to wait for. One
-- condition serves producers and consumers, so this needs the broadcasts of `pput` and `pget`.
use cs5600_computer_system.Common.{◌≤◌, ◌≡◌, arith, Bool, true, false, List, [], ◌∷◌}
use cs5600_computer_system.Common.Int.{ℤ}
use cs5600_computer_system.BoundedBuffer.{pput, pget}
use cs5600_computer_system.BoundedBuffer.Threads.{
  Shared, Producer, Consumer, System, Event, turn, spurious, p1, p2, c1, c2, producer, consumer,
  step, run, start, item_limit, broadcast, woken_producer, woken_consumer,
}

-- What a producer's place says of the shared state: asleep, the queue is full; out of its loop, all
-- items are produced.
abbrev pub ProducerRests : Producer → Shared → Type 0
ProducerRests (Producer.asleep x) m = m.pq.q.size ≡ m.pq.q.capacity
ProducerRests Producer.exited m = item_limit ≤ m.total_produced
ProducerRests _ m = Unit {0}

abbrev pub ConsumerRests : Consumer → Shared → Type 0
ConsumerRests Consumer.asleep m = m.pq.q.size ≡ 0
ConsumerRests Consumer.exited m = item_limit ≤ m.total_consumed
ConsumerRests _ m = Unit {0}

-- What a turn does to the other threads' facts.
record Respects (m m' : Shared) (woke : Bool) : Type 0 where
  same : woke ≡ false → m'.pq ≡ m.pq
  produced : m.total_produced ≤ m'.total_produced
  consumed : m.total_consumed ≤ m'.total_consumed

producer-Respects : (p : Producer) (m : Shared) → Respects m (producer p m).1 (producer p m).2
unfolding producer
producer-Respects Producer.check m = ground arith
producer-Respects (Producer.put x) m = ground arith
producer-Respects (Producer.asleep x) m = ground arith
producer-Respects Producer.exited m = ground arith

consumer-Respects : (c : Consumer) (m : Shared) → Respects m (consumer c m).1 (consumer c m).2
unfolding consumer
consumer-Respects Consumer.check m = ground arith
consumer-Respects Consumer.get m = ground arith
consumer-Respects Consumer.asleep m = ground arith
consumer-Respects (Consumer.got x) m = ground arith
consumer-Respects Consumer.exited m = ground arith

producer-ProducerRests :
    (p : Producer) (m : Shared)
    → ProducerRests p m
    → ProducerRests (producer p m).0 (producer p m).1
unfolding producer pput
producer-ProducerRests Producer.check m h = ground arith
producer-ProducerRests (Producer.put x) m h = ground arith
producer-ProducerRests (Producer.asleep x) m h = ground arith
producer-ProducerRests Producer.exited m h = ground arith

consumer-ConsumerRests :
    (c : Consumer) (m : Shared)
    → ConsumerRests c m
    → ConsumerRests (consumer c m).0 (consumer c m).1
unfolding consumer pget
consumer-ConsumerRests Consumer.check m h = ground arith
consumer-ConsumerRests Consumer.get m h = ground arith
consumer-ConsumerRests Consumer.asleep m h = ground arith
consumer-ConsumerRests (Consumer.got x) m h = ground arith
consumer-ConsumerRests Consumer.exited m h = ground arith

module _ {m m' : Shared} (woke : Bool) (r : Respects m m' woke) where
  ProducerRests-kept : (p : Producer) → ProducerRests p m → ProducerRests (woken_producer woke p) m'
  ProducerRests-kept Producer.check h = ground arith
  ProducerRests-kept (Producer.put x) h = ground arith
  ProducerRests-kept (Producer.asleep x) h = ground arith
  ProducerRests-kept Producer.exited h = ground arith

  ConsumerRests-kept : (c : Consumer) → ConsumerRests c m → ConsumerRests (woken_consumer woke c) m'
  ConsumerRests-kept Consumer.check h = ground arith
  ConsumerRests-kept Consumer.get h = ground arith
  ConsumerRests-kept Consumer.asleep h = ground arith
  ConsumerRests-kept (Consumer.got x) h = ground arith
  ConsumerRests-kept Consumer.exited h = ground arith

pub record Rested (s : System) : Type 0 where
  pub p1_ok : ProducerRests s.p1 s.shared
  pub p2_ok : ProducerRests s.p2 s.shared
  pub c1_ok : ConsumerRests s.c1 s.shared
  pub c2_ok : ConsumerRests s.c2 s.shared

Respects-refl : (m : Shared) (woke : Bool) → Respects m m woke
Respects-refl m woke = ground arith

-- The mover has its own fact, the others keep theirs through the turn and its broadcast.
pub step-Rested : (e : Event) {s : System} → Rested s → Rested (step s e)
unfolding step broadcast
step-Rested (turn p1) {s} r =
    let t = producer-Respects s.p1 s.shared in
    record {
      p1_ok =
          ProducerRests-kept _ (Respects-refl _ _) _ (producer-ProducerRests s.p1 s.shared r.p1_ok);
      p2_ok = ProducerRests-kept _ t s.p2 r.p2_ok;
      c1_ok = ConsumerRests-kept _ t s.c1 r.c1_ok;
      c2_ok = ConsumerRests-kept _ t s.c2 r.c2_ok;
    }
step-Rested (turn p2) {s} r =
    let t = producer-Respects s.p2 s.shared in
    record {
      p1_ok = ProducerRests-kept _ t s.p1 r.p1_ok;
      p2_ok =
          ProducerRests-kept _ (Respects-refl _ _) _ (producer-ProducerRests s.p2 s.shared r.p2_ok);
      c1_ok = ConsumerRests-kept _ t s.c1 r.c1_ok;
      c2_ok = ConsumerRests-kept _ t s.c2 r.c2_ok;
    }
step-Rested (turn c1) {s} r =
    let t = consumer-Respects s.c1 s.shared in
    record {
      p1_ok = ProducerRests-kept _ t s.p1 r.p1_ok;
      p2_ok = ProducerRests-kept _ t s.p2 r.p2_ok;
      c1_ok =
          ConsumerRests-kept _ (Respects-refl _ _) _ (consumer-ConsumerRests s.c1 s.shared r.c1_ok);
      c2_ok = ConsumerRests-kept _ t s.c2 r.c2_ok;
    }
step-Rested (turn c2) {s} r =
    let t = consumer-Respects s.c2 s.shared in
    record {
      p1_ok = ProducerRests-kept _ t s.p1 r.p1_ok;
      p2_ok = ProducerRests-kept _ t s.p2 r.p2_ok;
      c1_ok = ConsumerRests-kept _ t s.c1 r.c1_ok;
      c2_ok =
          ConsumerRests-kept _ (Respects-refl _ _) _ (consumer-ConsumerRests s.c2 s.shared r.c2_ok);
    }
step-Rested (spurious p1) {s} r = record {
  p1_ok = ProducerRests-kept true (Respects-refl _ _) s.p1 r.p1_ok;
  p2_ok = r.p2_ok;
  c1_ok = r.c1_ok;
  c2_ok = r.c2_ok;
}
step-Rested (spurious p2) {s} r = record {
  p1_ok = r.p1_ok;
  p2_ok = ProducerRests-kept true (Respects-refl _ _) s.p2 r.p2_ok;
  c1_ok = r.c1_ok;
  c2_ok = r.c2_ok;
}
step-Rested (spurious c1) {s} r = record {
  p1_ok = r.p1_ok;
  p2_ok = r.p2_ok;
  c1_ok = ConsumerRests-kept true (Respects-refl _ _) s.c1 r.c1_ok;
  c2_ok = r.c2_ok;
}
step-Rested (spurious c2) {s} r = record {
  p1_ok = r.p1_ok;
  p2_ok = r.p2_ok;
  c1_ok = r.c1_ok;
  c2_ok = ConsumerRests-kept true (Respects-refl _ _) s.c2 r.c2_ok;
}

run-Rested : (es : List Event) {s : System} → Rested s → Rested (run s es)
unfolding run
run-Rested [] r = r
run-Rested (e ∷ es) r = run-Rested es (step-Rested e r)

start-Rested : (storage : List ℤ) → Rested (start storage)
unfolding start
start-Rested storage = record { p1_ok = tt; p2_ok = tt; c1_ok = tt; c2_ok = tt }

-- In every order of turns of the four threads from their start, spurious wakeups included: a
-- producer that sleeps sees a full queue and a consumer that sleeps an empty one, a producer has
-- left its loop only after 30 items were produced, and a consumer only after 30 were consumed.
pub no_lost_wakeup : (storage : List ℤ) (es : List Event) → Rested (run (start storage) es)
no_lost_wakeup storage es = run-Rested es (start-Rested storage)
