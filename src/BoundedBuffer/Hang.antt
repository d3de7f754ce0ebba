-- ===== src/BoundedBuffer/Hang.antt =====
-- A run of week7/pqueuepmain.c that never ends: `consumer` tests `totalConsumed` before `pget` and
-- counts after it, so both consumers may wait for the thirtieth item.
use cs5600_computer_system.Common.{
  ℕ, zero, suc, ◌≡◌, refl, arith, Bool, true, false, List, [], ◌∷◌, ◌++◌, ap, ◌∙◌, replicate,
}
use cs5600_computer_system.Common.Int.{ℤ, pos}
use cs5600_computer_system.CircularQueue.{queue_init, queue_put, queue_get}
use cs5600_computer_system.BoundedBuffer.{pput, pget}
use cs5600_computer_system.BoundedBuffer.Threads.{
  Shared, Producer, Consumer, System, Event, turn, spurious, p1, p2, c1, c2, producer, consumer,
  step, run, start, broadcast, capacity, all_exited,
}

-- In `pget`, awake or asleep.
abbrev pub in_pget : Consumer → Bool
in_pget Consumer.get = true
in_pget Consumer.asleep = true
in_pget _ = false

-- No producer is left, the queue is empty, and the second consumer is in `pget`.
pub record Starved (s : System) : Type 0 where
  pub p1_gone : s.p1 ≡ Producer.exited
  pub p2_gone : s.p2 ≡ Producer.exited
  pub empty : s.shared.pq.q.size ≡ 0
  pub waits : in_pget s.c2 ≡ true

consumer-empty :
    (c : Consumer) (m : Shared)
    → m.pq.q.size ≡ 0
    → ((consumer c m).1.pq.q.size ≡ 0)
      × (in_pget c ≡ true → in_pget (consumer c m).0 ≡ true)
      × ((consumer c m).2 ≡ false)
unfolding consumer pget
consumer-empty Consumer.check m e = ground arith
consumer-empty Consumer.get m e = ground arith
consumer-empty Consumer.asleep m e = ground arith
consumer-empty (Consumer.got x) m e = ground arith
consumer-empty Consumer.exited m e = ground arith

step-Starved : (e : Event) {s : System} → Starved s → Starved (step s e)
unfolding step broadcast producer
step-Starved (turn p1) {s} v = ground arith
step-Starved (turn p2) {s} v = ground arith
step-Starved (turn c1) {s} v = ground (arith, consumer-empty s.c1 s.shared)
step-Starved (turn c2) {s} v = ground (arith, consumer-empty s.c2 s.shared)
step-Starved (spurious p1) {s} v = ground arith
step-Starved (spurious p2) {s} v = ground arith
step-Starved (spurious c1) {s} v = ground arith
step-Starved (spurious c2) {s} v = ground arith

pub run-Starved : (es : List Event) {s : System} → Starved s → Starved (run s es)
unfolding run
run-Starved [] v = v
run-Starved (e ∷ es) v = run-Starved es (step-Starved e v)

run-append : (s : System) (es fs : List Event) → run s (es ++ fs) ≡ run (run s es) fs
unfolding run
run-append s [] fs = refl
run-append s (e ∷ es) fs = run-append (step s e) es fs

-- `n` rounds in which the first producer delivers an item and the first consumer consumes it.
abbrev rounds : ℕ → List Event → List Event
rounds zero rest = rest
rounds (suc n) rest = turn p1 ∷ turn p1 ∷ turn c1 ∷ turn c1 ∷ turn c1 ∷ rounds n rest

-- After 29 rounds both consumers pass their test, and one of them takes the last item.
abbrev pub race : List Event
race = rounds 29 (
    turn p1
    ∷ turn p1
    ∷ turn c1
    ∷ turn c2
    ∷ turn c1
    ∷ turn c1
    ∷ turn c2
    ∷ turn p1
    ∷ turn p2
    ∷ turn c1
    ∷ [])

abbrev pub zeros : List ℤ
zeros = replicate capacity (pos 0)

race-Starved : Starved (run (start zeros) race)
unfolding run start step broadcast producer consumer pput pget queue_init queue_put queue_get
race-Starved = record { p1_gone = refl; p2_gone = refl; empty = refl; waits = refl }

not-exited : {s : System} → Starved s → all_exited s ≡ false
not-exited {s} v = ground arith

-- There is an order of turns after which, in every continuation, not all threads exit: the joins
-- of `main` never all return.
pub main_may_hang :
    (es : List Event) × ((more : List Event) → all_exited (run (start zeros) (es ++ more)) ≡ false)
main_may_hang = (
  race,
  λ more.
      ap all_exited (run-append (start zeros) race more)
      ∙ not-exited (run-Starved more race-Starved),
)
