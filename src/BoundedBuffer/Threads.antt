-- ===== src/BoundedBuffer/Threads.antt =====
-- The threads of week7/pqueuepmain.c: two producers and two consumers, one critical section at a
-- time, in any order.
use cs5600_computer_system.Common.{
  ℕ, ◌+◌, Bool, true, false, none, some, List, [], ◌∷◌, if◌then◌else◌, leb,
}
use cs5600_computer_system.Common.Int.{ℤ, pos}
use cs5600_computer_system.BoundedBuffer.{Pqueue, pqueueinit, pput, pget}

abbrev pub capacity : ℕ
capacity = 15

-- The number of items after which both loops stop.
abbrev pub item_limit : ℕ
item_limit = 30

-- What the threads share. `consumed` lists the items that `totalConsumed` has counted, latest
-- first: the source prints them.
pub record Shared : Type 0 where
  pub pq : Pqueue
  pub total_produced : ℕ
  pub total_consumed : ℕ
  pub consumed : List ℤ

-- Where a producer stands: the head of its loop, in `pput` with an item and awake or asleep, or out
-- of its loop.
pub data Producer : Type 0 where
  check : Producer
  put : ℤ → Producer
  asleep : ℤ → Producer
  exited : Producer

-- Where a consumer stands; `got` is between `pget` and the count of the item.
pub data Consumer : Type 0 where
  check : Consumer
  get : Consumer
  asleep : Consumer
  got : ℤ → Consumer
  exited : Consumer

-- One turn of `producer`, and whether it broadcasts.
unfoldable pub producer : Producer → Shared → Producer × Shared × Bool
producer Producer.check m =
    if leb item_limit m.total_produced then (Producer.exited, m, false) else (
      Producer.put (pos (m.total_produced + 1)),
      record m { total_produced = m.total_produced + 1 },
      false,
    )
producer (Producer.put x) m = elim (pput m.pq x) [
  | none ↦ (Producer.asleep x, m, false)
  | some pq ↦ (Producer.check, record m { pq = pq }, true)
]
producer (Producer.asleep x) m = (Producer.asleep x, m, false)
producer Producer.exited m = (Producer.exited, m, false)

-- One turn of `consumer`.
unfoldable pub consumer : Consumer → Shared → Consumer × Shared × Bool
consumer Consumer.check m =
    if leb item_limit m.total_consumed
    then (Consumer.exited, m, false)
    else (Consumer.get, m, false)
consumer Consumer.get m = elim (pget m.pq) [
  | none ↦ (Consumer.asleep, m, false)
  | some (x, pq) ↦ (Consumer.got x, record m { pq = pq }, true)
]
consumer Consumer.asleep m = (Consumer.asleep, m, false)
consumer (Consumer.got x) m = (
  Consumer.check,
  record m { total_consumed = m.total_consumed + 1; consumed = x ∷ m.consumed },
  false,
)
consumer Consumer.exited m = (Consumer.exited, m, false)

abbrev pub wake_producer : Producer → Producer
wake_producer (Producer.asleep x) = Producer.put x
wake_producer p = p

abbrev pub wake_consumer : Consumer → Consumer
wake_consumer Consumer.asleep = Consumer.get
wake_consumer c = c

-- A thread after a turn that broadcasts, or does not.
abbrev pub woken_producer : Bool → Producer → Producer
woken_producer woke p = if woke then wake_producer p else p

abbrev pub woken_consumer : Bool → Consumer → Consumer
woken_consumer woke c = if woke then wake_consumer c else c

-- The four threads that `main` creates.
pub record System : Type 0 where
  pub shared : Shared
  pub p1 : Producer
  pub p2 : Producer
  pub c1 : Consumer
  pub c2 : Consumer

-- `pthread_cond_broadcast`, where the turn makes one.
unfoldable pub broadcast : Bool → System → System
broadcast woke s = record {
  shared = s.shared;
  p1 = woken_producer woke s.p1;
  p2 = woken_producer woke s.p2;
  c1 = woken_consumer woke s.c1;
  c2 = woken_consumer woke s.c2;
}

pub data Thread : Type 0 where
  p1 p2 c1 c2 : Thread

-- A thread takes its turn, or wakes without a broadcast.
pub data Event : Type 0 where
  turn : Thread → Event
  spurious : Thread → Event

unfoldable pub step : System → Event → System
step s (turn p1) =
    let (p, m, woke) = producer s.p1 s.shared in broadcast woke (record s { shared = m; p1 = p })
step s (turn p2) =
    let (p, m, woke) = producer s.p2 s.shared in broadcast woke (record s { shared = m; p2 = p })
step s (turn c1) =
    let (c, m, woke) = consumer s.c1 s.shared in broadcast woke (record s { shared = m; c1 = c })
step s (turn c2) =
    let (c, m, woke) = consumer s.c2 s.shared in broadcast woke (record s { shared = m; c2 = c })
step s (spurious p1) = record s { p1 = wake_producer s.p1 }
step s (spurious p2) = record s { p2 = wake_producer s.p2 }
step s (spurious c1) = record s { c1 = wake_consumer s.c1 }
step s (spurious c2) = record s { c2 = wake_consumer s.c2 }

unfoldable pub run : System → List Event → System
run s [] = s
run s (e ∷ es) = run (step s e) es

-- `main`, once the threads are created; `storage` is the array that `malloc` hands back.
unfoldable pub start : List ℤ → System
unfolding pqueueinit
start storage = record {
  shared = record {
    pq = pqueueinit storage capacity;
    total_produced = 0;
    total_consumed = 0;
    consumed = [];
  };
  p1 = Producer.check;
  p2 = Producer.check;
  c1 = Consumer.check;
  c2 = Consumer.check;
}

-- Every `pthread_join` of `main` returns.
abbrev pub all_exited : System → Bool
all_exited s = elim s.p1 [
  | Producer.exited ↦ elim s.p2 [
    | Producer.exited ↦ elim s.c1 [
      | Consumer.exited ↦ elim s.c2 [ Consumer.exited ↦ true | _ ↦ false ]
      | _ ↦ false
    ]
    | _ ↦ false
  ]
  | _ ↦ false
]
