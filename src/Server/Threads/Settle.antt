-- ===== src/Server/Threads/Settle.antt =====
-- Where the threads of practicum2/server.c come to rest: who may still wait, and for what.
use cs5600_computer_system.Common.{
  ℕ, zero, suc, ◌+◌, ◌<◌, ◌≤◌, ◌≡◌, ◌≢◌, dec_lt, refl, ap, arith, Option, none, some, List, [], ◌∷◌,
  inl, inr, ◌⊎◌, length, false, ◌==◌, Bool-cases, eq_of_==, subst,
}
use cs5600_computer_system.Server.{Os}
use cs5600_computer_system.Server.Threads.Files.{Unlocked}
use cs5600_computer_system.Server.Threads.Locks.{reads_at, writes_at, readers, writers, Agrees, one}
use cs5600_computer_system.Server.Threads.Cases.{turn_by}
use cs5600_computer_system.Server.Threads.Rank.{rank, Advances, turn-Advances, lock_of, InRecv}
use cs5600_computer_system.Server.Threads.Exclusion.{Sound, run-Sound, new_threads-Sound}
use cs5600_computer_system.Server.Threads.Changes.{run_events-Sound}
use cs5600_computer_system.Server.Threads.Words.{Event, run_events}
use cs5600_computer_system.Server.Threads.Start.{new_threads, Request}
use cs5600_computer_system.Server.Threads.{
  Ino, Lock, free, shared, exclusive, System, write_recv, finished, Turn, turn, Thread, moved,
  move_at, run,
}

here_if : (i j : Ino) → 0 < 0 + one (i == j) → i ≡ j
here_if i j h = elim (Bool-cases (i == j)) [
  | inl e ↦ eq_of_== i j e
  | inr e ↦ let k : 0 < 0 + one false = subst (λ b. 0 < 0 + one b) e h in absurd (omega (arith, k))
]

-- A thread that holds a lock has a turn, or waits in `recv`.
holder_moves :
    (t : Thread) (s : System) (i : Ino)
    → 0 < reads_at t.pc i + writes_at t.pc i
    → ((u : Turn) × (turn t.os t.pc s ≡ some u)) ⊎ InRecv t.os t.pc i
holder_moves t s i =
    turn_by t.os s
      (λ pc o. 0 < reads_at pc i + writes_at pc i → ((u : Turn) × (o ≡ some u)) ⊎ InRecv t.os pc i)
      (record {
        granted = λ a b h. absurd (omega (arith, h));
        refused = λ a b c h. absurd (omega (arith, h));
        sets = λ a b h. absurd (omega (arith, h));
        may_write = λ a b c h. absurd (omega (arith, h));
        no_write = λ a b h. absurd (omega (arith, h));
        opens = λ a h. absurd (omega (arith, h));
        no_open = λ a b h. absurd (omega (arith, h));
        locks = λ a h. absurd (omega (arith, h));
        no_lock = λ a b h. absurd (omega (arith, h));
        receives = λ a b h. inl (_, refl);
        no_data = λ a b h. inl (_, refl);
        silent = λ j waits h. inr (ap write_recv (here_if j i h), waits);
        writes = λ a b c d h. inl (_, refl);
        write_ends = λ a b h. inl (_, refl);
        get_opens = λ a b h. absurd (omega (arith, h));
        no_get = λ a b h. absurd (omega (arith, h));
        get_locks = λ a h. absurd (omega (arith, h));
        no_get_lock = λ a b h. absurd (omega (arith, h));
        reads = λ a b h. inl (_, refl);
        get_ends = λ a b h. inl (_, refl);
        may_remove = λ a b h. absurd (omega (arith, h));
        no_remove = λ a b h. absurd (omega (arith, h));
        rm_opens = λ a b h. absurd (omega (arith, h));
        no_rm_open = λ a b h. absurd (omega (arith, h));
        rm_locks = λ a b h. absurd (omega (arith, h));
        no_rm_lock = λ a b c h. absurd (omega (arith, h));
        removes = λ a b c h. inl (_, refl);
        stays = λ a b c h. inl (_, refl);
        rm_ends = λ a b h. inl (_, refl);
        is_done = λ h. absurd (omega (arith, h));
      })
      t.pc

abbrev pub total : List Thread → ℕ
total [] = 0
total (t ∷ ts) = rank t.pc + total ts

-- No thread has a turn.
abbrev Still : List Thread → System → Type 0
Still [] s = Unit {0}
Still (t ∷ ts) s = (turn t.os t.pc s ≡ none) × Still ts s

moved_total :
    (t : Thread) (s : System) (o : Option Turn)
    → Advances t.os t.pc s o
    → (o ≡ none) ⊎ (rank (moved t s o).0.pc < rank t.pc)
moved_total t s none a = inl refl
moved_total t s (some u) a = inr a

one_moves :
    (ts : List Thread) (s : System) → Still ts s ⊎ ((k : ℕ) × (total (move_at k ts s).0 < total ts))
one_moves [] s = inl tt
one_moves (t ∷ ts) s = elim (moved_total t s (turn t.os t.pc s) (turn-Advances t.os t.pc s)) [
  | inr less ↦ inr (0, omega (arith, less))
  | inl e ↦ elim (one_moves ts s) [
    | inl still ↦ inl (e, still)
    | inr (k, less) ↦ inr (suc k, omega (arith, less))
  ]
]

-- From every state, turns that lead to one where no thread has a turn.
reach-Still :
    (fuel : ℕ) (ts : List Thread) (s : System)
    → total ts ≤ fuel
    → (more : List ℕ) × Still (run more (ts, s)).0 (run more (ts, s)).1 × (length more ≤ fuel)
reach-Still zero ts s b = elim (one_moves ts s) [
  | inl still ↦ ([], still, omega arith)
  | inr (k, less) ↦ absurd (omega (arith, b, less))
]
reach-Still (suc fuel) ts s b = elim (one_moves ts s) [
  | inl still ↦ ([], still, omega arith)
  | inr (k, less) ↦
      let m = move_at k ts s in
      let (more, still, short) = reach-Still fuel m.0 m.1 (omega (arith, b, less)) in
      (k ∷ more, still, omega (arith, short))
]

-- One of the threads is in `recv` with the lock of the inode, for a client that stays silent.
abbrev pub SomeInRecv : Ino → List Thread → Type 0
SomeInRecv i [] = ⊥
SomeInRecv i (t ∷ ts) = InRecv t.os t.pc i ⊎ SomeInRecv i ts

-- The thread is done, or is in `recv` for a silent client, or waits for the lock of one that is.
abbrev pub Settled : List Thread → Thread → Type 0
Settled all t =
    (t.pc ≡ finished)
    ⊎ (((i : Ino) × InRecv t.os t.pc i) ⊎ ((i : Ino) × (lock_of t.pc ≡ some i) × SomeInRecv i all))

abbrev pub AllSettled : List Thread → List Thread → Type 0
AllSettled all [] = Unit {0}
AllSettled all (t ∷ ts) = Settled all t × AllSettled all ts

held : (l : Lock) (r w : ℕ) → l ≢ free → Agrees l r w → 0 < r + w
held free r w n a = absurd (n refl)
held (shared k) r w n a = omega (arith, a.0)
held exclusive r w n a = omega (arith, a.1)

-- Where no thread has a turn, who holds a lock is in `recv`.
holder_in_recv :
    (i : Ino) (ts : List Thread) (s : System)
    → Still ts s
    → 0 < readers i ts + writers i ts
    → SomeInRecv i ts
holder_in_recv i [] s st h = absurd (omega (arith, h))
holder_in_recv i (t ∷ ts) s st h = elim (dec_lt 0 (reads_at t.pc i + writes_at t.pc i)) [
  | yes here ↦ elim (holder_moves t s i here) [
    | inl (u, e) ↦ absurd (cc (st.0, e))
    | inr waits ↦ inl waits
  ]
  | no other ↦ inr (holder_in_recv i ts s st.1 (omega (arith, h, other)))
]

Advances-Settled :
    (all : List Thread) (t : Thread) (s : System) (o : Option Turn)
    → ((i : Ino) → s.locks i ≢ free → SomeInRecv i all)
    → Advances t.os t.pc s o
    → o ≡ none
    → Settled all t
Advances-Settled all t s (some u) locks a e = absurd (cc e)
Advances-Settled all t s none locks (inl end) e = inl end
Advances-Settled all t s none locks (inr (inl (i, at, lock))) e = inr (inr (i, at, locks i lock))
Advances-Settled all t s none locks (inr (inr waits)) e = inr (inl waits)

Still-AllSettled :
    (all ts : List Thread) (s : System)
    → ((i : Ino) → s.locks i ≢ free → SomeInRecv i all)
    → Still ts s
    → AllSettled all ts
Still-AllSettled all [] s locks st = tt
Still-AllSettled all (t ∷ ts) s locks st = (
  Advances-Settled all t s (turn t.os t.pc s) locks (turn-Advances t.os t.pc s) st.0,
  Still-AllSettled all ts s locks st.1,
)

pub settles_from :
    (ts : List Thread) (s : System)
    → Sound ts s
    → (more : List ℕ) × AllSettled (run more (ts, s)).0 (run more (ts, s)).0
      × (length more ≤ total ts)
settles_from ts s h =
    let (more, still, short) = reach-Still (total ts) ts s (omega arith) in
    let end = run more (ts, s) in
    let k = run-Sound more ts s h in
    (
      more,
      Still-AllSettled end.0 end.0 end.1
          (λ i lock.
            holder_in_recv i end.0 end.1 still
              (held (end.1.locks i) (readers i end.0) (writers i end.0) lock (k i)))
          still,
      short,
    )

-- From files with no lock held, whatever requests the threads start with, whatever turns they have
-- had and whatever words changed meanwhile, there are turns, no more than the threads have left, after
-- which every thread is done, is in `recv` for a client that stays silent, or waits for a lock that such
-- a thread holds.
pub run_settles :
    (clients : List (Os × Request)) (s : System) (events : List Event)
    → Unlocked s
    → (more : List ℕ) × AllSettled
        (run more (run_events events (new_threads clients, s))).0
        (run more (run_events events (new_threads clients, s))).0
      × (length more ≤ total (run_events events (new_threads clients, s)).0)
run_settles clients s events un =
    let w = run_events events (new_threads clients, s) in
    settles_from w.0 w.1
      (run_events-Sound events (new_threads clients) s (new_threads-Sound clients s un))
