-- ===== src/Server/Threads/Progress.antt =====
-- The threads of practicum2/server.c whose clients all answer.
use cs5600_computer_system.Common.{
  ℕ, zero, suc, ◌≤◌, ◌≡◌, refl, ap, arith, Option, none, some, List, [], ◌∷◌, inl, inr, length,
  true, ◌∙◌,
}
use cs5600_computer_system.Server.{Os}
use cs5600_computer_system.Server.Threads.Files.{Unlocked}
use cs5600_computer_system.Server.Threads.Locks.{readers, writers, Agrees}
use cs5600_computer_system.Server.Threads.Exclusion.{run-Sound, new_threads-Sound}
use cs5600_computer_system.Server.Threads.Start.{new_threads, Request}
use cs5600_computer_system.Server.Threads.{
  Ino, Lock, free, shared, exclusive, System, finished, Turn, turn, Thread, moved, move_at, run,
}
use cs5600_computer_system.Server.Threads.Settle.{
  total, SomeInRecv, Settled, AllSettled, settles_from,
}

abbrev pub AllFinished : List Thread → Type 0
AllFinished [] = Unit {0}
AllFinished (t ∷ ts) = (t.pc ≡ finished) × AllFinished ts

finished_hold :
    (ts : List Thread) (i : Ino) → AllFinished ts → (readers i ts ≡ 0) × (writers i ts ≡ 0)
finished_hold [] i h = (refl, refl)
finished_hold (t ∷ ts) i h =
    let k = finished_hold ts i h.1 in (rw h.0 (omega (arith, k.0)), rw h.0 (omega (arith, k.1)))

free_at : (l : Lock) (r w : ℕ) → (r ≡ 0) × (w ≡ 0) → Agrees l r w → l ≡ free
free_at free r w z a = refl
free_at (shared n) r w z a = absurd (omega (arith, z.0, a.0))
free_at exclusive r w z a = absurd (omega (arith, z.1, a.1))

-- No `recv` waits for a silent client.
abbrev pub AllAnswer : List (Os × Request) → Type 0
AllAnswer [] = Unit {0}
AllAnswer ((os, request) ∷ clients) = (os.recv_returns ≡ true) × AllAnswer clients

abbrev Answering : List Thread → Type 0
Answering [] = Unit {0}
Answering (t ∷ ts) = (t.os.recv_returns ≡ true) × Answering ts

new_threads-Answering :
    (clients : List (Os × Request)) → AllAnswer clients → Answering (new_threads clients)
new_threads-Answering [] h = tt
new_threads-Answering ((os, request) ∷ clients) h = (h.0, new_threads-Answering clients h.1)

moved_os : (t : Thread) (s : System) (o : Option Turn) → (moved t s o).0.os ≡ t.os
moved_os t s none = refl
moved_os t s (some u) = refl

move_at-Answering :
    (k : ℕ) (ts : List Thread) (s : System) → Answering ts → Answering (move_at k ts s).0
move_at-Answering k [] s h = tt
move_at-Answering zero (t ∷ ts) s h =
    (ap (λ os. os.recv_returns) (moved_os t s (turn t.os t.pc s)) ∙ h.0, h.1)
move_at-Answering (suc k) (t ∷ ts) s h = (h.0, move_at-Answering k ts s h.1)

run-Answering :
    (order : List ℕ) (ts : List Thread) (s : System)
    → Answering ts
    → Answering (run order (ts, s)).0
run-Answering [] ts s h = h
run-Answering (k ∷ order) ts s h =
    run-Answering order (move_at k ts s).0 (move_at k ts s).1 (move_at-Answering k ts s h)

none_in_recv : (i : Ino) (ts : List Thread) → Answering ts → ¬ SomeInRecv i ts
none_in_recv i [] h w = w
none_in_recv i (t ∷ ts) h (inl waits) = absurd (cc (h.0, waits.1))
none_in_recv i (t ∷ ts) h (inr w) = none_in_recv i ts h.1 w

Settled-finished :
    (all : List Thread) (t : Thread)
    → Answering all
    → t.os.recv_returns ≡ true
    → Settled all t
    → t.pc ≡ finished
Settled-finished all t h a (inl end) = end
Settled-finished all t h a (inr (inl (i, waits))) = absurd (cc (a, waits.1))
Settled-finished all t h a (inr (inr (i, at, w))) = absurd (none_in_recv i all h w)

AllSettled-AllFinished :
    (all ts : List Thread) → Answering all → Answering ts → AllSettled all ts → AllFinished ts
AllSettled-AllFinished all [] h a st = tt
AllSettled-AllFinished all (t ∷ ts) h a st =
    (Settled-finished all t h a.0 st.0, AllSettled-AllFinished all ts h a.1 st.1)

-- From files with no lock held and with no client that stays silent, whatever requests the threads
-- start with and whatever turns they have had, there are turns, no more than the threads have left,
-- after which every thread is done and no lock is held.
pub run_finishes :
    (clients : List (Os × Request)) (s : System) (order : List ℕ)
    → Unlocked s
    → AllAnswer clients
    → (more : List ℕ) × AllFinished (run more (run order (new_threads clients, s))).0
      × Unlocked (run more (run order (new_threads clients, s))).1
      × (length more ≤ total (run order (new_threads clients, s)).0)
run_finishes clients s order un answer =
    let w = run order (new_threads clients, s) in
    let h = run-Sound order (new_threads clients) s (new_threads-Sound clients s un) in
    let (more, settle, short) = settles_from w.0 w.1 h in
    let end = run more w in
    let a =
      run-Answering more w.0 w.1
        (run-Answering order (new_threads clients) s (new_threads-Answering clients answer)) in
    let done = AllSettled-AllFinished end.0 end.0 a a settle in
    let k = run-Sound more w.0 w.1 h in
    (more, done, λ i. free_at (end.1.locks i) _ _ (finished_hold end.0 i done) (k i), short)
