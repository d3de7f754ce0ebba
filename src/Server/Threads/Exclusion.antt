-- ===== src/Server/Threads/Exclusion.antt =====
-- Mutual exclusion of the threads of practicum2/server.c by `flock`.
use cs5600_computer_system.Common.{
  ℕ, zero, suc, ◌+◌, ◌≡◌, refl, sym, subst, arith, Option, none, some, List, [], ◌∷◌, inl, inr, ◌⊎◌,
}
use cs5600_computer_system.Server.{Bytes, Os}
use cs5600_computer_system.Server.Threads.Files.{Unlocked}
use cs5600_computer_system.Server.Threads.Cases.{turn_by}
use cs5600_computer_system.Server.Threads.Locks.{
  reads_at, writes_at, readers, writers, Agrees, KeepsTurn, got_ex, got_sh, gave_ex, gave_sh,
}
use cs5600_computer_system.Server.Threads.Start.{
  new_threads, Request, write_request, get_request, rm_request, no_request, start,
}
use cs5600_computer_system.Server.Threads.{
  Ino, Lock, free, shared, exclusive, System, Pc, write_lock, write_recv, write_unlock, get_lock,
  get_read, get_unlock, rm_lock, rm_remove, rm_unlock, finished, Turn, name_of, open_truncated,
  turn, Thread, moved, move_at, run,
}

open_locks :
    (s : System) (file : Bytes) (e : Option Ino)
    → s.entries file ≡ e
    → (open_truncated s file).1.locks ≡ s.locks
unfolding open_truncated
open_locks s file none h = rw (open_truncated, h) refl
open_locks s file (some i) h = rw (open_truncated, h) refl

-- Every turn keeps the locks in step with their holders.
turn-KeepsTurn : (os : Os) (pc : Pc) (s : System) → KeepsTurn pc s (turn os pc s)
turn-KeepsTurn os pc s =
    turn_by os s (λ pc o. KeepsTurn pc s o)
      (record {
        granted = λ a b j r w h. h;
        refused = λ a b c j r w h. h;
        sets = λ a b j r w h. h;
        may_write = λ a b c j r w h. h;
        no_write = λ a b j r w h. h;
        opens = λ a j r w h.
            subst (λ l. Agrees (l j) (0 + r) (0 + w))
              (sym (open_locks s (name_of s a) (s.entries (name_of s a)) refl)) h;
        no_open = λ a b j r w h. h;
        locks = λ i.
            got_ex (write_lock i) (write_recv i) s i (s.locks i) refl (λ j. (refl, refl))
              (λ j. (refl, refl));
        no_lock = λ a b j r w h. h;
        receives = λ a b j r w h. h;
        no_data = λ a b j r w h. h;
        silent = λ i h. tt;
        writes = λ a b c d j r w h. h;
        write_ends = λ i a.
            gave_ex (write_unlock i a) finished s i (s.locks i) refl (λ j. (refl, refl))
              (λ j. (refl, refl));
        get_opens = λ a b j r w h. h;
        no_get = λ a b j r w h. h;
        get_locks = λ i.
            got_sh (get_lock i) (get_read i) s i (s.locks i) refl (λ j. (refl, refl))
              (λ j. (refl, refl));
        no_get_lock = λ a b j r w h. h;
        reads = λ a b j r w h. h;
        get_ends = λ i b.
            gave_sh (get_unlock i b) finished s i (s.locks i) refl (λ j. (refl, refl))
              (λ j. (refl, refl));
        may_remove = λ a b j r w h. h;
        no_remove = λ a b j r w h. h;
        rm_opens = λ a b j r w h. h;
        no_rm_open = λ a b j r w h. h;
        rm_locks = λ i r.
            got_ex (rm_lock i r) (rm_remove i r) s i (s.locks i) refl (λ j. (refl, refl))
              (λ j. (refl, refl));
        no_rm_lock = λ a b c j r w h. h;
        removes = λ a b c j r w h. h;
        stays = λ a b c j r w h. h;
        rm_ends = λ i a.
            gave_ex (rm_unlock i a) finished s i (s.locks i) refl (λ j. (refl, refl))
              (λ j. (refl, refl));
        is_done = tt;
      })
      pc

-- The locks say who holds them, `r` and `w` being holders elsewhere.
abbrev Beside : (Ino → ℕ) → (Ino → ℕ) → List Thread → System → Type 0
Beside r w ts s = (j : Ino) → Agrees (s.locks j) (r j + readers j ts) (w j + writers j ts)

abbrev pub Sound : List Thread → System → Type 0
Sound ts s = (j : Ino) → Agrees (s.locks j) (readers j ts) (writers j ts)

reorder-Agrees : (l : Lock) (r r' w w' : ℕ) → r ≡ r' → w ≡ w' → Agrees l r w → Agrees l r' w'
reorder-Agrees l r r' w w' e f a = subst (λ r. Agrees l r w') e (subst (λ w. Agrees l r w) f a)

moved-Beside :
    (r w : Ino → ℕ) (t : Thread) (ts : List Thread) (s : System) (o : Option Turn)
    → KeepsTurn t.pc s o
    → Beside r w (t ∷ ts) s
    → Beside r w ((moved t s o).0 ∷ ts) (moved t s o).1
moved-Beside r w t ts s none k b = b
moved-Beside r w t ts s (some (pc, s', out)) k b = λ j.
    let a =
      reorder-Agrees (s.locks j) (r j + (reads_at t.pc j + readers j ts))
        (reads_at t.pc j + (r j + readers j ts)) (w j + (writes_at t.pc j + writers j ts))
        (writes_at t.pc j + (w j + writers j ts)) (omega arith) (omega arith) (b j) in
    reorder-Agrees (s'.locks j) (reads_at pc j + (r j + readers j ts))
      (r j + (reads_at pc j + readers j ts)) (writes_at pc j + (w j + writers j ts))
      (w j + (writes_at pc j + writers j ts)) (omega arith) (omega arith)
      (k j (r j + readers j ts) (w j + writers j ts) a)

move_at-Beside :
    (i : ℕ) (r w : Ino → ℕ) (ts : List Thread) (s : System)
    → Beside r w ts s
    → Beside r w (move_at i ts s).0 (move_at i ts s).1
move_at-Beside i r w [] s b = b
move_at-Beside zero r w (t ∷ ts) s b =
    moved-Beside r w t ts s (turn t.os t.pc s) (turn-KeepsTurn t.os t.pc s) b
move_at-Beside (suc i) r w (t ∷ ts) s b =
    let m = move_at i ts s in
    let inner =
      move_at-Beside i (λ j. r j + reads_at t.pc j) (λ j. w j + writes_at t.pc j) ts s
        (λ j.
          reorder-Agrees (s.locks j) (r j + (reads_at t.pc j + readers j ts))
            (r j + reads_at t.pc j + readers j ts) (w j + (writes_at t.pc j + writers j ts))
            (w j + writes_at t.pc j + writers j ts) (omega arith) (omega arith) (b j)) in
    λ j.
      reorder-Agrees (m.1.locks j) (r j + reads_at t.pc j + readers j m.0)
        (r j + (reads_at t.pc j + readers j m.0)) (w j + writes_at t.pc j + writers j m.0)
        (w j + (writes_at t.pc j + writers j m.0)) (omega arith) (omega arith) (inner j)

pub move_at-Sound :
    (i : ℕ) (ts : List Thread) (s : System)
    → Sound ts s
    → Sound (move_at i ts s).0 (move_at i ts s).1
move_at-Sound i ts s h =
    let m = move_at i ts s in
    let b =
      move_at-Beside i (λ j. 0) (λ j. 0) ts s
        (λ j.
          reorder-Agrees (s.locks j) (readers j ts) (0 + readers j ts) (writers j ts)
            (0 + writers j ts) (omega arith) (omega arith) (h j)) in
    λ j.
      reorder-Agrees (m.1.locks j) (0 + readers j m.0) (readers j m.0) (0 + writers j m.0)
        (writers j m.0) (omega arith) (omega arith) (b j)

pub run-Sound :
    (order : List ℕ) (ts : List Thread) (s : System)
    → Sound ts s
    → Sound (run order (ts, s)).0 (run order (ts, s)).1
run-Sound [] ts s h = h
run-Sound (i ∷ order) ts s h =
    run-Sound order (move_at i ts s).0 (move_at i ts s).1 (move_at-Sound i ts s h)

new_holds :
    (request : Request) (j : Ino)
    → (reads_at (start request).0 j ≡ 0) × (writes_at (start request).0 j ≡ 0)
new_holds (write_request remote perm_str) j = (refl, refl)
new_holds (get_request remote) j = (refl, refl)
new_holds (rm_request remote) j = (refl, refl)
new_holds (no_request answers) j = (refl, refl)

new_threads_hold :
    (clients : List (Os × Request)) (j : Ino)
    → (readers j (new_threads clients) ≡ 0) × (writers j (new_threads clients) ≡ 0)
new_threads_hold [] j = (refl, refl)
new_threads_hold ((os, request) ∷ clients) j =
    let h = new_holds request j in
    let k = new_threads_hold clients j in (omega (arith, h.0, k.0), omega (arith, h.1, k.1))

pub new_threads-Sound :
    (clients : List (Os × Request)) (s : System) → Unlocked s → Sound (new_threads clients) s
new_threads-Sound clients s un j =
    subst (λ l. Agrees l (readers j (new_threads clients)) (writers j (new_threads clients)))
      (sym (un j)) (new_threads_hold clients j)

alone_or_none : (l : Lock) (r w : ℕ) → Agrees l r w → (w ≡ 0) ⊎ ((w ≡ 1) × (r ≡ 0))
alone_or_none free r w a = inl a.1
alone_or_none (shared n) r w a = inl a.1
alone_or_none exclusive r w a = inr (a.1, a.0)

-- From files with no lock held, whatever requests the threads start with, and in every order of
-- turns, at most one client stands between the
-- exclusive `flock` of a WRITE or RM on a file and the unlocking, and no GET holds that file meanwhile.
pub run_exclusive :
    (clients : List (Os × Request)) (s : System) (order : List ℕ) (i : Ino)
    → Unlocked s
    → (writers i (run order (new_threads clients, s)).0 ≡ 0)
      ⊎ ((writers i (run order (new_threads clients, s)).0 ≡ 1)
          × (readers i (run order (new_threads clients, s)).0 ≡ 0))
run_exclusive clients s order i un =
    let end = run order (new_threads clients, s) in
    alone_or_none (end.1.locks i) (readers i end.0) (writers i end.0)
      (run-Sound order (new_threads clients) s (new_threads-Sound clients s un) i)
