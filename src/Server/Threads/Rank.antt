-- ===== src/Server/Threads/Rank.antt =====
-- How far a thread of practicum2/server.c is from its end.
use cs5600_computer_system.Common.{
  ℕ, ◌<◌, ◌≡◌, ◌≢◌, refl, arith, Option, none, some, inl, inr, ◌⊎◌, false,
}
use cs5600_computer_system.Server.{Os}
use cs5600_computer_system.Server.Threads.Cases.{turn_by}
use cs5600_computer_system.Server.Threads.{
  Ino, Lock, free, shared, exclusive, lock_sh, lock_ex, System, Pc, write_start, write_set,
  write_check, write_open, write_lock, write_recv, write_data, write_unlock, get_open, get_lock,
  get_read, get_unlock, rm_check, rm_open, rm_lock, rm_remove, rm_unlock, finished, Turn, locked,
  turn,
}

-- The turns that a thread has left at most.
abbrev pub rank : Pc → ℕ
rank (write_start remote perm_str) = 8
rank (write_set remote perm_str) = 7
rank (write_check remote) = 6
rank (write_open remote) = 5
rank (write_lock i) = 4
rank (write_recv i) = 3
rank (write_data i buf) = 2
rank (write_unlock i a) = 1
rank (get_open remote) = 4
rank (get_lock i) = 3
rank (get_read i) = 2
rank (get_unlock i buf) = 1
rank (rm_check remote) = 5
rank (rm_open remote) = 4
rank (rm_lock i remote) = 3
rank (rm_remove i remote) = 2
rank (rm_unlock i a) = 1
rank finished = 0

-- The lock that a thread is about to take.
abbrev pub lock_of : Pc → Option Ino
lock_of (write_lock i) = some i
lock_of (get_lock i) = some i
lock_of (rm_lock i remote) = some i
lock_of pc = none

-- A thread that is in `recv` for a client that stays silent.
abbrev pub InRecv : Os → Pc → Ino → Type 0
InRecv os pc i = (pc ≡ write_recv i) × (os.recv_returns ≡ false)

-- A turn brings the thread nearer to its end; a thread without one is done, meets a lock, or waits for
-- its client.
abbrev pub Advances : Os → Pc → System → Option Turn → Type 0
Advances os pc s none =
    (pc ≡ finished)
    ⊎ (((i : Ino) × (lock_of pc ≡ some i) × (s.locks i ≢ free)) ⊎ ((i : Ino) × InRecv os pc i))
Advances os pc s (some (pc', s', out)) = rank pc' < rank pc

lock-Advances :
    (os : Os) (pc pc' : Pc) (s : System) (i : Ino) (l : Lock)
    → s.locks i ≡ l
    → lock_of pc ≡ some i
    → rank pc' < rank pc
    → Advances os pc s (locked s i (lock_ex l) pc') × Advances os pc s (locked s i (lock_sh l) pc')
unfolding lock_ex lock_sh
lock-Advances os pc pc' s i free e k h = (h, h)
lock-Advances os pc pc' s i (shared n) e k h = (inr (inl (i, k, λ f. absurd (cc (e, f)))), h)
lock-Advances os pc pc' s i exclusive e k h =
    let met = inr (inl (i, k, λ f. absurd (cc (e, f)))) in (met, met)

pub turn-Advances : (os : Os) (pc : Pc) (s : System) → Advances os pc s (turn os pc s)
turn-Advances os pc s =
    turn_by os s (λ pc o. Advances os pc s o)
      (record {
        granted = λ a b. omega arith;
        refused = λ a b c. omega arith;
        sets = λ a b. omega arith;
        may_write = λ a b c. omega arith;
        no_write = λ a b. omega arith;
        opens = λ a. omega arith;
        no_open = λ a b. omega arith;
        locks = λ i.
            (lock-Advances os (write_lock i) (write_recv i) s i (s.locks i) refl refl
              (omega arith)).0;
        no_lock = λ a b. omega arith;
        receives = λ a b. omega arith;
        no_data = λ a b. omega arith;
        silent = λ i waits. inr (inr (i, (refl, waits)));
        writes = λ a b c d. omega arith;
        write_ends = λ a b. omega arith;
        get_opens = λ a b. omega arith;
        no_get = λ a b. omega arith;
        get_locks = λ i.
            (lock-Advances os (get_lock i) (get_read i) s i (s.locks i) refl refl (omega arith)).1;
        no_get_lock = λ a b. omega arith;
        reads = λ a b. omega arith;
        get_ends = λ a b. omega arith;
        may_remove = λ a b. omega arith;
        no_remove = λ a b. omega arith;
        rm_opens = λ a b. omega arith;
        no_rm_open = λ a b. omega arith;
        rm_locks = λ i r.
            (lock-Advances os (rm_lock i r) (rm_remove i r) s i (s.locks i) refl refl
              (omega arith)).0;
        no_rm_lock = λ a b c. omega arith;
        removes = λ a b c. omega arith;
        stays = λ a b c. omega arith;
        rm_ends = λ a b. omega arith;
        is_done = inl refl;
      })
      pc
