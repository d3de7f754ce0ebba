-- ===== src/Server/Threads/Changes.antt =====
-- The locks of practicum2/server.c while the words of the threads change.
use cs5600_computer_system.Common.{ℕ, zero, suc, ◌≡◌, refl, subst, arith, none, some, List, [], ◌∷◌}
use cs5600_computer_system.Server.{Bytes}
use cs5600_computer_system.Server.Threads.Locks.{reads_at, writes_at, readers, writers, Agrees}
use cs5600_computer_system.Server.Threads.Exclusion.{Sound, move_at-Sound}
use cs5600_computer_system.Server.Threads.Words.{
  Event, turn_of, path_becomes, perm_becomes, with_path, with_perm, change_at, run_events,
}
use cs5600_computer_system.Server.Threads.{
  Ino, System, Pc, write_start, write_set, write_check, write_open, write_lock, write_recv,
  write_data, write_unlock, get_open, get_lock, get_read, get_unlock, rm_check, rm_open, rm_lock,
  rm_remove, rm_unlock, finished, Thread, move_at,
}

-- The thread holds the locks that it held.
abbrev HoldsAs : Pc → Pc → Type 0
HoldsAs pc' pc = (j : Ino) → (reads_at pc' j ≡ reads_at pc j) × (writes_at pc' j ≡ writes_at pc j)

with_path-HoldsAs : (word : Bytes) (pc : Pc) → HoldsAs (with_path word pc) pc
with_path-HoldsAs word (write_start remote perm_str) j = (refl, refl)
with_path-HoldsAs word (write_set remote perm_str) j = (refl, refl)
with_path-HoldsAs word (write_check remote) j = (refl, refl)
with_path-HoldsAs word (write_open remote) j = (refl, refl)
with_path-HoldsAs word (write_lock i) j = (refl, refl)
with_path-HoldsAs word (write_recv i) j = (refl, refl)
with_path-HoldsAs word (write_data i buf) j = (refl, refl)
with_path-HoldsAs word (write_unlock i a) j = (refl, refl)
with_path-HoldsAs word (get_open remote) j = (refl, refl)
with_path-HoldsAs word (get_lock i) j = (refl, refl)
with_path-HoldsAs word (get_read i) j = (refl, refl)
with_path-HoldsAs word (get_unlock i buf) j = (refl, refl)
with_path-HoldsAs word (rm_check remote) j = (refl, refl)
with_path-HoldsAs word (rm_open remote) j = (refl, refl)
with_path-HoldsAs word (rm_lock i remote) j = (refl, refl)
with_path-HoldsAs word (rm_remove i remote) j = (refl, refl)
with_path-HoldsAs word (rm_unlock i a) j = (refl, refl)
with_path-HoldsAs word finished j = (refl, refl)

with_perm-HoldsAs : (word : Bytes) (pc : Pc) → HoldsAs (with_perm word pc) pc
with_perm-HoldsAs word (write_start remote none) j = (refl, refl)
with_perm-HoldsAs word (write_start remote (some perm)) j = (refl, refl)
with_perm-HoldsAs word (write_set remote none) j = (refl, refl)
with_perm-HoldsAs word (write_set remote (some perm)) j = (refl, refl)
with_perm-HoldsAs word (write_check remote) j = (refl, refl)
with_perm-HoldsAs word (write_open remote) j = (refl, refl)
with_perm-HoldsAs word (write_lock i) j = (refl, refl)
with_perm-HoldsAs word (write_recv i) j = (refl, refl)
with_perm-HoldsAs word (write_data i buf) j = (refl, refl)
with_perm-HoldsAs word (write_unlock i a) j = (refl, refl)
with_perm-HoldsAs word (get_open remote) j = (refl, refl)
with_perm-HoldsAs word (get_lock i) j = (refl, refl)
with_perm-HoldsAs word (get_read i) j = (refl, refl)
with_perm-HoldsAs word (get_unlock i buf) j = (refl, refl)
with_perm-HoldsAs word (rm_check remote) j = (refl, refl)
with_perm-HoldsAs word (rm_open remote) j = (refl, refl)
with_perm-HoldsAs word (rm_lock i remote) j = (refl, refl)
with_perm-HoldsAs word (rm_remove i remote) j = (refl, refl)
with_perm-HoldsAs word (rm_unlock i a) j = (refl, refl)
with_perm-HoldsAs word finished j = (refl, refl)

change_at_holders :
    (f : Pc → Pc) (i : ℕ) (ts : List Thread) (j : Ino)
    → ((pc : Pc) → HoldsAs (f pc) pc)
    → (readers j ts ≡ readers j (change_at f i ts)) × (writers j ts ≡ writers j (change_at f i ts))
change_at_holders f i [] j h = (refl, refl)
change_at_holders f zero (t ∷ ts) j h = (omega (arith, (h t.pc j).0), omega (arith, (h t.pc j).1))
change_at_holders f (suc i) (t ∷ ts) j h =
    let k = change_at_holders f i ts j h in (omega (arith, k.0), omega (arith, k.1))

change_at-Sound :
    (f : Pc → Pc) (i : ℕ) (ts : List Thread) (s : System)
    → ((pc : Pc) → HoldsAs (f pc) pc)
    → Sound ts s
    → Sound (change_at f i ts) s
change_at-Sound f i ts s h so j =
    let k = change_at_holders f i ts j h in
    subst (λ r. Agrees (s.locks j) r (writers j (change_at f i ts))) k.0
      (subst (λ w. Agrees (s.locks j) (readers j ts) w) k.1 (so j))

pub run_events-Sound :
    (events : List Event) (ts : List Thread) (s : System)
    → Sound ts s
    → Sound (run_events events (ts, s)).0 (run_events events (ts, s)).1
run_events-Sound [] ts s h = h
run_events-Sound (turn_of i ∷ events) ts s h =
    run_events-Sound events (move_at i ts s).0 (move_at i ts s).1 (move_at-Sound i ts s h)
run_events-Sound (path_becomes i word ∷ events) ts s h =
    run_events-Sound events (change_at (with_path word) i ts) s
      (change_at-Sound (with_path word) i ts s (with_path-HoldsAs word) h)
run_events-Sound (perm_becomes i word ∷ events) ts s h =
    run_events-Sound events (change_at (with_perm word) i ts) s
      (change_at-Sound (with_perm word) i ts s (with_perm-HoldsAs word) h)
