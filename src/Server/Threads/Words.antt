-- ===== src/Server/Threads/Words.antt =====
-- The words that `strtok` hands the client threads of practicum2/server.c. Its place in the text is
-- shared by all threads, so a word may lie in the buffer of another thread, on that one's stack, and
-- change while the thread uses it. Up to `open` a handler reads its path again in each turn; then the
-- thread has copied it.
use cs5600_computer_system.Common.{ℕ, zero, suc, some, List, [], ◌∷◌}
use cs5600_computer_system.Server.{Bytes}
use cs5600_computer_system.Server.Threads.{
  System, Pc, write_start, write_set, write_check, write_open, get_open, rm_check, rm_open, Thread,
  move_at,
}

-- What happens next: a turn of a thread, or new bytes where its path or its permission lies.
pub data Event : Type 0 where
  turn_of : ℕ → Event
  path_becomes : ℕ → Bytes → Event
  perm_becomes : ℕ → Bytes → Event

abbrev pub with_path : Bytes → Pc → Pc
with_path word (write_start remote perm_str) = write_start word perm_str
with_path word (write_set remote perm_str) = write_set word perm_str
with_path word (write_check remote) = write_check word
with_path word (write_open remote) = write_open word
with_path word (get_open remote) = get_open word
with_path word (rm_check remote) = rm_check word
with_path word (rm_open remote) = rm_open word
with_path word pc = pc

-- A permission that is NULL stays so.
abbrev pub with_perm : Bytes → Pc → Pc
with_perm word (write_start remote (some perm)) = write_start remote (some word)
with_perm word (write_set remote (some perm)) = write_set remote (some word)
with_perm word pc = pc

abbrev pub change_at : (Pc → Pc) → ℕ → List Thread → List Thread
change_at f i [] = []
change_at f zero (t ∷ ts) = record t { pc = f t.pc } ∷ ts
change_at f (suc i) (t ∷ ts) = t ∷ change_at f i ts

abbrev pub happens : Event → List Thread → System → List Thread × System
happens (turn_of i) ts s = move_at i ts s
happens (path_becomes i word) ts s = (change_at (with_path word) i ts, s)
happens (perm_becomes i word) ts s = (change_at (with_perm word) i ts, s)

-- Turns in any order, with changes of words between them.
abbrev pub run_events : List Event → List Thread × System → List Thread × System
run_events [] w = w
run_events (event ∷ events) w = run_events events (happens event w.0 w.1)
