-- ===== src/Server/Threads/ReadOnly.antt =====
-- A read-only path of practicum2/server.c through whole runs of the threads.
use cs5600_computer_system.Common.{
  false, ℕ, zero, suc, ◌≡◌, refl, Option, none, some, List, [], ◌∷◌,
}
use cs5600_computer_system.Common.Text.{str_eq}
use cs5600_computer_system.Server.{Bytes, Os, full_path}
use cs5600_computer_system.Server.Permissions.{read_only, get_file_permission}
use cs5600_computer_system.Server.Protect.{Apart}
use cs5600_computer_system.Server.Threads.Files.{IsValid, files_of}
use cs5600_computer_system.Server.Threads.Guard.{Guarded, Safe, SafeTurn, turn-SafeTurn}
use cs5600_computer_system.Server.Threads.Start.{
  new_threads, Request, write_request, get_request, rm_request, no_request, start,
}
use cs5600_computer_system.Server.Threads.Words.{
  Event, turn_of, path_becomes, perm_becomes, with_path, with_perm, change_at, run_events,
}
use cs5600_computer_system.Server.Threads.{
  Ino, System, Pc, write_start, write_set, write_check, write_open, write_lock, write_recv,
  write_data, write_unlock, get_open, get_lock, get_read, get_unlock, rm_check, rm_open, rm_lock,
  rm_remove, rm_unlock, finished, Turn, name_of, turn, Thread, moved, move_at,
}

-- The path that is written or removed is the path `p` itself, or that of another file.
abbrev pub RequestApart : (Bytes → Bytes) → Bytes → Request → Type 0
RequestApart resolve p (write_request remote perm_str) = Apart resolve p remote
RequestApart resolve p (get_request remote) = Unit {0}
RequestApart resolve p (rm_request remote) = Apart resolve p remote
RequestApart resolve p (no_request answers) = Unit {0}

abbrev pub Unaliased : (Bytes → Bytes) → Bytes → List (Os × Request) → Type 0
Unaliased resolve p [] = Unit {0}
Unaliased resolve p ((os, request) ∷ clients) =
    RequestApart resolve p request × Unaliased resolve p clients

abbrev pub OtherFile : (Bytes → Bytes) → Bytes → Bytes → Type 0
OtherFile resolve p word = (str_eq (resolve (full_path word)) (resolve (full_path p)) ≡ false)

-- No path changes into one of the file that `p` names.
abbrev pub EventsApart : (Bytes → Bytes) → Bytes → List Event → Type 0
EventsApart resolve p [] = Unit {0}
EventsApart resolve p (turn_of i ∷ events) = EventsApart resolve p events
EventsApart resolve p (path_becomes i word ∷ events) =
    OtherFile resolve p word × EventsApart resolve p events
EventsApart resolve p (perm_becomes i word ∷ events) = EventsApart resolve p events

module _ (resolve : Bytes → Bytes) (p : Bytes) (entry : Option Ino) (content : Option Bytes) where
  abbrev IsSafe : Pc → Type 0
  IsSafe pc = Safe resolve p entry content pc

  abbrev Guards : System → Type 0
  Guards s = Guarded resolve p entry content s

  abbrev AllSafe : List Thread → Type 0
  AllSafe [] = Unit {0}
  AllSafe (t ∷ ts) = IsSafe t.pc × AllSafe ts

  moved-Safe :
      (t : Thread) (s : System) (o : Option Turn)
      → SafeTurn resolve p entry content t.pc o
      → Guards s
      → IsSafe t.pc
      → Guards (moved t s o).1 × IsSafe (moved t s o).0.pc
  moved-Safe t s none h g a = (g, a)
  moved-Safe t s (some (pc, s', out)) h g a = h a

  move_at-Safe :
      (i : ℕ) (ts : List Thread) (s : System)
      → Guards s
      → AllSafe ts
      → Guards (move_at i ts s).1 × AllSafe (move_at i ts s).0
  move_at-Safe i [] s g a = (g, tt)
  move_at-Safe zero (t ∷ ts) s g a =
      let m =
        moved-Safe t s (turn t.os t.pc s) (turn-SafeTurn resolve p entry content t.os t.pc s g) g
          a.0 in
      (m.0, (m.1, a.1))
  move_at-Safe (suc i) (t ∷ ts) s g a = let m = move_at-Safe i ts s g a.1 in (m.0, (a.0, m.1))

  with_path-Safe :
      (word : Bytes) (pc : Pc) → OtherFile resolve p word → IsSafe pc → IsSafe (with_path word pc)
  with_path-Safe word (write_start remote perm_str) o a = λ h. o
  with_path-Safe word (write_set remote perm_str) o a = λ h. o
  with_path-Safe word (write_check remote) o a = λ h. o
  with_path-Safe word (write_open remote) o a = o
  with_path-Safe word (write_lock i) o a = a
  with_path-Safe word (write_recv i) o a = a
  with_path-Safe word (write_data i buf) o a = a
  with_path-Safe word (write_unlock i b) o a = a
  with_path-Safe word (get_open remote) o a = tt
  with_path-Safe word (get_lock i) o a = tt
  with_path-Safe word (get_read i) o a = tt
  with_path-Safe word (get_unlock i buf) o a = tt
  with_path-Safe word (rm_check remote) o a = λ h. o
  with_path-Safe word (rm_open remote) o a = o
  with_path-Safe word (rm_lock i remote) o a = a
  with_path-Safe word (rm_remove i remote) o a = a
  with_path-Safe word (rm_unlock i b) o a = tt
  with_path-Safe word finished o a = tt

  with_perm-Safe : (word : Bytes) (pc : Pc) → IsSafe pc → IsSafe (with_perm word pc)
  with_perm-Safe word (write_start remote none) a = a
  with_perm-Safe word (write_start remote (some perm)) a = a
  with_perm-Safe word (write_set remote none) a = a
  with_perm-Safe word (write_set remote (some perm)) a = a
  with_perm-Safe word (write_check remote) a = a
  with_perm-Safe word (write_open remote) a = a
  with_perm-Safe word (write_lock i) a = a
  with_perm-Safe word (write_recv i) a = a
  with_perm-Safe word (write_data i buf) a = a
  with_perm-Safe word (write_unlock i b) a = a
  with_perm-Safe word (get_open remote) a = tt
  with_perm-Safe word (get_lock i) a = tt
  with_perm-Safe word (get_read i) a = tt
  with_perm-Safe word (get_unlock i buf) a = tt
  with_perm-Safe word (rm_check remote) a = a
  with_perm-Safe word (rm_open remote) a = a
  with_perm-Safe word (rm_lock i remote) a = a
  with_perm-Safe word (rm_remove i remote) a = a
  with_perm-Safe word (rm_unlock i b) a = tt
  with_perm-Safe word finished a = tt

  change_at-Safe :
      (f : Pc → Pc) (i : ℕ) (ts : List Thread)
      → ((pc : Pc) → IsSafe pc → IsSafe (f pc))
      → AllSafe ts
      → AllSafe (change_at f i ts)
  change_at-Safe f i [] h a = tt
  change_at-Safe f zero (t ∷ ts) h a = (h t.pc a.0, a.1)
  change_at-Safe f (suc i) (t ∷ ts) h a = (a.0, change_at-Safe f i ts h a.1)

  run_events-Safe :
      (events : List Event) (ts : List Thread) (s : System)
      → EventsApart resolve p events
      → Guards s
      → AllSafe ts
      → Guards (run_events events (ts, s)).1
  run_events-Safe [] ts s e g a = g
  run_events-Safe (turn_of i ∷ events) ts s e g a =
      let m = move_at-Safe i ts s g a in
      run_events-Safe events (move_at i ts s).0 (move_at i ts s).1 e m.0 m.1
  run_events-Safe (path_becomes i word ∷ events) ts s e g a =
      run_events-Safe events (change_at (with_path word) i ts) s e.1 g
        (change_at-Safe (with_path word) i ts (λ pc. with_path-Safe word pc e.0) a)
  run_events-Safe (perm_becomes i word ∷ events) ts s e g a =
      run_events-Safe events (change_at (with_perm word) i ts) s e g
        (change_at-Safe (with_perm word) i ts (with_perm-Safe word) a)

  start-Safe : (request : Request) → RequestApart resolve p request → IsSafe (start request).0
  start-Safe (write_request remote perm_str) h = h
  start-Safe (get_request remote) h = tt
  start-Safe (rm_request remote) h = h
  start-Safe (no_request answers) h = tt

  new_threads-Safe :
      (clients : List (Os × Request)) → Unaliased resolve p clients → AllSafe (new_threads clients)
  new_threads-Safe [] h = tt
  new_threads-Safe ((os, request) ∷ clients) h =
      (start-Safe request h.0, new_threads-Safe clients h.1)

-- Once a path is recorded as read-only, no turns of any new threads, in any order, change its
-- permission, the inode of its file or the content, whatever request `strtok` made each start with,
-- whatever the words in use change into between the turns, and however the system calls turn out, as
-- long as each file has an inode of its own, no path that a request writes or removes is another path
-- of the same file, and no path in use changes into one of that file.
pub run_protects :
    (p : Bytes) (clients : List (Os × Request)) (s : System) (events : List Event)
    → IsValid s
    → get_file_permission s.table p ≡ read_only
    → Unaliased s.resolve p clients
    → EventsApart s.resolve p events
    → Guarded s.resolve p
        (s.entries (name_of s p))
        (files_of s (name_of s p))
        (run_events events (new_threads clients, s)).1
run_protects p clients s events v ro no_alias apart =
    let entry = s.entries (name_of s p) in
    let content = files_of s (name_of s p) in
    run_events-Safe s.resolve p entry content events (new_threads clients) s apart
      (record {
        protected = ro;
        resolves = refl;
        entry_kept = refl;
        content_kept = refl;
        valid = v;
      })
      (new_threads-Safe s.resolve p entry content clients no_alias)
