-- ===== src/Server/Threads/Tests.antt =====
-- The threads of practicum2/server.c at concrete clients.
use cs5600_computer_system.Common.{
  ℕ, ◌≡◌, ◌≤◌, refl, sym, ◌∙◌, subst, arith, true, false, Option, none, some, List, [], ◌∷◌, ◌++◌,
  ◌⊎◌, if◌then◌else◌, length, drop, Bool-cases, inl, inr,
}
use cs5600_computer_system.Common.Text.{codes, str_eq, eq_of_str_eq}
use cs5600_computer_system.Server.{Os, Bytes, send, full_path, client_thread}
use cs5600_computer_system.Server.Permissions.{read_only, get_file_permission, is_read_write}
use cs5600_computer_system.Server.Threads.Files.{IsValid, Unlocked, files_of}
use cs5600_computer_system.Server.Threads.Alone.{Same, thread, alone}
use cs5600_computer_system.Server.Threads.Handlers.{view}
use cs5600_computer_system.Server.Threads.Whole.{alone-client_thread}
use cs5600_computer_system.Server.Threads.Locks.{readers, writers}
use cs5600_computer_system.Server.Threads.Exclusion.{run_exclusive}
use cs5600_computer_system.Server.Threads.Settle.{AllSettled, total, run_settles}
use cs5600_computer_system.Server.Threads.Unprotected.{swap, changed_path_unprotected}
use cs5600_computer_system.Server.Threads.Guard.{Guarded}
use cs5600_computer_system.Server.Threads.ReadOnly.{Unaliased, EventsApart, run_protects}
use cs5600_computer_system.Server.Threads.Words.{
  Event, turn_of, path_becomes, perm_becomes, run_events,
}
use cs5600_computer_system.Server.Threads.Overlap.{
  WholeUpload, overlapping, uploads_mix, download_empty,
}
use cs5600_computer_system.Server.Threads.Start.{
  new_thread, new_threads, Request, write_request, get_request, rm_request, no_request,
}
use cs5600_computer_system.Server.Threads.{
  Ino, free, System, write_check, write_open, get_open, finished, name_of, run,
}

abbrev os : Os
os = record {
  opens = true;
  locks = true;
  reads = true;
  removes = true;
  recv_returns = true;
  upload = some (codes "hello");
  written = 1024;
}

abbrev short : Os
short = record os { upload = some (codes "ab") }

abbrev notes : Bytes
notes = codes "server_data/notes"

-- One file, at inode 1.
abbrev only_notes : Bytes → Option Ino
only_notes q = if str_eq notes q then some 1 else none

abbrev system : System
system = record {
  table = record { filename = codes "notes"; perm = read_only } ∷ [];
  entries = only_notes;
  content = λ i. codes "old";
  locks = λ i. free;
  fresh = 2;
  resolve = λ q. q;
}

only_one : (q : Bytes) (i : Ino) → only_notes q ≡ some i → (notes ≡ q) × (i ≡ 1)
only_one q i e = elim (Bool-cases (str_eq notes q)) [
  | inl same ↦
      let k : some 1 ≡ some i = subst (λ b. (if b then some 1 else none) ≡ some i) same e in
      (eq_of_str_eq notes q same, cc k)
  | inr other ↦
      let k : none ≡ some i = subst (λ b. (if b then some 1 else none) ≡ some i) other e in
      absurd (cc k)
]

system-IsValid : IsValid system
system-IsValid = record {
  apart = λ f g i e k. sym (only_one f i e).0 ∙ (only_one g i k).0;
  below = λ f i e. omega (arith, (only_one f i e).1);
}

-- A client that stays silent.
abbrev mute : Os
mute = record os { recv_returns = false }

abbrev clients : List (Os × Request)
clients =
    (os, write_request (codes "notes") none)
    ∷ (short, write_request (codes "log") none)
    ∷ (os, get_request (codes "log"))
    ∷ (os, rm_request (codes "log"))
    ∷ (os, no_request [])
    ∷ []

abbrev clients_mute : List (Os × Request)
clients_mute = (mute, write_request (codes "log") none) ∷ clients

abbrev order : List ℕ
order = 1 ∷ 1 ∷ 0 ∷ 1 ∷ 1 ∷ 2 ∷ 3 ∷ 2 ∷ 3 ∷ 1 ∷ 7 ∷ []

alone-client_thread_example :
    (end : System) × (alone 8 (new_thread os (some (codes "WRITE a log"))) system
      ≡ (thread os finished (client_thread os (some (codes "WRITE a log")) (view system)).1, end))
    × Same end (client_thread os (some (codes "WRITE a log")) (view system)).0
    × Unlocked end
alone-client_thread_example =
    alone-client_thread os (some (codes "WRITE a log")) system system-IsValid (λ i. refl) refl

run_exclusive_example :
    (writers 2 (run order (new_threads clients, system)).0 ≡ 0)
    ⊎ ((writers 2 (run order (new_threads clients, system)).0 ≡ 1)
        × (readers 2 (run order (new_threads clients, system)).0 ≡ 0))
run_exclusive_example = run_exclusive clients system order 2 (λ i. refl)

notes_read_only : get_file_permission system.table (codes "notes") ≡ read_only
unfolding get_file_permission
notes_read_only = refl

clients-Unaliased : Unaliased (λ q. q) (codes "notes") clients
unfolding full_path
clients-Unaliased = (λ h. grind arith, (λ h. refl, (tt, (λ h. refl, (tt, tt)))))

-- The word of the second client changes between its check and its `open`.
abbrev events : List Event
events =
    turn_of 1
    ∷ turn_of 0
    ∷ perm_becomes 1 (codes "RO")
    ∷ turn_of 1
    ∷ turn_of 1
    ∷ path_becomes 1 (codes "tmp")
    ∷ turn_of 1
    ∷ turn_of 3
    ∷ turn_of 1
    ∷ []

events-EventsApart : EventsApart (λ q. q) (codes "notes") events
unfolding full_path
events-EventsApart = (refl, tt)

run_protects_example :
    Guarded
      (λ q. q)
      (codes "notes")
      (only_notes (name_of system (codes "notes")))
      (files_of system (name_of system (codes "notes")))
      (run_events events (new_threads clients, system)).1
run_protects_example =
    run_protects (codes "notes") clients system events system-IsValid notes_read_only
      clients-Unaliased events-EventsApart

log_read_write : is_read_write (get_file_permission system.table (codes "log")) ≡ true
unfolding get_file_permission
log_read_write = refl

changed_path_unprotected_example :
    let end =
      (run_events
        (swap (codes "notes"))
        (thread os (write_check (codes "log")) [] ∷ [], system)).1 in
    (files_of end (name_of system (codes "notes")) ≡ some [])
    × (get_file_permission end.table (codes "notes") ≡ read_only)
changed_path_unprotected_example =
    changed_path_unprotected os (codes "log") (codes "notes") system system-IsValid refl
      log_read_write notes_read_only

run_settles_example :
    (more : List ℕ) × AllSettled
      (run more (run_events events (new_threads clients_mute, system))).0
      (run more (run_events events (new_threads clients_mute, system))).0
    × (length more ≤ total (run_events events (new_threads clients_mute, system)).0)
run_settles_example = run_settles clients_mute system events (λ i. refl)

os-WholeUpload : WholeUpload os (codes "hello")
os-WholeUpload = record {
  may_open = refl;
  may_lock = refl;
  returns = refl;
  arrives = refl;
  some_bytes = omega arith;
  one_recv = omega arith;
  whole = omega arith;
}

short-WholeUpload : WholeUpload short (codes "ab")
short-WholeUpload = record {
  may_open = refl;
  may_lock = refl;
  returns = refl;
  arrives = refl;
  some_bytes = omega arith;
  one_recv = omega arith;
  whole = omega arith;
}

-- The file holds "abllo".
uploads_mix_example :
    (end : System) × (run overlapping (
      thread os (write_open (codes "log")) [] ∷ (thread short (write_open (codes "log")) [] ∷ []),
      system,
    )
      ≡ (
        thread os finished (send "WRITE_OK" 8 ∷ [])
            ∷ (thread short finished (send "WRITE_OK" 8 ∷ []) ∷ []),
        end,
      ))
    × (files_of end (name_of system (codes "log"))
        ≡ some (codes "ab" ++ drop (length (codes "ab")) (codes "hello")))
uploads_mix_example =
    uploads_mix os short (codes "hello") (codes "ab") (codes "log") system system-IsValid
      (λ i. refl) os-WholeUpload short-WholeUpload

download_empty_example :
    (end : System) × (run (0 ∷ 1 ∷ 1 ∷ 1 ∷ 1 ∷ 0 ∷ 0 ∷ 0 ∷ 0 ∷ []) (
      thread os (write_open (codes "log")) [] ∷ (thread os (get_open (codes "log")) [] ∷ []),
      system,
    )
      ≡ (
        thread os finished (send "WRITE_OK" 8 ∷ [])
            ∷ (thread os finished (send "OK_SENDING_FILE" 15 ∷ []) ∷ []),
        end,
      ))
    × (files_of end (name_of system (codes "log")) ≡ some (codes "hello"))
download_empty_example =
    download_empty os os (codes "hello") (codes "log") system system-IsValid (λ i. refl)
      os-WholeUpload refl refl
