-- ===== src/Server/Threads/Handlers.antt =====
-- The handlers of practicum2/server.c, run turn by turn with no other thread.
use cs5600_computer_system.Common.{
  ◌≡◌, refl, true, none, some, List, [], ◌∷◌, if◌then◌else◌, ltb, length, take, Bool-cases, inl,
  inr,
}
use cs5600_computer_system.Server.{
  Server, Bytes, Os, buf_size, send, receive, write_file, send_file, update,
}
use cs5600_computer_system.Server.Threads.Files.{
  IsValid, Unlocked, files_of, files_removed, Opened, open_truncated-Opened,
}
use cs5600_computer_system.Server.Threads.Alone.{
  Same, RunsTo, ends_as, ends_on, ends_last, ends_unlock, with_lock,
}
use cs5600_computer_system.Server.Threads.Upload.{receive_ends}
use cs5600_computer_system.Server.Threads.{
  Ino, shared, exclusive, lock_sh, lock_ex, unlock, System, write_open, write_lock, write_recv,
  get_lock, get_read, get_unlock, rm_lock, rm_remove, rm_unlock, name_of, set_entry, open_truncated,
  turn, open_turn, sent_file, remove_turn,
}

-- What the handlers see of the system.
abbrev pub view : System → Server
view s = record { table = s.table; files = files_of s; resolve = s.resolve }

open-Same :
    (s s' : System) (file : Bytes) (i : Ino)
    → Opened s file i s'
    → Same s' (record (view s) { files = update (files_of s) file (some []) })
open-Same s s' file i o = (o.table, o.resolve, o.files)

send_file_sent :
    (os : Os) (content : Bytes) (srv : Server)
    → send_file os content srv ≡ (srv, sent_file (if os.reads then take buf_size content else []))
unfolding send_file sent_file
send_file_sent os content srv =
    let buf = if os.reads then take buf_size content else [] in
    elim (Bool-cases (ltb 0 (length buf))) [
      | inl more ↦ rw (send_file, sent_file, more) refl
      | inr empty ↦ rw (send_file, sent_file, empty) refl
    ]

-- The handlers once the permission is granted.
module _ (os : Os) (remote : Bytes) (s : System) (v : IsValid s) (un : Unlocked s)
    (returns : os.recv_returns ≡ true) where
  pub write_file_ends :
      RunsTo 5 os (write_open remote) s (write_file os (name_of s remote) (view s))
  unfolding turn open_turn write_file lock_ex
  write_file_ends =
      let file = name_of s remote in
      let i = (open_truncated s file).0 in
      let s1 = (open_truncated s file).1 in
      let o = open_truncated-Opened s file v in
      let srv1 = record (view s) { files = update (files_of s) file (some []) } in
      let same1 = open-Same s s1 file i o in
      let un1 = o.no_lock un in
      let goal = write_file os file (view s) in
      elim (Bool-cases os.opens) [
        | inl opens ↦ elim (Bool-cases os.locks) [
          | inl locks ↦
              ends_as 5 os (write_open remote) s (receive os file srv1) goal
                (rw (write_file, opens, locks) refl)
                (ends_on 4 os (write_open remote) s (write_lock i) s1 (receive os file srv1)
                  (rw (turn, open_turn, opens) refl)
                  (ends_on 3 os (write_lock i) s1 (write_recv i) (with_lock s1 i exclusive)
                    (receive os file srv1) (rw (turn, locks, un1 i) refl)
                    (receive_ends os s1 i file srv1 o.valid o.entry o.empty same1 un1 returns)))
          | inr fails ↦
              let r : Server × List Bytes = (srv1, send "ERR_FLOCK_FAILED" 16 ∷ []) in
              ends_as 5 os (write_open remote) s r goal (rw (write_file, opens, fails) refl) (
                ends_on 4 os (write_open remote) s (write_lock i) s1 r
                  (rw (turn, open_turn, opens) refl)
                  (ends_last 3 os (write_lock i) s1 s1 srv1 r.1 (rw (turn, fails) refl) same1 un1))
        ]
        | inr fails ↦
            ends_as 5 os (write_open remote) s (view s, send "ERR_OPEN" 8 ∷ []) goal
              (rw (write_file, fails) refl)
              (ends_last 4 os (write_open remote) s s (view s) (send "ERR_OPEN" 8 ∷ [])
                (rw (turn, open_turn, fails) refl) (refl, refl, λ q. refl) un)
      ]

  pub get_file_ends :
      (i : Ino)
      → os.opens ≡ true
      → RunsTo 7 os (get_lock i) s (
          if os.locks
          then send_file os (s.content i) (view s)
          else (view s, send "ERR_FLOCK_FAILED" 16 ∷ []))
  unfolding turn lock_sh unlock send_file
  get_file_ends i opens =
      let buf = if os.reads then take buf_size (s.content i) else [] in
      let r : Server × List Bytes = (view s, sent_file buf) in
      let goal : Server × List Bytes =
        if os.locks
        then send_file os (s.content i) (view s)
        else (view s, send "ERR_FLOCK_FAILED" 16 ∷ []) in
      elim (Bool-cases os.locks) [
        | inl locks ↦
            ends_as 7 os (get_lock i) s r goal (rw locks (send_file_sent os (s.content i) (view s)))
              (ends_on 6 os (get_lock i) s (get_read i) (with_lock s i (shared 0)) r
                (rw (turn, locks, un i) refl)
                (ends_on 5 os (get_read i) (with_lock s i (shared 0)) (get_unlock i buf)
                  (with_lock s i (shared 0)) r refl
                  (ends_unlock 4 os (get_unlock i buf) s i (shared 0) (view s) (sent_file buf) refl
                    refl (refl, refl, λ q. refl) un)))
        | inr fails ↦
            ends_as 7 os (get_lock i) s (view s, send "ERR_FLOCK_FAILED" 16 ∷ []) goal
              (rw fails refl)
              (ends_last 6 os (get_lock i) s s (view s) (send "ERR_FLOCK_FAILED" 16 ∷ [])
                (rw (turn, fails) refl) (refl, refl, λ q. refl) un)
      ]

  pub remove_file_ends :
      (i : Ino) (remote : Bytes)
      → s.entries (name_of s remote) ≡ some i
      → RunsTo 6 os (rm_lock i remote) s (
          if os.locks
          then (if os.removes
              then (
                record (view s) { files = update (files_of s) (name_of s remote) none },
                send "RM_OK" 5 ∷ [],
              )
              else (view s, send "ERR_REMOVE_FAILED" 17 ∷ []))
          else (view s, send "ERR_FLOCK_FAILED" 16 ∷ []))
  unfolding turn lock_ex unlock remove_turn
  remove_file_ends i remote e =
      let l = with_lock s i exclusive in
      let s' = set_entry s (name_of s remote) none in
      let srv' = record (view s) { files = update (files_of s) (name_of s remote) none } in
      elim (Bool-cases os.locks) [
        | inl locks ↦ elim (Bool-cases os.removes) [
          | inl removes ↦
              ends_as 6 os (rm_lock i remote) s (srv', send "RM_OK" 5 ∷ []) _
                (rw (locks, removes) refl)
                (ends_on 5 os (rm_lock i remote) s (rm_remove i remote) l _
                  (rw (turn, locks, un i) refl)
                  (ends_on 4 os (rm_remove i remote) l (rm_unlock i (send "RM_OK" 5))
                    (with_lock s' i exclusive) _ (rw (turn, remove_turn, e, removes) refl)
                    (ends_unlock 3 os (rm_unlock i (send "RM_OK" 5)) s' i exclusive srv'
                      (send "RM_OK" 5 ∷ []) refl refl
                      (refl, refl, files_removed s (name_of s remote)) un)))
          | inr stays ↦
              ends_as 6 os (rm_lock i remote) s (view s, send "ERR_REMOVE_FAILED" 17 ∷ []) _
                (rw (locks, stays) refl)
                (ends_on 5 os (rm_lock i remote) s (rm_remove i remote) l _
                  (rw (turn, locks, un i) refl)
                  (ends_on 4 os (rm_remove i remote) l (rm_unlock i (send "ERR_REMOVE_FAILED" 17)) l
                    _ (rw (turn, remove_turn, e, stays) refl)
                    (ends_unlock 3 os (rm_unlock i (send "ERR_REMOVE_FAILED" 17)) s i exclusive
                      (view s) (send "ERR_REMOVE_FAILED" 17 ∷ []) refl refl (refl, refl, λ q. refl)
                      un)))
        ]
        | inr fails ↦
            ends_as 6 os (rm_lock i remote) s (view s, send "ERR_FLOCK_FAILED" 16 ∷ []) _
              (rw fails refl)
              (ends_last 5 os (rm_lock i remote) s s (view s) (send "ERR_FLOCK_FAILED" 16 ∷ [])
                (rw (turn, fails) refl) (refl, refl, λ q. refl) un)
      ]
