-- ===== src/Server/Threads/Whole.antt =====
-- A whole client thread of practicum2/server.c with no other thread, against its model in one piece.
use cs5600_computer_system.Common.{
  true, ℕ, suc, ◌≡◌, refl, Option, none, some, List, [], ◌∷◌, if◌then◌else◌, take, get_elem?, ◌-◌,
  Bool-cases, Option-cases, inl, inr,
}
use cs5600_computer_system.Common.Text.{codes, str_case_eq}
use cs5600_computer_system.Server.{
  Server, Bytes, Os, client_thread, dispatch, handle_words, words, text_of, buf_size, send,
  write_file, handle_write, handle_get, remove_file, handle_rm,
}
use cs5600_computer_system.Server.Permissions.{
  Table, get_file_permission, set_file_permission, parse_perm, is_read_write,
}
use cs5600_computer_system.Server.Threads.Files.{IsValid, Unlocked}
use cs5600_computer_system.Server.Threads.Alone.{
  Same, thread, alone, alone_finished, RunsTo, ends_as, ends_on, ends_step, ends_last,
}
use cs5600_computer_system.Server.Threads.Handlers.{
  view, write_file_ends, get_file_ends, remove_file_ends,
}
use cs5600_computer_system.Server.Threads.Start.{start, new_thread, started, started_words}
use cs5600_computer_system.Server.Threads.{
  System, Pc, write_start, write_set, write_check, write_open, get_open, get_lock, rm_check,
  rm_open, rm_lock, finished, name_of, turn, write_turn, check_turn, get_turn, rm_check_turn,
  rm_open_turn,
}

module _ (os : Os) (s : System) (v : IsValid s) (un : Unlocked s)
    (returns : os.recv_returns ≡ true) where
  write_open_ends :
      (remote : Bytes) (table : Table)
      → RunsTo 6 os
          (write_check remote)
          (record s { table = table })
          (if is_read_write (get_file_permission table remote)
            then (
              (write_file os (name_of s remote) (view (record s { table = table }))).0,
              send "OK_READY_TO_RECEIVE" 20
                  ∷ (write_file os (name_of s remote) (view (record s { table = table }))).1,
            )
            else (view (record s { table = table }), send "ERR_FILE_IS_READ_ONLY" 22 ∷ []))
  unfolding turn check_turn
  write_open_ends remote table =
      let s1 = record s { table = table } in
      let v1 : IsValid s1 = record { apart = v.apart; below = v.below } in
      let w = write_file os (name_of s remote) (view s1) in
      elim (Bool-cases (is_read_write (get_file_permission table remote))) [
        | inl may ↦
            ends_as 6 os (write_check remote) s1 (w.0, send "OK_READY_TO_RECEIVE" 20 ∷ w.1) _
              (rw may refl)
              (ends_step 5 os (write_check remote) s1 (write_open remote) s1
                (send "OK_READY_TO_RECEIVE" 20 ∷ []) w.0 w.1 (rw (turn, check_turn, may) refl)
                (write_file_ends os remote s1 v1 un returns))
        | inr no_write ↦
            ends_as 6 os (write_check remote) s1 (view s1, send "ERR_FILE_IS_READ_ONLY" 22 ∷ []) _
              (rw no_write refl)
              (ends_last 5 os (write_check remote) s1 s1 (view s1)
                (send "ERR_FILE_IS_READ_ONLY" 22 ∷ []) (rw (turn, check_turn, no_write) refl)
                (refl, refl, λ q. refl) un)
      ]

  write_ends :
      (remote : Bytes) (perm_str : Option Bytes)
      → RunsTo 8 os (write_start remote perm_str) s (handle_write os remote perm_str (view s))
  unfolding turn write_turn handle_write
  write_ends remote perm_str =
      let table = set_file_permission s.table remote (parse_perm perm_str) in
      elim (Bool-cases (is_read_write (get_file_permission s.table remote))) [
        | inl may ↦
            ends_as 8 os (write_start remote perm_str) s _
              (handle_write os remote perm_str (view s)) (rw (handle_write, may) refl)
              (ends_on 7 os (write_start remote perm_str) s (write_set remote perm_str) s _
                (rw (turn, write_turn, may) refl)
                (ends_on 6 os (write_set remote perm_str) s (write_check remote)
                  (record s { table = table }) _ refl (write_open_ends remote table)))
        | inr no_write ↦
            ends_as 8 os (write_start remote perm_str) s
              (view s, send "ERR_FILE_IS_READ_ONLY" 22 ∷ []) _
              (rw (handle_write, no_write) (rw no_write refl))
              (ends_last 7 os (write_start remote perm_str) s s (view s)
                (send "ERR_FILE_IS_READ_ONLY" 22 ∷ []) (rw (turn, write_turn, no_write) refl)
                (refl, refl, λ q. refl) un)
      ]

  -- An answer after a single turn.
  answer_ends :
      (n : ℕ) (pc : Pc) (a : Bytes)
      → turn os pc s ≡ some (finished, s, a ∷ [])
      → RunsTo (suc n) os pc s (view s, a ∷ [])
  answer_ends n pc a t = ends_last n os pc s s (view s) (a ∷ []) t (refl, refl, λ q. refl) un

  get_ends : (remote : Bytes) → RunsTo 8 os (get_open remote) s (handle_get os remote (view s))
  unfolding turn get_turn handle_get
  get_ends remote = elim (Option-cases (s.entries (name_of s remote))) [
    | inl missing ↦
        ends_as 8 os (get_open remote) s (view s, send "ERR_FILE_NOT_FOUND" 18 ∷ []) _
          (rw (handle_get, missing) refl)
          (answer_ends 7 (get_open remote) (send "ERR_FILE_NOT_FOUND" 18)
            (rw (turn, get_turn, missing) refl))
    | inr (i, found) ↦ elim (Bool-cases os.opens) [
      | inl opens ↦ ends_as 8 os (get_open remote) s _ _ (rw (handle_get, found, opens) refl) (
          ends_on 7 os (get_open remote) s (get_lock i) s _ (rw (turn, get_turn, found, opens) refl)
            (get_file_ends os remote s v un returns i opens))
      | inr fails ↦
          ends_as 8 os (get_open remote) s (view s, send "ERR_FILE_NOT_FOUND" 18 ∷ []) _
            (rw (handle_get, found, fails) refl)
            (answer_ends 7 (get_open remote) (send "ERR_FILE_NOT_FOUND" 18)
              (rw (turn, get_turn, found, fails) refl))
    ]
  ]

  rm_ends : (remote : Bytes) → RunsTo 8 os (rm_check remote) s (handle_rm os remote (view s))
  unfolding turn rm_check_turn rm_open_turn handle_rm remove_file
  rm_ends remote = elim (Bool-cases (is_read_write (get_file_permission s.table remote))) [
    | inl may ↦ elim (Option-cases (s.entries (name_of s remote))) [
      | inl missing ↦
          ends_as 8 os (rm_check remote) s (view s, send "ERR_REMOVE_FAILED" 17 ∷ []) _
            (rw (handle_rm, may) (rw (remove_file, missing) refl))
            (ends_on 7 os (rm_check remote) s (rm_open remote) s _
              (rw (turn, rm_check_turn, may) refl)
              (answer_ends 6 (rm_open remote) (send "ERR_REMOVE_FAILED" 17)
                (rw (turn, rm_open_turn, missing) refl)))
      | inr (i, found) ↦ elim (Bool-cases os.opens) [
        | inl opens ↦
            ends_as 8 os (rm_check remote) s _ _
              (rw (handle_rm, may) (rw (remove_file, found, opens) refl))
              (ends_on 7 os (rm_check remote) s (rm_open remote) s _
                (rw (turn, rm_check_turn, may) refl)
                (ends_on 6 os (rm_open remote) s (rm_lock i remote) s _
                  (rw (turn, rm_open_turn, found, opens) refl)
                  (remove_file_ends os remote s v un returns i remote found)))
        | inr fails ↦
            ends_as 8 os (rm_check remote) s (view s, send "ERR_REMOVE_FAILED" 17 ∷ []) _
              (rw (handle_rm, may) (rw (remove_file, found, fails) refl))
              (ends_on 7 os (rm_check remote) s (rm_open remote) s _
                (rw (turn, rm_check_turn, may) refl)
                (answer_ends 6 (rm_open remote) (send "ERR_REMOVE_FAILED" 17)
                  (rw (turn, rm_open_turn, found, fails) refl)))
      ]
    ]
    | inr no_write ↦
        ends_as 8 os (rm_check remote) s (view s, send "ERR_FILE_IS_READ_ONLY" 22 ∷ []) _
          (rw (handle_rm, no_write) refl)
          (answer_ends 7 (rm_check remote) (send "ERR_FILE_IS_READ_ONLY" 22)
            (rw (turn, rm_check_turn, no_write) refl))
  ]

-- A thread that is alone ends within 8 turns with no lock held, having sent and left what the
-- model in one piece does.
abbrev pub RunsAs : Os → Pc × List Bytes → System → Server × List Bytes → Type 0
RunsAs os (pc, sent) s reply =
    (end : System) × (alone 8 (thread os pc sent) s ≡ (thread os finished reply.1, end))
    × Same end reply.0
    × Unlocked end

module _ (os : Os) (s : System) (v : IsValid s) (un : Unlocked s)
    (returns : os.recv_returns ≡ true) where
  starts : (pc : Pc) (r : Server × List Bytes) → RunsTo 8 os pc s r → RunsAs os (pc, []) s r
  starts pc r h = (h.end, h.runs [], h.same, h.unlocked_end)

  stays : (sent : List Bytes) → RunsAs os (finished, sent) s (view s, sent)
  stays sent = (s, alone_finished 8 os sent s, (refl, refl, λ q. refl), un)

  started_ends :
      (cmd : Bytes) (arg1 arg2 arg3 : Option Bytes)
      → RunsAs os (start (started cmd arg1 arg2 arg3)) s (dispatch os cmd arg1 arg2 arg3 (view s))
  unfolding started dispatch
  started_ends cmd none arg2 arg3 = stays (send "ERR_BAD_ARGS" 12 ∷ [])
  started_ends cmd (some arg1) none arg3 = elim (Bool-cases (str_case_eq cmd (codes "RM"))) [
    | inl rm ↦
        rw rm (starts (rm_check arg1) (handle_rm os arg1 (view s)) (rm_ends os s v un returns arg1))
    | inr other ↦ rw other (stays (send "ERR_BAD_ARGS" 12 ∷ []))
  ]
  started_ends cmd (some arg1) (some arg2) arg3 =
      elim (Bool-cases (str_case_eq cmd (codes "WRITE"))) [
        | inl write ↦ rw write (
            starts (write_start arg2 arg3) (handle_write os arg2 arg3 (view s))
              (write_ends os s v un returns arg2 arg3))
        | inr no_write ↦ elim (Bool-cases (str_case_eq cmd (codes "GET"))) [
          | inl get ↦
              rw (no_write, get)
                (starts (get_open arg1) (handle_get os arg1 (view s))
                  (get_ends os s v un returns arg1))
          | inr no_get ↦ elim (Bool-cases (str_case_eq cmd (codes "RM"))) [
            | inl rm ↦
                rw (no_write, no_get, rm)
                  (starts (rm_check arg1) (handle_rm os arg1 (view s))
                    (rm_ends os s v un returns arg1))
            | inr other ↦ rw (no_write, no_get, other) (stays (send "ERR_BAD_ARGS" 12 ∷ []))
          ]
        ]
      ]

  words_end :
      (ws : List Bytes) → RunsAs os (start (started_words ws)) s (handle_words os ws (view s))
  unfolding started_words handle_words
  words_end [] = stays []
  words_end (cmd ∷ args) = started_ends cmd (get_elem? args 0) (get_elem? args 1) (get_elem? args 2)

-- A client thread that runs with no other, on files with an inode each and no lock held, and whose
-- `recv` of data returns if it comes to that, is done after 8 turns. It has sent what the model of its connection in one piece sends, and left the same
-- table, the same content under every name, and no lock.
pub alone-client_thread :
    (os : Os) (received : Option Bytes) (s : System)
    → IsValid s
    → Unlocked s
    → os.recv_returns ≡ true
    → (end : System) × (alone 8 (new_thread os received) s
        ≡ (thread os finished (client_thread os received (view s)).1, end))
      × Same end (client_thread os received (view s)).0
      × Unlocked end
unfolding new_thread client_thread
alone-client_thread os none s v un returns = stays os s v un returns []
alone-client_thread os (some received) s v un returns =
    words_end os s v un returns (words [] (text_of (take (buf_size - 1) received)))
