-- ===== src/Server/Threads/Upload.antt =====
-- An upload of practicum2/server.c from the lock on, turn by turn with no other thread.
use cs5600_computer_system.Common.{
  true, none, ℕ, zero, suc, ◌≡◌, refl, ap, ◌∙◌, some, List, [], ◌∷◌, ◌++◌, append-nil,
  if◌then◌else◌, leb, ◌==◌, length, take, drop, Bool-cases, Option-cases, inl, inr,
}
use cs5600_computer_system.Common.Text.{str_eq}
use cs5600_computer_system.Server.{Server, Bytes, Os, buf_size, send, receive, update}
use cs5600_computer_system.Server.Threads.Files.{IsValid, Unlocked, files_of, files_put}
use cs5600_computer_system.Server.Threads.Alone.{
  Same, RunsTo, ends_as, ends_step, ends_unlock, with_lock,
}
use cs5600_computer_system.Server.Threads.{
  Ino, put, exclusive, unlock, System, write_recv, write_data, write_unlock, overwrite, turn,
  recv_turn, received_turn, data_turn,
}

drop_nil : (n : ℕ) → ◌≡◌ {A = Bytes} (drop n []) []
drop_nil zero = refl
drop_nil (suc n) = refl

pub overwrite_empty : (b old : Bytes) → old ≡ [] → overwrite b old ≡ b
overwrite_empty b [] h = ap (λ l. b ++ l) (drop_nil (length b)) ∙ append-nil b
overwrite_empty b (c ∷ old) h = absurd (cc h)

-- What a write on an empty file leaves.
abbrev uploaded : Server → Bytes → Bytes → Server
uploaded srv file b = record srv { files = update srv.files file (some b) }

write-Same :
    (s : System) (i : Ino) (file b : Bytes) (srv : Server)
    → IsValid s
    → s.entries file ≡ some i
    → s.content i ≡ []
    → Same s srv
    → Same
        (record s { content = put s.content i (overwrite b (s.content i)) })
        (uploaded srv file b)
write-Same s i file b srv v e empty (st, sr, sf) = (
  st,
  sr,
  λ q.
      files_put s file i (overwrite b (s.content i)) v e q
      ∙ ap (λ c. if str_eq file q then some c else files_of s q)
          (overwrite_empty b (s.content i) empty)
      ∙ ap (λ r. if str_eq file q then some b else r) (sf q),
)

-- The data, once `recv` returns.
pub recv_turn-returns :
    (os : Os) (i : Ino) (s : System)
    → os.recv_returns ≡ true
    → turn os (write_recv i) s ≡ received_turn os i s
unfolding turn recv_turn
recv_turn-returns os i s returns = ap (λ b. if b then received_turn os i s else none) returns

-- `handle_write` from the data on.
module _ (os : Os) (s : System) (i : Ino) (file : Bytes) (srv : Server) (v : IsValid s)
    (e : s.entries file ≡ some i) (empty : s.content i ≡ []) (same : Same s srv) (un : Unlocked s)
    (returns : os.recv_returns ≡ true) where
  data_ends_by :
      (buf a : Bytes)
      → turn os (write_data i buf) (with_lock s i exclusive)
        ≡ some (
          write_unlock i a,
          with_lock
              (record s {
                content = put s.content i (overwrite (take os.written buf) (s.content i));
              })
              i
              exclusive,
          [],
        )
      → RunsTo 2 os
          (write_data i buf)
          (with_lock s i exclusive)
          (uploaded srv file (take os.written buf), a ∷ [])
  unfolding turn unlock
  data_ends_by buf a t =
      let s' = record s {
        content = put s.content i (overwrite (take os.written buf) (s.content i));
      } in
      let srv' = uploaded srv file (take os.written buf) in
      ends_step 1 os (write_data i buf) (with_lock s i exclusive) (write_unlock i a)
        (with_lock s' i exclusive) [] srv' (a ∷ []) t
        (ends_unlock 0 os (write_unlock i a) s' i exclusive srv' (a ∷ []) refl refl
          (write-Same s i file (take os.written buf) srv v e empty same) un)

  data_ends :
      (buf : Bytes)
      → RunsTo 2 os (write_data i buf) (with_lock s i exclusive) (
          if leb (length buf) os.written
          then (uploaded srv file (take os.written buf), send "WRITE_OK" 8 ∷ [])
          else (uploaded srv file (take os.written buf), send "ERR_WRITE_FAILED" 16 ∷ []))
  unfolding turn data_turn
  data_ends buf = elim (Bool-cases (leb (length buf) os.written)) [
    | inl all ↦ rw all (data_ends_by buf (send "WRITE_OK" 8) (rw (turn, data_turn, all) refl))
    | inr part ↦
        rw part (data_ends_by buf (send "ERR_WRITE_FAILED" 16) (rw (turn, data_turn, part) refl))
  ]

  none_ends :
      turn os (write_recv i) (with_lock s i exclusive)
        ≡ some (write_unlock i (send "ERR_RECV_FILE_DATA" 18), with_lock s i exclusive, [])
      → RunsTo 3 os
          (write_recv i)
          (with_lock s i exclusive)
          (srv, send "ERR_RECV_FILE_DATA" 18 ∷ [])
  unfolding turn unlock
  none_ends t =
      let a = send "ERR_RECV_FILE_DATA" 18 in
      ends_step 2 os (write_recv i) (with_lock s i exclusive) (write_unlock i a)
        (with_lock s i exclusive) [] srv (a ∷ []) t
        (ends_unlock 1 os (write_unlock i a) s i exclusive srv (a ∷ []) refl refl same un)

  some_ends :
      (sent : Bytes)
      → os.upload ≡ some sent
      → RunsTo 3 os (write_recv i) (with_lock s i exclusive) (receive os file srv)
  unfolding turn received_turn receive
  some_ends sent u =
      let buf = take buf_size sent in
      let locked_s = with_lock s i exclusive in
      let reply : Server × List Bytes =
        if leb (length buf) os.written
        then (uploaded srv file (take os.written buf), send "WRITE_OK" 8 ∷ [])
        else (uploaded srv file (take os.written buf), send "ERR_WRITE_FAILED" 16 ∷ []) in
      elim (Bool-cases (length buf == 0)) [
        | inl empty_buf ↦
            ends_as 3 os (write_recv i) locked_s (srv, send "ERR_RECV_FILE_DATA" 18 ∷ [])
              (receive os file srv) (rw (receive, u, empty_buf) refl)
              (none_ends
                (recv_turn-returns os i locked_s returns ∙ rw (received_turn, u, empty_buf) refl))
        | inr full ↦
            ends_as 3 os (write_recv i) locked_s reply (receive os file srv)
              (rw (receive, u, full) refl)
              (ends_step 2 os (write_recv i) locked_s (write_data i buf) locked_s [] reply.0 reply.1
                (recv_turn-returns os i locked_s returns ∙ rw (received_turn, u, full) refl)
                (data_ends buf))
      ]

  pub receive_ends : RunsTo 3 os (write_recv i) (with_lock s i exclusive) (receive os file srv)
  unfolding turn received_turn receive
  receive_ends = elim (Option-cases os.upload) [
    | inl u ↦
        ends_as 3 os (write_recv i) (with_lock s i exclusive)
          (srv, send "ERR_RECV_FILE_DATA" 18 ∷ []) (receive os file srv) (rw (receive, u) refl)
          (none_ends
            (recv_turn-returns os i (with_lock s i exclusive) returns ∙ rw (received_turn, u) refl))
    | inr (sent, u) ↦ some_ends sent u
  ]
