-- ===== src/Server/Threads/Cases.antt =====
-- The branches of a turn of practicum2/server.c: what holds of each outcome holds of `turn`.
use cs5600_computer_system.Common.{
  ◌≡◌, refl, Bool, true, false, Option, none, some, [], ◌∷◌, if◌then◌else◌, ◌==◌, leb, length, take,
  Bool-cases, inl, inr,
}
use cs5600_computer_system.Server.{Bytes, Os, buf_size}
use cs5600_computer_system.Server.Permissions.{
  get_file_permission, set_file_permission, parse_perm, is_read_write,
}
use cs5600_computer_system.Server.Threads.{
  Ino, put, lock_sh, lock_ex, System, Pc, write_start, write_set, write_check, write_open,
  write_lock, write_recv, write_data, write_unlock, get_open, get_lock, get_read, get_unlock,
  rm_check, rm_open, rm_lock, rm_remove, rm_unlock, finished, Turn, name_of, set_entry,
  open_truncated, locked, unlocked, answer, turn, write_turn, check_turn, open_turn, recv_turn,
  received_turn, data_turn, get_turn, sent_file, rm_check_turn, rm_open_turn, remove_turn,
}

-- One field for each branch, with what its guard says of the shared state.
pub record Branches (os : Os) (s : System) (P : Pc → Option Turn → Type 0) : Type 0 where
  pub granted : (r : Bytes) (p : Option Bytes) → P (write_start r p) (some (write_set r p, s, []))
  pub refused : (r : Bytes) (p : Option Bytes) (a : Bytes) → P (write_start r p) (answer s a)
  pub sets :
      (r : Bytes) (p : Option Bytes)
      → P (write_set r p) (
          some
            (write_check r, record s { table = set_file_permission s.table r (parse_perm p) }, []))
  pub may_write :
      (r a : Bytes)
      → is_read_write (get_file_permission s.table r) ≡ true
      → P (write_check r) (some (write_open r, s, a ∷ []))
  pub no_write : (r a : Bytes) → P (write_check r) (answer s a)
  pub opens :
      (r : Bytes)
      → P (write_open r) (
          some
            (write_lock (open_truncated s (name_of s r)).0, (open_truncated s (name_of s r)).1, []))
  pub no_open : (r a : Bytes) → P (write_open r) (answer s a)
  pub locks : (i : Ino) → P (write_lock i) (locked s i (lock_ex (s.locks i)) (write_recv i))
  pub no_lock : (i : Ino) (a : Bytes) → P (write_lock i) (answer s a)
  pub receives : (i : Ino) (b : Bytes) → P (write_recv i) (some (write_data i b, s, []))
  pub no_data : (i : Ino) (a : Bytes) → P (write_recv i) (some (write_unlock i a, s, []))
  pub silent : (i : Ino) → os.recv_returns ≡ false → P (write_recv i) none
  pub writes :
      (i : Ino) (b c a : Bytes)
      → P (write_data i b) (some (write_unlock i a, record s { content = put s.content i c }, []))
  pub write_ends : (i : Ino) (a : Bytes) → P (write_unlock i a) (unlocked s i (a ∷ []))
  pub get_opens : (r : Bytes) (i : Ino) → P (get_open r) (some (get_lock i, s, []))
  pub no_get : (r a : Bytes) → P (get_open r) (answer s a)
  pub get_locks : (i : Ino) → P (get_lock i) (locked s i (lock_sh (s.locks i)) (get_read i))
  pub no_get_lock : (i : Ino) (a : Bytes) → P (get_lock i) (answer s a)
  pub reads : (i : Ino) (b : Bytes) → P (get_read i) (some (get_unlock i b, s, []))
  pub get_ends : (i : Ino) (b : Bytes) → P (get_unlock i b) (unlocked s i (sent_file b))
  pub may_remove :
      (r : Bytes)
      → is_read_write (get_file_permission s.table r) ≡ true
      → P (rm_check r) (some (rm_open r, s, []))
  pub no_remove : (r a : Bytes) → P (rm_check r) (answer s a)
  pub rm_opens : (r : Bytes) (i : Ino) → P (rm_open r) (some (rm_lock i r, s, []))
  pub no_rm_open : (r a : Bytes) → P (rm_open r) (answer s a)
  pub rm_locks :
      (i : Ino) (r : Bytes) → P (rm_lock i r) (locked s i (lock_ex (s.locks i)) (rm_remove i r))
  pub no_rm_lock : (i : Ino) (r a : Bytes) → P (rm_lock i r) (answer s a)
  pub removes :
      (i : Ino) (r a : Bytes)
      → P (rm_remove i r) (some (rm_unlock i a, set_entry s (name_of s r) none, []))
  pub stays : (i : Ino) (r a : Bytes) → P (rm_remove i r) (some (rm_unlock i a, s, []))
  pub rm_ends : (i : Ino) (a : Bytes) → P (rm_unlock i a) (unlocked s i (a ∷ []))
  pub is_done : P finished none

if_known :
    (P : Option Turn → Type 0) (b : Bool) (x y : Option Turn)
    → (b ≡ true → P x)
    → P y
    → P (if b then x else y)
if_known P true x y h k = h refl
if_known P false x y h k = k

module _ (os : Os) (s : System) (P : Pc → Option Turn → Type 0) (c : Branches os s P) where
  recv_by : (i : Ino) (o : Option Bytes) → os.upload ≡ o → P (write_recv i) (received_turn os i s)
  unfolding received_turn
  recv_by i none e = rw (received_turn, e) (c.no_data i _)
  recv_by i (some sent) e =
      rw (received_turn, e)
        (if_known (P (write_recv i)) (length (take buf_size sent) == 0) _ _ (λ h. c.no_data i _)
          (c.receives i _))

  recv_any : (i : Ino) → P (write_recv i) (recv_turn os i s)
  unfolding recv_turn received_turn
  recv_any i = elim (Bool-cases os.recv_returns) [
    | inl returns ↦ rw (recv_turn, returns) (recv_by i os.upload refl)
    | inr waits ↦ rw (recv_turn, waits) (c.silent i waits)
  ]

  get_by :
      (r : Bytes) (e : Option Ino) → s.entries (name_of s r) ≡ e → P (get_open r) (get_turn os r s)
  unfolding get_turn
  get_by r none e = rw (get_turn, e) (c.no_get r _)
  get_by r (some i) e =
      rw (get_turn, e)
        (if_known (P (get_open r)) os.opens _ _ (λ h. c.get_opens r i) (c.no_get r _))

  rm_open_by :
      (r : Bytes) (e : Option Ino)
      → s.entries (name_of s r) ≡ e
      → P (rm_open r) (rm_open_turn os r s)
  unfolding rm_open_turn
  rm_open_by r none e = rw (rm_open_turn, e) (c.no_rm_open r _)
  rm_open_by r (some i) e =
      rw (rm_open_turn, e)
        (if_known (P (rm_open r)) os.opens _ _ (λ h. c.rm_opens r i) (c.no_rm_open r _))

  remove_by :
      (i : Ino) (r : Bytes) (e : Option Ino)
      → s.entries (name_of s r) ≡ e
      → P (rm_remove i r) (remove_turn os i r s)
  unfolding remove_turn
  remove_by i r none e = rw (remove_turn, e) (c.stays i r _)
  remove_by i r (some k) e =
      rw (remove_turn, e)
        (if_known (P (rm_remove i r)) os.removes _ _ (λ h. c.removes i r _) (c.stays i r _))

  pub turn_by : (pc : Pc) → P pc (turn os pc s)
  unfolding turn write_turn check_turn open_turn data_turn rm_check_turn
  turn_by (write_start r p) =
      if_known (P (write_start r p)) (is_read_write (get_file_permission s.table r)) _ _
        (λ h. c.granted r p) (c.refused r p _)
  turn_by (write_set r p) = c.sets r p
  turn_by (write_check r) =
      if_known (P (write_check r)) (is_read_write (get_file_permission s.table r)) _ _
        (c.may_write r _) (c.no_write r _)
  turn_by (write_open r) = if_known (P (write_open r)) os.opens _ _ (λ h. c.opens r) (c.no_open r _)
  turn_by (write_lock i) = if_known (P (write_lock i)) os.locks _ _ (λ h. c.locks i) (c.no_lock i _)
  turn_by (write_recv i) = recv_any i
  turn_by (write_data i b) =
      if_known (P (write_data i b)) (leb (length b) os.written) _ _ (λ h. c.writes i b _ _)
        (c.writes i b _ _)
  turn_by (write_unlock i a) = c.write_ends i a
  turn_by (get_open r) = get_by r (s.entries (name_of s r)) refl
  turn_by (get_lock i) =
      if_known (P (get_lock i)) os.locks _ _ (λ h. c.get_locks i) (c.no_get_lock i _)
  turn_by (get_read i) = c.reads i _
  turn_by (get_unlock i b) = c.get_ends i b
  turn_by (rm_check r) =
      if_known (P (rm_check r)) (is_read_write (get_file_permission s.table r)) _ _ (c.may_remove r)
        (c.no_remove r _)
  turn_by (rm_open r) = rm_open_by r (s.entries (name_of s r)) refl
  turn_by (rm_lock i r) =
      if_known (P (rm_lock i r)) os.locks _ _ (λ h. c.rm_locks i r) (c.no_rm_lock i r _)
  turn_by (rm_remove i r) = remove_by i r (s.entries (name_of s r)) refl
  turn_by (rm_unlock i a) = c.rm_ends i a
  turn_by finished = c.is_done
