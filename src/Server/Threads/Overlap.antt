-- ===== src/Server/Threads/Overlap.antt =====
-- What overlapping requests of practicum2/server.c leave: `open` empties the file before `flock`.
use cs5600_computer_system.Common.{
  ℕ, suc, ◌<◌, ◌≤◌, ◌≡◌, refl, ap, ◌∙◌, arith, Bool, true, false, some, List, [], ◌∷◌, ◌++◌,
  if◌then◌else◌, leb, ◌==◌, length, take, take_all, drop,
}
use cs5600_computer_system.Server.{Bytes, Os, buf_size, send, full_path}
use cs5600_computer_system.Server.Threads.Files.{
  IsValid, Unlocked, contents, files_of, put_here, open_truncated-Opened,
}
use cs5600_computer_system.Server.Threads.Alone.{thread, alone}
use cs5600_computer_system.Server.Threads.Upload.{overwrite_empty, recv_turn-returns}
use cs5600_computer_system.Server.Threads.{
  Ino, put, free, shared, exclusive, lock_sh, lock_ex, unlock, System, Pc, write_open, write_lock,
  write_recv, write_data, write_unlock, get_open, get_lock, get_read, get_unlock, finished, name_of,
  open_truncated, overwrite, turn, open_turn, received_turn, data_turn, get_turn, sent_file, Thread,
  move_thread, run,
}

-- An upload whose calls work, of so many bytes that one `recv` takes them.
pub record WholeUpload (os : Os) (sent : Bytes) : Type 0 where
  pub may_open : os.opens ≡ true
  pub may_lock : os.locks ≡ true
  pub returns : os.recv_returns ≡ true
  pub arrives : os.upload ≡ some sent
  pub some_bytes : 0 < length sent
  pub one_recv : length sent ≤ buf_size
  pub whole : length sent ≤ os.written

alone_step :
    (n : ℕ) (os : Os) (pc : Pc) (sent : List Bytes) (s : System) (pc' : Pc) (s' : System)
    (out : List Bytes)
    → turn os pc s ≡ some (pc', s', out)
    → alone (suc n) (thread os pc sent) s ≡ alone n (thread os pc' (sent ++ out)) s'
alone_step n os pc sent s pc' s' out e = rw (alone, e) refl

-- The state after the turns from `flock` on.
abbrev written : System → Ino → Bytes → System
written s i b = record s {
  content = put s.content i (overwrite b (s.content i));
  locks = put (put s.locks i exclusive) i (unlock (put s.locks i exclusive i));
}

upload_turns :
    (os : Os) (b : Bytes) (s : System) (i : Ino)
    → WholeUpload os b
    → s.locks i ≡ free
    → alone 4 (thread os (write_lock i) []) s
      ≡ (thread os finished (send "WRITE_OK" 8 ∷ []), written s i b)
unfolding turn received_turn data_turn lock_ex
upload_turns os b s i u e =
    let l = record s { locks = put s.locks i exclusive } in
    let w = record l { content = put s.content i (overwrite b (s.content i)) } in
    let some_bytes : (length b == 0) ≡ false = ground (arith, u.some_bytes) in
    let whole : leb (length b) os.written ≡ true = ground (arith, u.whole) in
    alone_step 3 os (write_lock i) [] s (write_recv i) l [] (rw (turn, u.may_lock, e) refl)
    ∙ alone_step 2 os (write_recv i) [] l (write_data i b) l [] (
        recv_turn-returns os i l u.returns
        ∙ rw (received_turn, u.arrives) (rw (take_all buf_size b u.one_recv, some_bytes) refl))
    ∙ alone_step 1 os (write_data i b) [] l (write_unlock i (send "WRITE_OK" 8)) w []
        (rw (turn, data_turn, whole) (rw (take_all os.written b u.whole) refl))
    ∙ alone_step 0 os (write_unlock i (send "WRITE_OK" 8)) [] w finished (written s i b)
        (send "WRITE_OK" 8 ∷ []) refl

open_step :
    (os : Os) (r : Bytes) (s : System)
    → os.opens ≡ true
    → move_thread (thread os (write_open r) []) s ≡ (
      thread os (write_lock (open_truncated s (name_of s r)).0) [],
      (open_truncated s (name_of s r)).1,
    )
unfolding turn open_turn
open_step os r s h = rw (turn, open_turn, h) refl

open_again :
    (s : System) (file : Bytes) (i : Ino)
    → s.entries file ≡ some i
    → open_truncated s file ≡ (i, record s { content = put s.content i [] })
unfolding open_truncated
open_again s file i e = rw (open_truncated, e) refl

free_after : (s : System) (i : Ino) (b : Bytes) → (written s i b).locks i ≡ free
unfolding unlock
free_after s i b =
    put_here (put s.locks i exclusive) i (unlock (put s.locks i exclusive i))
    ∙ ap unlock (put_here s.locks i exclusive)

-- Two threads: turns of the first, or of the second.
abbrev both : Thread × System → Thread → List Thread × System
both (t, s) u = (t ∷ (u ∷ []), s)

abbrev other : Thread → Thread × System → List Thread × System
other t (u, s) = (t ∷ (u ∷ []), s)

abbrev pub overlapping : List ℕ
overlapping = 0 ∷ 1 ∷ 0 ∷ 0 ∷ 0 ∷ 0 ∷ 1 ∷ 1 ∷ 1 ∷ 1 ∷ []

-- Two uploads to a path that both opened before either has the lock are both answered WRITE_OK, and
-- the file then holds the second, followed by what the first has beyond its length.
pub uploads_mix :
    (os1 os2 : Os) (first second r : Bytes) (s : System)
    → IsValid s
    → Unlocked s
    → WholeUpload os1 first
    → WholeUpload os2 second
    → (end : System) × (run overlapping
          (thread os1 (write_open r) [] ∷ (thread os2 (write_open r) [] ∷ []), s)
        ≡ (
          thread os1 finished (send "WRITE_OK" 8 ∷ [])
              ∷ (thread os2 finished (send "WRITE_OK" 8 ∷ []) ∷ []),
          end,
        ))
      × (files_of end (name_of s r) ≡ some (second ++ drop (length second) first))
uploads_mix os1 os2 first second r s v un u1 u2 =
    let file = name_of s r in
    let i = (open_truncated s file).0 in
    let s1 = (open_truncated s file).1 in
    let o = open_truncated-Opened s file v in
    let s2 = record s1 { content = put s1.content i [] } in
    let s3 = written s2 i first in
    let s4 = written s3 i second in
    let t1 = thread os1 (write_lock i) [] in
    let d1 = thread os1 finished (send "WRITE_OK" 8 ∷ []) in
    let again : open_truncated s1 (name_of s1 r) ≡ (i, s2) =
      ap (λ f. open_truncated s1 (f (full_path r))) o.resolve ∙ open_again s1 file i o.entry in
    let empty : s3.content i ≡ first =
      put_here s2.content i (overwrite first (s2.content i))
      ∙ overwrite_empty first (s2.content i) (put_here s1.content i []) in
    (
      s4,
      ap (λ m. run (1 ∷ 0 ∷ 0 ∷ 0 ∷ 0 ∷ 1 ∷ 1 ∷ 1 ∷ 1 ∷ []) (both m (thread os2 (write_open r) [])))
            (open_step os1 r s u1.may_open)
          ∙ ap (λ m. run (0 ∷ 0 ∷ 0 ∷ 0 ∷ 1 ∷ 1 ∷ 1 ∷ 1 ∷ []) (other t1 m))
              (open_step os2 r s1 u2.may_open)
          ∙ ap
              (λ m.
                run (0 ∷ 0 ∷ 0 ∷ 0 ∷ 1 ∷ 1 ∷ 1 ∷ 1 ∷ [])
                  (t1 ∷ (thread os2 (write_lock m.0) [] ∷ []), m.1))
              again
          ∙ ap (λ m. run (1 ∷ 1 ∷ 1 ∷ 1 ∷ []) (both m (thread os2 (write_lock i) [])))
              (upload_turns os1 first s2 i u1 (o.no_lock un i))
          ∙ ap (λ m. other d1 m) (upload_turns os2 second s3 i u2 (free_after s2 i first)),
      ap (contents s4.content) o.entry
          ∙ ap some (
              put_here s3.content i (overwrite second (s3.content i))
              ∙ ap (λ l. overwrite second l) empty),
    )

-- A download of a file that is empty.
abbrev after_get : System → Ino → System
after_get s i = record s {
  locks = put (put s.locks i (shared 0)) i (unlock (put s.locks i (shared 0) i));
}

nothing_read : (reads : Bool) → ◌≡◌ {A = Bytes} (if reads then take buf_size [] else []) []
nothing_read true = refl
nothing_read false = refl

get_turns :
    (os : Os) (r : Bytes) (s : System) (i : Ino)
    → os.opens ≡ true
    → os.locks ≡ true
    → s.entries (name_of s r) ≡ some i
    → s.content i ≡ []
    → s.locks i ≡ free
    → alone 4 (thread os (get_open r) []) s
      ≡ (thread os finished (send "OK_SENDING_FILE" 15 ∷ []), after_get s i)
unfolding turn get_turn lock_sh sent_file
get_turns os r s i opens locks entry empty unheld =
    let l = record s { locks = put s.locks i (shared 0) } in
    alone_step 3 os (get_open r) [] s (get_lock i) s [] (rw (turn, get_turn, entry, opens) refl)
    ∙ alone_step 2 os (get_lock i) [] s (get_read i) l [] (rw (turn, locks, unheld) refl)
    ∙ alone_step 1 os (get_read i) [] l (get_unlock i []) l [] (
        ap (λ c. some (get_unlock i (if os.reads then take buf_size c else []), l, [])) empty
        ∙ ap (λ c. some (get_unlock i c, l, [])) (nothing_read os.reads))
    ∙ alone_step 0 os (get_unlock i []) [] l finished (after_get s i)
        (send "OK_SENDING_FILE" 15 ∷ []) refl

-- A download that comes between the `open` and the `flock` of an upload sends no byte of the file,
-- neither of what it held before nor of what the upload then leaves, and is answered as a success.
pub download_empty :
    (os1 os2 : Os) (sent r : Bytes) (s : System)
    → IsValid s
    → Unlocked s
    → WholeUpload os1 sent
    → os2.opens ≡ true
    → os2.locks ≡ true
    → (end : System) × (run
          (0 ∷ 1 ∷ 1 ∷ 1 ∷ 1 ∷ 0 ∷ 0 ∷ 0 ∷ 0 ∷ [])
          (thread os1 (write_open r) [] ∷ (thread os2 (get_open r) [] ∷ []), s)
        ≡ (
          thread os1 finished (send "WRITE_OK" 8 ∷ [])
              ∷ (thread os2 finished (send "OK_SENDING_FILE" 15 ∷ []) ∷ []),
          end,
        ))
      × (files_of end (name_of s r) ≡ some sent)
unfolding unlock
download_empty os1 os2 sent r s v un u opens locks =
    let file = name_of s r in
    let i = (open_truncated s file).0 in
    let s1 = (open_truncated s file).1 in
    let o = open_truncated-Opened s file v in
    let s2 = after_get s1 i in
    let s3 = written s2 i sent in
    let d2 = thread os2 finished (send "OK_SENDING_FILE" 15 ∷ []) in
    let entry : s1.entries (name_of s1 r) ≡ some i =
      ap (λ f. s1.entries (f (full_path r))) o.resolve ∙ o.entry in
    let unheld : s2.locks i ≡ free =
      put_here (put s1.locks i (shared 0)) i (unlock (put s1.locks i (shared 0) i))
      ∙ ap unlock (put_here s1.locks i (shared 0)) in
    (
      s3,
      ap (λ m. run (1 ∷ 1 ∷ 1 ∷ 1 ∷ 0 ∷ 0 ∷ 0 ∷ 0 ∷ []) (both m (thread os2 (get_open r) [])))
            (open_step os1 r s u.may_open)
          ∙ ap (λ m. run (0 ∷ 0 ∷ 0 ∷ 0 ∷ []) (other (thread os1 (write_lock i) []) m))
              (get_turns os2 r s1 i opens locks entry o.empty (o.no_lock un i))
          ∙ ap (λ m. both m d2) (upload_turns os1 sent s2 i u unheld),
      ap (contents s3.content) o.entry
          ∙ ap some (
              put_here s2.content i (overwrite sent (s2.content i))
              ∙ overwrite_empty sent (s2.content i) o.empty),
    )
