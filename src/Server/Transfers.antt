-- ===== src/Server/Transfers.antt =====
-- What the handlers of practicum2/server.c do to the files, and what they answer.
use cs5600_computer_system.Common.{
  ◌≤◌, ◌<◌, ◌≡◌, refl, arith, Bool, true, false, ◌&&◌, Option, some, [], ◌∷◌, if◌then◌else◌, length,
  take, take_all,
}
use cs5600_computer_system.Common.Text.{str_eq, str_eq_refl}
use cs5600_computer_system.Server.{
  Server, Os, Bytes, buf_size, update, send, file_of, handle_write, write_file, receive, handle_get,
  send_file, handle_rm, remove_file,
}
use cs5600_computer_system.Server.Permissions.{
  max_files, max_name, read_write, read_only, get_file_permission, set_file_permission, present,
  parse_perm, is_read_write,
}
use cs5600_computer_system.Server.Grants.{get-set, get-absent}

-- Every call works, and `upload` is what the client sends after its command.
pub record Works (os : Os) : Type 0 where
  pub opens : os.opens ≡ true
  pub locks : os.locks ≡ true
  pub reads : os.reads ≡ true
  pub removes : os.removes ≡ true

-- `handle_write` grants a request for a path that may be written before and after the permission
-- asked for is recorded.
unfoldable pub granted : Server → Bytes → Option Bytes → Bool
granted s remote perm =
    is_read_write (get_file_permission s.table remote)
    && is_read_write
        (get_file_permission (set_file_permission s.table remote (parse_perm perm)) remote)

abbrev pub recorded : Server → Bytes → Option Bytes → Server
recorded s remote perm = record s {
  table =
      if is_read_write (get_file_permission s.table remote)
      then set_file_permission s.table remote (parse_perm perm)
      else s.table;
}

-- A request that is not granted is answered "ERR_FILE_IS_READ_ONLY" and changes no file.
pub handle_write-refused :
    (os : Os) (remote : Bytes) (perm : Option Bytes) (s : Server)
    → granted s remote perm ≡ false
    → handle_write os remote perm s ≡ (recorded s remote perm, send "ERR_FILE_IS_READ_ONLY" 22 ∷ [])
unfolding handle_write granted
handle_write-refused os remote perm s h = ground arith

handle_write-granted :
    (os : Os) (remote : Bytes) (perm : Option Bytes) (s : Server)
    → granted s remote perm ≡ true
    → handle_write os remote perm s ≡ (
      (write_file os (file_of s remote) (recorded s remote perm)).0,
      send "OK_READY_TO_RECEIVE" 20 ∷ (write_file os (file_of s remote) (recorded s remote perm)).1,
    )
unfolding handle_write granted
handle_write-granted os remote perm s h = ground arith

-- A granted upload of 1 to 1024 bytes.
write_file-ok :
    (os : Os) (file content : Bytes) (s : Server)
    → Works os
    → os.upload ≡ some content
    → 0 < length content
    → length content ≤ buf_size
    → length content ≤ os.written
    → write_file os file s ≡ (
      record s { files = update (update s.files file (some [])) file (some content) },
      send "WRITE_OK" 8 ∷ [],
    )
unfolding write_file receive
write_file-ok os file content s w e p small all =
    let whole : take buf_size content ≡ content = take_all buf_size content small in
    let wrote : take os.written content ≡ content = take_all os.written content all in
    ground (arith, w, e, whole, wrote)

-- After a granted upload of 1 to 1024 bytes in which every call works, the client has read
-- "OK_READY_TO_RECEIVE" and "WRITE_OK", and the GET of the same path in which every call works
-- answers "OK_SENDING_FILE" and then exactly those bytes.
pub handle_get-handle_write :
    (os os' : Os) (remote content : Bytes) (perm : Option Bytes) (s : Server)
    → granted s remote perm ≡ true
    → Works os
    → Works os'
    → os.upload ≡ some content
    → 0 < length content
    → length content ≤ buf_size
    → length content ≤ os.written
    → let (t, sent) = handle_write os remote perm s in
      (sent ≡ send "OK_READY_TO_RECEIVE" 20 ∷ send "WRITE_OK" 8 ∷ [])
      × (handle_get os' remote t ≡ (t, send "OK_SENDING_FILE" 15 ∷ content ∷ []))
unfolding handle_get send_file
handle_get-handle_write os os' remote content perm s g w w' e p small all =
    let whole : take buf_size content ≡ content = take_all buf_size content small in
    let file = file_of s remote in
    rw
      (
        handle_write-granted os remote perm s g,
        write_file-ok os file content (recorded s remote perm) w e p small all,
      )
      ((refl, ground (arith, w', whole, str_eq_refl file)))

-- After a removal in which every call works, of a path that may be written and whose file exists,
-- the answer was "RM_OK", the GET and the RM of that path answer "ERR_FILE_NOT_FOUND" and
-- "ERR_REMOVE_FAILED", and no other file has changed.
pub handle_rm-removes :
    (os os' : Os) (remote content : Bytes) (s : Server)
    → get_file_permission s.table remote ≡ read_write
    → s.files (file_of s remote) ≡ some content
    → Works os
    → let (t, sent) = handle_rm os remote s in
      (sent ≡ send "RM_OK" 5 ∷ [])
      × (handle_get os' remote t ≡ (t, send "ERR_FILE_NOT_FOUND" 18 ∷ []))
      × (handle_rm os' remote t ≡ (t, send "ERR_REMOVE_FAILED" 17 ∷ []))
      × ((q : Bytes) → str_eq (file_of s remote) q ≡ false → t.files q ≡ s.files q)
unfolding handle_rm remove_file handle_get
handle_rm-removes os os' remote content s g e w = (
  ground (arith, w),
  ground (arith, w, str_eq_refl (file_of s remote)),
  ground (arith, w, str_eq_refl (file_of s remote)),
  λ q h. ground (arith, w),
)

-- The first WRITE of a path of at most 255 bytes that asks for "RO", in any case of letters, while
-- the table has room: the upload itself is answered "ERR_FILE_IS_READ_ONLY", no file is written, and
-- the path is read-only from then on.
pub read_only_upload_rejected :
    (os : Os) (remote perm : Bytes) (s : Server)
    → present s.table remote ≡ false
    → length s.table < max_files
    → length remote ≤ max_name
    → parse_perm (some perm) ≡ read_only
    → let (t, sent) = handle_write os remote (some perm) s in
      (sent ≡ send "ERR_FILE_IS_READ_ONLY" 22 ∷ [])
      × (t.files ≡ s.files)
      × (get_file_permission t.table remote ≡ read_only)
unfolding handle_write
read_only_upload_rejected os remote perm s new room fits ro =
    let kept : take max_name remote ≡ remote = take_all max_name remote fits in
    let before : get_file_permission s.table remote ≡ read_write = get-absent s.table remote new in
    let after : get_file_permission (set_file_permission s.table remote read_only) remote
        ≡ read_only =
      ground (arith, get-set s.table remote read_only remote, kept, str_eq_refl remote) in
    rw (before, ro, after) (refl, refl, after)
