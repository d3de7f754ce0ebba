-- ===== src/Server/Tests.antt =====
-- The server of practicum2/server.c at concrete inputs.
use cs5600_computer_system.Common.{
  ◌≡◌, refl, arith, true, false, ◌||◌, ◌==◌, ◌&&◌, not, Option, none, some, List, [], ◌∷◌,
  if◌then◌else◌, ltb, length, take, replicate,
}
use cs5600_computer_system.Common.Text.{codes, str_eq}
use cs5600_computer_system.Server.{
  Server, Os, Bytes, send, file_of, full_path, handle_write, handle_get, handle_rm, words,
}
use cs5600_computer_system.Server.Permissions.{
  read_write, read_only, Table, max_files, max_name, get_file_permission, present,
  set_file_permission, parse_perm,
}
use cs5600_computer_system.Server.Grants.{get-set, long_path_unprotected}
use cs5600_computer_system.Server.Transfers.{
  Works, granted, handle_get-handle_write, handle_rm-removes, read_only_upload_rejected,
}
use cs5600_computer_system.Server.Protect.{
  Guarded, NoAlias, serve, read_only_protected, alias_unprotected,
}

abbrev notes : Bytes
notes = codes "notes"

abbrev table : Table
table =
    record { filename = notes; perm = read_only }
    ∷ record { filename = codes "log"; perm = read_write }
    ∷ []

abbrev server : Server
server = record { table = table; files = λ q. none; resolve = λ q. q }

abbrev os : Os
os = record {
  opens = true;
  locks = true;
  reads = true;
  removes = true;
  recv_returns = true;
  upload = some (codes "hello");
  written = 1024;
}

os-Works : Works os
os-Works = record { opens = refl; locks = refl; reads = refl; removes = refl }

get-set_example :
    get_file_permission (set_file_permission table (codes "new") read_only) (codes "new") ≡ (
      if present table (codes "new")
        || present table (codes "new")
        || not (ltb (length table) max_files)
      then get_file_permission table (codes "new")
      else (if str_eq (take max_name (codes "new")) (codes "new") then read_only else read_write))
get-set_example = get-set table (codes "new") read_only (codes "new")

long_path_unprotected_example :
    get_file_permission
      (set_file_permission table (replicate 256 b'x') read_only)
      (replicate 256 b'x')
    ≡ read_write
long_path_unprotected_example =
    long_path_unprotected table (replicate 256 b'x') read_only
      (record { few = omega arith; names = omega arith }) (omega arith)

log_granted : granted server (codes "log") none ≡ true
unfolding granted get_file_permission set_file_permission parse_perm present
log_granted = refl

handle_get-handle_write_example :
    let (t, sent) = handle_write os (codes "log") none server in
    (sent ≡ send "OK_READY_TO_RECEIVE" 20 ∷ send "WRITE_OK" 8 ∷ [])
    × (handle_get os (codes "log") t ≡ (t, send "OK_SENDING_FILE" 15 ∷ codes "hello" ∷ []))
handle_get-handle_write_example =
    handle_get-handle_write os os (codes "log") (codes "hello") none server log_granted os-Works
      os-Works refl (omega arith) (omega arith) (omega arith)

abbrev stocked : Server
stocked = record { table = table; files = λ q. some (codes "old"); resolve = λ q. q }

handle_rm-removes_example :
    let (t, sent) = handle_rm os (codes "log") stocked in
    (sent ≡ send "RM_OK" 5 ∷ [])
    × (handle_get os (codes "log") t ≡ (t, send "ERR_FILE_NOT_FOUND" 18 ∷ []))
    × (handle_rm os (codes "log") t ≡ (t, send "ERR_REMOVE_FAILED" 17 ∷ []))
    × ((q : Bytes) → str_eq (file_of stocked (codes "log")) q ≡ false → t.files q ≡ stocked.files q)
unfolding get_file_permission
handle_rm-removes_example =
    handle_rm-removes os os (codes "log") (codes "old") stocked refl refl os-Works

new_is_absent : present table (codes "new") ≡ false
unfolding present
new_is_absent = refl

ro_parses : parse_perm (some (codes "ro")) ≡ read_only
unfolding parse_perm
ro_parses = refl

read_only_upload_rejected_example :
    let (t, sent) = handle_write os (codes "new") (some (codes "ro")) server in
    (sent ≡ send "ERR_FILE_IS_READ_ONLY" 22 ∷ [])
    × (t.files ≡ server.files)
    × (get_file_permission t.table (codes "new") ≡ read_only)
read_only_upload_rejected_example =
    read_only_upload_rejected os (codes "new") (codes "ro") server new_is_absent (omega arith)
      (omega arith) ro_parses

notes_read_only : get_file_permission table notes ≡ read_only
unfolding get_file_permission
notes_read_only = refl

-- A system that drops every "./" of a path.
abbrev drop_dots : Bytes → Bytes
drop_dots [] = []
drop_dots (c ∷ []) = c ∷ []
drop_dots (c ∷ d ∷ s) =
    let here = drop_dots s in
    let later = drop_dots (d ∷ s) in if c == b'.' && d == b'/' then here else c ∷ later

abbrev dotted : Server
dotted = record stocked { resolve = drop_dots }

abbrev attacks : List (Os × Option Bytes)
attacks = (os, some (codes "WRITE a notes")) ∷ (os, some (codes "rm notes")) ∷ (os, none) ∷ []

attacks-NoAlias : NoAlias drop_dots notes attacks
unfolding words full_path
attacks-NoAlias = (
  (λ h. refl, (λ h. refl, (λ h. grind arith, tt))),
  ((λ h. refl, (λ h. grind arith, tt)), (tt, tt)),
)

read_only_protected_example : Guarded drop_dots notes (some (codes "old")) (serve attacks dotted)
read_only_protected_example =
    read_only_protected notes attacks dotted notes_read_only attacks-NoAlias

dots_writable : get_file_permission table (codes "./notes") ≡ read_write
unfolding get_file_permission
dots_writable = refl

dots_same : file_of dotted (codes "./notes") ≡ file_of dotted notes
unfolding full_path
dots_same = refl

alias_unprotected_example : Guarded drop_dots notes none (handle_rm os (codes "./notes") dotted).0
alias_unprotected_example =
    alias_unprotected os notes (codes "./notes") (codes "old") dotted notes_read_only dots_writable
      dots_same refl os-Works

words_split : words [] (codes "  GET \t a b ") ≡ codes "GET" ∷ codes "a" ∷ codes "b" ∷ []
unfolding words
words_split = refl

abbrev command : List Bytes
command = codes "GET" ∷ codes "a" ∷ []
