-- ===== src/Server/Threads/Unprotected.antt =====
-- A path of practicum2/server.c that changes between its check and its `open`.
use cs5600_computer_system.Common.{◌≡◌, ap, ◌∙◌, true, some, List, [], ◌∷◌, if◌then◌else◌}
use cs5600_computer_system.Common.Text.{str_eq, str_eq_refl}
use cs5600_computer_system.Server.{Bytes, Os}
use cs5600_computer_system.Server.Permissions.{read_only, get_file_permission, is_read_write}
use cs5600_computer_system.Server.Threads.Files.{IsValid, files_of, open_truncated-Opened}
use cs5600_computer_system.Server.Threads.Alone.{thread}
use cs5600_computer_system.Server.Threads.Words.{Event, turn_of, path_becomes, run_events}
use cs5600_computer_system.Server.Threads.{
  System, write_check, name_of, turn, check_turn, open_turn,
}

-- The turns that check the path `r` and open what is there then.
abbrev pub swap : Bytes → List Event
swap p = turn_of 0 ∷ (path_becomes 0 p ∷ (turn_of 0 ∷ []))

-- A WRITE of a path that may be written, whose word becomes a read-only path after the check, empties
-- the file of that path: the server has checked the one and opens the other. The permission is as
-- before.
pub changed_path_unprotected :
    (os : Os) (r p : Bytes) (s : System)
    → IsValid s
    → os.opens ≡ true
    → is_read_write (get_file_permission s.table r) ≡ true
    → get_file_permission s.table p ≡ read_only
    → let end = (run_events (swap p) (thread os (write_check r) [] ∷ [], s)).1 in
      (files_of end (name_of s p) ≡ some []) × (get_file_permission end.table p ≡ read_only)
unfolding turn check_turn open_turn
changed_path_unprotected os r p s v opens may ro =
    let file = name_of s p in
    let o = open_truncated-Opened s file v in
    let same : str_eq file file ≡ true = str_eq_refl file in
    simp (may, opens)
      (
        o.files file ∙ ap (λ b. if b then some [] else files_of s file) same,
        ap (λ t. get_file_permission t p) o.table ∙ ro,
      )
