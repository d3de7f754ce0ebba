-- ===== src/Server/Permissions.antt =====
-- The permission table of practicum2/server.c, whose two functions hold `g_files_lock` throughout.
-- `g_files[0..g_file_count)` is a list, and a path the bytes of a C string.
use cs5600_computer_system.Common.{
  ℕ, Bool, true, false, Option, none, some, List, [], ◌∷◌, ◌++◌, if◌then◌else◌, ltb, length, take,
}
use cs5600_computer_system.Common.Text.{codes, str_eq, str_case_eq}

abbrev pub max_files : ℕ
max_files = 100

-- The bytes of `filename`, less the NUL at its end.
abbrev pub max_name : ℕ
max_name = 255

-- `permission_t`
pub data Permission : Type 0 where
  read_write read_only : Permission

-- `filemeta_t`
pub record FileMeta : Type 0 where
  pub filename : List ℕ
  pub perm : Permission

abbrev pub Table : Type 0
Table = List FileMeta

-- Unknown files may be written.
unfoldable pub get_file_permission : Table → List ℕ → Permission
get_file_permission [] path = read_write
get_file_permission (f ∷ table) path =
    if str_eq f.filename path then f.perm else get_file_permission table path

-- Is the path in the table?
unfoldable pub present : Table → List ℕ → Bool
present [] path = false
present (f ∷ table) path = if str_eq f.filename path then true else present table path

-- A path that is present keeps its permission, and a full table takes no more.
unfoldable pub set_file_permission : Table → List ℕ → Permission → Table
set_file_permission table path p =
    if present table path
    then table
    else (if ltb (length table) max_files
        then table ++ (record { filename = take max_name path; perm = p } ∷ [])
        else table)

-- `parse_perm`: anything but "RO", in any case of letters, is READ_WRITE.
unfoldable pub parse_perm : Option (List ℕ) → Permission
parse_perm none = read_write
parse_perm (some s) = if str_case_eq s (codes "RO") then read_only else read_write

abbrev pub is_read_write : Permission → Bool
is_read_write read_write = true
is_read_write read_only = false
