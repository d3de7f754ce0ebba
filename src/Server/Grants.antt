-- ===== src/Server/Grants.antt =====
-- What the permission table of practicum2/server.c answers.
use cs5600_computer_system.Common.{
  ℕ, ◌≤◌, ◌<◌, ◌≡◌, refl, ap, ◌∙◌, arith, true, false, ◌||◌, not, List, [], ◌∷◌, ◌++◌,
  if◌then◌else◌, ltb, length, take, length-append, length-take_bound, Bool-cases, inl, inr,
}
use cs5600_computer_system.Common.Text.{str_eq, eq_of_str_eq}
use cs5600_computer_system.Server.Permissions.{
  max_files, max_name, Permission, read_write, read_only, FileMeta, Table, get_file_permission,
  present, set_file_permission,
}

get-append :
    (t : Table) (f : FileMeta) (q : List ℕ)
    → get_file_permission (t ++ (f ∷ [])) q ≡ (
        if present t q
        then get_file_permission t q
        else (if str_eq f.filename q then f.perm else read_write))
unfolding get_file_permission present
get-append [] f q = refl
get-append (g ∷ t) f q = ground (arith, get-append t f q)

present-append :
    (t : Table) (f : FileMeta) (q : List ℕ)
    → present (t ++ (f ∷ [])) q ≡ (present t q || str_eq f.filename q)
unfolding present
present-append [] f q = ground arith
present-append (g ∷ t) f q = ground (arith, present-append t f q)

pub get-absent :
    (t : Table) (q : List ℕ) → present t q ≡ false → get_file_permission t q ≡ read_write
unfolding get_file_permission present
get-absent [] q h = refl
get-absent (g ∷ t) q h = ground (arith, get-absent t q)

-- `get_file_permission` after `set_file_permission`, on every branch: only a path that was absent,
-- while the table has room, gets an answer, and it is the first 255 bytes of the path that get it.
pub get-set :
    (t : Table) (p : List ℕ) (perm : Permission) (q : List ℕ)
    → get_file_permission (set_file_permission t p perm) q ≡ (
        if present t q || present t p || not (ltb (length t) max_files)
        then get_file_permission t q
        else (if str_eq (take max_name p) q then perm else read_write))
unfolding set_file_permission
get-set t p perm q =
    ground
      (arith, get-append t (record { filename = take max_name p; perm = perm }) q, get-absent t q)

-- A permission once recorded is never changed.
pub get-set_present :
    (t : Table) (p : List ℕ) (perm : Permission) (q : List ℕ)
    → present t q ≡ true
    → get_file_permission (set_file_permission t p perm) q ≡ get_file_permission t q
get-set_present t p perm q h = ground (arith, get-set t p perm q)

pub read_only-set :
    (t : Table) (p : List ℕ) (perm : Permission) (q : List ℕ)
    → get_file_permission t q ≡ read_only
    → get_file_permission (set_file_permission t p perm) q ≡ read_only
read_only-set t p perm q h = elim (Bool-cases (present t q)) [
  | inl there ↦ get-set_present t p perm q there ∙ h
  | inr absent ↦ ground (arith, get-absent t q absent)
]

-- The table fits its array, and every name its field.
abbrev pub NamesFit : Table → Type 0
NamesFit [] = Unit {0}
NamesFit (f ∷ t) = (length f.filename ≤ max_name) × NamesFit t

pub record Fits (t : Table) : Type 0 where
  pub few : length t ≤ max_files
  pub names : NamesFit t

NamesFit-append :
    (t : Table) (f : FileMeta)
    → NamesFit t
    → length f.filename ≤ max_name
    → NamesFit (t ++ (f ∷ []))
NamesFit-append [] f n h = (h, tt)
NamesFit-append (g ∷ t) f n h = (n.0, NamesFit-append t f n.1 h)

-- `set_file_permission` never writes outside `g_files`, and keeps every name within its field.
pub set-Fits :
    (t : Table) (p : List ℕ) (perm : Permission) → Fits t → Fits (set_file_permission t p perm)
unfolding set_file_permission
set-Fits t p perm f =
    let new : FileMeta = record { filename = take max_name p; perm = perm } in
    ground (
      arith,
      length-append t (new ∷ []),
      NamesFit-append t new f.names (length-take_bound max_name p),
    )

long_absent : (t : Table) (q : List ℕ) → NamesFit t → max_name < length q → present t q ≡ false
unfolding present
long_absent [] q n h = refl
long_absent (f ∷ t) q n h = ground (arith, long_absent t q n.1, short_ne f.filename q n.0 h)
  where
    short_ne : (a b : List ℕ) → length a ≤ max_name → max_name < length b → str_eq a b ≡ false
    short_ne a b p r = elim (Bool-cases (str_eq a b)) [
      | inl same ↦ absurd (omega (arith, ap length (eq_of_str_eq a b same)))
      | inr other ↦ other
    ]

-- The permission of a path longer than 255 bytes is never recorded under that path: whatever is
-- asked for it, and whatever the table holds, the path stays writable.
pub long_path_unprotected :
    (t : Table) (q : List ℕ) (perm : Permission)
    → Fits t
    → max_name < length q
    → get_file_permission (set_file_permission t q perm) q ≡ read_write
long_path_unprotected t q perm f h =
    get-absent (set_file_permission t q perm) q
      (long_absent (set_file_permission t q perm) q (set-Fits t q perm f).names h)
