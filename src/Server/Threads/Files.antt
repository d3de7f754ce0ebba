-- ===== src/Server/Threads/Files.antt =====
-- The files of the threads of practicum2/server.c by their names, and the calls that change them.
use cs5600_computer_system.Common.{
  ◌+◌, ◌<◌, ◌≡◌, refl, sym, ap, ◌∙◌, subst, arith, false, Option, none, some, [], if◌then◌else◌,
  ◌==◌, Bool-cases, inl, inr, ◌⊎◌, eq_of_==,
}
use cs5600_computer_system.Common.Text.{str_eq, eq_of_str_eq, str_eq_refl}
use cs5600_computer_system.Server.{Bytes, FileSystem}
use cs5600_computer_system.Server.Threads.{Ino, put, free, System, set_entry, open_truncated}

-- Each name has an inode of its own, and the inodes in use are below `fresh`.
pub record IsValid (s : System) : Type 0 where
  pub apart : (f g : Bytes) (i : Ino) → s.entries f ≡ some i → s.entries g ≡ some i → f ≡ g
  pub below : (f : Bytes) (i : Ino) → s.entries f ≡ some i → i < s.fresh

abbrev pub Unlocked : System → Type 0
Unlocked s = (i : Ino) → s.locks i ≡ free

abbrev pub contents : (Ino → Bytes) → Option Ino → Option Bytes
contents content none = none
contents content (some i) = some (content i)

-- Files by their names.
abbrev pub files_of : System → FileSystem
files_of s file = contents s.content (s.entries file)

pub put_here {ℓ} : {A : Type ℓ} (f : Ino → A) (i : Ino) (v : A) → put f i v i ≡ v
put_here f i v = ground arith

-- A write to the file of a name shows under that name only.
pub other_ino :
    (s : System) (file q : Bytes) (i j : Ino)
    → IsValid s
    → s.entries file ≡ some i
    → s.entries q ≡ some j
    → str_eq file q ≡ false
    → (i == j) ≡ false
other_ino s file q i j v e f other = elim (Bool-cases (i == j)) [
  | inl here ↦
      let k : file ≡ q = v.apart file q i e (f ∙ ap some (sym (eq_of_== i j here))) in
      absurd (cc (other, ap (str_eq file) k, str_eq_refl file))
  | inr there ↦ there
]

contents_other :
    (s : System) (file q : Bytes) (i : Ino) (c : Bytes) (e : Option Ino)
    → IsValid s
    → s.entries file ≡ some i
    → str_eq file q ≡ false
    → s.entries q ≡ e
    → contents (put s.content i c) e ≡ contents s.content e
contents_other s file q i c none v found other e = refl
contents_other s file q i c (some j) v found other e =
    rw (other_ino s file q i j v found e other) refl

pub files_put :
    (s : System) (file : Bytes) (i : Ino) (c : Bytes)
    → IsValid s
    → s.entries file ≡ some i
    → (q : Bytes)
    → contents (put s.content i c) (s.entries q) ≡ (if str_eq file q then some c else files_of s q)
files_put s file i c v e q = elim (Bool-cases (str_eq file q)) [
  | inl same ↦ rw same (
      subst (λ q. contents (put s.content i c) (s.entries q) ≡ some c) (eq_of_str_eq file q same)
        (ap (contents (put s.content i c)) e ∙ ap some (put_here s.content i c)))
  | inr other ↦ rw other (contents_other s file q i c (s.entries q) v e other refl)
]

pub files_removed :
    (s : System) (file q : Bytes)
    → files_of (set_entry s file none) q ≡ (if str_eq file q then none else files_of s q)
files_removed s file q = elim (Bool-cases (str_eq file q)) [
  | inl same ↦ rw same refl
  | inr other ↦ rw other refl
]

-- `open` with O_TRUNC leaves an empty file under the name, and no other lock or file.
pub record Opened (s : System) (file : Bytes) (i : Ino) (s' : System) : Type 0 where
  pub entry : s'.entries file ≡ some i
  pub empty : s'.content i ≡ []
  pub valid : IsValid s'
  pub files : (q : Bytes) → files_of s' q ≡ (if str_eq file q then some [] else files_of s q)
  pub table : s'.table ≡ s.table
  pub resolve : s'.resolve ≡ s.resolve
  pub no_lock : Unlocked s → Unlocked s'

open_old-Opened :
    (s : System) (file : Bytes) (i : Ino)
    → IsValid s
    → s.entries file ≡ some i
    → Opened s file i (record s { content = put s.content i [] })
open_old-Opened s file i v e = record {
  entry = e;
  empty = put_here s.content i [];
  valid = record { apart = v.apart; below = v.below };
  files = files_put s file i [] v e;
  table = refl;
  resolve = refl;
  no_lock = λ un. un;
}

abbrev created : System → Bytes → System
created s file = record (set_entry s file (some s.fresh)) {
  content = put s.content s.fresh [];
  fresh = s.fresh + 1;
}

created_entry :
    (s : System) (file q : Bytes) (i : Ino)
    → IsValid s
    → (created s file).entries q ≡ some i
    → ((file ≡ q) × (i ≡ s.fresh)) ⊎ ((s.entries q ≡ some i) × (i < s.fresh))
created_entry s file q i v e = elim (Bool-cases (str_eq file q)) [
  | inl same ↦
      let k : some s.fresh ≡ some i =
        subst (λ b. (if b then some s.fresh else s.entries q) ≡ some i) same e in
      inl (eq_of_str_eq file q same, cc k)
  | inr other ↦
      let k : s.entries q ≡ some i =
        subst (λ b. (if b then some s.fresh else s.entries q) ≡ some i) other e in
      inr (k, v.below q i k)
]

created-apart :
    (s : System) (file f g : Bytes) (i : Ino)
    → IsValid s
    → (created s file).entries f ≡ some i
    → (created s file).entries g ≡ some i
    → f ≡ g
created-apart s file f g i v e k = elim (created_entry s file f i v e) [
  | inl (ef, new) ↦ elim (created_entry s file g i v k) [
    | inl (eg, other) ↦ sym ef ∙ eg
    | inr (old, less) ↦ absurd (omega (arith, new, less))
  ]
  | inr (old, less) ↦ elim (created_entry s file g i v k) [
    | inl (eg, new) ↦ absurd (omega (arith, new, less))
    | inr (also, fewer) ↦ v.apart f g i old also
  ]
]

created-below :
    (s : System) (file q : Bytes) (i : Ino)
    → IsValid s
    → (created s file).entries q ≡ some i
    → i < s.fresh + 1
created-below s file q i v e = elim (created_entry s file q i v e) [
  | inl (eq, new) ↦ omega (arith, new)
  | inr (old, less) ↦ omega (arith, less)
]

contents_below :
    (s : System) (q : Bytes) (e : Option Ino)
    → IsValid s
    → s.entries q ≡ e
    → contents (put s.content s.fresh []) e ≡ contents s.content e
contents_below s q none v h = refl
contents_below s q (some j) v h =
    let apart : (s.fresh == j) ≡ false = ground (arith, v.below q j h) in rw apart refl

created_files :
    (s : System) (file q : Bytes)
    → IsValid s
    → files_of (created s file) q ≡ (if str_eq file q then some [] else files_of s q)
created_files s file q v = elim (Bool-cases (str_eq file q)) [
  | inl same ↦ rw same (ap some (put_here s.content s.fresh []))
  | inr other ↦ rw other (contents_below s q (s.entries q) v refl)
]

open_new-Opened : (s : System) (file : Bytes) → IsValid s → Opened s file s.fresh (created s file)
open_new-Opened s file v = record {
  entry = rw (str_eq_refl file) refl;
  empty = put_here s.content s.fresh [];
  valid = record {
    apart = λ f g i. created-apart s file f g i v;
    below = λ q i. created-below s file q i v;
  };
  files = λ q. created_files s file q v;
  table = refl;
  resolve = refl;
  no_lock = λ un. un;
}

open_by :
    (s : System) (file : Bytes) (e : Option Ino)
    → IsValid s
    → s.entries file ≡ e
    → Opened s file (open_truncated s file).0 (open_truncated s file).1
unfolding open_truncated
open_by s file none v h = rw (open_truncated, h) (open_new-Opened s file v)
open_by s file (some i) v h = rw (open_truncated, h) (open_old-Opened s file i v h)

pub open_truncated-Opened :
    (s : System) (file : Bytes)
    → IsValid s
    → Opened s file (open_truncated s file).0 (open_truncated s file).1
open_truncated-Opened s file v = open_by s file (s.entries file) v refl

-- `open` changes the entry of its own name only.
pub open_entries :
    (s : System) (file q : Bytes) (e : Option Ino)
    → s.entries file ≡ e
    → str_eq file q ≡ false
    → (open_truncated s file).1.entries q ≡ s.entries q
unfolding open_truncated
open_entries s file q none h other = rw (open_truncated, h, other) refl
open_entries s file q (some i) h other = rw (open_truncated, h) refl

kept_entry :
    (s : System) (file q : Bytes) (i : Ino)
    → (set_entry s file none).entries q ≡ some i
    → s.entries q ≡ some i
kept_entry s file q i e = elim (Bool-cases (str_eq file q)) [
  | inl same ↦
      let k : none ≡ some i = subst (λ b. (if b then none else s.entries q) ≡ some i) same e in
      absurd (cc k)
  | inr other ↦ subst (λ b. (if b then none else s.entries q) ≡ some i) other e
]

pub removed-IsValid : (s : System) (file : Bytes) → IsValid s → IsValid (set_entry s file none)
removed-IsValid s file v = record {
  apart = λ f g i e k. v.apart f g i (kept_entry s file f i e) (kept_entry s file g i k);
  below = λ f i e. v.below f i (kept_entry s file f i e);
}
