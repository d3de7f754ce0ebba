-- ===== src/Server/Threads/Guard.antt =====
-- A read-only path of practicum2/server.c while the threads of any clients interleave.
use cs5600_computer_system.Common.{
  ◌≡◌, refl, sym, ap, ◌∙◌, true, false, Option, none, some, [], if◌then◌else◌, ◌==◌, Bool-cases,
  inl, inr,
}
use cs5600_computer_system.Common.Text.{str_eq, eq_of_str_eq}
use cs5600_computer_system.Server.{Bytes, Os, full_path}
use cs5600_computer_system.Server.Permissions.{
  read_only, get_file_permission, is_read_write, parse_perm, set_file_permission,
}
use cs5600_computer_system.Server.Grants.{read_only-set}
use cs5600_computer_system.Server.Protect.{Apart}
use cs5600_computer_system.Server.Threads.Files.{
  IsValid, contents, other_ino, Opened, open_truncated-Opened, open_entries, removed-IsValid,
}
use cs5600_computer_system.Server.Threads.Cases.{turn_by}
use cs5600_computer_system.Server.Threads.{
  Ino, put, Lock, lock_sh, lock_ex, unlock, System, Pc, write_start, write_set, write_check,
  write_open, write_lock, write_recv, write_data, write_unlock, get_lock, get_read, get_unlock,
  rm_check, rm_open, rm_lock, rm_remove, rm_unlock, finished, Turn, name_of, set_entry,
  open_truncated, locked, turn,
}

-- Not the inode of the entry.
abbrev pub NotAt : Option Ino → Ino → Type 0
NotAt none i = Unit {0}
NotAt (some j) i = (i == j) ≡ false

-- The path `p` is read-only, and the file that it resolves to has this inode and content, if any.
pub record Guarded (resolve : Bytes → Bytes) (p : Bytes) (entry : Option Ino)
    (content : Option Bytes) (s : System) : Type 0 where
  pub protected : get_file_permission s.table p ≡ read_only
  pub resolves : s.resolve ≡ resolve
  pub entry_kept : s.entries (resolve (full_path p)) ≡ entry
  pub content_kept : contents s.content entry ≡ content
  pub valid : IsValid s

module _ (resolve : Bytes → Bytes) (p : Bytes) (entry : Option Ino) (content : Option Bytes) where
  abbrev pub Other : Bytes → Type 0
  Other r = str_eq (resolve (full_path r)) (resolve (full_path p)) ≡ false

  -- A thread that stands there will not touch the file.
  abbrev pub Safe : Pc → Type 0
  Safe (write_start r perm) = Apart resolve p r
  Safe (write_set r perm) = Apart resolve p r
  Safe (write_check r) = Apart resolve p r
  Safe (write_open r) = Other r
  Safe (write_lock i) = NotAt entry i
  Safe (write_recv i) = NotAt entry i
  Safe (write_data i b) = NotAt entry i
  Safe (write_unlock i a) = NotAt entry i
  Safe (rm_check r) = Apart resolve p r
  Safe (rm_open r) = Other r
  Safe (rm_lock i r) = Other r
  Safe (rm_remove i r) = Other r
  Safe pc = Unit {0}

  abbrev Guards : System → Type 0
  Guards s = Guarded resolve p entry content s

  abbrev pub SafeTurn : Pc → Option Turn → Type 0
  SafeTurn pc none = Unit {0}
  SafeTurn pc (some (pc', s', out)) = Safe pc → Guards s' × Safe pc'

  -- Who was granted a write or a removal has another path, and so another file.
  granted_Other :
      (s : System) (r : Bytes)
      → Guards s
      → is_read_write (get_file_permission s.table r) ≡ true
      → Apart resolve p r
      → Other r
  granted_Other s r g may apart = elim (Bool-cases (str_eq r p)) [
    | inl same ↦
        let k : get_file_permission s.table r ≡ read_only =
          ap (get_file_permission s.table) (eq_of_str_eq r p same) ∙ g.protected in
        absurd (cc (may, ap is_read_write k))
    | inr other ↦ apart other
  ]

  put_elsewhere :
      (f : Ino → Bytes) (i : Ino) (c : Bytes) (e : Option Ino)
      → NotAt e i
      → contents (put f i c) e ≡ contents f e
  put_elsewhere f i c none h = refl
  put_elsewhere f i c (some j) h = rw h refl

  locked-SafeTurn :
      (pc pc' : Pc) (s : System) (i : Ino) (l : Option Lock)
      → Guards s
      → (Safe pc → Safe pc')
      → SafeTurn pc (locked s i l pc')
  locked-SafeTurn pc pc' s i none g h = tt
  locked-SafeTurn pc pc' s i (some l) g h = λ a. (
    record {
      protected = g.protected;
      resolves = g.resolves;
      entry_kept = g.entry_kept;
      content_kept = g.content_kept;
      valid = record { apart = g.valid.apart; below = g.valid.below };
    },
    h a,
  )

  not_at :
      (s : System) (file : Bytes) (i : Ino) (e : Option Ino)
      → IsValid s
      → s.entries file ≡ some i
      → s.entries (resolve (full_path p)) ≡ e
      → str_eq file (resolve (full_path p)) ≡ false
      → NotAt e i
  not_at s file i none v e f other = tt
  not_at s file i (some j) v e f other = other_ino s file (resolve (full_path p)) i j v e f other

  open-Guards :
      (s s1 : System) (file : Bytes) (i : Ino)
      → Guards s
      → Opened s file i s1
      → s1.entries (resolve (full_path p)) ≡ s.entries (resolve (full_path p))
      → str_eq file (resolve (full_path p)) ≡ false
      → Guards s1 × NotAt entry i
  open-Guards s s1 file i g o same other =
      let q = resolve (full_path p) in
      let e : s1.entries q ≡ entry = same ∙ g.entry_kept in
      let old : contents s.content (s.entries q) ≡ content =
        ap (contents s.content) g.entry_kept ∙ g.content_kept in
      let now : contents s1.content (s1.entries q) ≡ content =
        o.files q ∙ ap (λ b. if b then some [] else contents s.content (s.entries q)) other ∙ old in
      (
        record {
          protected = ap (λ t. get_file_permission t p) o.table ∙ g.protected;
          resolves = o.resolve ∙ g.resolves;
          entry_kept = e;
          content_kept = sym (ap (contents s1.content) e) ∙ now;
          valid = o.valid;
        },
        not_at s1 file i entry o.valid o.entry e other,
      )

  opens-SafeTurn :
      (s : System) (r : Bytes)
      → Guards s
      → SafeTurn (write_open r) (
          some
            (write_lock (open_truncated s (name_of s r)).0, (open_truncated s (name_of s r)).1, []))
  opens-SafeTurn s r g = λ other.
      let file = name_of s r in
      let q = resolve (full_path p) in
      let apart : str_eq file q ≡ false = ap (λ f. str_eq (f (full_path r)) q) g.resolves ∙ other in
      open-Guards s (open_truncated s file).1 file (open_truncated s file).0 g
        (open_truncated-Opened s file g.valid) (open_entries s file q (s.entries file) refl apart)
        apart

  removes-SafeTurn :
      (s : System) (i : Ino) (r a : Bytes)
      → Guards s
      → SafeTurn (rm_remove i r) (some (rm_unlock i a, set_entry s (name_of s r) none, []))
  removes-SafeTurn s i r a g = λ other.
      let q = resolve (full_path p) in
      let apart : str_eq (name_of s r) q ≡ false =
        ap (λ f. str_eq (f (full_path r)) q) g.resolves ∙ other in
      (
        record {
          protected = g.protected;
          resolves = g.resolves;
          entry_kept = ap (λ b. if b then none else s.entries q) apart ∙ g.entry_kept;
          content_kept = g.content_kept;
          valid = removed-IsValid s (name_of s r) g.valid;
        },
        tt,
      )

  writes-SafeTurn :
      (s : System) (i : Ino) (b c a : Bytes)
      → Guards s
      → SafeTurn
          (write_data i b)
          (some (write_unlock i a, record s { content = put s.content i c }, []))
  writes-SafeTurn s i b c a g = λ n. (
    record {
      protected = g.protected;
      resolves = g.resolves;
      entry_kept = g.entry_kept;
      content_kept = put_elsewhere s.content i c entry n ∙ g.content_kept;
      valid = record { apart = g.valid.apart; below = g.valid.below };
    },
    n,
  )

  sets-SafeTurn :
      (s : System) (r : Bytes) (perm : Option Bytes)
      → Guards s
      → SafeTurn (write_set r perm) (
          some (
            write_check r,
            record s { table = set_file_permission s.table r (parse_perm perm) },
            [],
          ))
  sets-SafeTurn s r perm g = λ a. (
    record {
      protected = read_only-set s.table r (parse_perm perm) p g.protected;
      resolves = g.resolves;
      entry_kept = g.entry_kept;
      content_kept = g.content_kept;
      valid = record { apart = g.valid.apart; below = g.valid.below };
    },
    a,
  )

  pub turn-SafeTurn : (os : Os) (pc : Pc) (s : System) → Guards s → SafeTurn pc (turn os pc s)
  turn-SafeTurn os pc s g =
      turn_by os s (λ pc o. SafeTurn pc o)
        (record {
          granted = λ a b h. (g, h);
          refused = λ a b c h. (g, tt);
          sets = λ r perm. sets-SafeTurn s r perm g;
          may_write = λ r a may h. (g, granted_Other s r g may h);
          no_write = λ a b h. (g, tt);
          opens = λ r. opens-SafeTurn s r g;
          no_open = λ a b h. (g, tt);
          locks = λ i.
              locked-SafeTurn (write_lock i) (write_recv i) s i (lock_ex (s.locks i)) g (λ h. h);
          no_lock = λ a b h. (g, tt);
          receives = λ a b h. (g, h);
          no_data = λ a b h. (g, h);
          silent = λ i h. tt;
          writes = λ i b c a. writes-SafeTurn s i b c a g;
          write_ends = λ i a.
              locked-SafeTurn (write_unlock i a) finished s i (some (unlock (s.locks i))) g
                (λ h. tt);
          get_opens = λ a b h. (g, tt);
          no_get = λ a b h. (g, tt);
          get_locks =
              λ i. locked-SafeTurn (get_lock i) (get_read i) s i (lock_sh (s.locks i)) g (λ h. h);
          no_get_lock = λ a b h. (g, tt);
          reads = λ a b h. (g, tt);
          get_ends = λ i a.
              locked-SafeTurn (get_unlock i a) finished s i (some (unlock (s.locks i))) g (λ h. tt);
          may_remove = λ r may h. (g, granted_Other s r g may h);
          no_remove = λ a b h. (g, tt);
          rm_opens = λ a b h. (g, h);
          no_rm_open = λ a b h. (g, tt);
          rm_locks = λ i r.
              locked-SafeTurn (rm_lock i r) (rm_remove i r) s i (lock_ex (s.locks i)) g (λ h. h);
          no_rm_lock = λ a b c h. (g, tt);
          removes = λ i r a. removes-SafeTurn s i r a g;
          stays = λ i r a h. (g, tt);
          rm_ends = λ i a.
              locked-SafeTurn (rm_unlock i a) finished s i (some (unlock (s.locks i))) g (λ h. tt);
          is_done = tt;
        })
        pc
