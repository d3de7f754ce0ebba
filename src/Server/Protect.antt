-- ===== src/Server/Protect.antt =====
-- A read-only path of practicum2/server.c over any sequence of connections.
use cs5600_computer_system.Common.{
  ℕ, zero, suc, ◌-◌, ◌≡◌, refl, arith, false, Option, none, some, List, [], ◌∷◌, take, sym, subst,
  get_elem?, Bool-cases, inl, inr,
}
use cs5600_computer_system.Common.Text.{str_eq, str_eq_refl, eq_of_str_eq}
use cs5600_computer_system.Server.{
  Server, Os, Bytes, buf_size, full_path, file_of, handle_write, write_file, receive, handle_get,
  send_file, handle_rm, remove_file, dispatch, client_thread, handle_words, words, text_of,
}
use cs5600_computer_system.Server.Permissions.{
  read_write, read_only, get_file_permission, set_file_permission, parse_perm,
}
use cs5600_computer_system.Server.Transfers.{Works}
use cs5600_computer_system.Server.Grants.{read_only-set}

-- A word of a command is the path itself, or the path of another file.
abbrev pub Apart : (Bytes → Bytes) → Bytes → Bytes → Type 0
Apart resolve p q =
    str_eq q p ≡ false → str_eq (resolve (full_path q)) (resolve (full_path p)) ≡ false

abbrev pub AllApart : (Bytes → Bytes) → Bytes → List Bytes → Type 0
AllApart resolve p [] = Unit {0}
AllApart resolve p (q ∷ qs) = Apart resolve p q × AllApart resolve p qs

-- The words that `client_thread` reads.
abbrev pub words_of : Option Bytes → List Bytes
words_of none = []
words_of (some received) = words [] (text_of (take (buf_size - 1) received))

abbrev pub NoAlias : (Bytes → Bytes) → Bytes → List (Os × Option Bytes) → Type 0
NoAlias resolve p [] = Unit {0}
NoAlias resolve p ((os, received) ∷ rest) =
    AllApart resolve p (words_of received) × NoAlias resolve p rest

abbrev pub MaybeApart : (Bytes → Bytes) → Bytes → Option Bytes → Type 0
MaybeApart resolve p none = Unit {0}
MaybeApart resolve p (some q) = Apart resolve p q

pub get_elem?-Apart :
    (resolve : Bytes → Bytes) (p : Bytes) (qs : List Bytes) (n : ℕ)
    → AllApart resolve p qs
    → MaybeApart resolve p (get_elem? qs n)
get_elem?-Apart resolve p [] n h = tt
get_elem?-Apart resolve p (q ∷ qs) zero h = h.0
get_elem?-Apart resolve p (q ∷ qs) (suc n) h = get_elem?-Apart resolve p qs n h.1

-- The path is read-only, and its file has these contents.
pub record Guarded (resolve : Bytes → Bytes) (p : Bytes) (content : Option Bytes) (s : Server)
    : Type 0 where
  pub protected : get_file_permission s.table p ≡ read_only
  pub resolves : s.resolve ≡ resolve
  pub kept : s.files (resolve (full_path p)) ≡ content

-- A file operation touches its own file only, and no permission.
write_file-elsewhere :
    (os : Os) (file q : Bytes) (s : Server)
    → str_eq file q ≡ false
    → ((write_file os file s).0.files q ≡ s.files q)
      × ((write_file os file s).0.table ≡ s.table)
      × ((write_file os file s).0.resolve ≡ s.resolve)
unfolding write_file receive
write_file-elsewhere os file q s n = (ground (arith, n), ground arith, ground arith)

remove_file-elsewhere :
    (os : Os) (file q : Bytes) (s : Server)
    → str_eq file q ≡ false
    → ((remove_file os file s).0.files q ≡ s.files q)
      × ((remove_file os file s).0.table ≡ s.table)
      × ((remove_file os file s).0.resolve ≡ s.resolve)
unfolding remove_file
remove_file-elsewhere os file q s n = (ground (arith, n), ground arith, ground arith)

module _ (resolve : Bytes → Bytes) (p : Bytes) (content : Option Bytes) where
  handle_write-Guarded :
      (os : Os) (remote : Bytes) (perm : Option Bytes) (s : Server)
      → Apart resolve p remote
      → Guarded resolve p content s
      → Guarded resolve p content (handle_write os remote perm s).0
  unfolding handle_write
  handle_write-Guarded os remote perm s apart g = elim (Bool-cases (str_eq remote p)) [
    | inl same ↦ let e : remote ≡ p = eq_of_str_eq remote p same in ground (arith, e, g)
    | inr other ↦
        let t = set_file_permission s.table remote (parse_perm perm) in
        let file = file_of s remote in
        let mine = resolve (full_path p) in
        let ne : str_eq file mine ≡ false =
          subst (λ r. str_eq (r (full_path remote)) mine ≡ false) (sym g.resolves) (apart other) in
        let moved = write_file-elsewhere os file mine (record s { table = t }) ne in
        let still = write_file-elsewhere os file mine s ne in
        ground (
          arith,
          g,
          read_only-set s.table remote (parse_perm perm) p,
          moved.0,
          moved.1,
          moved.2,
          still.0,
          still.1,
          still.2,
        )
  ]

  handle_get-Guarded :
      (os : Os) (remote : Bytes) (s : Server)
      → Guarded resolve p content s
      → Guarded resolve p content (handle_get os remote s).0
  unfolding handle_get send_file
  handle_get-Guarded os remote s g = ground (arith, g)

  handle_rm-Guarded :
      (os : Os) (remote : Bytes) (s : Server)
      → Apart resolve p remote
      → Guarded resolve p content s
      → Guarded resolve p content (handle_rm os remote s).0
  unfolding handle_rm
  handle_rm-Guarded os remote s apart g = elim (Bool-cases (str_eq remote p)) [
    | inl same ↦ let e : remote ≡ p = eq_of_str_eq remote p same in ground (arith, e, g)
    | inr other ↦
        let file = file_of s remote in
        let mine = resolve (full_path p) in
        let ne : str_eq file mine ≡ false =
          subst (λ r. str_eq (r (full_path remote)) mine ≡ false) (sym g.resolves) (apart other) in
        let still = remove_file-elsewhere os file mine s ne in
        ground (arith, g, still.0, still.1, still.2)
  ]

  dispatch-Guarded :
      (os : Os) (cmd : Bytes) (arg1 arg2 arg3 : Option Bytes) (s : Server)
      → MaybeApart resolve p arg1
      → MaybeApart resolve p arg2
      → Guarded resolve p content s
      → Guarded resolve p content (dispatch os cmd arg1 arg2 arg3 s).0
  unfolding dispatch
  dispatch-Guarded os cmd (some arg1) (some arg2) arg3 s a1 a2 g = ground (
    arith,
    g,
    handle_write-Guarded os arg2 arg3 s a2 g,
    handle_get-Guarded os arg1 s g,
    handle_rm-Guarded os arg1 s a1 g,
  )
  dispatch-Guarded os cmd (some arg1) none arg3 s a1 a2 g =
      ground (arith, g, handle_rm-Guarded os arg1 s a1 g)
  dispatch-Guarded os cmd none arg2 arg3 s a1 a2 g = g

  handle_words-Guarded :
      (os : Os) (ws : List Bytes) (s : Server)
      → AllApart resolve p ws
      → Guarded resolve p content s
      → Guarded resolve p content (handle_words os ws s).0
  unfolding handle_words
  handle_words-Guarded os [] s a g = g
  handle_words-Guarded os (cmd ∷ args) s a g =
      dispatch-Guarded os cmd (get_elem? args 0) (get_elem? args 1) (get_elem? args 2) s
        (get_elem?-Apart resolve p args 0 a.1) (get_elem?-Apart resolve p args 1 a.1) g

  client_thread-Guarded :
      (os : Os) (received : Option Bytes) (s : Server)
      → AllApart resolve p (words_of received)
      → Guarded resolve p content s
      → Guarded resolve p content (client_thread os received s).0
  unfolding client_thread
  client_thread-Guarded os none s a g = g
  client_thread-Guarded os (some received) s a g =
      handle_words-Guarded os (words_of (some received)) s a g

-- Connections one after another.
pub serve : List (Os × Option Bytes) → Server → Server
serve [] s = s
serve ((os, received) ∷ rest) s = serve rest (client_thread os received s).0

serve-Guarded :
    (resolve : Bytes → Bytes) (p : Bytes) (content : Option Bytes)
    (connections : List (Os × Option Bytes)) (s : Server)
    → NoAlias resolve p connections
    → Guarded resolve p content s
    → Guarded resolve p content (serve connections s)
unfolding serve
serve-Guarded resolve p content [] s a g = g
serve-Guarded resolve p content ((os, received) ∷ rest) s a g =
    serve-Guarded resolve p content rest (client_thread os received s).0 a.1
      (client_thread-Guarded resolve p content os received s a.0 g)

-- Once a path is recorded as read-only, no sequence of connections changes its permission or its
-- file, whatever they send and however the system calls turn out, as long as no word of a command is
-- another path that the system resolves to the same file.
pub read_only_protected :
    (p : Bytes) (connections : List (Os × Option Bytes)) (s : Server)
    → get_file_permission s.table p ≡ read_only
    → NoAlias s.resolve p connections
    → Guarded s.resolve p (s.files (file_of s p)) (serve connections s)
read_only_protected p connections s ro no_alias =
    serve-Guarded s.resolve p (s.files (file_of s p)) connections s no_alias
      (record { protected = ro; resolves = refl; kept = refl })

-- The protection goes by the path as it is spelled: where another path that may be written resolves
-- to the same file, the removal of that path in which every call works takes away the file of the
-- read-only path, whose permission stays read-only.
pub alias_unprotected :
    (os : Os) (p alias content : Bytes) (s : Server)
    → get_file_permission s.table p ≡ read_only
    → get_file_permission s.table alias ≡ read_write
    → file_of s alias ≡ file_of s p
    → s.files (file_of s p) ≡ some content
    → Works os
    → Guarded s.resolve p none (handle_rm os alias s).0
unfolding handle_rm remove_file
alias_unprotected os p alias content s ro writable same e w =
    ground (arith, ro, writable, same, e, w, str_eq_refl (file_of s p))
