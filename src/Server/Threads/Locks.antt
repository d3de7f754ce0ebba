-- ===== src/Server/Threads/Locks.antt =====
-- The locks of the threads of practicum2/server.c: an inode's lock says who is between `flock` and
-- the unlocking.
use cs5600_computer_system.Common.{
  ℕ, zero, suc, ◌+◌, ◌≡◌, sym, ap, ◌∙◌, subst, arith, Bool, true, false, Option, none, some, List,
  [], ◌∷◌, if◌then◌else◌, ◌==◌, Bool-cases, inl, inr, eq_of_==,
}
use cs5600_computer_system.Server.Threads.{
  Ino, put, Lock, free, shared, exclusive, lock_sh, lock_ex, unlock, System, Pc, write_recv,
  write_data, write_unlock, get_read, get_unlock, rm_remove, rm_unlock, Turn, locked, Thread,
}

abbrev pub one : Bool → ℕ
one b = if b then 1 else 0

-- Does a thread that stands there hold the shared lock of the inode, or the exclusive one?
abbrev pub reads_at : Pc → Ino → ℕ
reads_at (get_read i) j = one (i == j)
reads_at (get_unlock i buf) j = one (i == j)
reads_at pc j = 0

abbrev pub writes_at : Pc → Ino → ℕ
writes_at (write_recv i) j = one (i == j)
writes_at (write_data i buf) j = one (i == j)
writes_at (write_unlock i a) j = one (i == j)
writes_at (rm_remove i remote) j = one (i == j)
writes_at (rm_unlock i a) j = one (i == j)
writes_at pc j = 0

-- The threads that hold the lock of an inode.
abbrev pub readers : Ino → List Thread → ℕ
readers i [] = 0
readers i (t ∷ ts) = reads_at t.pc i + readers i ts

abbrev pub writers : Ino → List Thread → ℕ
writers i [] = 0
writers i (t ∷ ts) = writes_at t.pc i + writers i ts

-- What a lock says of their numbers.
abbrev pub Agrees : Lock → ℕ → ℕ → Type 0
Agrees free r w = (r ≡ 0) × (w ≡ 0)
Agrees (shared n) r w = (r ≡ suc n) × (w ≡ 0)
Agrees exclusive r w = (r ≡ 0) × (w ≡ 1)

-- A turn that is sound beside any other holders.
abbrev pub Keeps : Pc → System → Pc → System → Type 0
Keeps pc s pc' s' =
    (j : Ino) (r w : ℕ)
    → Agrees (s.locks j) (reads_at pc j + r) (writes_at pc j + w)
    → Agrees (s'.locks j) (reads_at pc' j + r) (writes_at pc' j + w)

abbrev pub KeepsTurn : Pc → System → Option Turn → Type 0
KeepsTurn pc s none = Unit {0}
KeepsTurn pc s (some (pc', s', out)) = Keeps pc s pc' s'

pub keeps_if :
    (pc : Pc) (s : System) (b : Bool) (x y : Option Turn)
    → KeepsTurn pc s x
    → KeepsTurn pc s y
    → KeepsTurn pc s (if b then x else y)
keeps_if pc s true x y h k = h
keeps_if pc s false x y h k = k

-- The lock of one inode changes with what the thread holds there.
put-Keeps :
    (pc pc' : Pc) (s : System) (i : Ino) (l : Lock)
    → ((r w : ℕ)
        → Agrees (s.locks i) (reads_at pc i + r) (writes_at pc i + w)
        → Agrees l (reads_at pc' i + r) (writes_at pc' i + w))
    → ((j : Ino)
        → (i == j) ≡ false
        → (reads_at pc' j ≡ reads_at pc j) × (writes_at pc' j ≡ writes_at pc j))
    → Keeps pc s pc' (record s { locks = put s.locks i l })
put-Keeps pc pc' s i l here there j r w h = elim (Bool-cases (i == j)) [
  | inl e ↦
      let k : i ≡ j = eq_of_== i j e in
      rw e (
        subst (λ j. Agrees l (reads_at pc' j + r) (writes_at pc' j + w)) k
          (here r w
            (subst (λ j. Agrees (s.locks j) (reads_at pc j + r) (writes_at pc j + w)) (sym k) h)))
  | inr e ↦ rw (e, (there j e).0, (there j e).1) h
]

one_here : (i : ℕ) → one (i == i) ≡ 1
one_here i = ground arith

-- What a thread that stands there holds: nothing, or the lock of one inode.
abbrev HoldsNone : Pc → Type 0
HoldsNone p = (j : Ino) → (reads_at p j ≡ 0) × (writes_at p j ≡ 0)

abbrev Reads : Ino → Pc → Type 0
Reads i p = (j : Ino) → (reads_at p j ≡ one (i == j)) × (writes_at p j ≡ 0)

abbrev Writes : Ino → Pc → Type 0
Writes i p = (j : Ino) → (reads_at p j ≡ 0) × (writes_at p j ≡ one (i == j))

-- `flock` and the unlocking, by what the lock was.
module _ (pc pc' : Pc) (s : System) (i : Ino) where
  as_lock :
      (l : Lock) (r w : ℕ)
      → s.locks i ≡ l
      → Agrees (s.locks i) (reads_at pc i + r) (writes_at pc i + w)
      → Agrees l (reads_at pc i + r) (writes_at pc i + w)
  as_lock l r w e a = subst (λ l. Agrees l (reads_at pc i + r) (writes_at pc i + w)) e a

  pub got_ex :
      (l : Lock)
      → s.locks i ≡ l
      → HoldsNone pc
      → Writes i pc'
      → KeepsTurn pc s (locked s i (lock_ex l) pc')
  unfolding lock_ex
  got_ex free e h k =
      put-Keeps pc pc' s i exclusive
        (λ r w a.
          let a' = as_lock free r w e a in
          (
            omega (arith, (k i).0, (h i).0, a'.0),
            omega (arith, (k i).1, one_here i, (h i).1, a'.1),
          ))
        (λ j ne. ((k j).0 ∙ sym (h j).0, (k j).1 ∙ ap one ne ∙ sym (h j).1))
  got_ex (shared n) e h k = tt
  got_ex exclusive e h k = tt

  pub got_sh :
      (l : Lock)
      → s.locks i ≡ l
      → HoldsNone pc
      → Reads i pc'
      → KeepsTurn pc s (locked s i (lock_sh l) pc')
  unfolding lock_sh
  got_sh free e h k =
      put-Keeps pc pc' s i (shared 0)
        (λ r w a.
          let a' = as_lock free r w e a in
          (
            omega (arith, (k i).0, one_here i, (h i).0, a'.0),
            omega (arith, (k i).1, (h i).1, a'.1),
          ))
        (λ j ne. ((k j).0 ∙ ap one ne ∙ sym (h j).0, (k j).1 ∙ sym (h j).1))
  got_sh (shared n) e h k =
      put-Keeps pc pc' s i (shared (suc n))
        (λ r w a.
          let a' = as_lock (shared n) r w e a in
          (
            omega (arith, (k i).0, one_here i, (h i).0, a'.0),
            omega (arith, (k i).1, (h i).1, a'.1),
          ))
        (λ j ne. ((k j).0 ∙ ap one ne ∙ sym (h j).0, (k j).1 ∙ sym (h j).1))
  got_sh exclusive e h k = tt

  pub gave_ex :
      (l : Lock)
      → s.locks i ≡ l
      → Writes i pc
      → HoldsNone pc'
      → Keeps pc s pc' (record s { locks = put s.locks i (unlock l) })
  unfolding unlock
  gave_ex free e h k =
      put-Keeps pc pc' s i free
        (λ r w a.
          let a' = as_lock free r w e a in absurd (omega (arith, (h i).1, one_here i, a'.1)))
        (λ j ne. ((k j).0 ∙ sym (h j).0, (k j).1 ∙ sym ((h j).1 ∙ ap one ne)))
  gave_ex (shared n) e h k =
      put-Keeps pc pc' s i (unlock (shared n))
        (λ r w a.
          let a' = as_lock (shared n) r w e a in absurd (omega (arith, (h i).1, one_here i, a'.1)))
        (λ j ne. ((k j).0 ∙ sym (h j).0, (k j).1 ∙ sym ((h j).1 ∙ ap one ne)))
  gave_ex exclusive e h k =
      put-Keeps pc pc' s i free
        (λ r w a.
          let a' = as_lock exclusive r w e a in
          (
            omega (arith, (k i).0, (h i).0, a'.0),
            omega (arith, (k i).1, one_here i, (h i).1, a'.1),
          ))
        (λ j ne. ((k j).0 ∙ sym (h j).0, (k j).1 ∙ sym ((h j).1 ∙ ap one ne)))

  pub gave_sh :
      (l : Lock)
      → s.locks i ≡ l
      → Reads i pc
      → HoldsNone pc'
      → Keeps pc s pc' (record s { locks = put s.locks i (unlock l) })
  unfolding unlock
  gave_sh free e h k =
      put-Keeps pc pc' s i free
        (λ r w a.
          let a' = as_lock free r w e a in absurd (omega (arith, (h i).0, one_here i, a'.0)))
        (λ j ne. ((k j).0 ∙ sym ((h j).0 ∙ ap one ne), (k j).1 ∙ sym (h j).1))
  gave_sh (shared zero) e h k =
      put-Keeps pc pc' s i free
        (λ r w a.
          let a' = as_lock (shared 0) r w e a in
          (
            omega (arith, (k i).0, one_here i, (h i).0, a'.0),
            omega (arith, (k i).1, (h i).1, a'.1),
          ))
        (λ j ne. ((k j).0 ∙ sym ((h j).0 ∙ ap one ne), (k j).1 ∙ sym (h j).1))
  gave_sh (shared (suc n)) e h k =
      put-Keeps pc pc' s i (shared n)
        (λ r w a.
          let a' = as_lock (shared (suc n)) r w e a in
          (
            omega (arith, (k i).0, one_here i, (h i).0, a'.0),
            omega (arith, (k i).1, (h i).1, a'.1),
          ))
        (λ j ne. ((k j).0 ∙ sym ((h j).0 ∙ ap one ne), (k j).1 ∙ sym (h j).1))
  gave_sh exclusive e h k =
      put-Keeps pc pc' s i free
        (λ r w a.
          let a' = as_lock exclusive r w e a in absurd (omega (arith, (h i).0, one_here i, a'.0)))
        (λ j ne. ((k j).0 ∙ sym ((h j).0 ∙ ap one ne), (k j).1 ∙ sym (h j).1))
