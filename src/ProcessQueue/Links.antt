-- ===== src/ProcessQueue/Links.antt =====
-- The links of the list of week5/queue.c: a chain of nodes with the node before it and the one after.
use cs5600_computer_system.Common.{
  ℕ, ◌≡◌, refl, sym, ◌∙◌, arith, Bool, true, false, ◌||◌, List, [], ◌∷◌, ◌++◌, ◌==◌, Bool-cases,
  inl, inr, eq_of_==,
}
use cs5600_computer_system.ProcessQueue.{Ptr, update}

abbrev pub has : Ptr → List Ptr → Bool
has a [] = false
has a (x ∷ xs) = (a == x) || has a xs

-- No node stands twice.
abbrev pub Distinct : List Ptr → Type 0
Distinct [] = Unit {0}
Distinct (x ∷ xs) = (has x xs ≡ false) × Distinct xs

abbrev pub first_or : List Ptr → Ptr → Ptr
first_or [] d = d
first_or (x ∷ xs) d = x

abbrev pub last_or : Ptr → List Ptr → Ptr
last_or d [] = d
last_or d (x ∷ xs) = last_or x xs

-- The links lead from `before` through the nodes to `after`, and back.
abbrev pub Links : (Ptr → Ptr) → (Ptr → Ptr) → Ptr → List Ptr → Ptr → Type 0
Links next prev before [] after = Unit {0}
Links next prev before (x ∷ xs) after =
    (prev x ≡ before) × (next x ≡ first_or xs after) × Links next prev x xs after

pub ==_sym : (a b : ℕ) → (a == b) ≡ (b == a)
==_sym a b = ground arith

pub update_here {ℓ} : {A : Type ℓ} (f : Ptr → A) (q : Ptr) (v : A) → update f q v q ≡ v
update_here f q v = ground arith

pub update_there {ℓ} :
    {A : Type ℓ} (f : Ptr → A) (q : Ptr) (v : A) (p : Ptr) → (p == q) ≡ false → update f q v p ≡ f p
update_there f q v p h = rw h refl

pub has-append :
    (a : Ptr) (front back : List Ptr) → has a (front ++ back) ≡ (has a front || has a back)
has-append a [] back = refl
has-append a (p ∷ front) back = ground (arith, has-append a front back)

pub has_front :
    (a : Ptr) (front back : List Ptr) → has a front ≡ true → has a (front ++ back) ≡ true
has_front a front back h = rw (has-append a front back, h) refl

pub has_back : (a : Ptr) (front back : List Ptr) → has a back ≡ true → has a (front ++ back) ≡ true
has_back a front back h = rw (has-append a front back, h) (ground arith)

pub ne_of_has : (p q : Ptr) (xs : List Ptr) → has p xs ≡ true → has q xs ≡ false → (p == q) ≡ false
ne_of_has p q [] h k = ground arith
ne_of_has p q (x ∷ xs) h k = ground (arith, ne_of_has p q xs)

-- A write at an address outside a list, or at one inside it, seen from the other side.
pub update_outside {ℓ} :
    {A : Type ℓ} (f : Ptr → A) (q : Ptr) (v : A) (p : Ptr) (xs : List Ptr)
    → has p xs ≡ true
    → has q xs ≡ false
    → update f q v p ≡ f p
update_outside f q v p xs h k = rw (ne_of_has p q xs h k) refl

pub update_inside {ℓ} :
    {A : Type ℓ} (f : Ptr → A) (q : Ptr) (v : A) (p : Ptr) (xs : List Ptr)
    → has p xs ≡ false
    → has q xs ≡ true
    → update f q v p ≡ f p
update_inside f q v p xs h k = rw (==_sym p q ∙ ne_of_has q p xs k h) refl

pub has-last_or : (x : Ptr) (xs : List Ptr) → has (last_or x xs) (x ∷ xs) ≡ true
has-last_or x [] = ground arith
has-last_or x (y ∷ xs) = ground (arith, has-last_or y xs)

pub last_or-append :
    (d : Ptr) (front back : List Ptr) → last_or d (front ++ back) ≡ last_or (last_or d front) back
last_or-append d [] back = refl
last_or-append d (x ∷ front) back = last_or-append x front back

pub first_or-append :
    (front back : List Ptr) (d : Ptr)
    → first_or (front ++ back) d ≡ first_or front (first_or back d)
first_or-append [] back d = refl
first_or-append (x ∷ front) back d = refl

pub append-Distinct :
    (front back : List Ptr)
    → Distinct front
    → Distinct back
    → ((p : Ptr) → has p front ≡ true → has p back ≡ false)
    → Distinct (front ++ back)
append-Distinct [] back d e apart = e
append-Distinct (x ∷ front) back d e apart = (
  ground (arith, d, has-append x front back, apart x),
  append-Distinct front back d.1 e (λ p h. apart p (ground arith)),
)

-- The parts of a list of distinct nodes.
pub front-Distinct : (front back : List Ptr) → Distinct (front ++ back) → Distinct front
front-Distinct [] back d = tt
front-Distinct (x ∷ front) back d =
    (ground (arith, d.0, has-append x front back), front-Distinct front back d.1)

pub back-Distinct : (front back : List Ptr) → Distinct (front ++ back) → Distinct back
back-Distinct [] back d = d
back-Distinct (x ∷ front) back d = back-Distinct front back d.1

pub parts-apart :
    (front back : List Ptr) (p : Ptr)
    → Distinct (front ++ back)
    → has p front ≡ true
    → has p back ≡ false
parts-apart [] back p d h = ground arith
parts-apart (x ∷ front) back p d h = elim (Bool-cases (p == x)) [
  | inl here ↦
      let e : p ≡ x = eq_of_== p x here in rw e (ground (arith, d.0, has-append x front back))
  | inr there ↦ parts-apart front back p d.1 (ground arith)
]

module _ (next prev : Ptr → Ptr) where
  -- Links of other nodes do not matter.
  pub Links-frame :
      {next' prev' : Ptr → Ptr} (before : Ptr) (xs : List Ptr) (after : Ptr)
      → Links next prev before xs after
      → ((p : Ptr) → has p xs ≡ true → next' p ≡ next p)
      → ((p : Ptr) → has p xs ≡ true → prev' p ≡ prev p)
      → Links next' prev' before xs after
  Links-frame before [] after l n m = tt
  Links-frame before (x ∷ xs) after l n m = (
    m x (ground arith) ∙ l.0,
    n x (ground arith) ∙ l.1,
    Links-frame x xs after l.2 (λ p h. n p (ground arith)) (λ p h. m p (ground arith)),
  )

  pub Links-split :
      (before : Ptr) (front back : List Ptr) (after : Ptr)
      → Links next prev before (front ++ back) after
      → Links next prev before front (first_or back after)
        × Links next prev (last_or before front) back after
  Links-split before [] back after l = (tt, l)
  Links-split before (x ∷ front) back after l =
      let rest = Links-split x front back after l.2 in
      ((l.0, l.1 ∙ first_or-append front back after, rest.0), rest.1)

  pub Links-join :
      (before : Ptr) (front back : List Ptr) (after : Ptr)
      → Links next prev before front (first_or back after)
      → Links next prev (last_or before front) back after
      → Links next prev before (front ++ back) after
  Links-join before [] back after l m = m
  Links-join before (x ∷ front) back after l m =
      (l.0, l.1 ∙ sym (first_or-append front back after), Links-join x front back after l.2 m)

  -- A write to the last node's `next` moves the end of the chain.
  pub Links-retarget :
      (before x : Ptr) (xs : List Ptr) (after after' : Ptr)
      → Links next prev before (x ∷ xs) after
      → Distinct (x ∷ xs)
      → Links (update next (last_or x xs) after') prev before (x ∷ xs) after'
  Links-retarget before x [] after after' l d = ground arith
  Links-retarget before x (y ∷ xs) after after' l d = (
    l.0,
    update_inside next (last_or y xs) after' x (y ∷ xs) d.0 (has-last_or y xs) ∙ l.1,
    Links-retarget x y xs after after' l.2 d.1,
  )

  -- A write to the first node's `prev` moves the start of the chain.
  pub Links-restart :
      (before x : Ptr) (xs : List Ptr) (after before' : Ptr)
      → Links next prev before (x ∷ xs) after
      → Distinct (x ∷ xs)
      → Links next (update prev x before') before' (x ∷ xs) after
  Links-restart before x xs after before' l d = (
    ground arith,
    l.1,
    Links-frame x xs after l.2 (λ p h. refl) (λ p h. ground (arith, d.0, ne_of_has p x xs)),
  )
