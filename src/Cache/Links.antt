-- ===== src/Cache/Links.antt =====
-- The doubly linked list of practicum1/cache.c as two link arrays: a chain leads from one node
-- through a list of nodes to another, and back.
use cs5600_computer_system.Common.{
  ℕ, ◌+◌, ◌≡◌, ◌≢◌, refl, sym, subst, ◌∙◌, arith, Bool, true, false, ◌||◌, List, [], ◌∷◌, ◌++◌,
  if◌then◌else◌, ◌==◌, length, Bool-cases, inl, inr, eq_of_==,
}
use cs5600_computer_system.Cache.{Ptr, update}

abbrev pub has : ℕ → List ℕ → Bool
has a [] = false
has a (x ∷ xs) = (a == x) || has a xs

-- No entry occurs twice.
abbrev pub Distinct : List ℕ → Type 0
Distinct [] = Unit {0}
Distinct (x ∷ xs) = (has x xs ≡ false) × Distinct xs

abbrev pub erase : ℕ → List ℕ → List ℕ
erase a [] = []
erase a (x ∷ xs) = if a == x then xs else x ∷ erase a xs

pub has-append : (a : ℕ) (front back : List ℕ) → has a (front ++ back) ≡ (has a front || has a back)
has-append a [] back = refl
has-append a (p ∷ front) back = ground (arith, has-append a front back)

pub has-erase_of_has : (a b : ℕ) (xs : List ℕ) → has a (erase b xs) ≡ true → has a xs ≡ true
has-erase_of_has a b [] h = h
has-erase_of_has a b (x ∷ xs) h = ground (arith, has-erase_of_has a b xs)

pub has-erase_of_not : (a b : ℕ) (xs : List ℕ) → has a xs ≡ false → has a (erase b xs) ≡ false
has-erase_of_not a b [] h = h
has-erase_of_not a b (x ∷ xs) h = ground (arith, has-erase_of_not a b xs)

pub has-erase_self : (a : ℕ) (xs : List ℕ) → Distinct xs → has a (erase a xs) ≡ false
has-erase_self a [] d = refl
has-erase_self a (x ∷ xs) d = ground (arith, has-erase_self a xs)

pub has-erase_ne : (a b : ℕ) (xs : List ℕ) → a ≢ b → has a (erase b xs) ≡ has a xs
has-erase_ne a b [] h = refl
has-erase_ne a b (x ∷ xs) h = ground (arith, has-erase_ne a b xs)

pub erase-Distinct : (a : ℕ) (xs : List ℕ) → Distinct xs → Distinct (erase a xs)
erase-Distinct a [] d = tt
erase-Distinct a (x ∷ xs) d = ground (arith, erase-Distinct a xs, has-erase_of_not x a xs)

pub append-Distinct :
    (xs : List ℕ) (a : ℕ) → Distinct xs → has a xs ≡ false → Distinct (xs ++ (a ∷ []))
append-Distinct [] a d h = (refl, tt)
append-Distinct (x ∷ xs) a d h = ground (arith, append-Distinct xs a, has-append x xs (a ∷ []))

pub length-erase : (a : ℕ) (xs : List ℕ) → has a xs ≡ true → length (erase a xs) + 1 ≡ length xs
length-erase a [] h = ground arith
length-erase a (x ∷ xs) h = ground (arith, length-erase a xs)

-- A member is no other entry than itself.
ne_of_has : (p q : ℕ) (xs : List ℕ) → has p xs ≡ true → has q xs ≡ false → (p == q) ≡ false
ne_of_has p q [] h k = ground arith
ne_of_has p q (x ∷ xs) h k = ground (arith, ne_of_has p q xs)

-- A write at an address outside a list is not seen at its members.
pub update-has :
    (f : Ptr → Ptr) (q v p : Ptr) (xs : List Ptr)
    → has p xs ≡ true
    → has q xs ≡ false
    → update f q v p ≡ f p
update-has f q v p xs h k = rw (ne_of_has p q xs h k)

has_start : (p : ℕ) (xs : List ℕ) (b : ℕ) → has p xs ≡ true → has p (xs ++ (b ∷ [])) ≡ true
has_start p xs b h = ground (arith, has-append p xs (b ∷ []))

not_start : (p : ℕ) (xs : List ℕ) (b : ℕ) → has p (xs ++ (b ∷ [])) ≡ false → has p xs ≡ false
not_start p xs b h = ground (arith, has-append p xs (b ∷ []))

-- From `a` the `next` links lead through `xs` to `b`, and the `prev` links back.
abbrev pub Chain : (Ptr → Ptr) → (Ptr → Ptr) → Ptr → List Ptr → Ptr → Type 0
Chain next prev a [] b = (next a ≡ b) × (prev b ≡ a)
Chain next prev a (x ∷ xs) b = (next a ≡ x) × (prev x ≡ a) × Chain next prev x xs b

module _ (next prev : Ptr → Ptr) where
  -- Links outside the chain do not matter.
  pub Chain-frame :
      {next' prev' : Ptr → Ptr} (a : Ptr) (xs : List Ptr) (b : Ptr)
      → Chain next prev a xs b
      → ((p : Ptr) → has p (a ∷ xs) ≡ true → next' p ≡ next p)
      → ((p : Ptr) → has p (xs ++ (b ∷ [])) ≡ true → prev' p ≡ prev p)
      → Chain next' prev' a xs b
  Chain-frame a [] b c n p = ground (arith, n a, p b)
  Chain-frame a (x ∷ xs) b c n p = (
    ground (arith, n a),
    ground (arith, p x),
    Chain-frame x xs b c.2 (λ q h. n q (ground arith)) (λ q h. p q (ground arith)),
  )

  -- The node before the end is on the chain.
  pub before_end :
      (a : Ptr) (xs : List Ptr) (b : Ptr) → Chain next prev a xs b → has (prev b) (a ∷ xs) ≡ true
  before_end a [] b c = ground arith
  before_end a (x ∷ xs) b c = ground (arith, before_end x xs b c.2)

  -- So is the node before one of its nodes, and the node after it.
  pub before_node :
      (a : Ptr) (xs : List Ptr) (b m : Ptr)
      → Chain next prev a xs b
      → has m xs ≡ true
      → has (prev m) (a ∷ xs) ≡ true
  before_node a [] b m c h = ground arith
  before_node a (x ∷ xs) b m c h = ground (arith, before_node x xs b m c.2)

  pub after_node :
      (a : Ptr) (xs : List Ptr) (b m : Ptr)
      → Chain next prev a xs b
      → has m xs ≡ true
      → has (next m) (xs ++ (b ∷ [])) ≡ true
  after_node a [] b m c h = ground arith
  after_node a (x ∷ []) b m c h = ground arith
  after_node a (x ∷ y ∷ xs) b m c h = ground (arith, after_node x (y ∷ xs) b m c.2)

  -- The links that `remove_node` writes.
  abbrev pub unlinked_next : Ptr → Ptr → Ptr
  unlinked_next m = update next (prev m) (next m)

  abbrev pub unlinked_prev : Ptr → Ptr → Ptr
  unlinked_prev m = update prev (next m) (prev m)

  Chain-erase_first :
      (a m : Ptr) (xs : List Ptr) (b : Ptr)
      → Chain next prev a (m ∷ xs) b
      → Distinct (a ∷ m ∷ xs ++ (b ∷ []))
      → Chain (unlinked_next m) (unlinked_prev m) a xs b
  Chain-erase_first a m [] b c d = ground arith
  Chain-erase_first a m (y ∷ ys) b c d = (
    ground arith,
    ground arith,
    Chain-frame y ys b c.2.2
        (λ p h.
          update-has next (prev m) (next m) p (y ∷ ys) h
            (ground (arith, not_start (prev m) (y ∷ ys) b)))
        (λ p h. update-has prev (next m) (prev m) p (ys ++ (b ∷ [])) h (ground arith)),
  )

  -- `remove_node` takes a node out of the chain.
  pub Chain-erase :
      (a : Ptr) (xs : List Ptr) (b m : Ptr)
      → Chain next prev a xs b
      → has m xs ≡ true
      → Distinct (a ∷ xs ++ (b ∷ []))
      → Chain (unlinked_next m) (unlinked_prev m) a (erase m xs) b
  Chain-erase a [] b m c h d = ground arith
  Chain-erase a (x ∷ xs) b m c h d = elim (Bool-cases (m == x)) [
    | inl here ↦
        let e : m ≡ x = eq_of_== m x here in
        rw here (
          subst (λ p. Chain (unlinked_next p) (unlinked_prev p) a xs b) (sym e)
            (Chain-erase_first a x xs b c d))
    | inr there ↦
        let inside : has m xs ≡ true = ground arith in
        rw there (
          update-has next (prev m) (next m) a (a ∷ []) (ground arith) (
                ground (
                  arith,
                  before_node x xs b m c.2 inside,
                  not_start a (x ∷ xs) b d.0,
                  ne_of_has (prev m) a (x ∷ xs),
                ))
              ∙ c.0,
          update-has prev (next m) (prev m) x (x ∷ []) (ground arith) (
                ground
                  (arith, after_node x xs b m c.2 inside, ne_of_has (next m) x (xs ++ (b ∷ []))))
              ∙ c.1,
          Chain-erase x xs b m c.2 inside d.1,
        )
  ]

  -- The links that `add_node_to_tail` writes.
  abbrev pub linked_next : Ptr → Ptr → Ptr → Ptr
  linked_next m b = update (update next (prev b) m) m b

  abbrev pub linked_prev : Ptr → Ptr → Ptr → Ptr
  linked_prev m b = update (update prev m (prev b)) b m

  -- `add_node_to_tail` puts a new node before the end of the chain.
  pub Chain-append :
      (a : Ptr) (xs : List Ptr) (b m : Ptr)
      → Chain next prev a xs b
      → Distinct (a ∷ xs ++ (b ∷ []))
      → has m (a ∷ xs ++ (b ∷ [])) ≡ false
      → Chain (linked_next m b) (linked_prev m b) a (xs ++ (m ∷ [])) b
  Chain-append a [] b m c d h = ground arith
  Chain-append a (x ∷ xs) b m c d h = (
    ground
        (arith, before_end x xs b c.2, not_start a (x ∷ xs) b d.0, ne_of_has (prev b) a (x ∷ xs)),
    ground (arith, has-append x xs (b ∷ [])),
    Chain-append x xs b m c.2 d.1 (ground arith),
  )
