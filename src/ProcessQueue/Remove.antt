-- ===== src/ProcessQueue/Remove.antt =====
-- Taking a node out of the list of week5/queue.c: `pop_queue`, and the writes of `remove_process`.
use cs5600_computer_system.Common.{
  ◌-◌, ◌<◌, ◌≡◌, refl, sym, ◌∙◌, subst, arith, Bool, true, false, some, List, [], ◌∷◌, ◌++◌, ◌==◌,
  Bool-cases, inl, inr, eq_of_==, length-append, map,
}
use cs5600_computer_system.ProcessQueue.{Ptr, null, update, Process, Queue, ok, unlink, pop_queue}
use cs5600_computer_system.ProcessQueue.Links.{
  has, Distinct, first_or, last_or, Links, has-append, has-last_or, append-Distinct, front-Distinct,
  back-Distinct, parts-apart, Links-frame, Links-split, Links-join, Links-retarget, Links-restart,
  update_outside, has_front, has_back, ne_of_has, ==_sym, last_or-append,
}
use cs5600_computer_system.ProcessQueue.Shape.{IsValid, map-append}

-- What the writes leave of the links, the node's neighbours being the last of `front` and the first
-- of `back`.
abbrev pub relink_next : (Ptr → Ptr) → List Ptr → Ptr → Ptr → Ptr
relink_next next [] after = next
relink_next next (x ∷ xs) after = update next (last_or x xs) after

abbrev pub relink_prev : (Ptr → Ptr) → List Ptr → Ptr → Ptr → Ptr
relink_prev prev [] before = prev
relink_prev prev (y ∷ ys) before = update prev y before

abbrev pub new_head : Queue → List Ptr → Ptr → Ptr
new_head q [] b = q.next b
new_head q (x ∷ xs) b = q.head

abbrev pub new_tail : Queue → List Ptr → Ptr → Ptr
new_tail q [] b = q.prev b
new_tail q (y ∷ ys) b = q.tail

abbrev pub unlinked : Queue → List Ptr → Ptr → List Ptr → Queue
unlinked q front b back = record q {
  live = update q.live b false;
  next = relink_next q.next front (q.next b);
  prev = relink_prev q.prev back (q.prev b);
  head = new_head q front b;
  tail = new_tail q back b;
  size = q.size - 1;
}

relinked_front :
    (next prev : Ptr → Ptr) (front : List Ptr) (b after : Ptr)
    → Links next prev null front b
    → Distinct front
    → Links (relink_next next front after) prev null front after
relinked_front next prev [] b after l d = tt
relinked_front next prev (x ∷ xs) b after l d = Links-retarget next prev null x xs b after l d

relinked_back :
    (next prev : Ptr → Ptr) (back : List Ptr) (b before : Ptr)
    → Links next prev b back null
    → Distinct back
    → Links next (relink_prev prev back before) before back null
relinked_back next prev [] b before l d = tt
relinked_back next prev (y ∷ ys) b before l d = Links-restart next prev b y ys null before l d

next_apart :
    (next : Ptr → Ptr) (front back : List Ptr) (after p : Ptr)
    → ((q : Ptr) → has q front ≡ true → has q back ≡ false)
    → has p back ≡ true
    → relink_next next front after p ≡ next p
next_apart next [] back after p h m = refl
next_apart next (x ∷ xs) back after p h m =
    update_outside next (last_or x xs) after p back m (h (last_or x xs) (has-last_or x xs))

prev_apart :
    (prev : Ptr → Ptr) (front back : List Ptr) (before p : Ptr)
    → ((q : Ptr) → has q front ≡ true → has q back ≡ false)
    → has p front ≡ true
    → relink_prev prev back before p ≡ prev p
prev_apart prev front [] before p h m = refl
prev_apart prev front (y ∷ ys) before p h m = ground (arith, h p m)

module _ (front : List Ptr) (b : Ptr) (back : List Ptr) (d : Distinct (front ++ (b ∷ back))) where
  back_apart : (p : Ptr) → has p front ≡ true → has p back ≡ false
  back_apart p h = ground (arith, parts-apart front (b ∷ back) p d h)

  not_front : has b front ≡ false
  not_front = elim (Bool-cases (has b front)) [
    | inl inside ↦ ground (arith, parts-apart front (b ∷ back) b d inside)
    | inr outside ↦ outside
  ]

  not_back : has b back ≡ false
  not_back = (back-Distinct front (b ∷ back) d).0

  rest-Distinct : Distinct (front ++ back)
  rest-Distinct =
      append-Distinct front back (front-Distinct front (b ∷ back) d)
        ((back-Distinct front (b ∷ back) d).1) back_apart

  owned_less :
      (live : Ptr → Bool)
      → ((p : Ptr) → live p ≡ has p (front ++ (b ∷ back)))
      → (p : Ptr) → update live b false p ≡ has p (front ++ back)
  owned_less live h p =
      let m = has-append p front back in
      elim (Bool-cases (p == b)) [
        | inl here ↦ let e : p ≡ b = eq_of_== p b here in ground (arith, e, m, not_front, not_back)
        | inr there ↦ ground (arith, m, h p, has-append p front (b ∷ back))
      ]

  chain_unlinked :
      (next prev : Ptr → Ptr)
      → Links next prev null (front ++ (b ∷ back)) null
      → Links
          (relink_next next front (next b))
          (relink_prev prev back (prev b))
          null
          (front ++ back)
          null
  chain_unlinked next prev l =
      let parts = Links-split next prev null front (b ∷ back) null l in
      let n = relink_next next front (next b) in
      let m = relink_prev prev back (prev b) in
      let of_front =
        relinked_front next prev front b (next b) parts.0 (front-Distinct front (b ∷ back) d) in
      let of_back =
        relinked_back next prev back b (prev b) parts.1.2 ((back-Distinct front (b ∷ back) d).1) in
      Links-join n m null front back null
        (subst (λ a. Links n m null front a) parts.1.1
          (Links-frame n prev {prev' = m} null front (next b) of_front (λ p h. refl)
            (λ p h. prev_apart prev front back (prev b) p back_apart h)))
        (subst (λ a. Links n m a back null) parts.1.0
          (Links-frame next m {next' = n} (prev b) back null of_back
            (λ p h. next_apart next front back (next b) p back_apart h) (λ p h. refl)))

within_less :
    (front : List Ptr) (b : Ptr) (back : List Ptr) (fresh : Ptr)
    → ((p : Ptr) → has p (front ++ (b ∷ back)) ≡ true → (0 < p) × (p < fresh))
    → (p : Ptr) → has p (front ++ back) ≡ true
    → (0 < p) × (p < fresh)
within_less front b back fresh h p m =
    h p (ground (arith, has-append p front back, has-append p front (b ∷ back)))

head_less :
    (q : Queue) (front : List Ptr) (b : Ptr) (back : List Ptr)
    → q.head ≡ first_or (front ++ (b ∷ back)) null
    → q.next b ≡ first_or back null
    → new_head q front b ≡ first_or (front ++ back) null
head_less q [] b back h e = e
head_less q (x ∷ xs) b back h e = h

tail_less :
    (q : Queue) (front : List Ptr) (b : Ptr) (back : List Ptr)
    → q.tail ≡ last_or null (front ++ (b ∷ back))
    → q.prev b ≡ last_or null front
    → new_tail q back b ≡ last_or null (front ++ back)
tail_less q front b [] h e = e ∙ sym (last_or-append null front [])
tail_less q front b (y ∷ ys) h e =
    h ∙ last_or-append null front (b ∷ (y ∷ ys)) ∙ sym (last_or-append null front (y ∷ ys))

module _ (q : Queue) (front : List Ptr) (b : Ptr) (back : List Ptr) (ps : List Process)
    (v : IsValid q (front ++ (b ∷ back)) ps) where
  chain :
      Links q.next q.prev null front b × Links q.next q.prev (last_or null front) (b ∷ back) null
  chain = Links-split q.next q.prev null front (b ∷ back) null v.linked

  pub unlinked-IsValid :
      IsValid (unlinked q front b back) (front ++ back) (map q.element front ++ map q.element back)
  unlinked-IsValid = record {
    distinct = rest-Distinct front b back v.distinct;
    linked = chain_unlinked front b back v.distinct q.next q.prev v.linked;
    head_is = head_less q front b back v.head_is chain.1.1;
    tail_is = tail_less q front b back v.tail_is chain.1.0;
    size_is = omega (arith, v.size_is, length-append front (b ∷ back), length-append front back);
    owned = owned_less front b back v.distinct q.live v.owned;
    within = within_less front b back q.fresh v.within;
    positive = v.positive;
    elements = map-append q.element front back;
  }

  -- Any node of the queue: it is live, and not NULL.
  node_live : (p : Ptr) → has p (front ++ (b ∷ back)) ≡ true → q.live p ≡ true
  node_live p h = v.owned p ∙ h

  pub node_some : (p : Ptr) → has p (front ++ (b ∷ back)) ≡ true → (p == null) ≡ false
  node_some p h = ground (arith, v.within p h)

  pub b_live : q.live b ≡ true
  b_live = node_live b (ground (arith, has-append b front (b ∷ back)))

  -- The node is none of those before it.
  b_apart : (p : Ptr) → has p front ≡ true → (b == p) ≡ false
  b_apart p h = ==_sym b p ∙ ne_of_has p b front h (not_front front b back v.distinct)

  pub b_some : (b == null) ≡ false
  b_some = node_some b (ground (arith, has-append b front (b ∷ back)))

-- The writes around the node touch live nodes only.
pub unlink_lem :
    (q : Queue) (front : List Ptr) (b : Ptr) (back : List Ptr) (ps : List Process)
    → IsValid q (front ++ (b ∷ back)) ps
    → unlink q b ≡ ok (unlinked q front b back)
unfolding unlink
unlink_lem q [] b [] ps v = let c = chain q [] b [] ps v in rw (c.1.0, c.1.1) (rw (c.1.0) refl)
unlink_lem q [] b (y ∷ ys) ps v =
    let c = chain q [] b (y ∷ ys) ps v in
    let m : has y (b ∷ (y ∷ ys)) ≡ true = ground arith in
    rw (c.1.0, c.1.1, node_some q [] b (y ∷ ys) ps v y m, node_live q [] b (y ∷ ys) ps v y m)
      (rw (c.1.0) refl)
unlink_lem q (x ∷ xs) b [] ps v =
    let c = chain q (x ∷ xs) b [] ps v in
    let p = last_or x xs in
    let m : has p ((x ∷ xs) ++ (b ∷ [])) ≡ true =
      has_front p (x ∷ xs) (b ∷ []) (has-last_or x xs) in
    let apart = b_apart q (x ∷ xs) b [] ps v p (has-last_or x xs) in
    rw (c.1.0, node_some q (x ∷ xs) b [] ps v p m, node_live q (x ∷ xs) b [] ps v p m)
      (rw (apart) (rw (c.1.1) (rw (c.1.0) refl)))
unlink_lem q (x ∷ xs) b (y ∷ ys) ps v =
    let c = chain q (x ∷ xs) b (y ∷ ys) ps v in
    let p = last_or x xs in
    let nodes = (x ∷ xs) ++ (b ∷ (y ∷ ys)) in
    let m : has p nodes ≡ true = has_front p (x ∷ xs) (b ∷ (y ∷ ys)) (has-last_or x xs) in
    let n : has y nodes ≡ true = has_back y (x ∷ xs) (b ∷ (y ∷ ys)) (ground arith) in
    let apart = b_apart q (x ∷ xs) b (y ∷ ys) ps v p (has-last_or x xs) in
    rw (c.1.0, node_some q (x ∷ xs) b (y ∷ ys) ps v p m, node_live q (x ∷ xs) b (y ∷ ys) ps v p m)
      (rw (apart) (
        rw
          (
            c.1.1,
            node_some q (x ∷ xs) b (y ∷ ys) ps v y n,
            node_live q (x ∷ xs) b (y ∷ ys) ps v y n,
          )
          (rw (c.1.0) refl)))

-- `pop_queue` on a queue with a first node is the same writes.
pub pop_queue_lem :
    (q : Queue) (b : Ptr) (back : List Ptr) (ps : List Process)
    → IsValid q (b ∷ back) ps
    → pop_queue (some q) ≡ ok (some (q.element b), some (unlinked q [] b back))
unfolding pop_queue
pop_queue_lem q b [] ps v =
    let c = chain q [] b [] ps v in
    rw (v.head_is, b_some q [] b [] ps v, b_live q [] b [] ps v) (rw (c.1.1) (rw (c.1.0) refl))
pop_queue_lem q b (y ∷ ys) ps v =
    let c = chain q [] b (y ∷ ys) ps v in
    let m : has y (b ∷ (y ∷ ys)) ≡ true = ground arith in
    rw (v.head_is, b_some q [] b (y ∷ ys) ps v, b_live q [] b (y ∷ ys) ps v)
      (rw (c.1.1, node_some q [] b (y ∷ ys) ps v y m, node_live q [] b (y ∷ ys) ps v y m)
        (rw (c.1.0) refl))
