-- ===== src/ProcessQueue/Highest.antt =====
-- The process that `remove_process` of week5/queue.c takes, and that its loop ends.
use cs5600_computer_system.Common.{
  suc, ◌≡◌, refl, sym, ap, ◌∙◌, subst, arith, Bool, true, false, not, Option, none, some, List, [],
  ◌∷◌, ◌++◌, if◌then◌else◌, ◌==◌, Bool-cases, inl, inr, length, map, append_assoc, append-nil,
}
use cs5600_computer_system.Common.Int.{ltℤ}
use cs5600_computer_system.ProcessQueue.{Ptr, null, Process, Queue, ok, find_best}
use cs5600_computer_system.ProcessQueue.Links.{has, first_or, Links}
use cs5600_computer_system.ProcessQueue.Shape.{map-append}

-- Whether the first process has the lower priority.
abbrev pub lower : Process → Process → Bool
lower p q = ltℤ p.priority q.priority

-- The processes by themselves: the one to take, and the others in order.
abbrev pub take_best : List Process → Option (Process × List Process)
take_best [] = none
take_best (p ∷ ps) = elim (take_best ps) [
  | none ↦ some (p, ps)
  | some (q, rest) ↦ if lower p q then some (q, p ∷ rest) else some (p, ps)
]

abbrev pub Every : (Process → Bool) → List Process → Type 0
Every test [] = Unit {0}
Every test (p ∷ ps) = (test p ≡ true) × Every test ps

Every-append :
    (test : Process → Bool) (a b : List Process) → Every test a → Every test b → Every test (a ++ b)
Every-append test [] b h k = k
Every-append test (p ∷ a) b h k = (h.0, Every-append test a b h.1 k)

Every-weaken :
    (s t : Process → Bool) (ps : List Process)
    → ((p : Process) → s p ≡ true → t p ≡ true)
    → Every s ps
    → Every t ps
Every-weaken s t [] h k = tt
Every-weaken s t (p ∷ ps) h k = (h p k.0, Every-weaken s t ps h k.1)

-- All of them are lower than `p`, or none is higher.
abbrev pub AllLower : Process → List Process → Type 0
AllLower p ps = Every (λ q. lower q p) ps

abbrev pub NoneHigher : Process → List Process → Type 0
NoneHigher p ps = Every (λ q. not (lower p q)) ps

lower_trans : (p q r : Process) → lower p q ≡ true → lower q r ≡ true → lower p r ≡ true
lower_trans p q r h k = ground arith

not_higher_lower : (p q r : Process) → not (lower q p) ≡ true → lower q r ≡ true → lower p r ≡ true
not_higher_lower p q r h k = ground arith

lower_irrefl : (p : Process) → lower p p ≡ false
lower_irrefl p = ground arith

-- The process taken, if any, is not higher than `p`.
abbrev pub NotAbove : Process → Option (Process × List Process) → Type 0
NotAbove p none = Unit {0}
NotAbove p (some (q, rest)) = lower p q ≡ false

take_best-NotAbove_step :
    (p r : Process) (ps : List Process) (o : Option (Process × List Process))
    → lower p r ≡ false
    → NotAbove p o
    → NotAbove p (elim o [
      | none ↦ some (r, ps)
      | some (q, rest) ↦ if lower r q then some (q, r ∷ rest) else some (r, ps)
    ])
take_best-NotAbove_step p r ps none h k = h
take_best-NotAbove_step p r ps (some (q, rest)) h k = elim (Bool-cases (lower r q)) [
  | inl above ↦ rw above k
  | inr other ↦ rw other h
]

take_best-NotAbove : (p : Process) (ps : List Process) → NoneHigher p ps → NotAbove p (take_best ps)
take_best-NotAbove p [] h = tt
take_best-NotAbove p (r ∷ ps) h =
    take_best-NotAbove_step p r ps (take_best ps) (ground (arith, h.0))
      (take_best-NotAbove p ps h.1)

take_best_first :
    (p : Process) (ps : List Process) (o : Option (Process × List Process))
    → NotAbove p o
    → ◌≡◌ {A = Option (Process × List Process)}
        (elim o [
          | none ↦ some (p, ps)
          | some (q, rest) ↦ if lower p q then some (q, p ∷ rest) else some (p, ps)
        ])
        (some (p, ps))
take_best_first p ps none h = refl
take_best_first p ps (some (q, rest)) h = rw h refl

-- The process that stands so among the others is the one to take.
pub take_best_lem :
    (front : List Process) (p : Process) (back : List Process)
    → AllLower p front
    → NoneHigher p back
    → take_best (front ++ (p ∷ back)) ≡ some (p, front ++ back)
take_best_lem [] p back h k = take_best_first p back (take_best back) (take_best-NotAbove p back k)
take_best_lem (x ∷ front) p back h k = rw (take_best_lem front p back h.1 k, h.0) refl

-- The loop's choice among the nodes from `current` on.
abbrev pub best_node : (Ptr → Process) → Ptr → List Ptr → Ptr
best_node f best [] = best
best_node f best (x ∷ xs) = best_node f (if lower (f best) (f x) then x else best) xs

-- The loop ends within one round more than there are nodes.
pub find_best_lem :
    (q : Queue) (before current best : Ptr) (xs : List Ptr)
    → Links q.next q.prev before xs null
    → current ≡ first_or xs null
    → ((p : Ptr) → has p xs ≡ true → q.live p ≡ true)
    → ((p : Ptr) → has p xs ≡ true → (p == null) ≡ false)
    → find_best (suc (length xs)) q current best ≡ ok (best_node q.element best xs)
unfolding find_best
find_best_lem q before current best [] l e live positive = rw e refl
find_best_lem q before current best (x ∷ xs) l e live positive =
    let here : has x (x ∷ xs) ≡ true = ground arith in
    rw (e, positive x here, live x here)
      (find_best_lem q x (q.next x) (if lower (q.element best) (q.element x) then x else best) xs
        l.2 l.1 (λ p h. live p (ground arith)) (λ p h. positive p (ground arith)))

-- Where the loop's choice stands among the nodes.
pub record IsBest (f : Ptr → Process) (nodes : List Ptr) (b : Ptr) : Type 0 where
  pub front : List Ptr
  pub back : List Ptr
  pub parts : nodes ≡ front ++ (b ∷ back)
  pub before : AllLower (f b) (map f front)
  pub after : NoneHigher (f b) (map f back)

keep-IsBest :
    (f : Ptr → Process) (nodes : List Ptr) (b x : Ptr)
    → IsBest f nodes b
    → lower (f b) (f x) ≡ false
    → IsBest f (nodes ++ (x ∷ [])) b
keep-IsBest f nodes b x i h = record {
  front = i.front;
  back = i.back ++ (x ∷ []);
  parts = ap (λ l. l ++ (x ∷ [])) i.parts ∙ append_assoc i.front (b ∷ i.back) (x ∷ []);
  before = i.before;
  after =
      subst (NoneHigher (f b)) (sym (map-append f i.back (x ∷ [])))
        (Every-append (λ q. not (lower (f b) q)) (map f i.back) (f x ∷ []) i.after (rw h refl, tt));
}

change-IsBest :
    (f : Ptr → Process) (nodes : List Ptr) (b x : Ptr)
    → IsBest f nodes b
    → lower (f b) (f x) ≡ true
    → IsBest f (nodes ++ (x ∷ [])) x
change-IsBest f nodes b x i h =
    let test : Process → Bool = λ q. lower q (f x) in
    record {
      front = nodes;
      back = [];
      parts = refl;
      before =
          subst (λ l. AllLower (f x) (map f l)) (sym i.parts)
            (subst (AllLower (f x)) (sym (map-append f i.front (b ∷ i.back))) (
              Every-append test (map f i.front) (f b ∷ map f i.back)
                (Every-weaken (λ q. lower q (f b)) test (map f i.front)
                  (λ q k. lower_trans q (f b) (f x) k h) i.before)
                (
                  h,
                  Every-weaken (λ q. not (lower (f b) q)) test (map f i.back)
                      (λ q k. not_higher_lower q (f b) (f x) k h) i.after,
                )));
      after = tt;
    }

best_node-IsBest :
    (f : Ptr → Process) (seen : List Ptr) (b : Ptr) (xs : List Ptr)
    → IsBest f seen b
    → IsBest f (seen ++ xs) (best_node f b xs)
best_node-IsBest f seen b [] i = subst (λ l. IsBest f l b) (sym (append-nil seen)) i
best_node-IsBest f seen b (x ∷ xs) i =
    let next = if lower (f b) (f x) then x else b in
    let j : IsBest f (seen ++ (x ∷ [])) next = elim (Bool-cases (lower (f b) (f x))) [
      | inl above ↦ rw above (change-IsBest f seen b x i above)
      | inr other ↦ rw other (keep-IsBest f seen b x i other)
    ] in
    subst (λ l. IsBest f l (best_node f next xs)) (append_assoc seen (x ∷ []) xs)
      (best_node-IsBest f (seen ++ (x ∷ [])) next xs j)

-- The loop starts at the head with the head as the best.
pub best_node_head :
    (f : Ptr → Process) (x : Ptr) (xs : List Ptr) → IsBest f (x ∷ xs) (best_node f x (x ∷ xs))
best_node_head f x xs = rw (lower_irrefl (f x)) (
    best_node-IsBest f (x ∷ []) x xs
      (record { front = []; back = []; parts = refl; before = tt; after = tt }))
