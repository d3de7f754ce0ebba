-- ===== src/Cache/Requests.antt =====
-- The cache of practicum1/cache.c from `init_cache` on, over any sequence of requests, and
-- `test_cache`.
use cs5600_computer_system.Common.{
  ℕ, zero, suc, ◌+◌, ◌%◌, ◌<◌, ◌≡◌, refl, ap, ◌∙◌, arith, Option, List, [], ◌∷◌, length, get_or,
  replicate, length-replicate,
}
use native.Mathlib.Nat.{mod-lt}
use cs5600_computer_system.Message.{Message, Files, Io}
use cs5600_computer_system.Cache.{
  Ptr, null, Cache, Cmd, ok, pure, ◌>>=◌, ◌>>◌, hash_size, init_cache, put_msg,
  get_msg_from_cache_or_disk, test_loop, test_cache,
}
use cs5600_computer_system.Cache.Invariant.{IsValid, view, FilesMatch, payload-IsValid}
use cs5600_computer_system.Cache.Refine.{Ends, put_msg_refines, get_msg_refines}
use cs5600_computer_system.Cache.Lru
use cs5600_computer_system.Cache.Lru.{Lru, Request, fetch, store, request_id, lookup}

get_or-replicate : (n i : ℕ) → get_or (replicate n null) i null ≡ null
get_or-replicate zero i = refl
get_or-replicate (suc n) zero = refl
get_or-replicate (suc n) (suc i) = get_or-replicate n i

module _ (key : Ptr → ℕ) (value : Ptr → Message) (prev next : Ptr → Ptr) (files : Files) where
  pub init_cache-IsValid : FilesMatch files → IsValid (init_cache key value prev next files) []
  unfolding init_cache
  init_cache-IsValid named = record {
    linked = record {
      distinct = (refl, (refl, tt));
      chain = (refl, refl);
      nodes = λ p h. ground arith;
    };
    indexed = record {
      small = λ p h. ground arith;
      unique = tt;
      slots = λ i lt. get_or-replicate hash_size i;
      slot_count = length-replicate hash_size null;
    };
    count = refl;
    room = omega arith;
    named = named;
  }

-- The requests of a client one after another, with how the system calls of each turn out.
pub serve : List (Io × Request) → Cmd (List (Option Message))
serve [] = pure []
serve ((io, fetch id) ∷ rs) = do
  a ← get_msg_from_cache_or_disk io id
  later ← serve rs
  pure (a ∷ later)
serve ((io, store msg) ∷ rs) = put_msg io msg >> serve rs

-- What the specification answers, and its last state.
unfoldable pub answers : List (Io × Request) → Lru → List (Option Message) × Lru
answers [] l = ([], l)
answers ((io, fetch id) ∷ rs) l =
    let (a, l') = Lru.get io id l in let (later, l'') = answers rs l' in (a ∷ later, l'')
answers ((io, store msg) ∷ rs) l = answers rs (Lru.put io msg l)

abbrev pub AllSmall : List (Io × Request) → Type 0
AllSmall [] = Unit {0}
AllSmall ((io, r) ∷ rs) = (request_id r < hash_size) × AllSmall rs

pub serve_refines :
    (rs : List (Io × Request)) (s : Cache) (order : List Ptr)
    → IsValid s order
    → AllSmall rs
    → Ends (serve rs s) (answers rs (view s order)).0 (answers rs (view s order)).1
unfolding serve answers
serve_refines [] s order v small = record {
  state = s;
  order = order;
  ends = refl;
  valid = v;
  stands = refl;
}
serve_refines ((io, fetch id) ∷ rs) s order v small =
    let e = get_msg_refines io id s order v small.0 in
    let f = serve_refines rs e.state e.order e.valid small.1 in
    record {
      state = f.state;
      order = f.order;
      ends = rw (e.ends, f.ends, e.stands);
      valid = f.valid;
      stands = f.stands ∙ rw e.stands;
    }
serve_refines ((io, store msg) ∷ rs) s order v small =
    let e = put_msg_refines io msg s order v small.0 in
    let f = serve_refines rs e.state e.order e.valid small.1 in
    record {
      state = f.state;
      order = f.order;
      ends = rw (e.ends, f.ends, e.stands);
      valid = f.valid;
      stands = f.stands ∙ rw e.stands;
    }

-- An access is a hit or a miss.
get-counts :
    (io : Io) (id : ℕ) (l : Lru)
    → let l' = (Lru.get io id l).1 in l'.hits + l'.misses ≡ l.hits + l.misses + 1
unfolding Lru.get Lru.load Lru.put
get-counts io id l = ground arith

test_loop-counts :
    (rounds : List (Io × ℕ)) (n : ℕ) (s : Cache) (order : List Ptr)
    → IsValid s order
    → 0 < n
    → n < hash_size
    → (t : Cache) × (order' : List Ptr) × (test_loop rounds n s ≡ ok tt t)
      × IsValid t order'
      × (t.hits + t.misses ≡ s.hits + s.misses + length rounds)
unfolding test_loop
test_loop-counts [] n s order v p q = (s, order, refl, v, omega arith)
test_loop-counts ((io, r) ∷ rounds) n s order v p q =
    let id = r % n + 1 in
    let e = get_msg_refines io id s order v (omega (arith, mod-lt r {m = n} p)) in
    let (t, order', eq, valid, sum) = test_loop-counts rounds n e.state e.order e.valid p q in
    (
      t,
      order',
      rw (e.ends, eq),
      valid,
      omega (
        arith,
        sum,
        get-counts io id (view s order),
        ap (λ (l : Lru). l.hits + l.misses) e.stands,
      ),
    )

-- On a valid cache, whatever `rand` yields and however the system calls turn out, `test_cache` over
-- `n` ids, where 0 < n < 103, ends without a fault, leaves a valid cache, and the hits and misses that it reports
-- add up to the number of accesses.
pub test_cache-counts :
    (rounds : List (Io × ℕ)) (n : ℕ) (s : Cache) (order : List Ptr)
    → IsValid s order
    → 0 < n
    → n < hash_size
    → (hits : ℕ) × (misses : ℕ) × (t : Cache) × (order' : List Ptr) × (test_cache rounds n s
        ≡ ok (hits, misses) t)
      × IsValid t order'
      × (hits + misses ≡ length rounds)
unfolding test_cache
test_cache-counts rounds n s order v p q =
    let (t, order', eq, valid, sum) =
      test_loop-counts rounds n (record s { hits = 0; misses = 0 }) order
        (payload-IsValid s order s.value 0 0 v) p q in
    (t.hits, t.misses, t, order', rw eq, valid, omega (arith, sum))

-- Started by `init_cache` over a disk where each file holds the message of its name, for every
-- sequence of fetches and stores of ids below 103 and every outcome of their system calls: the
-- cache ends each request without touching freed memory and without looping, answers the fetches as
-- the LRU cache of 16 entries does, and stands at the end for that cache's entries, hits, misses and
-- files.
pub cache_refines_lru :
    (key : Ptr → ℕ) (value : Ptr → Message) (prev next : Ptr → Ptr) (files : Files)
    (rs : List (Io × Request))
    → FilesMatch files
    → AllSmall rs
    → let fresh : Lru = record { entries = []; hits = 0; misses = 0; files = files } in
      Ends
        (serve rs (init_cache key value prev next files))
        (answers rs fresh).0
        (answers rs fresh).1
unfolding init_cache
cache_refines_lru key value prev next files rs named small =
    serve_refines rs (init_cache key value prev next files) []
      (init_cache-IsValid key value prev next files named) small
