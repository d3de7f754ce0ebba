-- ===== src/Demo/Statistics.antt =====
-- The statistics that practicum1/main.c prints.
use cs5600_computer_system.Common.{ℕ, ◌+◌, ◌≡◌, arith, List, [], length}
use cs5600_computer_system.Message.{Message, Files, Io}
use cs5600_computer_system.Cache.{Ptr, Cache, ok, init_cache}
use cs5600_computer_system.Cache.Invariant.{FilesMatch}
use cs5600_computer_system.Cache.Requests.{init_cache-IsValid, test_cache-counts}
use cs5600_computer_system.Demo.{Round, store_messages, main}
use cs5600_computer_system.Demo.Stored.{store_messages-FilesMatch}

-- However `malloc` in the first loop and the system calls turn out, and whatever `rand` yields: over
-- files that hold the messages of their names, `main` gets through the cache test without a fault,
-- and the hits and misses that it prints add up to the number of accesses.
pub main-counts :
    (rs : List Round) (rounds : List (Io × ℕ)) (key : Ptr → ℕ) (value : Ptr → Message)
    (prev next : Ptr → Ptr) (files : Files)
    → FilesMatch files
    → (hits : ℕ) × (misses : ℕ) × (t : Cache) × (main rs rounds key value prev next files
        ≡ ok (hits, misses) t)
      × (hits + misses ≡ length rounds)
unfolding main
main-counts rs rounds key value prev next files named =
    let stored = store_messages rs 1 files in
    let v =
      init_cache-IsValid key value prev next stored (store_messages-FilesMatch rs 1 files named) in
    let (hits, misses, t, order, e, valid, sum) =
      test_cache-counts rounds 20 (init_cache key value prev next stored) [] v (omega arith)
        (omega arith) in
    (hits, misses, t, e, sum)
