-- ===== src/GenRand/Seeds.antt =====
-- The generator of week3/genrand.c as a map of seeds.
use cs5600_computer_system.Common.{ℕ, ◌+◌, ◌-◌, ◌*◌, ◌%◌, ◌<◌, ◌≡◌, arith}
use cs5600_computer_system.GenRand.{lcg, word}

-- The step back: 4276115653 is the inverse of 1664525 modulo 2^32.
unfoldable pub lcg_back : ℕ → ℕ
lcg_back x = (x + (word - 1013904223)) * 4276115653 % word

-- `lcg` loses nothing: a seed below 2^32 can be computed from the number that it gives.
pub lcg_back-lcg : (seed : ℕ) → seed < word → lcg_back (lcg seed) ≡ seed
unfolding lcg lcg_back
lcg_back-lcg seed h = omega arith
