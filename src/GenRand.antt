-- ===== src/GenRand.antt =====
-- The random numbers of week3/genrand.c. An unsigned int is a number below 2^32 that wraps round. An
-- int is its bits, read as an unsigned int: adding 2^31 modulo 2^32 turns the order of the ints into
-- the order of the numbers. Overflow of the int `max - min + 1` is undefined in C.
pub mod Range
pub mod Seeds
pub mod Main
mod Tests
use cs5600_computer_system.Common.{
  ℕ, zero, suc, ◌+◌, ◌-◌, ◌*◌, ◌%◌, ◌^◌, Option, none, some, List, [], ◌∷◌, if◌then◌else◌, ltb,
}

abbrev pub word : ℕ
word = 4294967296

abbrev pub half : ℕ
half = 2147483648

-- The place of an int among all ints, from 0 for -2^31 on.
abbrev pub rank : ℕ → ℕ
rank x = (x + half) % word

-- `lcg`: the next seed, which is also the result.
unfoldable pub lcg : ℕ → ℕ
lcg seed = (1664525 * seed + 1013904223) % word

-- The sum at the end of `genRand`, for min ≤ max: `none` if `max - min + 1` overflows.
unfoldable pub between : ℕ → ℕ → ℕ → Option ℕ
between lo hi r =
    if ltb (rank hi - rank lo + 1) half
    then some ((r % ((hi + (word - lo) + 1) % word) + lo) % word)
    else none

-- `genRand`, with the seed that it leaves.
unfoldable pub gen_rand : ℕ → ℕ → ℕ → Option ℕ × ℕ
gen_rand min max seed =
    let r = lcg seed in
    if ltb (rank max) (rank min) then (between max min r, r) else (between min max r, r)

-- The loop of `main`: the numbers that it prints, `none` if a call is undefined.
unfoldable pub numbers : ℕ → ℕ → Option (List ℕ)
numbers zero seed = some []
numbers (suc n) seed =
    let (value, seed') = gen_rand 1 10000 seed in
    let rest = numbers n seed' in
    elim value [ none ↦ none | some x ↦ elim rest [ none ↦ none | some xs ↦ some (x ∷ xs) ] ]
