-- ===== src/GenRand/Range.antt =====
-- The range of `genRand` of week3/genrand.c.
use cs5600_computer_system.Common.{
  ℕ, zero, suc, ◌+◌, ◌-◌, ◌%◌, ◌≤◌, ◌<◌, ◌≡◌, refl, arith, some, List, [], ◌∷◌, length, ◌⊎◌, inl,
  inr, dec_lt,
}
use native.Mathlib.Nat.{mod-lt}
use cs5600_computer_system.GenRand.{word, half, rank, lcg, between, gen_rand, numbers}

between-ranks :
    (lo hi r : ℕ)
    → lo < word
    → hi < word
    → rank lo ≤ rank hi
    → rank hi - rank lo + 1 < half
    → (x : ℕ) × (between lo hi r ≡ some x) × (x < word) × (rank lo ≤ rank x) × (rank x ≤ rank hi)
unfolding between
between-ranks lo hi r p q le small =
    let span = (hi + (word - lo) + 1) % word in
    let width : span ≡ rank hi - rank lo + 1 = omega arith in
    let below : r % span < span = mod-lt r (omega arith) in
    ((r % span + lo) % word, ground arith, omega arith, omega arith, omega arith)

-- The ints between `min` and `max`, which may stand in either order.
abbrev pub Within : ℕ → ℕ → ℕ → Type 0
Within min max x =
    ((rank min ≤ rank x) × (rank x ≤ rank max)) ⊎ ((rank max ≤ rank x) × (rank x ≤ rank min))

-- For all ints `min` and `max`, in either order, that are less than 2^31 - 1 apart, `genRand` returns
-- an int from the smaller to the larger of them, and its new seed is `lcg` of the old one.
pub gen_rand-Within :
    (min max seed : ℕ)
    → min < word
    → max < word
    → rank max - rank min + 1 < half
    → rank min - rank max + 1 < half
    → (x : ℕ) × (gen_rand min max seed ≡ (some x, lcg seed)) × (x < word) × Within min max x
unfolding gen_rand
gen_rand-Within min max seed p q small small' = elim (dec_lt (rank max) (rank min)) [
  | yes swap ↦
      let (x, e, w, lower, upper) = between-ranks max min (lcg seed) q p (omega arith) small' in
      (x, ground (arith, e, swap), w, inr (lower, upper))
  | no keep ↦
      let (x, e, w, lower, upper) = between-ranks min max (lcg seed) p q (omega arith) small in
      (x, ground (arith, e, keep), w, inl (lower, upper))
]

abbrev pub AllFrom1To10000 : List ℕ → Type 0
AllFrom1To10000 [] = Unit {0}
AllFrom1To10000 (x ∷ xs) = (1 ≤ x) × (x ≤ 10000) × AllFrom1To10000 xs

range_small : (x : ℕ) → x < word → Within 1 10000 x → (1 ≤ x) × (x ≤ 10000)
range_small x w (inl (lower, upper)) = (omega arith, omega arith)
range_small x w (inr (lower, upper)) = (omega arith, omega arith)

-- From every seed, `main` prints as many numbers as it was asked for, each from 1 to 10000.
pub numbers_lem :
    (n seed : ℕ) → (xs : List ℕ) × (numbers n seed ≡ some xs) × (length xs ≡ n) × AllFrom1To10000 xs
unfolding numbers
numbers_lem zero seed = ([], refl, refl, tt)
numbers_lem (suc n) seed =
    let (x, e, w, within) =
      gen_rand-Within 1 10000 seed (omega arith) (omega arith) (omega arith) (omega arith) in
    let (xs, e', len, all) = numbers_lem n (lcg seed) in
    (
      x ∷ xs,
      ground (arith, e, e'),
      omega arith,
      ((range_small x w within).0, (range_small x w within).1, all),
    )
