-- ===== src/GenRand/Tests.antt =====
-- The random numbers of week3/genrand.c at concrete seeds.
use cs5600_computer_system.Common.{
  ℕ, ◌<◌, ◌≡◌, refl, arith, some, none, true, List, [], ◌∷◌, ◌++◌, if◌then◌else◌, length, take,
}
use cs5600_computer_system.Common.Int.{pos_part}
use cs5600_computer_system.Common.Scan.{atoi}
use cs5600_computer_system.Common.Text.{codes, str_eq}
use cs5600_computer_system.GenRand.{word, lcg, between, gen_rand, numbers}
use cs5600_computer_system.GenRand.Main.{main, number_lines, main-writes, init_seed, write_numbers}
use cs5600_computer_system.GenRand.Range.{AllFrom1To10000, Within, gen_rand-Within}

lcg_wraps : lcg 4294967295 ≡ 1012239698
unfolding lcg
lcg_wraps = refl

-- Between -1 and 1.
gen_rand_small : gen_rand 1 4294967295 7 ≡ (some 4294967295, 1025555898)
unfolding gen_rand between lcg
gen_rand_small = refl

-- Between the smallest and the largest int: `max - min + 1` overflows.
gen_rand_overflows : (gen_rand 2147483648 2147483647 7).0 ≡ none
unfolding gen_rand between lcg
gen_rand_overflows = refl

gen_rand-Within_example :
    (x : ℕ) × (gen_rand 10 4294967295 7 ≡ (some x, lcg 7)) × (x < word) × Within 10 4294967295 x
gen_rand-Within_example =
    gen_rand-Within 10 4294967295 7 (omega arith) (omega arith) (omega arith) (omega arith)

main_appends :
    main true (λ b. b) 5 (codes "2" ∷ codes "out" ∷ codes "-a" ∷ []) (codes "7\n")
    ≡ some (0, codes "7\n6849\n4288\n")
unfolding main write_numbers init_seed numbers gen_rand between lcg
main_appends = refl

-- 4294967297 is no int.
main_undefined : main true (λ b. b) 5 (codes "4294967297" ∷ codes "out" ∷ []) (codes "7") ≡ none
unfolding main write_numbers
main_undefined = refl

-- The device is full after two bytes.
main-writes_example :
    (xs : List ℕ) × (main true (take 2) 5 (codes "2" ∷ codes "out" ∷ []) (codes "7")
      ≡ some (0, take 2 (number_lines xs)))
    × (main true (take 2) 5 (codes "2" ∷ codes "out" ∷ codes "-a" ∷ []) (codes "7")
        ≡ some (
          0,
          (if str_eq (codes "-a") (codes "-a") then codes "7" else []) ++ take 2 (number_lines xs),
        ))
    × (length xs ≡ pos_part (atoi (codes "2")))
    × AllFrom1To10000 xs
main-writes_example = main-writes (take 2) 5 (codes "2") (codes "out") (codes "-a") (codes "7") refl
