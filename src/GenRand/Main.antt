-- ===== src/GenRand/Main.antt =====
-- The `main` of week3/genrand.c over its arguments, the time and the file that it writes.
use cs5600_computer_system.Common.{
  ℕ, suc, ◌%◌, ◌≡◌, refl, Bool, true, false, Option, none, some, List, [], ◌∷◌, ◌++◌, if◌then◌else◌,
  length,
}
use cs5600_computer_system.Common.Int.{pos_part}
use cs5600_computer_system.Common.Text.{codes, str_eq}
use cs5600_computer_system.Common.Scan.{atoi, in_int}
use cs5600_computer_system.Common.Decimal.{to_decimal}
use cs5600_computer_system.GenRand.{word, numbers}
use cs5600_computer_system.GenRand.Range.{AllFrom1To10000, numbers_lem}

-- `initSeed`: the seed is the time, as an unsigned int.
unfoldable pub init_seed : ℕ → ℕ
init_seed time = time % word

-- `fprintf(fp, "%d\n", random_number)`, for numbers from 1 to 10000.
abbrev pub number_lines : List ℕ → List ℕ
number_lines [] = []
number_lines (x ∷ xs) = to_decimal (suc x) x ++ (10 ∷ number_lines xs)

-- What becomes of the lines: `arrive` is what of the written bytes `fprintf` and `fclose` get into the
-- file, whose results the code does not look at.
abbrev pub with_lines : (List ℕ → List ℕ) → List ℕ → Option (List ℕ) → Option (ℕ × List ℕ)
with_lines arrive kept none = none
with_lines arrive kept (some xs) = some (0, kept ++ arrive (number_lines xs))

-- `main` with its options known: the exit status and the file. `fopen` with "w" empties the file. A
-- count below 1 is no round of the loop. `none` if `atoi` of the count or a call of `genRand` is
-- undefined.
unfoldable pub write_numbers :
    Bool → (List ℕ → List ℕ) → ℕ → List ℕ → Bool → List ℕ → Option (ℕ × List ℕ)
write_numbers opens arrive time count append old =
    let n = atoi count in
    let xs = numbers (pos_part n) (init_seed time) in
    if in_int n
    then (if opens then with_lines arrive (if append then old else []) xs else some (1, old))
    else none

-- `main`, with the arguments after the name of the program.
unfoldable pub main : Bool → (List ℕ → List ℕ) → ℕ → List (List ℕ) → List ℕ → Option (ℕ × List ℕ)
main opens arrive time (count ∷ filename ∷ []) old = write_numbers opens arrive time count false old
main opens arrive time (count ∷ filename ∷ mode ∷ []) old =
    write_numbers opens arrive time count (str_eq mode (codes "-a")) old
main opens arrive time args old = some (1, old)

written :
    (arrive : List ℕ → List ℕ) (time : ℕ) (count : List ℕ) (append : Bool) (old xs : List ℕ)
    → in_int (atoi count) ≡ true
    → numbers (pos_part (atoi count)) (init_seed time) ≡ some xs
    → write_numbers true arrive time count append old
      ≡ some (0, (if append then old else []) ++ arrive (number_lines xs))
unfolding write_numbers
written arrive time count append old xs h e = rw (write_numbers, h, e) refl

-- With a file that opens and a first argument that `atoi` reads as an int, `main` writes as many lines
-- as that says, each a number from 1 to 10000. What of them gets into the file stands after what the
-- file held if the third argument is "-a", and else in place of it; `main` ends with 0 even if some is
-- lost.
pub main-writes :
    (arrive : List ℕ → List ℕ) (time : ℕ) (count filename mode old : List ℕ)
    → in_int (atoi count) ≡ true
    → (xs : List ℕ) × (main true arrive time (count ∷ filename ∷ []) old
        ≡ some (0, arrive (number_lines xs)))
      × (main true arrive time (count ∷ filename ∷ mode ∷ []) old
          ≡ some (0, (if str_eq mode (codes "-a") then old else []) ++ arrive (number_lines xs)))
      × (length xs ≡ pos_part (atoi count))
      × AllFrom1To10000 xs
unfolding main
main-writes arrive time count filename mode old h =
    let (xs, e, len, all) = numbers_lem (pos_part (atoi count)) (init_seed time) in
    (
      xs,
      written arrive time count false old xs h e,
      written arrive time count (str_eq mode (codes "-a")) old xs h e,
      len,
      all,
    )
