-- ===== src/SharedArray/Tests.antt =====
-- week7/thread_shared.c in concrete orders.
use cs5600_computer_system.Common.{ℕ, ◌≤◌, ◌≡◌, refl, List, [], ◌∷◌, ◌++◌, length, replicate, ◌*◌}
use cs5600_computer_system.SharedArray.{
  Who, writing, reading, writer_turn, reader_turn, run, main_start,
}
use cs5600_computer_system.SharedArray.Reads.{AllFrom, run-AllFrom}

abbrev rand : ℕ → ℕ
rand n = n * 37

-- The writer is in the middle of its second round when the reader starts.
abbrev order : List Who
order = replicate 13 writing ++ replicate 10 reading

-- The row that is printed has three numbers of the second round, and the others of the first.
torn_row : (run rand order main_start).printed ≡ 70 ∷ 7 ∷ 44 ∷ 11 ∷ 48 ∷ 85 ∷ 22 ∷ 59 ∷ 96 ∷ 33 ∷ []
unfolding writer_turn reader_turn
torn_row = refl

run-AllFrom_example :
    AllFrom rand (run rand order main_start).calls 0 (run rand order main_start).printed
    × ((run rand order main_start).calls ≤ 50)
    × (length (run rand order main_start).printed ≤ 50)
run-AllFrom_example = run-AllFrom rand order
