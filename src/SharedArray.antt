-- ===== src/SharedArray.antt =====
-- The two threads of week7/thread_shared.c, which share an array with no lock. A turn is one write or
-- one read of a place of the array. `rand` is the C library's: the number of its n-th call.
pub mod Reads
mod Tests
use cs5600_computer_system.Common.{ℕ, ◌+◌, ◌%◌, Bool, List, [], ◌∷◌, ◌++◌, if◌then◌else◌, ltb, ◌==◌}

abbrev pub arr_size : ℕ
arr_size = 10

-- Where a thread stands in its two loops.
pub record Loops : Type 0 where
  pub round : ℕ
  pub i : ℕ

abbrev pub started : Loops
started = record { round = 0; i = 0 }

-- `i++`, and the next round when the row is through.
abbrev pub advance : Loops → Loops
advance l =
    if ltb (l.i + 1) arr_size
    then record { round = l.round; i = l.i + 1 }
    else record { round = l.round + 1; i = 0 }

-- What the threads share, where they stand, the calls of `rand` so far, and the numbers printed.
pub record World : Type 0 where
  pub shared_array : ℕ → ℕ
  pub writer : Loops
  pub reader : Loops
  pub calls : ℕ
  pub printed : List ℕ

pub data Who : Type 0 where
  writing : Who
  reading : Who

module _ (rand : ℕ → ℕ) where
  -- A turn of `writer_thread`.
  unfoldable pub writer_turn : World → World
  writer_turn w =
      let value = rand w.calls % 100 in
      if ltb w.writer.round 5
      then record w {
        shared_array = λ j. if j == w.writer.i then value else w.shared_array j;
        writer = advance w.writer;
        calls = w.calls + 1;
      }
      else w

  -- A turn of `reader_thread`.
  unfoldable pub reader_turn : World → World
  reader_turn w =
      if ltb w.reader.round 5
      then record w {
        reader = advance w.reader;
        printed = w.printed ++ (w.shared_array w.reader.i ∷ []);
      }
      else w

  abbrev pub turn : Who → World → World
  turn writing w = writer_turn w
  turn reading w = reader_turn w

  -- Turns in any order.
  abbrev pub run : List Who → World → World
  run [] w = w
  run (who ∷ order) w = run order (turn who w)

-- `main` after it has made the threads: the array is all zeros.
abbrev pub main_start : World
main_start = record {
  shared_array = λ j. 0;
  writer = started;
  reader = started;
  calls = 0;
  printed = [];
}
