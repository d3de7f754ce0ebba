-- ===== src/SharedArray/Reads.antt =====
-- What the reader of week7/thread_shared.c may print.
use cs5600_computer_system.Common.{
  ℕ, ◌+◌, ◌*◌, ◌%◌, ◌<◌, ◌≤◌, ◌≡◌, refl, sym, ap, subst, arith, List, [], ◌∷◌, ◌++◌, if◌then◌else◌,
  ltb, ◌==◌, Bool-cases, inl, inr, ◌⊎◌, length, length-append, eq_of_==,
}
use cs5600_computer_system.SharedArray.{
  Loops, advance, World, Who, writing, reading, writer_turn, reader_turn, run, main_start,
}

-- The number at a place comes from a call of `rand` for that place, or was never written.
abbrev pub From : (ℕ → ℕ) → ℕ → ℕ → ℕ → Type 0
From rand calls i v =
    (v ≡ 0) ⊎ ((round : ℕ) × (round * 10 + i < calls) × (v ≡ rand (round * 10 + i) % 100))

-- Of a list of printed numbers, that from the place `i` on.
abbrev pub AllFrom : (ℕ → ℕ) → ℕ → ℕ → List ℕ → Type 0
AllFrom rand calls k [] = Unit {0}
AllFrom rand calls k (v ∷ vs) = From rand calls (k % 10) v × AllFrom rand calls (k + 1) vs

-- A thread stands within its loops, after so many places.
abbrev pub Within : Loops → ℕ → Type 0
Within l n = (n ≡ l.round * 10 + l.i) × (l.i < 10) × (n ≤ 50)

pub record IsValid (rand : ℕ → ℕ) (w : World) : Type 0 where
  pub writes : Within w.writer w.calls
  pub reads : Within w.reader (length w.printed)
  pub array : (i : ℕ) → i < 10 → From rand w.calls i (w.shared_array i)
  pub output : AllFrom rand w.calls 0 w.printed

From-later : (rand : ℕ → ℕ) (n i v : ℕ) → From rand n i v → From rand (n + 1) i v
From-later rand n i v (inl z) = inl z
From-later rand n i v (inr (round, less, e)) = inr (round, omega (arith, less), e)

AllFrom-later :
    (rand : ℕ → ℕ) (n k : ℕ) (vs : List ℕ) → AllFrom rand n k vs → AllFrom rand (n + 1) k vs
AllFrom-later rand n k [] h = tt
AllFrom-later rand n k (v ∷ vs) h =
    (From-later rand n (k % 10) v h.0, AllFrom-later rand n (k + 1) vs h.1)

AllFrom-append :
    (rand : ℕ → ℕ) (n k : ℕ) (vs : List ℕ) (v : ℕ)
    → AllFrom rand n k vs
    → From rand n ((k + length vs) % 10) v
    → AllFrom rand n k (vs ++ (v ∷ []))
AllFrom-append rand n k [] v h f = (subst (λ m. From rand n (m % 10) v) (omega arith) f, tt)
AllFrom-append rand n k (u ∷ vs) v h f = (
  h.0,
  AllFrom-append rand n (k + 1) vs v h.1 (subst (λ m. From rand n (m % 10) v) (omega arith) f),
)

advance-Within : (l : Loops) (n : ℕ) → Within l n → l.round < 5 → Within (advance l) (n + 1)
advance-Within l n h less = elim (Bool-cases (ltb (l.i + 1) 10)) [
  | inl on ↦ rw on (omega (arith, h.0), ground (arith, on), omega (arith, h.0, h.1, less))
  | inr row ↦
      let last : l.i ≡ 9 = ground (arith, row, h.1) in
      rw row (omega (arith, h.0, last), omega arith, omega (arith, h.0, h.1, less))
]

written_From :
    (rand array : ℕ → ℕ) (l : Loops) (n : ℕ)
    → Within l n
    → ((i : ℕ) → i < 10 → From rand n i (array i))
    → (i : ℕ) → i < 10
    → From rand (n + 1) i (if i == l.i then rand n % 100 else array i)
written_From rand array l n h a i less = elim (Bool-cases (i == l.i)) [
  | inl here ↦
      let e : n ≡ l.round * 10 + i = omega (arith, h.0, eq_of_== i l.i here) in
      rw here (inr (l.round, omega (arith, e), ap (λ m. rand m % 100) e))
  | inr there ↦ rw there (From-later rand n i (array i) (a i less))
]

module _ (rand : ℕ → ℕ) where
  writer_turn-IsValid : (w : World) → IsValid rand w → IsValid rand (writer_turn rand w)
  unfolding writer_turn
  writer_turn-IsValid w v = elim (Bool-cases (ltb w.writer.round 5)) [
    | inr over ↦ rw over v
    | inl going ↦ rw going (record {
      writes = advance-Within w.writer w.calls v.writes (ground (arith, going));
      reads = v.reads;
      array = written_From rand w.shared_array w.writer w.calls v.writes v.array;
      output = AllFrom-later rand w.calls 0 w.printed v.output;
    })
  ]

  reader_turn-IsValid : (w : World) → IsValid rand w → IsValid rand (reader_turn rand w)
  unfolding reader_turn
  reader_turn-IsValid w v = elim (Bool-cases (ltb w.reader.round 5)) [
    | inr over ↦ rw over v
    | inl going ↦
        let here : w.reader.i ≡ (0 + length w.printed) % 10 = omega (arith, v.reads.0, v.reads.1) in
        let count : length w.printed + 1 ≡ length (w.printed ++ (w.shared_array w.reader.i ∷ [])) =
          sym (length-append w.printed (w.shared_array w.reader.i ∷ [])) in
        rw going (record {
          writes = v.writes;
          reads =
              subst (Within (advance w.reader)) count
                (advance-Within w.reader (length w.printed) v.reads (ground (arith, going)));
          array = v.array;
          output = AllFrom-append rand w.calls 0 w.printed (w.shared_array w.reader.i) v.output (
              subst (λ i. From rand w.calls i (w.shared_array w.reader.i)) here
                (v.array w.reader.i v.reads.1));
        })
  ]

  run-IsValid : (order : List Who) (w : World) → IsValid rand w → IsValid rand (run rand order w)
  run-IsValid [] w v = v
  run-IsValid (writing ∷ order) w v =
      run-IsValid order (writer_turn rand w) (writer_turn-IsValid w v)
  run-IsValid (reading ∷ order) w v =
      run-IsValid order (reader_turn rand w) (reader_turn-IsValid w v)

  start-IsValid : IsValid rand main_start
  start-IsValid = record {
    writes = (refl, omega arith, omega arith);
    reads = (refl, omega arith, omega arith);
    array = λ i less. inl refl;
    output = tt;
  }

-- In every order of the two threads' turns, a number that the reader prints for a place is 0, or
-- what one of the writer's calls of `rand` gave for that same place, modulo 100. The writer makes 50
-- calls at most, and at most 50 numbers are printed.
pub run-AllFrom :
    (rand : ℕ → ℕ) (order : List Who)
    → AllFrom rand (run rand order main_start).calls 0 (run rand order main_start).printed
      × ((run rand order main_start).calls ≤ 50)
      × (length (run rand order main_start).printed ≤ 50)
run-AllFrom rand order =
    let v = run-IsValid rand order main_start (start-IsValid rand) in
    (v.output, v.writes.2, v.reads.2)
