-- ===== src/LoadMem/Rounds.antt =====
-- The rounds of the loops of week4/loadmem.c over a line.
use cs5600_computer_system.Common.{
  ℕ, zero, suc, ◌≡◌, ◌<◌, ◌≤◌, refl, ap, arith, false, Option, none, some, List, [], ◌∷◌, ◌==◌,
  Bool-cases, inl, inr, length,
}
use cs5600_computer_system.Common.Int.{ℤ}
use cs5600_computer_system.LoadMem.{
  skip_word, skip_spaces, next_number, count_ints, Block, read_ints, print_dyn_block, Outcome,
  printed, no_memory, wrong, overflows, counts, undefined_count, counts_more, no_number, scanned,
  beyond_int, sscanf_int, place, shown_block, shown,
}

skip_word-length : (s : List ℕ) → length (skip_word s) ≤ length s
skip_word-length [] = omega arith
skip_word-length (c ∷ s) = ground (arith, skip_word-length s)

skip_spaces-length : (s : List ℕ) → length (skip_spaces s) ≤ length s
skip_spaces-length [] = omega arith
skip_spaces-length (c ∷ s) = ground (arith, skip_spaces-length s)

-- Each round leaves less of the line.
pub next_number-length :
    (c : ℕ) (s : List ℕ) → (c == 0) ≡ false → length (next_number (c ∷ s)) < length (c ∷ s)
next_number-length c s more = elim (Bool-cases (c == 32)) [
  | inl space ↦ rw (more, space) (rw space (omega (arith, skip_spaces-length s)))
  | inr other ↦
      rw (more, other) (omega (arith, skip_spaces-length (skip_word s), skip_word-length s))
]

-- No number starts at a NUL.
pub scanned_byte : (c : ℕ) (s : List ℕ) (v : ℤ) → sscanf_int (c ∷ s) ≡ scanned v → (c == 0) ≡ false
unfolding sscanf_int
scanned_byte zero s v e = absurd (cc e)
scanned_byte (suc c) s v e = ground arith

-- A round of each loop where a number starts.
pub read_round :
    (b : Option ℤ) (block : Block) (ptr : List ℕ) (v : ℤ)
    → sscanf_int ptr ≡ scanned v
    → read_ints (b ∷ block) ptr ≡ place (some v) (read_ints block (next_number ptr))
unfolding read_ints
read_round b block ptr v e = rw (read_ints, e) refl

pub count_round :
    (fuel : ℕ) (ptr : List ℕ) (v : ℤ)
    → sscanf_int ptr ≡ scanned v
    → count_ints (suc fuel) ptr ≡ counts_more (count_ints fuel (next_number ptr))
unfolding count_ints
count_round fuel ptr v e = rw (count_ints, e) refl

pub count_end :
    (fuel : ℕ) (ptr : List ℕ) → sscanf_int ptr ≡ no_number → count_ints (suc fuel) ptr ≡ counts 0
unfolding count_ints
count_end fuel ptr e = rw (count_ints, e) refl

pub count_beyond :
    (fuel : ℕ) (ptr : List ℕ)
    → sscanf_int ptr ≡ beyond_int
    → count_ints (suc fuel) ptr ≡ undefined_count
unfolding count_ints
count_beyond fuel ptr e = rw (count_ints, e) refl

abbrev pub shown_numbers : Outcome → List ℤ
shown_numbers (printed vs) = vs
shown_numbers no_memory = []
shown_numbers overflows = []
shown_numbers wrong = []

print_shown :
    (o : Option (List ℤ)) (v : ℤ) (vs : List ℤ)
    → shown o ≡ printed vs
    → shown (elim o [ none ↦ none | some ws ↦ some (v ∷ ws) ]) ≡ printed (v ∷ vs)
print_shown none v vs e = absurd (cc e)
print_shown (some ws) v vs e = ap (λ l. printed (v ∷ l)) (ap shown_numbers e)

pub print_round :
    (b : Option Block) (v : ℤ) (vs : List ℤ)
    → shown_block b ≡ printed vs
    → shown_block (place (some v) b) ≡ printed (v ∷ vs)
unfolding print_dyn_block
print_round none v vs e = absurd (cc e)
print_round (some block) v vs e = print_shown (print_dyn_block block) v vs e
