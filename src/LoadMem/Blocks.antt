-- ===== src/LoadMem/Blocks.antt =====
-- The loops of week4/loadmem.c over a line.
use cs5600_computer_system.Common.{
  ℕ, zero, suc, ◌+◌, ◌≡◌, ◌<◌, ◌≤◌, refl, sym, ap, ◌∙◌, arith, Bool, true, false, none, List, [],
  ◌∷◌, ◌==◌, inl, inr, length, subst, ◌⊎◌,
}
use cs5600_computer_system.Common.Int.{ℤ}
use cs5600_computer_system.LoadMem.{
  next_number, count_ints, blank_block, alloc_dyn_block, read_ints, print_dyn_block, Outcome,
  printed, no_memory, load_line, wrong, overflows, counts, undefined_count, counts_more, Scanned,
  no_number, scanned, beyond_int, sscanf_int, shown_block,
}
use cs5600_computer_system.LoadMem.Rounds.{
  next_number-length, scanned_byte, read_round, count_round, count_end, count_beyond, print_round,
  shown_numbers,
}

-- The numbers of what is left of a line: what the loops do, without a count.
pub data Numbers : List ℕ → List ℤ → Type 0 where
  end : {ptr : List ℕ} → sscanf_int ptr ≡ no_number → Numbers ptr []
  number :
      {ptr : List ℕ} (v : ℤ) (vs : List ℤ)
      → sscanf_int ptr ≡ scanned v
      → Numbers (next_number ptr) vs
      → Numbers ptr (v ∷ vs)

-- One of the numbers that are found in this way is no int.
pub data Overflows : List ℕ → Type 0 where
  here : {ptr : List ℕ} → sscanf_int ptr ≡ beyond_int → Overflows ptr
  later :
      {ptr : List ℕ} (v : ℤ)
      → sscanf_int ptr ≡ scanned v
      → Overflows (next_number ptr)
      → Overflows ptr

-- With these numbers the count is theirs, and the block is filled with them.
pub loops-Numbers :
    (fuel : ℕ) (ptr : List ℕ) (vs : List ℤ)
    → Numbers ptr vs
    → length vs < fuel
    → (count_ints fuel ptr ≡ counts (length vs))
      × (shown_block (read_ints (blank_block (length vs)) ptr) ≡ printed vs)
unfolding print_dyn_block read_ints
loops-Numbers zero ptr vs h l = absurd (omega (arith, l))
loops-Numbers (suc fuel) ptr [] (end e) l = (count_end fuel ptr e, refl)
loops-Numbers (suc fuel) ptr (v ∷ vs) (number _ _ e h) l =
    let rest = loops-Numbers fuel (next_number ptr) vs h (omega (arith, l)) in
    (
      count_round fuel ptr v e ∙ ap counts_more rest.0,
      ap shown_block (read_round none (blank_block (length vs)) ptr v e)
          ∙ print_round (read_ints (blank_block (length vs)) (next_number ptr)) v vs rest.1,
    )

Scanned-cases : (s : Scanned) → (s ≡ no_number) ⊎ (((v : ℤ) × (s ≡ scanned v)) ⊎ (s ≡ beyond_int))
Scanned-cases no_number = inl refl
Scanned-cases (scanned v) = inr (inl (v, refl))
Scanned-cases beyond_int = inr (inr refl)

-- A line has its numbers, one for each byte at most, or one of them is no int.
abbrev Scans : ℕ → List ℕ → Type 0
Scans fuel ptr =
    ((vs : List ℤ) × Numbers ptr vs × (length vs ≤ length ptr))
    ⊎ (Overflows ptr × (count_ints fuel ptr ≡ undefined_count))

Scans-later :
    (fuel : ℕ) (ptr : List ℕ) (v : ℤ)
    → sscanf_int ptr ≡ scanned v
    → length (next_number ptr) < length ptr
    → Scans fuel (next_number ptr)
    → Scans (suc fuel) ptr
Scans-later fuel ptr v e less (inl (vs, n, short)) =
    inl (v ∷ vs, number v vs e n, omega (arith, short, less))
Scans-later fuel ptr v e less (inr (o, k)) =
    inr (later v e o, count_round fuel ptr v e ∙ ap counts_more k)

pub Scans-all : (fuel : ℕ) (ptr : List ℕ) → length ptr < fuel → Scans fuel ptr
unfolding sscanf_int
Scans-all zero ptr h = absurd (omega (arith, h))
Scans-all (suc fuel) [] h = inl ([], end refl, omega arith)
Scans-all (suc fuel) (c ∷ s) h = elim (Scanned-cases (sscanf_int (c ∷ s))) [
  | inl e ↦ inl ([], end e, omega arith)
  | inr (inl (v, e)) ↦
      let less = next_number-length c s (scanned_byte c s v e) in
      Scans-later fuel (c ∷ s) v e less
        (Scans-all fuel (next_number (c ∷ s)) (omega (arith, h, less)))
  | inr (inr e) ↦ inr (here e, count_beyond fuel (c ∷ s) e)
]

pub load_line-Numbers :
    (fuel : ℕ) (line : List ℕ) (vs : List ℤ)
    → Numbers line vs
    → length vs < fuel
    → load_line fuel true true line ≡ printed vs
unfolding load_line alloc_dyn_block
load_line-Numbers fuel line vs n l =
    let h = loops-Numbers fuel line vs n l in rw (load_line, h.0, h.1) refl

-- What `main` makes of the lines: the numbers of each, up to the first that finds no memory or has a
-- number that is no int.
abbrev pub Matches : List (List ℕ) → List Outcome → Type 0
Matches [] [] = Unit {0}
Matches [] (o ∷ outcomes) = ⊥
Matches (line ∷ lines) [] = ⊥
Matches (line ∷ lines) (printed vs ∷ outcomes) = Numbers line vs × Matches lines outcomes
Matches (line ∷ lines) (no_memory ∷ outcomes) = (outcomes ≡ [])
Matches (line ∷ lines) (overflows ∷ outcomes) = Overflows line × (outcomes ≡ [])
Matches (line ∷ lines) (wrong ∷ outcomes) = ⊥

overflow_line :
    (fuel : ℕ) (block_ok data_ok : Bool) (line : List ℕ)
    → count_ints fuel line ≡ undefined_count
    → load_line fuel block_ok data_ok line ≡ overflows
unfolding load_line
overflow_line fuel block_ok data_ok line k = rw (load_line, k) refl

doubled :
    (c : ℕ) (s : List ℕ) (v : ℤ) (vs : List ℤ)
    → (c == 32) ≡ false
    → Numbers (c ∷ s) (v ∷ vs)
    → Numbers (32 ∷ (c ∷ s)) (v ∷ (v ∷ vs))
unfolding sscanf_int
doubled c s v vs h (number _ _ e n) =
    let next : next_number (32 ∷ (c ∷ s)) ≡ c ∷ s = rw h refl in
    number v (v ∷ vs) e (subst (λ l. Numbers l (v ∷ vs)) (sym next) (number v vs e n))

-- A blank at the start of a line makes `main` print its first number twice.
pub blank_doubles :
    (c : ℕ) (s : List ℕ) (v : ℤ) (vs : List ℤ)
    → (c == 32) ≡ false
    → load_line (length (c ∷ s) + 1) true true (c ∷ s) ≡ printed (v ∷ vs)
    → load_line (length (c ∷ s) + 2) true true (32 ∷ (c ∷ s)) ≡ printed (v ∷ (v ∷ vs))
blank_doubles c s v vs h e = elim (Scans-all (length (c ∷ s) + 1) (c ∷ s) (omega arith)) [
  | inl (ws, n, short) ↦
      let same : ws ≡ v ∷ vs =
        ap shown_numbers
          (sym (load_line-Numbers (length (c ∷ s) + 1) (c ∷ s) ws n (omega (arith, short))) ∙ e) in
      load_line-Numbers (length (c ∷ s) + 2) (32 ∷ (c ∷ s)) (v ∷ (v ∷ vs))
        (doubled c s v vs h (subst (Numbers (c ∷ s)) same n)) (omega (arith, short, ap length same))
  | inr (o, k) ↦ absurd (cc (sym (overflow_line (length (c ∷ s) + 1) true true (c ∷ s) k) ∙ e))
]
