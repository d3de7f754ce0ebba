-- ===== src/Polybius/RoundTrip.antt =====
-- Encoding and decoding with the standard square of week3/polybius.c.
use cs5600_computer_system.Common.{
  ℕ, ◌+◌, ◌*◌, ◌≤◌, ◌≡◌, refl, arith, Bool, true, false, none, some, List, [], ◌∷◌, ◌++◌,
  if◌then◌else◌, ◌==◌, length, length-append, zero, suc, ◌<◌, ◌||◌, ◌∙◌, subst, Bool-cases, inl,
  inr, ℕ_discrete,
}
use cs5600_computer_system.Common.Text.{is_upper, upper}
use cs5600_computer_system.Polybius.{
  standard_table, folded, encode_cells, encode_rows, pb_encode, grid_at, pb_decode,
}

-- The letters of a string, as they are looked up.
pub letters : List ℕ → List ℕ
letters [] = []
letters (c ∷ s) = let rest = letters s in if is_upper (upper c) then folded c ∷ rest else rest

encode_rows-other : (ch : ℕ) → is_upper ch ≡ false → encode_rows 0 standard_table ch ≡ []
unfolding encode_rows encode_cells
encode_rows-other ch h = ground arith

-- A property of all bytes of a range is checked by running it on each.
all_range : (ℕ → Bool) → ℕ → ℕ → Bool
all_range p lo zero = true
all_range p lo (suc n) = let rest = all_range p (lo + 1) n in if p lo then rest else false

all_range-at :
    (p : ℕ → Bool) (lo n c : ℕ) → all_range p lo n ≡ true → lo ≤ c → c < lo + n → p c ≡ true
unfolding all_range
all_range-at p lo zero c h below above = absurd (omega (arith, below, above))
all_range-at p lo (suc n) c h below above = elim (Bool-cases (p lo)) [
  | inl holds ↦ elim (ℕ_discrete lo c) [
    | yes same ↦ subst (λ k. p k ≡ true) same holds
    | no other ↦ all_range-at p (lo + 1) n c (ground (arith, h, holds)) (omega arith) (omega arith)
  ]
  | inr fails ↦ ground (arith, h, fails)
]

-- Two digits at which the square holds the letter.
points_at : List ℕ → ℕ → Bool
points_at (r ∷ c ∷ []) ch = elim (grid_at standard_table r c) [
  | none ↦ false
  | some cell ↦ cell == ch
]
points_at [] ch = false
points_at (r ∷ []) ch = false
points_at (r ∷ c ∷ d ∷ l) ch = false

decode-points_at :
    (l rest out : List ℕ) (ch : ℕ)
    → points_at l ch ≡ true
    → pb_decode rest standard_table ≡ some out
    → pb_decode (l ++ rest) standard_table ≡ some (ch ∷ out)
unfolding points_at pb_decode
decode-points_at [] rest out ch h e = ground arith
decode-points_at (r ∷ []) rest out ch h e = ground arith
decode-points_at (r ∷ c ∷ []) rest out ch h e = ground arith
decode-points_at (r ∷ c ∷ d ∷ l) rest out ch h e = ground arith

in_square : ℕ → Bool
in_square ch = ch == b'J' || points_at (encode_rows 0 standard_table ch) ch

all_in_square : all_range in_square b'A' 26 ≡ true
unfolding all_range in_square points_at encode_rows encode_cells grid_at
all_in_square = refl

letter-points_at :
    (c : ℕ)
    → is_upper (upper c) ≡ true
    → points_at (encode_rows 0 standard_table (folded c)) (folded c) ≡ true
unfolding in_square
letter-points_at c h =
    let fact =
      all_range-at in_square b'A' 26 (folded c) all_in_square (ground arith) (ground arith) in
    ground (arith, fact)

-- Decoding what the standard square encodes gives back the letters of the string, in upper case and
-- with I for J; everything else is lost.
pub pb_decode-pb_encode :
    (s : List ℕ) → pb_decode (pb_encode s standard_table) standard_table ≡ some (letters s)
unfolding pb_encode letters
pb_decode-pb_encode [] = empty
  where
    empty : pb_decode [] standard_table ≡ some []
    empty = unfold pb_decode in refl
pb_decode-pb_encode (c ∷ s) = elim (Bool-cases (is_upper (upper c))) [
  | inl letter ↦
      decode-points_at (encode_rows 0 standard_table (folded c)) (pb_encode s standard_table)
        (letters s) (folded c) (letter-points_at c letter) (pb_decode-pb_encode s)
      ∙ ground (arith, letter)
  | inr other ↦
      ground (arith, other, encode_rows-other (folded c) (ground arith), pb_decode-pb_encode s)
]

length-points_at : (l : List ℕ) (ch : ℕ) → points_at l ch ≡ true → length l ≡ 2
unfolding points_at
length-points_at [] ch h = ground arith
length-points_at (r ∷ []) ch h = ground arith
length-points_at (r ∷ c ∷ []) ch h = refl
length-points_at (r ∷ c ∷ d ∷ l) ch h = ground arith

length-encode_rows : (c : ℕ) → length (encode_rows 0 standard_table (folded c)) ≤ 2
length-encode_rows c = elim (Bool-cases (is_upper (upper c))) [
  | inl letter ↦ omega (
    arith,
    length-points_at (encode_rows 0 standard_table (folded c)) (folded c)
        (letter-points_at c letter),
  )
  | inr other ↦ rw (encode_rows-other (folded c) (ground arith)) (omega arith)
]

-- With the standard square, `pbEncode` writes no more than the two bytes for each byte of the string
-- that it allocates beside the NUL.
pub length-pb_encode : (s : List ℕ) → length (pb_encode s standard_table) ≤ length s * 2
unfolding pb_encode
length-pb_encode [] = omega arith
length-pb_encode (c ∷ s) = omega (
  arith,
  length-encode_rows c,
  length-pb_encode s,
  length-append (encode_rows 0 standard_table (folded c)) (pb_encode s standard_table),
)
