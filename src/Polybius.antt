-- ===== src/Polybius.antt =====
-- The Polybius square of week3/polybius.c (week6/polybius.c is the same file). A string is the list of
-- its bytes before the NUL; the two buffers are the lists that fill them, without the NUL.
pub mod RoundTrip
mod Tests
use cs5600_computer_system.Common.{
  ℕ, ◌+◌, ◌-◌, Option, none, some, List, [], ◌∷◌, ◌++◌, if◌then◌else◌, ◌==◌, ltb, get_elem?,
}
use cs5600_computer_system.Common.Text.{upper, codes}

-- `PolybiusTable_t`: the rows of the grid.
abbrev pub PolybiusTable : Type 0
PolybiusTable = List (List ℕ)

abbrev pub standard_table : PolybiusTable
standard_table = codes "ABCDE" ∷ codes "FGHIK" ∷ codes "LMNOP" ∷ codes "QRSTU" ∷ codes "VWXYZ" ∷ []

-- The letter that is looked up: upper case, and I for J.
abbrev pub folded : ℕ → ℕ
folded c = if upper c == b'J' then b'I' else upper c

-- The loop over the columns from `col` on, which ends at the first cell that matches.
unfoldable pub encode_cells : ℕ → ℕ → List ℕ → ℕ → List ℕ
encode_cells row col [] ch = []
encode_cells row col (cell ∷ cells) ch =
    let rest = encode_cells row (col + 1) cells ch in
    if cell == ch then (b'1' + row) ∷ (b'1' + col) ∷ [] else rest

-- The loop over the rows from `row` on: the `break` of the inner loop does not leave it.
unfoldable pub encode_rows : ℕ → PolybiusTable → ℕ → List ℕ
encode_rows row [] ch = []
encode_rows row (cells ∷ rows) ch = encode_cells row 0 cells ch ++ encode_rows (row + 1) rows ch

unfoldable pub pb_encode : List ℕ → PolybiusTable → List ℕ
pb_encode [] table = []
pb_encode (c ∷ plaintext) table = encode_rows 0 table (folded c) ++ pb_encode plaintext table

-- `table->grid[row][col]`, `none` out of range.
unfoldable pub grid_at : PolybiusTable → ℕ → ℕ → Option ℕ
grid_at table r c =
    if ltb r b'1'
    then none
    else (if ltb c b'1' then none else elim (get_elem? table (r - b'1')) [
      | none ↦ none
      | some row ↦ get_elem? row (c - b'1')
    ])

-- `pbDecode`, `none` where it reads outside the grid. A digit left over at the end is dropped.
unfoldable pub pb_decode : List ℕ → PolybiusTable → Option (List ℕ)
pb_decode [] table = some []
pb_decode (r ∷ []) table = some []
pb_decode (r ∷ c ∷ ciphertext) table =
    let rest = pb_decode ciphertext table in
    elim (grid_at table r c) [
      | none ↦ none
      | some cell ↦ elim rest [ none ↦ none | some s ↦ some (cell ∷ s) ]
    ]
