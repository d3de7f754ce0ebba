-- ===== src/LoadMem.antt =====
-- The blocks of numbers of week4/loadmem.c. A line is what `fgets` puts before the NUL at its end, bytes 0 of the file
-- included, and a pointer into it is what is left of it, so that the end of the list is that NUL.
-- `sscanf` with %d, which no byte 0 gets past, is Common/Scan's.
pub mod Rounds
pub mod Blocks
pub mod Reload
mod Tests
use cs5600_computer_system.Common.{
  ℕ, zero, suc, ◌+◌, ◌-◌, ◌*◌, Bool, true, false, ◌&&◌, ◌||◌, Option, none, some, List, [], ◌∷◌,
  ◌++◌, if◌then◌else◌, leb, ◌==◌, length,
}
use cs5600_computer_system.Common.Int.{ℤ, pos, negsuc}
use cs5600_computer_system.Common.Lines.{fgets_lines}
use cs5600_computer_system.Common.Scan.{scan_int, in_int}

-- `while (*ptr && *ptr != ' ') ptr++;`
abbrev pub skip_word : List ℕ → List ℕ
skip_word [] = []
skip_word (c ∷ s) = let rest = skip_word s in if c == 0 || c == 32 then c ∷ s else rest

-- `while (*ptr == ' ') ptr++;`
abbrev pub skip_spaces : List ℕ → List ℕ
skip_spaces [] = []
skip_spaces (c ∷ s) = let rest = skip_spaces s in if c == 32 then rest else c ∷ s

abbrev pub next_number : List ℕ → List ℕ
next_number ptr = skip_spaces (skip_word ptr)

-- `sscanf(ptr, "%d", …)`: no number, an int, or a number that is no int, which is undefined.
pub data Scanned : Type 0 where
  no_number : Scanned
  scanned : ℤ → Scanned
  beyond_int : Scanned

abbrev pub as_int : Option ℤ → Scanned
as_int none = no_number
as_int (some v) = if in_int v then scanned v else beyond_int

unfoldable pub sscanf_int : List ℕ → Scanned
sscanf_int ptr = as_int (scan_int ptr)

-- What becomes of the loop that counts.
pub data Count : Type 0 where
  counts : ℕ → Count
  undefined_count : Count
  endless : Count

abbrev pub counts_more : Count → Count
counts_more (counts n) = counts (suc n)
counts_more undefined_count = undefined_count
counts_more endless = endless

-- The loop that counts, on fuel.
unfoldable pub count_ints : ℕ → List ℕ → Count
count_ints zero ptr = endless
count_ints (suc fuel) ptr =
    let rest = count_ints fuel (next_number ptr) in
    elim (sscanf_int ptr) [
      | no_number ↦ counts 0
      | scanned v ↦ counts_more rest
      | beyond_int ↦ undefined_count
    ]

-- `dyn_block`: the numbers of its array, `none` where nothing was stored.
abbrev pub Block : Type 0
Block = List (Option ℤ)

abbrev pub blank_block : ℕ → Block
blank_block zero = []
blank_block (suc n) = none ∷ blank_block n

-- `alloc_dyn_block`: `malloc` may fail for the block or for its array.
unfoldable pub alloc_dyn_block : Bool → Bool → ℕ → Option Block
alloc_dyn_block block_ok data_ok size =
    if block_ok then (if data_ok then some (blank_block size) else none) else none

-- `store_mem_blk`, which `main` does not call: the first numbers of the array, those of the block
-- beyond them staying. `none` if it writes past the end of the block.
unfoldable pub store_mem_blk : Block → List ℤ → Option Block
store_mem_blk block [] = some block
store_mem_blk [] (v ∷ array) = none
store_mem_blk (b ∷ block) (v ∷ array) = elim (store_mem_blk block array) [
  | none ↦ none
  | some rest ↦ some (some v ∷ rest)
]

abbrev pub place : Option ℤ → Option Block → Option Block
place b none = none
place b (some block) = some (b ∷ block)

-- The loop that reads into the block: an `sscanf` that finds no number leaves its place as it was.
-- `none` if one is undefined.
unfoldable pub read_ints : Block → List ℕ → Option Block
read_ints [] ptr = some []
read_ints (b ∷ block) ptr =
    let rest = read_ints block (next_number ptr) in
    elim (sscanf_int ptr) [
      | no_number ↦ place b rest
      | scanned v ↦ place (some v) rest
      | beyond_int ↦ none
    ]

-- `print_dyn_block`: the numbers that it prints, `none` if it reads one that was never stored.
unfoldable pub print_dyn_block : Block → Option (List ℤ)
print_dyn_block [] = some []
print_dyn_block (none ∷ block) = none
print_dyn_block (some v ∷ block) = elim (print_dyn_block block) [
  | none ↦ none
  | some vs ↦ some (v ∷ vs)
]

-- What becomes of a line: printed, no memory, undefined because a number is no int, or a loop without
-- end or a number that was never stored.
pub data Outcome : Type 0 where
  printed : List ℤ → Outcome
  no_memory : Outcome
  overflows : Outcome
  wrong : Outcome

abbrev pub shown : Option (List ℤ) → Outcome
shown none = wrong
shown (some vs) = printed vs

abbrev pub shown_block : Option Block → Outcome
shown_block none = overflows
shown_block (some block) = shown (print_dyn_block block)

-- A round of the loop of `main`.
unfoldable pub load_line : ℕ → Bool → Bool → List ℕ → Outcome
load_line fuel block_ok data_ok line = elim (count_ints fuel line) [
  | endless ↦ wrong
  | undefined_count ↦ overflows
  | counts count ↦ elim (alloc_dyn_block block_ok data_ok count) [
    | none ↦ no_memory
    | some block ↦ shown_block (read_ints block line)
  ]
]

-- `main` over the lines of the file: what it prints, and the exit status. No line runs out of fuel
-- that has one round for each byte, and one more.
abbrev pub load_lines : (ℕ → Bool) → List (List ℕ) → List Outcome
load_lines memory [] = []
load_lines memory (line ∷ lines) =
    let rest = load_lines (λ n. memory (n + 2)) lines in
    let outcome = load_line (length line + 1) (memory 0) (memory 1) line in
    elim outcome [
      | printed vs ↦ printed vs ∷ rest
      | no_memory ↦ no_memory ∷ []
      | overflows ↦ overflows ∷ []
      | wrong ↦ wrong ∷ []
    ]

-- `main`: 1 with nothing printed if the file cannot be opened.
unfoldable pub main : (ℕ → Bool) → Option (List ℕ) → Option (List Outcome)
main memory none = none
main memory (some file) = some (load_lines memory (fgets_lines 1023 [] file))
