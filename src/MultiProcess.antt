-- ===== src/MultiProcess.antt =====
-- The driver of week6/multi_process.c: it writes random strings to a file, reads them into the queue of
-- week6/queue.c, and hands them in chunks to child processes that run week6/cipher.c.
pub mod Generate
pub mod Load
pub mod Chunks
pub mod Encrypt
mod Tests
use cs5600_computer_system.Common.{
  ℕ, zero, suc, ◌+◌, ◌-◌, ◌*◌, ◌%◌, Bool, true, false, Option, none, some, List, [], ◌∷◌, ◌++◌,
  if◌then◌else◌, ◌==◌,
}
use cs5600_computer_system.Common.Lines.{fgets_lines}
use cs5600_computer_system.Message.Strings.{c_str}
use cs5600_computer_system.StringQueue.{Queue, enqueue, dequeue, is_empty_queue}
use cs5600_computer_system.Cipher

-- `lcg_rand`: the next state, which is also the result. `& 0x7fffffffUL` is the remainder by 2^31,
-- which the wrap-around of unsigned long at a multiple of it does not change.
unfoldable pub lcg_rand : ℕ → ℕ
lcg_rand state = (1103515245 * state + 12345) % 2147483648

-- `lcg_rand_range` for 0 ≤ min ≤ max: the number and the new state.
unfoldable pub lcg_rand_range : ℕ → ℕ → ℕ → ℕ × ℕ
lcg_rand_range min max state = (lcg_rand state % (max - min + 1) + min, lcg_rand state)

-- The loop of `generateRandomString`.
unfoldable pub random_letters : ℕ → ℕ → List ℕ × ℕ
random_letters zero state = ([], state)
random_letters (suc n) state =
    let (c, state') = lcg_rand_range b'a' b'z' state in
    let (s, state'') = random_letters n state' in (c ∷ s, state'')

unfoldable pub generate_random_string : ℕ → ℕ → ℕ → List ℕ × ℕ
generate_random_string min_len max_len state =
    let (len, state') = lcg_rand_range min_len max_len state in random_letters len state'

-- The strings of `generateStringsFile`, `total` of them (10000 in the source).
unfoldable pub random_strings : ℕ → ℕ → List (List ℕ)
random_strings zero state = []
random_strings (suc total) state =
    let (s, state') = generate_random_string 5 10 state in s ∷ random_strings total state'

-- `fprintf(fp, "%s\n", s)` for each of them.
abbrev pub print_lines : List (List ℕ) → List ℕ
print_lines [] = []
print_lines (s ∷ rest) = s ++ (10 ∷ print_lines rest)

-- `generateStringsFile`: what it writes.
unfoldable pub generate_strings_file : ℕ → ℕ → List ℕ
generate_strings_file total state = print_lines (random_strings total state)

-- A line without the newline at its end.
unfoldable pub chopped : List ℕ → List ℕ
chopped [] = []
chopped (c ∷ []) = if c == 10 then [] else c ∷ []
chopped (c ∷ d ∷ s) = c ∷ chopped (d ∷ s)

-- The loop of `loadStringsIntoQueue`; `none` where the queue touches memory that holds no node.
unfoldable pub load_lines : List (List ℕ) → Queue → Option Queue
load_lines [] q = some q
load_lines (line ∷ lines) q = elim (enqueue q (chopped (c_str line))) [
  | none ↦ none
  | some q' ↦ load_lines lines q'
]

unfoldable pub load_strings_into_queue : List ℕ → Queue → Option Queue
load_strings_into_queue file q = load_lines (fgets_lines 255 [] file) q

-- The loop of `writeChunkToFile`, `left` being `count - written`: the file, the number of strings
-- and the queue; `none` where it touches memory that holds no node or no string.
unfoldable pub write_chunk : ℕ → Queue → Option (List ℕ × ℕ × Queue)
write_chunk zero q = some ([], 0, q)
write_chunk (suc left) q = if is_empty_queue q then some ([], 0, q) else elim (dequeue q) [
  | none ↦ none
  | some (none, q') ↦ none
  | some (some str, q') ↦ elim (write_chunk left q') [
    | none ↦ none
    | some (file, written, t) ↦ some (str ++ (10 ∷ file), written + 1, t)
  ]
]

-- Which chunk files open, and which calls of `fork` work and reach the cipher in the child.
pub record Os : Type 0 where
  pub opens : ℕ → Bool
  pub forks : ℕ → Bool
  pub runs : ℕ → Bool

-- A chunk file, and what its child printed.
pub record Chunk : Type 0 where
  pub file : List ℕ
  pub output : Option (List ℕ)

-- `processInChunks` ends with the chunks that it wrote, leaves by `exit`, touches memory that holds
-- no node, or does not end within its fuel.
pub data Processed : Type 0 where
  ended : List Chunk → Queue → Processed
  exits : Processed
  fault : Processed
  unfinished : Processed

abbrev pub with_chunk : Chunk → Processed → Processed
with_chunk c (ended chunks q) = ended (c ∷ chunks) q
with_chunk c exits = exits
with_chunk c fault = fault
with_chunk c unfinished = unfinished

-- What the child of chunk `index` prints: the cipher over the chunk file.
abbrev pub child : Os → ℕ → List ℕ → Option (List ℕ)
child os index file = if os.runs index then some (Cipher.main (some file)).1 else none

-- The loop of `processInChunks`, on fuel.
unfoldable pub process_in_chunks : ℕ → Os → ℕ → ℕ → Queue → Processed
process_in_chunks zero os chunk_size index q = unfinished
process_in_chunks (suc fuel) os chunk_size index q =
    if is_empty_queue q
    then ended [] q
    else (if os.opens index
        then elim (write_chunk chunk_size q) [
          | none ↦ fault
          | some (file, written, q') ↦
              let rest = process_in_chunks fuel os chunk_size (index + 1) q' in
              if written == 0
              then ended [] q'
              else (if os.forks index
                  then with_chunk (record { file = file; output = child os index file }) rest
                  else exits)
        ]
        else ended [] q)
