-- ===== src/MultiProcess/Encrypt.antt =====
-- week6/multi_process.c from the strings to what the children print.
use cs5600_computer_system.Common.{
  ℕ, zero, suc, ◌+◌, ◌/◌, ◌<◌, ◌≡◌, refl, ap, ◌∙◌, arith, some, List, [], ◌∷◌, ◌++◌, map, length,
  take, drop, length-drop,
}
use cs5600_computer_system.StringQueue.{Ptr, Queue, init_queue}
use cs5600_computer_system.StringQueue.Shape.{IsValid}
use cs5600_computer_system.StringQueue.Fifo.{init_queue-IsValid}
use cs5600_computer_system.Cipher
use cs5600_computer_system.Cipher.Output.{three_on}
use cs5600_computer_system.Cipher.Output.{main_lem}
use cs5600_computer_system.MultiProcess.{
  Os, Chunk, ended, print_lines, write_chunk, process_in_chunks, random_strings,
  generate_strings_file, load_strings_into_queue,
}
use cs5600_computer_system.MultiProcess.Load.{AllShort, load-print_lines}
use cs5600_computer_system.MultiProcess.Generate.{random_strings_lem, generated-AllShort}
use cs5600_computer_system.MultiProcess.Chunks.{
  Works, files, outputs, write_chunk-IsValid, take-drop-print_lines, drop-AllShort, take-AllShort,
  print_lines-NulFree, map-append,
}

-- What `processInChunks` does with the strings `xs`, 100 at a time.
pub record Encrypts (xs : List (List ℕ)) (chunks : List Chunk) (t : Queue) : Type 0 where
  pub in_order : files chunks ≡ print_lines xs
  pub printed : outputs chunks ≡ some (map three_on (print_lines xs))
  pub count : length chunks ≡ (length xs + 99) / 100
  pub emptied : t.size ≡ 0

-- The strings of one chunk before those of the chunks after it.
add_chunk :
    (x : List ℕ) (xs : List (List ℕ)) (chunks : List Chunk) (t : Queue)
    → AllShort (x ∷ xs)
    → Encrypts (drop 100 (x ∷ xs)) chunks t
    → let file = print_lines (take 100 (x ∷ xs)) in
      Encrypts
        (x ∷ xs)
        (record { file = file; output = some (Cipher.main (some file)).1 } ∷ chunks)
        t
add_chunk x xs chunks t p e =
    let file = print_lines (take 100 (x ∷ xs)) in
    let rest = print_lines (drop 100 (x ∷ xs)) in
    let whole : file ++ rest ≡ print_lines (x ∷ xs) = take-drop-print_lines 100 (x ∷ xs) in
    let out : Cipher.main (some file) ≡ (0, map three_on file) =
      main_lem file (print_lines-NulFree (take 100 (x ∷ xs)) (take-AllShort 100 (x ∷ xs) p)) in
    record {
      in_order = ap (λ r. file ++ r) e.in_order ∙ whole;
      printed = ground (arith, out, e.printed, map-append file rest, ap (map three_on) whole);
      count = omega (arith, e.count, length-drop 100 (x ∷ xs));
      emptied = e.emptied;
    }

one_chunk :
    (fuel : ℕ) (os : Os) (index : ℕ) (q q' t : Queue) (file : List ℕ) (written : ℕ)
    (chunks : List Chunk)
    → Works os
    → 0 < q.size
    → 0 < written
    → write_chunk 100 q ≡ some (file, written, q')
    → process_in_chunks fuel os 100 (index + 1) q' ≡ ended chunks t
    → process_in_chunks (suc fuel) os 100 index q
      ≡ ended (record { file = file; output = some (Cipher.main (some file)).1 } ∷ chunks) t
unfolding process_in_chunks
one_chunk fuel os index q q' t file written chunks w p p' e e' =
    ground (arith, e, e', w.opens index, w.forks index, w.runs index)

process_in_chunks-Encrypts :
    (fuel : ℕ) (os : Os) (index : ℕ) {q : Queue} {base : Ptr} (xs : List (List ℕ))
    → Works os
    → IsValid q base xs
    → AllShort xs
    → length xs < fuel
    → (chunks : List Chunk) × (t : Queue) × (process_in_chunks fuel os 100 index q ≡ ended chunks t)
      × Encrypts xs chunks t
unfolding process_in_chunks
process_in_chunks-Encrypts zero os index xs w v p h = absurd (omega arith)
process_in_chunks-Encrypts (suc fuel) os index {q} {base} [] w v p h = (
  [],
  q,
  ground (arith, v),
  record { in_order = refl; printed = refl; count = refl; emptied = v.size_is },
)
process_in_chunks-Encrypts (suc fuel) os index {q} {base} (x ∷ xs) w v p h =
    let (q', base', e, v') = write_chunk-IsValid 100 v in
    let (chunks, t, e', d) =
      process_in_chunks-Encrypts fuel os (index + 1) (drop 100 (x ∷ xs)) w v'
        (drop-AllShort 100 (x ∷ xs) p) (omega (arith, length-drop 100 (x ∷ xs))) in
    let file = print_lines (take 100 (x ∷ xs)) in
    (
      record { file = file; output = some (Cipher.main (some file)).1 } ∷ chunks,
      t,
      one_chunk fuel os index q q' t file (length (take 100 (x ∷ xs))) chunks w
          (omega (arith, v.size_is)) (omega arith) e e',
      add_chunk x xs chunks t p d,
    )

-- `generate` and then `encrypt`, where every file opens and every child runs: whatever the state of
-- the generator and the number of strings, the file that was written is loaded into the queue, the
-- loop over the queue ends with the queue empty, and no step touches memory that holds no node. There
-- is a chunk file for every 100 strings or part of 100, the chunk files are together the file of
-- strings, and what the children print is together that file with each
-- letter moved three places on in the alphabet, as `Cipher.Output.three_on` writes out.
pub encrypt-generate :
    (total state : ℕ) (os : Os) (heap : Queue)
    → Works os
    → 0 < heap.fresh
    → (q : Queue) × (chunks : List Chunk) × (t : Queue) × (load_strings_into_queue
          (generate_strings_file total state)
          (init_queue heap)
        ≡ some q)
      × (process_in_chunks (suc total) os 100 0 q ≡ ended chunks t)
      × Encrypts (random_strings total state) chunks t
unfolding generate_strings_file
encrypt-generate total state os heap w p =
    let xs = random_strings total state in
    let g = random_strings_lem total state in
    let short = generated-AllShort xs g.1 in
    let (q, e, v) =
      load-print_lines xs [] (init_queue heap) heap.fresh short (init_queue-IsValid heap p) in
    let (chunks, t, e', d) =
      process_in_chunks-Encrypts (suc total) os 0 xs w v short (omega (arith, g.0)) in
    (q, chunks, t, e, e', d)
