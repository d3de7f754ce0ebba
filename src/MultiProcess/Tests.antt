-- ===== src/MultiProcess/Tests.antt =====
-- week6/multi_process.c at concrete states.
use cs5600_computer_system.Common.{suc, ◌≡◌, refl, arith, true, false, some, List, [], ◌∷◌}
use cs5600_computer_system.Common.Text.{codes}
use cs5600_computer_system.StringQueue.{Queue, init_queue}
use cs5600_computer_system.MultiProcess.{
  Os, Chunk, ended, process_in_chunks, random_strings, generate_strings_file,
  load_strings_into_queue, generate_random_string, random_letters, lcg_rand_range, lcg_rand,
}
use cs5600_computer_system.MultiProcess.Load.{AllShort}
use cs5600_computer_system.MultiProcess.Chunks.{Works}
use cs5600_computer_system.MultiProcess.Encrypt.{Encrypts, encrypt-generate}

abbrev heap : Queue
heap = record {
  live = λ p. false;
  text = λ p. [];
  next = λ p. 0;
  fresh = 1;
  front = 0;
  rear = 0;
  size = 0;
}

abbrev os : Os
os = record { opens = λ i. true; forks = λ i. true; runs = λ i. true }

os-Works : Works os
os-Works = record { opens = λ i. refl; forks = λ i. refl; runs = λ i. refl }

two_strings-AllShort : AllShort (codes "ab" ∷ codes "" ∷ [])
two_strings-AllShort = (
  ((omega arith, (omega arith, tt)), (refl, (refl, tt)), omega arith),
  ((tt, tt, omega arith), tt),
)

encrypt-generate_example :
    (q : Queue) × (chunks : List Chunk) × (t : Queue) × (load_strings_into_queue
        (generate_strings_file 101 1)
        (init_queue heap)
      ≡ some q)
    × (process_in_chunks (suc 101) os 100 0 q ≡ ended chunks t)
    × Encrypts (random_strings 101 1) chunks t
encrypt-generate_example = encrypt-generate 101 1 os heap os-Works (omega arith)

first_letters : random_strings 1 1 ≡ codes "fazyz" ∷ []
unfolding random_strings generate_random_string random_letters lcg_rand_range lcg_rand
first_letters = refl
