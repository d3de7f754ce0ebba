-- ===== src/MultiProcess/Generate.antt =====
-- The strings that week6/multi_process.c generates.
use cs5600_computer_system.Common.{
  ℕ, zero, suc, ◌+◌, ◌%◌, ◌≤◌, ◌≡◌, refl, arith, true, List, [], ◌∷◌, length,
}
use cs5600_computer_system.Common.Text.{is_lower}
use cs5600_computer_system.MultiProcess.{
  lcg_rand, lcg_rand_range, random_letters, generate_random_string, random_strings,
}
use cs5600_computer_system.Common.Lines.{NoNewline}
use cs5600_computer_system.Message.Strings.{NulFree}
use cs5600_computer_system.MultiProcess.Load.{AllShort}

abbrev pub AllLower : List ℕ → Type 0
AllLower [] = Unit {0}
AllLower (c ∷ s) = (is_lower c ≡ true) × AllLower s

-- Five to ten letters from a to z.
abbrev pub Generated : List ℕ → Type 0
Generated s = (5 ≤ length s) × (length s ≤ 10) × AllLower s

abbrev pub AllGenerated : List (List ℕ) → Type 0
AllGenerated [] = Unit {0}
AllGenerated (s ∷ rest) = Generated s × AllGenerated rest

random_letters_lem :
    (n state : ℕ) → (length (random_letters n state).0 ≡ n) × AllLower (random_letters n state).0
unfolding random_letters lcg_rand_range
random_letters_lem zero state = (refl, tt)
random_letters_lem (suc n) state =
    let rest = random_letters_lem n (lcg_rand state) in
    (omega (arith, rest.0), (ground arith, rest.1))

generated : (state : ℕ) → Generated (generate_random_string 5 10 state).0
unfolding generate_random_string lcg_rand_range
generated state =
    let s = random_letters_lem (lcg_rand state % 6 + 5) (lcg_rand state) in
    (omega (arith, s.0), omega (arith, s.0), s.1)

-- From every state of the generator, as many strings are generated as asked for, and each of them
-- has 5 to 10 letters, all from a to z.
pub random_strings_lem :
    (total state : ℕ)
    → (length (random_strings total state) ≡ total) × AllGenerated (random_strings total state)
unfolding random_strings
random_strings_lem zero state = (refl, tt)
random_strings_lem (suc total) state =
    let rest = random_strings_lem total (generate_random_string 5 10 state).1 in
    (omega (arith, rest.0), (generated state, rest.1))

lower-NulFree : (s : List ℕ) → AllLower s → NulFree s × NoNewline s
lower-NulFree [] p = (tt, tt)
lower-NulFree (c ∷ s) p =
    let rest = lower-NulFree s p.1 in ((ground (arith, p.0), rest.0), (ground (arith, p.0), rest.1))

pub generated-AllShort : (xs : List (List ℕ)) → AllGenerated xs → AllShort xs
generated-AllShort [] p = tt
generated-AllShort (s ∷ rest) p =
    let plain = lower-NulFree s p.0.2 in
    ((plain.0, plain.1, omega (arith, p.0.1)), generated-AllShort rest p.1)
