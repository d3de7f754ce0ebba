-- ===== src/Arger/Strings.antt =====
-- The string functions of 01-28/arger.c.
use cs5600_computer_system.Common.{
  ℕ, ◌≡◌, refl, ap, ap₂, arith, Bool, true, false, List, [], ◌∷◌, ◌++◌, map,
}
use cs5600_computer_system.Common.Text.{str_eq}
use cs5600_computer_system.Message.Strings.{NulFree}
use cs5600_computer_system.Arger.{
  my_toupper, my_tolower, capital, next_word, capitalize, my_strcat, my_strcmp, is_zero,
}

pub my_strcat_lem : (dest src : List ℕ) → my_strcat dest src ≡ dest ++ src
unfolding my_strcat
my_strcat_lem [] src = refl
my_strcat_lem (c ∷ dest) src = ap (λ r. c ∷ r) (my_strcat_lem dest src)

-- For strings without NUL bytes inside, `my_strcmp` returns 0 exactly for equal strings.
pub my_strcmp_zero :
    (s1 s2 : List ℕ) → NulFree s1 → NulFree s2 → is_zero (my_strcmp s1 s2) ≡ str_eq s1 s2
unfolding my_strcmp
my_strcmp_zero [] [] p q = refl
my_strcmp_zero [] (d ∷ s2) p q = ground (arith, q)
my_strcmp_zero (c ∷ s1) [] p q = ground (arith, p)
my_strcmp_zero (c ∷ s1) (d ∷ s2) p q = ground (arith, my_strcmp_zero s1 s2 p.1 q.1)

capital_again :
    (new_word : Bool) (c : ℕ) → capital new_word (capital new_word c) ≡ capital new_word c
unfolding capital my_toupper my_tolower
capital_again true c = ground arith
capital_again false c = ground arith

next_word-capital :
    (new_word : Bool) (c : ℕ) → next_word new_word (capital new_word c) ≡ next_word new_word c
unfolding next_word capital my_toupper my_tolower
next_word-capital true c = ground arith
next_word-capital false c = ground arith

my_tolower-capital : (new_word : Bool) (c : ℕ) → my_tolower (capital new_word c) ≡ my_tolower c
unfolding capital my_toupper my_tolower
my_tolower-capital true c = ground arith
my_tolower-capital false c = ground arith

-- Capitalizing twice is capitalizing once, and it changes nothing but the case of letters: in lower
-- case the text is as before.
pub capitalize_lem :
    (new_word : Bool) (s : List ℕ)
    → (capitalize new_word (capitalize new_word s) ≡ capitalize new_word s)
      × (map my_tolower (capitalize new_word s) ≡ map my_tolower s)
unfolding capitalize
capitalize_lem new_word [] = (refl, refl)
capitalize_lem new_word (c ∷ s) =
    let rest = capitalize_lem (next_word new_word c) s in
    (
      rw (next_word-capital new_word c, capital_again new_word c, rest.0) refl,
      ap₂ ◌∷◌ (my_tolower-capital new_word c) rest.1,
    )
