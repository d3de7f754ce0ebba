-- ===== src/Arger/Tests.antt =====
-- The program of 01-28/arger.c at concrete arguments.
use cs5600_computer_system.Common.{◌+◌, ◌≡◌, refl, arith, [], ◌∷◌, if◌then◌else◌, ltb, length}
use cs5600_computer_system.Common.Text.{codes}
use cs5600_computer_system.Arger.{
  my_tolower, my_toupper, my_strcat, my_strcmp, my_strlen, capital, next_word, capitalize, collect,
  apply_flag, prints, fails, overflows, output_size, main,
}
use cs5600_computer_system.Arger.Output.{joined, expected, main-expected}

prints_capitalized :
    main (codes "-cap" ∷ codes "heLLo  wORLD" ∷ codes "a1 1b" ∷ [])
    ≡ prints (codes "Hello  World A1 1B")
unfolding main collect apply_flag my_strcat my_strcmp my_strlen capitalize capital next_word
    my_toupper my_tolower
prints_capitalized = refl

bad_flag : main (codes "-x" ∷ codes "a" ∷ []) ≡ fails
unfolding main collect apply_flag my_strcat my_strcmp my_strlen
bad_flag = refl

main-expected_example : main (codes "-u" ∷ codes "a" ∷ codes "b" ∷ []) ≡ (
    if ltb (length (joined (codes "a" ∷ codes "b" ∷ [])) + 1) output_size
    then expected (codes "-u") (joined (codes "a" ∷ codes "b" ∷ []))
    else overflows)
main-expected_example = main-expected (codes "-u") (codes "a") (codes "b" ∷ []) (ground arith)
