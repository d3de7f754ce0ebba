-- ===== src/Cipher/Tests.antt =====
-- The cipher of week6/cipher.c at concrete bytes.
use cs5600_computer_system.Common.{ℕ, ◌≡◌, refl, arith, some, List, ◌∷◌, ◌++◌, map}
use cs5600_computer_system.Common.Text.{codes}
use cs5600_computer_system.Common.Lines.{fgets_lines}
use cs5600_computer_system.Message.Strings.{NulFree}
use cs5600_computer_system.Cipher.{shift, encrypt_line, encrypt_lines, main}
use cs5600_computer_system.Cipher.Shift.{unshift}
use cs5600_computer_system.Cipher.Output.{three_on, main_lem, unshift-main}

abbrev two_lines : List ℕ
two_lines = codes "Hey" ++ (10 ∷ codes "xyz")

two_lines-NulFree : NulFree two_lines
two_lines-NulFree = (
  omega arith,
  (omega arith, (omega arith, (omega arith, (omega arith, (omega arith, (omega arith, tt)))))),
)

prints : main (some two_lines) ≡ (0, codes "Khb" ++ (10 ∷ codes "abc"))
unfolding main encrypt_lines encrypt_line shift fgets_lines
prints = refl

main_lem_example : main (some two_lines) ≡ (0, map three_on two_lines)
main_lem_example = main_lem two_lines two_lines-NulFree

unshift-main_example : map unshift (main (some two_lines)).1 ≡ two_lines
unshift-main_example = unshift-main two_lines two_lines-NulFree
