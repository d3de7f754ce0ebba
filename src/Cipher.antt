-- ===== src/Cipher.antt =====
-- The cipher of week6/cipher.c (and week3/cipher.c): each line of a file with its letters shifted by 3.
pub mod Shift
pub mod Output
mod Tests
use cs5600_computer_system.Common.{
  ℕ, ◌+◌, ◌-◌, ◌%◌, Bool, ◌||◌, Option, none, some, List, [], ◌∷◌, ◌++◌, if◌then◌else◌, ◌==◌,
}
use cs5600_computer_system.Common.Text.{is_upper, is_lower}
use cs5600_computer_system.Common.Lines.{fgets_lines}

-- `sizeof(line) - 1`
abbrev pub line_room : ℕ
line_room = 255

-- `isalpha` of the C locale.
abbrev pub is_alpha : ℕ → Bool
is_alpha c = is_upper c || is_lower c

-- The body of the inner loop. `line[i] - base` is not negative for a letter.
unfoldable pub shift : ℕ → ℕ
shift c =
    let base = if is_lower c then b'a' else b'A' in
    if is_alpha c then base + (c - base + 3) % 26 else c

-- The inner loop and `fputs`, both of which stop at a NUL.
unfoldable pub encrypt_line : List ℕ → List ℕ
encrypt_line [] = []
encrypt_line (c ∷ line) = if c == 0 then [] else shift c ∷ encrypt_line line

unfoldable pub encrypt_lines : List (List ℕ) → List ℕ
encrypt_lines [] = []
encrypt_lines (line ∷ rest) = encrypt_line line ++ encrypt_lines rest

-- `main`: the exit status and what it prints. `file` is the content of the file that `argv[1]` names,
-- `none` if there is no argument or the file does not open.
unfoldable pub main : Option (List ℕ) → ℕ × List ℕ
main none = (1, [])
main (some file) = (0, encrypt_lines (fgets_lines line_room [] file))
