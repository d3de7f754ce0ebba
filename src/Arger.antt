-- ===== src/Arger.antt =====
-- The argument processor of 01-28/arger.c. A string is the list of its bytes before the NUL.
pub mod Strings
pub mod Output
mod Tests
use cs5600_computer_system.Common.{
  ℕ, ◌+◌, ◌-◌, Bool, true, false, ◌&&◌, ◌||◌, Option, none, some, List, [], ◌∷◌, if◌then◌else◌, ltb,
  leb, ◌==◌, length, take, map,
}
use cs5600_computer_system.Common.Int.{ℤ, pos, negsuc}
use cs5600_computer_system.Common.Text.{codes, is_upper, is_lower}

unfoldable pub my_toupper : ℕ → ℕ
my_toupper c = if is_lower c then c - 32 else c

unfoldable pub my_tolower : ℕ → ℕ
my_tolower c = if is_upper c then c + 32 else c

-- The body of the loop of `to_capitalized`: the byte that it writes, and the new value of `newWord`.
unfoldable pub capital : Bool → ℕ → ℕ
capital new_word c = if new_word && (is_lower c || is_upper c) then my_toupper c else my_tolower c

unfoldable pub next_word : Bool → ℕ → Bool
next_word new_word c =
    if capital new_word c == b' '
    then true
    else (if new_word && (is_lower c || is_upper c) then false else new_word)

unfoldable pub capitalize : Bool → List ℕ → List ℕ
capitalize new_word [] = []
capitalize new_word (c ∷ s) = capital new_word c ∷ capitalize (next_word new_word c) s

abbrev pub to_capitalized : List ℕ → List ℕ
to_capitalized = capitalize true

unfoldable pub my_strlen : List ℕ → ℕ
my_strlen s = length s

-- `my_strcat` into a string that its array has room for.
unfoldable pub my_strcat : List ℕ → List ℕ → List ℕ
my_strcat [] src = src
my_strcat (c ∷ dest) src = c ∷ my_strcat dest src

-- The difference of two bytes as an int.
abbrev pub byte_difference : ℕ → ℕ → ℤ
byte_difference c d = if leb d c then pos (c - d) else negsuc (d - c - 1)

unfoldable pub my_strcmp : List ℕ → List ℕ → ℤ
my_strcmp [] [] = byte_difference 0 0
my_strcmp [] (d ∷ s2) = byte_difference 0 d
my_strcmp (c ∷ s1) [] = byte_difference c 0
my_strcmp (c ∷ s1) (d ∷ s2) =
    let rest = my_strcmp s1 s2 in if c == d then rest else byte_difference c d

abbrev pub is_zero : ℤ → Bool
is_zero (pos n) = n == 0
is_zero (negsuc n) = false

-- The size of `output`, whose last byte is for the NUL.
abbrev pub output_size : ℕ
output_size = 1000

-- The loop that puts the arguments into `output`; `none` where it writes past its end.
unfoldable pub collect : List ℕ → List (List ℕ) → Option (List ℕ)
collect output [] = some output
collect output (arg ∷ args) =
    let output' = my_strcat (my_strcat output arg) (codes " ") in
    let rest = collect output' args in if ltb (my_strlen output') output_size then rest else none

-- `output[my_strlen(output) - 1] = '\0'`
abbrev pub trimmed : List ℕ → List ℕ
trimmed output = take (my_strlen output - 1) output

-- How `main` ends: it prints a text and returns 0, returns -1, or writes past the end of `output`.
pub data Result : Type 0 where
  prints : List ℕ → Result
  fails : Result
  overflows : Result

-- The choice by the flag.
unfoldable pub apply_flag : List ℕ → List ℕ → Result
apply_flag flag output =
    if is_zero (my_strcmp flag (codes "-u"))
    then prints (map my_toupper output)
    else (if is_zero (my_strcmp flag (codes "-l"))
        then prints (map my_tolower output)
        else (if is_zero (my_strcmp flag (codes "-cap"))
            then prints (to_capitalized output)
            else fails))

-- The rest of `main`, once the arguments are in `output`.
abbrev pub finish : List ℕ → Option (List ℕ) → Result
finish flag none = overflows
finish flag (some output) = apply_flag flag (trimmed output)

-- `main` over `argv[1]`, `argv[2]` and so on.
unfoldable pub main : List (List ℕ) → Result
main [] = fails
main (flag ∷ []) = fails
main (flag ∷ arg ∷ args) = finish flag (collect [] (arg ∷ args))
