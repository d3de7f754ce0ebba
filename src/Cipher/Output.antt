-- ===== src/Cipher/Output.antt =====
-- What the program of week6/cipher.c prints.
use cs5600_computer_system.Common.{
  ℕ, ◌≡◌, refl, arith, some, List, [], ◌∷◌, ◌++◌, map, ap, ap₂, subst, ◌∙◌, sym, ◌+◌, ◌-◌, leb,
  ◌&&◌, ◌||◌, if◌then◌else◌,
}
use cs5600_computer_system.Common.Lines.{fgets_lines, concat, concat-fgets_lines}
use cs5600_computer_system.Message.Strings.{NulFree}
use cs5600_computer_system.Cipher.{shift, encrypt_line, encrypt_lines, line_room, main}
use cs5600_computer_system.Cipher.Shift.{unshift, unshift-shift}

-- A line without a NUL is shifted whole, and the lines after it follow.
encrypt_line-append :
    (line rest : List ℕ)
    → NulFree (line ++ rest)
    → map shift (line ++ rest) ≡ encrypt_line line ++ map shift rest
unfolding encrypt_line
encrypt_line-append [] rest p = refl
encrypt_line-append (c ∷ line) rest p = ground (arith, p, encrypt_line-append line rest)

rest-NulFree : (line rest : List ℕ) → NulFree (line ++ rest) → NulFree rest
rest-NulFree [] rest p = p
rest-NulFree (c ∷ line) rest p = rest-NulFree line rest p.1

encrypt_lines-concat :
    (ls : List (List ℕ)) → NulFree (concat ls) → encrypt_lines ls ≡ map shift (concat ls)
unfolding encrypt_lines
encrypt_lines-concat [] p = refl
encrypt_lines-concat (l ∷ ls) p =
    ap (λ r. encrypt_line l ++ r) (encrypt_lines-concat ls (rest-NulFree l (concat ls) p))
    ∙ sym (encrypt_line-append l (concat ls) p)

main-shift : (file : List ℕ) → NulFree file → main (some file) ≡ (0, map shift file)
unfolding main
main-shift file p =
    let same = concat-fgets_lines line_room [] file in
    rw (encrypt_lines-concat (fgets_lines line_room [] file) (subst NulFree (sym same) p), same)
      refl

-- A letter's place in its alphabet moves on by three: x, y and z become a, b and c.
abbrev pub three_on : ℕ → ℕ
three_on c =
    if (leb b'A' c && leb c b'W') || (leb b'a' c && leb c b'w')
    then c + 3
    else (if (leb b'X' c && leb c b'Z') || (leb b'x' c && leb c b'z') then c - 23 else c)

shift_lem : (c : ℕ) → shift c ≡ three_on c
unfolding shift
shift_lem c = ground arith

map-shift : (s : List ℕ) → map shift s ≡ map three_on s
map-shift [] = refl
map-shift (c ∷ s) = ap₂ ◌∷◌ (shift_lem c) (map-shift s)

-- For a file without NUL bytes, whatever the length of its lines, the program exits with 0 and prints
-- the file with each letter from A to W or a to w replaced by the third after it, each from X to Z
-- or x to z by the one 23 before it, and every other byte as it is.
pub main_lem : (file : List ℕ) → NulFree file → main (some file) ≡ (0, map three_on file)
main_lem file p = main-shift file p ∙ ap (λ s. (0, s)) (map-shift file)

-- The file can be read back from what the program prints.
pub unshift-main : (file : List ℕ) → NulFree file → map unshift (main (some file)).1 ≡ file
unshift-main file p = rw (main-shift file p) (back file)
  where
    back : (s : List ℕ) → map unshift (map shift s) ≡ s
    back [] = refl
    back (c ∷ s) = ap₂ ◌∷◌ (unshift-shift c).0 (back s)
