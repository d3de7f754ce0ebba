-- ===== src/LoadMem/Reload.antt =====
-- week4/loadmem.c on a file that is written as it prints blocks.
use cs5600_computer_system.Common.{
  ℕ, suc, ◌+◌, ◌≤◌, ◌≡◌, refl, sym, ap, ◌∙◌, subst, arith, true, false, some, List, [], ◌∷◌, ◌++◌,
  append_assoc, map, ◌==◌, length, length-append, ◌<◌, ◌||◌,
}
use cs5600_computer_system.Common.Int.{ℤ, pos, negsuc}
use cs5600_computer_system.Common.Lines.{fgets_lines, NoNewline, fgets_lines-line}
use cs5600_computer_system.Common.Scan.{is_digit, in_int, scan_int}
use cs5600_computer_system.LoadMem.{
  skip_word, skip_spaces, next_number, printed, no_memory, overflows, wrong, load_lines, main,
  sscanf_int, scanned,
}
use cs5600_computer_system.Common.Decimal.{
  to_decimal, print_int, AllDigits, to_decimal-AllDigits, to_decimal-Starts, scan_int-print_int,
}
use cs5600_computer_system.LoadMem.Blocks.{Numbers, end, number, load_line-Numbers}

-- `printf("%d ", …)` for each number of a block.
abbrev pub print_numbers : List ℤ → List ℕ
print_numbers [] = []
print_numbers (v ∷ vs) = print_int v ++ (32 ∷ print_numbers vs)

-- What `print_dyn_block` writes of blocks.
abbrev pub text : List (List ℤ) → List ℕ
text [] = []
text (vs ∷ vss) = print_numbers vs ++ (10 ∷ text vss)

abbrev pub AllInts : List ℤ → Type 0
AllInts [] = Unit {0}
AllInts (v ∷ vs) = (in_int v ≡ true) × AllInts vs

-- The numbers are ints, and each printed line fits the buffer of `main`.
abbrev pub Fit : List (List ℤ) → Type 0
Fit [] = Unit {0}
Fit (vs ∷ vss) = (length (print_numbers vs) + 1 ≤ 1023) × AllInts vs × Fit vss

-- No blank, no NUL and no end of line.
abbrev Solid : List ℕ → Type 0
Solid [] = Unit {0}
Solid (c ∷ s) = ((c == 0 || c == 32) ≡ false) × ((c == 10) ≡ false) × Solid s

digits-Solid : (a : List ℕ) → AllDigits a → Solid a
digits-Solid [] h = tt
digits-Solid (c ∷ a) h = (ground (arith, h.0), ground (arith, h.0), digits-Solid a h.1)

print_int-Solid : (v : ℤ) → Solid (print_int v)
print_int-Solid (pos n) = digits-Solid (to_decimal (suc n) n) (to_decimal-AllDigits (suc n) n)
print_int-Solid (negsuc n) = (
  refl,
  refl,
  digits-Solid (to_decimal (suc (suc n)) (suc n)) (to_decimal-AllDigits (suc (suc n)) (suc n)),
)

skip_word-Solid : (w s : List ℕ) → Solid w → skip_word (w ++ (32 ∷ s)) ≡ 32 ∷ s
skip_word-Solid [] s h = refl
skip_word-Solid (c ∷ w) s h = rw h.0 (skip_word-Solid w s h.2)

skip_spaces_digit : (c : ℕ) (s : List ℕ) → is_digit c ≡ true → skip_spaces (c ∷ s) ≡ c ∷ s
skip_spaces_digit c s h = let other : (c == 32) ≡ false = ground (arith, h) in rw other refl

-- A number starts with no blank.
skip_spaces-print_int : (v : ℤ) (s : List ℕ) → skip_spaces (print_int v ++ s) ≡ print_int v ++ s
skip_spaces-print_int (pos n) s =
    let (c, a, e, d) = to_decimal-Starts n n in
    subst (λ l. skip_spaces (l ++ s) ≡ l ++ s) (sym e) (skip_spaces_digit c (a ++ s) d)
skip_spaces-print_int (negsuc n) s = refl

skip_spaces-line :
    (vs : List ℤ) → skip_spaces (print_numbers vs ++ (10 ∷ [])) ≡ print_numbers vs ++ (10 ∷ [])
skip_spaces-line [] = refl
skip_spaces-line (v ∷ vs) =
    subst (λ l. skip_spaces l ≡ l)
      (sym (append_assoc (print_int v) (32 ∷ print_numbers vs) (10 ∷ [])))
      (skip_spaces-print_int v (32 ∷ (print_numbers vs ++ (10 ∷ []))))

scanned_int :
    (v : ℤ) (s : List ℕ) → in_int v ≡ true → scan_int s ≡ some v → sscanf_int s ≡ scanned v
unfolding sscanf_int
scanned_int v s h e = rw (sscanf_int, e, h) refl

-- The numbers of a printed line are those that were printed.
line-Numbers : (vs : List ℤ) → AllInts vs → Numbers (print_numbers vs ++ (10 ∷ [])) vs
unfolding sscanf_int
line-Numbers [] h = end refl
line-Numbers (v ∷ vs) h =
    let rest = print_numbers vs ++ (10 ∷ []) in
    let next : next_number (print_int v ++ (32 ∷ rest)) ≡ rest =
      ap skip_spaces (skip_word-Solid (print_int v) rest (print_int-Solid v))
      ∙ skip_spaces-line vs in
    subst (λ l. Numbers l (v ∷ vs))
      (sym (append_assoc (print_int v) (32 ∷ print_numbers vs) (10 ∷ [])))
      (number v vs
        (scanned_int v (print_int v ++ (32 ∷ rest)) h.0 (scan_int-print_int v (32 ∷ rest) refl))
        (subst (λ l. Numbers l vs) (sym next) (line-Numbers vs h.1)))

append-NoNewline : (w s : List ℕ) → Solid w → NoNewline s → NoNewline (w ++ s)
append-NoNewline [] s h k = k
append-NoNewline (c ∷ w) s h k = (h.1, append-NoNewline w s h.2 k)

print_numbers-NoNewline : (vs : List ℤ) → NoNewline (print_numbers vs)
print_numbers-NoNewline [] = tt
print_numbers-NoNewline (v ∷ vs) =
    append-NoNewline (print_int v) (32 ∷ print_numbers vs) (print_int-Solid v)
      (refl, print_numbers-NoNewline vs)

numbers_short : (vs : List ℤ) → length vs ≤ length (print_numbers vs)
numbers_short [] = omega arith
numbers_short (v ∷ vs) =
    omega (arith, length-append (print_int v) (32 ∷ print_numbers vs), numbers_short vs)

load_text :
    (vss : List (List ℤ))
    → Fit vss
    → load_lines (λ n. true) (fgets_lines 1023 [] (text vss)) ≡ map printed vss
unfolding fgets_lines
load_text [] h = refl
load_text (vs ∷ vss) h =
    let line = print_numbers vs ++ (10 ∷ []) in
    let split =
      fgets_lines-line 1023 [] (print_numbers vs) (text vss) (print_numbers-NoNewline vs)
        (omega (arith, h.0)) in
    let enough : length vs < length line + 1 =
      omega (arith, numbers_short vs, length-append (print_numbers vs) (10 ∷ [])) in
    ap (load_lines (λ n. true)) split
    ∙ ap
        (λ o. elim o [
          | printed ws ↦ printed ws ∷ load_lines (λ n. true) (fgets_lines 1023 [] (text vss))
          | no_memory ↦ no_memory ∷ []
          | overflows ↦ overflows ∷ []
          | wrong ↦ wrong ∷ []
        ])
        (load_line-Numbers (length line + 1) line vs (line-Numbers vs h.1) enough)
    ∙ ap (λ l. printed vs ∷ l) (load_text vss h.2)

-- A file of lines that fit the buffer, each written as `print_dyn_block` prints a block of ints,
-- is loaded and printed number by number, line by line, where there is memory.
pub main-text :
    (vss : List (List ℤ)) → Fit vss → main (λ n. true) (some (text vss)) ≡ some (map printed vss)
unfolding main
main-text vss h = ap some (load_text vss h)
