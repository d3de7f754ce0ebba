-- ===== src/MultiProcess/Load.antt =====
-- Reading back the file of strings of week6/multi_process.c.
use cs5600_computer_system.Common.{
  ℕ, zero, suc, sym, ◌+◌, ◌≤◌, ◌≡◌, refl, arith, some, List, [], ◌∷◌, ◌++◌, map, ap, ◌∙◌, length,
  append_assoc, append-nil, subst,
}
use cs5600_computer_system.Common.Lines.{fgets_lines, fgets_lines-line, NoNewline}
use cs5600_computer_system.Message.Strings.{c_str, NulFree}
use cs5600_computer_system.StringQueue.{Ptr, Queue}
use cs5600_computer_system.StringQueue.Shape.{IsValid, enqueue-IsValid}
use cs5600_computer_system.MultiProcess.{chopped, print_lines, load_lines, load_strings_into_queue}

-- Strings that `fgets` reads in one call.
abbrev pub Short : List ℕ → Type 0
Short s = NulFree s × NoNewline s × (length s + 1 ≤ 255)

abbrev pub AllShort : List (List ℕ) → Type 0
AllShort [] = Unit {0}
AllShort (s ∷ rest) = Short s × AllShort rest

c_str-newline : (s : List ℕ) → NulFree s → c_str (s ++ (10 ∷ [])) ≡ s ++ (10 ∷ [])
c_str-newline [] p = refl
c_str-newline (zero ∷ s) p = absurd (p.0 refl)
c_str-newline (suc c ∷ s) p = ap (λ r. suc c ∷ r) (c_str-newline s p.1)

chopped-newline : (s : List ℕ) → chopped (s ++ (10 ∷ [])) ≡ s
unfolding chopped
chopped-newline [] = refl
chopped-newline (c ∷ []) = refl
chopped-newline (c ∷ d ∷ s) = ap (λ r. c ∷ r) (chopped-newline (d ∷ s))

lines-print_lines :
    (xs : List (List ℕ))
    → AllShort xs
    → fgets_lines 255 [] (print_lines xs) ≡ map (λ s. s ++ (10 ∷ [])) xs
lines-print_lines [] p = unfold fgets_lines in refl
lines-print_lines (s ∷ rest) p =
    fgets_lines-line 255 [] s (print_lines rest) p.0.1 (omega (arith, p.0.2))
    ∙ ap (λ r. (s ++ (10 ∷ [])) ∷ r) (lines-print_lines rest p.1)

load_lines-IsValid :
    (xs : List (List ℕ)) {q : Queue} {base : Ptr} {ys : List (List ℕ)}
    → AllShort xs
    → IsValid q base ys
    → (t : Queue) × (load_lines (map (λ s. s ++ (10 ∷ [])) xs) q ≡ some t)
      × IsValid t base (ys ++ xs)
unfolding load_lines
load_lines-IsValid [] {q = q} {base} {ys} p v =
    (q, refl, subst (λ zs. IsValid q base zs) (sym (append-nil ys)) v)
load_lines-IsValid (s ∷ rest) {q = q} {base} {ys} p v =
    let same : chopped (c_str (s ++ (10 ∷ []))) ≡ s =
      ap chopped (c_str-newline s p.0.0) ∙ chopped-newline s in
    let (q', e, v') = enqueue-IsValid s v in
    let (t, e', w) = load_lines-IsValid rest p.1 v' in
    (
      t,
      ground (arith, e, e', same),
      subst (λ zs. IsValid t base zs) (append_assoc ys (s ∷ []) rest) w,
    )

-- A file of strings that are short enough for one call of `fgets` each, without NUL and newline, is
-- loaded into the queue string by string, behind what the queue held.
pub load-print_lines :
    (xs ys : List (List ℕ)) (q : Queue) (base : Ptr)
    → AllShort xs
    → IsValid q base ys
    → (t : Queue) × (load_strings_into_queue (print_lines xs) q ≡ some t)
      × IsValid t base (ys ++ xs)
unfolding load_strings_into_queue
load-print_lines xs ys q base p v = rw (lines-print_lines xs p) (load_lines-IsValid xs p v)
