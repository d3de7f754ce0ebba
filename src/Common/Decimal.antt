-- ===== src/Common/Decimal.antt =====
-- Numbers as `printf` writes them with %d, and as `sscanf` reads them.
use cs5600_computer_system.Common.{
  ℕ, zero, suc, ◌+◌, ◌-◌, ◌*◌, ◌/◌, ◌%◌, ◌<◌, ◌≤◌, ◌≡◌, refl, sym, ap, ◌∙◌, arith, true, false,
  some, List, [], ◌∷◌, ◌++◌, if◌then◌else◌, ltb, ◌==◌, Bool-cases, inl, inr,
}
use cs5600_computer_system.Common.Int.{ℤ, pos, negsuc}
use cs5600_computer_system.Common.Scan.{
  is_space, is_digit, digits, negative, unsigned_int, signed, scan_int,
}

-- The digits of a number, on fuel.
abbrev pub to_decimal : ℕ → ℕ → List ℕ
to_decimal zero n = []
to_decimal (suc fuel) n =
    let rest = to_decimal fuel (n / 10) in
    if ltb n 10 then (48 + n) ∷ [] else rest ++ ((48 + n % 10) ∷ [])

-- `printf("%d", v)`
abbrev pub print_int : ℤ → List ℕ
print_int (pos n) = to_decimal (suc n) n
print_int (negsuc n) = 45 ∷ to_decimal (suc (suc n)) (suc n)

abbrev pub AllDigits : List ℕ → Type 0
AllDigits [] = Unit {0}
AllDigits (c ∷ s) = (is_digit c ≡ true) × AllDigits s

append-AllDigits :
    (a : List ℕ) (c : ℕ) → AllDigits a → is_digit c ≡ true → AllDigits (a ++ (c ∷ []))
append-AllDigits [] c h k = (k, tt)
append-AllDigits (d ∷ a) c h k = (h.0, append-AllDigits a c h.1 k)

digit_of : (n : ℕ) → n < 10 → is_digit (48 + n) ≡ true
digit_of n h = ground arith

pub to_decimal-AllDigits : (fuel n : ℕ) → AllDigits (to_decimal fuel n)
to_decimal-AllDigits zero n = tt
to_decimal-AllDigits (suc fuel) n = elim (Bool-cases (ltb n 10)) [
  | inl small ↦ rw small (digit_of n (ground (arith, small)), tt)
  | inr large ↦ rw large (
      append-AllDigits (to_decimal fuel (n / 10)) (48 + n % 10) (to_decimal-AllDigits fuel (n / 10))
        (digit_of (n % 10) (omega arith)))
]

-- What follows a number does not belong to it.
abbrev pub NoDigit : List ℕ → Type 0
NoDigit [] = Unit {0}
NoDigit (c ∷ s) = is_digit c ≡ false

abbrev value : ℕ → List ℕ → ℕ
value n [] = n
value n (c ∷ s) = value (n * 10 + (c - 48)) s

digits-value : (n : ℕ) (a s : List ℕ) → AllDigits a → NoDigit s → digits n (a ++ s) ≡ value n a
digits-value n [] [] h k = refl
digits-value n [] (c ∷ s) h k = rw k refl
digits-value n (c ∷ a) s h k = rw h.0 (digits-value (n * 10 + (c - 48)) a s h.1 k)

value-append : (n : ℕ) (a : List ℕ) (c : ℕ) → value n (a ++ (c ∷ [])) ≡ value n a * 10 + (c - 48)
value-append n [] c = refl
value-append n (d ∷ a) c = value-append (n * 10 + (d - 48)) a c

value-to_decimal : (fuel n : ℕ) → n < fuel → value 0 (to_decimal fuel n) ≡ n
value-to_decimal zero n h = absurd (omega (arith, h))
value-to_decimal (suc fuel) n h = elim (Bool-cases (ltb n 10)) [
  | inl small ↦ rw small (omega arith)
  | inr large ↦
      let big : 10 ≤ n = ground (arith, large) in
      let k = value-to_decimal fuel (n / 10) (omega (arith, h, big)) in
      rw large (value-append 0 (to_decimal fuel (n / 10)) (48 + n % 10) ∙ omega (arith, k))
]

-- A number has a digit at least.
abbrev Starts : List ℕ → Type 0
Starts l = (c : ℕ) × (a : List ℕ) × (l ≡ c ∷ a) × (is_digit c ≡ true)

append-Starts : (a : List ℕ) (c : ℕ) → AllDigits a → is_digit c ≡ true → Starts (a ++ (c ∷ []))
append-Starts [] c h k = (c, [], refl, k)
append-Starts (d ∷ a) c h k = (d, a ++ (c ∷ []), refl, h.0)

pub to_decimal-Starts : (fuel n : ℕ) → Starts (to_decimal (suc fuel) n)
to_decimal-Starts fuel n = elim (Bool-cases (ltb n 10)) [
  | inl small ↦ rw small (48 + n, [], refl, digit_of n (ground (arith, small)))
  | inr large ↦ rw large (
      append-Starts (to_decimal fuel (n / 10)) (48 + n % 10) (to_decimal-AllDigits fuel (n / 10))
        (digit_of (n % 10) (omega arith)))
]

unsigned_digits :
    (c : ℕ) (a : List ℕ) → is_digit c ≡ true → unsigned_int (c ∷ a) ≡ some (digits 0 (c ∷ a))
unsigned_digits c a h = rw h refl

unsigned_int-to_decimal :
    (n : ℕ) (s : List ℕ) → NoDigit s → unsigned_int (to_decimal (suc n) n ++ s) ≡ some n
unsigned_int-to_decimal n s k =
    let (c, a, e, d) = to_decimal-Starts n n in
    ap (λ l. unsigned_int (l ++ s)) e
    ∙ unsigned_digits c (a ++ s) d
    ∙ ap (λ l. some (digits 0 (l ++ s))) (sym e)
    ∙ ap some (
        digits-value 0 (to_decimal (suc n) n) s (to_decimal-AllDigits (suc n) n) k
        ∙ value-to_decimal (suc n) n (omega arith))

-- A digit is no blank and no sign.
scan_digits :
    (c : ℕ) (a : List ℕ) → is_digit c ≡ true → scan_int (c ∷ a) ≡ signed (unsigned_int (c ∷ a)) pos
scan_digits c a h =
    let no_space : is_space c ≡ false = ground (arith, h) in
    let no_minus : (c == 45) ≡ false = ground (arith, h) in
    let no_plus : (c == 43) ≡ false = ground (arith, h) in rw (no_space, no_minus, no_plus) refl

pub scan_int-print_int : (v : ℤ) (s : List ℕ) → NoDigit s → scan_int (print_int v ++ s) ≡ some v
scan_int-print_int (pos n) s k =
    let (c, a, e, d) = to_decimal-Starts n n in
    ap (λ l. scan_int (l ++ s)) e
    ∙ scan_digits c (a ++ s) d
    ∙ ap (λ l. signed (unsigned_int (l ++ s)) pos) (sym e)
    ∙ ap (λ r. signed r pos) (unsigned_int-to_decimal n s k)
scan_int-print_int (negsuc n) s k =
    ap (λ r. signed r negative) (unsigned_int-to_decimal (suc n) s k)
