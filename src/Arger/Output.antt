-- ===== src/Arger/Output.antt =====
-- What 01-28/arger.c prints.
use cs5600_computer_system.Common.{
  ℕ, ◌+◌, ◌-◌, ◌<◌, ◌≡◌, refl, sym, ap, ◌∙◌, arith, none, some, List, [], ◌∷◌, ◌++◌, if◌then◌else◌,
  ltb, length, take, map, length-append, append_assoc, append-nil, dec_lt, Bool, true, false, ◌||◌,
  ◌==◌, ap₂, Bool-cases, eq_of_==, inl, inr,
}
use cs5600_computer_system.Common.Text.{codes, str_eq, upper, lower, is_upper, is_lower}
use cs5600_computer_system.Message.Strings.{NulFree}
use cs5600_computer_system.Arger.{
  my_toupper, my_tolower, capitalize, capital, next_word, my_strlen, my_strcat, collect, trimmed,
  Result, prints, fails, overflows, output_size, apply_flag, finish, main,
}
use cs5600_computer_system.Arger.Strings.{my_strcat_lem, my_strcmp_zero}

-- The arguments with a space after each.
abbrev spaced : List (List ℕ) → List ℕ
spaced [] = []
spaced (a ∷ args) = a ++ (b' ' ∷ spaced args)

-- The arguments with a space between them.
abbrev pub joined : List (List ℕ) → List ℕ
joined [] = []
joined (a ∷ []) = a
joined (a ∷ b ∷ args) = a ++ (b' ' ∷ joined (b ∷ args))

collect_lem :
    (output : List ℕ) (args : List (List ℕ))
    → length output < output_size
    → collect output args ≡ (
        if ltb (length output + length (spaced args)) output_size
        then some (output ++ spaced args)
        else none)
unfolding collect my_strlen
collect_lem output [] h = ground (arith, append-nil output)
collect_lem output (a ∷ args) h =
    let space : List ℕ = b' ' ∷ [] in
    let o' : List ℕ = my_strcat (my_strcat output a) space in
    let e : o' ≡ output ++ (a ++ space) =
      my_strcat_lem (my_strcat output a) space
      ∙ (ap (λ r. r ++ space) (my_strcat_lem output a) ∙ append_assoc output a space) in
    let len : length o' ≡ length output + length a + 1 =
      ap length e ∙ omega (arith, length-append output (a ++ space), length-append a space) in
    let all : o' ++ spaced args ≡ output ++ (a ++ (b' ' ∷ spaced args)) =
      ap (λ r. r ++ spaced args) e
      ∙ (append_assoc output (a ++ space) (spaced args)
          ∙ ap (λ r. output ++ r) (append_assoc a space (spaced args))) in
    let total : length (a ++ (b' ' ∷ spaced args)) ≡ length a + (length (spaced args) + 1) =
      omega (arith, length-append a (b' ' ∷ spaced args)) in
    elim (dec_lt (length o') output_size) [
      | yes fits ↦ ground (arith, len, all, total, collect_lem o' args fits, fits)
      | no beyond ↦ ground (arith, len, total, beyond)
    ]

spaced-joined :
    (a : List ℕ) (args : List (List ℕ)) → spaced (a ∷ args) ≡ joined (a ∷ args) ++ (b' ' ∷ [])
spaced-joined a [] = refl
spaced-joined a (b ∷ args) =
    ap (λ r. a ++ (b' ' ∷ r)) (spaced-joined b args)
    ∙ sym (append_assoc a (b' ' ∷ joined (b ∷ args)) (b' ' ∷ []))

take-length-append : (xs ys : List ℕ) → take (length xs) (xs ++ ys) ≡ xs
take-length-append [] ys = refl
take-length-append (x ∷ xs) ys = ap (λ r. x ∷ r) (take-length-append xs ys)

trimmed-spaced :
    (a : List ℕ) (args : List (List ℕ)) → trimmed (spaced (a ∷ args)) ≡ joined (a ∷ args)
unfolding my_strlen
trimmed-spaced a args =
    let text = joined (a ∷ args) in
    let len : length (text ++ (b' ' ∷ [])) - 1 ≡ length text =
      omega (arith, length-append text (b' ' ∷ [])) in
    ap trimmed (spaced-joined a args)
    ∙ (ap (λ n. take n (text ++ (b' ' ∷ []))) len ∙ take-length-append text (b' ' ∷ []))

-- The words of a text, which single spaces part: the first, and those after it.
abbrev first_word : List ℕ → List ℕ
first_word [] = []
first_word (c ∷ s) = let rest = first_word s in if c == b' ' then [] else c ∷ rest

abbrev later_words : List ℕ → List (List ℕ)
later_words [] = []
later_words (c ∷ s) = let rest = later_words s in if c == b' ' then first_word s ∷ rest else rest

-- A word with its first letter in upper case, and what follows it in lower case.
abbrev capital_word : List ℕ → List ℕ
capital_word [] = []
capital_word (c ∷ w) =
    let rest = capital_word w in
    if is_lower c || is_upper c then upper c ∷ map lower w else c ∷ rest

abbrev pub capitalized : List ℕ → List ℕ
capitalized text = joined (capital_word (first_word text) ∷ map capital_word (later_words text))

abbrev in_word : Bool → List ℕ → List ℕ
in_word true w = capital_word w
in_word false w = map lower w

in_word_nil : (b : Bool) → in_word b [] ≡ []
in_word_nil true = refl
in_word_nil false = refl

joined-cons :
    (c : ℕ) (w : List ℕ) (ws : List (List ℕ)) → joined ((c ∷ w) ∷ ws) ≡ c ∷ joined (w ∷ ws)
joined-cons c w [] = refl
joined-cons c w (v ∷ ws) = refl

-- A step of the loop: at a space, within a word, and before the first letter of one.
step_space : (new_word : Bool) → (capital new_word b' ' ≡ b' ') × (next_word new_word b' ' ≡ true)
unfolding capital next_word my_tolower my_toupper
step_space true = (refl, refl)
step_space false = (refl, refl)

step_inside :
    (c : ℕ) → (c == b' ') ≡ false → (capital false c ≡ lower c) × (next_word false c ≡ false)
unfolding capital next_word my_tolower my_toupper
step_inside c h = (refl, ground (arith, h))

step_letter :
    (c : ℕ)
    → (is_lower c || is_upper c) ≡ true
    → (capital true c ≡ upper c) × (next_word true c ≡ false)
unfolding capital next_word my_tolower my_toupper
step_letter c h = (ground (arith, h), ground (arith, h))

step_other :
    (c : ℕ)
    → (c == b' ') ≡ false
    → (is_lower c || is_upper c) ≡ false
    → (capital true c ≡ c) × (next_word true c ≡ true)
unfolding capital next_word my_tolower my_toupper
step_other c o h = (ground (arith, o, h), ground (arith, o, h))

-- The byte `c`, no space, before a text of which the claim holds.
capitalize_letter :
    (new_word : Bool) (c : ℕ) (s : List ℕ)
    → (c == b' ') ≡ false
    → capitalize true s ≡ joined (capital_word (first_word s) ∷ map capital_word (later_words s))
    → capitalize false s ≡ joined (map lower (first_word s) ∷ map capital_word (later_words s))
    → capital new_word c ∷ capitalize (next_word new_word c) s
      ≡ joined (in_word new_word (c ∷ first_word s) ∷ map capital_word (later_words s))
capitalize_letter false c s other h k =
    let t = step_inside c other in
    let ws = map capital_word (later_words s) in
    rw (t.0, t.1)
      (ap (λ r. lower c ∷ r) k ∙ sym (joined-cons (lower c) (map lower (first_word s)) ws))
capitalize_letter true c s other h k =
    let ws = map capital_word (later_words s) in
    elim (Bool-cases (is_lower c || is_upper c)) [
      | inl letter ↦
          let t = step_letter c letter in
          rw (t.0, t.1)
            (rw letter
              (ap (λ r. upper c ∷ r) k ∙ sym (joined-cons (upper c) (map lower (first_word s)) ws)))
      | inr sign ↦
          let t = step_other c other sign in
          rw (t.0, t.1)
            (rw sign (ap (λ r. c ∷ r) h ∙ sym (joined-cons c (capital_word (first_word s)) ws)))
    ]

capitalize_lem :
    (new_word : Bool) (s : List ℕ)
    → capitalize new_word s
      ≡ joined (in_word new_word (first_word s) ∷ map capital_word (later_words s))
unfolding capitalize
capitalize_lem true [] = refl
capitalize_lem false [] = refl
capitalize_lem new_word (c ∷ s) = elim (Bool-cases (c == b' ')) [
  | inl space ↦
      let e : c ≡ b' ' = eq_of_== c b' ' space in
      let t = step_space new_word in
      rw (e, t.0, t.1, in_word_nil new_word) (ap (λ r. b' ' ∷ r) (capitalize_lem true s))
  | inr other ↦
      rw other
        (capitalize_letter new_word c s other (capitalize_lem true s) (capitalize_lem false s))
]

map-same : (f g : ℕ → ℕ) → ((c : ℕ) → f c ≡ g c) → (s : List ℕ) → map f s ≡ map g s
map-same f g h [] = refl
map-same f g h (c ∷ s) = ap₂ ◌∷◌ (h c) (map-same f g h s)

my_toupper_lem : (c : ℕ) → my_toupper c ≡ upper c
unfolding my_toupper
my_toupper_lem c = refl

my_tolower_lem : (c : ℕ) → my_tolower c ≡ lower c
unfolding my_tolower
my_tolower_lem c = refl

-- What `main` should do with a text.
pub expected : List ℕ → List ℕ → Result
expected flag text =
    if str_eq flag (codes "-u")
    then prints (map upper text)
    else (if str_eq flag (codes "-l")
        then prints (map lower text)
        else (if str_eq flag (codes "-cap") then prints (capitalized text) else fails))

apply_flag-expected :
    (flag text : List ℕ) → NulFree flag → apply_flag flag text ≡ expected flag text
unfolding apply_flag expected
apply_flag-expected flag text p = ground (
  arith,
  my_strcmp_zero flag (codes "-u") p (ground arith),
  my_strcmp_zero flag (codes "-l") p (ground arith),
  my_strcmp_zero flag (codes "-cap") p (ground arith),
  map-same my_toupper upper my_toupper_lem text,
  map-same my_tolower lower my_tolower_lem text,
  capitalize_lem true text,
)

-- For a flag and at least one more argument: the text is the arguments with a space between them.
-- "-u" and "-l" print it in upper and in lower case, "-cap" prints each of the words that single spaces
-- part with its first letter in upper case and what follows it in lower case, and any other flag
-- fails; but a text of 999 bytes or more is written past the end of `output`.
pub main-expected :
    (flag arg : List ℕ) (args : List (List ℕ))
    → NulFree flag
    → main (flag ∷ arg ∷ args) ≡ (
        if ltb (length (joined (arg ∷ args)) + 1) output_size
        then expected flag (joined (arg ∷ args))
        else overflows)
unfolding main
main-expected flag arg args p =
    let text = joined (arg ∷ args) in
    let c = collect_lem [] (arg ∷ args) (omega arith) in
    let len : length (spaced (arg ∷ args)) ≡ length text + 1 =
      ap length (spaced-joined arg args) ∙ omega (arith, length-append text (b' ' ∷ [])) in
    let text_is : apply_flag flag (trimmed (spaced (arg ∷ args))) ≡ expected flag text =
      ap (apply_flag flag) (trimmed-spaced arg args) ∙ apply_flag-expected flag text p in
    elim (dec_lt (length text + 1) output_size) [
      | yes fits ↦
          let found : collect [] (arg ∷ args) ≡ some (spaced (arg ∷ args)) =
            c ∙ ground (arith, len, fits) in
          ap (finish flag) found ∙ (text_is ∙ ground (arith, fits))
      | no beyond ↦
          let lost : collect [] (arg ∷ args) ≡ none = c ∙ ground (arith, len, beyond) in
          ap (finish flag) lost ∙ ground (arith, beyond)
    ]
