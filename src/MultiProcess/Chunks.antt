-- ===== src/MultiProcess/Chunks.antt =====
-- The chunks of week6/multi_process.c and what the cipher makes of them.
use cs5600_computer_system.Common.{
  ℕ, zero, suc, ◌≡◌, refl, sym, ap, ◌∙◌, arith, true, Option, none, some, List, [], ◌∷◌, ◌++◌, map,
  length, take, drop, append_assoc, take-append-drop,
}
use cs5600_computer_system.Message.Strings.{NulFree, append-NulFree}
use cs5600_computer_system.StringQueue.{Ptr, Queue}
use cs5600_computer_system.StringQueue.Shape.{IsValid, dequeue-IsValid}
use cs5600_computer_system.Cipher.Output.{three_on}
use cs5600_computer_system.MultiProcess.{Os, Chunk, print_lines, write_chunk}
use cs5600_computer_system.MultiProcess.Load.{AllShort}

pub write_chunk-IsValid :
    (k : ℕ) {q : Queue} {base : Ptr} {xs : List (List ℕ)}
    → IsValid q base xs
    → (t : Queue) × (base' : Ptr) × (write_chunk k q
        ≡ some (print_lines (take k xs), length (take k xs), t))
      × IsValid t base' (drop k xs)
unfolding write_chunk
write_chunk-IsValid zero {q = q} {base} v = (q, base, refl, v)
write_chunk-IsValid (suc k) {q = q} {base} {xs = []} v = (q, base, ground (arith, v), v)
write_chunk-IsValid (suc k) {q = q} {base} {xs = x ∷ xs} v =
    let (q', e, v') = dequeue-IsValid v in
    let (t, base', e', w) = write_chunk-IsValid k v' in (t, base', ground (arith, v, e, e'), w)

-- All chunk files, one after another.
abbrev pub files : List Chunk → List ℕ
files [] = []
files (c ∷ chunks) = c.file ++ files chunks

-- All that the children print, one after another; `none` if one of them does not run.
abbrev pub outputs : List Chunk → Option (List ℕ)
outputs [] = some []
outputs (c ∷ chunks) =
    let rest = outputs chunks in
    elim c.output [
      | none ↦ none
      | some out ↦ elim rest [ none ↦ none | some more ↦ some (out ++ more) ]
    ]

-- Every chunk file opens, and every `fork` works and reaches the cipher.
pub record Works (os : Os) : Type 0 where
  pub opens : (i : ℕ) → os.opens i ≡ true
  pub forks : (i : ℕ) → os.forks i ≡ true
  pub runs : (i : ℕ) → os.runs i ≡ true

print_lines-append :
    (xs ys : List (List ℕ)) → print_lines (xs ++ ys) ≡ print_lines xs ++ print_lines ys
print_lines-append [] ys = refl
print_lines-append (x ∷ xs) ys =
    ap (λ r. x ++ (10 ∷ r)) (print_lines-append xs ys)
    ∙ sym (append_assoc x (10 ∷ print_lines xs) (print_lines ys))

-- What is left after a chunk has been written.
pub take-drop-print_lines :
    (k : ℕ) (xs : List (List ℕ))
    → print_lines (take k xs) ++ print_lines (drop k xs) ≡ print_lines xs
take-drop-print_lines k xs =
    sym (print_lines-append (take k xs) (drop k xs)) ∙ ap print_lines (take-append-drop k xs)

pub drop-AllShort : (k : ℕ) (xs : List (List ℕ)) → AllShort xs → AllShort (drop k xs)
drop-AllShort zero xs p = p
drop-AllShort (suc k) [] p = p
drop-AllShort (suc k) (x ∷ xs) p = drop-AllShort k xs p.1

pub take-AllShort : (k : ℕ) (xs : List (List ℕ)) → AllShort xs → AllShort (take k xs)
take-AllShort zero xs p = tt
take-AllShort (suc k) [] p = tt
take-AllShort (suc k) (x ∷ xs) p = (p.0, take-AllShort k xs p.1)

pub print_lines-NulFree : (xs : List (List ℕ)) → AllShort xs → NulFree (print_lines xs)
print_lines-NulFree [] p = tt
print_lines-NulFree (x ∷ xs) p =
    append-NulFree x (10 ∷ print_lines xs) p.0.0 (omega arith, print_lines-NulFree xs p.1)

pub map-append : (a b : List ℕ) → map three_on (a ++ b) ≡ map three_on a ++ map three_on b
map-append [] b = refl
map-append (c ∷ a) b = ap (λ r. three_on c ∷ r) (map-append a b)
