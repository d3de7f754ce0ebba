-- ===== src/Common/Lines.antt =====
-- The loop `while (fgets(line, sizeof(line), fp))` over what is left of a file.
use Prim.Native.Nat.{ℕ, ◌+◌, ◌≤◌}
use mathlib.Core.Path.{◌≡◌, refl}
use mathlib.Core.Bool.{false, ◌||◌}
use mathlib.Core.List.{List, [], ◌∷◌, ◌++◌, append_assoc}
use native.Mathlib.Omega.{arith}
use cs5600_computer_system.Common.Tests.{leb, ◌==◌, if◌then◌else◌}
use cs5600_computer_system.Common.Lists.{length, length-append}

-- What the calls of `fgets` put into a buffer of `room + 1` bytes, `line` being what the present call
-- has read: a call stops after a newline, or when it has read `room` bytes.
unfoldable pub fgets_lines : ℕ → List ℕ → List ℕ → List (List ℕ)
fgets_lines room line [] = if length line == 0 then [] else line ∷ []
fgets_lines room line (c ∷ s) =
    let line' = line ++ (c ∷ []) in
    let stop = line' ∷ fgets_lines room [] s in
    let on = fgets_lines room line' s in if c == 10 || leb room (length line') then stop else on

abbrev pub concat : List (List ℕ) → List ℕ
concat [] = []
concat (l ∷ ls) = l ++ concat ls

abbrev pub NoNewline : List ℕ → Type 0
NoNewline [] = Unit {0}
NoNewline (c ∷ w) = ((c == 10) ≡ false) × NoNewline w

-- The lines are the file.
pub concat-fgets_lines : (room : ℕ) (line s : List ℕ) → concat (fgets_lines room line s) ≡ line ++ s
unfolding fgets_lines
concat-fgets_lines room [] [] = refl
concat-fgets_lines room (c ∷ line) [] = ground arith
concat-fgets_lines room line (c ∷ s) =
    let line' = line ++ (c ∷ []) in
    ground (
      arith,
      concat-fgets_lines room [] s,
      concat-fgets_lines room line' s,
      append_assoc line (c ∷ []) s,
    )

-- A whole line, its newline included, that fits the buffer comes back from one call.
pub fgets_lines-line :
    (room : ℕ) (line w s : List ℕ)
    → NoNewline w
    → length line + length w + 1 ≤ room
    → fgets_lines room line (w ++ (10 ∷ s)) ≡ (line ++ (w ++ (10 ∷ []))) ∷ fgets_lines room [] s
unfolding fgets_lines
fgets_lines-line room line [] s p h = ground arith
fgets_lines-line room line (c ∷ w) s p h = ground (
  arith,
  p,
  fgets_lines-line room (line ++ (c ∷ [])) w s p.1,
  length-append line (c ∷ []),
  append_assoc line (c ∷ []) (w ++ (10 ∷ [])),
)
