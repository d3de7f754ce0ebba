-- ===== src/Common/Scan.antt =====
-- `sscanf` with %d, and `atoi`. The number that is read has no bound: C leaves both undefined for one
-- that is no int, which `in_int` tests.
use Prim.Native.Nat.{ℕ, zero, suc, ◌+◌, ◌-◌, ◌*◌}
use mathlib.Core.Bool.{Bool, ◌&&◌, ◌||◌}
use mathlib.Core.Option.{Option, none, some}
use mathlib.Core.List.{List, [], ◌∷◌}
use cs5600_computer_system.Common.Tests.{ltb, leb, ◌==◌, if◌then◌else◌}
use cs5600_computer_system.Common.Int.{ℤ, pos, negsuc}

-- `isspace`, which %d skips.
abbrev pub is_space : ℕ → Bool
is_space c = c == 32 || (leb 9 c && leb c 13)

abbrev pub is_digit : ℕ → Bool
is_digit c = leb 48 c && leb c 57

-- The number whose digits start here, after those that came to `n`.
abbrev pub digits : ℕ → List ℕ → ℕ
digits n [] = n
digits n (c ∷ s) = if is_digit c then digits (n * 10 + (c - 48)) s else n

abbrev pub negative : ℕ → ℤ
negative zero = pos 0
negative (suc n) = negsuc n

-- %d after the blanks: a sign, and one digit at least.
abbrev pub unsigned_int : List ℕ → Option ℕ
unsigned_int [] = none
unsigned_int (c ∷ s) = if is_digit c then some (digits 0 (c ∷ s)) else none

abbrev pub signed : Option ℕ → (ℕ → ℤ) → Option ℤ
signed none f = none
signed (some n) f = some (f n)

abbrev pub signed_int : List ℕ → Option ℤ
signed_int [] = none
signed_int (c ∷ s) =
    if c == 45
    then signed (unsigned_int s) negative
    else (if c == 43 then signed (unsigned_int s) pos else signed (unsigned_int (c ∷ s)) pos)

-- `sscanf(ptr, "%d", &value)`: the value, if it returns 1.
abbrev pub scan_int : List ℕ → Option ℤ
scan_int [] = none
scan_int (c ∷ s) = let rest = scan_int s in if is_space c then rest else signed_int (c ∷ s)

-- `atoi`: 0 where no number starts.
abbrev pub atoi : List ℕ → ℤ
atoi s = elim (scan_int s) [ none ↦ pos 0 | some v ↦ v ]

-- What an int of 32 bits holds.
abbrev pub in_int : ℤ → Bool
in_int (pos n) = ltb n 2147483648
in_int (negsuc n) = ltb n 2147483648
