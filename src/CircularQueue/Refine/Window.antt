-- ===== src/CircularQueue/Refine/Window.antt =====
-- The stretch of a circular array from an index on.
use cs5600_computer_system.Common.{
  ℕ, zero, suc, ◌+◌, ◌-◌, ◌%◌, ◌<◌, ◌≡◌, ◌≢◌, refl, sym, subst, ap, ap₂, ◌∙◌, arith, List, [], ◌∷◌,
  ◌++◌, length, get_or, set, get_or-set_self, get_or-set_ne, dec_lt,
}
use cs5600_computer_system.Common.Int.{ℤ, negsuc}
use native.Mathlib.Nat.{mod-lt, mod-add-mod, mod-eq_of_lt, mod-eq-sub-mod, mod-mod, add-zero}
use native.Mathlib.Numerals.{add-one}

module _ (cells : List ℤ) (capacity : ℕ) where
  -- `n` cells from `h` on; only the cell that is read is brought back into the array.
  abbrev pub window : ℕ → ℕ → List ℤ
  window h zero = []
  window h (suc n) = get_or cells (h % capacity) (negsuc 0) ∷ window (h + 1) n

  pub length-window : (from n : ℕ) → length (window from n) ≡ n
  length-window from zero = refl
  length-window from (suc n) = omega (arith, length-window (from + 1) n)

  -- The start may be brought back into the array beforehand.
  window-mod : (n h k : ℕ) → h % capacity ≡ k % capacity → window h n ≡ window k n
  window-mod zero h k e = refl
  window-mod (suc n) h k e = ap₂ ◌∷◌ (rw e) (window-mod n (h + 1) (k + 1) next)
    where
      next : (h + 1) % capacity ≡ (k + 1) % capacity
      next = rw (← mod-add-mod h capacity 1, e) (mod-add-mod k capacity 1)

  pub window_shrinks :
      (n h : ℕ)
      → 0 < n
      → h < capacity
      → window h n ≡ get_or cells h (negsuc 0) ∷ window ((h + 1) % capacity) (n - 1)
  window_shrinks zero h p lt = absurd (omega arith)
  window_shrinks (suc n) h p lt = ap₂ ◌∷◌ (rw (mod-eq_of_lt lt)) (
      window-mod n (h + 1) ((h + 1) % capacity) (sym (mod-mod (h + 1) capacity))
      ∙ ap (window ((h + 1) % capacity)) (omega arith))

-- Two indices less than a round apart are different cells.
cells_apart : (h d c : ℕ) → 0 < d → d < c → (h + d) % c ≢ h % c
cells_apart h d c p q = rw (← mod-add-mod h c d) (elim (dec_lt (h % c + d) c) [
  | yes below ↦ omega (arith, mod-eq_of_lt below)
  | no over ↦ omega (
    arith,
    mod-lt h {m = c} (omega arith),
    mod-eq-sub-mod {n = h % c + d} {m = c} (omega arith),
    mod-eq_of_lt {n = h % c + d - c} {m = c} (omega (arith, mod-lt h {m = c} (omega arith))),
  )
])

-- Writing the cell just past a window appends to the window.
window-set :
    (cells : List ℤ) (capacity : ℕ) (x : ℤ) (n h : ℕ)
    → length cells ≡ capacity
    → n < capacity
    → window (set cells ((h + n) % capacity) x) capacity h (suc n)
      ≡ window cells capacity h n ++ (x ∷ [])
window-set cells capacity x zero h e lt =
    rw (add-zero h, get_or-set_self cells (h % capacity) x (negsuc 0) inside)
  where
    inside : h % capacity < length cells
    inside = omega (arith, mod-lt h {m = capacity} lt)
window-set cells capacity x (suc n) h e lt =
    ap₂ ◌∷◌
      (get_or-set_ne cells ((h + suc n) % capacity) (h % capacity) x (negsuc 0)
        (cells_apart h (suc n) capacity (omega arith) lt))
      (subst (λ m. window (set cells (m % capacity) x) capacity (h + 1) (suc n) ≡ old) regroup
        (window-set cells capacity x n (h + 1) e (omega arith)))
  where
    old : List ℤ
    old = window cells capacity (h + 1) n ++ (x ∷ [])

    regroup : h + 1 + n ≡ h + suc n
    regroup = omega arith

pub window_grows :
    (cells : List ℤ) (capacity : ℕ) (x : ℤ) (n h i : ℕ)
    → length cells ≡ capacity
    → n < capacity
    → i ≡ (h + n) % capacity
    → window (set cells i x) capacity h (n + 1) ≡ window cells capacity h n ++ (x ∷ [])
window_grows cells capacity x n h i e lt at =
    rw (at, add-one n) (window-set cells capacity x n h e lt)
