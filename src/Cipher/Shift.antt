-- ===== src/Cipher/Shift.antt =====
-- The shift of week6/cipher.c on single bytes.
use cs5600_computer_system.Common.{ℕ, ◌+◌, ◌-◌, ◌%◌, ◌≡◌, arith, if◌then◌else◌, ◌==◌}
use cs5600_computer_system.Common.Text.{is_upper, is_lower}
use cs5600_computer_system.Cipher.{shift, is_alpha}

-- The shift back by 3.
unfoldable pub unshift : ℕ → ℕ
unshift c =
    let base = if is_lower c then b'a' else b'A' in
    if is_alpha c then base + (c - base + 23) % 26 else c

-- Every byte can be read back from its shift, and upper case letters, lower case letters and other
-- bytes go to their own kind.
pub unshift-shift :
    (c : ℕ)
    → (unshift (shift c) ≡ c)
      × (is_upper (shift c) ≡ is_upper c)
      × (is_lower (shift c) ≡ is_lower c)
unfolding shift unshift
unshift-shift c = (ground arith, ground arith, ground arith)

-- Only a NUL becomes a NUL.
pub shift_zero : (c : ℕ) → (shift c == 0) ≡ (c == 0)
unfolding shift
shift_zero c = ground arith
