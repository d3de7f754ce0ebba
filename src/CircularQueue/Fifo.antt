-- ===== src/CircularQueue/Fifo.antt =====
-- What week7/queuep.c promises: a first-in first-out list that never holds more than its capacity.
use cs5600_computer_system.Common.{ℕ, List, [], ◌∷◌, ◌++◌, if◌then◌else◌, ltb, length}
use cs5600_computer_system.Common.Int.{ℤ, negsuc}

-- The calls of a client.
pub data Call : Type 0 where
  put : ℤ → Call
  get : Call

unfoldable pub enter : ℕ → List ℤ → ℤ → List ℤ
enter capacity xs x = if ltb (length xs) capacity then xs ++ (x ∷ []) else xs

-- An empty list answers -1.
unfoldable pub leave : List ℤ → ℤ × List ℤ
leave [] = (negsuc 0, [])
leave (x ∷ xs) = (x, xs)

-- What the calls of `get` answer, in order.
unfoldable pub answers : ℕ → List ℤ → List Call → List ℤ
answers capacity xs [] = []
answers capacity xs (put x ∷ calls) = answers capacity (enter capacity xs x) calls
answers capacity xs (get ∷ calls) = (leave xs).0 ∷ answers capacity (leave xs).1 calls
