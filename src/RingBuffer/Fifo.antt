-- ===== src/RingBuffer/Fifo.antt =====
-- A first-in first-out list of at most `cap` elements, oldest first: what lib/src/ring_buffer.c
-- promises. The numbers are the statuses of the C functions.
use gummy.Prelude.{ℕ, List, [], ◌∷◌, ◌++◌, leb, if◌then◌else◌, length, Option, none, some}

module _ {A : Type 0} where
  abbrev pub fifo_push : ℕ → List A → A → ℕ × List A
  fifo_push cap xs x = if leb cap (length xs) then (1, xs) else (0, xs ++ x ∷ [])

  abbrev pub fifo_pop : List A → ℕ × Option A × List A
  fifo_pop [] = (1, none, [])
  fifo_pop (x ∷ xs) = (0, some x, xs)
