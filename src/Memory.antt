-- ===== src/Memory.antt =====
-- Byte memory, and the two functions of lib/src/string.c that write it. An address is a number and
-- pointer arithmetic is addition: an address beyond 2 ^ 32 is outside every object, and C gives it
-- no meaning.
pub mod Copy
use gummy.Prelude.{ℕ, zero, suc, ◌+◌, ◌%◌, ◌||◌, List, [], ◌∷◌, ◌==◌, if◌then◌else◌}
use gummy.Queue.{Ptr, null, update}

abbrev pub Bytes : Type 0
Bytes = Ptr → ℕ

-- The loop of `memcpy`, on the rounds left.
unfoldable pub copy_loop : Bytes → Ptr → Ptr → ℕ → ℕ → Bytes
copy_loop m to from zero i = m
copy_loop m to from (suc k) i = copy_loop (update m (to + i) (m (from + i))) to from k (i + 1)

unfoldable pub memcpy : Bytes → Ptr → Ptr → ℕ → Bytes
unfolding copy_loop
memcpy m dst src n = if dst == null || src == null then m else copy_loop m dst src n 0

-- The loop of `memset`, on the rounds left.
unfoldable pub fill_loop : Bytes → Ptr → ℕ → ℕ → ℕ → Bytes
fill_loop m p b zero i = m
fill_loop m p b (suc k) i = fill_loop (update m (p + i) b) p b k (i + 1)

-- `c` is the bit pattern of the `int`.
unfoldable pub memset : Bytes → Ptr → ℕ → ℕ → Bytes
unfolding fill_loop
memset m dst c n = if dst == null then m else fill_loop m dst (c % 256) n 0

-- The `n` bytes from `p` on.
abbrev pub bytes_at : Bytes → Ptr → ℕ → List ℕ
bytes_at m p zero = []
bytes_at m p (suc n) = m p ∷ bytes_at m (p + 1) n
