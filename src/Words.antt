-- ===== src/Words.antt =====
-- Little-endian 32-bit words in byte memory.
use native.Mathlib.Nat.{add_assoc}
use gummy.Prelude.{
  ℕ, zero, suc, ◌+◌, ◌*◌, ◌/◌, ◌%◌, ◌^◌, ◌≤◌, ◌<◌, ◌≡◌, refl, arith, false, List, [], ◌∷◌, ap, ◌∙◌,
}
use gummy.Queue.{Ptr, update}
use gummy.Memory.{Bytes, bytes_at}
use gummy.Memory.Copy.{within}

unfoldable pub load32 : Bytes → Ptr → ℕ
load32 m p = m p + 2 ^ 8 * m (p + 1) + 2 ^ 16 * m (p + 2) + 2 ^ 24 * m (p + 3)

unfoldable pub store32 : Bytes → Ptr → ℕ → Bytes
store32 m p v =
    update
      (update (update (update m p (v % 2 ^ 8)) (p + 1) (v / 2 ^ 8 % 2 ^ 8)) (p + 2)
        (v / 2 ^ 16 % 2 ^ 8))
      (p + 3) (v / 2 ^ 24 % 2 ^ 8)

-- A word that is stored is read back.
pub load32-store32 : (m : Bytes) (p v : ℕ) → v < 2 ^ 32 → load32 (store32 m p v) p ≡ v
unfolding load32 store32
load32-store32 m p v l = ground arith

pub store32-outside : (m : Bytes) (p v a : ℕ) → within p 4 a ≡ false → store32 m p v a ≡ m a
unfolding store32
store32-outside m p v a o = ground arith

-- The element at an index of a list of bytes.
abbrev pub byte_of : List ℕ → ℕ → ℕ
byte_of [] i = 0
byte_of (x ∷ xs) zero = x
byte_of (x ∷ xs) (suc i) = byte_of xs i

pub byte_of-bytes_at : (m : Bytes) (p n i : ℕ) → i < n → byte_of (bytes_at m p n) i ≡ m (p + i)
byte_of-bytes_at m p zero i l = absurd (omega arith)
byte_of-bytes_at m p (suc n) zero l = ap m (omega arith)
byte_of-bytes_at m p (suc n) (suc i) l =
    byte_of-bytes_at m (p + 1) n i (omega arith) ∙ ap m (omega arith)

unfoldable pub word_of : List ℕ → ℕ → ℕ
word_of e i =
    byte_of e i
    + 2 ^ 8 * byte_of e (i + 1)
    + 2 ^ 16 * byte_of e (i + 2)
    + 2 ^ 24 * byte_of e (i + 3)

pub word_of-bytes_at :
    (m : Bytes) (p n i : ℕ) → i + 3 < n → word_of (bytes_at m p n) i ≡ load32 m (p + i)
unfolding load32 word_of
word_of-bytes_at m p n i l = ground (
  arith,
  byte_of-bytes_at m p n i,
  byte_of-bytes_at m p n (i + 1),
  byte_of-bytes_at m p n (i + 2),
  byte_of-bytes_at m p n (i + 3),
  add_assoc p i 1,
  add_assoc p i 2,
  add_assoc p i 3,
)

-- `n` elements of a list of bytes from `i` on.
abbrev pub slice : List ℕ → ℕ → ℕ → List ℕ
slice e i zero = []
slice e i (suc n) = byte_of e i ∷ slice e (i + 1) n

pub slice-bytes_at :
    (m : Bytes) (p n i k : ℕ) → i + k ≤ n → slice (bytes_at m p n) i k ≡ bytes_at m (p + i) k
slice-bytes_at m p n i zero l = refl
slice-bytes_at m p n i (suc k) l =
    ground (arith, byte_of-bytes_at m p n i, slice-bytes_at m p n (i + 1) k, add_assoc p i 1)
