-- ===== src/Memory/Copy.antt =====
-- What `memcpy` and `memset` leave in memory.
use native.Mathlib.Nat.{add-zero, add_assoc}
use gummy.Prelude.{
  ℕ, zero, suc, ◌+◌, ◌-◌, ◌%◌, ◌≤◌, ◌<◌, ◌≡◌, refl, ◌≢◌, ◌⊎◌, Bool, ◌&&◌, arith, ltb, leb,
  if◌then◌else◌,
}
use gummy.Queue.{Ptr, null, update}
use gummy.Memory.{Bytes, copy_loop, memcpy, fill_loop, memset, bytes_at}

-- `a` is one of the `n` addresses from `p` on.
abbrev pub within : Ptr → ℕ → Ptr → Bool
within p n a = leb p a && ltb a (p + n)

copy_loop-reads :
    (m : Bytes) (to from k i a : ℕ)
    → ((to ≤ from) ⊎ (from + (i + k) ≤ to))
    → copy_loop m to from k i a ≡ (if within (to + i) k a then m (from + (a - to)) else m a)
unfolding copy_loop
copy_loop-reads m to from zero i a apart = ground arith
copy_loop-reads m to from (suc k) i a apart =
    ground (arith, copy_loop-reads (update m (to + i) (m (from + i))) to from k (i + 1) a)

fill_loop-reads :
    (m : Bytes) (p b k i a : ℕ) → fill_loop m p b k i a ≡ (if within (p + i) k a then b else m a)
unfolding fill_loop
fill_loop-reads m p b zero i a = ground arith
fill_loop-reads m p b (suc k) i a =
    ground (arith, fill_loop-reads (update m (p + i) b) p b k (i + 1) a)

-- `memcpy` between regions other than NULL, where the target does not start inside the source,
-- leaves the bytes of the source in the target and every other byte as it was.
pub memcpy-reads :
    (m : Bytes) (dst src n a : ℕ)
    → dst ≢ null
    → src ≢ null
    → ((dst ≤ src) ⊎ (src + n ≤ dst))
    → memcpy m dst src n a ≡ (if within dst n a then m (src + (a - dst)) else m a)
unfolding memcpy
memcpy-reads m dst src n a d s apart = ground (arith, copy_loop-reads m dst src n 0 a)

-- `memset` on a region other than NULL sets its bytes and no other.
pub memset-reads :
    (m : Bytes) (p c n a : ℕ)
    → p ≢ null
    → memset m p c n a ≡ (if within p n a then c % 256 else m a)
unfolding memset
memset-reads m p c n a d = ground (arith, fill_loop-reads m p (c % 256) n 0 a)

-- Two regions with the same bytes.
pub bytes_at-eq :
    (m m' : Bytes) (p p' n : ℕ)
    → ((j : ℕ) → j < n → m (p + j) ≡ m' (p' + j))
    → bytes_at m p n ≡ bytes_at m' p' n
bytes_at-eq m m' p p' zero h = refl
bytes_at-eq m m' p p' (suc n) h = ground (
  arith,
  h 0,
  add-zero p,
  add-zero p',
  bytes_at-eq m m' (p + 1) (p' + 1) n
      (λ j l. rw (add_assoc p 1 j, add_assoc p' 1 j) (h (1 + j) (omega arith))),
)
