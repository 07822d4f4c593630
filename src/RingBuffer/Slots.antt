-- ===== src/RingBuffer/Slots.antt =====
-- The slots of a storage: where they lie, and the elements that they hold.
use native.Mathlib.Nat.{add-zero, add_assoc, add_comm}
use native.Mathlib.Numerals.{add-one}
use native.Mathlib.Decide.{dec_lt}
use gummy.Prelude.{
  ℕ, zero, suc, ◌+◌, ◌*◌, ◌≤◌, ◌<◌, ◌≡◌, refl, ◌≢◌, ◌⊎◌, inl, inr, arith, List, [], ◌∷◌, ◌++◌, ap,
  length,
}
use gummy.Queue.{null}
use gummy.Memory.{Bytes, memcpy, bytes_at}
use gummy.Memory.Copy.{memcpy-reads, bytes_at-eq}

-- `f 0`, …, `f (n - 1)`, written from `i` on.
abbrev pub from_to : (ℕ → List ℕ) → ℕ → ℕ → List (List ℕ)
from_to f i zero = []
from_to f i (suc n) = f i ∷ from_to f (i + 1) n

pub length-from_to : (f : ℕ → List ℕ) (i n : ℕ) → length (from_to f i n) ≡ n
length-from_to f i zero = refl
length-from_to f i (suc n) = ap suc (length-from_to f (i + 1) n)

pub from_to-eq :
    (f g : ℕ → List ℕ) (i j n : ℕ)
    → ((k : ℕ) → k < n → f (i + k) ≡ g (j + k))
    → from_to f i n ≡ from_to g j n
from_to-eq f g i j zero h = refl
from_to-eq f g i j (suc n) h = ground (
  arith,
  h 0,
  add-zero i,
  add-zero j,
  from_to-eq f g (i + 1) (j + 1) n
      (λ k l. rw (add_assoc i 1 k, add_assoc j 1 k) (h (1 + k) (omega arith))),
)

pub from_to_last :
    (f : ℕ → List ℕ) (i n : ℕ) → from_to f i (suc n) ≡ from_to f i n ++ f (i + n) ∷ []
from_to_last f i zero = rw add-zero
from_to_last f i (suc n) =
    ap (λ t. f i ∷ t) (rw (from_to_last f (i + 1) n, add_assoc i 1 n, add_comm 1 n, add-one n))

-- Two slots of one storage do not overlap.
pub slots_apart : (i j es : ℕ) → i ≢ j → (i * es + es ≤ j * es) ⊎ (j * es + es ≤ i * es)
slots_apart i j es d = elim (dec_lt i j) [
  | yes p ↦ inl (grind arith)
  | no p ↦ let l : j < i = omega arith in inr (grind arith)
]

pub slot_inside : (i cap es : ℕ) → i < cap → i * es + es ≤ cap * es
slot_inside i cap es l = grind arith

-- A copy leaves the bytes of a region that it does not meet, and puts those of the source.
pub memcpy-elsewhere :
    (m : Bytes) (dst src n p k : ℕ)
    → dst ≢ null
    → src ≢ null
    → ((dst ≤ src) ⊎ (src + n ≤ dst))
    → ((p + k ≤ dst) ⊎ (dst + n ≤ p))
    → bytes_at (memcpy m dst src n) p k ≡ bytes_at m p k
memcpy-elsewhere m dst src n p k d s apart off =
    bytes_at-eq _ m p p k (λ j l. ground (arith, memcpy-reads m dst src n (p + j) d s apart))

pub memcpy-target :
    (m : Bytes) (dst src n : ℕ)
    → dst ≢ null
    → src ≢ null
    → ((dst ≤ src) ⊎ (src + n ≤ dst))
    → bytes_at (memcpy m dst src n) dst n ≡ bytes_at m src n
memcpy-target m dst src n d s apart =
    bytes_at-eq _ m dst src n (λ j l. ground (arith, memcpy-reads m dst src n (dst + j) d s apart))
