-- ===== src/Bitmap/Find.antt =====
-- `bitmap_find_free_bit` against the search for the lowest free bit.
use mathlib.Core.Path.{ap₂}
use native.Mathlib.Nat.{add-zero, add_assoc}
use gummy.Prelude.{
  ℕ, zero, suc, ◌+◌, ◌-◌, ◌*◌, ◌/◌, ◌%◌, ◌^◌, ◌≤◌, ◌<◌, ◌≡◌, refl, ◌≢◌, Bool, true, arith, ◌==◌,
  if◌then◌else◌, ap, ◌∙◌, sym, ==_iff, Bool-cases, inl, inr,
}
use gummy.Queue.{null}
use gummy.Memory.{Bytes}
use gummy.Bitmap.{align_up, bitmap_test_bit, scan_bits, scan_bytes, returned, bitmap_find_free_bit}
use gummy.Bitmap.Bits.{test_full}

-- The lowest bit from `i` on, out of `n`, that is not used; 0 if there is none.
unfoldable pub first_free : (ℕ → Bool) → ℕ → ℕ → ℕ
first_free used zero i = 0
first_free used (suc n) i = if used i then first_free used n (i + 1) else i

first_free_step :
    (used : ℕ → Bool) (n i : ℕ)
    → 0 < n
    → first_free used n i ≡ (if used i then first_free used (n - 1) (i + 1) else i)
unfolding first_free
first_free_step used zero i l = ground arith
first_free_step used (suc n) i l =
    ap (λ k. if used i then first_free used k (i + 1) else i) (omega arith)

first_free_none : (used : ℕ → Bool) (n i : ℕ) → n ≡ 0 → first_free used n i ≡ 0
unfolding first_free
first_free_none used zero i e = refl
first_free_none used (suc n) i e = absurd (omega arith)

-- A used bit is passed over.
skip :
    (used : ℕ → Bool) (n i : ℕ)
    → used i ≡ true
    → first_free used n i ≡ first_free used (n - 1) (i + 1)
unfolding first_free
skip used zero i u = refl
skip used (suc n) i u = rw u (ap (λ k. first_free used k (i + 1)) (omega arith))

skip_many :
    (used : ℕ → Bool) (k n i : ℕ)
    → ((j : ℕ) → j < k → used (i + j) ≡ true)
    → first_free used n i ≡ first_free used (n - k) (i + k)
skip_many used zero n i u = ground arith
skip_many used (suc k) n i u =
    skip used n i (rw (← add-zero i) (u 0 (omega arith)))
    ∙ skip_many used k (n - 1) (i + 1) (λ j l. rw (add_assoc i 1 j) (u (1 + j) (omega arith)))
    ∙ ap₂ (first_free used) (omega arith) (omega arith)

module _ (m : Bytes) (bmp bits : ℕ) (real : bmp ≢ null) where
  abbrev used : ℕ → Bool
  used j = bitmap_test_bit m bmp j

  -- From bit `b` of byte `i` on, where `k` bits of the byte are left.
  scan_bits_lem :
      (i k b : ℕ)
      → b + k ≡ 8
      → returned (scan_bits m bmp bits i k b) (first_free used (bits - (i + 1) * 8) ((i + 1) * 8))
        ≡ first_free used (bits - (i * 8 + b)) (i * 8 + b)
  unfolding scan_bits bitmap_test_bit
  scan_bits_lem i zero b e = let x : (i + 1) * 8 ≡ i * 8 + b = omega arith in rw x refl
  scan_bits_lem i (suc k) b e =
      let x : (i * 8 + b) / 8 ≡ i = omega arith in
      let y : (i * 8 + b) % 8 ≡ b = omega arith in
      ground (
        arith,
        x,
        y,
        scan_bits_lem i k (b + 1),
        first_free_step used (bits - (i * 8 + b)) (i * 8 + b),
        first_free_none used (bits - (i * 8 + b)) (i * 8 + b),
      )

  -- From byte `i` on, where `k` bytes are left.
  scan_bytes_lem :
      (k i : ℕ)
      → bits ≤ (i + k) * 8
      → scan_bytes m bmp bits k i ≡ first_free used (bits - i * 8) (i * 8)
  unfolding scan_bytes
  scan_bytes_lem zero i l = ground (arith, first_free_none used (bits - i * 8) (i * 8))
  scan_bytes_lem (suc k) i l = elim (Bool-cases (m (bmp + i) == 0xff)) [
    | inl full ↦
        let eight : m (bmp + i) ≡ 255 = (==_iff _ _).0 full in
        rw full (
          scan_bytes_lem k (i + 1) (omega arith)
          ∙ sym (
              skip_many used 8 (bits - i * 8) (i * 8) (λ j h. test_full m bmp i j real eight h)
              ∙ ap₂ (first_free used) (omega arith) (omega arith)))
    | inr room ↦ rw room (
        ap (returned (scan_bits m bmp bits i 8 0)) (scan_bytes_lem k (i + 1) (omega arith))
        ∙ scan_bits_lem i 8 0 refl
        ∙ ap₂ (first_free used) (omega arith) (omega arith))
  ]

-- For fewer than 2 ^ 64 - 7 bits, `bitmap_find_free_bit` returns the lowest free bit, and 0 if
-- every bit is used.
pub bitmap_find_free_bit-first_free :
    (m : Bytes) (bmp bits : ℕ)
    → bmp ≢ null
    → bits + 7 < 2 ^ 64
    → bitmap_find_free_bit m bmp bits ≡ first_free (bitmap_test_bit m bmp) bits 0
unfolding bitmap_find_free_bit
bitmap_find_free_bit-first_free m bmp bits real small = ground (
  arith,
  scan_bytes_lem m bmp bits real (align_up 64 bits 8 / 8) 0,
  first_free_none (bitmap_test_bit m bmp) bits 0,
)
