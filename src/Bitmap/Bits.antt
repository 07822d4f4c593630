-- ===== src/Bitmap/Bits.antt =====
-- Setting, clearing and testing a bit.
use gummy.Prelude.{
  ℕ, zero, suc, ◌+◌, ◌-◌, ◌*◌, ◌/◌, ◌%◌, ◌<◌, ◌≡◌, refl, ◌≢◌, Bool, true, false, not, ◌||◌, ◌&&◌,
  bit_and, bit_or, arith, if◌then◌else◌, ◌==◌, ltb,
}
use gummy.Queue.{Ptr, null}
use gummy.Memory.{Bytes}
use gummy.Bitmap.{mask, bitmap_set_bit, bitmap_test_bit, bitmap_clear_bit}

-- Whether a test passes on the numbers under a limit.
unfoldable pub passes : (ℕ → Bool) → ℕ → Bool
passes test zero = true
passes test (suc limit) = if test limit then passes test limit else false

pub passes_at :
    (test : ℕ → Bool) (limit i : ℕ) → i < limit → passes test limit ≡ true → test i ≡ true
unfolding passes
passes_at test (suc limit) i l e = ground (arith, passes_at test limit i)
passes_at test zero i l e = absurd (omega arith)

-- The bit of a byte is set.
unfoldable pub test : ℕ → ℕ → Bool
test b k = not (bit_and b (mask k) == 0)

abbrev same : Bool → Bool → Bool
same true b = b
same false b = not b

same→eq : (a b : Bool) → same a b ≡ true → a ≡ b
same→eq true b h = ground arith
same→eq false true h = ground arith
same→eq false false h = refl

-- The facts about a byte `b`, a bit `i` that is written and a bit `j` that is read.
byte_fact : ℕ → ℕ → ℕ → Bool
byte_fact b i j =
    same (test (bit_or b (mask i)) j) (i == j || test b j)
    && same (test (bit_and b (255 - mask i)) j) (not (i == j) && test b j)
    && ltb (bit_or b (mask i)) 256
    && ltb (bit_and b (255 - mask i)) 256

byte_table : passes (λ b. passes (λ i. passes (byte_fact b i) 8) 8) 256 ≡ true
unfolding passes byte_fact test
byte_table = refl

byte_lem : (b i j : ℕ) → b < 256 → i < 8 → j < 8 → byte_fact b i j ≡ true
byte_lem b i j x y z = passes_at _ 8 j z (passes_at _ 8 i y (passes_at _ 256 b x byte_table))

pub test_or :
    (b i j : ℕ) → b < 256 → i < 8 → j < 8 → test (bit_or b (mask i)) j ≡ (i == j || test b j)
unfolding byte_fact
test_or b i j x y z = same→eq _ _ (ground (arith, byte_lem b i j x y z))

pub test_and :
    (b i j : ℕ)
    → b < 256
    → i < 8
    → j < 8
    → test (bit_and b (255 - mask i)) j ≡ (not (i == j) && test b j)
unfolding byte_fact
test_and b i j x y z = same→eq _ _ (ground (arith, byte_lem b i j x y z))

pub stays_byte :
    (b i : ℕ) → b < 256 → i < 8 → (bit_or b (mask i) < 256) × (bit_and b (255 - mask i) < 256)
unfolding byte_fact
stays_byte b i x y = ground (arith, byte_lem b i 0 x y (omega arith))

-- Every byte is below 256.
abbrev pub AreBytes : Bytes → Type 0
AreBytes m = (a : Ptr) → m a < 256

module _ (m : Bytes) (bmp i : ℕ) (real : bmp ≢ null) (bytes : AreBytes m) where
  -- Setting a bit sets that bit and no other.
  pub test-set :
      (j : ℕ) → bitmap_test_bit (bitmap_set_bit m bmp i) bmp j ≡ (i == j || bitmap_test_bit m bmp j)
  unfolding bitmap_test_bit bitmap_set_bit test
  test-set j = ground (arith, bytes (bmp + i / 8), test_or (m (bmp + i / 8)) (i % 8) (j % 8))

  -- Clearing a bit clears that bit and no other.
  pub test-clear :
      (j : ℕ)
      → bitmap_test_bit (bitmap_clear_bit m bmp i) bmp j ≡ (not (i == j) && bitmap_test_bit m bmp j)
  unfolding bitmap_test_bit bitmap_clear_bit test
  test-clear j = ground (arith, bytes (bmp + i / 8), test_and (m (bmp + i / 8)) (i % 8) (j % 8))

  pub set-AreBytes : AreBytes (bitmap_set_bit m bmp i)
  unfolding bitmap_set_bit
  set-AreBytes a =
      ground (arith, bytes a, bytes (bmp + i / 8), stays_byte (m (bmp + i / 8)) (i % 8))

  pub clear-AreBytes : AreBytes (bitmap_clear_bit m bmp i)
  unfolding bitmap_clear_bit
  clear-AreBytes a =
      ground (arith, bytes a, bytes (bmp + i / 8), stays_byte (m (bmp + i / 8)) (i % 8))

full_table : passes (test 255) 8 ≡ true
unfolding passes test
full_table = refl

pub test_255 : (j : ℕ) → j < 8 → test 255 j ≡ true
test_255 j l = passes_at _ 8 j l full_table

-- The bits of a byte 0xff are set.
pub test_full :
    (m : Bytes) (bmp i j : ℕ)
    → bmp ≢ null
    → m (bmp + i) ≡ 255
    → j < 8
    → bitmap_test_bit m bmp (i * 8 + j) ≡ true
unfolding bitmap_test_bit test
test_full m bmp i j real e l =
    let a : (i * 8 + j) / 8 ≡ i = omega arith in
    let b : (i * 8 + j) % 8 ≡ j = omega arith in ground (arith, a, b, passes_at _ 8 j l full_table)
