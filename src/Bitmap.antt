-- ===== src/Bitmap.antt =====
-- The bitmap of include/bitmap.h: bit `i` is bit `i % 8` of the byte `i / 8` from `bmp` on.
pub mod Bits
pub mod Find
use gummy.Prelude.{
  ℕ, zero, suc, ◌+◌, ◌-◌, ◌*◌, ◌/◌, ◌%◌, ◌^◌, Bool, false, not, ◌||◌, Option, none, some, bit_and,
  bit_or, ◌==◌, leb, if◌then◌else◌,
}
use gummy.Queue.{Ptr, null, update}
use gummy.Memory.{Bytes}

-- `(uint8_t)(1 << bit)`
abbrev pub mask : ℕ → ℕ
mask bit = 2 ^ bit % 256

-- `ALIGN_UP(x, a)` and `ALIGN_DOWN(x, a)` on words of `w` bits. For a power of two `a`, the mask
-- `& ~(a - 1)` rounds down to a multiple of `a`.
abbrev pub align_down : ℕ → ℕ → ℕ
align_down x a = x / a * a

abbrev pub align_up : ℕ → ℕ → ℕ → ℕ
align_up w x a = align_down ((x + (a - 1)) % 2 ^ w) a

unfoldable pub bitmap_set_bit : Bytes → Ptr → ℕ → Bytes
bitmap_set_bit m bmp bit =
    if bmp == null
    then m
    else update m (bmp + bit / 8) (bit_or (m (bmp + bit / 8)) (mask (bit % 8)))

unfoldable pub bitmap_test_bit : Bytes → Ptr → ℕ → Bool
bitmap_test_bit m bmp bit =
    if bmp == null then false else not (bit_and (m (bmp + bit / 8)) (mask (bit % 8)) == 0)

-- `~(uint8_t)(1 << bit)` has the bits of `255 - mask` in its lowest byte.
unfoldable pub bitmap_clear_bit : Bytes → Ptr → ℕ → Bytes
bitmap_clear_bit m bmp bit =
    if bmp == null
    then m
    else update m (bmp + bit / 8) (bit_and (m (bmp + bit / 8)) (255 - mask (bit % 8)))

-- The inner loop of `bitmap_find_free_bit`, on the rounds left: `some` is a `return`.
unfoldable pub scan_bits : Bytes → Ptr → ℕ → ℕ → ℕ → ℕ → Option ℕ
scan_bits m bmp bits i zero bit = none
scan_bits m bmp bits i (suc k) bit =
    let rest = scan_bits m bmp bits i k (bit + 1) in
    if leb bits (i * 8 + bit)
    then some 0
    else if bit_and (m (bmp + i)) (mask bit) == 0
    then some (i * 8 + bit)
    else rest

-- What is returned if the inner loop does not.
abbrev pub returned : Option ℕ → ℕ → ℕ
returned none rest = rest
returned (some r) rest = r

-- The outer loop, on the rounds left, with the final `return 0`.
unfoldable pub scan_bytes : Bytes → Ptr → ℕ → ℕ → ℕ → ℕ
scan_bytes m bmp bits zero i = 0
scan_bytes m bmp bits (suc k) i =
    let rest = scan_bytes m bmp bits k (i + 1) in
    if m (bmp + i) == 0xff then rest else returned (scan_bits m bmp bits i 8 0) rest

unfoldable pub bitmap_find_free_bit : Bytes → Ptr → ℕ → ℕ
bitmap_find_free_bit m bmp bits =
    if bmp == null || bits == 0 then 0 else scan_bytes m bmp bits (align_up 64 bits 8 / 8) 0
