-- ===== src/Vmm/Flags.antt =====
-- What `|` with the flags of a page does to a page-table entry.
use Prim.Native.Nat.{max, digits, bit_or-bitwise}
use gummy.Prelude.{ℕ, zero, suc, ◌+◌, ◌*◌, ◌/◌, ◌%◌, ◌≤◌, ◌<◌, ◌≡◌, refl, arith, bit_or}

-- The digits of `a | b`, as many as `n` at least.
abbrev pub or_of : ℕ → ℕ → ℕ → ℕ
or_of n a b = digits (λ y. y) max n a b

-- A number without its `k` lowest digits.
abbrev pub halve : ℕ → ℕ → ℕ
halve zero x = x
halve (suc k) x = halve k (x / 2)

halve-zero : (k : ℕ) → halve k 0 ≡ 0
halve-zero zero = refl
halve-zero (suc k) = halve-zero k

pub or_of_zero : (n a : ℕ) → a ≤ n → or_of n a 0 ≡ a
or_of_zero zero zero l = refl
or_of_zero (suc n) zero l = refl
or_of_zero zero (suc a) l = absurd (omega arith)
or_of_zero (suc n) (suc a) l = omega (arith, or_of_zero n (suc a / 2) (omega arith))

or_of-low : (n a b : ℕ) → a ≤ n → or_of n a b % 2 ≡ max (a % 2) (b % 2)
or_of-low zero zero b l = omega arith
or_of-low zero (suc a) b l = absurd (omega arith)
or_of-low (suc n) zero b l = omega arith
or_of-low (suc n) (suc a) b l = omega arith

or_of-high : (k n a b : ℕ) → a ≤ n → halve k b ≡ 0 → halve k (or_of n a b) ≡ halve k a
or_of-high zero n a zero l e = or_of_zero n a l
or_of-high zero n a (suc b) l e = absurd (omega (arith, e))
or_of-high (suc k) zero zero b l e = omega (arith, e, halve-zero k)
or_of-high (suc k) zero (suc a) b l e = absurd (omega arith)
or_of-high (suc k) (suc n) zero b l e = omega (arith, e, halve-zero k)
or_of-high (suc k) (suc n) (suc a) b l e =
    let x = or_of n (suc a / 2) (b / 2) in
    let d : (x * 2 + max (suc a % 2) (b % 2)) / 2 ≡ x = omega arith in
    rw d (or_of-high k n (suc a / 2) (b / 2) (omega arith) e)

-- Flags are below 4096: an entry keeps its frame, and its lowest bit is set if one of the two is.
pub bit_or_flags :
    (w flags : ℕ)
    → flags < 4096
    → (bit_or w flags / 4096 ≡ w / 4096) × (bit_or w flags % 2 ≡ max (w % 2) (flags % 2))
bit_or_flags w flags l = simp bit_or-bitwise (
  omega (arith, or_of-high 12 w w flags (omega arith) (omega arith)),
  or_of-low w w flags (omega arith),
)
