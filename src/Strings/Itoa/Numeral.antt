-- ===== src/Strings/Itoa/Numeral.antt =====
-- Characters read as the digits of a number, against the digits that `itoa` collects.
use gummy.Prelude.{
  ℕ, zero, suc, ◌+◌, ◌-◌, ◌*◌, ◌/◌, ◌%◌, ◌^◌, ◌<◌, ◌≤◌, ◌≡◌, refl, ◌≢◌, arith, Bool, true, false,
  ◌&&◌, ◌||◌, ◌==◌, ltb, leb, if◌then◌else◌, List, [], ◌∷◌, ◌++◌, ap, ◌∙◌, ==_of_ne, Bool-cases,
  inl, inr,
}
use gummy.Strings.Itoa.{collect, digit_char, reverse, map_chars, repeat}

-- The digit that a character stands for: 0 to 9, A to F and a to f.
abbrev pub digit_value : ℕ → ℕ
digit_value c = if leb 97 c then c - 97 + 10 else if leb 65 c then c - 65 + 10 else c - 48

abbrev pub is_digit_of : ℕ → Bool → ℕ → Bool
is_digit_of base upper c =
    ((leb 48 c && leb c 57) || (if upper then leb 65 c && leb c 70 else leb 97 c && leb c 102))
    && ltb (digit_value c) base

-- All characters are digits of the base, with capital letters or with small ones.
abbrev pub are_digits : ℕ → Bool → List ℕ → Bool
are_digits base upper [] = true
are_digits base upper (c ∷ cs) = is_digit_of base upper c && are_digits base upper cs

-- The number that characters stand for, read from the left.
abbrev pub reading : ℕ → ℕ → List ℕ → ℕ
reading base acc [] = acc
reading base acc (c ∷ cs) = reading base (acc * base + digit_value c) cs

abbrev pub first_or : ℕ → List ℕ → ℕ
first_or z [] = z
first_or z (c ∷ cs) = c

-- The number that digits stand for, the last digit first.
abbrev pub value : ℕ → List ℕ → ℕ
value base [] = 0
value base (d ∷ ds) = d + base * value base ds

abbrev pub last_or : ℕ → List ℕ → ℕ
last_or z [] = z
last_or z (d ∷ ds) = last_or d ds

abbrev pub are_below : ℕ → List ℕ → Bool
are_below base [] = true
are_below base (d ∷ ds) = ltb d base && are_below base ds

double_le : (base x : ℕ) → 2 ≤ base → 2 * x ≤ base * x
double_le zero x b = absurd (omega arith)
double_le (suc zero) x b = absurd (omega arith)
double_le (suc (suc c)) x b = omega arith

quotient_small : (base num n : ℕ) → 2 ≤ base → num < 2 * n → num / base < n
quotient_small base num n b l = omega (arith, double_le base (num / base) b)

pub collect-value :
    (n base num : ℕ) → 2 ≤ base → num < 2 ^ n → value base (collect n base num) ≡ num
unfolding collect
collect-value zero base num b l = omega arith
collect-value (suc n) base num b l =
    ground
      (arith, collect-value n base (num / base) b (quotient_small base num (2 ^ n) b (omega arith)))

pub collect-below : (n base num : ℕ) → 2 ≤ base → are_below base (collect n base num) ≡ true
unfolding collect
collect-below zero base num b = refl
collect-below (suc n) base num b = ground (arith, collect-below n base (num / base) b)

collect_zero : (n base : ℕ) → collect n base 0 ≡ []
unfolding collect
collect_zero zero base = refl
collect_zero (suc n) base = refl

-- The highest digit of a number other than 0 is not 0.
pub collect-last :
    (n base num z : ℕ) → 2 ≤ base → num < 2 ^ n → num ≢ 0 → last_or z (collect n base num) ≢ 0
unfolding collect
collect-last zero base num z b l ne = absurd (omega arith)
collect-last (suc n) base num z b l ne = elim (Bool-cases (num / base == 0)) [
  | inl small ↦
      let none : num / base ≡ 0 = ground arith in
      rw (==_of_ne ne, none, collect_zero n base) (omega (arith, none, ne, ap (λ q. base * q) none))
  | inr more ↦ rw (==_of_ne ne) (
      collect-last n base (num / base) (num % base) b
        (quotient_small base num (2 ^ n) b (omega arith)) (ground arith))
]

digit_char-value :
    (upper : Bool) (base d : ℕ)
    → base ≤ 16
    → d < base
    → (is_digit_of base upper (digit_char upper d) ≡ true) × (digit_value (digit_char upper d) ≡ d)
digit_char-value true base d h l = (ground arith, ground arith)
digit_char-value false base d h l = (ground arith, ground arith)

reading-append :
    (base acc c : ℕ) (cs : List ℕ)
    → reading base acc (cs ++ c ∷ []) ≡ reading base acc cs * base + digit_value c
reading-append base acc c [] = refl
reading-append base acc c (x ∷ xs) = reading-append base (acc * base + digit_value x) c xs

are_digits-append :
    (base : ℕ) (upper : Bool) (xs ys : List ℕ)
    → are_digits base upper xs ≡ true
    → are_digits base upper ys ≡ true
    → are_digits base upper (xs ++ ys) ≡ true
are_digits-append base upper [] ys h k = k
are_digits-append base upper (x ∷ xs) ys h k =
    ground (arith, are_digits-append base upper xs ys (ground arith) k)

pub reverse-reading :
    (upper : Bool) (base : ℕ) (ds : List ℕ)
    → base ≤ 16
    → are_below base ds ≡ true
    → (are_digits base upper (reverse (map_chars upper ds)) ≡ true)
      × (reading base 0 (reverse (map_chars upper ds)) ≡ value base ds)
reverse-reading upper base [] h l = (refl, refl)
reverse-reading upper base (d ∷ ds) h l =
    let (a, b) = reverse-reading upper base ds h (ground arith) in
    let (c, e) = digit_char-value upper base d h (ground arith) in
    (
      are_digits-append base upper (reverse (map_chars upper ds)) (digit_char upper d ∷ []) a
          (rw c refl),
      rw (reading-append base 0 (digit_char upper d) (reverse (map_chars upper ds)), b, e)
          (omega arith),
    )

first-append : (z c : ℕ) (xs : List ℕ) → first_or z (xs ++ c ∷ []) ≡ first_or c xs
first-append z c [] = refl
first-append z c (x ∷ xs) = refl

pub first-reverse :
    (upper : Bool) (z : ℕ) (ds : List ℕ)
    → first_or (digit_char upper z) (reverse (map_chars upper ds)) ≡ digit_char upper (last_or z ds)
first-reverse upper z [] = refl
first-reverse upper z (d ∷ ds) =
    first-append (digit_char upper z) (digit_char upper d) (reverse (map_chars upper ds))
    ∙ first-reverse upper d ds

-- Zeros in front stand for nothing.
pub repeat-reading :
    (upper : Bool) (base n : ℕ) (cs : List ℕ)
    → 2 ≤ base
    → are_digits base upper cs ≡ true
    → (are_digits base upper (repeat n 48 ++ cs) ≡ true)
      × (reading base 0 (repeat n 48 ++ cs) ≡ reading base 0 cs)
repeat-reading upper base zero cs b h = (h, refl)
repeat-reading upper base (suc n) cs b h =
    let (a, e) = repeat-reading upper base n cs b h in
    let start : 0 * base + 0 ≡ 0 = omega arith in
    (ground (arith, a), ap (λ x. reading base x (repeat n 48 ++ cs)) start ∙ e)
