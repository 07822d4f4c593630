-- ===== src/Prelude/Lists.antt =====
-- Lists measured and indexed by native numbers, under the library's names, and lists of
-- addresses: membership as a test, removal of one address, absence of repetitions.
use Prim.Native.Nat.{ℕ, zero, suc, ◌+◌}
use mathlib.Core.Path.{◌≡◌, refl, ap}
use mathlib.Core.Bool.{Bool, true, false, ◌||◌, ◌&&◌, not}
use mathlib.Core.List.{List, [], ◌∷◌, ◌++◌}
use mathlib.Core.Option.{Option, none, some}
use native.Mathlib.Omega.{arith}
use gummy.Prelude.Tests.{◌==◌, if◌then◌else◌}

module _ {ℓ} {A : Type ℓ} where
  abbrev pub length : List A → ℕ
  length [] = 0
  length (x ∷ xs) = suc (length xs)

  abbrev pub get_elem? : List A → ℕ → Option A
  get_elem? [] i = none
  get_elem? (x ∷ xs) zero = some x
  get_elem? (x ∷ xs) (suc i) = get_elem? xs i

  pub length-append : (xs ys : List A) → length (xs ++ ys) ≡ length xs + length ys
  length-append [] ys = omega arith
  length-append (x ∷ xs) ys = omega (arith, length-append xs ys)

  pub append_nil : (xs : List A) → xs ++ [] ≡ xs
  append_nil [] = refl
  append_nil (x ∷ xs) = ap (λ ys. x ∷ ys) (append_nil xs)

abbrev pub has : ℕ → List ℕ → Bool
has a [] = false
has a (x ∷ xs) = a == x || has a xs

-- Drops the first occurrence.
abbrev pub erase : ℕ → List ℕ → List ℕ
erase a [] = []
erase a (x ∷ xs) = if a == x then xs else x ∷ erase a xs

abbrev pub distinct : List ℕ → Bool
distinct [] = true
distinct (x ∷ xs) = not (has x xs) && distinct xs

pub has-append : (a : ℕ) (xs : List ℕ) (b : ℕ) → has a (xs ++ b ∷ []) ≡ (has a xs || (a == b))
has-append a [] b = ground arith
has-append a (x ∷ xs) b = ground (arith, has-append a xs b)

pub distinct-append :
    (xs : List ℕ) (b : ℕ) → distinct xs ≡ true → has b xs ≡ false → distinct (xs ++ b ∷ []) ≡ true
distinct-append [] b d h = refl
distinct-append (x ∷ xs) b d h = ground (arith, distinct-append xs b, has-append x xs b)

pub has-erase :
    (a p : ℕ) (xs : List ℕ) → distinct xs ≡ true → has a (erase p xs) ≡ (not (a == p) && has a xs)
has-erase a p [] d = ground arith
has-erase a p (x ∷ xs) d = ground (arith, has-erase a p xs)

pub distinct-erase : (p : ℕ) (xs : List ℕ) → distinct xs ≡ true → distinct (erase p xs) ≡ true
distinct-erase p [] d = refl
distinct-erase p (x ∷ xs) d = ground (arith, distinct-erase p xs, has-erase x p xs)

pub length-erase : (p : ℕ) (xs : List ℕ) → has p xs ≡ true → length xs ≡ length (erase p xs) + 1
length-erase p [] h = ground arith
length-erase p (x ∷ xs) h = ground (arith, length-erase p xs)

pub erase_of_not_has : (p : ℕ) (xs : List ℕ) → has p xs ≡ false → erase p xs ≡ xs
erase_of_not_has p [] h = refl
erase_of_not_has p (x ∷ xs) h = ground (arith, erase_of_not_has p xs)
