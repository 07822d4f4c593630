-- ===== src/Strings/Order.antt =====
-- The comparisons against an order on lists of characters.
use mathlib.Core.Path.{subst, ap₂}
use native.Mathlib.Nat.{add-zero, add_assoc}
use gummy.Prelude.{
  ℕ, zero, suc, ◌+◌, ◌%◌, ◌^◌, ◌<◌, ◌≡◌, refl, ◌≢◌, ◌↔◌, arith, Bool, true, ltb, ◌&&◌, not, ◌==◌,
  if◌then◌else◌, List, [], ◌∷◌, length, some, ap, sym, Bool-cases, ==_iff, inl, inr, ◌∙◌,
}
use gummy.Queue.{Ptr}
use gummy.Memory.{Bytes, bytes_at}
use gummy.Strings.{difference, memcmp, strlen_loop, strlen, strcmp, strncmp}

-- The characters `s`, none of them 0, and then a 0.
abbrev pub IsString : Bytes → Ptr → List ℕ → Type 0
IsString m p [] = m p ≡ 0
IsString m p (c ∷ s) = (m p ≡ c) × (c ≢ 0) × IsString m (p + 1) s

-- The first `n` characters.
abbrev pub take : ℕ → List ℕ → List ℕ
take zero s = []
take (suc n) [] = []
take (suc n) (c ∷ s) = c ∷ take n s

-- The difference at the first place where two strings differ; an end counts as 0.
abbrev pub order : List ℕ → List ℕ → ℕ
order [] [] = 0
order [] (d ∷ t) = difference 0 d
order (c ∷ s) [] = difference c 0
order (c ∷ s) (d ∷ t) = if c == d then order s t else difference c d

strlen_loop-length :
    (m : Bytes) (p n fuel : ℕ) (s : List ℕ)
    → IsString m (p + n) s
    → length s < fuel
    → n + length s < 2 ^ 32
    → strlen_loop fuel m p n ≡ some (n + length s)
unfolding strlen_loop
strlen_loop-length m p n zero s h l small = absurd (omega arith)
strlen_loop-length m p n (suc fuel) [] h l small = ground arith
strlen_loop-length m p n (suc fuel) (c ∷ s) h l small =
    let word : (n + 1) % 2 ^ 32 ≡ n + 1 = omega arith in
    ground (
      arith,
      h.0,
      h.1,
      word,
      strlen_loop-length m p (n + 1) fuel s (subst (λ a. IsString m a s) (add_assoc p n 1) h.2),
    )

-- With more fuel than characters, `strlen` is the number of characters of a string of fewer than
-- 2 ^ 32.
pub strlen-length :
    (m : Bytes) (p fuel : ℕ) (s : List ℕ)
    → IsString m p s
    → length s < fuel
    → length s < 2 ^ 32
    → strlen fuel m p ≡ some (length s)
unfolding strlen
strlen-length m p fuel s h l small =
    let here : IsString m (p + 0) s = subst (λ a. IsString m a s) (sym (add-zero p)) h in
    strlen_loop-length m p 0 fuel s here l (omega arith) ∙ ground arith

-- With more fuel than characters of the first string, `strcmp` is the order of the two strings.
pub strcmp-order :
    (m : Bytes) (a b fuel : ℕ) (s t : List ℕ)
    → IsString m a s
    → IsString m b t
    → length s < fuel
    → strcmp fuel m a b ≡ some (order s t)
unfolding strcmp
strcmp-order m a b zero s t h k l = absurd (omega arith)
strcmp-order m a b (suc fuel) [] [] h k l = ground arith
strcmp-order m a b (suc fuel) [] (d ∷ t) h k l = ground arith
strcmp-order m a b (suc fuel) (c ∷ s) [] h k l = ground (arith, h.0, h.1)
strcmp-order m a b (suc fuel) (c ∷ s) (d ∷ t) h k l =
    ground (arith, h.0, h.1, k.0, strcmp-order m (a + 1) (b + 1) fuel s t h.2 k.2)

-- `strncmp` is the order of the first `n` characters of the two strings.
pub strncmp-order :
    (m : Bytes) (a b n : ℕ) (s t : List ℕ)
    → IsString m a s
    → IsString m b t
    → strncmp m a b n ≡ order (take n s) (take n t)
unfolding strncmp
strncmp-order m a b zero s t h k = refl
strncmp-order m a b (suc n) [] [] h k = ground arith
strncmp-order m a b (suc n) [] (d ∷ t) h k = ground arith
strncmp-order m a b (suc n) (c ∷ s) [] h k = ground (arith, h.0, h.1)
strncmp-order m a b (suc n) (c ∷ s) (d ∷ t) h k =
    ground (arith, h.0, h.1, k.0, strncmp-order m (a + 1) (b + 1) n s t h.2 k.2)

-- `memcmp` is the order of the two regions, whatever bytes they hold.
pub memcmp-order :
    (m : Bytes) (a b n : ℕ) → memcmp m a b n ≡ order (bytes_at m a n) (bytes_at m b n)
unfolding memcmp
memcmp-order m a b zero = refl
memcmp-order m a b (suc n) = ground (arith, memcmp-order m (a + 1) (b + 1) n)

-- Bytes other than 0.
abbrev pub are_bytes : List ℕ → Bool
are_bytes [] = true
are_bytes (c ∷ s) = not (c == 0) && ltb c 256 && are_bytes s

-- The order of two strings of bytes is 0 only if they are equal.
order-zero : (s t : List ℕ) → are_bytes s ≡ true → are_bytes t ≡ true → order s t ≡ 0 → s ≡ t
order-zero [] [] h k e = refl
order-zero [] (d ∷ t) h k e = absurd (ground arith)
order-zero (c ∷ s) [] h k e = absurd (ground arith)
order-zero (c ∷ s) (d ∷ t) h k e = elim (Bool-cases (c == d)) [
  | inl same ↦
      let x : c ≡ d = (==_iff c d).0 same in
      let rest : s ≡ t = order-zero s t (ground arith) (ground arith) (ground arith) in
      ap₂ (λ y l. y ∷ l) x rest
  | inr other ↦ absurd (ground arith)
]

order_refl : (s : List ℕ) → order s s ≡ 0
order_refl [] = refl
order_refl (c ∷ s) = ground (arith, order_refl s)

-- With more fuel than characters of the first string, `strcmp` of two strings of bytes returns, and
-- it returns 0 exactly if they have the same characters.
pub strcmp-zero :
    (m : Bytes) (a b fuel : ℕ) (s t : List ℕ)
    → IsString m a s
    → IsString m b t
    → are_bytes s ≡ true
    → are_bytes t ≡ true
    → length s < fuel
    → (strcmp fuel m a b ≡ some 0) ↔ (s ≡ t)
strcmp-zero m a b fuel s t h k p q l = rw (strcmp-order m a b fuel s t h k l) (
  λ e. order-zero s t p q (some_eq e),
  λ e. ap some (subst (λ x. order s x ≡ 0) e (order_refl s)),
)
  where
    some_eq : {x y : ℕ} → some x ≡ some y → x ≡ y
    some_eq e = cc
