-- ===== src/Vsnprintf/Limit.antt =====
-- What `put_string` of lib/src/vsnprintf.c stores: as many of the characters as the limit leaves room
-- for.
use gummy.Prelude.{
  ℕ, zero, suc, ◌+◌, ◌-◌, ◌%◌, ◌^◌, ◌<◌, ◌≡◌, refl, ◌≢◌, arith, true, false, not, ◌&&◌, ◌==◌, ltb,
  if◌then◌else◌, List, [], ◌∷◌, ◌++◌, length, Bool-cases, inl, inr, ap, ◌∙◌,
}
use gummy.Queue.{Ptr, null, update}
use gummy.Memory.{Bytes}
use gummy.Strings.Itoa.{put_chars}
use gummy.Vsnprintf.{StringFormatter, put_char, put_string}

abbrev pub take : ℕ → List ℕ → List ℕ
take zero xs = []
take (suc n) [] = []
take (suc n) (x ∷ xs) = x ∷ take n xs

take_nil : (n : ℕ) → take n [] ≡ []
take_nil zero = refl
take_nil (suc n) = refl

pub length-take :
    (n : ℕ) (xs : List ℕ) → length (take n xs) ≡ (if ltb (length xs) n then length xs else n)
length-take zero xs = ground arith
length-take (suc n) [] = ground arith
length-take (suc n) (x ∷ xs) = ground (arith, length-take n xs)

-- Storing one more character.
pub put_chars-append :
    (m : Bytes) (out : Ptr) (cs : List ℕ) (c : ℕ)
    → put_chars m out (cs ++ c ∷ []) ≡ update (put_chars m out cs) (out + length cs) c
unfolding put_chars
put_chars-append m out [] c = ground arith
put_chars-append m out (d ∷ cs) c =
    put_chars-append (update m out d) (out + 1) cs c
    ∙ ap (λ a. update (put_chars (update m out d) (out + 1) cs) a c) (omega arith)

put_char-room :
    (f : StringFormatter) (c : ℕ)
    → f.out ≢ null
    → f.index + 1 < 2 ^ 32
    → ltb f.index (f.limit - 1) ≡ true
    → put_char f c ≡ record f { memory = update f.memory (f.out + f.index) c; index = f.index + 1 }
unfolding put_char
put_char-room f c o l room =
    let e : (f.index + 1) % 2 ^ 32 ≡ f.index + 1 = omega arith in
    let all : (not (f.out == null) && ltb 0 f.limit && ltb f.index (f.limit - 1)) ≡ true =
      ground arith in
    rw (e, all) refl

put_char-full :
    (f : StringFormatter) (c : ℕ)
    → f.index + 1 < 2 ^ 32
    → ltb f.index (f.limit - 1) ≡ false
    → put_char f c ≡ record f { index = f.index + 1 }
unfolding put_char
put_char-full f c l full =
    let e : (f.index + 1) % 2 ^ 32 ≡ f.index + 1 = omega arith in
    let all : (not (f.out == null) && ltb 0 f.limit && ltb f.index (f.limit - 1)) ≡ false =
      ground arith in
    rw (e, all) refl

-- `f` after `n` more characters, of which it has stored `cs`.
abbrev pub advanced : StringFormatter → ℕ → List ℕ → StringFormatter
advanced f n cs = record f { index = f.index + n; memory = put_chars f.memory (f.out + f.index) cs }

-- The result of `put_string`, where the number of characters does not wrap.
pub put_string_lem :
    (f : StringFormatter) (cs : List ℕ)
    → f.out ≢ null
    → f.index + length cs < 2 ^ 32
    → put_string f cs ≡ advanced f (length cs) (take (f.limit - 1 - f.index) cs)
unfolding put_string put_chars
put_string_lem f [] o l =
    let a : f.index + 0 ≡ f.index = omega arith in
    let b : take (f.limit - 1 - f.index) [] ≡ [] = take_nil (f.limit - 1 - f.index) in
    rw (a, b) refl
put_string_lem f (c ∷ cs) o l = elim (Bool-cases (ltb f.index (f.limit - 1))) [
  | inl room ↦
      let e : f.limit - 1 - f.index ≡ suc (f.limit - 1 - (f.index + 1)) = ground arith in
      let one : put_char f c ≡ advanced f 1 (c ∷ []) =
        put_char-room f c o (omega (arith, l)) room in
      ap (λ g. put_string g cs) one
      ∙ put_string_lem (advanced f 1 (c ∷ [])) cs o (omega (arith, l))
      ∙ (let a : f.index + 1 + length cs ≡ f.index + suc (length cs) = omega arith in
          let b : f.out + (f.index + 1) ≡ f.out + f.index + 1 = omega arith in rw (e, a, b) refl)
  | inr full ↦
      let e : f.limit - 1 - f.index ≡ 0 = ground arith in
      let e' : f.limit - 1 - (f.index + 1) ≡ 0 = ground arith in
      let one : put_char f c ≡ advanced f 1 [] = put_char-full f c (omega (arith, l)) full in
      ap (λ g. put_string g cs) one
      ∙ put_string_lem (advanced f 1 []) cs o (omega (arith, l))
      ∙ (let a : f.index + 1 + length cs ≡ f.index + suc (length cs) = omega arith in
          rw (e, e', a) refl)
]
