-- ===== src/Strings/Itoa/Digits.antt =====
-- The digits that `itoa` writes stand for the number, and how many characters it writes.
use gummy.Prelude.{
  ℕ, zero, suc, ◌+◌, ◌^◌, ◌<◌, ◌≤◌, ◌≡◌, refl, arith, Bool, false, ◌||◌, ltb, if◌then◌else◌, List,
  [], ◌∷◌, ◌++◌, length, length-append, ap, ◌∙◌, true, ◌≢◌, ◌⊎◌, inl, inr, ◌==◌, Bool-cases, sym,
}
use gummy.Queue.{Ptr, update}
use gummy.Memory.{Bytes, bytes_at}
use gummy.Memory.Copy.{within}
use gummy.Strings.Itoa.Numeral.{
  are_digits, reading, first_or, value, are_below, collect-value, collect-below, collect-last,
  reverse-reading, first-reverse, repeat-reading,
}
use gummy.Strings.Itoa.{
  digit_char, collect, digits_of, reverse, map_chars, repeat, put_chars, sign_of, plain_length,
  padding, text, itoa,
}

pub put_chars-outside :
    (m : Bytes) (out : Ptr) (cs : List ℕ) (a : Ptr)
    → within out (length cs) a ≡ false
    → put_chars m out cs a ≡ m a
unfolding put_chars
put_chars-outside m out [] a o = refl
put_chars-outside m out (c ∷ cs) a o =
    ground (arith, put_chars-outside (update m out c) (out + 1) cs a)

pub put_chars-reads :
    (m : Bytes) (out : Ptr) (cs : List ℕ) → bytes_at (put_chars m out cs) out (length cs) ≡ cs
unfolding put_chars
put_chars-reads m out [] = refl
put_chars-reads m out (c ∷ cs) = ground (
  arith,
  put_chars-outside (update m out c) (out + 1) cs out,
  put_chars-reads (update m out c) (out + 1) cs,
)

length-reverse : (xs : List ℕ) → length (reverse xs) ≡ length xs
length-reverse [] = refl
length-reverse (x ∷ xs) = ground (arith, length-append (reverse xs) (x ∷ []), length-reverse xs)

length-map_chars : (upper : Bool) (ds : List ℕ) → length (map_chars upper ds) ≡ length ds
length-map_chars upper [] = refl
length-map_chars upper (d ∷ ds) = ap suc (length-map_chars upper ds)

length-repeat : (n c : ℕ) → length (repeat n c) ≡ n
length-repeat zero c = refl
length-repeat (suc n) c = ap suc (length-repeat n c)

pub length-text :
    (base num : ℕ) (signal upper : Bool) (zero_pad : ℕ)
    → let len = plain_length base num signal in
      length (text base num signal upper zero_pad) ≡ (if ltb len zero_pad then zero_pad else len)
length-text base num signal upper zero_pad =
    let pad = repeat (padding (plain_length base num signal) zero_pad) 48 in
    let ds = reverse (map_chars upper (digits_of base num)) in
    let a = length-append (sign_of signal) (pad ++ ds) in
    let b = length-append pad ds in
    let c = length-repeat (padding (plain_length base num signal) zero_pad) 48 in
    let d =
      length-reverse (map_chars upper (digits_of base num))
      ∙ length-map_chars upper (digits_of base num) in
    ground (arith, a, b, c, d)

digit_char-zero : (upper : Bool) (d : ℕ) → d ≢ 0 → digit_char upper d ≢ 48
digit_char-zero true d n e = ground arith
digit_char-zero false d n e = ground arith

length-sign :
    (signal : Bool) (cs : List ℕ)
    → length (sign_of signal ++ cs) ≡ (if signal then 1 else 0) + length cs
length-sign true cs = omega arith
length-sign false cs = omega arith

sign-append :
    (signal : Bool) (cs : List ℕ)
    → (sign_of signal ++ cs) ++ 0 ∷ [] ≡ (if signal then 45 ∷ [] else []) ++ cs ++ 0 ∷ []
sign-append true cs = refl
sign-append false cs = refl

-- The text of `itoa` after the sign.
abbrev pub numeral : ℕ → ℕ → Bool → Bool → ℕ → List ℕ
numeral base num signal upper zero_pad =
    repeat (padding (plain_length base num signal) zero_pad) 48
    ++ reverse (map_chars upper (digits_of base num))

-- The result of `itoa`: the characters before the terminator are the sign and the digits `digits`.
pub record IsWritten (m : Bytes) (out base num : ℕ) (signal upper : Bool) (zero_pad : ℕ)
    (digits : List ℕ) (result : ℕ × Bytes) : Type 0 where
  pub count : result.0 ≡ (if signal then 1 else 0) + length digits
  pub stored :
      bytes_at result.1 out (result.0 + 1) ≡ (if signal then 45 ∷ [] else []) ++ digits ++ 0 ∷ []
  pub digits_ok : are_digits base upper digits ≡ true
  pub stands_for : reading base 0 digits ≡ num
  pub wide : zero_pad ≤ result.0
  pub shortest : zero_pad < result.0 → (digits ≡ 48 ∷ []) ⊎ (first_or 48 digits ≢ 48)
  pub apart : (a : Ptr) → within out (result.0 + 1) a ≡ false → result.1 a ≡ m a

module _ (base num : ℕ) (upper : Bool) (low : 2 ≤ base) (high : base ≤ 16)
    (word : num < 2 ^ 64) where
  digits_of-value :
      (are_below base (digits_of base num) ≡ true) × (value base (digits_of base num) ≡ num)
  digits_of-value = (
    ground (arith, collect-below 64 base num low),
    ground (arith, collect-value 64 base num low word),
  )

  numeral-reading :
      (signal : Bool) (zero_pad : ℕ)
      → (are_digits base upper (numeral base num signal upper zero_pad) ≡ true)
        × (reading base 0 (numeral base num signal upper zero_pad) ≡ num)
  numeral-reading signal zero_pad =
      let (below, whole) = digits_of-value in
      let (ok, e) = reverse-reading upper base (digits_of base num) high below in
      let (ok', e') =
        repeat-reading upper base (padding (plain_length base num signal) zero_pad) _ low ok in
      (ok', e' ∙ e ∙ whole)

  -- Without zeros in front, the first digit is not 0 unless it is the only one.
  digits_of-first :
      let cs = reverse (map_chars upper (digits_of base num)) in
      (cs ≡ 48 ∷ []) ⊎ (first_or 48 cs ≢ 48)
  digits_of-first = elim (Bool-cases (num == 0)) [
    | inl none ↦ inl (rw none refl)
    | inr some ↦ inr (
        rw some (λ e.
          digit_char-zero upper _ (collect-last 64 base num 0 low word (ground arith))
            (sym (first-reverse upper 0 (collect 64 base num)) ∙ e)))
  ]

text-numeral :
    (base num : ℕ) (signal upper : Bool) (zero_pad : ℕ)
    → text base num signal upper zero_pad ≡ sign_of signal ++ numeral base num signal upper zero_pad
text-numeral base num true upper zero_pad = refl
text-numeral base num false upper zero_pad = refl

no_padding-first :
    (base num : ℕ) (signal upper : Bool) (zero_pad : ℕ)
    → 2 ≤ base
    → base ≤ 16
    → num < 2 ^ 64
    → ltb (plain_length base num signal) zero_pad ≡ false
    → (numeral base num signal upper zero_pad ≡ 48 ∷ [])
      ⊎ (first_or 48 (numeral base num signal upper zero_pad) ≢ 48)
no_padding-first base num signal upper zero_pad low high word none =
    rw none (digits_of-first base num upper low high word)

-- For a number of 64 bits, a base from 2 to 16 and a padding below 2 ^ 31, `itoa` stores the sign if it
-- is asked for, digits and a 0 at `out`, and changes no other byte. The digits are digits of the base,
-- with capital letters if they are asked for, and stand for the number when they are read from the
-- left. The number of characters before the 0 is what `itoa` returns; it is at least the padding, and if
-- it is more, the first digit is not 0 unless it is the only one.
pub itoa-writes :
    (m : Bytes) (out base num : ℕ) (signal upper : Bool) (zero_pad : ℕ)
    → 2 ≤ base
    → base ≤ 16
    → num < 2 ^ 64
    → zero_pad < 2 ^ 31
    → (digits : List ℕ) × IsWritten m out base num signal upper zero_pad digits
        (itoa m out base num signal upper zero_pad)
unfolding itoa
itoa-writes m out base num signal upper zero_pad low high word pad =
    let cs = text base num signal upper zero_pad in
    let len : length (cs ++ 0 ∷ []) ≡ length cs + 1 = length-append cs (0 ∷ []) in
    let total = length-text base num signal upper zero_pad in
    let ds = numeral base num signal upper zero_pad in
    let split = text-numeral base num signal upper zero_pad in
    let (ok, e) = numeral-reading base num upper low high word signal zero_pad in
    let in_range : (ltb base 2 || ltb 16 base) ≡ false = ground arith in
    rw in_range (
      ds,
      record {
        count = ap length split ∙ length-sign signal ds;
        stored =
            ap (bytes_at (put_chars m out (cs ++ 0 ∷ [])) out) (sym len)
            ∙ put_chars-reads m out (cs ++ 0 ∷ [])
            ∙ ap (λ xs. xs ++ 0 ∷ []) split
            ∙ sign-append signal ds;
        digits_ok = ok;
        stands_for = e;
        wide = ground (arith, total);
        shortest = λ l.
            no_padding-first base num signal upper zero_pad low high word
              (ground (arith, total, l));
        apart = λ a o. put_chars-outside m out (cs ++ 0 ∷ []) a (rw len o);
      },
    )
