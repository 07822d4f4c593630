-- ===== src/Strings/Itoa.antt =====
-- `itoa` of lib/src/string.c. The local buffer is a list, first digit written first. `pos` and the count
-- of the padding are numbers without a bound: they are an `int` and a `uint32_t` in the source, which hold
-- them as long as the padding is below 2 ^ 31.
pub mod Numeral
pub mod Digits
use gummy.Prelude.{
  ℕ, zero, suc, ◌+◌, ◌-◌, ◌*◌, ◌/◌, ◌%◌, ◌^◌, Bool, true, false, ◌||◌, ◌==◌, ltb, if◌then◌else◌,
  List, [], ◌∷◌, ◌++◌, length,
}
use gummy.Queue.{Ptr, update}
use gummy.Memory.{Bytes}

-- `CHARS[d]` and `chars[d]`
abbrev pub digit_char : Bool → ℕ → ℕ
digit_char upper d = if ltb d 10 then 48 + d else if upper then 55 + d else 87 + d

-- The loop over the digits of `num`, the last one first, on rounds left.
unfoldable pub collect : ℕ → ℕ → ℕ → List ℕ
collect zero base num = []
collect (suc n) base num =
    let rest : List ℕ = collect n base (num / base) in if num == 0 then [] else num % base ∷ rest

abbrev pub reverse : List ℕ → List ℕ
reverse [] = []
reverse (x ∷ xs) = reverse xs ++ x ∷ []

abbrev pub map_chars : Bool → List ℕ → List ℕ
map_chars upper [] = []
map_chars upper (d ∷ ds) = digit_char upper d ∷ map_chars upper ds

abbrev pub repeat : ℕ → ℕ → List ℕ
repeat zero c = []
repeat (suc n) c = c ∷ repeat n c

-- The stores `out[pos++] = c`, of a list of characters.
unfoldable pub put_chars : Bytes → Ptr → List ℕ → Bytes
put_chars m out [] = m
put_chars m out (c ∷ cs) = put_chars (update m out c) (out + 1) cs

-- The digits in the buffer: at most 64, since `num` has 64 bits and the base is at least 2.
abbrev pub digits_of : ℕ → ℕ → List ℕ
digits_of base num = if num == 0 then 0 ∷ [] else collect 64 base num

abbrev pub sign_of : Bool → List ℕ
sign_of signal = if signal then 45 ∷ [] else []

-- The number of characters without padding.
abbrev pub plain_length : ℕ → ℕ → Bool → ℕ
plain_length base num signal = length (digits_of base num) + length (sign_of signal)

abbrev pub padding : ℕ → ℕ → ℕ
padding len zero_pad = if ltb len zero_pad then zero_pad - len else 0

-- What is stored before the terminator: the sign, the padding, the digits.
abbrev pub text : ℕ → ℕ → Bool → Bool → ℕ → List ℕ
text base num signal upper zero_pad =
    sign_of signal
    ++ repeat (padding (plain_length base num signal) zero_pad) 48
    ++ reverse (map_chars upper (digits_of base num))

unfoldable pub itoa : Bytes → Ptr → ℕ → ℕ → Bool → Bool → ℕ → ℕ × Bytes
itoa m out base num signal upper zero_pad =
    if ltb base 2 || ltb 16 base
    then (0, m)
    else let cs : List ℕ = text base num signal upper zero_pad in
      (length cs, put_chars m out (cs ++ 0 ∷ []))
