-- ===== src/Tests/VsnprintfTests.antt =====
-- lib/src/vsnprintf.c at concrete formats.
use gummy.Prelude.{
  Option, none, inl, ℕ, ◌-◌, ◌^◌, ◌≡◌, refl, arith, true, false, ltb, if◌then◌else◌, some, List, [],
  ◌∷◌,
}
use gummy.Memory.{Bytes, bytes_at}
use gummy.Vsnprintf.{vsnprintf}
use gummy.Vsnprintf.Parse.{Arguments, Directive, Number, size_normal, put_number, number_text}
use gummy.Vsnprintf.Render.{Renders, finished, literal, converted}
use gummy.Vsnprintf.Conversion.{unsigned, negative, hexadecimal}

-- The arguments 255 and -42; every string is "ab".
abbrev pub arguments : Arguments
arguments = record { word = λ i. if ltb i 1 then 255 else 2 ^ 32 - 42; string = λ p. 97 ∷ 98 ∷ [] }

abbrev pub blank : Bytes
blank a = 7

-- "x%05x|%05d"
abbrev pub format : List ℕ
format = 120 ∷ 37 ∷ 48 ∷ 53 ∷ 120 ∷ 124 ∷ 37 ∷ 48 ∷ 53 ∷ 100 ∷ []

-- "x000ff|-042" in a buffer of 20 bytes, and what fits of it in a buffer of 5 bytes.
abbrev bytes_of : Option (ℕ × Bytes) → ℕ → List ℕ
bytes_of none n = []
bytes_of (some r) n = bytes_at r.1 100 n

format_all :
    bytes_of (vsnprintf blank 100 20 (some format) arguments) 13
    ≡ 120 ∷ 48 ∷ 48 ∷ 48 ∷ 102 ∷ 102 ∷ 124 ∷ 45 ∷ 48 ∷ 52 ∷ 50 ∷ 0 ∷ 7 ∷ []
unfolding vsnprintf gummy.Vsnprintf.format_loop gummy.Vsnprintf.put_string gummy.Vsnprintf.put_char
    gummy.Vsnprintf.Parse.round gummy.Vsnprintf.Parse.read_directive
    gummy.Vsnprintf.Parse.read_width gummy.Vsnprintf.Parse.convert put_number
    gummy.Vsnprintf.Parse.number_text gummy.Vsnprintf.Parse.digit_width gummy.Strings.Itoa.itoa
    gummy.Strings.Itoa.collect gummy.Strings.Itoa.put_chars
format_all = refl

abbrev five_wide : Directive
five_wide = record { zero_flag = true; width = 5; size = size_normal }

-- "x000ff|-042"
abbrev pub all_text : List ℕ
all_text = 120 ∷ 48 ∷ 48 ∷ 48 ∷ 102 ∷ 102 ∷ 124 ∷ 45 ∷ 48 ∷ 52 ∷ 50 ∷ []

pub format-Renders : Renders arguments format 0 all_text
unfolding gummy.Vsnprintf.Parse.read_directive gummy.Vsnprintf.Parse.read_width
    gummy.Vsnprintf.Parse.convert put_number gummy.Vsnprintf.Parse.number_text
    gummy.Vsnprintf.Parse.digit_width gummy.Strings.Itoa.itoa gummy.Strings.Itoa.collect
    gummy.Strings.Itoa.put_chars
format-Renders =
    literal 120 (37 ∷ 48 ∷ 53 ∷ 120 ∷ 124 ∷ 37 ∷ 48 ∷ 53 ∷ 100 ∷ []) 0
      (48 ∷ 48 ∷ 48 ∷ 102 ∷ 102 ∷ 124 ∷ 45 ∷ 48 ∷ 52 ∷ 50 ∷ []) (omega arith)
      (converted (48 ∷ 53 ∷ 120 ∷ 124 ∷ 37 ∷ 48 ∷ 53 ∷ 100 ∷ []) five_wide 120
        (124 ∷ 37 ∷ 48 ∷ 53 ∷ 100 ∷ []) 0 (48 ∷ 48 ∷ 48 ∷ 102 ∷ 102 ∷ []) 1
        (124 ∷ 45 ∷ 48 ∷ 52 ∷ 50 ∷ []) refl (unsigned 120 16 false 0 hexadecimal (omega arith))
        (literal 124 (37 ∷ 48 ∷ 53 ∷ 100 ∷ []) 1 (45 ∷ 48 ∷ 52 ∷ 50 ∷ []) (omega arith) (
          converted (48 ∷ 53 ∷ 100 ∷ []) five_wide 100 [] 1 (45 ∷ 48 ∷ 52 ∷ 50 ∷ []) 2 [] refl
            (negative 100 1 (inl refl) (omega arith) (omega arith)) (finished 2))))

-- `%05d` of -42 has four characters in place of five.
abbrev minus_42 : Number
minus_42 = record { base = 10; num = 42; signal = true; upper = false; prefix = false }

minus_42_text : put_number five_wide minus_42 ≡ some (45 ∷ 48 ∷ 52 ∷ 50 ∷ [])
unfolding put_number gummy.Vsnprintf.Parse.number_text gummy.Vsnprintf.Parse.digit_width
    gummy.Strings.Itoa.itoa gummy.Strings.Itoa.collect gummy.Strings.Itoa.put_chars
minus_42_text = refl

-- `%070d` is too wide for the local buffer.
seventy_wide : number_text 70 minus_42 ≡ none
unfolding gummy.Vsnprintf.Parse.number_text gummy.Strings.Itoa.itoa gummy.Strings.Itoa.collect
    gummy.Strings.Itoa.put_chars
seventy_wide = refl
