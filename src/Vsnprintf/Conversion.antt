-- ===== src/Vsnprintf/Conversion.antt =====
-- The characters that a conversion of `vsnprintf` stands for, and that `convert` puts them.
use gummy.Prelude.{
  ℕ, ◌+◌, ◌-◌, ◌%◌, ◌^◌, ◌≤◌, ◌<◌, ◌≡◌, refl, ◌≢◌, ◌⊎◌, inl, inr, arith, Bool, true, false, ◌||◌,
  ◌==◌, ltb, leb, if◌then◌else◌, some, List, [], ◌∷◌, ◌++◌, length, ◌∙◌, ap, ==_of_ne, Bool-cases,
}
use gummy.Memory.{bytes_at}
use gummy.Strings.Itoa.{itoa, text, put_chars}
use gummy.Strings.Itoa.Digits.{put_chars-reads}
use gummy.Vsnprintf.Parse.{
  Arguments, Directive, Number, words_of, bits_of, integer_at, digit_width, number_text, put_number,
  and_next, convert, pointer_number, signed_number, unsigned_number,
}

-- The width of a number with the flag `0`, less the characters in front of it.
abbrev pub zeros : Directive → ℕ → ℕ
zeros d extra = if d.zero_flag then d.width - extra else 0

-- The conversions of an unsigned number: the base, and whether the digits are capital letters.
pub data UnsignedConversion : ℕ → ℕ → Bool → Type 0 where
  decimal : UnsignedConversion 117 10 false
  octal : UnsignedConversion 111 8 false
  hexadecimal : UnsignedConversion 120 16 false
  capital : UnsignedConversion 88 16 true

abbrev pub is_conversion : ℕ → Bool
is_conversion c =
    c == 37
    || c == 99
    || c == 115
    || c == 112
    || c == 100
    || c == 105
    || c == 117
    || c == 120
    || c == 88
    || c == 111

-- The characters that a conversion stands for, and the position of the argument behind its own. A
-- number stands for what `itoa` writes, which has to fit into 66 bytes with its terminator.
pub data Puts (args : Arguments) (d : Directive) : ℕ → ℕ → List ℕ → ℕ → Type 0 where
  percent : (pos : ℕ) → Puts args d 37 pos (37 ∷ []) pos
  character : (pos : ℕ) → Puts args d 99 pos (args.word pos % 2 ^ 8 ∷ []) (pos + 1)
  string_shown :
      (pos : ℕ)
      → args.word pos % 2 ^ 32 ≢ 0
      → Puts args d 115 pos (args.string (args.word pos % 2 ^ 32)) (pos + 1)
  null_shown :
      (pos : ℕ)
      → args.word pos % 2 ^ 32 ≡ 0
      → Puts args d 115 pos (40 ∷ 110 ∷ 117 ∷ 108 ∷ 108 ∷ 41 ∷ []) (pos + 1)
  pointer :
      (pos : ℕ)
      → length (text 16 (args.word pos % 2 ^ 32) false false (zeros d 2)) ≤ 65
      → Puts args d 112 pos
          (48 ∷ 120 ∷ text 16 (args.word pos % 2 ^ 32) false false (zeros d 2))
          (pos + 1)
  positive :
      (c pos : ℕ)
      → ((c ≡ 100) ⊎ (c ≡ 105))
      → integer_at args d.size pos < 2 ^ (bits_of d.size - 1)
      → length (text 10 (integer_at args d.size pos) false false (zeros d 0)) ≤ 65
      → Puts args d c pos
          (text 10 (integer_at args d.size pos) false false (zeros d 0))
          (pos + words_of d.size)
  negative :
      (c pos : ℕ)
      → ((c ≡ 100) ⊎ (c ≡ 105))
      → 2 ^ (bits_of d.size - 1) ≤ integer_at args d.size pos
      → length (text 10 (2 ^ bits_of d.size - integer_at args d.size pos) true false (zeros d 1))
        ≤ 65
      → Puts args d c pos
          (text 10 (2 ^ bits_of d.size - integer_at args d.size pos) true false (zeros d 1))
          (pos + words_of d.size)
  unsigned :
      (c base : ℕ) (upper : Bool) (pos : ℕ)
      → UnsignedConversion c base upper
      → length (text base (integer_at args d.size pos) false upper (zeros d 0)) ≤ 65
      → Puts args d c pos
          (text base (integer_at args d.size pos) false upper (zeros d 0))
          (pos + words_of d.size)
  unknown : (c pos : ℕ) → is_conversion c ≡ false → Puts args d c pos (37 ∷ c ∷ []) pos

bytes_at-prefix :
    (m : ℕ → ℕ) (p : ℕ) (cs ds : List ℕ)
    → bytes_at m p (length (cs ++ ds)) ≡ cs ++ ds
    → bytes_at m p (length cs) ≡ cs
bytes_at-prefix m p [] ds h = refl
bytes_at-prefix m p (c ∷ cs) ds h = cc (bytes_at-prefix m (p + 1) cs ds cc, h)

some_chars : (cs xs : List ℕ) → xs ≡ cs → (if ltb 0 (length cs) then xs else []) ≡ cs
some_chars [] xs e = refl
some_chars (c ∷ cs) xs e = ground (arith, e)

number_text-text :
    (zero_pad : ℕ) (k : Number)
    → 2 ≤ k.base
    → k.base ≤ 16
    → length (text k.base k.num k.signal k.upper zero_pad) ≤ 65
    → number_text zero_pad k ≡ some (text k.base k.num k.signal k.upper zero_pad)
unfolding number_text itoa
number_text-text zero_pad k low high fits =
    let cs = text k.base k.num k.signal k.upper zero_pad in
    let in_range : (ltb k.base 2 || ltb 16 k.base) ≡ false = ground arith in
    let inside : ltb 66 (length cs + 1) ≡ false = ground arith in
    let read =
      bytes_at-prefix (put_chars (λ a. 0) 0 (cs ++ 0 ∷ [])) 0 cs (0 ∷ [])
        (put_chars-reads (λ a. 0) 0 (cs ++ 0 ∷ [])) in
    rw (in_range, inside) (ap some (some_chars cs _ read))

digit_width-zeros :
    (d : Directive) (k : Number)
    → digit_width d k ≡ zeros d ((if k.signal then 1 else 0) + (if k.prefix then 2 else 0))
unfolding digit_width
digit_width-zeros d k = ground arith

put_number_lem :
    (d : Directive) (k : Number) (extra : ℕ)
    → 2 ≤ k.base
    → k.base ≤ 16
    → (if k.signal then 1 else 0) + (if k.prefix then 2 else 0) ≡ extra
    → length (text k.base k.num k.signal k.upper (zeros d extra)) ≤ 65
    → put_number d k
      ≡ some (
          (if k.prefix then 48 ∷ 120 ∷ [] else [])
          ++ text k.base k.num k.signal k.upper (zeros d extra))
unfolding put_number
put_number_lem d k extra low high e fits =
    let width : digit_width d k ≡ zeros d extra = digit_width-zeros d k ∙ ap (zeros d) e in
    rw (width, number_text-text (zeros d extra) k low high fits) refl

signed_lem :
    (args : Arguments) (d : Directive) (c pos : ℕ)
    → ((c ≡ 100) ⊎ (c ≡ 105))
    → convert args d c pos
      ≡ and_next (pos + words_of d.size) (put_number d (signed_number args d.size pos))
unfolding convert
signed_lem args d c pos (inl e) = rw e refl
signed_lem args d c pos (inr e) = rw e refl

positive_lem :
    (args : Arguments) (d : Directive) (pos : ℕ)
    → integer_at args d.size pos < 2 ^ (bits_of d.size - 1)
    → length (text 10 (integer_at args d.size pos) false false (zeros d 0)) ≤ 65
    → put_number d (signed_number args d.size pos)
      ≡ some (text 10 (integer_at args d.size pos) false false (zeros d 0))
positive_lem args d pos small fits =
    let v = integer_at args d.size pos in
    let sign : leb (2 ^ (bits_of d.size - 1)) v ≡ false = ground arith in
    let k : Number = record { base = 10; num = v; signal = false; upper = false; prefix = false } in
    rw sign (put_number_lem d k 0 (omega arith) (omega arith) refl fits)

negative_lem :
    (args : Arguments) (d : Directive) (pos : ℕ)
    → 2 ^ (bits_of d.size - 1) ≤ integer_at args d.size pos
    → length (text 10 (2 ^ bits_of d.size - integer_at args d.size pos) true false (zeros d 1)) ≤ 65
    → put_number d (signed_number args d.size pos)
      ≡ some (text 10 (2 ^ bits_of d.size - integer_at args d.size pos) true false (zeros d 1))
negative_lem args d pos large fits =
    let v = integer_at args d.size pos in
    let sign : leb (2 ^ (bits_of d.size - 1)) v ≡ true = ground arith in
    let k : Number = record {
      base = 10;
      num = 2 ^ bits_of d.size - v;
      signal = true;
      upper = false;
      prefix = false;
    } in
    rw sign (put_number_lem d k 1 (omega arith) (omega arith) refl fits)

unsigned_lem :
    (args : Arguments) (d : Directive) (c base : ℕ) (upper : Bool) (pos : ℕ)
    → UnsignedConversion c base upper
    → length (text base (integer_at args d.size pos) false upper (zeros d 0)) ≤ 65
    → convert args d c pos
      ≡ some (text base (integer_at args d.size pos) false upper (zeros d 0), pos + words_of d.size)
unfolding convert
unsigned_lem args d _ _ _ pos decimal fits =
    ap (and_next (pos + words_of d.size)) (
      put_number_lem d (unsigned_number 117 args d.size pos) 0 (omega arith) (omega arith) refl
        fits)
unsigned_lem args d _ _ _ pos octal fits =
    ap (and_next (pos + words_of d.size)) (
      put_number_lem d (unsigned_number 111 args d.size pos) 0 (omega arith) (omega arith) refl
        fits)
unsigned_lem args d _ _ _ pos hexadecimal fits =
    ap (and_next (pos + words_of d.size)) (
      put_number_lem d (unsigned_number 120 args d.size pos) 0 (omega arith) (omega arith) refl
        fits)
unsigned_lem args d _ _ _ pos capital fits =
    ap (and_next (pos + words_of d.size)) (
      put_number_lem d (unsigned_number 88 args d.size pos) 0 (omega arith) (omega arith) refl fits)

other_lem : (c : ℕ) → is_conversion c ≡ false → (x : ℕ) → is_conversion x ≡ true → (c == x) ≡ false
other_lem c e x h = elim (Bool-cases (c == x)) [
  | inl same ↦ let eq : c ≡ x = ground arith in absurd (cc (ap is_conversion eq, e, h))
  | inr other ↦ other
]

pub Puts-convert :
    (args : Arguments) (d : Directive) (c pos : ℕ) (chars : List ℕ) (pos1 : ℕ)
    → Puts args d c pos chars pos1
    → convert args d c pos ≡ some (chars, pos1)
unfolding convert
Puts-convert args d _ _ _ _ (percent pos) = refl
Puts-convert args d _ _ _ _ (character pos) = ap (λ x. some (x ∷ [], pos + 1)) (omega arith)
Puts-convert args d _ _ _ _ (string_shown pos ne) = rw (==_of_ne ne) refl
Puts-convert args d _ _ _ _ (null_shown pos e) = rw e refl
Puts-convert args d _ _ _ _ (pointer pos fits) =
    ap (and_next (pos + 1))
      (put_number_lem d (pointer_number args pos) 2 (omega arith) (omega arith) refl fits)
Puts-convert args d _ _ _ _ (positive c pos letter small fits) =
    signed_lem args d c pos letter
    ∙ ap (and_next (pos + words_of d.size)) (positive_lem args d pos small fits)
Puts-convert args d _ _ _ _ (negative c pos letter large fits) =
    signed_lem args d c pos letter
    ∙ ap (and_next (pos + words_of d.size)) (negative_lem args d pos large fits)
Puts-convert args d _ _ _ _ (unsigned c base upper pos conversion fits) =
    unsigned_lem args d c base upper pos conversion fits
Puts-convert args d _ _ _ _ (unknown c pos e) =
    rw
      (
        other_lem c e 37 refl,
        other_lem c e 99 refl,
        other_lem c e 115 refl,
        other_lem c e 112 refl,
        other_lem c e 100 refl,
        other_lem c e 105 refl,
        other_lem c e 117 refl,
        other_lem c e 120 refl,
        other_lem c e 88 refl,
        other_lem c e 111 refl,
      )
      refl
