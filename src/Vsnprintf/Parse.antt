-- ===== src/Vsnprintf/Parse.antt =====
-- One directive of a format: lib/src/vsnprintf.c, between a `%` and the next character to print.
use gummy.Prelude.{
  ◌>>=◌, Option, none, some, ℕ, ◌+◌, ◌-◌, ◌*◌, ◌/◌, ◌%◌, ◌^◌, Bool, true, false, ◌&&◌, ◌||◌, ◌==◌,
  ltb, leb, if◌then◌else◌, List, [], ◌∷◌, ◌++◌,
}
use gummy.Queue.{Ptr, null}
use gummy.Memory.{bytes_at}
use gummy.Strings.Itoa.{itoa}

-- `format_size_t`
pub data FormatSize : Type 0 where
  size_normal size_h size_hh size_l size_ll : FormatSize

-- The words of the arguments from the first one on, and the string at an address.
pub record Arguments : Type 0 where
  pub word : ℕ → ℕ
  pub string : Ptr → List ℕ

-- What stands between the `%` and the conversion.
pub record Directive : Type 0 where
  pub zero_flag : Bool
  pub width : ℕ
  pub size : FormatSize

abbrev pub is_digit : ℕ → Bool
is_digit c = leb 48 c && leb c 57

-- `width * 10 + digit`, or UINT32_MAX where that is more.
abbrev pub next_width : ℕ → ℕ → ℕ
next_width width digit =
    if leb width ((2 ^ 32 - 1 - digit) / 10) then width * 10 + digit else 2 ^ 32 - 1

unfoldable pub read_width : ℕ → List ℕ → ℕ × List ℕ
read_width width [] = (width, [])
read_width width (c ∷ cs) =
    let rest : ℕ × List ℕ = read_width (next_width width (c - 48)) cs in
    if is_digit c then rest else (width, c ∷ cs)

abbrev pub read_flag : List ℕ → Bool × List ℕ
read_flag [] = (false, [])
read_flag (c ∷ cs) = if c == 48 then (true, cs) else (false, c ∷ cs)

-- `short` and `long` are what one `h` or `l` means, the others what two mean.
abbrev pub second_letter : ℕ → FormatSize → FormatSize → List ℕ → FormatSize × List ℕ
second_letter letter one two [] = (one, [])
second_letter letter one two (c ∷ cs) = if c == letter then (two, cs) else (one, c ∷ cs)

abbrev pub read_size : List ℕ → FormatSize × List ℕ
read_size [] = (size_normal, [])
read_size (c ∷ cs) =
    if c == 104
    then second_letter 104 size_h size_hh cs
    else if c == 108
    then second_letter 108 size_l size_ll cs
    else (size_normal, c ∷ cs)

-- The directive and what follows it.
unfoldable pub read_directive : List ℕ → Directive × List ℕ
read_directive cs =
    let (zero_flag, cs1) = read_flag cs in
    let (width, cs2) = read_width 0 cs1 in
    let (size, cs3) = read_size cs2 in
    (record { zero_flag = zero_flag; width = width; size = size }, cs3)

-- The number of words that an integer of a size takes, and its bits.
abbrev pub words_of : FormatSize → ℕ
words_of size_normal = 1
words_of size_h = 1
words_of size_hh = 1
words_of size_l = 1
words_of size_ll = 2

abbrev pub bits_of : FormatSize → ℕ
bits_of size_normal = 32
bits_of size_h = 16
bits_of size_hh = 8
bits_of size_l = 32
bits_of size_ll = 64

-- The integer argument at a position, converted to the unsigned type of the size.
abbrev pub integer_at : Arguments → FormatSize → ℕ → ℕ
integer_at args size pos =
    (args.word pos % 2 ^ 32 + 2 ^ 32 * (args.word (pos + 1) % 2 ^ 32)) % 2 ^ bits_of size

-- The value is negative, for an integer of a number of bits.
abbrev pub is_negative : ℕ → ℕ → Bool
is_negative bits v = leb (2 ^ (bits - 1)) v

-- `num`: the absolute value.
abbrev pub magnitude : ℕ → ℕ → ℕ
magnitude bits v = if is_negative bits v then 2 ^ bits - v else v

-- What the switch on the conversion sets for a number.
pub record Number : Type 0 where
  pub base : ℕ
  pub num : ℕ
  pub signal : Bool
  pub upper : Bool
  pub prefix : Bool

unfoldable pub digit_width : Directive → Number → ℕ
digit_width d k =
    let extra : ℕ = (if k.signal then 1 else 0) + (if k.prefix then 2 else 0) in
    if d.zero_flag && ltb 0 d.width && ltb extra d.width then d.width - extra else 0

-- `put_number`: the characters that `itoa` leaves in the local buffer of 66 bytes, which is a memory of
-- its own. `none`: `itoa` stores more, beyond the buffer.
unfoldable pub number_text : ℕ → Number → Option (List ℕ)
number_text zero_pad k =
    let (len, buffer) = itoa (λ a. 0) 0 k.base k.num k.signal k.upper zero_pad in
    if ltb 66 (len + 1) then none else some (if ltb 0 len then bytes_at buffer 0 len else [])

-- "0x"
abbrev pub prefix_text : Bool → List ℕ
prefix_text prefix = if prefix then 48 ∷ 120 ∷ [] else []

-- The characters of a number, with its prefix `0x`.
unfoldable pub put_number : Directive → Number → Option (List ℕ)
put_number d k = do chars ← number_text (digit_width d k) k; some (prefix_text k.prefix ++ chars)

abbrev pub and_next : ℕ → Option (List ℕ) → Option (List ℕ × ℕ)
and_next pos none = none
and_next pos (some chars) = some (chars, pos)

abbrev pub signed_number : Arguments → FormatSize → ℕ → Number
signed_number args size pos =
    let v : ℕ = integer_at args size pos in
    record {
      base = 10;
      num = magnitude (bits_of size) v;
      signal = is_negative (bits_of size) v;
      upper = false;
      prefix = false;
    }

abbrev pub unsigned_number : ℕ → Arguments → FormatSize → ℕ → Number
unsigned_number c args size pos = record {
  base = if c == 120 || c == 88 then 16 else if c == 111 then 8 else 10;
  num = integer_at args size pos;
  signal = false;
  upper = c == 88;
  prefix = false;
}

abbrev pub pointer_number : Arguments → ℕ → Number
pointer_number args pos = record {
  base = 16;
  num = args.word pos % 2 ^ 32;
  signal = false;
  upper = false;
  prefix = true;
}

-- "(null)"
abbrev pub null_text : List ℕ
null_text = 40 ∷ 110 ∷ 117 ∷ 108 ∷ 108 ∷ 41 ∷ []

-- The switch on the conversion `c`: the characters put and the position of the next argument.
unfoldable pub convert : Arguments → Directive → ℕ → ℕ → Option (List ℕ × ℕ)
convert args d c pos =
    let one : ℕ = args.word pos % 2 ^ 32 in
    let next : ℕ = pos + words_of d.size in
    if c == 37
    then some (37 ∷ [], pos)
    else if c == 99
    then some (one % 256 ∷ [], pos + 1)
    else if c == 115
    then some (if one == null then null_text else args.string one, pos + 1)
    else if c == 112
    then and_next (pos + 1) (put_number d (pointer_number args pos))
    else if c == 100 || c == 105
    then and_next next (put_number d (signed_number args d.size pos))
    else if c == 117 || c == 120 || c == 88 || c == 111
    then and_next next (put_number d (unsigned_number c args d.size pos))
    else some (37 ∷ c ∷ [], pos)

abbrev pub and_rest : List ℕ → Option (List ℕ × ℕ) → Option (List ℕ × List ℕ × ℕ)
and_rest cs none = none
and_rest cs (some (chars, pos)) = some (chars, cs, pos)

-- From the conversion on; nothing is left to print when the format ends before it.
abbrev pub directive : Arguments → Directive → List ℕ → ℕ → Option (List ℕ × List ℕ × ℕ)
directive args d [] pos = some ([], [], pos)
directive args d (c ∷ cs) pos = and_rest cs (convert args d c pos)

-- One round of the loop over the format: the characters put, the rest of the format and the position
-- of the next argument.
unfoldable pub round : Arguments → ℕ → List ℕ → ℕ → Option (List ℕ × List ℕ × ℕ)
round args c cs pos =
    let (d, cs1) = read_directive cs in
    if c == 37 then directive args d cs1 pos else some (c ∷ [], cs, pos)
