-- ===== src/Vsnprintf.antt =====
-- lib/src/vsnprintf.c. A format is the list of its characters, without the terminator, and so is the
-- string that a pointer shows: neither lies in the buffer. `va_list` is a position in the words of the
-- caller's stack (System V ABI, i386): an `int`, a `long` and a pointer are one word there and a
-- `long long` is two, the low one first. The characters that one directive puts are a list.
pub mod Parse
pub mod Limit
pub mod Render
pub mod Conversion
use gummy.Prelude.{
  ◌>>=◌, ℕ, zero, suc, ◌+◌, ◌-◌, ◌*◌, ◌/◌, ◌%◌, ◌^◌, Bool, true, false, not, ◌&&◌, ◌||◌, ◌==◌, ltb,
  leb, if◌then◌else◌, Option, none, some, List, [], ◌∷◌, ◌++◌, length,
}
use gummy.Queue.{Ptr, null, update}
use gummy.Memory.{Bytes, bytes_at}
use gummy.Strings.Itoa.{itoa}
use gummy.Vsnprintf.Parse.{Arguments, round}

-- `struct string_formatter`, and the memory that `out` points into.
pub record StringFormatter : Type 0 where
  pub out : Ptr
  pub index : ℕ
  pub limit : ℕ
  pub memory : Bytes

unfoldable pub put_char : StringFormatter → ℕ → StringFormatter
put_char f c =
    let room : Bool = not (f.out == null) && ltb 0 f.limit && ltb f.index (f.limit - 1) in
    record f {
      memory = if room then update f.memory (f.out + f.index) c else f.memory;
      index = (f.index + 1) % 2 ^ 32;
    }

unfoldable pub put_string : StringFormatter → List ℕ → StringFormatter
put_string f [] = f
put_string f (c ∷ cs) = put_string (put_char f c) cs

-- The loop over the format, on rounds left. `none`: a store beyond the buffer of a number.
unfoldable pub format_loop : Arguments → ℕ → List ℕ → ℕ → StringFormatter → Option StringFormatter
format_loop args zero format pos f = some f
format_loop args (suc n) [] pos f = some f
format_loop args (suc n) (c ∷ cs) pos f = do
  r ← round args c cs pos
  format_loop args n r.1 r.2 (put_string f r.0)

-- The terminator, and what the function returns.
abbrev pub terminate : Ptr → ℕ → StringFormatter → ℕ × Bytes
terminate s n f = (
  f.index,
  if not (s == null) && ltb 0 n
      then update f.memory (s + (if ltb f.index n then f.index else n - 1)) 0
      else f.memory,
)

-- The format is `none` for NULL; `-1` is the word 2 ^ 32 - 1.
unfoldable pub vsnprintf : Bytes → Ptr → ℕ → Option (List ℕ) → Arguments → Option (ℕ × Bytes)
vsnprintf m s n none args = some (2 ^ 32 - 1, m)
vsnprintf m s n (some format) args =
    let f : StringFormatter = record { out = s; index = 0; limit = n; memory = m } in
    let formatted : Option (ℕ × Bytes) = (do
      f1 ← format_loop args (length format) format 0 f
      some (terminate s n f1)) in
    if s == null && not (n == 0) then some (2 ^ 32 - 1, m) else formatted
