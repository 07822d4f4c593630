-- ===== src/Vsnprintf/Render.antt =====
-- `vsnprintf` of lib/src/vsnprintf.c against the text that a format stands for.
use gummy.Prelude.{ℕ, ◌-◌, ◌≡◌, ◌≢◌, false, List, [], ◌∷◌, ◌++◌, length}
use gummy.Queue.{Ptr}
use gummy.Memory.{Bytes, bytes_at}
use gummy.Memory.Copy.{within}
use gummy.Vsnprintf.{StringFormatter}
use gummy.Vsnprintf.Parse.{Arguments, Directive, read_directive}
use gummy.Vsnprintf.Conversion.{Puts}
use gummy.Vsnprintf.Limit.{take}

-- The text of a format, with the arguments from a position on: other characters stand for themselves,
-- a directive for what its conversion stands for, and a directive without a conversion ends the text.
pub data Renders (args : Arguments) : List ℕ → ℕ → List ℕ → Type 0 where
  finished : (pos : ℕ) → Renders args [] pos []
  literal :
      (c : ℕ) (cs : List ℕ) (pos : ℕ) (text : List ℕ)
      → c ≢ 37
      → Renders args cs pos text
      → Renders args (c ∷ cs) pos (c ∷ text)
  unfinished : (cs : List ℕ) (pos : ℕ) → (read_directive cs).1 ≡ [] → Renders args (37 ∷ cs) pos []
  converted :
      (cs : List ℕ) (d : Directive) (c : ℕ) (rest : List ℕ) (pos : ℕ) (chars : List ℕ) (pos1 : ℕ)
      (text : List ℕ)
      → read_directive cs ≡ (d, c ∷ rest)
      → Puts args d c pos chars pos1
      → Renders args rest pos1 text
      → Renders args (37 ∷ cs) pos (chars ++ text)

-- The bytes that a buffer of `n` bytes has room for, and the terminator.
abbrev pub truncated : ℕ → List ℕ → List ℕ
truncated n text = take (n - 1) text ++ 0 ∷ []

-- What `vsnprintf` does with a text: it returns the length, the buffer starts with the truncated text
-- and a 0, and bytes outside of the buffer are as they were.
pub record Formats (m : Bytes) (s : Ptr) (n : ℕ) (text : List ℕ) (result : ℕ × Bytes) : Type 0 where
  pub result_length : result.0 ≡ length text
  pub stored : bytes_at result.1 s (length (truncated n text)) ≡ truncated n text
  pub apart : (a : Ptr) → within s n a ≡ false → result.1 a ≡ m a

fresh : Bytes → Ptr → ℕ → StringFormatter
fresh m s n = record { out = s; index = 0; limit = n; memory = m }
