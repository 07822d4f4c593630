-- ===== src/Debug/Printk.antt =====
-- What `printk` of kernel/src/debug.c shows and sends.
use gummy.Prelude.{
  ℕ, ◌%◌, ◌^◌, ◌≡◌, false, ◌==◌, if◌then◌else◌, Option, some, List, [], ◌∷◌, length,
}
use gummy.Queue.{Ptr}
use gummy.Memory.{Bytes}
use gummy.Memory.Copy.{within}
use gummy.Terminal.{terminal_print_string}
use gummy.Devices.Serial.{com1}
use gummy.Devices.Serial.Write.{Sends}
use gummy.Vsnprintf.Limit.{take}
use gummy.Debug.{Console, buffer_size}

-- The characters before the first 0.
abbrev pub until_zero : List ℕ → List ℕ
until_zero [] = []
until_zero (c ∷ cs) = if c == 0 then [] else c ∷ until_zero cs

-- What the buffer of `printk` has room for.
abbrev pub shown : List ℕ → List ℕ
shown text = until_zero (take 255 text)

-- The bytes that are sent, the last one first, when more are sent.
abbrev pub sent_after : List ℕ → List ℕ → List ℕ
sent_after [] sent = sent
sent_after (a ∷ cs) sent = sent_after cs (a % 2 ^ 8 ∷ sent)

head_or : ℕ → List ℕ → ℕ
head_or a [] = a
head_or a (x ∷ xs) = x

tail : List ℕ → List ℕ
tail [] = []
tail (x ∷ xs) = xs

-- A console that has printed a string: the screen shows it, the port has sent it, the lock is free
-- again and the interrupts are as they were.
pub record Shows (c c' : Console) (cs sent : List ℕ) : Type 0 where
  pub screen : c'.terminal ≡ terminal_print_string c.terminal cs
  pub sends : Sends com1 c'.ports (sent_after cs sent)
  pub free : c'.debug_lock ≡ 0
  pub same_interrupts : c'.interrupts ≡ c.interrupts

-- What `printk` leads to: it returns the length of the text, shows and sends what fits of it in
-- 255 characters and stands before a 0, and changes no byte outside of its buffer.
abbrev pub Prints : Bytes → Ptr → Console → List ℕ → List ℕ → Option (ℕ × Bytes × Console) → Type 0
Prints m buffer c text sent result =
    (m' : Bytes) × (c' : Console) × (result ≡ some (length text, m', c'))
    × Shows c c' (shown text) sent
    × ((a : Ptr) → within buffer buffer_size a ≡ false → m' a ≡ m a)
