-- ===== src/Devices/Pit/Channel.antt =====
-- How the writes of kernel/src/pit.c program a channel of the timer chip, as its data sheet tells.
use gummy.Prelude.{
  ℕ, ◌+◌, ◌*◌, ◌/◌, ◌%◌, ◌^◌, ◌<◌, ◌≡◌, refl, arith, Bool, true, false, ◌&&◌, ltb, ◌==◌,
  if◌then◌else◌, List, [], ◌∷◌, Option, none, some, bit_and, bit_or, ap, ◌∙◌, ==_refl, ==_of_ne,
}
use gummy.Bitmap.Bits.{passes, passes_at}
use gummy.Devices.{Ports}
use gummy.Devices.Pit.{program_channel}

-- The mode and the count of a channel.
pub record Channel : Type 0 where
  pub mode : ℕ
  pub count : ℕ

-- The last three writes to the chip, if they are a command for the channel that asks for both bytes of the
-- count and these two bytes, the low one first.
abbrev pub loaded : ℕ → ℕ × ℕ → ℕ × ℕ → ℕ × ℕ → Option Channel
loaded channel (c, command) (a, low) (b, high) =
    if c == 0x43
      && a == 0x40 + channel
      && b == 0x40 + channel
      && command / 64 == channel
      && command / 16 % 4 == 3
    then some (record { mode = command / 2 % 8; count = high * 256 + low })
    else none

-- How a channel was programmed last; writes to other ports are skipped.
abbrev pub programmed : ℕ → List (ℕ × ℕ) → Option Channel
programmed channel [] = none
programmed channel (b ∷ []) = none
programmed channel (b ∷ a ∷ []) = none
programmed channel (b ∷ a ∷ c ∷ writes) =
    let rest : Option Channel = programmed channel (a ∷ c ∷ writes) in
    if b.0 == 0x40 + channel then loaded channel c a b else rest

abbrev pub command_of : ℕ → ℕ → ℕ
command_of channel mode = bit_or (bit_or (channel * 2 ^ 6) 0x30) (bit_and mode 0x0e)

command_fact : ℕ → ℕ → Bool
command_fact channel mode =
    let command = command_of channel mode in
    command / 64 == channel
    && command / 16 % 4 == 3
    && command / 2 % 8 == mode / 2 % 8
    && ltb command 256

command_table : passes (λ channel. passes (command_fact channel) 256) 3 ≡ true
unfolding passes command_fact
command_table = refl

command_lem : (channel mode : ℕ) → channel < 3 → mode < 256 → command_fact channel mode ≡ true
command_lem channel mode c l = passes_at _ 256 mode l (passes_at _ 3 channel c command_table)

pub command_unfold :
    (channel mode : ℕ)
    → channel < 3
    → mode < 256
    → ((command_of channel mode / 64 == channel) ≡ true)
      × ((command_of channel mode / 16 % 4 == 3) ≡ true)
      × (command_of channel mode / 2 % 8 ≡ mode / 2 % 8)
      × (command_of channel mode < 256)
unfolding command_fact
command_unfold channel mode c l = ground (arith, command_lem channel mode c l)

pub program_channel-writes :
    (p : Ports) (channel divisor mode : ℕ)
    → channel < 3
    → divisor < 2 ^ 16
    → mode < 256
    → (program_channel p channel divisor mode).writes
      ≡ (0x40 + channel, divisor / 2 ^ 8)
        ∷ (0x40 + channel, divisor % 2 ^ 8)
        ∷ (0x43, command_of channel mode)
        ∷ p.writes
program_channel-writes p channel divisor mode c d l =
    let (_, _, _, byte) = command_unfold channel mode c l in
    let port : (channel + 0x40) % 2 ^ 16 ≡ 0x40 + channel = omega (arith, c) in
    let high : divisor / 2 ^ 8 % 2 ^ 8 % 2 ^ 8 ≡ divisor / 2 ^ 8 = omega (arith, d) in
    let low : divisor % 2 ^ 8 % 2 ^ 8 ≡ divisor % 2 ^ 8 = omega arith in
    let command : command_of channel mode % 2 ^ 8 ≡ command_of channel mode = omega (arith, byte) in
    rw (port, high, low, command) refl

pub program_channel-programmed :
    (p : Ports) (channel divisor mode : ℕ)
    → channel < 3
    → divisor < 2 ^ 16
    → mode < 256
    → programmed channel (program_channel p channel divisor mode).writes
      ≡ some (record { mode = mode / 2 % 8; count = divisor })
program_channel-programmed p channel divisor mode c d l =
    let (own, both, same_mode, _) = command_unfold channel mode c l in
    let count : divisor / 2 ^ 8 * 256 + divisor % 2 ^ 8 ≡ divisor = omega arith in
    ap (programmed channel) (program_channel-writes p channel divisor mode c d l)
    ∙ rw (==_refl, own, both, same_mode, count) refl

-- A write to a port of the interrupt controllers is skipped.
pub skip-programmed :
    (channel port value : ℕ) (b a c : ℕ × ℕ) (writes : List (ℕ × ℕ))
    → port < 0x40
    → programmed channel ((port, value) ∷ b ∷ a ∷ c ∷ writes)
      ≡ programmed channel (b ∷ a ∷ c ∷ writes)
skip-programmed channel port value b a c writes l =
    let e : (port == 0x40 + channel) ≡ false = ==_of_ne (λ e. omega (arith, e, l)) in rw e refl
