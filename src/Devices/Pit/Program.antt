-- ===== src/Devices/Pit/Program.antt =====
-- What `pit_set_frequency` of kernel/src/pit.c makes of the timer chip and of the masks.
use native.Mathlib.Nat.{le-div_iff_mul-le, div-lt_iff_lt-mul}
use gummy.Prelude.{
  ℕ, ◌+◌, ◌/◌, ◌%◌, ◌^◌, ◌≤◌, ◌<◌, ◌≡◌, refl, arith, Bool, true, false, not, ◌&&◌, ◌||◌, ltb, leb,
  ◌==◌, if◌then◌else◌, ◌∷◌, some, Bool-cases, ◌↔◌, ap, ◌∙◌, sym, inl, inr,
}
use gummy.Devices.{Ports, Hardware, outb}
use gummy.Devices.Pic.{pic_irq_set_mask, pic_irq_clear_mask}
use gummy.Devices.Pic.Masks.{
  ReturnsMasks, is_masked, MasksAre, other-MasksAre, set-MasksAre, clear-MasksAre,
}
use gummy.Devices.Pit.{pit_base_frequency, pit_cmd, no_divisor, program_channel, pit_set_frequency}
use gummy.Devices.Pit.Channel.{
  programmed, command_of, command_unfold, program_channel-writes, program_channel-programmed,
  skip-programmed,
}

-- The calls that `pit_set_frequency` does not return from at once.
abbrev pub accepts : ℕ → ℕ → Bool
accepts channel frequency = leb channel 2 && leb 19 frequency

divisor_bounds :
    (frequency : ℕ)
    → 0 < frequency
    → frequency < 2 ^ 16
    → (0 < pit_base_frequency / frequency)
      × ((pit_base_frequency / frequency < 2 ^ 16) ↔ (19 ≤ frequency))
divisor_bounds frequency some_frequency word =
    let above = le-div_iff_mul-le {k = frequency} {x = 1} {y = pit_base_frequency} some_frequency in
    let below =
      div-lt_iff_lt-mul {k = frequency} {x = pit_base_frequency} {y = 2 ^ 16} some_frequency in
    (
      above.1 (omega (arith, word)),
      (λ l. omega (arith, below.0 l), λ l. below.1 (omega (arith, l))),
    )

no_divisor_lem :
    (frequency : ℕ)
    → 0 < frequency
    → frequency < 2 ^ 16
    → no_divisor (pit_base_frequency / frequency) ≡ not (leb 19 frequency)
no_divisor_lem frequency some_frequency word =
    let (some_divisor, small) = divisor_bounds frequency some_frequency word in
    ground (arith, some_divisor, small)

program_channel-MasksAre :
    (before p : Ports) (masked : ℕ → Bool) (channel divisor mode : ℕ)
    → MasksAre before p masked
    → channel < 3
    → mode < 256
    → MasksAre before (program_channel p channel divisor mode) masked
program_channel-MasksAre before p masked channel divisor mode m c l =
    let (_, _, _, byte) = command_unfold channel mode c l in
    let port : (q : Ports) (value : ℕ)
        → value < 2 ^ 8
        → MasksAre before q masked
        → MasksAre before (outb q (channel + 0x40) value) masked =
      λ q value v n.
        other-MasksAre before q masked (channel + 0x40) value n (omega (arith, c)) v
          (omega (arith, c)) (omega (arith, c)) (ground (arith, c)) in
    port _ _ (omega arith) (
      port _ _ (omega arith) (
        other-MasksAre before p masked pit_cmd (command_of channel mode) m (omega arith) byte
          (omega arith) (omega arith) refl))

-- What the call leads to: the writes of the chip, and the masks.
abbrev pub Programs : Ports → (ℕ → Bool) → ℕ → ℕ → ℕ → Ports → Type 0
Programs p masked channel frequency mode p' =
    (programmed channel p'.writes ≡ (
      if accepts channel frequency
      then some (record { mode = mode / 2 % 8; count = pit_base_frequency / frequency })
      else programmed channel p.writes))
    × ((irq : ℕ)
        → irq < 16
        → is_masked p'.writes irq
          ≡ (not (accepts channel frequency && channel == 0 && irq == 0) && masked irq))

module _ (hardware : Hardware) (before p : Ports) (masked : ℕ → Bool) (channel frequency mode : ℕ)
    (real : ReturnsMasks hardware before) (m : MasksAre before p masked) (word : frequency < 2 ^ 16)
    (byte : mode < 2 ^ 8) where
  refused :
      accepts channel frequency ≡ false → pit_set_frequency hardware p channel frequency mode ≡ p
  unfolding pit_set_frequency
  refused rejects = elim (Bool-cases (ltb 2 channel || frequency == 0)) [
    | inl early ↦ rw early refl
    | inr late ↦
        let e : no_divisor (pit_base_frequency / frequency) ≡ true =
          no_divisor_lem frequency (ground arith) word ∙ ground arith in
        rw (late, e) refl
  ]

  abbrev divisor : ℕ
  divisor = pit_base_frequency / frequency

  module _ (allowed : accepts channel frequency ≡ true) where
    few : channel < 3
    few = ground arith

    small : divisor < 2 ^ 16
    small = (divisor_bounds frequency (ground arith) word).1.1 (ground arith)

    accepted-0 :
        (channel == 0) ≡ true
        → pit_set_frequency hardware p channel frequency mode
          ≡ pic_irq_clear_mask hardware
              (program_channel (pic_irq_set_mask hardware p 0) channel divisor mode)
              0
    unfolding pit_set_frequency
    accepted-0 first =
        let late : (ltb 2 channel || frequency == 0) ≡ false = ground arith in
        let e : no_divisor divisor ≡ false =
          no_divisor_lem frequency (ground arith) word ∙ ground arith in
        rw (late, e, first) refl

    accepted-other :
        (channel == 0) ≡ false
        → pit_set_frequency hardware p channel frequency mode
          ≡ program_channel p channel divisor mode
    unfolding pit_set_frequency
    accepted-other other =
        let late : (ltb 2 channel || frequency == 0) ≡ false = ground arith in
        let e : no_divisor divisor ≡ false =
          no_divisor_lem frequency (ground arith) word ∙ ground arith in
        rw (late, e, other) refl

    -- A write to the mask of the first controller is skipped.
    mask-programmed :
        (q : Ports) (value : ℕ)
        → programmed channel ((0x21, value) ∷ (program_channel q channel divisor mode).writes)
          ≡ some (record { mode = mode / 2 % 8; count = divisor })
    mask-programmed q value =
        let e = program_channel-writes q channel divisor mode few small byte in
        ap (λ ws. programmed channel ((0x21, value) ∷ ws)) e
        ∙ skip-programmed channel 0x21 value (0x40 + channel, divisor / 2 ^ 8)
            (0x40 + channel, divisor % 2 ^ 8) (0x43, command_of channel mode) q.writes (omega arith)
        ∙ ap (programmed channel) (sym e)
        ∙ program_channel-programmed q channel divisor mode few small byte

    clear-programmed :
        (q : Ports)
        → programmed channel
            (pic_irq_clear_mask hardware (program_channel q channel divisor mode) 0).writes
          ≡ some (record { mode = mode / 2 % 8; count = divisor })
    unfolding pic_irq_clear_mask
    clear-programmed q = mask-programmed q _

    accepted-Programs :
        Programs p masked channel frequency mode
          (pit_set_frequency hardware p channel frequency mode)
    accepted-Programs = elim (Bool-cases (channel == 0)) [
      | inl first ↦
          let after =
            clear-MasksAre hardware before _ _ 0 real
              (program_channel-MasksAre before _ _ channel divisor mode
                (set-MasksAre hardware before p masked 0 real m (omega arith)) few byte)
              (omega arith) in
          rw (accepted-0 first, allowed)
            (
              clear-programmed (pic_irq_set_mask hardware p 0),
              λ irq l. after.agree irq l ∙ ground arith,
            )
      | inr other ↦
          rw (accepted-other other, allowed)
            (
              program_channel-programmed p channel divisor mode few small byte,
              λ irq l.
                  (program_channel-MasksAre before p masked channel divisor mode m few byte).agree
                    irq l
                  ∙ ground arith,
            )
    ]

-- With controllers that return the mask that was written last, `pit_set_frequency` with a channel up to 2
-- and a frequency from 19 to 65535 programs the channel with the mode and with the whole number of
-- ticks of the chip in a period, and unmasks interrupt 0 if the channel is 0 and no other interrupt;
-- with another channel or frequency it changes neither.
pub pit_set_frequency-Programs :
    (hardware : Hardware) (before p : Ports) (masked : ℕ → Bool) (channel frequency mode : ℕ)
    → ReturnsMasks hardware before
    → MasksAre before p masked
    → frequency < 2 ^ 16
    → mode < 2 ^ 8
    → Programs p masked channel frequency mode (pit_set_frequency hardware p channel frequency mode)
pit_set_frequency-Programs hardware before p masked channel frequency mode real m word byte =
    elim (Bool-cases (accepts channel frequency)) [
      | inl allowed ↦
          accepted-Programs hardware before p masked channel frequency mode real m word byte allowed
      | inr rejects ↦
          rw
            (
              refused hardware before p masked channel frequency mode real m word byte rejects,
              rejects,
            )
            (refl, λ irq l. m.agree irq l)
    ]
