-- ===== src/Devices/Pit.antt =====
-- The timer chip: kernel/src/pit.c and kernel/include/pit.h.
pub mod Channel
pub mod Program
use gummy.Prelude.{
  Bool, ℕ, ◌+◌, ◌*◌, ◌/◌, ◌%◌, ◌^◌, ◌==◌, ◌||◌, ltb, if◌then◌else◌, bit_and, bit_or,
}
use gummy.Devices.{Ports, Hardware, outb}
use gummy.Devices.Pic.{pic_irq_set_mask, pic_irq_clear_mask}

abbrev pub pit_base_frequency : ℕ
pit_base_frequency = 1193182

abbrev pub pit_cmd : ℕ
pit_cmd = 0x43

-- `divisor == 0 || divisor > 0xFFFF`
abbrev pub no_divisor : ℕ → Bool
no_divisor divisor = divisor == 0 || ltb 0xffff divisor

-- The writes to the chip, in the order of the source.
abbrev pub program_channel : Ports → ℕ → ℕ → ℕ → Ports
program_channel p channel divisor mode =
    let command : ℕ = bit_or (bit_or (channel * 2 ^ 6) 0x30) (bit_and mode 0x0e) in
    let port : ℕ = channel + 0x40 in
    outb (outb (outb p pit_cmd command) port (divisor % 2 ^ 8)) port (divisor / 2 ^ 8 % 2 ^ 8)

unfoldable pub pit_set_frequency : Hardware → Ports → ℕ → ℕ → ℕ → Ports
pit_set_frequency hardware p channel frequency mode =
    let divisor : ℕ = pit_base_frequency / frequency in
    if ltb 2 channel || frequency == 0
    then p
    else if no_divisor divisor
    then p
    else if channel == 0
    then pic_irq_clear_mask hardware
        (program_channel (pic_irq_set_mask hardware p 0) channel divisor mode) 0
    else program_channel p channel divisor mode
