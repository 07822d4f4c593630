-- ===== src/Devices.antt =====
-- The device drivers of the kernel, on ports: kernel/include/arch/i686/io.h and what io.asm does of it.
-- Writes to ports are recorded in order, the last one first. What a read returns is up to the hardware,
-- which is a parameter: it knows the writes and the number of the reads before.
pub mod Pic
pub mod Pit
pub mod Serial
use gummy.Prelude.{ℕ, ◌+◌, ◌%◌, ◌^◌, List, [], ◌∷◌}

pub record Ports : Type 0 where
  pub writes : List (ℕ × ℕ)
  pub reads : ℕ

-- What a read of a port returns, after these writes and after as many reads.
abbrev pub Hardware : Type 0
Hardware = List (ℕ × ℕ) → ℕ → ℕ → ℕ

-- The port is a word of 16 bits, and the value a byte.
abbrev pub outb : Ports → ℕ → ℕ → Ports
outb p port value = record p { writes = (port % 2 ^ 16, value % 2 ^ 8) ∷ p.writes }

abbrev pub inb : Hardware → Ports → ℕ → ℕ × Ports
inb hardware p port =
    (hardware p.writes p.reads (port % 2 ^ 16) % 2 ^ 8, record p { reads = p.reads + 1 })

-- A delay: a write to a port that nothing uses.
abbrev pub io_wait : Ports → Ports
io_wait p = outb p 0x80 0
