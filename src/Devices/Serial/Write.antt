-- ===== src/Devices/Serial/Write.antt =====
-- What `write_serial` of kernel/src/serial.c sends.
use gummy.Prelude.{
  ℕ, zero, suc, ◌+◌, ◌%◌, ◌^◌, ◌≤◌, ◌<◌, ◌≡◌, refl, arith, true, false, ◌==◌, bit_and, some, List,
  ◌∷◌, Bool-cases, inl, inr, ap, ◌∙◌, sym,
}
use gummy.Devices.{Ports, Hardware, outb}
use gummy.Devices.Serial.{wait_empty, write_serial}
use gummy.Devices.Serial.Uart.{Uart, uart, has_latch, register_write, is_open, outb-uart}

-- The transmitter is empty after at most `k` more reads.
abbrev pub EmptiesWithin : Hardware → ℕ → ℕ → Type 0
EmptiesWithin hardware port k =
    (writes : List (ℕ × ℕ)) (reads : ℕ)
    → (j : ℕ) × (j ≤ k)
      × ((bit_and (hardware writes (reads + j) ((port + 5) % 2 ^ 16) % 2 ^ 8) 0x20 == 0) ≡ false)

wait_empty_lem :
    (hardware : Hardware) (port fuel j : ℕ) (p : Ports)
    → j < fuel
    → (bit_and (hardware p.writes (p.reads + j) ((port + 5) % 2 ^ 16) % 2 ^ 8) 0x20 == 0) ≡ false
    → (reads : ℕ) × (wait_empty fuel hardware p port ≡ some (record p { reads = reads }))
unfolding wait_empty
wait_empty_lem hardware port zero j p l e = absurd (omega arith)
wait_empty_lem hardware port (suc fuel) zero p l e =
    let first : p.reads + 0 ≡ p.reads = omega arith in
    let empty : (bit_and (hardware p.writes p.reads ((port + 5) % 2 ^ 16) % 2 ^ 8) 0x20 == 0)
        ≡ false =
      rw (← first) e in
    (p.reads + 1, rw empty refl)
wait_empty_lem hardware port (suc fuel) (suc j) p l e =
    elim (Bool-cases
      (bit_and (hardware p.writes p.reads ((port + 5) % 2 ^ 16) % 2 ^ 8) 0x20 == 0)) [
        | inl busy ↦
            let p1 : Ports = record p { reads = p.reads + 1 } in
            let same : p.reads + 1 + j ≡ p.reads + suc j = omega arith in
            let (reads, found) =
              wait_empty_lem hardware port fuel j p1 (omega (arith, l)) (rw same e) in
            (reads, rw busy found)
        | inr empty ↦ (p.reads + 1, rw empty refl)
      ]

-- A port that is open, with the bytes that it has sent.
pub record Sends (port : ℕ) (p : Ports) (sent : List ℕ) : Type 0 where
  pub opens : is_open (uart port p.writes) ≡ true
  pub bytes : (uart port p.writes).sent ≡ sent

register-Sends :
    (u : Uart) (value : ℕ)
    → is_open u ≡ true
    → register_write u 0 value ≡ record u { sent = value ∷ u.sent }
register-Sends u value e =
    let latch : has_latch u ≡ false = ground arith in
    let loop : u.loopback ≡ false = ground arith in rw (latch, loop) refl

-- With a transmitter that empties and fuel for the reads that this takes, `write_serial` sends the byte.
pub write_serial-Sends :
    (fuel k port : ℕ) (hardware : Hardware) (p : Ports) (sent : List ℕ) (a : ℕ)
    → port + 8 < 2 ^ 16
    → EmptiesWithin hardware port k
    → k < fuel
    → Sends port p sent
    → (p' : Ports) × (write_serial fuel hardware p port a ≡ some p')
      × Sends port p' (a % 2 ^ 8 ∷ sent)
unfolding write_serial
write_serial-Sends fuel k port hardware p sent a room empties enough s =
    let (j, few, e) = empties p.writes p.reads in
    let (reads, found) = wait_empty_lem hardware port fuel j p (omega (arith, few, enough)) e in
    let p1 : Ports = record p { reads = reads } in
    let first : port + 0 ≡ port = omega arith in
    let after : uart port (outb p1 port a).writes
        ≡ record (uart port p.writes) { sent = a % 2 ^ 8 ∷ (uart port p.writes).sent } =
      ap (λ b. uart port (outb p1 b a).writes) (sym first)
      ∙ outb-uart p1 port 0 a room (omega arith)
      ∙ register-Sends (uart port p.writes) (a % 2 ^ 8) s.opens in
    (
      outb p1 port a,
      rw found refl,
      record {
        opens = ap is_open after ∙ s.opens;
        bytes = ap (λ u. u.sent) after ∙ ap (λ bs. a % 2 ^ 8 ∷ bs) s.bytes;
      },
    )
