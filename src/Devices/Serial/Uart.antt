-- ===== src/Devices/Serial/Uart.antt =====
-- What the writes of kernel/src/serial.c make of a serial port, as its data sheet tells.
use gummy.Prelude.{
  ◌||◌, ℕ, ◌+◌, ◌-◌, ◌*◌, ◌/◌, ◌%◌, ◌^◌, ◌<◌, ◌≡◌, refl, arith, Bool, true, false, not, ◌==◌, ◌&&◌,
  leb, ltb, if◌then◌else◌, List, [], ◌∷◌, Bool-cases, ◌⊎◌, inl, inr, ap, ◌∙◌,
}
use mathlib.Core.Path.{subst}
use gummy.Devices.{Ports, Hardware, outb, inb}
use gummy.Devices.Serial.{com1, com2, com3, com4, com_base_freq, is_refused, set_up, serial_init}

-- The registers of a port, and the bytes that it has sent, the last one first.
pub record Uart : Type 0 where
  pub low : ℕ
  pub high : ℕ
  pub line_control : ℕ
  pub loopback : Bool
  pub sent : List ℕ

-- While the highest bit of the line control is set, the first two registers are the divisor.
abbrev pub has_latch : Uart → Bool
has_latch u = leb 128 u.line_control

-- A write to one of the registers.
abbrev pub register_write : Uart → ℕ → ℕ → Uart
register_write u register value =
    if register == 0
    then (if has_latch u
        then record u { low = value }
        else if u.loopback
        then u
        else record u { sent = value ∷ u.sent })
    else if register == 1 && has_latch u
    then record u { high = value }
    else if register == 3
    then record u { line_control = value }
    else if register == 4
    then record u { loopback = not (value / 16 % 2 == 0) }
    else u

-- The registers after writes, which the port was reset before; its first register is at `base`.
abbrev pub uart : ℕ → List (ℕ × ℕ) → Uart
uart base [] = record { low = 0; high = 0; line_control = 0; loopback = false; sent = [] }
uart base ((port, value) ∷ writes) =
    if leb base port && ltb port (base + 8)
    then register_write (uart base writes) (port - base) value
    else uart base writes

-- It sends what is written to it.
abbrev pub is_open : Uart → Bool
is_open u = not (has_latch u) && not u.loopback

-- Set up with a divisor, for 8 bits without parity, with the bytes sent that were sent before.
pub record IsSetUp (u u' : Uart) (divisor : ℕ) (opened : Bool) : Type 0 where
  pub same_divisor : u'.high * 256 + u'.low ≡ divisor
  pub format : u'.line_control ≡ 3
  pub opens : is_open u' ≡ opened
  pub same_sent : u'.sent ≡ u.sent

-- Writes to registers, in order.
abbrev run_writes : Ports → ℕ → List (ℕ × ℕ) → Ports
run_writes p port [] = p
run_writes p port ((register, value) ∷ ws) = run_writes (outb p (port + register) value) port ws

abbrev run_registers : Uart → List (ℕ × ℕ) → Uart
run_registers u [] = u
run_registers u ((register, value) ∷ ws) =
    run_registers (register_write u register (value % 2 ^ 8)) ws

abbrev are_registers : List (ℕ × ℕ) → Bool
are_registers [] = true
are_registers ((register, value) ∷ ws) = ltb register 8 && are_registers ws

pub outb-uart :
    (p : Ports) (port register value : ℕ)
    → port + 8 < 2 ^ 16
    → register < 8
    → uart port (outb p (port + register) value).writes
      ≡ register_write (uart port p.writes) register (value % 2 ^ 8)
outb-uart p port register value l r =
    let word : (port + register) % 2 ^ 16 ≡ port + register = omega (arith, l, r) in
    let inside : (leb port (port + register) && ltb (port + register) (port + 8)) ≡ true =
      ground (arith, r) in
    let offset : port + register - port ≡ register = omega arith in rw (word, inside, offset) refl

run_writes-uart :
    (p : Ports) (port : ℕ) (ws : List (ℕ × ℕ))
    → port + 8 < 2 ^ 16
    → are_registers ws ≡ true
    → uart port (run_writes p port ws).writes ≡ run_registers (uart port p.writes) ws
run_writes-uart p port [] l r = refl
run_writes-uart p port ((register, value) ∷ ws) l r =
    run_writes-uart (outb p (port + register) value) port ws l (ground arith)
    ∙ ap (λ u. run_registers u ws) (outb-uart p port register value l (ground arith))

-- The registers that `serial_init` writes for a divisor, before the test byte.
abbrev set_up_registers : ℕ → List (ℕ × ℕ)
set_up_registers divisor =
    (3, 0x80)
    ∷ (0, divisor % 2 ^ 8)
    ∷ (1, divisor / 2 ^ 8 % 2 ^ 8)
    ∷ (3, 0x03)
    ∷ (2, 0xc7)
    ∷ (4, 0x0b)
    ∷ (4, 0x1e)
    ∷ []

set_up-uart :
    (p : Ports) (port baudrate : ℕ)
    → port + 8 < 2 ^ 16
    → uart port (set_up p port baudrate).writes ≡ record (uart port p.writes) {
      low = com_base_freq / baudrate % 2 ^ 16 % 2 ^ 8 % 2 ^ 8;
      high = com_base_freq / baudrate % 2 ^ 16 / 2 ^ 8 % 2 ^ 8 % 2 ^ 8;
      line_control = 3;
      loopback = true;
    }
set_up-uart p port baudrate l =
    let divisor : ℕ = com_base_freq / baudrate % 2 ^ 16 in
    run_writes-uart p port
      ((3, 0x80)
        ∷ (0, divisor % 2 ^ 8)
        ∷ (1, divisor / 2 ^ 8 % 2 ^ 8)
        ∷ (3, 0x03)
        ∷ (2, 0xc7)
        ∷ (4, 0x0b)
        ∷ (4, 0x1e)
        ∷ (0, 0xae)
        ∷ [])
      l refl

valid_port : (port baudrate : ℕ) → is_refused port baudrate ≡ false → port + 8 < 2 ^ 16
valid_port port baudrate e = ground arith

-- The bit rate is a positive `int` and the port one of the four.
abbrev pub IsAccepted : ℕ → ℕ → Type 0
IsAccepted port baudrate =
    (0 < baudrate)
    × (baudrate < 2 ^ 31)
    × ((port ≡ 0x3f8) ⊎ (port ≡ 0x2f8) ⊎ (port ≡ 0x3e8) ⊎ (port ≡ 0x2e8))

-- The port has been set up for a divisor by the writes and loops back what is sent to it.
abbrev pub IsLooped : ℕ → Ports → ℕ → List (ℕ × ℕ) → Type 0
IsLooped port p divisor writes =
    IsSetUp (uart port p.writes) (uart port writes) divisor false
    × ((uart port writes).loopback ≡ true)

-- What `serial_init` leads to: nothing for arguments that it refuses, and otherwise a port that is set
-- up, and open if the test byte 0xae, written to the port in loopback, came back.
abbrev pub Opens : Hardware → Ports → ℕ → ℕ → ℕ × Ports → Type 0
Opens hardware p port baudrate (status, p') =
    (¬ IsAccepted port baudrate × (status ≡ 1) × (p' ≡ p))
    ⊎ (IsAccepted port baudrate
        × ((writes : List (ℕ × ℕ)) × IsLooped port p (115200 / baudrate % 2 ^ 16) writes
            × (status
                ≡ (if hardware ((port, 0xae) ∷ writes) p.reads port % 2 ^ 8 == 0xae then 0 else 1)))
        × IsSetUp (uart port p.writes) (uart port p'.writes) (115200 / baudrate % 2 ^ 16)
            (status == 0))

refused_lem : (port baudrate : ℕ) → is_refused port baudrate ≡ true → ¬ IsAccepted port baudrate
refused_lem port baudrate e (a, b, c) = ground arith

port_lem :
    (port : ℕ)
    → (port == com1 || port == com2 || port == com3 || port == com4) ≡ true
    → (port ≡ 0x3f8) ⊎ (port ≡ 0x2f8) ⊎ (port ≡ 0x3e8) ⊎ (port ≡ 0x2e8)
port_lem port e = ground arith

accepted_lem : (port baudrate : ℕ) → is_refused port baudrate ≡ false → IsAccepted port baudrate
accepted_lem port baudrate e = (ground arith, ground arith, port_lem port (ground arith))

set_lem :
    (u u' : Uart) (divisor : ℕ) (loop : Bool)
    → u' ≡ record u {
      low = divisor % 2 ^ 8 % 2 ^ 8;
      high = divisor / 2 ^ 8 % 2 ^ 8 % 2 ^ 8;
      line_control = 3;
      loopback = loop;
    }
    → divisor < 2 ^ 16
    → IsSetUp u u' divisor (not loop)
set_lem u u' divisor loop e l = record {
  same_divisor = ap (λ v. v.high * 256 + v.low) e ∙ omega (arith, l);
  format = ap (λ v. v.line_control) e;
  opens = ap is_open e;
  same_sent = ap (λ v. v.sent) e;
}

-- The writes before the test byte.
abbrev tested : Ports → ℕ → ℕ → List (ℕ × ℕ)
tested p port baudrate =
    let divisor : ℕ = com_base_freq / baudrate % 2 ^ 16 in
    (run_writes p port (set_up_registers divisor)).writes

tested-IsLooped :
    (p : Ports) (port baudrate : ℕ)
    → port + 8 < 2 ^ 16
    → IsLooped port p (115200 / baudrate % 2 ^ 16) (tested p port baudrate)
tested-IsLooped p port baudrate l =
    let divisor : ℕ = com_base_freq / baudrate % 2 ^ 16 in
    let e = run_writes-uart p port (set_up_registers divisor) l refl in
    (set_lem (uart port p.writes) _ divisor true e (omega arith), ap (λ u. u.loopback) e)

answer_lem :
    (hardware : Hardware) (p : Ports) (port baudrate : ℕ)
    → port + 8 < 2 ^ 16
    → (inb hardware (set_up p port baudrate) (port + 0)).0
      ≡ hardware ((port, 0xae) ∷ tested p port baudrate) p.reads port % 2 ^ 8
answer_lem hardware p port baudrate l =
    let word : (port + 0) % 2 ^ 16 ≡ port = omega (arith, l) in
    ap (λ a. hardware ((a, 0xae) ∷ tested p port baudrate) p.reads a % 2 ^ 8) word

-- `serial_init` returns 1 and writes nothing for a bit rate that is not positive or a port that is none
-- of the four. Otherwise it sets the divisor to the lowest 16 bits of 115200 / baudrate and the format to
-- 8 bits without parity, and sends nothing; it returns 0 and the port is open if the test byte came
-- back, and else it returns 1 and the port stays in loopback.
pub serial_init-Opens :
    (hardware : Hardware) (p : Ports) (port baudrate : ℕ)
    → Opens hardware p port baudrate (serial_init hardware p port baudrate)
unfolding serial_init
serial_init-Opens hardware p port baudrate = elim (Bool-cases (is_refused port baudrate)) [
  | inl e ↦ rw e (inl (refused_lem port baudrate e, refl, refl))
  | inr e ↦
      let room : port + 8 < 2 ^ 16 = valid_port port baudrate e in
      let ready = set_up-uart p port baudrate room in
      let whole = com_base_freq / baudrate % 2 ^ 16 in
      let p1 : Ports = (inb hardware (set_up p port baudrate) (port + 0)).1 in
      let accepted = accepted_lem port baudrate e in
      let looped = tested-IsLooped p port baudrate room in
      let answer = answer_lem hardware p port baudrate room in
      elim (Bool-cases ((inb hardware (set_up p port baudrate) (port + 0)).0 == 0xae)) [
        | inl came ↦
            let opened =
              run_writes-uart p1 port ((4, 0x0f) ∷ (4, 0x0f) ∷ []) room refl
              ∙ ap (λ u. run_registers u ((4, 0x0f) ∷ (4, 0x0f) ∷ [])) ready in
            let came' = subst (λ v. (v == 0xae) ≡ true) answer came in
            rw (e, came)
              (inr (
                accepted,
                (tested p port baudrate, looped, rw came' refl),
                set_lem (uart port p.writes) _ whole false opened (omega arith),
              ))
        | inr other ↦
            let other' = subst (λ v. (v == 0xae) ≡ false) answer other in
            rw (e, other)
              (inr (
                accepted,
                (tested p port baudrate, looped, rw other' refl),
                set_lem (uart port p.writes) _ whole true ready (omega arith),
              ))
      ]
]
