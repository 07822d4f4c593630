-- ===== src/Devices/Serial.antt =====
-- The serial ports: kernel/src/serial.c and kernel/include/serial.h. Waiting for the transmitter is on
-- fuel: `none` is out of fuel.
pub mod Uart
pub mod Write
use gummy.Prelude.{
  ℕ, zero, suc, ◌+◌, ◌/◌, ◌%◌, ◌^◌, Bool, not, ◌==◌, ◌||◌, ◌&&◌, leb, if◌then◌else◌, bit_and,
  Option, none, some, List, [], ◌∷◌,
}
use gummy.Devices.{Ports, Hardware, outb, inb}

abbrev pub com1 : ℕ
com1 = 0x3f8

abbrev pub com2 : ℕ
com2 = 0x2f8

abbrev pub com3 : ℕ
com3 = 0x3e8

abbrev pub com4 : ℕ
com4 = 0x2e8

abbrev pub com_base_freq : ℕ
com_base_freq = 115200

-- The two tests of the arguments. `baudrate` is the bit pattern of the `int`.
abbrev pub is_refused : ℕ → ℕ → Bool
is_refused port baudrate =
    (baudrate == 0 || leb (2 ^ 31) baudrate)
    || (not (port == com1) && not (port == com2) && not (port == com3) && not (port == com4))

-- The writes before the answer to the test byte is read.
abbrev pub set_up : Ports → ℕ → ℕ → Ports
set_up p port baudrate =
    let divisor : ℕ = com_base_freq / baudrate % 2 ^ 16 in
    let p1 : Ports = outb (outb p (port + 3) 0x80) (port + 0) (divisor % 2 ^ 8) in
    let p2 : Ports = outb (outb p1 (port + 1) (divisor / 2 ^ 8 % 2 ^ 8)) (port + 3) 0x03 in
    let p3 : Ports = outb (outb p2 (port + 2) 0xc7) (port + 4) 0x0b in
    outb (outb p3 (port + 4) 0x1e) (port + 0) 0xae

unfoldable pub serial_init : Hardware → Ports → ℕ → ℕ → ℕ × Ports
serial_init hardware p port baudrate =
    let (answer, p1) = inb hardware (set_up p port baudrate) (port + 0) in
    if is_refused port baudrate
    then (1, p)
    else if not (answer == 0xae)
    then (1, p1)
    else (0, outb (outb p1 (port + 4) 0x0f) (port + 4) 0x0f)

abbrev pub is_transmit_fifo_empty : Hardware → Ports → ℕ → ℕ × Ports
is_transmit_fifo_empty hardware p port =
    let (status, p1) = inb hardware p (port + 5) in (bit_and status 0x20, p1)

-- The loop of `write_serial`.
unfoldable pub wait_empty : ℕ → Hardware → Ports → ℕ → Option Ports
wait_empty zero hardware p port = none
wait_empty (suc fuel) hardware p port =
    let (empty, p1) = is_transmit_fifo_empty hardware p port in
    let rest : Option Ports = wait_empty fuel hardware p1 port in
    if empty == 0 then rest else some p1

abbrev pub write_when_empty : ℕ → ℕ → Option Ports → Option Ports
write_when_empty port a none = none
write_when_empty port a (some p) = some (outb p port a)

unfoldable pub write_serial : ℕ → Hardware → Ports → ℕ → ℕ → Option Ports
write_serial fuel hardware p port a = write_when_empty port a (wait_empty fuel hardware p port)
