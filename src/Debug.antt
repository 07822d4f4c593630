-- ===== src/Debug.antt =====
-- What the kernel prints: kernel/src/debug.c and kernel/include/debug.h, on the screen and the first serial
-- port. Text in memory is read on fuel, and waiting for the port is on fuel: `none` is out of fuel, or
-- the wait for a lock that nothing will release, as interrupts are off.
pub mod Printk
use gummy.Prelude.{
  ◌>>=◌, ℕ, zero, suc, ◌+◌, ◌%◌, ◌^◌, Bool, true, false, ◌==◌, if◌then◌else◌, Option, none, some,
  List, [], ◌∷◌,
}
use gummy.Queue.{Ptr}
use gummy.Memory.{Bytes}
use gummy.Terminal.{Terminal, terminal_print_string}
use gummy.Devices.{Ports, Hardware}
use gummy.Devices.Serial.{com1, serial_init, write_serial}
use gummy.Vsnprintf.{vsnprintf}
use gummy.Vsnprintf.Parse.{Arguments}

-- The screen, the ports, `debug_lock` and the interrupt flag.
pub record Console : Type 0 where
  pub terminal : Terminal
  pub ports : Ports
  pub debug_lock : ℕ
  pub interrupts : Bool

-- "Falha ao inicializar a porta serial de debug\r\n"
abbrev pub failure_text : List ℕ
failure_text =
    70 ∷ 97 ∷ 108 ∷ 104 ∷ 97 ∷ 32 ∷ 97 ∷ 111 ∷ 32 ∷ 105 ∷ 110 ∷ 105 ∷ 99 ∷ 105 ∷ 97 ∷ 108 ∷ 105
    ∷ 122 ∷ 97 ∷ 114 ∷ 32 ∷ 97 ∷ 32 ∷ 112 ∷ 111 ∷ 114 ∷ 116 ∷ 97 ∷ 32 ∷ 115 ∷ 101 ∷ 114 ∷ 105 ∷ 97
    ∷ 108 ∷ 32 ∷ 100 ∷ 101 ∷ 32 ∷ 100 ∷ 101 ∷ 98 ∷ 117 ∷ 103 ∷ 13 ∷ 10 ∷ []

unfoldable pub debug_init : Hardware → Console → Console
debug_init hardware c =
    let (status, ports) = serial_init hardware c.ports com1 9600 in
    record c {
      ports = ports;
      terminal = if status == 0 then c.terminal else terminal_print_string c.terminal failure_text;
    }

-- The loop that writes a string to the serial port.
unfoldable pub write_chars : ℕ → Hardware → Ports → List ℕ → Option Ports
write_chars fuel hardware p [] = some p
write_chars fuel hardware p (a ∷ cs) = do
  p1 ← write_serial fuel hardware p com1 a
  write_chars fuel hardware p1 cs

-- `spinlock` returns at once or, where the lock is taken, never.
unfoldable pub debug_print_string : ℕ → Hardware → Console → List ℕ → Option Console
debug_print_string fuel hardware c cs =
    let flags : Bool = c.interrupts in
    let locked : Console = record c { interrupts = false; debug_lock = 1 } in
    let shown : Console = record locked { terminal = terminal_print_string locked.terminal cs } in
    let sent : Option Console = (do
      ports ← write_chars fuel hardware shown.ports cs
      some (record shown { ports = ports; debug_lock = 0; interrupts = flags })) in
    if c.debug_lock == 0 then sent else none

abbrev cons_to : ℕ → Option (List ℕ) → Option (List ℕ)
cons_to a none = none
cons_to a (some cs) = some (a ∷ cs)

-- The characters at an address up to a 0.
unfoldable pub string_at : ℕ → Bytes → Ptr → Option (List ℕ)
string_at zero m s = none
string_at (suc fuel) m s =
    let rest : Option (List ℕ) = string_at fuel m (s + 1) in
    if m s == 0 then some [] else cons_to (m s) rest

-- `sizeof(buffer)`
abbrev pub buffer_size : ℕ
buffer_size = 256

-- `buffer` is the address of the local array.
unfoldable pub printk :
    ℕ → Hardware → Bytes → Ptr → Console → List ℕ → Arguments → Option (ℕ × Bytes × Console)
printk fuel hardware m buffer c format args = do
  r ← vsnprintf m buffer buffer_size (some format) args
  text ← string_at buffer_size r.1 buffer
  c1 ← debug_print_string fuel hardware c text
  some (r.0, r.1, c1)
