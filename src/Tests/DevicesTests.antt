-- ===== src/Tests/DevicesTests.antt =====
-- The drivers and `printk` on devices that answer with what was written to them last.
use gummy.Prelude.{◌≡◌, refl, arith, true, false, List, [], ◌∷◌, ◌==◌, if◌then◌else◌}
use gummy.Devices.{Ports, Hardware}
use gummy.Devices.Pic.{pic_remap}
use gummy.Devices.Pic.Masks.{last_value, ReturnsMasks, is_masked, pic_remap-MasksAre}
use gummy.Devices.Pic.Calls.{PicCall, set_mask, clear_mask, send_eoi, run_pic, run_pic-masked_after}
use gummy.Devices.Pit.{pit_set_frequency}
use gummy.Devices.Pit.Program.{Programs, pit_set_frequency-Programs}
use gummy.Devices.Serial.{com1, serial_init}
use gummy.Devices.Serial.Uart.{Opens, serial_init-Opens}
use gummy.Debug.{Console}
use gummy.Tests.TerminalTests.{at_end}

abbrev ports : Ports
ports = record { writes = []; reads = 0 }

-- The transmitter of COM1 is empty; another port returns what was written last.
abbrev hardware : Hardware
hardware writes reads port = if port == 0x3fd then 0x20 else last_value port writes

hardware-ReturnsMasks : ReturnsMasks hardware ports
hardware-ReturnsMasks writes reads irq quiet = ground arith

abbrev calls : List PicCall
calls = clear_mask 0 ∷ clear_mask 9 ∷ send_eoi 9 ∷ set_mask 0 ∷ []

run_pic-masked_after_example : is_masked (run_pic hardware (pic_remap ports) calls).writes 9 ≡ false
run_pic-masked_after_example =
    run_pic-masked_after hardware ports calls 9 hardware-ReturnsMasks refl (omega arith)

pit_set_frequency-Programs_example :
    Programs
      (pic_remap ports)
      (λ irq. true)
      0
      100
      6
      (pit_set_frequency hardware (pic_remap ports) 0 100 6)
pit_set_frequency-Programs_example =
    pit_set_frequency-Programs hardware ports (pic_remap ports) (λ irq. true) 0 100 6
      hardware-ReturnsMasks (pic_remap-MasksAre ports) (omega arith) (omega arith)

serial_init-Opens_example : Opens hardware ports com1 9600 (serial_init hardware ports com1 9600)
serial_init-Opens_example = serial_init-Opens hardware ports com1 9600

abbrev console : Console
console = record { terminal = at_end; ports = ports; debug_lock = 0; interrupts = true }
