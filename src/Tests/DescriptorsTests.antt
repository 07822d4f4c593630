-- ===== src/Tests/DescriptorsTests.antt =====
-- kernel/src/arch/i686/gdt.c and idt.c at concrete tables.
use gummy.Prelude.{◌≢◌, ℕ, ◌+◌, ◌*◌, ◌/◌, ◌^◌, ◌≡◌, refl, arith, some}
use gummy.Descriptors.{GdtEntry, Interrupts, gdt_set_entry, gdt_init, interrupt_handler}
use gummy.Descriptors.Segments.{Describes, segment_limit, gdt_set_entry-Describes}
use gummy.Sched.Start.{Handler, timer, reschedule}
use gummy.Tests.SchedTests.{symbols, kernel}
use gummy.Descriptors.Gates.{gate, gate_offset, gate_dpl, ready, ready-gates}

abbrev no_segments : ℕ → GdtEntry
no_segments i = record {
  limit_low = 0;
  base_low = 0;
  base_mid = 0;
  access = 0;
  flags_and_limit_high = 0;
  base_high = 0;
}

user_code_limit : segment_limit (gdt_init no_segments 3) ≡ 0xfffff
unfolding gdt_init gdt_set_entry
user_code_limit = refl

gdt_set_entry-Describes_example :
    Describes (gdt_set_entry no_segments 5 0xc0123456 103 0x89 0 5) 0xc0123456 103 0x89 0
    × (gdt_set_entry no_segments 5 0xc0123456 103 0x89 0 2 ≡ no_segments 2)
    × (gdt_set_entry no_segments 10 0xc0123456 103 0x89 0 ≡ no_segments)
gdt_set_entry-Describes_example =
    gdt_set_entry-Describes no_segments 5 0xc0123456 103 0x89 0 2 2 (omega arith) (omega arith)
      (omega arith) (omega arith) (omega arith)

abbrev no_interrupts : Interrupts
no_interrupts = record { idt = λ i. gate 0 0; handlers = λ i. 0 }

abbrev stubs : ℕ → ℕ
stubs i = 0x100000 + 16 * i

-- `timer_handler` and `schedule`.
abbrev functions : Handler → ℕ
functions timer = 0x400000
functions reschedule = 0x500000

functions-ne : (h : Handler) → functions h ≢ 0
functions-ne timer = omega arith
functions-ne reschedule = omega arith

abbrev at_80 : Interrupts
at_80 = ready no_interrupts stubs 0x200000 0x300000 functions symbols 0 kernel 100

ready-gates_example :
    (gate_offset (at_80.idt 0x80) ≡ 0x100800)
    × ((at_80.idt 0x80).selector ≡ 0x08)
    × ((at_80.idt 0x80).attributes / 2 ^ 7 ≡ 1)
    × (gate_dpl (at_80.idt 0x80) ≡ 3)
    × (interrupt_handler at_80 0x80 ≡ some 0x300000)
ready-gates_example =
    ready-gates no_interrupts stubs 0x200000 0x300000 functions symbols 0 kernel 100 0x80
      (omega arith) (omega arith) (omega arith) (omega arith) functions-ne refl
