-- ===== src/Devices/Pic.antt =====
-- The interrupt controllers: kernel/src/pic.c and kernel/include/pic.h.
pub mod Masks
pub mod Calls
use gummy.Prelude.{ℕ, ◌+◌, ◌-◌, ◌^◌, ltb, leb, if◌then◌else◌, bit_and, bit_or}
use gummy.Bitmap.{mask}
use gummy.Devices.{Ports, Hardware, outb, inb, io_wait}

abbrev pub pic1_cmd : ℕ
pic1_cmd = 0x20

abbrev pub pic2_cmd : ℕ
pic2_cmd = 0xa0

abbrev pub pic1_data : ℕ
pic1_data = 0x21

abbrev pub pic2_data : ℕ
pic2_data = 0xa1

abbrev pub pic_eoi : ℕ
pic_eoi = 0x20

abbrev pub pic_vector_start : ℕ
pic_vector_start = 0x20

-- ICW1 | ICW1_ICW4
abbrev pub icw1 : ℕ
icw1 = 0x11

abbrev pub icw4_8086 : ℕ
icw4_8086 = 1

unfoldable pub pic_remap : Ports → Ports
pic_remap p =
    let p1 : Ports = io_wait (outb (io_wait (outb p pic1_cmd icw1)) pic2_cmd icw1) in
    let p2 : Ports =
      io_wait
        (outb (io_wait (outb p1 pic1_data pic_vector_start)) pic2_data (pic_vector_start + 8)) in
    let p3 : Ports = io_wait (outb (io_wait (outb p2 pic1_data (2 ^ 2))) pic2_data 2) in
    let p4 : Ports = io_wait (outb (io_wait (outb p3 pic1_data icw4_8086)) pic2_data icw4_8086) in
    outb (outb p4 pic1_data 0xff) pic2_data 0xff

unfoldable pub pic_send_eoi : Ports → ℕ → Ports
pic_send_eoi p irq = outb (if leb 8 irq then outb p pic2_cmd pic_eoi else p) pic1_cmd pic_eoi

-- The port of the mask of an IRQ, and the place of the IRQ in it.
abbrev pub mask_port : ℕ → ℕ
mask_port irq = if ltb irq 8 then pic1_data else pic2_data

abbrev pub mask_place : ℕ → ℕ
mask_place irq = if ltb irq 8 then irq else irq - 8

-- `mask` is the lowest byte of `1 << place`: `outb` drops what is above it.
unfoldable pub pic_irq_set_mask : Hardware → Ports → ℕ → Ports
pic_irq_set_mask hardware p irq =
    let (value, p1) = inb hardware p (mask_port irq) in
    outb p1 (mask_port irq) (bit_or value (mask (mask_place irq)))

unfoldable pub pic_irq_clear_mask : Hardware → Ports → ℕ → Ports
pic_irq_clear_mask hardware p irq =
    let (value, p1) = inb hardware p (mask_port irq) in
    outb p1 (mask_port irq) (bit_and value (255 - mask (mask_place irq)))
