-- ===== src/Descriptors.antt =====
-- The descriptor tables: kernel/src/arch/i686/gdt.c, tss.c and idt.c with their headers, and what
-- exception.c and syscall.c register. A table is a map from an index to its entry; `isr_table` is the
-- table of idt.asm. A handler is the address of its function, or 0.
pub mod Segments
pub mod Gates
use gummy.Prelude.{
  ℕ, zero, suc, ◌+◌, ◌-◌, ◌*◌, ◌/◌, ◌%◌, ◌^◌, ◌==◌, leb, if◌then◌else◌, bit_or, Option, none, some,
}
use gummy.Queue.{Ptr, update}

-- `gdt_entry_t`
pub record GdtEntry : Type 0 where
  pub limit_low : ℕ
  pub base_low : ℕ
  pub base_mid : ℕ
  pub access : ℕ
  pub flags_and_limit_high : ℕ
  pub base_high : ℕ

abbrev pub gdt_entries : ℕ
gdt_entries = 8

unfoldable pub gdt_set_entry : (ℕ → GdtEntry) → ℕ → ℕ → ℕ → ℕ → ℕ → ℕ → GdtEntry
gdt_set_entry gdt index base limit access flags =
    if leb gdt_entries index
    then gdt
    else update gdt index (record {
      base_low = base % 2 ^ 16;
      limit_low = limit % 2 ^ 16;
      base_mid = base / 2 ^ 16 % 2 ^ 8;
      access = access;
      flags_and_limit_high = bit_or (flags * 2 ^ 4 % 2 ^ 8) (limit / 2 ^ 16 % 2 ^ 4);
      base_high = base / 2 ^ 24 % 2 ^ 8;
    })

-- The loop of `gdt_init`, on the first `n` entries.
unfoldable pub clear_gdt : (ℕ → GdtEntry) → ℕ → ℕ → GdtEntry
clear_gdt gdt zero = gdt
clear_gdt gdt (suc n) = gdt_set_entry (clear_gdt gdt n) n 0 0 0 0

-- The flags are 0b1100 and the access bytes those of code and data of the kernel and of user programs.
unfoldable pub gdt_init : (ℕ → GdtEntry) → ℕ → GdtEntry
gdt_init gdt =
    let g0 : ℕ → GdtEntry = clear_gdt gdt gdt_entries in
    let g1 : ℕ → GdtEntry = gdt_set_entry g0 1 0 0xfffff 0x9a 12 in
    let g2 : ℕ → GdtEntry = gdt_set_entry g1 2 0 0xfffff 0x92 12 in
    let g3 : ℕ → GdtEntry = gdt_set_entry g2 3 0 0xfffff 0xfa 12 in
    gdt_set_entry g3 4 0 0xfffff 0xf2 12

-- `sizeof(struct tss_entry)`
abbrev pub tss_size : ℕ
tss_size = 104

-- The descriptor that `tss_init` makes for the task state at an address.
unfoldable pub tss_init : (ℕ → GdtEntry) → Ptr → ℕ → GdtEntry
tss_init gdt tss = gdt_set_entry gdt 5 tss (tss_size - 1) 0x89 0

-- `idt_entry_t`
pub record IdtEntry : Type 0 where
  pub offset_low : ℕ
  pub selector : ℕ
  pub reserved : ℕ
  pub attributes : ℕ
  pub offset_high : ℕ

abbrev pub idt_entries : ℕ
idt_entries = 256

-- `idt` and `handlers`.
pub record Interrupts : Type 0 where
  pub idt : ℕ → IdtEntry
  pub handlers : ℕ → Ptr

unfoldable pub idt_set_entry : Interrupts → ℕ → ℕ → ℕ → ℕ → Interrupts
idt_set_entry s index offset selector attr = if leb idt_entries index then s else record s {
  idt = update s.idt index (record {
    offset_low = offset % 2 ^ 16;
    selector = selector;
    reserved = 0;
    attributes = attr;
    offset_high = offset / 2 ^ 16 % 2 ^ 16;
  });
}

-- The handler that `interrupt_handler` calls, if there is one.
unfoldable pub interrupt_handler : Interrupts → ℕ → Option Ptr
interrupt_handler s int_num =
    if leb idt_entries int_num
    then none
    else if s.handlers int_num == 0
    then none
    else some (s.handlers int_num)

unfoldable pub idt_set_handler : Interrupts → ℕ → Ptr → Interrupts
idt_set_handler s index handler =
    if leb idt_entries index then s else record s { handlers = update s.handlers index handler }

-- `attributes & ~0b01100000`, of 8 bits.
abbrev pub without_dpl : ℕ → ℕ
without_dpl a = a / 2 ^ 7 * 2 ^ 7 + a % 2 ^ 5

unfoldable pub idt_set_dpl : Interrupts → ℕ → ℕ → Interrupts
idt_set_dpl s index dpl = if leb idt_entries index then s else record s {
  idt = update s.idt index (record (s.idt index) {
    attributes = bit_or (without_dpl (s.idt index).attributes) (dpl % 4 * 2 ^ 5);
  });
}

-- The loop of `idt_init`, on the first `n` entries.
unfoldable pub fill_idt : Interrupts → (ℕ → Ptr) → ℕ → Interrupts
fill_idt s isr_table zero = s
fill_idt s isr_table (suc n) = idt_set_entry (fill_idt s isr_table n) n (isr_table n) 0x08 0x8e

-- 0x8e is IDT_INTERRUPT_GATE and 0x8f IDT_TRAP_GATE.
unfoldable pub idt_init : Interrupts → (ℕ → Ptr) → Interrupts
idt_init s isr_table =
    let s1 : Interrupts = fill_idt s isr_table idt_entries in
    let s2 : Interrupts = idt_set_entry s1 3 (isr_table 3) 0x08 0x8f in
    idt_set_entry s2 4 (isr_table 4) 0x08 0x8f

-- The loop of `exception_init`, on the first `n` interrupts.
unfoldable pub set_exceptions : Interrupts → Ptr → ℕ → Interrupts
set_exceptions s exception_handler zero = s
set_exceptions s exception_handler (suc n) =
    idt_set_handler (set_exceptions s exception_handler n) n exception_handler

abbrev pub exception_init : Interrupts → Ptr → Interrupts
exception_init s exception_handler = set_exceptions s exception_handler 32

unfoldable pub syscall_init : Interrupts → Ptr → Interrupts
syscall_init s syscall_handler = idt_set_dpl (idt_set_handler s 0x80 syscall_handler) 0x80 3
