-- ===== src/Descriptors/Gates.antt =====
-- The interrupt table when the system calls are ready: `idt_init`, `exception_init`,
-- `sched_init` and `syscall_init`, in the order of kernel/src/kmain.c.
use gummy.Prelude.{
  ℕ, zero, suc, ◌+◌, ◌*◌, ◌/◌, ◌%◌, ◌^◌, ◌≤◌, ◌<◌, ◌≡◌, refl, ◌≢◌, arith, false, leb, ltb, ◌==◌,
  ◌||◌, if◌then◌else◌, none, some, ◌∙◌, ap, Bool-cases, inl, inr, List, [], ◌∷◌,
}
use gummy.Queue.{Ptr}
use gummy.Sched.{Symbols, Kernel}
use gummy.Sched.Start
use gummy.Sched.Start.{Handler, timer, reschedule, DeviceCall, sched_init}
use gummy.Descriptors.{
  IdtEntry, Interrupts, idt_entries, idt_set_entry, interrupt_handler, idt_set_handler, idt_set_dpl,
  fill_idt, idt_init, set_exceptions, exception_init, syscall_init,
}

-- The gate to `offset` with these attributes in the code segment of the kernel.
abbrev pub gate : ℕ → ℕ → IdtEntry
gate offset attributes = record {
  offset_low = offset % 2 ^ 16;
  selector = 0x08;
  reserved = 0;
  attributes = attributes;
  offset_high = offset / 2 ^ 16 % 2 ^ 16;
}

-- Where a gate leads, and the lowest privilege that may raise it.
abbrev pub gate_offset : IdtEntry → ℕ
gate_offset e = e.offset_low + 2 ^ 16 * e.offset_high

abbrev pub gate_dpl : IdtEntry → ℕ
gate_dpl e = e.attributes / 2 ^ 5 % 4

fill_idt-idt :
    (s : Interrupts) (isr_table : ℕ → Ptr) (n i : ℕ)
    → n ≤ 256
    → (fill_idt s isr_table n).idt i ≡ (if ltb i n then gate (isr_table i) 0x8e else s.idt i)
unfolding fill_idt idt_set_entry
fill_idt-idt s isr_table zero i l = ground arith
fill_idt-idt s isr_table (suc n) i l = ground (arith, fill_idt-idt s isr_table n i (omega arith))

fill_idt-handlers :
    (s : Interrupts) (isr_table : ℕ → Ptr) (n : ℕ) → (fill_idt s isr_table n).handlers ≡ s.handlers
unfolding fill_idt idt_set_entry
fill_idt-handlers s isr_table zero = refl
fill_idt-handlers s isr_table (suc n) = ground (arith, fill_idt-handlers s isr_table n)

set_exceptions-handlers :
    (s : Interrupts) (handler : Ptr) (n i : ℕ)
    → n ≤ 256
    → (set_exceptions s handler n).handlers i ≡ (if ltb i n then handler else s.handlers i)
unfolding set_exceptions idt_set_handler
set_exceptions-handlers s handler zero i l = ground arith
set_exceptions-handlers s handler (suc n) i l =
    ground (arith, set_exceptions-handlers s handler n i (omega arith))

set_exceptions-idt :
    (s : Interrupts) (handler : Ptr) (n : ℕ) → (set_exceptions s handler n).idt ≡ s.idt
unfolding set_exceptions idt_set_handler
set_exceptions-idt s handler zero = refl
set_exceptions-idt s handler (suc n) = ground (arith, set_exceptions-idt s handler n)

-- The calls that `sched_init` makes, on the interrupt table; the functions of the scheduler stand at
-- `place`, and the timer chip has no part in the table.
abbrev pub run_call : (Handler → Ptr) → DeviceCall → Interrupts → Interrupts
run_call place (Start.idt_set_handler i handler) s = idt_set_handler s i (place handler)
run_call place (Start.idt_set_dpl i dpl) s = idt_set_dpl s i dpl
run_call place (Start.pit_set_frequency channel frequency mode) s = s

abbrev pub run_calls : (Handler → Ptr) → List DeviceCall → Interrupts → Interrupts
run_calls place [] s = s
run_calls place (call ∷ calls) s = run_calls place calls (run_call place call s)

module _ (s : Interrupts) (isr_table : ℕ → Ptr) (exception syscall : Ptr) (place : Handler → Ptr)
    (sym : Symbols) (kernel_cr3 : ℕ) (k : Kernel) (frequency : ℕ) where
  -- The state after the four calls.
  abbrev pub ready : Interrupts
  ready =
      let (status, calls, k') = sched_init sym kernel_cr3 k frequency in
      syscall_init (run_calls place calls (exception_init (idt_init s isr_table) exception)) syscall

  idt_init-idt :
      (i : ℕ)
      → i < idt_entries
      → (idt_init s isr_table).idt i ≡ gate (isr_table i) (if i == 3 || i == 4 then 0x8f else 0x8e)
  unfolding idt_init idt_set_entry
  idt_init-idt i l = ground (arith, fill_idt-idt s isr_table 256 i (omega arith), l)

  idt_init-handlers : (idt_init s isr_table).handlers ≡ s.handlers
  unfolding idt_init idt_set_entry
  idt_init-handlers = fill_idt-handlers s isr_table 256

  exceptions-idt :
      (i : ℕ)
      → (exception_init (idt_init s isr_table) exception).idt i ≡ (idt_init s isr_table).idt i
  exceptions-idt i = ap (λ f. f i) (set_exceptions-idt (idt_init s isr_table) exception 32)

  ready-idt :
      (i : ℕ)
      → i < idt_entries
      → ready.idt i
        ≡ gate
            (isr_table i)
            (if i == 0x80 || i == 0x81 then 0xee else if i == 3 || i == 4 then 0x8f else 0x8e)
  unfolding syscall_init sched_init idt_set_dpl idt_set_handler
  ready-idt i l = elim (Bool-cases (i == 0x80)) [
    | inl e ↦
        let call : i ≡ 0x80 = ground arith in
        rw (call, exceptions-idt 0x80, idt_init-idt 0x80 (omega arith)) refl
    | inr e ↦ elim (Bool-cases (i == 0x81)) [
      | inl e' ↦
          let yield : i ≡ 0x81 = ground arith in
          rw (yield, exceptions-idt 0x81, idt_init-idt 0x81 (omega arith)) refl
      | inr e' ↦ rw (e, e') (exceptions-idt i ∙ idt_init-idt i l)
    ]
  ]

  ready-handlers :
      (i : ℕ)
      → ready.handlers i ≡ (
          if i == 0x80
          then syscall
          else if i == 0x81
          then place reschedule
          else if i == 32
          then place timer
          else if ltb i 32
          then exception
          else s.handlers i)
  unfolding syscall_init sched_init idt_set_dpl idt_set_handler
  ready-handlers i = ground (
    arith,
    set_exceptions-handlers (idt_init s isr_table) exception 32 i (omega arith),
    ap (λ f. f i) idt_init-handlers,
  )

  -- After the four calls, from a state without handlers, each of the 256 gates is present, leads to its
  -- stub in the kernel's code segment, and only those of the system calls and of giving up the
  -- processor, 0x80 and 0x81, may be raised by user programs; `interrupt_handler` calls the handler of
  -- exceptions below 32, the timer for 32, the handler of system calls for 0x80, `schedule` for 0x81,
  -- and none for the others.
  pub ready-gates :
      (i : ℕ)
      → i < idt_entries
      → isr_table i < 2 ^ 32
      → exception ≢ 0
      → syscall ≢ 0
      → ((h : Handler) → place h ≢ 0)
      → s.handlers i ≡ 0
      → let gate_i = ready.idt i in
        (gate_offset gate_i ≡ isr_table i)
        × (gate_i.selector ≡ 0x08)
        × (gate_i.attributes / 2 ^ 7 ≡ 1)
        × (gate_dpl gate_i ≡ (if i == 0x80 || i == 0x81 then 3 else 0))
        × (interrupt_handler ready i ≡ (
            if i == 0x80
            then some syscall
            else if i == 0x81
            then some (place reschedule)
            else if i == 32
            then some (place timer)
            else if ltb i 32
            then some exception
            else none))
  unfolding interrupt_handler
  ready-gates i l low e c p h =
      let inside : leb idt_entries i ≡ false = ground arith in
      rw (ready-idt i l, inside, ready-handlers i)
        (
          omega arith,
          refl,
          ground arith,
          ground arith,
          ground (arith, e, c, h, p timer, p reschedule),
        )
