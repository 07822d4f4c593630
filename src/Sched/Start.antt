-- ===== src/Sched/Start.antt =====
-- `sched_init` of kernel/src/sched.c. The calls that set up the interrupt table and the timer chip
-- are a list in their order; what is printed is left out.
pub mod Idle
use gummy.Prelude.{ℕ, ◌+◌, ◌/◌, ◌%◌, ◌^◌, leb, if◌then◌else◌, List, [], ◌∷◌}
use gummy.Queue.{Ptr, null, update, Store, queue_init}
use gummy.Sched.{Symbols, Kernel, thread_at}

-- `timer_handler` and `schedule` as handlers.
pub data Handler : Type 0 where
  timer reschedule : Handler

pub data DeviceCall : Type 0 where
  idt_set_handler : ℕ → Handler → DeviceCall
  idt_set_dpl : ℕ → ℕ → DeviceCall
  pit_set_frequency : ℕ → ℕ → ℕ → DeviceCall

-- PIT_SQUARE_WAVE_GENERATOR
abbrev pub pit_square_wave_generator : ℕ
pit_square_wave_generator = 6

-- `timer_frequency` as `sched_init` sets it.
abbrev pub timer_frequency : ℕ → ℕ
timer_frequency frequency = if leb frequency 18 then 100 else frequency

abbrev pub four_queues : Symbols → Store → Store
four_queues sym s =
    queue_init
      (queue_init (queue_init (queue_init s sym.ready_queue) sym.blocked_queue) sym.zombie_queue)
      sym.sleep_queue

-- `kernel_cr3` is the global of vmm.c. The status is always 0.
unfoldable pub sched_init : Symbols → ℕ → Kernel → ℕ → ℕ × List DeviceCall × Kernel
sched_init sym kernel_cr3 k frequency =
    let idle : Ptr = sym.idle_process in
    let t : Ptr = thread_at idle 0 in
    (
      0,
      idt_set_handler 32 timer
          ∷ pit_set_frequency 0 (timer_frequency frequency) pit_square_wave_generator
          ∷ idt_set_handler 0x81 reschedule
          ∷ idt_set_dpl 0x81 3
          ∷ [],
      record k {
        ms_per_tick = 1000 / timer_frequency frequency;
        pid = update k.pid idle k.current_pid;
        current_pid = (k.current_pid + 1) % 2 ^ 32;
        cr3 = update k.cr3 idle kernel_cr3;
        num_threads = update k.num_threads idle 1;
        queues = four_queues sym k.queues;
        current_thread = t;
        process = update k.process t idle;
        prev_process = update k.prev_process idle null;
        next_process = update k.next_process idle null;
        dad = update k.dad idle null;
        current_process = idle;
        first_process = idle;
      },
    )
