-- ===== src/Tests/SchedTests.antt =====
-- The scheduler and the mailboxes at a concrete kernel.
use gummy.Prelude.{◌≡◌, refl, ◌≢◌, arith, [], ◌∷◌, true}
use gummy.Queue.{update, Store}
use gummy.Queue.Inv.{Queues, Represents}
use gummy.RingBuffer.{RingBuffer}
use gummy.Sched.{Symbols, Kernel, running, ready, blocked, sleeping, normal, stay}
use gummy.Sched.Run.{schedule, timer_handler}
use gummy.Sched.Moves.{AreApart}
use gummy.Sched.Timer.{after_tick, looked_at, timer_handler-wakes}
use gummy.Sched.Dispatch.{next_queues, Continues, schedule-next}

abbrev pub symbols : Symbols
symbols = record {
  idle_process = 1000;
  ready_queue = 16;
  blocked_queue = 32;
  zombie_queue = 48;
  sleep_queue = 64;
}

pub symbols-AreApart : AreApart symbols
symbols-AreApart = omega arith

-- Thread 500 is ready, thread 600 sleeps, thread 700 waits at the mailbox of the process 4000.
abbrev pub store : Store
store = record {
  prev = λ a. 0;
  next = λ a. 0;
  q = update (update (update (λ a. 0) 500 16) 600 64) 700 5240;
  head_prev = update (update (update (λ a. 0) 16 500) 64 600) 5240 700;
  head_next = update (update (update (λ a. 0) 16 500) 64 600) 5240 700;
  size = update (update (update (λ a. 0) 16 1) 64 1) 5240 1;
}

abbrev pub queues : Queues
queues = update (update (update (λ a. []) 16 (500 ∷ [])) 64 (600 ∷ [])) 5240 (700 ∷ [])

pub store-Represents : Represents store queues
store-Represents = record {
  nowhere = refl;
  no_null = λ a. ground arith;
  once = λ a. ground arith;
  owner = λ a p m n. ground arith;
  first = λ a m. ground arith;
  last = λ a m. ground arith;
  after = λ a p m h. ground arith;
  before = λ a p m h. ground arith;
  count = λ a m. ground arith;
}

abbrev pub mailbox : RingBuffer
mailbox = record { buf = 4000; elem_size = 76; capacity = 16; head = 0; tail = 0; count = 0 }

-- Thread 400 of the process 2000 runs; the processes are 4000, 2000 and the idle process.
abbrev pub kernel : Kernel
kernel = record {
  queues = store;
  memory = record { bytes = λ a. a; ring = λ r. mailbox };
  stack = λ t. 0;
  sp = λ t. 0;
  stack0 = λ t. 0x8000;
  sp0 = λ t. 0x9000;
  process = λ t. 2000;
  state = update (update (update (λ t. running) 500 ready) 600 sleeping) 700 blocked;
  exit_code = λ t. 0;
  wake_tick = λ t. 7;
  prev_process = update (update (λ p. 0) 2000 4000) 1000 2000;
  next_process = update (update (λ p. 0) 4000 2000) 2000 1000;
  dad = λ p. 1000;
  cr3 = λ p. p;
  process_state = λ p. normal;
  pid = update (update (λ p. 0) 2000 1) 4000 2;
  num_threads = λ p. 1;
  current_thread = 400;
  current_process = 2000;
  first_process = 4000;
  current_pid = 3;
  ticks = 6;
  ms_per_tick = 10;
  cpu_cr3 = 2000;
  interrupts = true;
  tss_esp0 = 0;
  tss_ss0 = 16;
}

timer_handler-wakes_example :
    (s : Store) × (timer_handler symbols kernel 0x9100
      ≡ schedule symbols (after_tick symbols symbols-AreApart kernel (600 ∷ []) s) 0x9100)
    × Represents s
        (looked_at symbols symbols-AreApart (record kernel { ticks = 7 }) queues [] (600 ∷ []))
timer_handler-wakes_example =
    timer_handler-wakes symbols symbols-AreApart kernel queues 0x9100 store-Represents (omega arith)

schedule-next_example :
    ((queues 16 ≡ [] → schedule symbols kernel 0 ≡ stay kernel)
      × (queues 16 ≢ []
          → (s : Store) × Continues symbols kernel queues 0 s (schedule symbols kernel 0)
            × Represents s (next_queues symbols kernel queues 0)))
schedule-next_example =
    schedule-next symbols kernel queues 0 symbols-AreApart store-Represents (omega arith)
      (omega arith)

abbrev empty_store : Store
empty_store = record {
  prev = λ a. 0;
  next = λ a. 0;
  q = λ a. 0;
  head_prev = λ a. 0;
  head_next = λ a. 0;
  size = λ a. 0;
}

empty_store-Represents : Represents empty_store (λ q. [])
empty_store-Represents = record {
  nowhere = refl;
  no_null = λ a. refl;
  once = λ a. refl;
  owner = λ a p m n. ground arith;
  first = λ a m. refl;
  last = λ a m. refl;
  after = λ a p m h. cc;
  before = λ a p m h. cc;
  count = λ a m. refl;
}
