-- ===== src/Sched.antt =====
-- The scheduler's state: kernel/include/sched.h and the globals of kernel/src/sched.c, thread.c and
-- process.c. Memory is one map for each field of `struct thread` and `struct process`. `node` is the
-- first field of a thread, so a thread and its node have one address and CONTAINER_OF moves nothing.
pub mod Threads
pub mod Run
pub mod Moves
pub mod Timer
pub mod Dispatch
pub mod Start
use gummy.Prelude.{ℕ, ◌+◌, ◌*◌, Bool, Option, none, some}
use gummy.Queue.{Ptr, Store}
use gummy.RingBuffer.{Memory}

-- `thread_state_t`
pub data ThreadState : Type 0 where
  running ready blocked zombie sleeping free : ThreadState

-- `process_state_t`
pub data ProcessState : Type 0 where
  normal dying : ProcessState

-- The addresses that the linker gives the globals.
pub record Symbols : Type 0 where
  pub idle_process : Ptr
  pub ready_queue : Ptr
  pub blocked_queue : Ptr
  pub zombie_queue : Ptr
  pub sleep_queue : Ptr

pub record Kernel : Type 0 where
  pub queues : Store
  pub memory : Memory
  -- `struct thread`
  pub stack : Ptr → ℕ
  pub sp : Ptr → ℕ
  pub stack0 : Ptr → ℕ
  pub sp0 : Ptr → ℕ
  pub process : Ptr → Ptr
  pub state : Ptr → ThreadState
  pub exit_code : Ptr → ℕ
  pub wake_tick : Ptr → ℕ
  -- `struct process`
  pub prev_process : Ptr → Ptr
  pub next_process : Ptr → Ptr
  pub dad : Ptr → Ptr
  pub cr3 : Ptr → ℕ
  pub process_state : Ptr → ProcessState
  pub pid : Ptr → ℕ
  pub num_threads : Ptr → ℕ
  -- the globals
  pub current_thread : Ptr
  pub current_process : Ptr
  pub first_process : Ptr
  pub current_pid : ℕ
  pub ticks : ℕ
  pub ms_per_tick : ℕ
  -- the processor: CR3, the interrupt flag, and ESP0 and SS0 of the TSS
  pub cpu_cr3 : ℕ
  pub interrupts : Bool
  pub tss_esp0 : ℕ
  pub tss_ss0 : ℕ

-- Where the fields of a `struct process` lie, from its address on (i386: 16 messages of 76 bytes, a
-- ring buffer of 24, a queue of 16, then 8 threads of 44).
abbrev pub mailbox_data : Ptr → Ptr
mailbox_data p = p

abbrev pub mailbox_ring : Ptr → Ptr
mailbox_ring p = p + 1216

abbrev pub mailbox_waiters : Ptr → Ptr
mailbox_waiters p = p + 1240

abbrev pub thread_at : Ptr → ℕ → Ptr
thread_at p i = p + 1256 + 44 * i

abbrev pub threads_per_process : ℕ
threads_per_process = 8

-- How a call ends: it returns, it resumes the context saved at an address, it waits for interrupts
-- for ever, the processor stops, it reads through NULL, or the model's fuel runs out.
pub data Outcome : Type 0 where
  stay : Kernel → Outcome
  resume : ℕ → Kernel → Outcome
  waits : Kernel → Outcome
  halted : Outcome
  fault : Outcome
  out_of_fuel : Outcome

-- The rest of a function, which runs only if the call before it returns.
abbrev pub and_then : Outcome → (Kernel → Outcome) → Outcome
and_then (stay k) f = f k
and_then (resume c k) f = resume c k
and_then (waits k) f = waits k
and_then halted f = halted
and_then fault f = fault
and_then out_of_fuel f = out_of_fuel

-- The queues after a call that may read through NULL.
abbrev pub with_queues : Kernel → Option Store → Outcome
with_queues k none = fault
with_queues k (some s) = stay (record k { queues = s })
