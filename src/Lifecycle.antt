-- ===== src/Lifecycle.antt =====
-- Making and destroying threads and processes: kernel/src/thread.c and process.c. The heap and the
-- address spaces are an interface (`Resources`) on a state of their own. What the functions print is
-- left out.
pub mod Destroy
pub mod Create
pub mod Unlink
pub mod Erase
pub mod Spawn
pub mod Reap
pub mod Leave
use gummy.Prelude.{
  ℕ, zero, suc, ◌+◌, ◌*◌, ◌-◌, ◌%◌, ◌^◌, Bool, true, false, ◌||◌, not, ◌==◌, leb, if◌then◌else◌,
  Option, none, some,
}
use gummy.Queue.{Ptr, null, update, Store, queue_init, queue_remove}
use gummy.Memory.{Bytes, memset}
use gummy.Words.{store32}
use gummy.RingBuffer.{RingBuffer, Memory, ring_buffer_init}
use gummy.Pmm.{page_size}
use gummy.Sched.{
  ThreadState, running, free, normal, dying, Symbols, Kernel, mailbox_data, mailbox_ring,
  mailbox_waiters, thread_at, threads_per_process,
}
use gummy.Sched.Run.{kernel_stack_size}
use gummy.Process.{sched_get_current_process}
use gummy.Ipc.{message_size, ipc_queue_size}

-- The calls of heap.c, vmm.c and pmm.c that the two files make, on a state `W`.
pub record Resources (W : Type 0) : Type 0 where
  pub heap_alloc : W → ℕ → Ptr × W
  pub heap_free : W → Ptr → W
  pub vmm_clone : W → ℕ × W
  pub vmm_destroy : W → ℕ → W
  pub vmm_alloc_pages_region_in : W → ℕ → ℕ → ℕ → ℕ → ℕ → Ptr × W
  pub vmm_free_pages_in : W → ℕ → ℕ → Ptr → W
  pub pmm_free_page : W → ℕ → W

abbrev pub user_stack_pages : ℕ
user_stack_pages = 16

abbrev pub user_stack_size : ℕ
user_stack_size = user_stack_pages * page_size

abbrev pub user_stack_top : ℕ
user_stack_top = 0xbffff000

-- VMM_FLAGS_PRESENT | VMM_FLAGS_RW | VMM_FLAGS_USER
abbrev pub user_flags : ℕ
user_flags = 7

-- `sizeof(interrupt_context_t)` and `sizeof(process_t)`
abbrev pub context_size : ℕ
context_size = 72

abbrev pub process_size : ℕ
process_size = 1636

-- `memset(t, 0, sizeof(*t))` of a thread.
unfoldable pub clear_thread : Kernel → Ptr → Kernel
clear_thread k t = record k {
  queues = record k.queues {
    prev = update k.queues.prev t null;
    next = update k.queues.next t null;
    q = update k.queues.q t null;
  };
  stack = update k.stack t 0;
  sp = update k.sp t 0;
  stack0 = update k.stack0 t 0;
  sp0 = update k.sp0 t 0;
  process = update k.process t null;
  state = update k.state t running;
  exit_code = update k.exit_code t 0;
  wake_tick = update k.wake_tick t 0;
}

unfoldable pub clear_threads : Kernel → Ptr → ℕ → Kernel
clear_threads k p zero = k
clear_threads k p (suc n) = clear_thread (clear_threads k p n) (thread_at p n)

-- `memset(proc, 0, sizeof(*proc))`, a field at a time.
unfoldable pub clear_process : Kernel → Ptr → Kernel
clear_process k0 p =
    let k : Kernel = clear_threads k0 p threads_per_process in
    record k {
      queues = record k.queues {
        head_prev = update k.queues.head_prev (mailbox_waiters p) null;
        head_next = update k.queues.head_next (mailbox_waiters p) null;
        size = update k.queues.size (mailbox_waiters p) 0;
      };
      memory = record {
        bytes = memset k.memory.bytes (mailbox_data p) 0 (ipc_queue_size * message_size);
        ring =
            update k.memory.ring (mailbox_ring p)
              (record { buf = null; elem_size = 0; capacity = 0; head = 0; tail = 0; count = 0 });
      };
      prev_process = update k.prev_process p null;
      next_process = update k.next_process p null;
      dad = update k.dad p null;
      cr3 = update k.cr3 p 0;
      process_state = update k.process_state p normal;
      pid = update k.pid p 0;
      num_threads = update k.num_threads p 0;
    }

-- The assignments of `sched_create_process` once it has its memory and its address space, for the
-- parent `dad`.
unfoldable pub adopt : Kernel → Ptr → ℕ → Ptr → Kernel
adopt k p space dad = record k {
  cr3 = update k.cr3 p space;
  num_threads = update k.num_threads p 0;
  pid = update k.pid p k.current_pid;
  current_pid = (k.current_pid + 1) % 2 ^ 32;
  dad = update k.dad p dad;
  memory = ring_buffer_init k.memory (mailbox_ring p) (mailbox_data p) message_size ipc_queue_size;
  queues = queue_init k.queues (mailbox_waiters p);
  next_process = update k.next_process p k.first_process;
  prev_process =
      if k.first_process == null then k.prev_process else update k.prev_process k.first_process p;
  first_process = p;
}

-- The context at `sp0` from which a new thread starts: its registers, then what returning to it
-- loads. `sel` are the selectors of code and data, `esp` the stack.
unfoldable pub start_context : Bytes → Ptr → ℕ → ℕ → ℕ → ℕ → Bytes
start_context m ctx code seg esp loc =
    let m1 : Bytes = store32 (store32 (store32 m (ctx + 40) 0) (ctx + 36) 0) (ctx + 32) 0 in
    let m2 : Bytes = store32 (store32 m1 (ctx + 28) 0) (ctx + 24) 0 in
    let m3 : Bytes = store32 (store32 m2 (ctx + 20) 0) (ctx + 16) 0 in
    let m4 : Bytes = store32 (store32 m3 (ctx + 56) code) (ctx + 12) seg in
    let m5 : Bytes = store32 (store32 m4 (ctx + 8) seg) (ctx + 4) seg in
    let m6 : Bytes = store32 (store32 (store32 m5 ctx seg) (ctx + 68) seg) (ctx + 64) esp in
    let m7 : Bytes = store32 (store32 m6 (ctx + 52) loc) (ctx + 60) 0x202 in
    store32 (store32 m7 (ctx + 48) 0) (ctx + 44) 0

-- The first of the threads from `i` on, `n` of them, that has no process.
unfoldable pub free_slot : Kernel → Ptr → ℕ → ℕ → Option ℕ
free_slot k p zero i = none
free_slot k p (suc n) i =
    if k.process (thread_at p i) == null then some i else free_slot k p n (i + 1)

-- The stack pointer of the thread `i` at its start.
abbrev pub user_sp : ℕ → ℕ
user_sp i = user_stack_top - i * (user_stack_size + page_size)

-- The reparenting loop of `sched_destroy_process`, on fuel; `none` is out of fuel.
unfoldable pub reparent : ℕ → Kernel → Ptr → Ptr → Option Kernel
reparent zero k proc p = none
reparent (suc fuel) k proc p =
    let k1 : Kernel = record k {
      dad = if k.dad p == proc then update k.dad p (k.dad proc) else k.dad;
    } in
    let rest : Option Kernel = reparent fuel k1 proc (k1.next_process p) in
    if p == null then some k else rest

-- `sched_destroy_process` takes the process off the list.
unfoldable pub unlink_process : Kernel → Ptr → Kernel
unlink_process k p =
    let k1 : Kernel = record k {
      next_process =
          if k.prev_process p == null
          then k.next_process
          else update k.next_process (k.prev_process p) (k.next_process p);
    } in
    let k2 : Kernel = record k1 {
      prev_process =
          if k1.next_process p == null
          then k1.prev_process
          else update k1.prev_process (k1.next_process p) (k1.prev_process p);
    } in
    record k2 {
      first_process = if k2.first_process == p then k2.next_process p else k2.first_process;
    }
