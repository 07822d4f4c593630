-- ===== src/Lifecycle/Create.antt =====
-- Making threads and processes: `sched_create_thread` of kernel/src/thread.c and
-- `sched_create_process` of kernel/src/process.c.
use gummy.Prelude.{ℕ, ◌+◌, ◌-◌, ◌%◌, ◌^◌, Bool, ◌||◌, ◌==◌, leb, if◌then◌else◌, Option, none, some}
use gummy.Queue.{Ptr, null, update}
use gummy.Memory.{Bytes, memset}
use gummy.Sched.{Symbols, Kernel, thread_at, threads_per_process}
use gummy.Sched.Run.{kernel_stack_size}
use gummy.Lifecycle.{
  Resources, user_stack_pages, user_stack_size, user_flags, context_size, process_size,
  clear_thread, clear_process, adopt, start_context, free_slot, user_sp,
}

module _ {W : Type 0} (res : Resources W) where
  -- `none` is a read through NULL: no thread runs.
  unfoldable pub sched_create_process : W → Kernel → Option (Ptr × W × Kernel)
  sched_create_process w k =
      let (p, w1) = res.heap_alloc w process_size in
      if p == null
      then some (null, w1, k)
      else let k1 : Kernel = clear_process k p in
        let (space, w2) = res.vmm_clone w1 in
        if space == 0
        then some (null, res.heap_free w2 p, k1)
        else if k.current_thread == null
        then none
        else some (p, w2, adopt k1 p space (k1.process k1.current_thread))

  module _ (sym : Symbols) where
    -- The kernel once the thread `i` of `p` has its stacks: the context, the fields and the count.
    unfoldable pub start_thread : Kernel → Ptr → ℕ → Ptr → ℕ → Kernel
    start_thread k p i stack0 loc =
        let t : Ptr = thread_at p i in
        let idle : Bool = p == sym.idle_process in
        let sp0 : ℕ = (stack0 + kernel_stack_size - context_size) % 2 ^ 32 in
        let m : Bytes = memset k.memory.bytes stack0 0 kernel_stack_size in
        record k {
          memory = record k.memory {
            bytes =
                if idle
                then start_context m sp0 0x08 0x10 0 loc
                else start_context m sp0 0x1b 0x23 (user_sp i) loc;
          };
          process = update k.process t p;
          sp = if idle then k.sp else update k.sp t (user_sp i);
          stack = if idle then k.stack else update k.stack t (user_sp i - user_stack_size);
          sp0 = update k.sp0 t sp0;
          stack0 = update k.stack0 t stack0;
          num_threads = update k.num_threads p ((k.num_threads p + 1) % 256);
        }

    -- From the choice of the slot `i` on.
    unfoldable pub fill_slot : W → Kernel → Ptr → ℕ → ℕ → Ptr × W × Kernel
    fill_slot w k p i loc =
        let k1 : Kernel = clear_thread k (thread_at p i) in
        let (stack0, w1) = res.heap_alloc w kernel_stack_size in
        if stack0 == null
        then (null, w1, k1)
        else if p == sym.idle_process
        then (thread_at p i, w1, start_thread k1 p i stack0 loc)
        else let (region, w2) =
            res.vmm_alloc_pages_region_in w1 (k1.cr3 p) user_stack_pages user_flags
              (user_sp i - user_stack_size) (user_sp i) in
          if region == null
          then (null, res.heap_free w2 stack0, k1)
          else (thread_at p i, w2, start_thread k1 p i stack0 loc)

    abbrev in_slot : W → Kernel → Ptr → ℕ → Option ℕ → Ptr × W × Kernel
    in_slot w k p loc none = (null, w, k)
    in_slot w k p loc (some i) = fill_slot w k p i loc

    unfoldable pub sched_create_thread : W → Kernel → ℕ → Ptr → Ptr × W × Kernel
    sched_create_thread w k loc p =
        if p == null || loc == 0
        then (null, w, k)
        else if leb threads_per_process (k.num_threads p)
        then (null, w, k)
        else in_slot w k p loc (free_slot k p threads_per_process 0)
