-- ===== src/Sched/Run.antt =====
-- `switch_context`, `schedule`, the timer and the calls that give up the processor:
-- kernel/src/sched.c and the end of kernel/src/thread.c. What they print and the end-of-interrupt
-- that the timer sends to the PIC are left out.
use gummy.Prelude.{ℕ, zero, suc, ◌+◌, ◌%◌, ◌^◌, Bool, true, false, ◌||◌, ◌==◌, leb, if◌then◌else◌}
use gummy.Queue.{Ptr, null, update, queue_push, queue_pop, queue_empty, queue_size}
use gummy.Sched.{
  ThreadState, running, ProcessState, normal, dying, Symbols, Kernel, thread_at, Outcome, stay,
  resume, waits, halted, fault, out_of_fuel, and_then, with_queues,
}
use gummy.Sched.Threads.{sched_ready, sched_zombie, sched_sleep}

abbrev pub kernel_stack_size : ℕ
kernel_stack_size = 4096

abbrev pub is_running : ThreadState → Bool
is_running running = true
is_running _ = false

abbrev pub is_dying : ProcessState → Bool
is_dying normal = false
is_dying dying = true

module _ (sym : Symbols) where
  -- The assignments of `switch_context`, and the context that it restores.
  unfoldable pub enter : Kernel → Ptr → Outcome
  enter k new =
      let to_idle : Bool = new == thread_at sym.idle_process 0 in
      let same_space : Bool = k.process new == k.current_process in
      resume (k.sp0 new) (record k {
        current_thread = new;
        tss_esp0 = if to_idle then k.tss_esp0 else (k.stack0 new + kernel_stack_size) % 2 ^ 32;
        tss_ss0 = if to_idle then k.tss_ss0 else 0x10;
        cpu_cr3 = if same_space then k.cpu_cr3 else k.cr3 (k.process new);
        current_process = k.process new;
        state = update k.state new running;
      })

  unfoldable pub switch_context : Kernel → Ptr → Outcome
  switch_context k new =
      if k.current_thread == null || new == null
      then stay k
      else if k.process new == null
      then halted
      else enter k new

  -- The end of `schedule`, from the thread that it took off the ready queue.
  unfoldable pub dispatch : Kernel → Ptr → Outcome
  dispatch k new =
      if new == k.current_thread
      then stay k
      else if new == null || k.process new == null
      then fault
      else if is_dying (k.process_state (k.process new))
      then stay k
      else switch_context k new

  -- `queue_pop` and what follows.
  unfoldable pub take_next : Kernel → Outcome
  take_next k =
      let (new, s) = queue_pop k.queues sym.ready_queue in dispatch (record k { queues = s }) new

  -- `ctx` is 0 where the caller gives no context.
  unfoldable pub schedule : Kernel → ℕ → Outcome
  schedule k ctx =
      if queue_empty k.queues sym.ready_queue
      then stay k
      else if k.current_thread == null
      then fault
      else let k1 : Kernel = record k {
        sp0 = if ctx == 0 then k.sp0 else update k.sp0 k.current_thread ctx;
      } in
        and_then
          (if is_running (k1.state k1.current_thread)
            then with_queues k1 (queue_push k1.queues sym.ready_queue k1.current_thread)
            else stay k1)
          take_next

  -- The loop of `timer_handler` over the sleep queue, on fuel.
  unfoldable pub wake : ℕ → Ptr → Kernel → Outcome
  wake zero n k = out_of_fuel
  wake (suc fuel) n k =
      let next : Ptr = k.queues.next n in
      let woken : Outcome =
        and_then (if leb (k.wake_tick n) k.ticks then sched_ready sym k n else stay k)
          (wake fuel next) in
      if n == null then stay k else woken

  -- A round for each sleeping thread, and one to see the end.
  unfoldable pub timer_handler : Kernel → ℕ → Outcome
  timer_handler k ctx =
      let k1 : Kernel = record k { ticks = (k.ticks + 1) % 2 ^ 32 } in
      and_then
        (wake (queue_size k1.queues sym.sleep_queue + 1) (k1.queues.head_next sym.sleep_queue) k1)
        (λ k2. schedule k2 ctx)

  -- After the switch the exiting thread does not run again; if `schedule` returns, the processor
  -- waits with the flags restored.
  unfoldable pub sched_exit_current_thread : Kernel → ℕ → ℕ → Outcome
  sched_exit_current_thread k ctx status =
      if k.current_thread == null
      then fault
      else if k.process k.current_thread == sym.idle_process
      then stay k
      else let flags : Bool = k.interrupts in
        let t : Ptr = k.current_thread in
        let k1 : Kernel = record k {
          interrupts = false;
          exit_code = update k.exit_code t status;
        } in
        and_then (sched_zombie sym k1 t)
          (λ k2. and_then (schedule k2 ctx) (λ k3. waits (record k3 { interrupts = flags })))

  unfoldable pub sched_thread_sleep : Kernel → ℕ → ℕ → Outcome
  sched_thread_sleep k ctx wake_tick =
      if k.current_thread == null || leb wake_tick k.ticks
      then stay k
      else if k.current_thread == thread_at sym.idle_process 0
      then stay k
      else let flags : Bool = k.interrupts in
        let k1 : Kernel = record k {
          interrupts = false;
          wake_tick = update k.wake_tick k.current_thread wake_tick;
        } in
        and_then (sched_sleep sym k1 k1.current_thread)
          (λ k2. and_then (schedule k2 ctx) (λ k3. stay (record k3 { interrupts = flags })))
