-- ===== src/Lifecycle/Destroy.antt =====
-- Destroying threads and processes: `sched_destroy_thread` of kernel/src/thread.c,
-- `sched_destroy_process` and `sched_destroy_current_process` of kernel/src/process.c. `none` is a
-- read through NULL, or a list of processes that is longer than the fuel.
use gummy.Prelude.{
  ℕ, zero, suc, ◌+◌, ◌%◌, Bool, true, false, ◌||◌, ◌==◌, if◌then◌else◌, Option, none, some,
}
use gummy.Queue.{Ptr, null, update, Store, queue_remove}
use gummy.Sched.{
  ThreadState, free, dying, Symbols, Kernel, thread_at, threads_per_process, Outcome, stay, fault,
  and_then,
}
use gummy.Sched.Run.{schedule}
use gummy.Process.{sched_get_current_process}
use gummy.Lifecycle.{Resources, user_stack_pages, reparent, unlink_process}

abbrev pub is_free : ThreadState → Bool
is_free free = true
is_free _ = false

-- What `sched_destroy_thread` writes once the node is out of its queue.
abbrev pub release : Bool → Kernel → Ptr → Option Store → Option Kernel
release flags k t none = none
release flags k t (some s) = some (record k {
  queues = s;
  num_threads = update k.num_threads (k.process t) ((k.num_threads (k.process t) + 255) % 256);
  state = update k.state t free;
  interrupts = flags;
})

abbrev pub with_world {ℓ} : {W : Type ℓ} → W → Option Kernel → Option (W × Kernel)
with_world w none = none
with_world w (some k) = some (w, k)

abbrev pub then_do {ℓ} :
    {W : Type ℓ} → Option (W × Kernel) → (W → Kernel → Option (W × Kernel)) → Option (W × Kernel)
then_do none f = none
then_do (some (w, k)) f = f w k

abbrev pub then_kernel : Option Kernel → (Kernel → Option Kernel) → Option Kernel
then_kernel none f = none
then_kernel (some k) f = f k

-- The loop of `sched_destroy_current_process` over the first `n` threads.
unfoldable pub dequeue_threads : Kernel → Ptr → ℕ → Option Kernel
dequeue_threads k p zero = some k
dequeue_threads k p (suc n) =
    then_kernel (dequeue_threads k p n)
      (λ k1. with_store k1 (queue_remove k1.queues (thread_at p n)))
  where
    with_store : Kernel → Option Store → Option Kernel
    with_store k1 none = none
    with_store k1 (some s) = some (record k1 { queues = s })

-- What `sched_destroy_current_process` does before it yields, for the process `p`.
unfoldable pub end_process : Kernel → Ptr → Option Kernel
end_process k p =
    let flags : Bool = k.interrupts in
    then_kernel (dequeue_threads (record k { interrupts = false }) p threads_per_process) (λ k1.
      some (record k1 { process_state = update k1.process_state p dying; interrupts = flags }))

abbrev pub after_kernel : Option Kernel → Outcome
after_kernel none = fault
after_kernel (some k) = stay k

-- `sys_yield` raises the interrupt 0x81, whose handler is `schedule`: `yield_ctx` is the address of the
-- registers that this interrupt pushes.
unfoldable pub sched_destroy_current_process : Symbols → Kernel → ℕ → Outcome
sched_destroy_current_process sym k yield_ctx =
    let p : Ptr = sched_get_current_process k in
    if p == null
    then stay k
    else and_then (after_kernel (end_process k p)) (λ k1. schedule sym k1 yield_ctx)

module _ {W : Type 0} (res : Resources W) where
  unfoldable pub sched_destroy_thread : W → Kernel → Ptr → Option (W × Kernel)
  sched_destroy_thread w k t =
      if t == null
      then some (w, k)
      else if is_free (k.state t) || k.process t == null || t == k.current_thread
      then some (w, k)
      else let w1 : W =
          if k.stack t == 0
          then w
          else res.vmm_free_pages_in w (k.cr3 (k.process t)) user_stack_pages (k.stack t) in
        let w2 : W = if k.stack0 t == 0 then w1 else res.heap_free w1 (k.stack0 t) in
        with_world w2
          (release k.interrupts (record k { interrupts = false }) t (queue_remove k.queues t))

  -- `sched_destroy_thread` of the first `n` threads, in order.
  unfoldable pub destroy_threads : W → Kernel → Ptr → ℕ → Option (W × Kernel)
  destroy_threads w k p zero = some (w, k)
  destroy_threads w k p (suc n) =
      then_do (destroy_threads w k p n) (λ w1 k1. sched_destroy_thread w1 k1 (thread_at p n))

  -- The end of `sched_destroy_process`, from the loop over the threads on.
  unfoldable pub destroy_rest : W → Kernel → Ptr → Option (W × Kernel)
  destroy_rest w k p = then_do (destroy_threads w k p threads_per_process) (λ w1 k1.
      let w2 : W = res.vmm_destroy w1 (k1.cr3 p) in
      let w3 : W = if k1.cr3 p == 0 then w2 else res.pmm_free_page w2 (k1.cr3 p) in
      some (res.heap_free w3 p, unlink_process k1 p))

  abbrev pub after_reparent : W → Ptr → Option Kernel → Option (W × Kernel)
  after_reparent w p none = none
  after_reparent w p (some k) = destroy_rest w k p

  unfoldable pub sched_destroy_process : ℕ → W → Kernel → Ptr → Option (W × Kernel)
  sched_destroy_process fuel w k p =
      if p == null
      then some (w, k)
      else if k.cpu_cr3 == k.cr3 p
      then some (w, k)
      else after_reparent w p (reparent fuel k p k.first_process)
