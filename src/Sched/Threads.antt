-- ===== src/Sched/Threads.antt =====
-- Moving a thread between the queues: the setters of kernel/src/thread.c.
use gummy.Prelude.{Bool, false, ◌==◌, if◌then◌else◌}
use gummy.Queue.{Ptr, null, update, queue_remove, queue_push}
use gummy.Sched.{
  ThreadState, ready, blocked, zombie, sleeping, Symbols, Kernel, Outcome, stay, and_then,
  with_queues,
}

-- The body that `sched_ready`, `sched_blocked`, `sched_zombie` and `sched_sleep` share, with
-- interrupts off and the flags restored.
unfoldable pub move_to : Ptr → ThreadState → Kernel → Ptr → Outcome
move_to q st k thread =
    if thread == null
    then stay k
    else let flags : Bool = k.interrupts in
      and_then (with_queues (record k { interrupts = false }) (queue_remove k.queues thread)) λ k1.
        and_then (with_queues k1 (queue_push k1.queues q thread))
          λ k2. stay (record k2 { state = update k2.state thread st; interrupts = flags })

module _ (sym : Symbols) where
  unfoldable pub sched_ready : Kernel → Ptr → Outcome
  sched_ready k thread = move_to sym.ready_queue ready k thread

  unfoldable pub sched_blocked : Kernel → Ptr → Outcome
  sched_blocked k thread = move_to sym.blocked_queue blocked k thread

  unfoldable pub sched_zombie : Kernel → Ptr → Outcome
  sched_zombie k thread = move_to sym.zombie_queue zombie k thread

  unfoldable pub sched_sleep : Kernel → Ptr → Outcome
  sched_sleep k thread = move_to sym.sleep_queue sleeping k thread
