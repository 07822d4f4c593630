-- ===== src/Sched/Start/Idle.antt =====
-- The kernel that `sched_init` leaves.
use gummy.Prelude.{ℕ, ◌≡◌, refl, ◌≢◌, arith, [], ◌∷◌}
use gummy.Queue.{Ptr, null, Store, queue_init}
use gummy.Queue.Inv.{Queues, Represents}
use gummy.Sched.{Symbols, Kernel}
use gummy.Sched.Start.{sched_init}
use gummy.Process.{sched_get_current_process, sched_get_current_pid}
use gummy.Process.Find.{Processes}

queue_init-Represents :
    {s : Store} {f : Queues} (q : Ptr) → Represents s f → f q ≡ [] → Represents (queue_init s q) f
unfolding queue_init
queue_init-Represents {s} {f} q r e = record {
  nowhere = r.nowhere;
  no_null = r.no_null;
  once = r.once;
  owner = λ x p m k. ground (arith, r.owner x p);
  first = λ x m. ground (arith, r.first x, e);
  last = λ x m. ground (arith, r.last x, e);
  after = λ x p m k. ground (arith, r.after x p);
  before = λ x p m k. ground (arith, r.before x p);
  count = λ x m. ground (arith, r.count x, e);
}

-- When no queue holds a node, `sched_init` leaves the queues empty and the idle process as the only
-- one of the list: its first thread runs, with the PID that was next.
pub sched_init-idle :
    (sym : Symbols) (kernel_cr3 : ℕ) (k : Kernel) (frequency : ℕ)
    → sym.idle_process ≢ null
    → Represents k.queues (λ q. [])
    → let k' = (sched_init sym kernel_cr3 k frequency).2 in
      Processes k' (sym.idle_process ∷ [])
      × Represents k'.queues (λ q. [])
      × (sched_get_current_process k' ≡ sym.idle_process)
      × (sched_get_current_pid k' ≡ k.current_pid)
unfolding sched_init sched_get_current_process sched_get_current_pid
sched_init-idle sym kernel_cr3 k frequency real r = (
  record {
    no_null = ground arith;
    once = refl;
    first = refl;
    after = λ p h. ground arith;
    before = λ p h. ground arith;
  },
  queue_init-Represents sym.sleep_queue
      (queue_init-Represents sym.zombie_queue
        (queue_init-Represents sym.blocked_queue (queue_init-Represents sym.ready_queue r refl)
          refl)
        refl)
      refl,
  ground arith,
  ground arith,
)
