-- ===== src/Tests/LifecycleTests.antt =====
-- Making and destroying threads and processes at a concrete kernel.
use gummy.Prelude.{ℕ, ◌+◌, ◌≡◌, refl, arith, [], ◌∷◌, some}
use gummy.Queue.{Ptr, update}
use gummy.Queue.Inv.{Queues, Represents}
use gummy.Sched.{Kernel, dying, mailbox_ring}
use gummy.Process.Find.{Processes}
use gummy.Ipc.Mailbox.{messages, IsMailbox}
use gummy.Lifecycle.{Resources}
use gummy.Lifecycle.Destroy.{sched_destroy_process}
use gummy.Lifecycle.Create.{sched_create_process}
use gummy.Lifecycle.Unlink.{reparented}
use gummy.Lifecycle.Erase.{sched_destroy_process-erase}
use gummy.Lifecycle.Spawn.{sched_create_process-adopts}
use gummy.Lifecycle.Reap.{reap, survivors, reap-survivors}
use gummy.Tests.SchedTests.{queues, store-Represents, kernel}
use gummy.Tests.IpcTests.{kernel-Processes}

-- The state counts the calls; the heap gives one block, and the address spaces one directory.
abbrev pub resources : Resources ℕ
resources = record {
  heap_alloc = λ w n. (20000, w + 1);
  heap_free = λ w p. w + 1;
  vmm_clone = λ w. (0x300000, w + 1);
  vmm_destroy = λ w c. w + 1;
  vmm_alloc_pages_region_in = λ w c n flags a b. (a, w + 1);
  vmm_free_pages_in = λ w c n p. w + 1;
  pmm_free_page = λ w p. w + 1;
}

sched_destroy_process-erase_example :
    (w' : ℕ) × (k' : Kernel) × (g : Queues) × (sched_destroy_process resources 4 0 kernel 4000
      ≡ some (w', k'))
    × Processes k' (2000 ∷ 1000 ∷ [])
    × ((a : Ptr) → k'.dad a ≡ reparented kernel 4000 (4000 ∷ 2000 ∷ 1000 ∷ []) a)
    × Represents k'.queues g
sched_destroy_process-erase_example =
    sched_destroy_process-erase resources 4 0 kernel 4000 (4000 ∷ 2000 ∷ 1000 ∷ []) store-Represents
      kernel-Processes refl (omega arith) (omega arith)

sched_create_process-adopts_example :
    (w' : ℕ) × (k' : Kernel) × (sched_create_process resources 0 kernel ≡ some (20000, w', k'))
    × Processes k' (20000 ∷ 4000 ∷ 2000 ∷ 1000 ∷ [])
    × (k'.pid 20000 ≡ 3)
    × (k'.cr3 20000 ≡ 0x300000)
    × (k'.dad 20000 ≡ 2000)
    × IsMailbox (k'.memory.ring (mailbox_ring 20000))
    × (messages k'.memory 20000 ≡ [])
    × Represents k'.queues queues
sched_create_process-adopts_example =
    sched_create_process-adopts resources 0 kernel queues (4000 ∷ 2000 ∷ 1000 ∷ []) kernel-Processes
      store-Represents (omega arith) (omega arith) refl (λ i l q. ground arith) refl (omega arith)
      (λ i l. omega arith)

-- The kernel when the process 4000 is dying.
abbrev with_dying : Kernel
with_dying = record kernel { process_state = update kernel.process_state 4000 dying }

dying-Processes : Processes with_dying (4000 ∷ 2000 ∷ 1000 ∷ [])
dying-Processes = record {
  no_null = kernel-Processes.no_null;
  once = kernel-Processes.once;
  first = kernel-Processes.first;
  after = kernel-Processes.after;
  before = kernel-Processes.before;
}

survivors_two : survivors with_dying.process_state (4000 ∷ 2000 ∷ 1000 ∷ []) ≡ 2000 ∷ 1000 ∷ []
survivors_two = refl

reap-survivors_example :
    (w' : ℕ) × (k' : Kernel) × (g : Queues) × (reap resources 4 4 0 with_dying 4000 ≡ some (w', k'))
    × Processes k' (survivors with_dying.process_state (4000 ∷ 2000 ∷ 1000 ∷ []))
    × Represents k'.queues g
reap-survivors_example =
    reap-survivors resources 4 4 0 with_dying (4000 ∷ 2000 ∷ 1000 ∷ []) store-Represents
      dying-Processes (λ p h d. ground (arith, h)) (omega arith) (omega arith)
