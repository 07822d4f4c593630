-- ===== src/Syscall/Create.antt =====
-- The system calls that make threads and processes: `sys_nprocess_impl` and `sys_nthread_impl` of
-- kernel/src/arch/i686/syscall.c. The interrupt flag and CR3, which are changed and restored around the
-- copy, are left out.
use gummy.Prelude.{ℕ, ◌+◌, ◌*◌, ◌/◌, ◌%◌, ◌^◌, ◌||◌, ◌==◌, if◌then◌else◌, Option, none, some, List}
use gummy.Queue.{Ptr, null}
use gummy.Memory.{memcpy, bytes_at}
use gummy.Bitmap.{align_up}
use gummy.Pmm.{page_size}
use gummy.Sched.{Symbols, Kernel, fault}
use gummy.Sched.Threads.{sched_ready}
use gummy.Process.{sched_get_current_process}
use gummy.Lifecycle.{Resources, user_flags}
use gummy.Lifecycle.Create.{sched_create_process, sched_create_thread}
use gummy.Lifecycle.Destroy.{sched_destroy_process}
use gummy.Syscall.{Answer, answers, leaves, after_outcome, with_value, no_call}

-- Where the program of a process is.
abbrev pub user_entry : Ptr
user_entry = 0x400000

module _ {W : Type 0} (res : Resources W) (sym : Symbols) where
  abbrev after_create : Ptr × W × Kernel → Answer W
  after_create (t, w, k) =
      if t == null then answers no_call w k else after_outcome w (sched_ready sym k t)

  unfoldable pub sys_nthread_impl : W → Kernel → ℕ → Answer W
  sys_nthread_impl w k entry =
      let p : Ptr = sched_get_current_process k in
      if p == null
      then answers no_call w k
      else after_create (sched_create_thread res sym w k entry p)

  module _ (store_in : W → ℕ → Ptr → List ℕ → W) (fuel : ℕ) where
    -- A failure: the process is destroyed and 0 is returned.
    abbrev give_up : Option (W × Kernel) → W → Answer W
    give_up none w = leaves w fault
    give_up (some (w1, k1)) w = answers 0 w1 k1

    abbrev destroyed : W → Kernel → Ptr → Answer W
    destroyed w k p = give_up (sched_destroy_process res fuel w k p) w

    -- The program is copied and the thread becomes ready.
    abbrev start : W → Kernel → Ptr → Ptr → Ptr → ℕ → Answer W
    start w k block p t n =
        let w1 : W = store_in w (k.cr3 p) user_entry (bytes_at k.memory.bytes block n) in
        with_value (k.pid p) (after_outcome (res.heap_free w1 block) (sched_ready sym k t))

    abbrev with_thread : Ptr → Ptr → ℕ → ℕ → Ptr × W × Kernel → Answer W
    with_thread block p pages n (t, w, k) =
        if t == null
        then destroyed (res.heap_free (res.vmm_free_pages_in w (k.cr3 p) pages user_entry) block) k
            p
        else start w k block p t n

    abbrev with_region : Kernel → Ptr → Ptr → ℕ → ℕ → Ptr × W → Answer W
    with_region k block p pages n (region, w) =
        if region == null
        then destroyed (res.heap_free w block) k p
        else with_thread block p pages n (sched_create_thread res sym w k user_entry p)

    abbrev with_process : Ptr → ℕ → W → Option (Ptr × W × Kernel) → Answer W
    with_process block n w none = leaves w fault
    with_process block n w (some (p, w1, k)) =
        let pages : ℕ = align_up 32 n page_size / page_size in
        if p == null
        then answers 0 (res.heap_free w1 block) k
        else with_region k block p pages n (
            res.vmm_alloc_pages_region_in w1 (k.cr3 p) pages user_flags user_entry
              ((user_entry + pages * page_size) % 2 ^ 32))

    unfoldable pub sys_nprocess_impl : W → Kernel → Ptr → ℕ → Answer W
    sys_nprocess_impl w k entry n =
        let (block, w1) = res.heap_alloc w n in
        let k1 : Kernel = record k {
          memory = record k.memory { bytes = memcpy k.memory.bytes block entry n };
        } in
        if entry == null || n == 0
        then answers 0 w k
        else if block == null
        then answers 0 w1 k
        else with_process block n w1 (sched_create_process res w1 k1)
