-- ===== src/Lifecycle/Spawn.antt =====
-- What making a process does to the list of processes, the mailbox and the queues.
use gummy.Prelude.{
  ℕ, zero, suc, ◌<◌, ◌≡◌, refl, ◌≢◌, arith, true, false, ◌==◌, if◌then◌else◌, List, [], ◌∷◌, has,
  some, ap, ==_of_ne,
}
use gummy.Queue.{Ptr, null, update, Store}
use gummy.Queue.Links.{first_of, prev_of, has-first_of}
use gummy.Queue.Read.{queue_init-empty}
use gummy.Queue.Inv.{Queues, Represents}
use gummy.RingBuffer.{Memory, ring_buffer_init}
use gummy.RingBuffer.Inv.{init-IsValid}
use gummy.Sched.{Kernel, thread_at, mailbox_ring, mailbox_waiters, mailbox_data}
use gummy.Process.Find.{Processes}
use mathlib.Core.List.{map}
use gummy.Ipc.{message_size, ipc_queue_size}
use gummy.Ipc.Message.{decode}
use gummy.Ipc.Mailbox.{messages, IsMailbox}
use gummy.Lifecycle.{Resources, process_size, clear_thread, clear_threads, clear_process, adopt}
use gummy.Lifecycle.Create.{sched_create_process}

-- No queue holds one of the `n` first threads of `p`.
abbrev pub HasIdleThreads : Queues → Ptr → ℕ → Type 0
HasIdleThreads f p n = (i : ℕ) → i < n → (q : Ptr) → has (thread_at p i) (f q) ≡ false

-- The memory with a node cleared that no queue holds.
abbrev cleared : Store → Ptr → Store
cleared s t = record s {
  prev = update s.prev t null;
  next = update s.next t null;
  q = update s.q t null;
}

cleared-Represents :
    {s : Store} {f : Queues} (t : Ptr)
    → Represents s f
    → ((q : Ptr) → has t (f q) ≡ false)
    → Represents (cleared s t) f
cleared-Represents t r out = record {
  nowhere = r.nowhere;
  no_null = r.no_null;
  once = r.once;
  owner = λ q p m n. ground (arith, r.owner q p m n, out q);
  first = r.first;
  last = r.last;
  after = λ q p m h. ground (arith, r.after q p m h, out q);
  before = λ q p m h. ground (arith, r.before q p m h, out q);
  count = r.count;
}

clear_threads-Represents :
    (k : Kernel) {f : Queues} (p : Ptr) (n : ℕ)
    → Represents k.queues f
    → HasIdleThreads f p n
    → Represents (clear_threads k p n).queues f
unfolding clear_threads clear_thread
clear_threads-Represents k p zero r out = r
clear_threads-Represents k p (suc n) r out =
    cleared-Represents (thread_at p n)
      (clear_threads-Represents k p n r (λ i l. out i (omega arith))) (out n (omega arith))

-- The fields of the list of processes after `clear_threads`.
clear_threads-list :
    (k : Kernel) (p : Ptr) (n : ℕ)
    → ((clear_threads k p n).first_process ≡ k.first_process)
      × ((clear_threads k p n).next_process ≡ k.next_process)
      × ((clear_threads k p n).prev_process ≡ k.prev_process)
      × ((clear_threads k p n).current_pid ≡ k.current_pid)
      × ((clear_threads k p n).current_thread ≡ k.current_thread)
unfolding clear_threads clear_thread
clear_threads-list k p zero = (refl, refl, refl, refl, refl)
clear_threads-list k p (suc n) = clear_threads-list k p n

-- A thread that is not one of the cleared ones keeps its process.
clear_threads-process :
    (k : Kernel) (p t : Ptr) (n : ℕ)
    → ((i : ℕ) → i < n → thread_at p i ≢ t)
    → (clear_threads k p n).process t ≡ k.process t
unfolding clear_threads clear_thread
clear_threads-process k p t zero out = refl
clear_threads-process k p t (suc n) out =
    ground (arith, out n (omega arith), clear_threads-process k p t n (λ i l. out i (omega arith)))

-- Only what stands before the first element depends on the start.
prev_of_start :
    (p : Ptr) (ps : List Ptr) (a : Ptr)
    → has a ps ≡ true
    → prev_of p ps a ≡ (if first_of ps == a then p else prev_of null ps a)
prev_of_start p [] a h = absurd (ground arith)
prev_of_start p (x ∷ ps) a h = ground arith

-- The mailbox of a new process.
init-IsMailbox :
    (m : Memory) (p : Ptr)
    → p ≢ null
    → let m' = ring_buffer_init m (mailbox_ring p) (mailbox_data p) message_size ipc_queue_size in
      IsMailbox (m'.ring (mailbox_ring p)) × (messages m' p ≡ [])
unfolding ring_buffer_init
init-IsMailbox m p real =
    let (valid, empty) =
      init-IsValid m (mailbox_ring p) (mailbox_data p) message_size ipc_queue_size (omega arith)
        real (omega arith) (omega arith) (omega arith) in
    (
      record { valid = valid; slots = ground arith; slot_size = ground arith },
      ap (map decode) empty,
    )

-- The list with a new process in front.
adopt-Processes :
    (k : Kernel) (p : Ptr) (space : ℕ) (dad : Ptr) (ps : List Ptr)
    → Processes k ps
    → p ≢ null
    → has p ps ≡ false
    → Processes (adopt (clear_process k p) p space dad) (p ∷ ps)
unfolding adopt clear_process
adopt-Processes k p space dad ps v real out =
    let (first, next, prev, _, _) = clear_threads-list k p 8 in
    record {
      no_null = ground (arith, v.no_null);
      once = ground (arith, v.once);
      first = refl;
      after = λ a h. ground (arith, first, v.first, ap (λ (x : Ptr → Ptr). x a) next, v.after a);
      before = λ a h. ground (
        arith,
        first,
        v.first,
        ap (λ (x : Ptr → Ptr). x a) prev,
        v.before a,
        prev_of_start p ps a,
        has-first_of ps,
      );
    }

module _ {W : Type 0} (res : Resources W) (w : W) (k : Kernel) (f : Queues) (ps : List Ptr)
    (v : Processes k ps) (r : Represents k.queues f) where
  abbrev pub block : Ptr
  block = (res.heap_alloc w process_size).0

  abbrev pub space : ℕ
  space = (res.vmm_clone (res.heap_alloc w process_size).1).0

  -- When the heap gives a block that is no process yet, whose threads no queue holds and none of
  -- which runs, and there is an address space, `sched_create_process` returns that block as a new
  -- process: the first of the list, with the next PID, the process of the running thread as parent
  -- and an empty mailbox that is in order; the queues are as before.
  pub sched_create_process-adopts :
      block ≢ null
      → space ≢ 0
      → has block ps ≡ false
      → HasIdleThreads f block 8
      → f (mailbox_waiters block) ≡ []
      → k.current_thread ≢ null
      → ((i : ℕ) → i < 8 → thread_at block i ≢ k.current_thread)
      → (w' : W) × (k' : Kernel) × (sched_create_process res w k ≡ some (block, w', k'))
        × Processes k' (block ∷ ps)
        × (k'.pid block ≡ k.current_pid)
        × (k'.cr3 block ≡ space)
        × (k'.dad block ≡ k.process k.current_thread)
        × IsMailbox (k'.memory.ring (mailbox_ring block))
        × (messages k'.memory block ≡ [])
        × Represents k'.queues f
  unfolding sched_create_process clear_process adopt ring_buffer_init
  sched_create_process-adopts real mapped new idle nobody runs away =
      let (_, _, _, next_pid, current) = clear_threads-list k block 8 in
      let k1 : Kernel = clear_process k block in
      let mail = init-IsMailbox k1.memory block real in
      (
        (res.vmm_clone (res.heap_alloc w process_size).1).1,
        adopt k1 block space (k1.process k1.current_thread),
        rw (==_of_ne real, ==_of_ne mapped, current, ==_of_ne runs) refl,
        adopt-Processes k block space (k1.process k1.current_thread) ps v real new,
        ground (arith, next_pid),
        ground arith,
        ground (arith, current, clear_threads-process k block k.current_thread 8 away),
        mail.0,
        mail.1,
        queue_init-empty (mailbox_waiters block) null null 0
            (clear_threads-Represents k block 8 r idle) nobody,
      )
