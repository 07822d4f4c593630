-- ===== src/Lifecycle/Leave.antt =====
-- What `sched_destroy_current_process` of kernel/src/process.c does to the queues.
use gummy.Prelude.{
  ℕ, zero, suc, ◌≡◌, refl, arith, Bool, true, false, not, ◌&&◌, ◌||◌, ◌==◌, has, distinct,
  has-erase, distinct-erase, some,
}
use gummy.Queue.{Ptr, update, Store}
use gummy.Queue.Inv.{Queues, Represents, without}
use gummy.Queue.Remove.{queue_remove-erase}
use gummy.Sched.{Kernel, dying, thread_at}
use gummy.Lifecycle.Destroy.{dequeue_threads, end_process}

-- `a` is one of the first `n` threads of `p`.
abbrev pub is_thread_of : Ptr → ℕ → Ptr → Bool
is_thread_of p zero a = false
is_thread_of p (suc n) a = a == thread_at p n || is_thread_of p n a

-- The queues without the first `n` threads of `p`.
abbrev pub without_threads : Queues → Ptr → ℕ → Queues
without_threads f p zero = f
without_threads f p (suc n) = without (thread_at p n) (without_threads f p n)

distinct-without_threads :
    (f : Queues) (p : Ptr) (n : ℕ) (q : Ptr)
    → distinct (f q) ≡ true
    → distinct (without_threads f p n q) ≡ true
distinct-without_threads f p zero q d = d
distinct-without_threads f p (suc n) q d =
    distinct-erase (thread_at p n) (without_threads f p n q) (distinct-without_threads f p n q d)

-- What the queues hold then.
pub has-without_threads :
    (f : Queues) (p : Ptr) (n : ℕ) (q a : Ptr)
    → distinct (f q) ≡ true
    → has a (without_threads f p n q) ≡ (not (is_thread_of p n a) && has a (f q))
has-without_threads f p zero q a d = refl
has-without_threads f p (suc n) q a d = ground (
  arith,
  has-erase a (thread_at p n) (without_threads f p n q) (distinct-without_threads f p n q d),
  has-without_threads f p n q a d,
)

dequeue_threads-without :
    (k : Kernel) {f : Queues} (p : Ptr) (n : ℕ)
    → Represents k.queues f
    → (s : Store) × (dequeue_threads k p n ≡ some (record k { queues = s }))
      × Represents s (without_threads f p n)
unfolding dequeue_threads
dequeue_threads-without k p zero r = (k.queues, refl, r)
dequeue_threads-without k p (suc n) r =
    let (s, e, r1) = dequeue_threads-without k p n r in
    let (s', e', r2) = queue_remove-erase (thread_at p n) r1 (omega arith) in
    (s', rw (e, e') refl, r2)

-- The kernel in which the process `p` is dying and `s` is the queues.
abbrev pub ended : Kernel → Ptr → Store → Kernel
ended k p s = record k { queues = s; process_state = update k.process_state p dying }

-- Before the yield, the process is dying and its threads are off every queue.
pub end_process-without :
    (k : Kernel) {f : Queues} (p : Ptr)
    → Represents k.queues f
    → (s : Store) × (end_process k p ≡ some (ended k p s)) × Represents s (without_threads f p 8)
unfolding end_process
end_process-without k p r =
    let (s, e, r1) = dequeue_threads-without (record k { interrupts = false }) p 8 r in
    (s, rw e refl, r1)
