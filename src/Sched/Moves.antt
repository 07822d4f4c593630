-- ===== src/Sched/Moves.antt =====
-- Moving a thread between the queues, against the queues as lists.
use mathlib.Core.Path.{fun_ext, subst}
use gummy.Prelude.{
  ◌≡◌, refl, ◌≢◌, true, false, arith, ◌==◌, List, erase, distinct, erase_of_not_has, has-erase,
}
use gummy.Queue.{Ptr, null, update, Store}
use gummy.Queue.Inv.{Queues, Represents, without, enqueue}
use gummy.Queue.Remove.{queue_remove-erase}
use gummy.Queue.Push.{queue_push-enqueue}
use gummy.Sched.{ThreadState, ready, blocked, zombie, sleeping, Symbols, Kernel, Outcome, stay}
use gummy.Sched.Threads.{move_to, sched_ready, sched_blocked, sched_zombie, sched_sleep}

pub erase-erase : (p : Ptr) (xs : List Ptr) → distinct xs ≡ true → erase p (erase p xs) ≡ erase p xs
erase-erase p xs d = erase_of_not_has p (erase p xs) (ground (arith, has-erase p p xs))

pub enqueue-without :
    {s : Store} {f : Queues} (q p : Ptr)
    → Represents s f
    → enqueue q p (without p f) ≡ enqueue q p f
enqueue-without {f} q p r = fun_ext λ a. ground (arith, erase-erase p (f a), r.once a)

-- The kernel after the thread `t` moved to a queue: only the queues and its state differ.
abbrev pub moved : Kernel → Ptr → ThreadState → Store → Kernel
moved k t st s = record k { queues = s; state = update k.state t st }

-- The outcome `o` is that `t` stands at the end of `q`, and only there, with the state `st`.
abbrev pub MovesTo : Queues → Kernel → Ptr → ThreadState → Ptr → Outcome → Type 0
MovesTo f k q st t o = (s : Store) × (o ≡ stay (moved k t st s)) × Represents s (enqueue q t f)

pub move_to-enqueue :
    (k : Kernel) {f : Queues} (q : Ptr) (st : ThreadState) (t : Ptr)
    → Represents k.queues f
    → q ≢ null
    → t ≢ null
    → MovesTo f k q st t (move_to q st k t)
unfolding move_to
move_to-enqueue k {f} q st t r real some_thread =
    let (s1, e1, r1) = queue_remove-erase t r some_thread in
    let (s2, e2, r2) = queue_push-enqueue q t r1 real some_thread in
    let given : (t == null) ≡ false = ground arith in
    (s2, rw (given, e1, e2) refl, subst (λ g. Represents s2 g) (enqueue-without q t r) r2)

-- The queues of the scheduler lie at four different addresses, none of them NULL.
pub record AreApart (sym : Symbols) : Type 0 where
  pub ready_real : sym.ready_queue ≢ null
  pub blocked_real : sym.blocked_queue ≢ null
  pub zombie_real : sym.zombie_queue ≢ null
  pub sleep_real : sym.sleep_queue ≢ null
  pub ready_sleep : sym.ready_queue ≢ sym.sleep_queue
  pub ready_blocked : sym.ready_queue ≢ sym.blocked_queue
  pub ready_zombie : sym.ready_queue ≢ sym.zombie_queue
  pub blocked_zombie : sym.blocked_queue ≢ sym.zombie_queue
  pub blocked_sleep : sym.blocked_queue ≢ sym.sleep_queue
  pub zombie_sleep : sym.zombie_queue ≢ sym.sleep_queue

-- `sched_ready`, `sched_blocked`, `sched_zombie` and `sched_sleep` each put a thread at the end of
-- their queue and give it their state, take it out of the queue that held it, and change neither
-- another queue, nor another thread, nor the interrupt flag.
pub setters-MovesTo :
    (sym : Symbols) (k : Kernel) {f : Queues} (t : Ptr)
    → AreApart sym
    → Represents k.queues f
    → t ≢ null
    → MovesTo f k sym.ready_queue ready t (sched_ready sym k t)
      × MovesTo f k sym.blocked_queue blocked t (sched_blocked sym k t)
      × MovesTo f k sym.zombie_queue zombie t (sched_zombie sym k t)
      × MovesTo f k sym.sleep_queue sleeping t (sched_sleep sym k t)
unfolding sched_ready sched_blocked sched_zombie sched_sleep
setters-MovesTo sym k t apart r real = (
  move_to-enqueue k sym.ready_queue ready t r apart.ready_real real,
  move_to-enqueue k sym.blocked_queue blocked t r apart.blocked_real real,
  move_to-enqueue k sym.zombie_queue zombie t r apart.zombie_real real,
  move_to-enqueue k sym.sleep_queue sleeping t r apart.sleep_real real,
)
