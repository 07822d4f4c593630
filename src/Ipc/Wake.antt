-- ===== src/Ipc/Wake.antt =====
-- The end of `ipc_send`: the first thread that waits at the mailbox becomes ready.
use mathlib.Core.Path.{fun_ext, subst}
use gummy.Prelude.{
  ◌≡◌, refl, ◌≢◌, inl, inr, arith, true, List, [], ◌∷◌, ◌==◌, if◌then◌else◌, erase, ==_of_ne,
  Bool-cases, distinct, erase_of_not_has,
}
use gummy.Queue.{Ptr, null, update, Store, queue_pop, queue_empty}
use gummy.Queue.Links.{first_of}
use gummy.Queue.Inv.{Queues, Represents, enqueue}
use gummy.Queue.Pop.{rest_of, dequeue, queue_pop-first}
use gummy.Sched.{Symbols, Kernel, ready, mailbox_waiters}
use gummy.Sched.Moves.{AreApart, setters-MovesTo}
use gummy.Ipc.{replies, wake_waiter}

-- The queues after the first waiter of `p`, if there is one, has become ready.
abbrev pub woken : Symbols → Ptr → Queues → Queues
woken sym p f =
    if first_of (f (mailbox_waiters p)) == null
    then f
    else enqueue sym.ready_queue (first_of (f (mailbox_waiters p))) f

-- The kernel then, with the queues `s`.
abbrev pub after_wake : Kernel → Ptr → Queues → Store → Kernel
after_wake k p f s =
    let w : Ptr = first_of (f (mailbox_waiters p)) in
    record k { queues = s; state = if w == null then k.state else update k.state w ready }

erase-rest :
    (xs : List Ptr) → distinct xs ≡ true → erase (first_of xs) (rest_of xs) ≡ erase (first_of xs) xs
erase-rest [] d = refl
erase-rest (x ∷ xs) d = ground (arith, erase_of_not_has x xs)

enqueue-dequeue :
    {s : Store} {f : Queues} (ready_queue q : Ptr)
    → Represents s f
    → enqueue ready_queue (first_of (f q)) (dequeue q f) ≡ enqueue ready_queue (first_of (f q)) f
enqueue-dequeue {f} ready_queue q r = fun_ext λ a. ground (arith, erase-rest (f q), r.once q)

module _ (sym : Symbols) (k : Kernel) (f : Queues) (p : Ptr) (apart : AreApart sym)
    (r : Represents k.queues f) where
  pub wake_waiter-wakes :
      (s : Store) × (wake_waiter sym k p ≡ replies 0 (after_wake k p f s))
      × Represents s (woken sym p f)
  unfolding wake_waiter queue_empty
  wake_waiter-wakes = elim (Bool-cases (first_of (f q) == null)) [
    | inl nobody ↦ (k.queues, rw (==_of_ne real, first, nobody) refl, rw nobody r)
    | inr waiter ↦
        let (e1, r1) = queue_pop-first q r real in
        let given : first_of (f q) ≢ null = ground arith in
        let (s2, e2, r2) =
          (setters-MovesTo sym (record k { queues = (queue_pop k.queues q).1 }) (first_of (f q))
            apart r1 given).0 in
        (
          s2,
          rw (==_of_ne real, first, waiter, e1, waiter, e2) refl,
          rw waiter (subst (λ g. Represents s2 g) (enqueue-dequeue sym.ready_queue q r) r2),
        )
  ]
    where
      q : Ptr
      q = mailbox_waiters p

      real : q ≢ null
      real = omega arith

      first : k.queues.head_next q ≡ first_of (f q)
      first = r.first q real
