-- ===== src/Queue/Remove.antt =====
-- `queue_remove` and `queue_pop` against the queues as lists.
use mathlib.Core.Path.{fun_ext, subst}
use gummy.Prelude.{
  ◌≡◌, refl, ◌≢◌, inl, inr, true, false, arith, ◌==◌, has, Bool-cases, ==_iff, some,
  erase_of_not_has, sym,
}
use gummy.Queue.{Ptr, null, Store, queue_remove, bypass_forward, bypass_backward, detach}
use gummy.Queue.Links.{next_of-ne, prev_of-ne}
use gummy.Queue.Inv.{Queues, Represents, without, Unlinks}
use gummy.Queue.Unlink.{Unlinks-Represents}

-- A node that names no queue is in none.
pub without_of_free :
    {s : Store} {f : Queues} (p : Ptr) → Represents s f → p ≢ null → s.q p ≡ null → without p f ≡ f
without_of_free {s} {f} p r real free = fun_ext λ q. erase_of_not_has p (f q) (out q)
  where
    out : (q : Ptr) → has p (f q) ≡ false
    out q = ground (arith, r.owner q p, r.nowhere)

module _ {s : Store} {f : Queues} (p : Ptr) (r : Represents s f) (real : p ≢ null)
    (some_queue : s.q p ≢ null) where
  in_queue : has p (f (s.q p)) ≡ true
  in_queue = ground (arith, r.owner (s.q p) p)

  next-ne : s.next p ≢ p
  next-ne = ground (arith, r.after (s.q p) p, in_queue, next_of-ne (f (s.q p)) p, r.once (s.q p))

  prev-ne : s.prev p ≢ p
  prev-ne = ground (
    arith,
    r.before (s.q p) p,
    in_queue,
    prev_of-ne null (f (s.q p)) p,
    r.once (s.q p),
    r.no_null (s.q p),
  )

  detach-Unlinks : Unlinks s (s.q p) p (detach (bypass_backward (bypass_forward s p) p) p)
  detach-Unlinks = record {
    q_field = λ a. ground (arith, next-ne, prev-ne);
    next_field = λ a d n. ground (arith, next-ne, prev-ne);
    prev_field = λ a d n. ground (arith, next-ne, prev-ne);
    head_next_field = λ a. ground (arith, next-ne, prev-ne);
    head_prev_field = λ a. ground (arith, next-ne, prev-ne);
    size_field = λ a. ground (arith, next-ne, prev-ne);
  }

-- `queue_remove` on a node other than NULL takes the node out of the queue that holds it, if any
-- does, and leaves every other queue as it is.
pub queue_remove-erase :
    {s : Store} {f : Queues} (p : Ptr)
    → Represents s f
    → p ≢ null
    → (s' : Store) × (queue_remove s p ≡ some s') × Represents s' (without p f)
unfolding queue_remove
queue_remove-erase {s} {f} p r real = elim (Bool-cases (s.q p == null)) [
  | inl free ↦ (
    s,
    ground arith,
    subst (λ g. Represents s g) (sym (without_of_free p r real ((==_iff _ _).0 free))) r,
  )
  | inr held ↦ (
    detach (bypass_backward (bypass_forward s p) p) p,
    ground arith,
    Unlinks-Represents p (s.q p) r real (ground arith) refl
        (detach-Unlinks p r real (ground arith)),
  )
]
