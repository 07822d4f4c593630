-- ===== src/Queue/Pop.antt =====
-- `queue_pop` against the queues as lists.
use mathlib.Core.Path.{fun_ext}
use gummy.Prelude.{
  ◌≡◌, refl, ◌≢◌, inl, inr, true, false, arith, ◌==◌, has, erase, List, [], ◌∷◌, Bool-cases, ==_iff,
  erase_of_not_has,
}
use gummy.Queue.{Ptr, null, Store, queue_pop, update}
use gummy.Queue.Links.{first_of, has-first_of, prev_of, next_of-ne}
use gummy.Queue.Inv.{Queues, Represents, without, Unlinks}
use gummy.Queue.Unlink.{Unlinks-Represents}

abbrev pub rest_of : List Ptr → List Ptr
rest_of [] = []
rest_of (x ∷ xs) = xs

-- `q` without its first node.
abbrev pub dequeue : Ptr → Queues → Queues
dequeue q f = update f q (rest_of (f q))

erase-first_of : (xs : List Ptr) → first_of xs ≢ null → erase (first_of xs) xs ≡ rest_of xs
erase-first_of [] n = refl
erase-first_of (x ∷ xs) n = ground arith

first_of-null : (xs : List Ptr) → has null xs ≡ false → first_of xs ≡ null → xs ≡ rest_of xs
first_of-null [] n e = refl
first_of-null (x ∷ xs) n e = ground arith

prev_of-first_of : (p : Ptr) (xs : List Ptr) → first_of xs ≢ null → prev_of p xs (first_of xs) ≡ p
prev_of-first_of p [] n = ground arith
prev_of-first_of p (x ∷ xs) n = ground arith

module _ {s : Store} {f : Queues} (q : Ptr) (r : Represents s f) (real : q ≢ null) where
  dequeue_of_empty : s.head_next q ≡ null → f ≡ dequeue q f
  dequeue_of_empty e = fun_ext λ a. ground (arith, first_of-null (f q), r.first q, r.no_null q)

  module _ (some_node : s.head_next q ≢ null) where
    head_of : s.head_next q ≡ first_of (f q)
    head_of = r.first q real

    head_in : has (s.head_next q) (f q) ≡ true
    head_in = ground (arith, head_of, has-first_of (f q))

    head_owner : s.q (s.head_next q) ≡ q
    head_owner = ground (arith, r.owner q (s.head_next q), head_in)

    head_prev : s.prev (s.head_next q) ≡ null
    head_prev =
        ground (arith, r.before q (s.head_next q), head_in, head_of, prev_of-first_of null (f q))

    head_next-ne : s.next (s.head_next q) ≢ s.head_next q
    head_next-ne =
        ground
          (arith, r.after q (s.head_next q), head_in, next_of-ne (f q) (s.head_next q), r.once q)

    dequeue_of_head : without (s.head_next q) f ≡ dequeue q f
    dequeue_of_head = fun_ext λ a. ground (
      arith,
      head_of,
      head_owner,
      erase-first_of (f q),
      r.owner a (s.head_next q),
      r.nowhere,
      erase_of_not_has (s.head_next q) (f a),
    )

    pop-Unlinks : Unlinks s q (s.head_next q) (queue_pop s q).1
    unfolding queue_pop
    pop-Unlinks = record {
      q_field = λ a. ground (arith, head_prev, head_next-ne);
      next_field = λ a d n. ground (arith, head_prev, head_next-ne);
      prev_field = λ a d n. ground (arith, head_prev, head_next-ne);
      head_next_field = λ a. ground (arith, head_prev, head_next-ne);
      head_prev_field = λ a. ground (arith, head_prev, head_next-ne);
      size_field = λ a. ground (arith, head_prev, head_next-ne);
    }

queue_pop-node : (s : Store) (q : Ptr) → q ≢ null → (queue_pop s q).0 ≡ s.head_next q
unfolding queue_pop
queue_pop-node s q real = ground arith

pub queue_pop-null : (s : Store) (q : Ptr) → q ≡ null → queue_pop s q ≡ (null, s)
unfolding queue_pop
queue_pop-null s q e = ground arith

queue_pop-empty : (s : Store) (q : Ptr) → s.head_next q ≡ null → (queue_pop s q).1 ≡ s
unfolding queue_pop
queue_pop-empty s q e = ground arith

-- `queue_pop` returns the first node of the queue, or NULL if the queue is empty, takes that node
-- off the queue, and leaves every other queue as it is.
pub queue_pop-first :
    {s : Store} {f : Queues} (q : Ptr)
    → Represents s f
    → q ≢ null
    → ((queue_pop s q).0 ≡ first_of (f q)) × Represents (queue_pop s q).1 (dequeue q f)
queue_pop-first {s} {f} q r real = (
  ground (arith, queue_pop-node s q, r.first q),
  elim (Bool-cases (s.head_next q == null)) [
    | inl empty ↦
        let e : s.head_next q ≡ null = (==_iff _ _).0 empty in
        rw (queue_pop-empty s q e, ← dequeue_of_empty q r real e) r
    | inr held ↦
        let n : s.head_next q ≢ null = ground arith in
        rw (← dequeue_of_head q r real n) (
          Unlinks-Represents (s.head_next q) q r n real (head_owner q r real n)
            (pop-Unlinks q r real n))
  ],
)
