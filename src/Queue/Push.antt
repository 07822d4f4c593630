-- ===== src/Queue/Push.antt =====
-- `queue_push` against the queues as lists.
use gummy.Prelude.{
  ◌≡◌, ◌≢◌, true, false, arith, ◌==◌, if◌then◌else◌, has, [], ◌∷◌, ◌++◌, distinct, some,
  length-append, has-append, distinct-append, has-erase,
}
use gummy.Queue.{Ptr, null, Store, queue_push, append_node}
use gummy.Queue.Links.{
  first_of, last_of, next_of, prev_of, first_of-append, last_of-append, has-last_of, next_of-append,
  next_of-append_self, prev_of-append,
}
use gummy.Queue.Inv.{Queues, Represents, without, enqueue}
use gummy.Queue.Remove.{queue_remove-erase}
use gummy.Queue.Unlink.{ne_null_of_has}

-- `p` behind the nodes of `q`.
abbrev at_end : Ptr → Ptr → Queues → Queues
at_end q p f a = if a == q then f a ++ p ∷ [] else f a

module _ {s : Store} {f : Queues} (q p : Ptr) (r : Represents s f) (real : p ≢ null)
    (some_queue : q ≢ null) (free : s.q p ≡ null) where
  not_in : (a : Ptr) → has p (f a) ≡ false
  not_in a = ground (arith, r.owner a p, r.nowhere)

  last_ne : s.head_prev q ≢ p
  last_ne = ground (arith, r.last q, has-last_of null (f q), not_in q)

  at_end_first : (a : Ptr) → a ≢ null → (append_node s q p).head_next a ≡ first_of (at_end q p f a)
  at_end_first a m = ground (arith, r.first a, r.last q, r.no_null q, first_of-append (f q) p)

  at_end_last :
      (a : Ptr) → a ≢ null → (append_node s q p).head_prev a ≡ last_of null (at_end q p f a)
  at_end_last a m = ground (arith, r.last a, last_of-append null (f q) p)

  at_end_owner :
      (a b : Ptr) → b ≢ null → a ≢ null → has b (at_end q p f a) ≡ ((append_node s q p).q b == a)
  at_end_owner a b n m = ground (arith, r.owner a b, has-append b (f q) p, not_in a)

  at_end_after :
      (a b : Ptr)
      → a ≢ null
      → has b (at_end q p f a) ≡ true
      → (append_node s q p).next b ≡ next_of (at_end q p f a) b
  at_end_after a b m h = ground (
    arith,
    last_ne,
    r.after a b,
    r.owner a b,
    r.owner q b,
    r.last q,
    r.once q,
    r.no_null q,
    r.no_null a,
    not_in a,
    not_in q,
    has-append b (f q) p,
    has-last_of null (f q),
    next_of-append null (f q) p b,
    next_of-append_self (f q) p,
    ne_null_of_has b (f a),
  )

  at_end_before :
      (a b : Ptr)
      → a ≢ null
      → has b (at_end q p f a) ≡ true
      → (append_node s q p).prev b ≡ prev_of null (at_end q p f a) b
  at_end_before a b m h = ground (
    arith,
    last_ne,
    r.before a b,
    r.last q,
    not_in a,
    not_in q,
    has-append b (f q) p,
    prev_of-append null (f q) p b,
  )

  append_node-Represents : Represents (append_node s q p) (at_end q p f)
  append_node-Represents = record {
    nowhere = ground (arith, r.nowhere);
    no_null = λ a. ground (arith, r.no_null a, has-append null (f q) p);
    once = λ a. ground (arith, r.once a, distinct-append (f q) p, not_in q);
    owner = λ a b n m. at_end_owner a b n m;
    first = at_end_first;
    last = at_end_last;
    after = at_end_after;
    before = at_end_before;
    count = λ a m. ground (arith, r.count a, length-append (f q) (p ∷ []));
  }

-- In the queues without `p`, `p` names none.
free_of_without :
    {s : Store} (f : Queues) (p : Ptr)
    → Represents s (without p f)
    → p ≢ null
    → distinct (f (s.q p)) ≡ true
    → s.q p ≡ null
free_of_without {s} f p r real d = ground (arith, r.owner (s.q p) p, has-erase p p (f (s.q p)))

-- `queue_push` on a queue and a node other than NULL moves the node to the end of that queue from
-- whichever queue held it, and leaves every other queue as it is.
pub queue_push-enqueue :
    {s : Store} {f : Queues} (q p : Ptr)
    → Represents s f
    → q ≢ null
    → p ≢ null
    → (s' : Store) × (queue_push s q p ≡ some s') × Represents s' (enqueue q p f)
unfolding queue_push
queue_push-enqueue {s} {f} q p r some_queue real =
    let (s1, e, r1) = queue_remove-erase p r real in
    (
      append_node s1 q p,
      ground (arith, e),
      append_node-Represents q p r1 real some_queue (free_of_without f p r1 real (r.once (s1.q p))),
    )
