-- ===== src/Queue/Read.antt =====
-- `queue_init`, `queue_size`, `queue_empty` and `queue_get` against the queues as lists.
use gummy.Prelude.{
  ℕ, zero, suc, ◌^◌, ◌<◌, ◌≡◌, refl, ◌≢◌, Bool, true, false, arith, ◌==◌, leb, has, List, [], ◌∷◌,
  length, distinct,
}
use gummy.Queue.{Ptr, null, Store, update, queue_init, queue_size, queue_empty, queue_get, walk}
use gummy.Queue.Links.{first_of, next_of}
use gummy.Queue.Inv.{Queues, Represents}

-- The element at an index, or NULL.
abbrev pub nth : List Ptr → ℕ → Ptr
nth [] i = null
nth (x ∷ xs) zero = x
nth (x ∷ xs) (suc i) = nth xs i

abbrev is_nil : List Ptr → Bool
is_nil [] = true
is_nil (x ∷ xs) = false

first_of-is_nil : (xs : List Ptr) → has null xs ≡ false → (first_of xs == null) ≡ is_nil xs
first_of-is_nil [] n = refl
first_of-is_nil (x ∷ xs) n = ground arith

nth_beyond : (xs : List Ptr) (i : ℕ) → (leb (length xs) i) ≡ true → nth xs i ≡ null
nth_beyond [] i h = refl
nth_beyond (x ∷ xs) zero h = ground arith
nth_beyond (x ∷ xs) (suc i) h = nth_beyond xs i (ground arith)

-- Following `next` from the first of `xs`, where `next` is right on `xs`.
walk-nth :
    (s : Store) (xs : List Ptr) (i : ℕ)
    → distinct xs ≡ true
    → has null xs ≡ false
    → ((p : Ptr) → has p xs ≡ true → s.next p ≡ next_of xs p)
    → walk s i (first_of xs) ≡ nth xs i
unfolding walk
walk-nth s [] zero d n h = refl
walk-nth s [] (suc i) d n h = refl
walk-nth s (x ∷ xs) zero d n h = refl
walk-nth s (x ∷ xs) (suc i) d n h =
    ground (arith, h x, walk-nth s xs i (ground arith) (ground arith) (λ p m. ground (arith, h p)))

module _ {s : Store} {f : Queues} (q : Ptr) (r : Represents s f) (real : q ≢ null) where
  -- `queue_empty` holds exactly when the queue has no node, `queue_size` is the number of nodes
  -- modulo 2 ^ 32, and, if there are fewer than 2 ^ 32 nodes, `queue_get` returns the node at each
  -- index and NULL from the end on.
  pub queue_reads :
      length (f q) < 2 ^ 32
      → (index : ℕ)
      → (queue_empty s q ≡ is_nil (f q))
        × (queue_size s q ≡ length (f q))
        × (queue_get s q index ≡ nth (f q) index)
  unfolding queue_empty queue_size queue_get
  queue_reads small index = (
    ground (arith, r.first q, first_of-is_nil (f q), r.no_null q),
    ground (arith, r.count q),
    ground (
      arith,
      r.first q,
      r.count q,
      nth_beyond (f q) index,
      walk-nth s (f q) index (r.once q) (r.no_null q) (λ p m. r.after q p real m),
    ),
  )

-- Whatever the head of the queue `q` held before, after `queue_init` the memory holds an empty
-- queue there, provided that no node names `q`; the other queues stay.
pub queue_init-empty :
    {s : Store} {f : Queues} (q a b n : ℕ)
    → Represents s f
    → f q ≡ []
    → Represents
        (queue_init
          (record s {
            head_prev = update s.head_prev q a;
            head_next = update s.head_next q b;
            size = update s.size q n;
          })
          q)
        f
unfolding queue_init
queue_init-empty {s} {f} q a b n r e = record {
  nowhere = r.nowhere;
  no_null = r.no_null;
  once = r.once;
  owner = λ x p m k. ground (arith, r.owner x p);
  first = λ x m. ground (arith, r.first x, e);
  last = λ x m. ground (arith, r.last x, e);
  after = λ x p m k. ground (arith, r.after x p);
  before = λ x p m k. ground (arith, r.before x p);
  count = λ x m. ground (arith, r.count x, e);
}
