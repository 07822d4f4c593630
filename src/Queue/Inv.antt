-- ===== src/Queue/Inv.antt =====
-- The queues that a memory holds: each queue is the list of its nodes from the first to the last,
-- and a node stands in at most one queue, the one that its field `q` names.
use gummy.Prelude.{
  ◌%◌, ◌^◌, ◌≡◌, ◌≢◌, true, false, ◌&&◌, List, [], ◌∷◌, ◌++◌, ◌==◌, if◌then◌else◌, length, has,
  erase, distinct,
}
use gummy.Queue.{Ptr, null, Store, decrement}
use gummy.Queue.Links.{first_of, last_of, next_of, prev_of}

-- What the queue at each address holds.
abbrev pub Queues : Type 0
Queues = Ptr → List Ptr

-- The memory `s` holds the queues `f`.
pub record Represents (s : Store) (f : Queues) : Type 0 where
  pub nowhere : f null ≡ []
  pub no_null : (q : Ptr) → has null (f q) ≡ false
  pub once : (q : Ptr) → distinct (f q) ≡ true
  -- a node is in the queue that it names, and in no other
  pub owner : (q p : Ptr) → p ≢ null → q ≢ null → has p (f q) ≡ (s.q p == q)
  pub first : (q : Ptr) → q ≢ null → s.head_next q ≡ first_of (f q)
  pub last : (q : Ptr) → q ≢ null → s.head_prev q ≡ last_of null (f q)
  pub after : (q p : Ptr) → q ≢ null → has p (f q) ≡ true → s.next p ≡ next_of (f q) p
  pub before : (q p : Ptr) → q ≢ null → has p (f q) ≡ true → s.prev p ≡ prev_of null (f q) p
  pub count : (q : Ptr) → q ≢ null → s.size q ≡ length (f q) % 2 ^ 32

-- No queue holds `p`.
abbrev pub without : Ptr → Queues → Queues
without p f q = erase p (f q)

-- `p` at the end of `q`, and nowhere else.
abbrev pub enqueue : Ptr → Ptr → Queues → Queues
enqueue q p f r = if r == q then erase p (f r) ++ p ∷ [] else erase p (f r)

-- What taking the node `p` out of the queue `q` does to the memory. The links of `p` itself are
-- left open: `queue_remove` clears them and `queue_pop` does not.
pub record Unlinks (s : Store) (q p : Ptr) (s' : Store) : Type 0 where
  pub q_field : (a : Ptr) → s'.q a ≡ (if a == p then null else s.q a)
  pub next_field :
      (a : Ptr) → a ≢ p → a ≢ null → s'.next a ≡ (if a == s.prev p then s.next p else s.next a)
  pub prev_field :
      (a : Ptr) → a ≢ p → a ≢ null → s'.prev a ≡ (if a == s.next p then s.prev p else s.prev a)
  pub head_next_field :
      (r : Ptr) → s'.head_next r ≡ (if r == q && s.prev p == null then s.next p else s.head_next r)
  pub head_prev_field :
      (r : Ptr) → s'.head_prev r ≡ (if r == q && s.next p == null then s.prev p else s.head_prev r)
  pub size_field : (r : Ptr) → s'.size r ≡ (if r == q then decrement (s.size r) else s.size r)
