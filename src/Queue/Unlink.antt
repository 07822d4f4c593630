-- ===== src/Queue/Unlink.antt =====
-- Taking one node out of its queue, for `queue_remove` and `queue_pop`.
use gummy.Prelude.{
  ◌%◌, ◌^◌, ◌≡◌, ◌≢◌, true, false, arith, List, ◌==◌, length, has, has-erase, distinct-erase,
  length-erase, erase_of_not_has,
}
use gummy.Queue.{Ptr, null, Store}
use gummy.Queue.Links.{
  first_of, last_of, next_of, prev_of, has-prev_of, has-next_of, first_of-erase, last_of-erase,
  next_of-erase, prev_of-erase,
}
use gummy.Queue.Inv.{Queues, Represents, without, Unlinks}

pub ne_null_of_has : (b : Ptr) (xs : List Ptr) → has null xs ≡ false → has b xs ≡ true → b ≢ null
ne_null_of_has b xs n h = λ e. cc (n, h, e)

module _ {s s' : Store} {f : Queues} (p q : Ptr) (r : Represents s f) (real : p ≢ null)
    (some_queue : q ≢ null) (mine : s.q p ≡ q) (u : Unlinks s q p s') where
  here : has p (f q) ≡ true
  here = ground (arith, r.owner q p)

  elsewhere : (a : Ptr) → a ≢ null → a ≢ q → has p (f a) ≡ false
  elsewhere a n d = ground (arith, r.owner a p)

  without_owner : (a b : Ptr) → b ≢ null → a ≢ null → has b (without p f a) ≡ (s'.q b == a)
  without_owner a b n m = ground (arith, has-erase b p (f a), r.once a, r.owner a b, u.q_field b)

  without_first : (a : Ptr) → a ≢ null → s'.head_next a ≡ first_of (without p f a)
  without_first a m = ground (
    arith,
    u.head_next_field a,
    r.first a,
    r.no_null a,
    r.once a,
    r.before q p,
    r.after q p,
    here,
    elsewhere a,
    erase_of_not_has p (f a),
    first_of-erase null (f a) p,
  )

  without_last : (a : Ptr) → a ≢ null → s'.head_prev a ≡ last_of null (without p f a)
  without_last a m = ground (
    arith,
    u.head_prev_field a,
    r.last a,
    r.no_null a,
    r.once a,
    r.before q p,
    r.after q p,
    here,
    elsewhere a,
    erase_of_not_has p (f a),
    last_of-erase null (f a) p,
  )

  without_after :
      (a b : Ptr) → a ≢ null → has b (without p f a) ≡ true → s'.next b ≡ next_of (without p f a) b
  without_after a b m h = ground (
    arith,
    u.next_field b,
    r.after a b,
    r.no_null a,
    r.once a,
    r.once q,
    r.no_null q,
    r.before q p,
    r.after q p,
    here,
    elsewhere a,
    r.owner q b,
    r.owner a b,
    has-erase b p (f a),
    ne_null_of_has b (f a),
    erase_of_not_has p (f a),
    has-prev_of null (f q) p,
    next_of-erase null (f a) p b,
  )

  without_before :
      (a b : Ptr)
      → a ≢ null
      → has b (without p f a) ≡ true
      → s'.prev b ≡ prev_of null (without p f a) b
  without_before a b m h = ground (
    arith,
    u.prev_field b,
    r.before a b,
    r.no_null a,
    r.once a,
    r.once q,
    r.no_null q,
    r.before q p,
    r.after q p,
    here,
    elsewhere a,
    r.owner q b,
    r.owner a b,
    has-erase b p (f a),
    ne_null_of_has b (f a),
    erase_of_not_has p (f a),
    has-next_of (f q) p,
    prev_of-erase null (f a) p b,
  )

  without_count : (a : Ptr) → a ≢ null → s'.size a ≡ length (without p f a) % 2 ^ 32
  without_count a m = ground (
    arith,
    u.size_field a,
    r.count a,
    here,
    elsewhere a,
    erase_of_not_has p (f a),
    length-erase p (f a),
  )

  -- The other queues keep what they hold, and `q` loses `p` alone.
  pub Unlinks-Represents : Represents s' (without p f)
  Unlinks-Represents = record {
    nowhere = ground (arith, r.nowhere);
    no_null = λ a. ground (arith, has-erase null p (f a), r.once a, r.no_null a);
    once = λ a. distinct-erase p (f a) (r.once a);
    owner = λ a b n m. without_owner a b n m;
    first = without_first;
    last = without_last;
    after = without_after;
    before = without_before;
    count = without_count;
  }
