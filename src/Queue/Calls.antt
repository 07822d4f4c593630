-- ===== src/Queue/Calls.antt =====
-- Sequences of calls on the queues of a memory, against the same calls on lists.
use gummy.Prelude.{
  ◌≡◌, refl, ◌≢◌, ◌||◌, arith, ◌==◌, if◌then◌else◌, List, [], ◌∷◌, Option, some, none, Bool-cases,
  inl, inr,
}
use gummy.Queue.{Ptr, null, Store, queue_remove, queue_push, queue_pop}
use gummy.Queue.Links.{first_of}
use gummy.Queue.Inv.{Queues, Represents, without, enqueue}
use gummy.Queue.Remove.{queue_remove-erase}
use gummy.Queue.Pop.{dequeue, queue_pop-first, queue_pop-null}
use gummy.Queue.Push.{queue_push-enqueue}

pub data Call : Type 0 where
  push : Ptr → Ptr → Call
  pop : Ptr → Call
  remove : Ptr → Call

abbrev answered : Ptr → Option Store → Option (Ptr × Store)
answered p none = none
answered p (some s) = some (p, s)

-- One call, with the node that it returns (NULL where it returns nothing).
unfoldable pub call : Store → Call → Option (Ptr × Store)
call s (push q p) = answered null (queue_push s q p)
call s (pop q) = some (queue_pop s q)
call s (remove p) = answered null (queue_remove s p)

-- The same call on lists.
abbrev pub list_call : Queues → Call → Ptr × Queues
list_call f (push q p) = (null, if q == null || p == null then f else enqueue q p f)
list_call f (pop q) = if q == null then (null, f) else (first_of (f q), dequeue q f)
list_call f (remove p) = (null, without p f)

abbrev pub cons_answer : Ptr → Option (List Ptr × Store) → Option (List Ptr × Store)
cons_answer p none = none
cons_answer p (some (ps, s)) = some (p ∷ ps, s)

abbrev then_run :
    (Store → Option (List Ptr × Store)) → Option (Ptr × Store) → Option (List Ptr × Store)
then_run k none = none
then_run k (some (p, s)) = cons_answer p (k s)

-- A sequence of calls, with the node that each returns.
unfoldable pub run : List Call → Store → Option (List Ptr × Store)
run [] s = some ([], s)
run (c ∷ cs) s = then_run (run cs) (call s c)

abbrev pub list_run : List Call → Queues → List Ptr × Queues
list_run [] f = ([], f)
list_run (c ∷ cs) f = let (p, g) = list_call f c in let (ps, h) = list_run cs g in (p ∷ ps, h)

-- `queue_remove` is not called on NULL.
abbrev pub IsSafe : List Call → Type 0
IsSafe [] = Unit {0}
IsSafe (push q p ∷ cs) = IsSafe cs
IsSafe (pop q ∷ cs) = IsSafe cs
IsSafe (remove p ∷ cs) = (p ≢ null) × IsSafe cs

-- What a run does: it reaches a memory that holds the queues `g`, and returns `p`.
abbrev Does : Option (Ptr × Store) → Ptr → Queues → Type 0
Does o p g = (s' : Store) × (o ≡ some (p, s')) × Represents s' g

call-push :
    {s : Store} {f : Queues} (q p : Ptr)
    → Represents s f
    → Does (call s (push q p)) null (list_call f (push q p)).1
unfolding call queue_push
call-push {s} {f} q p r = elim (Bool-cases (q == null || p == null)) [
  | inl skip ↦ (s, ground arith, rw skip r)
  | inr go ↦
      let (s', e, r') = queue_push-enqueue q p r (ground arith) (ground arith) in
      (s', ground (arith, e), rw go r')
]

call-pop :
    {s : Store} {f : Queues} (q : Ptr)
    → Represents s f
    → Does (call s (pop q)) (list_call f (pop q)).0 (list_call f (pop q)).1
unfolding call
call-pop {s} {f} q r = elim (Bool-cases (q == null)) [
  | inl none_given ↦ (s, ground (arith, queue_pop-null s q), rw none_given r)
  | inr given ↦
      let (e, r') = queue_pop-first q r (ground arith) in
      ((queue_pop s q).1, ground (arith, e), rw given r')
]

call-remove :
    {s : Store} {f : Queues} (p : Ptr)
    → Represents s f
    → p ≢ null
    → Does (call s (remove p)) null (without p f)
unfolding call
call-remove p r real = let (s', e, r') = queue_remove-erase p r real in (s', ground (arith, e), r')

-- Any sequence of calls of `queue_push`, `queue_pop` and `queue_remove`, with no `queue_remove` of
-- NULL, runs without a read through NULL, returns the nodes that the same calls on lists return,
-- and leaves a memory that holds the lists which those calls leave.
pub run_refines :
    (cs : List Call) {s : Store} {f : Queues}
    → Represents s f
    → IsSafe cs
    → (s' : Store) × (run cs s ≡ some ((list_run cs f).0, s')) × Represents s' (list_run cs f).1
unfolding run
run_refines [] {s} r safe = (s, refl, r)
run_refines (push q p ∷ cs) {s} {f} r safe =
    let (s1, e1, r1) = call-push q p r in
    let (s2, e2, r2) = run_refines cs r1 safe in (s2, rw (e1, e2), r2)
run_refines (pop q ∷ cs) r safe =
    let (s1, e1, r1) = call-pop q r in
    let (s2, e2, r2) = run_refines cs r1 safe in (s2, rw (e1, e2), r2)
run_refines (remove p ∷ cs) r safe =
    let (s1, e1, r1) = call-remove p r safe.0 in
    let (s2, e2, r2) = run_refines cs r1 safe.1 in (s2, rw (e1, e2), r2)

-- `queue_remove` of NULL reads through NULL, on every memory: the test `!node` comes too late.
pub queue_remove-null : (s : Store) → queue_remove s null ≡ none
unfolding queue_remove
queue_remove-null s = refl
