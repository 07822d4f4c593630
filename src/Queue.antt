-- ===== src/Queue.antt =====
-- The intrusive queue of lib/src/queue.c and include/queue.h.
-- Memory is one map for each field of `struct queue_node` and `struct queue`, from the address of
-- the struct to the field, so a write to one field leaves the others alone.
pub mod Links
pub mod Inv
pub mod Unlink
pub mod Remove
pub mod Pop
pub mod Push
pub mod Read
pub mod Calls
use gummy.Prelude.{
  ℕ, zero, suc, ◌+◌, ◌-◌, ◌%◌, ◌^◌, Bool, true, ◌||◌, Option, none, some, ◌==◌, leb, if◌then◌else◌,
}

abbrev pub Ptr : Type 0
Ptr = ℕ

abbrev pub null : Ptr
null = 0

-- A write of `v` at the address `p`.
abbrev pub update {ℓ} : {A : Type ℓ} → (Ptr → A) → Ptr → A → Ptr → A
update f p v a = if a == p then v else f a

pub record Store : Type 0 where
  pub prev : Ptr → Ptr
  pub next : Ptr → Ptr
  pub q : Ptr → Ptr
  pub head_prev : Ptr → Ptr
  pub head_next : Ptr → Ptr
  pub size : Ptr → ℕ

unfoldable pub queue_init : Store → Ptr → Store
queue_init s q = if q == null then s else record s {
  head_prev = update s.head_prev q null;
  head_next = update s.head_next q null;
  size = update s.size q 0;
}

-- `queue_size`, and `queue_empty`.
unfoldable pub queue_size : Store → Ptr → ℕ
queue_size s q = if q == null then 0 else s.size q

unfoldable pub queue_empty : Store → Ptr → Bool
queue_empty s q = if q == null then true else s.head_next q == null

-- `if (node->prev) node->prev->next = node->next; else node->q->head.next = node->next;`
abbrev pub bypass_forward : Store → Ptr → Store
bypass_forward s node =
    if s.prev node == null
    then record s { head_next = update s.head_next (s.q node) (s.next node) }
    else record s { next = update s.next (s.prev node) (s.next node) }

-- `if (node->next) node->next->prev = node->prev; else node->q->head.prev = node->prev;`
abbrev pub bypass_backward : Store → Ptr → Store
bypass_backward s node =
    if s.next node == null
    then record s { head_prev = update s.head_prev (s.q node) (s.prev node) }
    else record s { prev = update s.prev (s.next node) (s.prev node) }

-- `x--` on a `size_t`.
abbrev pub decrement : ℕ → ℕ
decrement x = (x + (2 ^ 32 - 1)) % 2 ^ 32

-- The four assignments that end `queue_remove`.
abbrev pub detach : Store → Ptr → Store
detach s node = record s {
  prev = update s.prev node null;
  next = update s.next node null;
  size = update s.size (s.q node) (decrement (s.size (s.q node)));
  q = update s.q node null;
}

-- `none` is a read through NULL: `node->q` is read before `!node` is tested.
unfoldable pub queue_remove : Store → Ptr → Option Store
queue_remove s node =
    if node == null
    then none
    else if s.q node == null
    then some s
    else some (detach (bypass_backward (bypass_forward s node) node) node)

-- What `queue_push` does after the node is out of its old queue.
abbrev pub append_node : Store → Ptr → Ptr → Store
append_node s q node =
    let s1 : Store = record s {
      prev = update s.prev node (s.head_prev q);
      next = update s.next node null;
    } in
    let s2 : Store =
      if s1.head_prev q == null
      then record s1 { head_next = update s1.head_next q node }
      else record s1 { next = update s1.next (s1.head_prev q) node } in
    record s2 {
      q = update s2.q node q;
      head_prev = update s2.head_prev q node;
      size = update s2.size q ((s2.size q + 1) % 2 ^ 32);
    }

abbrev pub appended : Option Store → Ptr → Ptr → Option Store
appended none q node = none
appended (some s) q node = some (append_node s q node)

unfoldable pub queue_push : Store → Ptr → Ptr → Option Store
unfolding queue_remove
queue_push s q node =
    if q == null || node == null then some s else appended (queue_remove s node) q node

-- The node, or NULL, and the new memory.
unfoldable pub queue_pop : Store → Ptr → Ptr × Store
queue_pop s q =
    if q == null || s.head_next q == null
    then (null, s)
    else let node : Ptr = s.head_next q in
      let s1 : Store = record s {
        q = update s.q node null;
        head_next = update s.head_next q (s.next node);
      } in
      let s2 : Store =
        if s1.next node == null
        then record s1 { head_prev = update s1.head_prev q null }
        else record s1 { prev = update s1.prev (s1.next node) null } in
      (node, record s2 { size = update s2.size q (decrement (s2.size q)) })

-- The loop of `queue_get`, on the rounds left.
unfoldable pub walk : Store → ℕ → Ptr → Ptr
walk s zero node = node
walk s (suc n) node = if node == null then null else walk s n (s.next node)

unfoldable pub queue_get : Store → Ptr → ℕ → Ptr
unfolding walk queue_size
queue_get s q index =
    if q == null || leb (queue_size s q) index then null else walk s index (s.head_next q)
