-- ===== src/RingBuffer.antt =====
-- The ring buffer of lib/src/ring_buffer.c and include/ring_buffer.h: slots of `elem_size` bytes in
-- a storage that the caller provides. A memory has the bytes, and the `ring_buffer_t` at each
-- address; a `ring_buffer_t` is not in its own storage.
pub mod Slots
pub mod Inv
pub mod Refine
pub mod Fifo
pub mod Push
pub mod Pop
use gummy.Prelude.{
  ℕ, zero, suc, ◌+◌, ◌*◌, ◌%◌, ◌^◌, Bool, true, false, ◌||◌, ◌==◌, leb, if◌then◌else◌,
}
use gummy.Queue.{Ptr, null, update, decrement}
use gummy.Memory.{Bytes, memcpy}

-- `ring_buffer_t`
pub record RingBuffer : Type 0 where
  pub buf : Ptr
  pub elem_size : ℕ
  pub capacity : ℕ
  pub head : ℕ
  pub tail : ℕ
  pub count : ℕ

pub record Memory : Type 0 where
  pub bytes : Bytes
  pub ring : Ptr → RingBuffer

unfoldable pub ring_buffer_init : Memory → Ptr → Ptr → ℕ → ℕ → Memory
ring_buffer_init m r storage elem_size capacity =
    if r == null || storage == null then m else record m {
      ring = update m.ring r (record {
        buf = storage;
        elem_size = elem_size;
        capacity = capacity;
        head = 0;
        tail = 0;
        count = 0;
      });
    }

-- NULL counts as full, and as empty.
unfoldable pub ring_buffer_full : Memory → Ptr → Bool
ring_buffer_full m r = if r == null then true else leb (m.ring r).capacity (m.ring r).count

unfoldable pub ring_buffer_empty : Memory → Ptr → Bool
ring_buffer_empty m r = if r == null then true else (m.ring r).count == 0

-- `r->buf + i * r->elem_size`, with the product of two `size_t`.
abbrev pub slot : RingBuffer → ℕ → Ptr
slot b i = b.buf + (i * b.elem_size) % 2 ^ 32

-- `(i + 1) % r->capacity`
abbrev pub advance : RingBuffer → ℕ → ℕ
advance b i = ((i + 1) % 2 ^ 32) % b.capacity

-- The status, 0 or 1, and the new memory.
unfoldable pub ring_buffer_push : Memory → Ptr → Ptr → ℕ × Memory
ring_buffer_push m r elem =
    if r == null || elem == null
    then (1, m)
    else if ring_buffer_full m r
    then (1, m)
    else let b : RingBuffer = m.ring r in
      (
        0,
        record {
          bytes = memcpy m.bytes (slot b b.tail) elem b.elem_size;
          ring =
              update m.ring r
                (record b { tail = advance b b.tail; count = (b.count + 1) % 2 ^ 32 });
        },
      )

unfoldable pub ring_buffer_peek : Memory → Ptr → Ptr → ℕ × Memory
ring_buffer_peek m r out =
    if r == null || out == null
    then (1, m)
    else if ring_buffer_empty m r
    then (1, m)
    else let b : RingBuffer = m.ring r in
      (0, record m { bytes = memcpy m.bytes out (slot b b.head) b.elem_size })

-- The rest of `ring_buffer_pop`, after the peek.
abbrev pub drop_head : Ptr → ℕ × Memory → ℕ × Memory
drop_head r (zero, m) =
    let b : RingBuffer = m.ring r in
    (
      0,
      record m {
        ring = update m.ring r (record b { head = advance b b.head; count = decrement b.count });
      },
    )
drop_head r (suc e, m) = (1, m)

unfoldable pub ring_buffer_pop : Memory → Ptr → Ptr → ℕ × Memory
unfolding ring_buffer_peek
ring_buffer_pop m r out = drop_head r (ring_buffer_peek m r out)
