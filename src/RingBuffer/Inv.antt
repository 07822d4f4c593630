-- ===== src/RingBuffer/Inv.antt =====
-- A ring buffer that is in order, what it holds, and that every operation keeps it in order.
use native.Mathlib.Nat.{mod-add-mod, add_assoc}
use gummy.Prelude.{
  ℕ, ◌+◌, ◌-◌, ◌*◌, ◌%◌, ◌^◌, ◌≤◌, ◌<◌, ◌≡◌, refl, ◌≢◌, ◌⊎◌, arith, ap, ◌∙◌, List, [],
}
use gummy.Queue.{Ptr, null, decrement}
use gummy.Memory.{Bytes, bytes_at}
use gummy.RingBuffer.{RingBuffer, Memory, slot, advance, ring_buffer_init}
use gummy.RingBuffer.Slots.{from_to, slot_inside}

pub record IsValid (b : RingBuffer) : Type 0 where
  pub real : b.buf ≢ null
  pub some_slot : 0 < b.capacity
  pub word : b.capacity < 2 ^ 32
  pub fits : b.capacity * b.elem_size < 2 ^ 32
  pub head_in : b.head < b.capacity
  pub count_in : b.count ≤ b.capacity
  pub tail_at : b.tail ≡ (b.head + b.count) % b.capacity

-- The index of the `k`-th oldest element.
abbrev pub index : RingBuffer → ℕ → ℕ
index b k = (b.head + k) % b.capacity

abbrev pub element : Bytes → RingBuffer → ℕ → List ℕ
element m b k = bytes_at m (slot b (index b k)) b.elem_size

-- What the ring buffer at `r` holds, oldest first.
abbrev pub contents : Memory → Ptr → List (List ℕ)
contents m r = from_to (element m.bytes (m.ring r)) 0 (m.ring r).count

-- The region of `n` bytes from `p` on does not meet the storage.
abbrev pub IsOutside : RingBuffer → Ptr → ℕ → Type 0
IsOutside b p n = (p + n ≤ b.buf) ⊎ (b.buf + b.capacity * b.elem_size ≤ p)

-- No product of an index and the slot size wraps.
pub slot_lem :
    (b : RingBuffer) (i : ℕ) → IsValid b → i < b.capacity → slot b i ≡ b.buf + i * b.elem_size
slot_lem b i v l = omega (arith, slot_inside i b.capacity b.elem_size l)

pub index-lt : (b : RingBuffer) (k : ℕ) → IsValid b → index b k < b.capacity
index-lt b k v = omega arith

-- `ring_buffer_init` makes a valid ring buffer that holds nothing, provided that it has a slot and
-- that its storage fits the address space.
pub init-IsValid :
    (m : Memory) (r storage es cap : ℕ)
    → r ≢ null
    → storage ≢ null
    → 0 < cap
    → cap < 2 ^ 32
    → cap * es < 2 ^ 32
    → IsValid ((ring_buffer_init m r storage es cap).ring r)
      × (contents (ring_buffer_init m r storage es cap) r ≡ [])
unfolding ring_buffer_init
init-IsValid m r storage es cap a b c d e = ground arith

abbrev pub after_push : RingBuffer → RingBuffer
after_push b = record b { tail = advance b b.tail; count = (b.count + 1) % 2 ^ 32 }

abbrev pub after_pop : RingBuffer → RingBuffer
after_pop b = record b { head = advance b b.head; count = decrement b.count }

-- `advance` is one step round the slots.
pub advance_lem :
    (b : RingBuffer) (i : ℕ) → IsValid b → i < b.capacity → advance b i ≡ (i + 1) % b.capacity
advance_lem b i v l = ap (λ k. k % b.capacity) (omega arith)

tail_step : (b : RingBuffer) → IsValid b → advance b b.tail ≡ (b.head + (b.count + 1)) % b.capacity
tail_step b v = rw (advance_lem b b.tail v (omega arith), v.tail_at, mod-add-mod, add_assoc) refl

head_step :
    (b : RingBuffer)
    → IsValid b
    → 0 < b.count
    → b.tail ≡ (advance b b.head + (b.count - 1)) % b.capacity
head_step b v l =
    rw (advance_lem b b.head v v.head_in, mod-add-mod)
      (v.tail_at ∙ ap (λ k. k % b.capacity) (omega arith))

pub after_push-IsValid :
    (b : RingBuffer) → IsValid b → b.count < b.capacity → IsValid (after_push b)
after_push-IsValid b v l =
    let e : (b.count + 1) % 2 ^ 32 ≡ b.count + 1 = omega arith in
    record {
      real = v.real;
      some_slot = v.some_slot;
      word = v.word;
      fits = v.fits;
      head_in = v.head_in;
      count_in = omega (arith, e);
      tail_at = rw e (tail_step b v);
    }

pub after_pop-IsValid : (b : RingBuffer) → IsValid b → 0 < b.count → IsValid (after_pop b)
after_pop-IsValid b v l =
    let e : decrement b.count ≡ b.count - 1 = omega arith in
    record {
      real = v.real;
      some_slot = v.some_slot;
      word = v.word;
      fits = v.fits;
      head_in = omega arith;
      count_in = omega (arith, e);
      tail_at = rw e (head_step b v l);
    }
