-- ===== src/RingBuffer/Push.antt =====
-- `ring_buffer_push` is a push on the bounded list of the elements.
use gummy.Prelude.{
  ℕ, suc, ◌+◌, ◌%◌, ◌^◌, ◌<◌, ◌≡◌, refl, ◌≢◌, inl, inr, arith, ap, [], ◌∷◌, ◌++◌, leb, true, false,
  Bool-cases, ==_refl,
}
use gummy.Queue.{Ptr, null, update}
use gummy.Memory.{bytes_at}
use gummy.Memory.Copy.{memcpy-reads}
use gummy.RingBuffer.{Memory, slot, ring_buffer_push, ring_buffer_full}
use gummy.RingBuffer.Slots.{slot_inside, length-from_to}
use gummy.RingBuffer.Inv.{
  IsValid, element, contents, IsOutside, slot_lem, after_push, after_push-IsValid,
}
use gummy.RingBuffer.Refine.{written, slot_clear, tail-lt, written-contents}
use gummy.RingBuffer.Fifo.{fifo_push}

-- What a call with status `e` and memory `m'` leaves alone: the other ring buffers, and the bytes
-- outside the storage.
pub record Keeps (m : Memory) (r : Ptr) (m' : Memory) : Type 0 where
  pub rings : (a : Ptr) → a ≢ r → m'.ring a ≡ m.ring a
  pub bytes : (a : Ptr) → IsOutside (m.ring r) a 1 → m'.bytes a ≡ m.bytes a

module _ (m : Memory) (r elem : Ptr) (given : r ≢ null) (v : IsValid (m.ring r))
    (real : elem ≢ null) (out : IsOutside (m.ring r) elem (m.ring r).elem_size) where
  pushed : Memory
  pushed = record {
    bytes = written m r elem (m.ring r).tail;
    ring = update m.ring r (after_push (m.ring r));
  }

  push-full : leb (m.ring r).capacity (m.ring r).count ≡ true → ring_buffer_push m r elem ≡ (1, m)
  unfolding ring_buffer_push ring_buffer_full
  push-full full = ground arith

  push-room :
      leb (m.ring r).capacity (m.ring r).count ≡ false → ring_buffer_push m r elem ≡ (0, pushed)
  unfolding ring_buffer_push ring_buffer_full pushed
  push-room room = ground arith

  pushed-contents :
      (m.ring r).count < (m.ring r).capacity
      → contents pushed r ≡ contents m r ++ bytes_at m.bytes elem (m.ring r).elem_size ∷ []
  unfolding pushed
  pushed-contents room =
      let b = m.ring r in
      let e : (b.count + 1) % 2 ^ 32 ≡ suc b.count = omega arith in
      rw (==_refl r, e) (written-contents m r elem v real out room)

  pushed-IsValid : (m.ring r).count < (m.ring r).capacity → IsValid (pushed.ring r)
  unfolding pushed
  pushed-IsValid room = rw (==_refl r) (after_push-IsValid (m.ring r) v room)

  pushed-Keeps : Keeps m r pushed
  unfolding pushed
  pushed-Keeps = record {
    rings = λ a d. ground arith;
    bytes = λ a o. ground (
      arith,
      slot_clear m r elem v real out (m.ring r).tail (tail-lt m r elem v real out),
      slot_lem (m.ring r) (m.ring r).tail v,
      tail-lt m r elem v real out,
      slot_inside (m.ring r).tail (m.ring r).capacity (m.ring r).elem_size,
      memcpy-reads m.bytes (slot (m.ring r) (m.ring r).tail) elem (m.ring r).elem_size a,
    );
  }

-- What `ring_buffer_push` returns and leaves at `r`.
abbrev pub Pushes : Memory → Ptr → Ptr → ℕ × Memory → Type 0
Pushes m r elem (e, m') =
    ((e, contents m' r)
      ≡ fifo_push (m.ring r).capacity (contents m r) (bytes_at m.bytes elem (m.ring r).elem_size))
    × IsValid (m'.ring r)
    × Keeps m r m'

-- On a valid ring buffer and an element outside its storage, neither of them NULL,
-- `ring_buffer_push` returns the status of a push on the bounded list of the elements and leaves
-- the ring buffer holding that list. It stays valid, the other ring buffers stay as they are, and
-- so does every byte outside the storage.
pub push_refines :
    (m : Memory) (r elem : Ptr)
    → r ≢ null
    → elem ≢ null
    → IsValid (m.ring r)
    → IsOutside (m.ring r) elem (m.ring r).elem_size
    → Pushes m r elem (ring_buffer_push m r elem)
push_refines m r elem given real v out =
    let n = length-from_to (element m.bytes (m.ring r)) 0 (m.ring r).count in
    elim (Bool-cases (leb (m.ring r).capacity (m.ring r).count)) [
      | inl full ↦
          rw (push-full m r elem given v real out full, n, full)
            (refl, v, record { rings = λ a d. refl; bytes = λ a o. refl })
      | inr room ↦
          let l : (m.ring r).count < (m.ring r).capacity = ground arith in
          rw (push-room m r elem given v real out room, n, room)
            (
              ap (λ xs. (0, xs)) (pushed-contents m r elem given v real out l),
              pushed-IsValid m r elem given v real out l,
              pushed-Keeps m r elem given v real out,
            )
    ]

-- A push leaves the number of slots and their size.
pub push-shape :
    (m : Memory) (r elem : Ptr)
    → (((ring_buffer_push m r elem).1.ring r).capacity ≡ (m.ring r).capacity)
      × (((ring_buffer_push m r elem).1.ring r).elem_size ≡ (m.ring r).elem_size)
unfolding ring_buffer_push
push-shape m r elem = (ground arith, ground arith)

-- A push leaves the storage where it is.
pub push-buf :
    (m : Memory) (r elem : Ptr) → ((ring_buffer_push m r elem).1.ring r).buf ≡ (m.ring r).buf
unfolding ring_buffer_push
push-buf m r elem = ground arith
