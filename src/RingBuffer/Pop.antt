-- ===== src/RingBuffer/Pop.antt =====
-- `ring_buffer_peek` and `ring_buffer_pop` against the bounded list of the elements.
use native.Mathlib.Nat.{add-zero, mod-eq_of_lt, mod-add-mod, add_assoc, zero-add}
use gummy.Prelude.{
  ℕ, zero, suc, ◌+◌, ◌≤◌, ◌<◌, ◌≡◌, refl, ◌≢◌, ◌⊎◌, arith, ap, ◌∙◌, List, [], ◌∷◌, false, ==_refl,
  Option, none, some,
}
use gummy.Queue.{Ptr, null, update, decrement}
use gummy.Memory.{Bytes, memcpy, bytes_at}
use gummy.Memory.Copy.{within, memcpy-reads}
use gummy.RingBuffer.{Memory, slot, ring_buffer_peek, ring_buffer_pop, ring_buffer_empty, drop_head}
use gummy.RingBuffer.Slots.{from_to, from_to-eq, slot_inside, memcpy-elsewhere, memcpy-target}
use gummy.RingBuffer.Inv.{
  IsValid, index, element, contents, IsOutside, slot_lem, advance_lem, after_pop, after_pop-IsValid,
}
use gummy.RingBuffer.Fifo.{fifo_pop}

module _ (m : Memory) (r out : Ptr) (given : r ≢ null) (v : IsValid (m.ring r)) (real : out ≢ null)
    (away : IsOutside (m.ring r) out (m.ring r).elem_size) where
  -- The bytes after the copy of the oldest element to `out`.
  copied : Bytes
  copied = memcpy m.bytes out (slot (m.ring r) (m.ring r).head) (m.ring r).elem_size

  slot_away :
      (i : ℕ)
      → i < (m.ring r).capacity
      → (slot (m.ring r) i ≢ null)
        × ((slot (m.ring r) i + (m.ring r).elem_size ≤ out)
            ⊎ (out + (m.ring r).elem_size ≤ slot (m.ring r) i))
  slot_away i l = ground (
    arith,
    v.real,
    slot_lem (m.ring r) i v,
    slot_inside i (m.ring r).capacity (m.ring r).elem_size l,
    away,
  )

  copied-out : bytes_at copied out (m.ring r).elem_size ≡ element m.bytes (m.ring r) 0
  unfolding copied
  copied-out =
      let (a, b) = slot_away (m.ring r).head v.head_in in
      memcpy-target m.bytes out _ (m.ring r).elem_size real a (ground (arith, b))
      ∙ ap (λ i. bytes_at m.bytes (slot (m.ring r) i) (m.ring r).elem_size)
          (rw (add-zero (m.ring r).head, mod-eq_of_lt v.head_in) refl)

  copied-slot :
      (i : ℕ)
      → i < (m.ring r).capacity
      → bytes_at copied (slot (m.ring r) i) (m.ring r).elem_size
        ≡ bytes_at m.bytes (slot (m.ring r) i) (m.ring r).elem_size
  unfolding copied
  copied-slot i l =
      let (a, b) = slot_away (m.ring r).head v.head_in in
      let (c, d) = slot_away i l in
      memcpy-elsewhere m.bytes out _ (m.ring r).elem_size _ (m.ring r).elem_size real a
        (ground (arith, b)) (ground (arith, d))

  peeked : Memory
  peeked = record m { bytes = copied }

  popped : Memory
  popped = record { bytes = copied; ring = update m.ring r (after_pop (m.ring r)) }

  peek-none : (m.ring r).count ≡ 0 → ring_buffer_peek m r out ≡ (1, m)
  unfolding ring_buffer_peek ring_buffer_empty
  peek-none e = ground arith

  peek-some : (m.ring r).count ≢ 0 → ring_buffer_peek m r out ≡ (0, peeked)
  unfolding ring_buffer_peek ring_buffer_empty peeked copied
  peek-some e = ground arith

  pub pop-none : (m.ring r).count ≡ 0 → ring_buffer_pop m r out ≡ (1, m)
  unfolding ring_buffer_pop
  pop-none e = ap (drop_head r) (peek-none e)

  pop-some : (m.ring r).count ≢ 0 → ring_buffer_pop m r out ≡ (0, popped)
  unfolding ring_buffer_pop popped
  pop-some e = ap (drop_head r) (peek-some e) ∙ (unfold peeked in refl)

  contents-cons :
      (n : ℕ)
      → (m.ring r).count ≡ suc n
      → contents m r ≡ element m.bytes (m.ring r) 0 ∷ from_to (element m.bytes (m.ring r)) (0 + 1) n
  contents-cons n e = rw e refl

  popped-contents :
      (n : ℕ)
      → (m.ring r).count ≡ suc n
      → contents popped r ≡ from_to (element m.bytes (m.ring r)) (0 + 1) n
  unfolding popped
  popped-contents n e =
      let b = m.ring r in
      let l : decrement (suc n) ≡ n = omega (arith, e, v.count_in, v.word) in
      rw (==_refl r, e, l)
        (from_to-eq _ _ 0 (0 + 1) n (λ k _.
          copied-slot (index (after_pop b) (0 + k)) (omega (arith, v.some_slot))
          ∙ ap (λ i. bytes_at m.bytes (slot b i) b.elem_size) (shift k)))
    where
      shift : (k : ℕ) → index (after_pop (m.ring r)) (0 + k) ≡ index (m.ring r) (0 + 1 + k)
      shift k =
          rw
            (advance_lem (m.ring r) (m.ring r).head v v.head_in, zero-add k, mod-add-mod, add_assoc)
            refl

  copied_to : bytes_at popped.bytes out (m.ring r).elem_size ≡ element m.bytes (m.ring r) 0
  unfolding popped
  copied_to = copied-out

  popped-IsValid : (m.ring r).count ≢ 0 → IsValid (popped.ring r)
  unfolding popped
  popped-IsValid e = rw (==_refl r) (after_pop-IsValid (m.ring r) v (omega arith))

  popped-bytes : (a : Ptr) → within out (m.ring r).elem_size a ≡ false → popped.bytes a ≡ m.bytes a
  unfolding popped copied
  popped-bytes a o =
      let (c, d) = slot_away (m.ring r).head v.head_in in
      ground
        (arith, memcpy-reads m.bytes out _ (m.ring r).elem_size a real c (ground (arith, d)), o)

  popped-rings : (a : Ptr) → a ≢ r → popped.ring a ≡ m.ring a
  unfolding popped
  popped-rings a d = ground arith

-- What reached `out`: nothing if the call failed.
abbrev pub delivered : Memory → Ptr → Ptr → ℕ × Memory → Option (List ℕ)
delivered m r out (zero, m') = some (bytes_at m'.bytes out (m.ring r).elem_size)
delivered m r out (suc e, m') = none

-- What `ring_buffer_pop` returns, delivers and leaves at `r`.
abbrev pub Pops : Memory → Ptr → Ptr → ℕ × Memory → Type 0
Pops m r out (e, m') =
    ((e, delivered m r out (e, m'), contents m' r) ≡ fifo_pop (contents m r))
    × IsValid (m'.ring r)
    × ((a : Ptr) → a ≢ r → m'.ring a ≡ m.ring a)
    × ((a : Ptr) → within out (m.ring r).elem_size a ≡ false → m'.bytes a ≡ m.bytes a)

pop-Pops :
    (m : Memory) (r out : Ptr)
    → r ≢ null
    → out ≢ null
    → IsValid (m.ring r)
    → IsOutside (m.ring r) out (m.ring r).elem_size
    → (n : ℕ) → (m.ring r).count ≡ n
    → Pops m r out (ring_buffer_pop m r out)
pop-Pops m r out given real v away zero e =
    let nothing : contents m r ≡ [] = ap (from_to (element m.bytes (m.ring r)) 0) e in
    rw (pop-none m r out given v real away e) (rw nothing refl, v, λ a d. refl, λ a o. refl)
pop-Pops m r out given real v away (suc n) e =
    let some_left : (m.ring r).count ≢ 0 = omega arith in
    rw
      (
        pop-some m r out given v real away some_left,
        popped-contents m r out given v real away n e,
        contents-cons m r out given v real away n e,
      )
      (
        ap (λ x. (0, some x, from_to (element m.bytes (m.ring r)) (0 + 1) n))
            (copied_to m r out given v real away),
        popped-IsValid m r out given v real away some_left,
        popped-rings m r out given v real away,
        popped-bytes m r out given v real away,
      )

-- On a valid ring buffer and a target outside its storage, neither of them NULL, `ring_buffer_pop`
-- returns the status of a pop on the bounded list of the elements, delivers the oldest element, and
-- leaves the ring buffer holding the rest. It stays valid, the other ring buffers stay as they are,
-- and so does every byte outside the target.
pub pop_refines :
    (m : Memory) (r out : Ptr)
    → r ≢ null
    → out ≢ null
    → IsValid (m.ring r)
    → IsOutside (m.ring r) out (m.ring r).elem_size
    → Pops m r out (ring_buffer_pop m r out)
pop_refines m r out given real v away = pop-Pops m r out given real v away (m.ring r).count refl

-- A pop leaves the storage, the number of slots and their size.
pub pop-shape :
    (m : Memory) (r out : Ptr)
    → (((ring_buffer_pop m r out).1.ring r).buf ≡ (m.ring r).buf)
      × (((ring_buffer_pop m r out).1.ring r).capacity ≡ (m.ring r).capacity)
      × (((ring_buffer_pop m r out).1.ring r).elem_size ≡ (m.ring r).elem_size)
unfolding ring_buffer_pop ring_buffer_peek
pop-shape m r out = (ground arith, ground arith, ground arith)
