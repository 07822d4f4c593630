-- ===== src/RingBuffer/Refine.antt =====
-- A valid ring buffer behaves as a bounded first-in first-out list of its elements.
use mathlib.Core.Path.{ap₂}
use native.Mathlib.Decide.{dec_lt}
use native.Mathlib.Nat.{zero-add, mod-eq_of_lt, mod-eq-sub-mod}
use gummy.Prelude.{ℕ, suc, ◌+◌, ◌-◌, ◌%◌, ◌≤◌, ◌<◌, ◌≡◌, ◌≢◌, ◌⊎◌, arith, ◌∙◌, [], ◌∷◌, ◌++◌}
use gummy.Queue.{Ptr, null}
use gummy.Memory.{Bytes, memcpy, bytes_at}
use gummy.RingBuffer.{Memory, slot}
use gummy.RingBuffer.Slots.{
  from_to, from_to-eq, from_to_last, slots_apart, slot_inside, memcpy-elsewhere, memcpy-target,
}
use gummy.RingBuffer.Inv.{IsValid, index, element, contents, IsOutside, slot_lem, index-lt}

-- Fewer than `cap` steps round the slots do not come back.
round-ne : (h k n cap : ℕ) → h < cap → k < n → n < cap → (h + k) % cap ≢ (h + n) % cap
round-ne h k n cap a b c = elim (dec_lt (h + n) cap) [
  | yes p ↦ omega (arith, mod-eq_of_lt {n = h + k} {m = cap} (omega arith), mod-eq_of_lt p)
  | no p ↦ elim (dec_lt (h + k) cap) [
    | yes q ↦ omega (
      arith,
      mod-eq_of_lt q,
      mod-eq-sub-mod {n = h + n} {m = cap} (omega arith),
      mod-eq_of_lt {n = h + n - cap} {m = cap} (omega arith),
    )
    | no q ↦ omega (
      arith,
      mod-eq-sub-mod {n = h + k} {m = cap} (omega arith),
      mod-eq_of_lt {n = h + k - cap} {m = cap} (omega arith),
      mod-eq-sub-mod {n = h + n} {m = cap} (omega arith),
      mod-eq_of_lt {n = h + n - cap} {m = cap} (omega arith),
    )
  ]
]

-- The bytes after writing the element at `elem` in a slot.
abbrev pub written : Memory → Ptr → Ptr → ℕ → Bytes
written m r elem i = memcpy m.bytes (slot (m.ring r) i) elem (m.ring r).elem_size

module _ (m : Memory) (r elem : Ptr) (v : IsValid (m.ring r)) (real : elem ≢ null)
    (out : IsOutside (m.ring r) elem (m.ring r).elem_size) where
  pub slot_clear :
      (i : ℕ)
      → i < (m.ring r).capacity
      → (slot (m.ring r) i ≢ null)
        × ((slot (m.ring r) i ≤ elem) ⊎ (elem + (m.ring r).elem_size ≤ slot (m.ring r) i))
  slot_clear i l = ground (
    arith,
    v.real,
    slot_lem (m.ring r) i v,
    slot_inside i (m.ring r).capacity (m.ring r).elem_size l,
    out,
  )

  pub written_self :
      (i : ℕ)
      → i < (m.ring r).capacity
      → bytes_at (written m r elem i) (slot (m.ring r) i) (m.ring r).elem_size
        ≡ bytes_at m.bytes elem (m.ring r).elem_size
  written_self i l =
      let (a, b) = slot_clear i l in memcpy-target m.bytes _ elem (m.ring r).elem_size a real b

  pub written_other :
      (i j : ℕ)
      → i < (m.ring r).capacity
      → j < (m.ring r).capacity
      → j ≢ i
      → bytes_at (written m r elem i) (slot (m.ring r) j) (m.ring r).elem_size
        ≡ bytes_at m.bytes (slot (m.ring r) j) (m.ring r).elem_size
  written_other i j l k d =
      let (a, b) = slot_clear i l in
      memcpy-elsewhere m.bytes _ elem (m.ring r).elem_size _ (m.ring r).elem_size a real b (
        ground (
          arith,
          slots_apart j i (m.ring r).elem_size d,
          slot_lem (m.ring r) i v,
          slot_lem (m.ring r) j v,
        ))

  pub tail-lt : (m.ring r).tail < (m.ring r).capacity
  tail-lt = omega (arith, v.tail_at, v.some_slot)

  -- The elements after the write at the tail: those before, and the new one.
  pub written-contents :
      (m.ring r).count < (m.ring r).capacity
      → from_to (element (written m r elem (m.ring r).tail) (m.ring r)) 0 (suc (m.ring r).count)
        ≡ contents m r ++ bytes_at m.bytes elem (m.ring r).elem_size ∷ []
  written-contents room =
      from_to_last (element (written m r elem (m.ring r).tail) (m.ring r)) 0 (m.ring r).count
      ∙ ap₂ (λ xs x. xs ++ x ∷ [])
          (from_to-eq _ _ 0 0 (m.ring r).count (λ k l.
            written_other (m.ring r).tail (index (m.ring r) (0 + k)) tail-lt
              (index-lt (m.ring r) (0 + k) v) (older k l)))
          newest
    where
      older : (k : ℕ) → k < (m.ring r).count → index (m.ring r) (0 + k) ≢ (m.ring r).tail
      older k l =
          rw (zero-add k, v.tail_at)
            (round-ne (m.ring r).head k (m.ring r).count _ v.head_in l room)

      newest :
          element (written m r elem (m.ring r).tail) (m.ring r) (0 + (m.ring r).count)
          ≡ bytes_at m.bytes elem (m.ring r).elem_size
      newest = rw (zero-add (m.ring r).count, ← v.tail_at) (written_self (m.ring r).tail tail-lt)
