-- ===== src/Heap/Split.antt =====
-- What `heap_split_block` does to the sizes of a free block, on all its branches.
use gummy.Prelude.{
  ℕ, ◌+◌, ◌-◌, ◌%◌, ◌^◌, ◌≤◌, ◌<◌, ◌≡◌, refl, ◌≢◌, arith, false, ◌==◌, ltb, leb, ==_of_ne,
  if◌then◌else◌,
}
use gummy.Queue.{Ptr, null, update}
use gummy.Heap.{Heap, header_size, heap_split_block, heap_split_block_min_size, rest_size}

-- The block behind the header and `size` bytes.
abbrev pub behind : Ptr → ℕ → Ptr
behind b size = (b + size + header_size) % 2 ^ 32

module _ {W : Type 0} (h : Heap W) (b size : ℕ) (real : b ≢ null) (free : h.used b ≡ false)
    (word : h.size b < 2 ^ 32) where
  abbrev halves : Heap W
  halves = record h {
    size = update (update h.size (behind b size) (rest_size (h.size b) size)) b size;
    used = update h.used (behind b size) false;
    prev =
        if h.next b == null
        then update h.prev (behind b size) b
        else update (update h.prev (behind b size) b) (h.next b) (behind b size);
    next = update (update h.next (behind b size) (h.next b)) b (behind b size);
  }

  split-halves :
      size < h.size b
      → heap_split_block_min_size ≤ rest_size (h.size b) size
      → heap_split_block h b size ≡ halves
  unfolding heap_split_block
  split-halves more enough = rw (==_of_ne real, free, over, fits) refl
    where
      over : leb (h.size b) size ≡ false
      over = ground arith

      fits : ltb (rest_size (h.size b) size) heap_split_block_min_size ≡ false
      fits = ground arith

  rest_fits : size + 16 ≤ h.size b → rest_size (h.size b) size + size + 16 ≡ h.size b
  rest_fits l = omega arith

  rest_wraps :
      size < h.size b
      → h.size b < size + 16
      → rest_size (h.size b) size + size + 16 ≡ h.size b + 2 ^ 32
  rest_wraps l s = omega arith

  -- On a free block, `heap_split_block` changes nothing if the block is no larger than the size, or
  -- if what is left is at least a header and then less than 32 bytes. With a header and 32 bytes or
  -- more left, the block gets the size and a free block behind it has the rest without its header.
  pub heap_split_block-sizes :
      ((h.size b ≤ size) → heap_split_block h b size ≡ h)
      × ((size + 16 ≤ h.size b) → (h.size b < size + 48) → heap_split_block h b size ≡ h)
      × ((size + 48 ≤ h.size b)
          → behind b size ≢ b
          → let h' = heap_split_block h b size in
            (h'.size b ≡ size)
            × (size + header_size + h'.size (behind b size) ≡ h.size b)
            × (h'.used (behind b size) ≡ false)
            × (h'.used b ≡ false)
            × (h'.next b ≡ behind b size)
            × (h'.next (behind b size) ≡ h.next b))
  unfolding heap_split_block
  heap_split_block-sizes = (
    λ small. ground arith,
    λ enough short. ground (arith, rest_fits enough),
    λ enough apart. rw (split-halves (omega arith) (omega (arith, rest_fits (omega arith)))) (
      ground arith,
      ground (arith, rest_fits (omega arith)),
      ground arith,
      ground arith,
      ground arith,
      ground arith,
    ),
  )

  -- With more than the size and less than a header left, what is left wraps: `heap_split_block`
  -- makes a free block of more than 2 ^ 32 - 17 bytes.
  pub heap_split_block-wraps :
      size < h.size b
      → h.size b < size + header_size
      → behind b size ≢ b
      → (2 ^ 32 - 16 ≤ (heap_split_block h b size).size (behind b size))
        × ((heap_split_block h b size).used (behind b size) ≡ false)
        × ((heap_split_block h b size).next b ≡ behind b size)
  unfolding heap_split_block
  heap_split_block-wraps more short apart =
      rw (split-halves more (omega (arith, rest_wraps more short)))
        (ground (arith, rest_wraps more short), ground arith, ground arith)
