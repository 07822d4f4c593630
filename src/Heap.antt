-- ===== src/Heap.antt =====
-- The heap of the kernel: kernel/src/heap.c and kernel/include/heap.h. The headers of the blocks are
-- one map for each field. The page allocator that it calls is a parameter on a state `W` of its own;
-- `heap_print` and what the others print are left out. The walks along the list are on fuel: `none`
-- is out of fuel.
pub mod Split
pub mod Paged
pub mod Tiles
use gummy.Prelude.{
  ℕ, zero, suc, ◌+◌, ◌-◌, ◌*◌, ◌/◌, ◌%◌, ◌^◌, Bool, true, false, ◌&&◌, ◌||◌, not, ◌==◌, ltb, leb,
  if◌then◌else◌, Option, none, some,
}
use gummy.Queue.{Ptr, null, update}
use gummy.Bitmap.{align_up}
use gummy.Pmm.{page_size}

-- The globals and the headers.
pub record Heap (W : Type 0) : Type 0 where
  pub world : W
  pub heap_start : Ptr
  pub size : Ptr → ℕ
  pub used : Ptr → Bool
  pub prev : Ptr → Ptr
  pub next : Ptr → Ptr

-- `sizeof(heap_block_t)`
abbrev pub header_size : ℕ
header_size = 16

abbrev pub heap_virtual_address : ℕ
heap_virtual_address = 0xe0000000

abbrev pub heap_initial_pages : ℕ
heap_initial_pages = 24

abbrev pub heap_split_block_min_size : ℕ
heap_split_block_min_size = 32

-- VMM_FLAGS_RW | VMM_FLAGS_PRESENT
abbrev pub heap_flags : ℕ
heap_flags = 3

-- `b->size - size - sizeof(heap_block_t)`, on `size_t`.
abbrev pub rest_size : ℕ → ℕ → ℕ
rest_size whole size = (whole + 2 ^ 32 + 2 ^ 32 - size - header_size) % 2 ^ 32

module _ {W : Type 0} where
  -- A header as `heap_init` and `heap_expand` write it.
  abbrev pub fresh_block : Heap W → Ptr → ℕ → Ptr → Heap W
  fresh_block h b size before = record h {
    size = update h.size b size;
    used = update h.used b false;
    prev = update h.prev b before;
    next = update h.next b null;
  }

  unfoldable pub heap_split_block : Heap W → Ptr → ℕ → Heap W
  heap_split_block h b size =
      if b == null || h.used b || leb (h.size b) size
      then h
      else if ltb (rest_size (h.size b) size) heap_split_block_min_size
      then h
      else let new : Ptr = (b + size + header_size) % 2 ^ 32 in
        record h {
          size = update (update h.size new (rest_size (h.size b) size)) b size;
          used = update h.used new false;
          prev =
              if h.next b == null
              then update h.prev new b
              else update (update h.prev new b) (h.next b) new;
          next = update (update h.next new (h.next b)) b new;
        }

  -- The two halves of `heap_merge_free_blocks`: with the block before, which is then the block, and
  -- with the block behind.
  abbrev pub merge_before : Heap W → Ptr → Ptr × Heap W
  merge_before h b =
      let p : Ptr = h.prev b in
      if p == null || h.used p then (b, h) else (
        p,
        record h {
          size = update h.size p ((h.size p + h.size b + header_size) % 2 ^ 32);
          next = update h.next p (h.next b);
          prev = if h.next b == null then h.prev else update h.prev (h.next b) p;
        },
      )

  abbrev pub merge_behind : Heap W → Ptr → Heap W
  merge_behind h b =
      let n : Ptr = h.next b in
      if n == null || h.used n then h else record h {
        size = update h.size b ((h.size b + h.size n + header_size) % 2 ^ 32);
        next = update h.next b (h.next n);
        prev = if h.next n == null then h.prev else update h.prev (h.next n) b;
      }

  unfoldable pub heap_merge_free_blocks : Heap W → Ptr → Heap W
  heap_merge_free_blocks h b =
      if b == null || h.used b then h else let (b1, h1) = merge_before h b in merge_behind h1 b1

  unfoldable pub last_block : ℕ → Heap W → Ptr → Option Ptr
  last_block zero h b = none
  last_block (suc fuel) h b =
      let rest : Option Ptr = last_block fuel h (h.next b) in
      if h.next b == null then some b else rest

  -- The block that `heap_alloc` takes, or NULL.
  unfoldable pub find_fit : ℕ → Heap W → ℕ → Ptr → Option Ptr
  find_fit zero h size b = none
  find_fit (suc fuel) h size b =
      let rest : Option Ptr = find_fit fuel h size (h.next b) in
      if b == null
      then some null
      else if not (h.used b) && leb size (h.size b)
      then some b
      else if h.next b == null
      then some null
      else rest

  -- The block that `heap_free` frees, or NULL.
  unfoldable pub find_block : ℕ → Heap W → Ptr → Ptr → Option Ptr
  find_block zero h ptr b = none
  find_block (suc fuel) h ptr b =
      let rest : Option Ptr = find_block fuel h ptr (h.next b) in
      if b == null then some null else if b + header_size == ptr then some b else rest

  abbrev pub free_found : Heap W → Option Ptr → Option (Heap W)
  free_found h none = none
  free_found h (some b) =
      if b == null
      then some h
      else some (heap_merge_free_blocks (record h { used = update h.used b false }) b)

  unfoldable pub heap_free : ℕ → Heap W → Ptr → Option (Heap W)
  heap_free fuel h ptr =
      if ptr == null then some h else free_found h (find_block fuel h ptr h.heap_start)

  module _ (vmm_alloc_pages_region : W → ℕ → ℕ → ℕ → ℕ → Ptr × W) where
    -- The test on `region_end` is left out: it is about constants, and does not hold.
    unfoldable pub heap_init : Heap W → Heap W
    heap_init h =
        let size : ℕ = heap_initial_pages * page_size in
        let (start, w) =
          vmm_alloc_pages_region h.world heap_initial_pages heap_flags heap_virtual_address
            (heap_virtual_address + size) in
        let h1 : Heap W = record h { world = w; heap_start = start } in
        if start == null then h1 else fresh_block h1 start (size - header_size) null

    -- `heap_expand` from the last block on.
    unfoldable pub expand_at : Heap W → ℕ → Ptr → Ptr × Heap W
    expand_at h n b =
        let start : ℕ = (b + header_size + h.size b) % 2 ^ 32 in
        let end : ℕ = (start + n * page_size) % 2 ^ 32 in
        if leb 0xffc00000 end
        then (null, h)
        else let (new, w) = vmm_alloc_pages_region h.world n heap_flags start end in
          let h1 : Heap W = record h { world = w } in
          if new == null
          then (null, h1)
          else let h2 : Heap W =
              fresh_block h1 new ((n * page_size + 2 ^ 32 - header_size) % 2 ^ 32) b in
            (new, record h2 { next = update h2.next b new })

    abbrev pub expand_found : Heap W → ℕ → Option Ptr → Option (Ptr × Heap W)
    expand_found h n none = none
    expand_found h n (some b) = some (expand_at h n b)

    unfoldable pub heap_expand : ℕ → Heap W → ℕ → Option (Ptr × Heap W)
    heap_expand fuel h n =
        if h.heap_start == null || n == 0
        then some (null, h)
        else expand_found h n (last_block fuel h h.heap_start)

    abbrev pub take_expanded : Option (Ptr × Heap W) → Option (Ptr × Heap W)
    take_expanded none = none
    take_expanded (some (b, h)) =
        if b == null
        then some (null, h)
        else some (b + header_size, record h { used = update h.used b true })

    -- With the block that the search found.
    abbrev pub take_block : ℕ → Heap W → ℕ → Option Ptr → Option (Ptr × Heap W)
    take_block fuel h size none = none
    take_block fuel h size (some b) =
        if b == null
        then take_expanded
            (heap_expand fuel h (align_up 32 ((size + header_size) % 2 ^ 32) page_size / page_size))
        else let h1 : Heap W = heap_split_block h b size in
          some (b + header_size, record h1 { used = update h1.used b true })

    unfoldable pub heap_alloc : ℕ → Heap W → ℕ → Option (Ptr × Heap W)
    heap_alloc fuel h size0 =
        let size : ℕ = align_up 32 size0 4 in
        if size0 == 0
        then some (null, h)
        else take_block fuel h size (find_fit fuel h size h.heap_start)
