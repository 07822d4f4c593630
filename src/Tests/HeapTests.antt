-- ===== src/Tests/HeapTests.antt =====
-- kernel/src/heap.c at concrete heaps.
use gummy.Prelude.{
  ℕ, ◌+◌, ◌-◌, ◌*◌, ◌^◌, ◌≤◌, ◌≡◌, refl, ◌⊎◌, arith, List, [], ◌∷◌, true, false, leb, if◌then◌else◌,
  Option, none, some,
}
use gummy.Queue.{Ptr, null, update}
use gummy.Pmm.{page_size}
use gummy.Vmm.{Paging}
use gummy.Vmm.Region.{vmm_alloc_pages_region}
use gummy.Vmm.Walk.{IsSpace}
use gummy.Heap.{Heap, heap_virtual_address, heap_alloc, heap_free, heap_init, heap_split_block}
use gummy.Heap.Split.{heap_split_block-wraps}
use gummy.Heap.Tiles.{Block}
use gummy.Heap.Tiles.Grow.{IsRegionAllocator, IsHeap}
use gummy.Heap.Tiles.Alloc.{Allocates, heap_alloc-Allocates}
use gummy.Heap.Tiles.Free.{Frees, heap_free-Frees}
use gummy.Heap.Tiles.Runs.{HeapCall, allocate, release, run_calls, Runs}
use gummy.Heap.Paged.{first_block, heap_init-Runs}
use gummy.Tests.VmmTests.{space, space-IsSpace}

-- A used block of 40 bytes at 4096, then free ones of 100 and of 200 bytes.
abbrev heap : Heap ℕ
heap = record {
  world = 0;
  heap_start = 4096;
  size = update (update (λ b. 200) 4096 40) 4152 100;
  used = update (λ b. false) 4096 true;
  prev = update (update (λ b. 0) 4152 4096) 4268 4152;
  next = update (update (λ b. 0) 4096 4152) 4152 4268;
}

abbrev blocks : List Block
blocks =
    record { size = 40; used = true }
    ∷ record { size = 100; used = false }
    ∷ record { size = 200; used = false }
    ∷ []

heap-IsHeap : IsHeap heap blocks
heap-IsHeap = record {
  real = omega arith;
  some_block = omega arith;
  tiles = (refl, refl, refl, refl, (refl, refl, refl, refl, (refl, refl, refl, refl, tt)));
  limit = omega arith;
}

-- Gives the beginning of the region, if that is large enough.
abbrev region : ℕ → ℕ → ℕ → ℕ → ℕ → Ptr × ℕ
region w n flags low high = if leb (low + n * page_size) high then (low, w) else (null, w)

abbrev Any : ℕ → Type 0
Any w = Unit {0}

region-IsRegionAllocator : IsRegionAllocator Any region
region-IsRegionAllocator = record {
  keeps = λ w n low high good l u. tt;
  inside = λ w n low high good l u. ground arith;
}

heap_alloc-Allocates_example :
    Allocates Any region region-IsRegionAllocator heap blocks 120 (heap_alloc region 4 heap 118)
heap_alloc-Allocates_example =
    heap_alloc-Allocates Any region region-IsRegionAllocator heap
      (record { size = 40; used = true })
      (record { size = 100; used = false } ∷ record { size = 200; used = false } ∷ []) 4 118
      heap-IsHeap tt (omega arith) (omega arith) (omega arith) refl

-- The address that an allocation returns.
abbrev pointer : Option (Ptr × Heap ℕ) → Option Ptr
pointer none = none
pointer (some (p, h)) = some p

-- The third block is the first that fits; for a page and a half the heap grows behind the last block.
first_fit : pointer (heap_alloc region 4 heap 118) ≡ some 4284
unfolding heap_alloc gummy.Heap.find_fit heap_split_block
first_fit = refl

grown_fit : pointer (heap_alloc region 4 heap 6000) ≡ some 4500
unfolding heap_alloc gummy.Heap.find_fit gummy.Heap.heap_expand gummy.Heap.expand_at
    gummy.Heap.last_block
grown_fit = refl

heap_free-Frees_example : Frees heap blocks 4112 (heap_free 4 heap 4112)
heap_free-Frees_example = heap_free-Frees heap blocks 4 4112 heap-IsHeap (omega arith)

heap_split_block-wraps_example :
    (2 ^ 32 - 16 ≤ (heap_split_block heap 4152 92).size 4260)
    × ((heap_split_block heap 4152 92).used 4260 ≡ false)
    × ((heap_split_block heap 4152 92).next 4152 ≡ 4260)
heap_split_block-wraps_example =
    heap_split_block-wraps heap 4152 92 (omega arith) refl (omega arith) (omega arith) (omega arith)
      (omega arith)

-- No heap yet, over the pages of the tests of the page tables.
abbrev fresh_heap : Heap Paging
fresh_heap = record {
  world = space;
  heap_start = null;
  size = λ b. 0;
  used = λ b. false;
  prev = λ b. null;
  next = λ b. null;
}

abbrev calls : List HeapCall
calls = allocate 64 ∷ allocate 4096 ∷ release 0xe0000010 ∷ release 5 ∷ []

heap_init-Runs_example :
    let h0 = heap_init vmm_alloc_pages_region fresh_heap in
    (h0.heap_start ≡ null)
    ⊎ ((h0.heap_start ≡ heap_virtual_address)
        × Runs IsSpace h0 (first_block ∷ []) calls (run_calls vmm_alloc_pages_region 6 h0 calls))
heap_init-Runs_example = heap_init-Runs fresh_heap calls 6 space-IsSpace refl (omega arith)
