-- ===== src/Heap/Paged.antt =====
-- The heap of kernel/src/heap.c over the page allocator of kernel/src/arch/i686/vmm.c.
use gummy.Prelude.{
  ℕ, ◌+◌, ◌-◌, ◌*◌, ◌<◌, ◌≡◌, refl, ◌⊎◌, inl, inr, arith, true, false, List, [], ◌∷◌, length,
}
use gummy.Queue.{Ptr, null}
use gummy.Pmm.{page_size}
use gummy.Vmm.{Paging}
use gummy.Vmm.Region.{vmm_alloc_pages_region}
use gummy.Vmm.Walk.{IsSpace}
use gummy.Vmm.Alloc.{vmm_alloc_pages_region-Reserves}
use gummy.Heap.{Heap, header_size, heap_flags, heap_initial_pages, heap_virtual_address, heap_init}
use gummy.Heap.Tiles.{Block}
use gummy.Heap.Tiles.Grow.{IsRegionAllocator}
use gummy.Heap.Tiles.Next.{IsTidy}
use gummy.Heap.Tiles.Runs.{HeapCall, are_allowed, run_calls, Runs, run_calls-Runs}

-- `vmm_alloc_pages_region` does what the heap relies on, in an address space in order.
vmm_alloc_pages_region-IsRegionAllocator : IsRegionAllocator IsSpace vmm_alloc_pages_region
vmm_alloc_pages_region-IsRegionAllocator = record {
  keeps = λ w n low high good l u.
      elim (vmm_alloc_pages_region-Reserves w n heap_flags low high good (omega arith)
        (omega (arith, l)) u) [ inl (_, m) ↦ m.space | inr (_, _, _, _, m) ↦ m.space ];
  inside = λ w n low high good l u.
      elim (vmm_alloc_pages_region-Reserves w n heap_flags low high good (omega arith)
        (omega (arith, l)) u) [
          | inl (e, _) ↦ inl e
          | inr (above, below, _, _, _) ↦ inr (above, below)
        ];
}

-- The one free block of a heap that has just been initialised.
abbrev pub first_block : Block
first_block = record { size = heap_initial_pages * page_size - header_size; used = false }

module _ {W : Type 0} (Good : W → Type 0) (region : W → ℕ → ℕ → ℕ → ℕ → Ptr × W)
    (law : IsRegionAllocator Good region) where
  -- Without pages the heap is not initialised; with pages it is the first block.
  pub heap_init-IsTidy :
      (h : Heap W)
      → Good h.world
      → (((heap_init region h).heap_start ≡ null) × Good (heap_init region h).world)
        ⊎ (((heap_init region h).heap_start ≡ heap_virtual_address)
            × IsTidy Good (heap_init region h) (first_block ∷ []))
  unfolding heap_init
  heap_init-IsTidy h good =
      let low : ℕ = heap_virtual_address in
      let high : ℕ = low + heap_initial_pages * page_size in
      let answer : Ptr × W = region h.world heap_initial_pages heap_flags low high in
      let kept : Good answer.1 =
        law.keeps h.world heap_initial_pages low high good (omega arith) (omega arith) in
      elim (law.inside h.world heap_initial_pages low high good (omega arith) (omega arith)) [
        | inl refused ↦ rw refused (inl (refl, kept))
        | inr (l, u) ↦
            let place : answer.0 ≡ low = omega (arith, l, u) in
            rw place (
              inr (
                refl,
                record {
                  heap = record {
                    real = omega arith;
                    some_block = omega arith;
                    tiles = (refl, refl, refl, refl, tt);
                    limit = omega arith;
                  };
                  even = refl;
                  tidy = refl;
                  good = kept;
                },
              ))
      ]

-- From `heap_init` on, over a page allocator whose address space is in order, either no heap could be
-- initialised, or any sequence of frees of any addresses and of allocations whose sizes are multiples
-- of 16 from 16 to 2 ^ 32 - 2 ^ 13 (with other sizes a split can wrap) ends, with fuel for one block more per call, in a heap whose blocks lie
-- without gaps from 0xE0000000 on and without two free neighbours, over an address space in order; each
-- allocation added a region of at least its size or failed, each free took the region at its address
-- away if there was one, and the regions do not overlap.
pub heap_init-Runs :
    (h : Heap Paging) (calls : List HeapCall) (fuel : ℕ)
    → IsSpace h.world
    → are_allowed calls ≡ true
    → length calls + 1 < fuel
    → let h0 = heap_init vmm_alloc_pages_region h in
      (h0.heap_start ≡ null)
      ⊎ ((h0.heap_start ≡ heap_virtual_address)
          × Runs IsSpace h0
              (first_block ∷ [])
              calls
              (run_calls vmm_alloc_pages_region fuel h0 calls))
heap_init-Runs h calls fuel v allowed enough =
    let law = vmm_alloc_pages_region-IsRegionAllocator in
    elim (heap_init-IsTidy IsSpace vmm_alloc_pages_region law h v) [
      | inl (e, _) ↦ inl e
      | inr (e, tidy) ↦ inr (
        e,
        run_calls-Runs IsSpace vmm_alloc_pages_region law fuel (heap_init vmm_alloc_pages_region h)
            (first_block ∷ []) calls tidy allowed (omega (arith, enough)),
      )
    ]
