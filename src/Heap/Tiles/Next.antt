-- ===== src/Heap/Tiles/Next.antt =====
-- A call of `heap_alloc` or `heap_free`, kernel/src/heap.c, on a heap without two free neighbours.
use mathlib.Core.Path.{subst}
use gummy.Prelude.{
  ℕ, suc, ◌+◌, ◌-◌, ◌%◌, ◌^◌, ◌≤◌, ◌<◌, ◌≡◌, refl, ◌≢◌, ◌⊎◌, inl, inr, arith, true, false, List, [],
  ◌∷◌, ◌++◌, length, length-append, Option, some, ap, ◌∙◌, sym, Bool-cases,
}
use gummy.Queue.{Ptr, null}
use gummy.Bitmap.{align_up}
use gummy.Heap.{Heap, header_size, heap_alloc, heap_free}
use gummy.Heap.Tiles.{Block, end_of}
use gummy.Heap.Tiles.Find.{FirstFit, BlockAt}
use gummy.Heap.Tiles.Cut.{cut}
use gummy.Heap.Tiles.Coalesce.{coalesce}
use gummy.Heap.Tiles.Grow.{IsRegionAllocator, IsHeap, page_block}
use gummy.Heap.Tiles.Alloc.{pages_for, all_roomy, Allocates, heap_alloc-Allocates}
use gummy.Heap.Tiles.Free.{freed, heap_free-Frees}
use gummy.Heap.Tiles.Tidy.{
  all_even, is_merged, all_even-all_roomy, cut-all_even, cut-is_merged, page-all_even,
  page-is_merged, coalesce-all_even, coalesce-is_merged, cut-length_le, coalesce-length_le,
}
use gummy.Heap.Tiles.Allocated.{allocated, Adds, Removes, cut-Adds, page-Adds}
use gummy.Heap.Tiles.Released.{
  is_allocated, coalesce-Removes, coalesce-allocated_same, is_foreign-is_allocated,
  free-is_allocated,
}

module _ {W : Type 0} (Good : W → Type 0) where
  -- The heap holds the blocks `xs`, whose sizes are multiples of 16, and no free block is behind a
  -- free one.
  pub record IsTidy (h : Heap W) (xs : List Block) : Type 0 where
    pub heap : IsHeap h xs
    pub even : all_even xs ≡ true
    pub tidy : is_merged false xs ≡ true
    pub good : Good h.world

  -- The heap after a call, with at most one block more.
  pub record Next (h : Heap W) (xs : List Block) : Type 0 where
    pub heap : Heap W
    pub blocks : List Block
    pub is_tidy : IsTidy heap blocks
    pub same_start : heap.heap_start ≡ h.heap_start
    pub few : length blocks ≤ suc (length xs)

  abbrev pub AllocCase : Heap W → List Block → ℕ → Option (Ptr × Heap W) → Type 0
  AllocCase h xs size result =
      (n : Next h xs) × (((result ≡ some (null, n.heap))
          × (allocated h.heap_start n.blocks ≡ allocated h.heap_start xs))
        ⊎ ((p : Ptr) × (result ≡ some (p, n.heap))
            × Adds (allocated h.heap_start xs) (allocated h.heap_start n.blocks) p size))

  abbrev pub FreeCase : Heap W → List Block → Ptr → Option (Heap W) → Type 0
  FreeCase h xs ptr result =
      (n : Next h xs) × (result ≡ some n.heap)
      × (((allocated h.heap_start n.blocks ≡ allocated h.heap_start xs)
            × ((ptr ≡ null) ⊎ (is_allocated ptr (allocated h.heap_start xs) ≡ false)))
          ⊎ Removes (allocated h.heap_start xs) (allocated h.heap_start n.blocks) ptr)

  cut-Next :
      (h h' : Heap W) (xs : List Block) (size : ℕ) (f : FirstFit size xs)
      → IsTidy h xs
      → size % header_size ≡ 0
      → h'.heap_start ≡ h.heap_start
      → h'.world ≡ h.world
      → IsHeap h' (f.ahead ++ (cut size f.block ++ f.rest))
      → Next h xs
  cut-Next h h' xs size f v even same_start same_world heap = record {
    heap = h';
    blocks = f.ahead ++ (cut size f.block ++ f.rest);
    is_tidy = record {
      heap = heap;
      even = cut-all_even size f.ahead f.block f.rest even (ap all_even (sym f.parts) ∙ v.even);
      tidy =
          cut-is_merged false size f.ahead f.block f.rest f.fit
            (ap (is_merged false) (sym f.parts) ∙ v.tidy);
      good = subst Good (sym same_world) v.good;
    };
    same_start = same_start;
    few = omega (arith, cut-length_le size f.ahead f.block f.rest, ap length f.parts);
  }

  same-Next : (h : Heap W) (w : W) (xs : List Block) → IsTidy h xs → Good w → Next h xs
  same-Next h w xs v good = record {
    heap = record h { world = w };
    blocks = xs;
    is_tidy = record {
      heap = record {
        real = v.heap.real;
        some_block = v.heap.some_block;
        tiles = v.heap.tiles;
        limit = v.heap.limit;
      };
      even = v.even;
      tidy = v.tidy;
      good = good;
    };
    same_start = refl;
    few = omega arith;
  }

  page-Next :
      (h h' : Heap W) (xs : List Block) (n : ℕ)
      → IsTidy h xs
      → 0 < n
      → h'.heap_start ≡ h.heap_start
      → Good h'.world
      → IsHeap h' (xs ++ page_block n ∷ [])
      → Next h xs
  page-Next h h' xs n v some_page same_start good heap = record {
    heap = h';
    blocks = xs ++ page_block n ∷ [];
    is_tidy = record {
      heap = heap;
      even = page-all_even n xs some_page v.even;
      tidy = page-is_merged false n xs v.tidy;
      good = good;
    };
    same_start = same_start;
    few = omega (arith, length-append xs (page_block n ∷ []));
  }

  free-Next :
      (h h' : Heap W) (xs : List Block) (ptr : Ptr) (f : BlockAt ptr h.heap_start xs)
      → IsTidy h xs
      → h'.heap_start ≡ h.heap_start
      → h'.world ≡ h.world
      → IsHeap h' (coalesce f.ahead (freed f.block) f.rest)
      → Next h xs
  free-Next h h' xs ptr f v same_start same_world heap = record {
    heap = h';
    blocks = coalesce f.ahead (freed f.block) f.rest;
    is_tidy = record {
      heap = heap;
      even = coalesce-all_even f.ahead f.block f.rest (ap all_even (sym f.parts) ∙ v.even);
      tidy =
          coalesce-is_merged false f.ahead f.block f.rest (λ _. refl)
            (ap (is_merged false) (sym f.parts) ∙ v.tidy);
      good = subst Good (sym same_world) v.good;
    };
    same_start = same_start;
    few = omega (arith, coalesce-length_le f.ahead f.block f.rest, ap length f.parts);
  }

  -- A free of any address.
  pub heap_free-FreeCase :
      (h : Heap W) (xs : List Block) (fuel : ℕ) (ptr : Ptr)
      → IsTidy h xs
      → length xs < fuel
      → FreeCase h xs ptr (heap_free fuel h ptr)
  unfolding same-Next free-Next
  heap_free-FreeCase h xs fuel ptr v enough = elim (heap_free-Frees h xs fuel ptr v.heap enough) [
    | inl (e, inl nothing) ↦ (same-Next h h.world xs v v.good, e, inl (refl, inl nothing))
    | inl (e, inr foreign) ↦ (
      same-Next h h.world xs v v.good,
      e,
      inl (refl, inr (is_foreign-is_allocated ptr h.heap_start xs foreign)),
    )
    | inr (f, h', e, same_start, same_world, heap) ↦ (
      free-Next h h' xs ptr f v same_start same_world heap,
      e,
      elim (Bool-cases f.block.used) [
        | inl used ↦ inr (
            subst
              (λ p.
                Removes (allocated h.heap_start xs)
                  (allocated h.heap_start (coalesce f.ahead (freed f.block) f.rest)) p)
              f.place
              (subst
                (λ ys.
                  Removes (allocated h.heap_start ys)
                    (allocated h.heap_start (coalesce f.ahead (freed f.block) f.rest))
                    (end_of h.heap_start f.ahead + header_size))
                (sym f.parts) (coalesce-Removes h.heap_start f.ahead f.block f.rest used)))
        | inr free ↦ inl (
          coalesce-allocated_same h.heap_start f.ahead f.block f.rest free
              ∙ ap (allocated h.heap_start) (sym f.parts),
          inr (
              ap (λ p. is_allocated p (allocated h.heap_start xs)) (sym f.place)
              ∙ ap
                  (λ ys.
                    is_allocated (end_of h.heap_start f.ahead + header_size)
                      (allocated h.heap_start ys))
                  f.parts
              ∙ free-is_allocated h.heap_start f.ahead f.block f.rest free),
        )
      ],
    )
  ]

  module _ (region : W → ℕ → ℕ → ℕ → ℕ → Ptr × W) (law : IsRegionAllocator Good region) where
    -- An allocation of a size that is a multiple of 16.
    pub heap_alloc-AllocCase :
        (h : Heap W) (xs : List Block) (fuel size : ℕ)
        → IsTidy h xs
        → length xs < fuel
        → size ≢ 0
        → size % header_size ≡ 0
        → size ≤ 2 ^ 32 - 2 ^ 13
        → AllocCase h xs size (heap_alloc region fuel h size)
    unfolding cut-Next same-Next page-Next
    heap_alloc-AllocCase h [] fuel size v enough some_size even small =
        absurd (omega (arith, v.heap.some_block))
    heap_alloc-AllocCase h (x ∷ xs) fuel size v enough some_size even small =
        let exact : align_up 32 size 4 ≡ size = omega (arith, even, small) in
        let some_page : 0 < pages_for size = omega (arith, small) in
        let cases : Allocates Good region law h (x ∷ xs) size (heap_alloc region fuel h size) =
          subst (λ s. Allocates Good region law h (x ∷ xs) s (heap_alloc region fuel h size)) exact
            (heap_alloc-Allocates Good region law h x xs fuel size v.heap v.good enough some_size
              small
              (ap (λ s. all_roomy s (x ∷ xs)) exact
                ∙ all_even-all_roomy size (x ∷ xs) even v.even)) in
        elim cases [
          | inl (f, h', e, same_start, same_world, heap) ↦ (
            cut-Next h h' (x ∷ xs) size f v even same_start same_world heap,
            inr (
              end_of h.heap_start f.ahead + header_size,
              e,
              subst
                  (λ ys.
                    Adds (allocated h.heap_start ys)
                      (allocated h.heap_start (f.ahead ++ (cut size f.block ++ f.rest)))
                      (end_of h.heap_start f.ahead + header_size) size)
                  (sym f.parts) (cut-Adds h.heap_start size f.ahead f.block f.rest f.fit),
            ),
          )
          | inr (none_fits, large, inl (w, e, good)) ↦
              (same-Next h w (x ∷ xs) v good, inl (e, refl))
          | inr (none_fits, large, inr (h', e, same_start, heap, good)) ↦ (
            page-Next h h' (x ∷ xs) (pages_for size) v some_page same_start good heap,
            inr (
              end_of h.heap_start (x ∷ xs) + header_size,
              e,
              page-Adds h.heap_start (pages_for size) size (x ∷ xs) large,
            ),
          )
        ]
