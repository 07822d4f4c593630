-- ===== src/Heap/Tiles/Runs.antt =====
-- Sequences of calls of `heap_alloc` and `heap_free`, kernel/src/heap.c.
use mathlib.Core.Path.{subst}
use gummy.Prelude.{
  ◌∙◌, ◌>>=◌, ℕ, ◌+◌, ◌-◌, ◌%◌, ◌^◌, ◌<◌, ◌≡◌, refl, ◌⊎◌, inl, inr, arith, Bool, true, false, not,
  ◌&&◌, leb, ◌==◌, List, [], ◌∷◌, length, Option, none, some,
}
use gummy.Queue.{Ptr, null}
use gummy.Heap.{Heap, header_size, heap_alloc, heap_free}
use gummy.Heap.Tiles.{Block}
use gummy.Heap.Tiles.Grow.{IsRegionAllocator}
use gummy.Heap.Tiles.Next.{IsTidy, Next, heap_free-FreeCase, heap_alloc-AllocCase}
use gummy.Heap.Tiles.Allocated.{Region, allocated, are_apart, allocated-are_apart, Adds, Removes}
use gummy.Heap.Tiles.Released.{is_allocated}

-- The calls of the heap's clients.
pub data HeapCall : Type 0 where
  allocate : ℕ → HeapCall
  release : Ptr → HeapCall

-- What a sequence of calls makes of the allocated regions: an allocation adds a region of at least
-- its size or fails, and a free takes the region at its address away, if there is one.
pub data Serves : List HeapCall → List Region → List Region → Type 0 where
  finished : {rs : List Region} → Serves [] rs rs
  gives :
      {size : ℕ} {calls : List HeapCall} {rs rs1 rs2 : List Region} (p : Ptr)
      → Adds rs rs1 p size
      → Serves calls rs1 rs2
      → Serves (allocate size ∷ calls) rs rs2
  fails :
      {size : ℕ} {calls : List HeapCall} {rs rs2 : List Region}
      → Serves calls rs rs2
      → Serves (allocate size ∷ calls) rs rs2
  takes_back :
      {p : Ptr} {calls : List HeapCall} {rs rs1 rs2 : List Region}
      → Removes rs rs1 p
      → Serves calls rs1 rs2
      → Serves (release p ∷ calls) rs rs2
  ignores :
      {p : Ptr} {calls : List HeapCall} {rs rs2 : List Region}
      → (p ≡ null) ⊎ (is_allocated p rs ≡ false)
      → Serves calls rs rs2
      → Serves (release p ∷ calls) rs rs2

-- The sizes of the allocations are multiples of 16 from 16 to 2 ^ 32 - 2 ^ 13.
abbrev pub are_allowed : List HeapCall → Bool
are_allowed [] = true
are_allowed (allocate size ∷ calls) =
    not (size == 0) && size % header_size == 0 && leb size (2 ^ 32 - 2 ^ 13) && are_allowed calls
are_allowed (release p ∷ calls) = are_allowed calls

module _ {W : Type 0} (region : W → ℕ → ℕ → ℕ → ℕ → Ptr × W) where
  abbrev without_pointer : Option (Ptr × Heap W) → Option (Heap W)
  without_pointer none = none
  without_pointer (some (p, h)) = some h

  abbrev pub run_call : ℕ → Heap W → HeapCall → Option (Heap W)
  run_call fuel h (allocate size) = without_pointer (heap_alloc region fuel h size)
  run_call fuel h (release p) = heap_free fuel h p

  abbrev pub run_calls : ℕ → Heap W → List HeapCall → Option (Heap W)
  run_calls fuel h [] = some h
  run_calls fuel h (call ∷ calls) = do h1 ← run_call fuel h call; run_calls fuel h1 calls

module _ {W : Type 0} (Good : W → Type 0) where
  -- The run ends in a heap that is tidy again, whose regions are what the calls make of the others
  -- and do not overlap.
  pub record Runs (h : Heap W) (xs : List Block) (calls : List HeapCall) (result : Option (Heap W))
      : Type 0 where
    pub heap : Heap W
    pub blocks : List Block
    pub ends : result ≡ some heap
    pub is_tidy : IsTidy Good heap blocks
    pub same_start : heap.heap_start ≡ h.heap_start
    pub serves : Serves calls (allocated h.heap_start xs) (allocated h.heap_start blocks)
    pub apart : are_apart h.heap_start (allocated h.heap_start blocks) ≡ true

module _ {W : Type 0} (Good : W → Type 0) (region : W → ℕ → ℕ → ℕ → ℕ → Ptr × W)
    (law : IsRegionAllocator Good region) where
  -- After a first call.
  run-cons :
      (fuel : ℕ) (h : Heap W) (xs : List Block) (call : HeapCall) (calls : List HeapCall)
      (n : Next Good h xs)
      → run_call region fuel h call ≡ some n.heap
      → ((rs : List Region)
          → Serves calls (allocated h.heap_start n.blocks) rs
          → Serves (call ∷ calls) (allocated h.heap_start xs) rs)
      → Runs Good n.heap n.blocks calls (run_calls region fuel n.heap calls)
      → Runs Good h xs (call ∷ calls) (run_calls region fuel h (call ∷ calls))
  run-cons fuel h xs call calls n e more r = record {
    heap = r.heap;
    blocks = r.blocks;
    ends = rw e r.ends;
    is_tidy = r.is_tidy;
    same_start = r.same_start ∙ n.same_start;
    serves = more (allocated h.heap_start r.blocks) (
        subst (λ a. Serves calls (allocated a n.blocks) (allocated a r.blocks)) n.same_start
          r.serves);
    apart = allocated-are_apart h.heap_start r.blocks;
  }

  -- On a tidy heap, over address spaces that are good for the page allocator, with fuel for one block
  -- more per call, any sequence of frees of any addresses and of allocations whose sizes are
  -- multiples of 16 from 16 to 2 ^ 32 - 2 ^ 13 ends, in a tidy heap: an allocation adds a region of at
  -- least its size or fails, a free takes the region at its address away and leaves the heap
  -- where there is none, and the regions never overlap.
  pub run_calls-Runs :
      (fuel : ℕ) (h : Heap W) (xs : List Block) (calls : List HeapCall)
      → IsTidy Good h xs
      → are_allowed calls ≡ true
      → length xs + length calls < fuel
      → Runs Good h xs calls (run_calls region fuel h calls)
  run_calls-Runs fuel h xs [] v allowed enough = record {
    heap = h;
    blocks = xs;
    ends = refl;
    is_tidy = v;
    same_start = refl;
    serves = finished;
    apart = allocated-are_apart h.heap_start xs;
  }
  run_calls-Runs fuel h xs (allocate size ∷ calls) v allowed enough =
      let (n, cases) =
        heap_alloc-AllocCase Good region law h xs fuel size v (omega (arith, enough)) (ground arith)
          (ground arith) (ground arith) in
      elim cases [
        | inl (e, same) ↦
            run-cons fuel h xs (allocate size) calls n (rw e refl)
              (λ rs s. fails (subst (λ old. Serves calls old rs) same s))
              (run_calls-Runs fuel n.heap n.blocks calls n.is_tidy (ground arith)
                (omega (arith, enough, n.few)))
        | inr (p, e, adds) ↦
            run-cons fuel h xs (allocate size) calls n (rw e refl) (λ rs s. gives p adds s)
              (run_calls-Runs fuel n.heap n.blocks calls n.is_tidy (ground arith)
                (omega (arith, enough, n.few)))
      ]
  run_calls-Runs fuel h xs (release p ∷ calls) v allowed enough =
      let (n, e, cases) = heap_free-FreeCase Good h xs fuel p v (omega (arith, enough)) in
      elim cases [
        | inl (same, nothing) ↦
            run-cons fuel h xs (release p) calls n e
              (λ rs s. ignores nothing (subst (λ old. Serves calls old rs) same s))
              (run_calls-Runs fuel n.heap n.blocks calls n.is_tidy (ground arith)
                (omega (arith, enough, n.few)))
        | inr removes ↦
            run-cons fuel h xs (release p) calls n e (λ rs s. takes_back removes s)
              (run_calls-Runs fuel n.heap n.blocks calls n.is_tidy (ground arith)
                (omega (arith, enough, n.few)))
      ]
