-- ===== src/Heap/Tiles/Free.antt =====
-- `heap_free` and `heap_merge_free_blocks` of kernel/src/heap.c on the blocks.
use mathlib.Core.Path.{subst}
use gummy.Prelude.{
  ℕ, ◌<◌, ◌≡◌, refl, ◌≢◌, ◌⊎◌, inl, inr, arith, true, false, ◌==◌, List, [], ◌∷◌, ◌++◌, length,
  Option, some, ==_of_ne, ==_refl, Bool-cases,
}
use gummy.Queue.{Ptr, null, update}
use gummy.Heap.{Heap, heap_merge_free_blocks, heap_free}
use gummy.Heap.Tiles.{Block, behind, end_of, end_of-ge, Tiles, Tiles-frame, Tiles-split, Tiles-join}
use gummy.Heap.Tiles.Find.{is_foreign, BlockAt, find_block_lem}
use gummy.Heap.Tiles.Coalesce.{coalesce, coalesce-end}
use gummy.Heap.Tiles.Merge.{heap_merge-Becomes}
use gummy.Heap.Tiles.Grow.{IsHeap}

abbrev pub freed : Block → Block
freed x = record { size = x.size; used = false }

freed-end :
    (a : Ptr) (ys : List Block) (x : Block) (zs : List Block)
    → end_of a (ys ++ freed x ∷ zs) ≡ end_of a (ys ++ x ∷ zs)
freed-end a [] x zs = refl
freed-end a (y ∷ ys) x zs = freed-end (behind a y) ys x zs

coalesce-length : (ys : List Block) (x : Block) (zs : List Block) → 0 < length (coalesce ys x zs)
coalesce-length [] x [] = omega arith
coalesce-length [] x (z ∷ zs) = ground arith
coalesce-length (y ∷ []) x [] = ground arith
coalesce-length (y ∷ []) x (z ∷ zs) = ground arith
coalesce-length (y ∷ y' ∷ ys) x zs = omega arith

module _ {W : Type 0} where
  merge-fixed :
      (h : Heap W) (b : Ptr)
      → ((heap_merge_free_blocks h b).world ≡ h.world)
        × ((heap_merge_free_blocks h b).heap_start ≡ h.heap_start)
  unfolding heap_merge_free_blocks
  merge-fixed h b = ground arith

  module _ (h : Heap W) (ys : List Block) (x : Block) (zs : List Block)
      (v : IsHeap h (ys ++ x ∷ zs)) where
    abbrev b : Ptr
    b = end_of h.heap_start ys

    -- The block is marked as free.
    unmarked : Heap W
    unmarked = record h { used = update h.used b false }

    unmarked-Tiles : Tiles unmarked null h.heap_start (ys ++ freed x ∷ zs) null
    unfolding unmarked
    unmarked-Tiles =
        let (l, (s, u, p, n, r)) = Tiles-split h null h.heap_start ys (x ∷ zs) null v.tiles in
        Tiles-join unmarked null h.heap_start ys (freed x ∷ zs) null
          (Tiles-frame h unmarked null h.heap_start ys b
            (λ p _ e. record {
              same_size = refl;
              same_used = ground (arith, e);
              same_prev = refl;
              same_next = refl;
            })
            l)
          (
            s,
            rw ==_refl refl,
            p,
            n,
            Tiles-frame h unmarked b (behind b x) zs null
                (λ p e _. record {
                  same_size = refl;
                  same_used = ground (arith, e);
                  same_prev = refl;
                  same_next = refl;
                })
                r,
          )

    free-IsHeap : IsHeap (heap_merge_free_blocks unmarked b) (coalesce ys (freed x) zs)
    unfolding unmarked
    free-IsHeap =
        let (_, same_start) = merge-fixed unmarked b in
        let a : Ptr = h.heap_start in
        let all : end_of a (ys ++ freed x ∷ zs) ≡ end_of a (ys ++ x ∷ zs) = freed-end a ys x zs in
        let (t, _) =
          heap_merge-Becomes unmarked null a ys (freed x) zs unmarked-Tiles v.real (λ _. refl) refl
            (omega (arith, all, v.limit)) in
        record {
          real = rw same_start v.real;
          some_block = coalesce-length ys (freed x) zs;
          tiles = rw same_start t;
          limit = rw (same_start, coalesce-end, all) v.limit;
        }

  -- The heap is left as it is, where no block has its memory at the address, or the block that has is
  -- freed and merged with its free neighbours.
  abbrev pub Frees : Heap W → List Block → Ptr → Option (Heap W) → Type 0
  Frees h xs ptr result =
      ((result ≡ some h) × ((ptr ≡ null) ⊎ (is_foreign ptr h.heap_start xs ≡ true)))
      ⊎ ((f : BlockAt ptr h.heap_start xs) × (h' : Heap W) × (result ≡ some h')
          × (h'.heap_start ≡ h.heap_start)
          × (h'.world ≡ h.world)
          × IsHeap h' (coalesce f.ahead (freed f.block) f.rest))

  -- On a heap whose blocks are `xs`, with more fuel than blocks, `heap_free` leaves the heap as it is
  -- for NULL and for an address that is not the memory of a block, and otherwise frees the block and
  -- merges it with the free blocks before and behind it.
  pub heap_free-Frees :
      (h : Heap W) (xs : List Block) (fuel : ℕ) (ptr : Ptr)
      → IsHeap h xs
      → length xs < fuel
      → Frees h xs ptr (heap_free fuel h ptr)
  unfolding heap_free unmarked
  heap_free-Frees h [] fuel ptr v enough = absurd (omega (arith, v.some_block))
  heap_free-Frees h (x ∷ xs) fuel ptr v enough = elim (Bool-cases (ptr == null)) [
    | inl e ↦ rw e (inl (refl, inl (ground arith)))
    | inr e ↦ elim (find_block_lem h fuel ptr null h.heap_start (x ∷ xs) v.real v.tiles enough) [
      | inl (found, foreign) ↦ rw (e, found) (inl (refl, inr foreign))
      | inr (f, found) ↦
          let b : Ptr = end_of h.heap_start f.ahead in
          let real : b ≢ null = λ q. v.real (omega (arith, q, end_of-ge h.heap_start f.ahead)) in
          let v2 : IsHeap h (f.ahead ++ f.block ∷ f.rest) = subst (IsHeap h) f.parts v in
          let (same_world, same_start) =
            merge-fixed (record h { used = update h.used b false }) b in
          rw (e, found, ==_of_ne real)
            (inr (
              f,
              heap_merge_free_blocks (record h { used = update h.used b false }) b,
              refl,
              same_start,
              same_world,
              free-IsHeap h f.ahead f.block f.rest v2,
            ))
    ]
  ]
