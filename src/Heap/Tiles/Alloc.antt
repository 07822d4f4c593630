-- ===== src/Heap/Tiles/Alloc.antt =====
-- `heap_alloc` of kernel/src/heap.c on the blocks.
use mathlib.Core.Path.{subst}
use gummy.Prelude.{
  ℕ, ◌+◌, ◌-◌, ◌*◌, ◌/◌, ◌%◌, ◌^◌, ◌≤◌, ◌<◌, ◌≡◌, refl, ◌≢◌, ◌⊎◌, inl, inr, arith, Bool, true,
  false, not, ◌&&◌, ◌||◌, leb, leb→le, ◌==◌, List, [], ◌∷◌, ◌++◌, length, Option, some, ==_of_ne,
  sym, ap, ◌∙◌, Bool-cases,
}
use gummy.Queue.{Ptr, null}
use gummy.Bitmap.{align_up}
use gummy.Pmm.{page_size}
use gummy.Heap.{Heap, header_size, heap_split_block, heap_split_block_min_size, heap_alloc}
use gummy.Heap.Tiles.{
  Block, end_of, last_of, start_of, end_of-ge, end_of-append, Tiles, Tiles-frame, Tiles-split,
  Tiles-join,
}
use gummy.Heap.Tiles.Find.{is_fit, has_no_fit, FirstFit, find_fit_lem}
use gummy.Heap.Tiles.Cut.{cut, is_roomy, taken, taken-Tiles}
use gummy.Heap.Tiles.Grow.{IsRegionAllocator, IsHeap, page_block, Grows, heap_expand-Grows}

-- No block that fits is larger than the size by less than a header.
abbrev pub all_roomy : ℕ → List Block → Bool
all_roomy size [] = true
all_roomy size (x ∷ xs) = (not (is_fit size x) || is_roomy size x) && all_roomy size xs

all_roomy-block :
    (size : ℕ) (ys : List Block) (x : Block) (zs : List Block)
    → all_roomy size (ys ++ x ∷ zs) ≡ true
    → is_fit size x ≡ true
    → is_roomy size x ≡ true
all_roomy-block size [] x zs all fit = ground arith
all_roomy-block size (y ∷ ys) x zs all fit = all_roomy-block size ys x zs (ground arith) fit

-- The pages that a block of a size needs, with its header.
abbrev pub pages_for : ℕ → ℕ
pages_for size = align_up 32 ((size + header_size) % 2 ^ 32) page_size / page_size

cut-end :
    (b size : ℕ) (x : Block) (zs : List Block) → end_of b (cut size x ++ zs) ≡ end_of b (x ∷ zs)
cut-end b size x zs =
    elim (Bool-cases (leb (size + header_size + heap_split_block_min_size) x.size)) [
      | inl big ↦
          let room : size + 48 ≤ x.size =
            omega (arith, leb→le (size + header_size + heap_split_block_min_size) x.size big) in
          rw big (ap (λ a. end_of a zs) (omega (arith, room)))
      | inr small ↦ rw small refl
    ]

cut-start : (b size : ℕ) (x : Block) (zs : List Block) → start_of b (cut size x ++ zs) null ≡ b
cut-start b size x zs =
    elim (Bool-cases (leb (size + header_size + heap_split_block_min_size) x.size)) [
      | inl big ↦ rw big refl
      | inr small ↦ rw small refl
    ]

length-append_pos : (ys zs : List Block) → 0 < length zs → 0 < length (ys ++ zs)
length-append_pos [] zs l = l
length-append_pos (y ∷ ys) zs l = omega arith

cut-length : (size : ℕ) (x : Block) (zs : List Block) → 0 < length (cut size x ++ zs)
cut-length size x zs =
    elim (Bool-cases (leb (size + header_size + heap_split_block_min_size) x.size)) [
      | inl big ↦ rw big (omega arith)
      | inr small ↦ rw small (omega arith)
    ]

module _ {W : Type 0} where
  split-fixed :
      (h : Heap W) (b size : ℕ)
      → ((heap_split_block h b size).world ≡ h.world)
        × ((heap_split_block h b size).heap_start ≡ h.heap_start)
  unfolding heap_split_block
  split-fixed h b size = ground arith

  taken-IsHeap :
      (h : Heap W) (size : ℕ) (ys : List Block) (x : Block) (zs : List Block)
      → IsHeap h (ys ++ x ∷ zs)
      → is_fit size x ≡ true
      → is_roomy size x ≡ true
      → IsHeap (taken h (end_of h.heap_start ys) size) (ys ++ (cut size x ++ zs))
  taken-IsHeap h size ys x zs v fit roomy =
      let a : Ptr = h.heap_start in
      let b : Ptr = end_of a ys in
      let (_, same_start) = split-fixed h b size in
      let real : b ≢ null = λ e. v.real (omega (arith, e, end_of-ge a ys)) in
      let all : end_of a (ys ++ x ∷ zs) ≡ end_of b (x ∷ zs) = end_of-append a ys (x ∷ zs) in
      let (l, r) = Tiles-split h null a ys (x ∷ zs) null v.tiles in
      let (r', ahead) =
        taken-Tiles h (last_of null a ys) b size x zs real r fit roomy
          (omega (arith, all, v.limit)) in
      let l' : Tiles (taken h b size) null a ys b =
        Tiles-frame h (taken h b size) null a ys b (λ p _ u. ahead p u) l in
      record {
        real = rw same_start v.real;
        some_block = length-append_pos ys (cut size x ++ zs) (cut-length size x zs);
        tiles = rw same_start (
            Tiles-join (taken h b size) null a ys (cut size x ++ zs) null
              (rw (cut-start b size x zs) l') r');
        limit =
            rw (same_start, end_of-append a ys (cut size x ++ zs), cut-end b size x zs)
              (omega (arith, all, v.limit));
      }

module _ {W : Type 0} (Good : W → Type 0) (region : W → ℕ → ℕ → ℕ → ℕ → Ptr × W)
    (law : IsRegionAllocator Good region) where
  -- The first block that fits is taken, cut to the size; or, where none fits, the heap grows by
  -- pages that have room for the size, or is left as it is.
  abbrev pub Allocates : Heap W → List Block → ℕ → Option (Ptr × Heap W) → Type 0
  Allocates h xs size result =
      ((f : FirstFit size xs) × (h' : Heap W) × (result
          ≡ some (end_of h.heap_start f.ahead + header_size, h'))
        × (h'.heap_start ≡ h.heap_start)
        × (h'.world ≡ h.world)
        × IsHeap h' (f.ahead ++ (cut size f.block ++ f.rest)))
      ⊎ ((has_no_fit size xs ≡ true)
          × (size ≤ (page_block (pages_for size)).size)
          × Grows Good region law h xs (pages_for size) result)

  module _ (h : Heap W) (x : Block) (xs : List Block) (fuel size : ℕ) (v : IsHeap h (x ∷ xs))
      (good : Good h.world) (enough : length (x ∷ xs) < fuel) (some_size : size ≢ 0)
      (small : size ≤ 2 ^ 32 - 2 ^ 13) where
    abbrev rounded : ℕ
    rounded = align_up 32 size 4

    rounded_pages :
        (0 < pages_for rounded)
        × (pages_for rounded * page_size < 2 ^ 32)
        × (rounded ≤ pages_for rounded * page_size - header_size)
    rounded_pages = (omega (arith, small), omega (arith, small), omega (arith, small))

    -- On a heap whose blocks are `x` and `xs`, over address spaces that are good for the page
    -- allocator, with more fuel than blocks, for a size from 1 to 2 ^ 32 - 2 ^ 13 such that no block
    -- that fits is larger than the rounded size by less than a header, `heap_alloc` takes the first
    -- free block that has the rounded size, cut in two where a header and 32 bytes are left over,
    -- and returns the address behind its header; where no block fits, it returns the memory of a
    -- block of new pages behind the others, which has the rounded size, or NULL with the blocks
    -- left as they are.
    pub heap_alloc-Allocates :
        all_roomy rounded (x ∷ xs) ≡ true
        → Allocates h (x ∷ xs) rounded (heap_alloc region fuel h size)
    unfolding heap_alloc
    heap_alloc-Allocates roomy =
        let (some_page, few, large) = rounded_pages in
        let start : (size == 0) ≡ false = ==_of_ne some_size in
        elim (find_fit_lem h fuel rounded null h.heap_start (x ∷ xs) v.real v.tiles enough) [
          | inl (e, none_fits) ↦
              rw (start, e)
                (inr (
                  none_fits,
                  large,
                  heap_expand-Grows Good region law h x xs (pages_for rounded) v good some_page few
                      fuel enough,
                ))
          | inr (f, e) ↦
              let b : Ptr = end_of h.heap_start f.ahead in
              let real : b ≢ null =
                λ q. v.real (omega (arith, q, end_of-ge h.heap_start f.ahead)) in
              let (same_world, same_start) = split-fixed h b rounded in
              let one_roomy : is_roomy rounded f.block ≡ true =
                all_roomy-block rounded f.ahead f.block f.rest
                  (ap (all_roomy rounded) (sym f.parts) ∙ roomy) f.fit in
              rw (start, e, ==_of_ne real)
                (inl (
                  f,
                  taken h b rounded,
                  refl,
                  same_start,
                  same_world,
                  taken-IsHeap h rounded f.ahead f.block f.rest (subst (IsHeap h) f.parts v) f.fit
                      one_roomy,
                ))
        ]
