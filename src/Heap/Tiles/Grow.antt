-- ===== src/Heap/Tiles/Grow.antt =====
-- What `heap_expand` does to the blocks, over what it relies on from the page allocator.
use gummy.Prelude.{
  ℕ, ◌+◌, ◌-◌, ◌*◌, ◌%◌, ◌^◌, ◌≤◌, ◌<◌, ◌≡◌, refl, ◌≢◌, ◌⊎◌, inl, inr, arith, true, false, leb,
  ◌==◌, List, [], ◌∷◌, ◌++◌, length, Option, some, ==_of_ne, ==_refl, ◌∙◌, Bool-cases,
}
use gummy.Queue.{Ptr, null, update}
use gummy.Pmm.{page_size}
use gummy.Heap.{Heap, header_size, heap_flags, fresh_block, expand_at, heap_expand, take_expanded}
use gummy.Heap.Tiles.{Block, behind, end_of, last_of, end_of-ge, end_of-append, Tiles, Tiles-join}
use gummy.Heap.Tiles.Find.{last_block_lem}

-- What the heap relies on from `vmm_alloc_pages_region`, while the address spaces are `Good`: it
-- returns NULL or the address of pages inside of the region.
pub record IsRegionAllocator {W : Type 0} (Good : W → Type 0) (region : W → ℕ → ℕ → ℕ → ℕ → Ptr × W)
    : Type 0 where
  pub keeps :
      (w : W) (n low high : ℕ)
      → Good w
      → low ≤ 0xffc00000
      → high ≤ 0xffc00000
      → Good (region w n heap_flags low high).1
  pub inside :
      (w : W) (n low high : ℕ)
      → Good w
      → low ≤ 0xffc00000
      → high ≤ 0xffc00000
      → ((region w n heap_flags low high).0 ≡ null)
        ⊎ ((low ≤ (region w n heap_flags low high).0)
            × ((region w n heap_flags low high).0 + n * page_size ≤ high))

last_of-bounds :
    (before a : Ptr) (x : Block) (xs : List Block)
    → (a ≤ last_of before a (x ∷ xs))
      × (last_of before a (x ∷ xs) + header_size ≤ end_of a (x ∷ xs))
last_of-bounds before a x [] = (omega arith, omega arith)
last_of-bounds before a x (y ∷ xs) =
    let (l, u) = last_of-bounds a (behind a x) y xs in (omega (arith, l), u)

module _ {W : Type 0} where
  -- The heap is initialised and its blocks are `xs`.
  pub record IsHeap (h : Heap W) (xs : List Block) : Type 0 where
    pub real : h.heap_start ≢ null
    pub some_block : 0 < length xs
    pub tiles : Tiles h null h.heap_start xs null
    pub limit : end_of h.heap_start xs ≤ 0xffc00000

  -- The last block ends where the blocks end.
  last_end :
      (h : Heap W) (before a : Ptr) (x : Block) (xs : List Block) (after : Ptr)
      → Tiles h before a (x ∷ xs) after
      → last_of before a (x ∷ xs) + header_size + h.size (last_of before a (x ∷ xs))
        ≡ end_of a (x ∷ xs)
  last_end h before a x [] after (s, u, p, n, t) = omega (arith, s)
  last_end h before a x (y ∷ xs) after (s, u, p, n, t) = last_end h a (behind a x) y xs after t

  -- The headers are the same but for the link of the last one.
  pub record SameBut (h h' : Heap W) (last p : Ptr) : Type 0 where
    pub same_size : h'.size p ≡ h.size p
    pub same_used : h'.used p ≡ h.used p
    pub same_prev : h'.prev p ≡ h.prev p
    pub same_next : p ≢ last → h'.next p ≡ h.next p

  pub Tiles-after :
      (h h' : Heap W) (before a : Ptr) (x : Block) (xs : List Block) (after after' : Ptr)
      → ((p : Ptr) → a ≤ p → p < end_of a (x ∷ xs) → SameBut h h' (last_of before a (x ∷ xs)) p)
      → h'.next (last_of before a (x ∷ xs)) ≡ after'
      → Tiles h before a (x ∷ xs) after
      → Tiles h' before a (x ∷ xs) after'
  Tiles-after h h' before a x [] after after' same e (s, u, p, n, t) =
      let here = same a (omega arith) (omega arith) in
      (here.same_size ∙ s, here.same_used ∙ u, here.same_prev ∙ p, e, tt)
  Tiles-after h h' before a x (y ∷ xs) after after' same e (s, u, p, n, t) =
      let here = same a (omega arith) (omega (arith, end_of-ge (behind a x) (y ∷ xs))) in
      let (beyond, _) = last_of-bounds a (behind a x) y xs in
      (
        here.same_size ∙ s,
        here.same_used ∙ u,
        here.same_prev ∙ p,
        here.same_next (λ q. omega (arith, q, beyond)) ∙ n,
        Tiles-after h h' a (behind a x) y xs after after' (λ q l r. same q (omega (arith, l)) r) e
            t,
      )

-- The block of `n` new pages, which an allocation takes whole.
abbrev pub page_block : ℕ → Block
page_block n = record { size = n * page_size - header_size; used = true }

module _ {W : Type 0} (Good : W → Type 0) (region : W → ℕ → ℕ → ℕ → ℕ → Ptr × W)
    (law : IsRegionAllocator Good region) where
  -- The heap is left as it is, or a used block of `n` pages is behind the others.
  abbrev pub Grows : Heap W → List Block → ℕ → Option (Ptr × Heap W) → Type 0
  Grows h xs n result =
      ((w : W) × (result ≡ some (null, record h { world = w })) × Good w)
      ⊎ ((h' : Heap W) × (result ≡ some (end_of h.heap_start xs + header_size, h'))
          × (h'.heap_start ≡ h.heap_start)
          × IsHeap h' (xs ++ page_block n ∷ [])
          × Good h'.world)

  module _ (h : Heap W) (x : Block) (xs : List Block) (n : ℕ) (v : IsHeap h (x ∷ xs))
      (good : Good h.world) (some_page : 0 < n) (few : n * page_size < 2 ^ 32) where
    abbrev last : Ptr
    last = last_of null h.heap_start (x ∷ xs)

    abbrev start : Ptr
    start = end_of h.heap_start (x ∷ xs)

    -- The new block at the end of the others, marked as used.
    grown : W → Heap W
    grown w = record h {
      world = w;
      size = update h.size start ((n * page_size + 2 ^ 32 - header_size) % 2 ^ 32);
      used = update (update h.used start false) start true;
      prev = update h.prev start last;
      next = update (update h.next start null) last start;
    }

    grown-IsHeap :
        (w : W)
        → start + n * page_size ≤ 0xffc00000
        → IsHeap (grown w) (x ∷ xs ++ page_block n ∷ [])
    unfolding grown
    grown-IsHeap w fits =
        let (low, high) = last_of-bounds null h.heap_start x xs in
        let differ : start ≢ last = λ e. omega (arith, e, high) in
        record {
          real = v.real;
          some_block = omega arith;
          tiles =
              Tiles-join (grown w) null h.heap_start (x ∷ xs) (page_block n ∷ []) null
                (Tiles-after h (grown w) null h.heap_start x xs null start
                  (λ p l r.
                    let e : (p == start) ≡ false = ==_of_ne (λ e. omega (arith, e, r)) in
                    record {
                      same_size = rw e refl;
                      same_used = rw e refl;
                      same_prev = rw e refl;
                      same_next = λ q. rw (==_of_ne q, e) refl;
                    })
                  (rw ==_refl refl) v.tiles)
                (
                  rw ==_refl (omega (arith, some_page, few)),
                  rw ==_refl refl,
                  rw ==_refl refl,
                  rw (==_of_ne differ, ==_refl) refl,
                  tt,
                );
          limit =
              omega
                (arith, end_of-append h.heap_start (x ∷ xs) (page_block n ∷ []), fits, some_page);
        }

    -- The new block before it is marked.
    fresh : W → Heap W
    fresh w =
        let h1 : Heap W =
          fresh_block (record h { world = w }) start
            ((n * page_size + 2 ^ 32 - header_size) % 2 ^ 32) last in
        record h1 { next = update h1.next last start }

    abbrev high : ℕ
    high = (start + n * page_size) % 2 ^ 32

    abbrev answer : Ptr × W
    answer = region h.world n heap_flags start high

    last_place : (last + header_size + h.size last) % 2 ^ 32 ≡ start
    last_place = omega (arith, last_end h null h.heap_start x xs null v.tiles, v.limit)

    start_real : (start == null) ≡ false
    start_real = ==_of_ne (λ e. omega (arith, e, end_of-ge (behind h.heap_start x) xs))

    expand_at-over : leb 0xffc00000 high ≡ true → expand_at region h n last ≡ (null, h)
    unfolding expand_at
    expand_at-over over = rw (last_place, over) refl

    expand_at-refused :
        leb 0xffc00000 high ≡ false
        → answer.0 ≡ null
        → expand_at region h n last ≡ (null, record h { world = answer.1 })
    unfolding expand_at
    expand_at-refused under refused = rw (last_place, under, refused) refl

    expand_at-fresh :
        leb 0xffc00000 high ≡ false
        → answer.0 ≡ start
        → expand_at region h n last ≡ (start, fresh answer.1)
    unfolding expand_at fresh
    expand_at-fresh under place = rw (last_place, under, place, start_real) refl

    heap_expand-at :
        (fuel : ℕ)
        → length (x ∷ xs) < fuel
        → heap_expand region fuel h n ≡ some (expand_at region h n last)
    unfolding heap_expand
    heap_expand-at fuel enough =
        rw
          (
            ==_of_ne v.real,
            ==_of_ne {a = n} {b = 0} (λ e. omega (arith, e, some_page)),
            last_block_lem h fuel null h.heap_start x xs v.tiles (omega (arith, enough)),
          )
          refl

    -- With more fuel than blocks, growing the heap and marking the new block as used leaves the
    -- blocks, or adds one of `n` pages.
    pub heap_expand-Grows :
        (fuel : ℕ)
        → length (x ∷ xs) < fuel
        → Grows h (x ∷ xs) n (take_expanded region (heap_expand region fuel h n))
    unfolding fresh grown
    heap_expand-Grows fuel enough =
        rw (heap_expand-at fuel enough) (elim (Bool-cases (leb 0xffc00000 high)) [
          | inl over ↦ rw (expand_at-over over) (inl (h.world, refl, good))
          | inr under ↦
              let top : high ≤ 0xffc00000 = ground arith in
              let kept : Good answer.1 = law.keeps h.world n start high good v.limit top in
              elim (law.inside h.world n start high good v.limit top) [
                | inl refused ↦ rw (expand_at-refused under refused) (inl (answer.1, refl, kept))
                | inr (l, u) ↦
                    let place : answer.0 ≡ start = omega (arith, l, u, few, v.limit) in
                    let fits : start + n * page_size ≤ 0xffc00000 = omega (arith, l, u, top) in
                    rw (expand_at-fresh under place) (
                      inr (
                        grown answer.1,
                        rw start_real refl,
                        refl,
                        grown-IsHeap answer.1 fits,
                        kept,
                      ))
              ]
        ])
