-- ===== src/Heap/Tiles.antt =====
-- The heap as a list of blocks without gaps: each block begins where the one before it ends.
pub mod Find
pub mod Cut
pub mod Grow
pub mod Alloc
pub mod Coalesce
pub mod Absorb
pub mod Merge
pub mod Free
pub mod Tidy
pub mod Allocated
pub mod Released
pub mod Next
pub mod Runs
use gummy.Prelude.{ℕ, ◌+◌, ◌≤◌, ◌<◌, ◌≡◌, refl, arith, Bool, List, [], ◌∷◌, ◌++◌}
use gummy.Queue.{Ptr, null}
use gummy.Heap.{Heap, header_size}

-- A block without its address.
pub record Block : Type 0 where
  pub size : ℕ
  pub used : Bool

-- The address behind a block at `a`.
abbrev pub behind : Ptr → Block → Ptr
behind a x = a + header_size + x.size

-- The address behind blocks that begin at `a`.
abbrev pub end_of : Ptr → List Block → Ptr
end_of a [] = a
end_of a (x ∷ xs) = end_of (behind a x) xs

-- The address of the last block, or `before` if there is none.
abbrev pub last_of : Ptr → Ptr → List Block → Ptr
last_of before a [] = before
last_of before a (x ∷ xs) = last_of a (behind a x) xs

-- The address of the first block, or `after` if there is none.
abbrev pub start_of : Ptr → List Block → Ptr → Ptr
start_of a [] after = after
start_of a (x ∷ xs) after = a

pub end_of-ge : (a : Ptr) (xs : List Block) → a ≤ end_of a xs
end_of-ge a [] = omega arith
end_of-ge a (x ∷ xs) = omega (arith, end_of-ge (behind a x) xs)

pub end_of-append : (a : Ptr) (xs ys : List Block) → end_of a (xs ++ ys) ≡ end_of (end_of a xs) ys
end_of-append a [] ys = refl
end_of-append a (x ∷ xs) ys = end_of-append (behind a x) xs ys

module _ {W : Type 0} where
  -- The headers of the blocks from `a` on hold their sizes, flags and links, where `before` is the
  -- block before them and `after` the one behind them.
  abbrev pub Tiles : Heap W → Ptr → Ptr → List Block → Ptr → Type 0
  Tiles h before a [] after = Unit {0}
  Tiles h before a (x ∷ xs) after =
      (h.size a ≡ x.size)
      × (h.used a ≡ x.used)
      × (h.prev a ≡ before)
      × (h.next a ≡ start_of (behind a x) xs after)
      × Tiles h a (behind a x) xs after

  -- Two heaps have the same header at an address.
  pub record SameAt (h h' : Heap W) (a : Ptr) : Type 0 where
    pub same_size : h'.size a ≡ h.size a
    pub same_used : h'.used a ≡ h.used a
    pub same_prev : h'.prev a ≡ h.prev a
    pub same_next : h'.next a ≡ h.next a

  -- Writes outside of the blocks leave them.
  pub Tiles-frame :
      (h h' : Heap W) (before a : Ptr) (xs : List Block) (after : Ptr)
      → ((p : Ptr) → a ≤ p → p < end_of a xs → SameAt h h' p)
      → Tiles h before a xs after
      → Tiles h' before a xs after
  Tiles-frame h h' before a [] after same t = tt
  Tiles-frame h h' before a (x ∷ xs) after same (s, u, p, n, t) =
      let here = same a (omega arith) (omega (arith, end_of-ge (behind a x) xs)) in
      (
        ground (arith, here, s),
        ground (arith, here, u),
        ground (arith, here, p),
        ground (arith, here, n),
        Tiles-frame h h' a (behind a x) xs after (λ q l e. same q (omega (arith, l)) e) t,
      )

  -- The blocks `xs`, then the blocks `ys`.
  pub Tiles-split :
      (h : Heap W) (before a : Ptr) (xs ys : List Block) (after : Ptr)
      → Tiles h before a (xs ++ ys) after
      → Tiles h before a xs (start_of (end_of a xs) ys after)
        × Tiles h (last_of before a xs) (end_of a xs) ys after
  Tiles-split h before a [] ys after t = (tt, t)
  Tiles-split h before a (x ∷ []) ys after (s, u, p, n, t) = ((s, u, p, n, tt), t)
  Tiles-split h before a (x ∷ y ∷ xs) ys after (s, u, p, n, t) =
      let (l, r) = Tiles-split h a (behind a x) (y ∷ xs) ys after t in ((s, u, p, n, l), r)

  pub Tiles-join :
      (h : Heap W) (before a : Ptr) (xs ys : List Block) (after : Ptr)
      → Tiles h before a xs (start_of (end_of a xs) ys after)
      → Tiles h (last_of before a xs) (end_of a xs) ys after
      → Tiles h before a (xs ++ ys) after
  Tiles-join h before a [] ys after l r = r
  Tiles-join h before a (x ∷ []) ys after (s, u, p, n, l) r = (s, u, p, n, r)
  Tiles-join h before a (x ∷ y ∷ xs) ys after (s, u, p, n, l) r =
      (s, u, p, n, Tiles-join h a (behind a x) (y ∷ xs) ys after l r)
