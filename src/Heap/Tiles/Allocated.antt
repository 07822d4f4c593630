-- ===== src/Heap/Tiles/Allocated.antt =====
-- The memory that the heap has handed out: what allocations and frees mean to their callers.
use gummy.Prelude.{
  ℕ, ◌+◌, ◌-◌, ◌≤◌, ◌≡◌, refl, inl, inr, arith, Bool, true, false, ◌&&◌, leb, if◌then◌else◌, List,
  [], ◌∷◌, ◌++◌, append_nil, ap, ◌∙◌, sym, Bool-cases, leb→le,
}
use gummy.Queue.{Ptr}
use gummy.Heap.{header_size, heap_split_block_min_size}
use gummy.Heap.Tiles.{Block, behind, end_of}
use gummy.Heap.Tiles.Find.{is_fit}
use gummy.Heap.Tiles.Cut.{cut}
use gummy.Heap.Tiles.Grow.{page_block}

-- Memory that is in use: its address and its size.
pub record Region : Type 0 where
  pub address : Ptr
  pub size : ℕ

-- The memory of the used blocks from `a` on, in the order of the addresses.
abbrev pub allocated : Ptr → List Block → List Region
allocated a [] = []
allocated a (x ∷ xs) =
    if x.used
    then record { address = a + header_size; size = x.size } ∷ allocated (behind a x) xs
    else allocated (behind a x) xs

-- No region begins before `a` or before the end of the one ahead of it.
abbrev pub are_apart : Ptr → List Region → Bool
are_apart a [] = true
are_apart a (r ∷ rs) = leb a r.address && are_apart (r.address + r.size) rs

are_apart-le :
    (a b : Ptr) (rs : List Region) → a ≤ b → are_apart b rs ≡ true → are_apart a rs ≡ true
are_apart-le a b [] l e = refl
are_apart-le a b (r ∷ rs) l e = ground arith

pub allocated-are_apart : (a : Ptr) (xs : List Block) → are_apart a (allocated a xs) ≡ true
allocated-are_apart a [] = refl
allocated-are_apart a (x ∷ xs) = ground (
  arith,
  allocated-are_apart (behind a x) xs,
  are_apart-le a (behind a x) (allocated (behind a x) xs),
)

pub allocated-append :
    (a : Ptr) (xs ys : List Block)
    → allocated a (xs ++ ys) ≡ allocated a xs ++ allocated (end_of a xs) ys
allocated-append a [] ys = refl
allocated-append a (x ∷ xs) ys = elim (Bool-cases x.used) [
  | inl u ↦ rw u (
      ap (λ rs. record { address = a + header_size; size = x.size } ∷ rs)
        (allocated-append (behind a x) xs ys))
  | inr u ↦ rw u (allocated-append (behind a x) xs ys)
]

-- A region at an address and of at least a size has come to the others.
pub record Adds (rs rs' : List Region) (p : Ptr) (size : ℕ) : Type 0 where
  pub ahead : List Region
  pub region : Region
  pub behind_it : List Region
  pub old : rs ≡ ahead ++ behind_it
  pub new : rs' ≡ ahead ++ region ∷ behind_it
  pub place : region.address ≡ p
  pub large : size ≤ region.size

-- The region at an address is gone from the others.
pub record Removes (rs rs' : List Region) (p : Ptr) : Type 0 where
  pub ahead : List Region
  pub region : Region
  pub behind_it : List Region
  pub old : rs ≡ ahead ++ region ∷ behind_it
  pub new : rs' ≡ ahead ++ behind_it
  pub place : region.address ≡ p

pub free-allocated :
    (a : Ptr) (ys : List Block) (x : Block) (zs : List Block)
    → x.used ≡ false
    → allocated a (ys ++ x ∷ zs) ≡ allocated a ys ++ allocated (behind (end_of a ys) x) zs
free-allocated a ys x zs free =
    allocated-append a ys (x ∷ zs)
    ∙ ap (λ rs. allocated a ys ++ rs)
        (ap
          (λ u.
            if u
            then record { address = end_of a ys + header_size; size = x.size }
              ∷ allocated (behind (end_of a ys) x) zs
            else allocated (behind (end_of a ys) x) zs)
          free)

pub used-allocated :
    (a : Ptr) (ys : List Block) (x : Block) (zs : List Block)
    → x.used ≡ true
    → allocated a (ys ++ x ∷ zs)
      ≡ allocated a ys
        ++ record { address = end_of a ys + header_size; size = x.size }
          ∷ allocated (behind (end_of a ys) x) zs
used-allocated a ys x zs used =
    allocated-append a ys (x ∷ zs)
    ∙ ap (λ rs. allocated a ys ++ rs)
        (ap
          (λ u.
            if u
            then record { address = end_of a ys + header_size; size = x.size }
              ∷ allocated (behind (end_of a ys) x) zs
            else allocated (behind (end_of a ys) x) zs)
          used)

-- Taking a block adds its memory.
pub cut-Adds :
    (a : Ptr) (size : ℕ) (ys : List Block) (x : Block) (zs : List Block)
    → is_fit size x ≡ true
    → Adds
        (allocated a (ys ++ x ∷ zs))
        (allocated a (ys ++ (cut size x ++ zs)))
        (end_of a ys + header_size)
        size
cut-Adds a size ys x zs fit =
    let b : Ptr = end_of a ys in
    let base = free-allocated a ys x zs (ground arith) in
    elim (Bool-cases (leb (size + header_size + heap_split_block_min_size) x.size)) [
      | inl big ↦
          let at_end : b + header_size + size + header_size + (x.size - size - header_size)
              ≡ behind b x =
            omega (arith, leb→le (size + header_size + heap_split_block_min_size) x.size big) in
          record {
            ahead = allocated a ys;
            region = record { address = b + header_size; size = size };
            behind_it = allocated (behind b x) zs;
            old = base;
            new = rw big (
                used-allocated a ys _ _ refl
                ∙ ap
                    (λ c.
                      allocated a ys
                      ++ record { address = b + header_size; size = size } ∷ allocated c zs)
                    at_end);
            place = refl;
            large = omega arith;
          }
      | inr small ↦ record {
        ahead = allocated a ys;
        region = record { address = b + header_size; size = x.size };
        behind_it = allocated (behind b x) zs;
        old = base;
        new = rw small (used-allocated a ys _ zs refl);
        place = refl;
        large = ground arith;
      }
    ]

-- Adding a used block behind the others adds its memory.
pub page-Adds :
    (a : Ptr) (n size : ℕ) (xs : List Block)
    → size ≤ (page_block n).size
    → Adds (allocated a xs) (allocated a (xs ++ page_block n ∷ [])) (end_of a xs + header_size) size
page-Adds a n size xs l = record {
  ahead = allocated a xs;
  region = record { address = end_of a xs + header_size; size = (page_block n).size };
  behind_it = [];
  old = sym (append_nil (allocated a xs));
  new = used-allocated a xs (page_block n) [] refl;
  place = refl;
  large = l;
}
