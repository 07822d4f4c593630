-- ===== src/Heap/Tiles/Released.antt =====
-- What a free does to the memory that the heap has handed out.
use gummy.Prelude.{
  ◌+◌, ◌<◌, ◌≡◌, refl, inl, inr, arith, Bool, true, false, ◌||◌, ◌==◌, List, [], ◌∷◌, ◌++◌, ap, ◌∙◌,
  sym, Bool-cases,
}
use gummy.Queue.{Ptr}
use gummy.Heap.{header_size}
use gummy.Heap.Tiles.{Block, behind, end_of, end_of-ge}
use gummy.Heap.Tiles.Find.{is_foreign}
use gummy.Heap.Tiles.Coalesce.{
  merged, absorb, coalesce, absorb-used, absorb-free, coalesce-used, coalesce-free,
}
use gummy.Heap.Tiles.Free.{freed}
use gummy.Heap.Tiles.Allocated.{Region, allocated, Removes, free-allocated, used-allocated}

absorb-allocated :
    (b : Ptr) (x : Block) (zs : List Block)
    → x.used ≡ false
    → allocated b (absorb x zs) ≡ allocated (behind b x) zs
absorb-allocated b x [] free = rw free refl
absorb-allocated b x (z ∷ zs) free = elim (Bool-cases z.used) [
  | inl used ↦ ap (allocated b) (absorb-used x z zs used) ∙ free-allocated b [] x (z ∷ zs) free
  | inr gone ↦
      ap (allocated b) (absorb-free x z zs gone)
      ∙ ap (λ c. allocated c zs) (omega arith)
      ∙ sym (free-allocated (behind b x) [] z zs gone)
]

-- Freeing a block leaves the memory of the others.
coalesce-allocated :
    (a : Ptr) (ys : List Block) (x : Block) (zs : List Block)
    → allocated a (coalesce ys (freed x) zs)
      ≡ allocated a ys ++ allocated (behind (end_of a ys) x) zs
coalesce-allocated a [] x zs = absorb-allocated a (freed x) zs refl
coalesce-allocated a (y ∷ []) x zs = elim (Bool-cases y.used) [
  | inl used ↦
      ap (allocated a) (coalesce-used y (freed x) zs used)
      ∙ rw used (
          ap (λ rs. record { address = a + header_size; size = y.size } ∷ rs)
            (absorb-allocated (behind a y) (freed x) zs refl))
  | inr free ↦
      ap (allocated a) (coalesce-free y (freed x) zs free)
      ∙ absorb-allocated a (merged y (freed x)) zs refl
      ∙ rw free (ap (λ c. allocated c zs) (omega arith))
]
coalesce-allocated a (y ∷ y' ∷ ys) x zs = elim (Bool-cases y.used) [
  | inl used ↦ rw used (
      ap (λ rs. record { address = a + header_size; size = y.size } ∷ rs)
        (coalesce-allocated (behind a y) (y' ∷ ys) x zs))
  | inr free ↦ rw free (coalesce-allocated (behind a y) (y' ∷ ys) x zs)
]

-- Freeing a used block takes its memory away.
pub coalesce-Removes :
    (a : Ptr) (ys : List Block) (x : Block) (zs : List Block)
    → x.used ≡ true
    → Removes
        (allocated a (ys ++ x ∷ zs))
        (allocated a (coalesce ys (freed x) zs))
        (end_of a ys + header_size)
coalesce-Removes a ys x zs used = record {
  ahead = allocated a ys;
  region = record { address = end_of a ys + header_size; size = x.size };
  behind_it = allocated (behind (end_of a ys) x) zs;
  old = used-allocated a ys x zs used;
  new = coalesce-allocated a ys x zs;
  place = refl;
}

-- Freeing a free block leaves the memory.
pub coalesce-allocated_same :
    (a : Ptr) (ys : List Block) (x : Block) (zs : List Block)
    → x.used ≡ false
    → allocated a (coalesce ys (freed x) zs) ≡ allocated a (ys ++ x ∷ zs)
coalesce-allocated_same a ys x zs free =
    coalesce-allocated a ys x zs ∙ sym (free-allocated a ys x zs free)

-- A region begins at the address.
abbrev pub is_allocated : Ptr → List Region → Bool
is_allocated p [] = false
is_allocated p (r ∷ rs) = r.address == p || is_allocated p rs

is_allocated-append :
    (p : Ptr) (rs rs' : List Region)
    → is_allocated p (rs ++ rs') ≡ (is_allocated p rs || is_allocated p rs')
is_allocated-append p [] rs' = refl
is_allocated-append p (r ∷ rs) rs' = ground (arith, is_allocated-append p rs rs')

pub is_foreign-is_allocated :
    (p a : Ptr) (xs : List Block)
    → is_foreign p a xs ≡ true
    → is_allocated p (allocated a xs) ≡ false
is_foreign-is_allocated p a [] e = refl
is_foreign-is_allocated p a (x ∷ xs) e = ground (arith, is_foreign-is_allocated p (behind a x) xs)

not_below :
    (p a : Ptr) (xs : List Block) → p < a + header_size → is_allocated p (allocated a xs) ≡ false
not_below p a [] l = refl
not_below p a (x ∷ xs) l = ground (arith, not_below p (behind a x) xs)

not_above :
    (p a : Ptr) (xs : List Block) → end_of a xs < p → is_allocated p (allocated a xs) ≡ false
not_above p a [] l = refl
not_above p a (x ∷ xs) l = ground (arith, not_above p (behind a x) xs, end_of-ge (behind a x) xs)

-- The memory of a free block is not allocated.
pub free-is_allocated :
    (a : Ptr) (ys : List Block) (x : Block) (zs : List Block)
    → x.used ≡ false
    → is_allocated (end_of a ys + header_size) (allocated a (ys ++ x ∷ zs)) ≡ false
free-is_allocated a ys x zs free =
    let b : Ptr = end_of a ys in
    rw (free-allocated a ys x zs free) (
      is_allocated-append (b + header_size) (allocated a ys) (allocated (behind b x) zs)
      ∙ ground
          (arith, not_above (b + header_size) a ys, not_below (b + header_size) (behind b x) zs))
