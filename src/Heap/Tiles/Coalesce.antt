-- ===== src/Heap/Tiles/Coalesce.antt =====
-- Blocks that are merged with their free neighbours.
use gummy.Prelude.{
  ◌+◌, ◌≡◌, refl, inl, inr, arith, true, false, if◌then◌else◌, List, [], ◌∷◌, ◌++◌, ap, ◌∙◌,
  Bool-cases,
}
use gummy.Queue.{Ptr}
use gummy.Heap.{header_size}
use gummy.Heap.Tiles.{Block, behind, end_of, start_of}

-- One free block in place of two neighbours.
abbrev pub merged : Block → Block → Block
merged x z = record { size = x.size + z.size + header_size; used = false }

-- A block with the one behind it, if that is free.
abbrev pub absorb : Block → List Block → List Block
absorb x [] = x ∷ []
absorb x (z ∷ zs) = if z.used then x ∷ z ∷ zs else merged x z ∷ zs

-- A block with its free neighbours.
abbrev pub coalesce : List Block → Block → List Block → List Block
coalesce [] x zs = absorb x zs
coalesce (y ∷ []) x zs = if y.used then y ∷ absorb x zs else absorb (merged y x) zs
coalesce (y ∷ y' ∷ ys) x zs = y ∷ coalesce (y' ∷ ys) x zs

pub absorb-used : (x z : Block) (zs : List Block) → z.used ≡ true → absorb x (z ∷ zs) ≡ x ∷ z ∷ zs
absorb-used x z zs u = ap (λ b. if b then x ∷ z ∷ zs else merged x z ∷ zs) u

pub absorb-free :
    (x z : Block) (zs : List Block) → z.used ≡ false → absorb x (z ∷ zs) ≡ merged x z ∷ zs
absorb-free x z zs u = ap (λ b. if b then x ∷ z ∷ zs else merged x z ∷ zs) u

pub coalesce-used :
    (y x : Block) (zs : List Block) → y.used ≡ true → coalesce (y ∷ []) x zs ≡ y ∷ absorb x zs
coalesce-used y x zs u = ap (λ b. if b then y ∷ absorb x zs else absorb (merged y x) zs) u

pub coalesce-free :
    (y x : Block) (zs : List Block)
    → y.used ≡ false
    → coalesce (y ∷ []) x zs ≡ absorb (merged y x) zs
coalesce-free y x zs u = ap (λ b. if b then y ∷ absorb x zs else absorb (merged y x) zs) u

pub absorb-end :
    (b : Ptr) (x : Block) (zs : List Block) → end_of b (absorb x zs) ≡ end_of b (x ∷ zs)
absorb-end b x [] = refl
absorb-end b x (z ∷ zs) = elim (Bool-cases z.used) [
  | inl u ↦ rw u refl
  | inr u ↦ rw u (ap (λ a. end_of a zs) (omega arith))
]

pub coalesce-end :
    (a : Ptr) (ys : List Block) (x : Block) (zs : List Block)
    → end_of a (coalesce ys x zs) ≡ end_of a (ys ++ x ∷ zs)
coalesce-end a [] x zs = absorb-end a x zs
coalesce-end a (y ∷ []) x zs = elim (Bool-cases y.used) [
  | inl u ↦ rw u (absorb-end (behind a y) x zs)
  | inr u ↦ rw u (absorb-end a (merged y x) zs ∙ ap (λ a. end_of a zs) (omega arith))
]
coalesce-end a (y ∷ y' ∷ ys) x zs = coalesce-end (behind a y) (y' ∷ ys) x zs

pub absorb-start :
    (b : Ptr) (x : Block) (zs : List Block) (after : Ptr) → start_of b (absorb x zs) after ≡ b
absorb-start b x [] after = refl
absorb-start b x (z ∷ zs) after = elim (Bool-cases z.used) [ inl u ↦ rw u refl | inr u ↦ rw u refl ]

pub coalesce-start :
    (a : Ptr) (ys : List Block) (x : Block) (zs : List Block) (after : Ptr)
    → start_of a (coalesce ys x zs) after ≡ a
coalesce-start a [] x zs after = absorb-start a x zs after
coalesce-start a (y ∷ []) x zs after = elim (Bool-cases y.used) [
  | inl u ↦ rw u refl
  | inr u ↦ rw u (absorb-start a (merged y x) zs after)
]
coalesce-start a (y ∷ y' ∷ ys) x zs after = refl
