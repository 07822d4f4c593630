-- ===== src/Heap/Tiles/Tidy.antt =====
-- Lists of blocks without two free neighbours, whose sizes are multiples of 16.
use gummy.Prelude.{
  ℕ, suc, ◌%◌, ◌≤◌, ◌<◌, ◌≡◌, refl, arith, Bool, true, false, not, ◌&&◌, ◌||◌, ◌==◌, List, [], ◌∷◌,
  ◌++◌, length,
}
use gummy.Heap.{header_size}
use gummy.Heap.Tiles.{Block}
use gummy.Heap.Tiles.Find.{is_fit}
use gummy.Heap.Tiles.Cut.{cut}
use gummy.Heap.Tiles.Coalesce.{coalesce}
use gummy.Heap.Tiles.Free.{freed}
use gummy.Heap.Tiles.Grow.{page_block}
use gummy.Heap.Tiles.Alloc.{all_roomy}

abbrev pub all_even : List Block → Bool
all_even [] = true
all_even (x ∷ xs) = x.size % header_size == 0 && all_even xs

-- No free block is behind a free one, where the block before the blocks is free or not.
abbrev pub is_merged : Bool → List Block → Bool
is_merged free [] = true
is_merged free (x ∷ xs) = (not free || x.used) && is_merged (not x.used) xs

pub all_even-all_roomy :
    (size : ℕ) (xs : List Block)
    → size % header_size ≡ 0
    → all_even xs ≡ true
    → all_roomy size xs ≡ true
all_even-all_roomy size [] s e = refl
all_even-all_roomy size (x ∷ xs) s e = ground (arith, all_even-all_roomy size xs s)

pub cut-all_even :
    (size : ℕ) (ys : List Block) (x : Block) (zs : List Block)
    → size % header_size ≡ 0
    → all_even (ys ++ x ∷ zs) ≡ true
    → all_even (ys ++ (cut size x ++ zs)) ≡ true
cut-all_even size [] x zs s e = ground arith
cut-all_even size (y ∷ ys) x zs s e = ground (arith, cut-all_even size ys x zs s)

pub cut-is_merged :
    (free : Bool) (size : ℕ) (ys : List Block) (x : Block) (zs : List Block)
    → is_fit size x ≡ true
    → is_merged free (ys ++ x ∷ zs) ≡ true
    → is_merged free (ys ++ (cut size x ++ zs)) ≡ true
cut-is_merged free size [] x [] fit e = ground arith
cut-is_merged free size [] x (z ∷ zs) fit e = ground arith
cut-is_merged free size (y ∷ ys) x zs fit e =
    ground (arith, cut-is_merged (not y.used) size ys x zs fit)

pub page-all_even :
    (n : ℕ) (xs : List Block)
    → 0 < n
    → all_even xs ≡ true
    → all_even (xs ++ page_block n ∷ []) ≡ true
page-all_even n [] l e = ground arith
page-all_even n (x ∷ xs) l e = ground (arith, page-all_even n xs l)

pub page-is_merged :
    (free : Bool) (n : ℕ) (xs : List Block)
    → is_merged free xs ≡ true
    → is_merged free (xs ++ page_block n ∷ []) ≡ true
page-is_merged free n [] e = ground arith
page-is_merged free n (x ∷ xs) e = ground (arith, page-is_merged (not x.used) n xs)

pub coalesce-all_even :
    (ys : List Block) (x : Block) (zs : List Block)
    → all_even (ys ++ x ∷ zs) ≡ true
    → all_even (coalesce ys (freed x) zs) ≡ true
coalesce-all_even [] x [] e = ground arith
coalesce-all_even [] x (z ∷ zs) e = ground arith
coalesce-all_even (y ∷ []) x [] e = ground arith
coalesce-all_even (y ∷ []) x (z ∷ zs) e = ground arith
coalesce-all_even (y ∷ y' ∷ ys) x zs e = ground (arith, coalesce-all_even (y' ∷ ys) x zs)

-- The block before the blocks is not free, or there is a block ahead.
pub coalesce-is_merged :
    (free : Bool) (ys : List Block) (x : Block) (zs : List Block)
    → (length ys ≡ 0 → free ≡ false)
    → is_merged free (ys ++ x ∷ zs) ≡ true
    → is_merged free (coalesce ys (freed x) zs) ≡ true
coalesce-is_merged free [] x [] first e = ground (arith, first refl)
coalesce-is_merged free [] x (z ∷ zs) first e = ground (arith, first refl)
coalesce-is_merged free (y ∷ []) x [] first e = ground arith
coalesce-is_merged free (y ∷ []) x (z ∷ zs) first e = ground arith
coalesce-is_merged free (y ∷ y' ∷ ys) x zs first e =
    ground (arith, coalesce-is_merged (not y.used) (y' ∷ ys) x zs (λ q. absurd (omega (arith, q))))

pub cut-length_le :
    (size : ℕ) (ys : List Block) (x : Block) (zs : List Block)
    → length (ys ++ (cut size x ++ zs)) ≤ suc (length (ys ++ x ∷ zs))
cut-length_le size [] x zs = ground arith
cut-length_le size (y ∷ ys) x zs = omega (arith, cut-length_le size ys x zs)

pub coalesce-length_le :
    (ys : List Block) (x : Block) (zs : List Block)
    → length (coalesce ys (freed x) zs) ≤ length (ys ++ x ∷ zs)
coalesce-length_le [] x [] = ground arith
coalesce-length_le [] x (z ∷ zs) = ground arith
coalesce-length_le (y ∷ []) x [] = ground arith
coalesce-length_le (y ∷ []) x (z ∷ zs) = ground arith
coalesce-length_le (y ∷ y' ∷ ys) x zs = omega (arith, coalesce-length_le (y' ∷ ys) x zs)
