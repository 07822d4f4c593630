-- ===== src/Heap/Tiles/Find.antt =====
-- The walks of kernel/src/heap.c along the blocks.
use gummy.Prelude.{
  ℕ, zero, suc, ◌+◌, ◌<◌, ◌≡◌, refl, ◌≢◌, ◌⊎◌, inl, inr, arith, Bool, true, false, not, ◌&&◌, leb,
  ◌==◌, List, [], ◌∷◌, ◌++◌, length, some, Bool-cases, ==_of_ne, ap, ◌∙◌,
}
use gummy.Queue.{Ptr, null}
use gummy.Heap.{Heap, header_size, find_fit, find_block, last_block}
use gummy.Heap.Tiles.{Block, behind, end_of, last_of, start_of, Tiles}

-- A block that an allocation of a size may take, and lists with none.
abbrev pub is_fit : ℕ → Block → Bool
is_fit size x = not x.used && leb size x.size

abbrev pub has_no_fit : ℕ → List Block → Bool
has_no_fit size [] = true
has_no_fit size (x ∷ xs) = not (is_fit size x) && has_no_fit size xs

-- No block from `a` on has its memory at `ptr`.
abbrev pub is_foreign : Ptr → Ptr → List Block → Bool
is_foreign ptr a [] = true
is_foreign ptr a (x ∷ xs) = not (a + header_size == ptr) && is_foreign ptr (behind a x) xs

-- The first block that fits, among the blocks from `a` on.
pub record FirstFit (size : ℕ) (xs : List Block) : Type 0 where
  pub ahead : List Block
  pub block : Block
  pub rest : List Block
  pub parts : xs ≡ ahead ++ block ∷ rest
  pub fit : is_fit size block ≡ true
  pub none_ahead : has_no_fit size ahead ≡ true

module _ {W : Type 0} (h : Heap W) where
  later :
      {size : ℕ} {x : Block} {xs : List Block}
      → is_fit size x ≡ false
      → FirstFit size xs
      → FirstFit size (x ∷ xs)
  later {size} {x} e f = record {
    ahead = x ∷ f.ahead;
    block = f.block;
    rest = f.rest;
    parts = ap (λ ys. x ∷ ys) f.parts;
    fit = f.fit;
    none_ahead = rw e f.none_ahead;
  }

  abbrev pub FindsFit : ℕ → ℕ → Ptr → List Block → Type 0
  FindsFit fuel size a xs =
      ((find_fit fuel h size (start_of a xs null) ≡ some null) × (has_no_fit size xs ≡ true))
      ⊎ ((f : FirstFit size xs) × (find_fit fuel h size (start_of a xs null)
            ≡ some (end_of a f.ahead)))

  -- With more fuel than blocks the search finds the first block that fits, or NULL if none does.
  pub find_fit_lem :
      (fuel size before a : ℕ) (xs : List Block)
      → a ≢ null
      → Tiles h before a xs null
      → length xs < fuel
      → FindsFit fuel size a xs
  unfolding find_fit later
  find_fit_lem zero size before a xs real t l = absurd (omega arith)
  find_fit_lem (suc fuel) size before a [] real t l = inl (refl, refl)
  find_fit_lem (suc fuel) size before a (x ∷ []) real (s, u, p, n, t) l =
      elim (Bool-cases (is_fit size x)) [
        | inl here ↦ inr (
          record { ahead = []; block = x; rest = []; parts = refl; fit = here; none_ahead = refl },
          rw (==_of_ne real, u, s, here) refl,
        )
        | inr not_here ↦ inl (rw (==_of_ne real, u, s, not_here, n) refl, rw not_here refl)
      ]
  find_fit_lem (suc fuel) size before a (x ∷ y ∷ xs) real (s, u, p, n, t) l =
      elim (Bool-cases (is_fit size x)) [
        | inl here ↦ inr (
          record {
            ahead = [];
            block = x;
            rest = y ∷ xs;
            parts = refl;
            fit = here;
            none_ahead = refl;
          },
          rw (==_of_ne real, u, s, here) refl,
        )
        | inr not_here ↦
            let further : behind a x ≢ null = omega arith in
            let step : find_fit (suc fuel) h size a ≡ find_fit fuel h size (behind a x) =
              rw (==_of_ne real, u, s, not_here, n, ==_of_ne further) refl in
            elim (find_fit_lem fuel size a (behind a x) (y ∷ xs) further t (omega (arith, l))) [
              | inl (e, others) ↦ inl (step ∙ e, rw not_here others)
              | inr (f, e) ↦ inr (later not_here f, step ∙ e)
            ]
      ]

-- The block of an address, among the blocks from `a` on.
pub record BlockAt (ptr a : Ptr) (xs : List Block) : Type 0 where
  pub ahead : List Block
  pub block : Block
  pub rest : List Block
  pub parts : xs ≡ ahead ++ block ∷ rest
  pub place : end_of a ahead + header_size ≡ ptr

module _ {W : Type 0} (h : Heap W) where
  abbrev pub FindsBlock : ℕ → Ptr → Ptr → List Block → Type 0
  FindsBlock fuel ptr a xs =
      ((find_block fuel h ptr (start_of a xs null) ≡ some null) × (is_foreign ptr a xs ≡ true))
      ⊎ ((f : BlockAt ptr a xs) × (find_block fuel h ptr (start_of a xs null)
            ≡ some (end_of a f.ahead)))

  -- With more fuel than blocks the search finds the block of the address, or NULL if there is none.
  pub find_block_lem :
      (fuel ptr before a : ℕ) (xs : List Block)
      → a ≢ null
      → Tiles h before a xs null
      → length xs < fuel
      → FindsBlock fuel ptr a xs
  unfolding find_block
  find_block_lem zero ptr before a xs real t l = absurd (omega arith)
  find_block_lem (suc fuel) ptr before a [] real t l = inl (refl, refl)
  find_block_lem (suc fuel) ptr before a (x ∷ xs) real (s, u, p, n, t) l =
      elim (Bool-cases (a + header_size == ptr)) [
        | inl here ↦ inr (
          record { ahead = []; block = x; rest = xs; parts = refl; place = ground arith },
          rw (==_of_ne real, here) refl,
        )
        | inr not_here ↦
            let step : find_block (suc fuel) h ptr a
                ≡ find_block fuel h ptr (start_of (behind a x) xs null) =
              rw (==_of_ne real, not_here, n) refl in
            elim (find_block_lem fuel ptr a (behind a x) xs (omega arith) t (omega (arith, l))) [
              | inl (e, others) ↦ inl (step ∙ e, rw not_here others)
              | inr (f, e) ↦ inr (
                record {
                  ahead = x ∷ f.ahead;
                  block = f.block;
                  rest = f.rest;
                  parts = ap (λ ys. x ∷ ys) f.parts;
                  place = f.place;
                },
                step ∙ e,
              )
            ]
      ]

  -- With more fuel than blocks the walk to the end finds the last block.
  pub last_block_lem :
      (fuel before a : ℕ) (x : Block) (xs : List Block)
      → Tiles h before a (x ∷ xs) null
      → length xs < fuel
      → last_block fuel h a ≡ some (last_of before a (x ∷ xs))
  unfolding last_block
  last_block_lem zero before a x xs t l = absurd (omega arith)
  last_block_lem (suc fuel) before a x [] (s, u, p, n, t) l = rw n refl
  last_block_lem (suc fuel) before a x (y ∷ xs) (s, u, p, n, t) l =
      let further : behind a x ≢ null = omega arith in
      rw (n, ==_of_ne further) (last_block_lem fuel a (behind a x) y xs t (omega (arith, l)))
