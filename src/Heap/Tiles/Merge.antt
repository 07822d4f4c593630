-- ===== src/Heap/Tiles/Merge.antt =====
-- `heap_merge_free_blocks` of kernel/src/heap.c on the blocks.
use mathlib.Core.Path.{subst}
use gummy.Prelude.{
  ◌^◌, ◌<◌, ◌≡◌, refl, ◌≢◌, ◌⊎◌, inl, inr, arith, true, false, ◌==◌, List, [], ◌∷◌, ◌++◌, length,
  ==_of_ne, sym, ap, ◌∙◌, Bool-cases,
}
use gummy.Queue.{Ptr, null}
use gummy.Heap.{Heap, merge_before, merge_behind, heap_merge_free_blocks}
use gummy.Heap.Tiles.{Block, behind, end_of, Tiles}
use gummy.Heap.Tiles.Coalesce.{
  merged, absorb, coalesce, absorb-free, coalesce-used, coalesce-free, absorb-start, coalesce-start,
}
use gummy.Heap.Tiles.Absorb.{Becomes, merge_behind-absorb, same_trans}

module _ {W : Type 0} where
  -- Merging with the block before is merging the block before with the one behind it.
  merge_before-behind :
      (h : Heap W) (before a : Ptr) (y x : Block) (zs : List Block)
      → Tiles h before a (y ∷ x ∷ zs) null
      → a ≢ null
      → x.used ≡ false
      → y.used ≡ false
      → merge_before h (behind a y) ≡ (a, merge_behind h a)
  merge_before-behind h before a y x zs (s, u, p, n, (s2, u2, p2, n2, t2)) real now_free free =
      let further : (behind a y == null) ≡ false = ==_of_ne (λ e. omega (arith, e)) in
      rw (p2, ==_of_ne real, u, free, n, further, u2, now_free) refl

  heap_merge-alone :
      (h : Heap W) (b : Ptr)
      → (b == null) ≡ false
      → h.used b ≡ false
      → (h.prev b ≡ null) ⊎ (h.used (h.prev b) ≡ true)
      → heap_merge_free_blocks h b ≡ merge_behind h b
  unfolding heap_merge_free_blocks
  heap_merge-alone h b real free (inl first) = rw (real, free, first) refl
  heap_merge-alone h b real free (inr used) = elim (Bool-cases (h.prev b == null)) [
    | inl e ↦ rw (real, free, e) refl
    | inr e ↦ rw (real, free, e, used) refl
  ]

  heap_merge-used :
      (h : Heap W) (before a : Ptr) (y x : Block) (zs : List Block)
      → Tiles h before a (y ∷ x ∷ zs) null
      → y.used ≡ true
      → x.used ≡ false
      → end_of a (y ∷ x ∷ zs) < 2 ^ 32
      → Becomes h (heap_merge_free_blocks h (behind a y)) before a (y ∷ absorb x zs)
  heap_merge-used h before a y x zs (s, u, p, n, t) used now_free word =
      let b : Ptr = behind a y in
      let (s2, u2, p2, n2, t2) = t in
      let e : heap_merge_free_blocks h b ≡ merge_behind h b =
        heap_merge-alone h b (==_of_ne (λ e. omega (arith, e))) (u2 ∙ now_free)
          (inr (ap h.used p2 ∙ u ∙ used)) in
      let (t3, ahead) = merge_behind-absorb h a b x zs t now_free word in
      let here = ahead a (omega arith) in
      subst (λ k. Becomes h k before a (y ∷ absorb x zs)) (sym e)
        (
          (
            here.same_size ∙ s,
            here.same_used ∙ u,
            here.same_prev ∙ p,
            here.same_next ∙ n ∙ sym (absorb-start b x zs null),
            t3,
          ),
          λ q l. ahead q (omega (arith, l)),
        )

  heap_merge-free :
      (h : Heap W) (before a : Ptr) (y x : Block) (zs : List Block)
      → Tiles h before a (y ∷ x ∷ zs) null
      → a ≢ null
      → y.used ≡ false
      → x.used ≡ false
      → end_of a (y ∷ x ∷ zs) < 2 ^ 32
      → Becomes h (heap_merge_free_blocks h (behind a y)) before a (absorb (merged y x) zs)
  unfolding heap_merge_free_blocks
  heap_merge-free h before a y x zs t real free now_free word =
      let (s, u, p, n, (s2, u2, p2, n2, t2)) = t in
      let b : Ptr = behind a y in
      let not_null : (b == null) ≡ false = ==_of_ne (λ e. omega (arith, e)) in
      let e : heap_merge_free_blocks h b ≡ merge_behind (merge_behind h a) a =
        rw (not_null, u2, now_free, merge_before-behind h before a y x zs t real now_free free)
          refl in
      let (t3, ahead) =
        subst (Becomes h (merge_behind h a) before a) (absorb-free y x zs now_free)
          (merge_behind-absorb h before a y (x ∷ zs) t free word) in
      let same_end : end_of a (merged y x ∷ zs) ≡ end_of a (y ∷ x ∷ zs) =
        ap (λ c. end_of c zs) (omega arith) in
      let (t4, ahead2) =
        merge_behind-absorb (merge_behind h a) before a (merged y x) zs t3 refl
          (omega (arith, same_end, word)) in
      subst (λ k. Becomes h k before a (absorb (merged y x) zs)) (sym e)
        (t4, λ q l. same_trans (ahead q l) (ahead2 q l))

  -- Freeing a block merges it with its free neighbours, and leaves the headers before the blocks.
  pub heap_merge-Becomes :
      (h : Heap W) (before a : Ptr) (ys : List Block) (x : Block) (zs : List Block)
      → Tiles h before a (ys ++ x ∷ zs) null
      → a ≢ null
      → (length ys ≡ 0 → before ≡ null)
      → x.used ≡ false
      → end_of a (ys ++ x ∷ zs) < 2 ^ 32
      → Becomes h (heap_merge_free_blocks h (end_of a ys)) before a (coalesce ys x zs)
  heap_merge-Becomes h before a [] x zs t real first now_free word =
      let (s, u, p, n, t2) = t in
      let e : heap_merge_free_blocks h a ≡ merge_behind h a =
        heap_merge-alone h a (==_of_ne real) (u ∙ now_free) (inl (p ∙ first refl)) in
      subst (λ k. Becomes h k before a (absorb x zs)) (sym e)
        (merge_behind-absorb h before a x zs t now_free word)
  heap_merge-Becomes h before a (y ∷ []) x zs t real first now_free word =
      elim (Bool-cases y.used) [
        | inl used ↦
            subst (Becomes h (heap_merge_free_blocks h (behind a y)) before a)
              (sym (coalesce-used y x zs used))
              (heap_merge-used h before a y x zs t used now_free word)
        | inr free ↦
            subst (Becomes h (heap_merge_free_blocks h (behind a y)) before a)
              (sym (coalesce-free y x zs free))
              (heap_merge-free h before a y x zs t real free now_free word)
      ]
  heap_merge-Becomes h before a (y ∷ y' ∷ ys) x zs t real first now_free word =
      let (s, u, p, n, t2) = t in
      let (t3, ahead) =
        heap_merge-Becomes h a (behind a y) (y' ∷ ys) x zs t2 (omega arith)
          (λ e. absurd (omega (arith, e))) now_free word in
      let here = ahead a (omega arith) in
      (
        (
          here.same_size ∙ s,
          here.same_used ∙ u,
          here.same_prev ∙ p,
          here.same_next ∙ n ∙ sym (coalesce-start (behind a y) (y' ∷ ys) x zs null),
          t3,
        ),
        λ q l. ahead q (omega (arith, l)),
      )
