-- ===== src/Heap/Tiles/Absorb.antt =====
-- What the second half of `heap_merge_free_blocks` of kernel/src/heap.c does to the blocks.
use mathlib.Core.Path.{subst}
use gummy.Prelude.{
  ◌+◌, ◌%◌, ◌^◌, ◌<◌, ◌≡◌, refl, ◌≢◌, inl, inr, arith, false, ◌==◌, if◌then◌else◌, List, [], ◌∷◌,
  ==_of_ne, ==_refl, sym, ◌∙◌, Bool-cases,
}
use gummy.Queue.{Ptr, null, update}
use gummy.Heap.{Heap, header_size, merge_behind}
use gummy.Heap.Tiles.{Block, behind, end_of, start_of, end_of-ge, Tiles, SameAt}
use gummy.Heap.Tiles.Cut.{relinked, start_of-cases, if_same}
use gummy.Heap.Tiles.Coalesce.{merged, absorb, absorb-used, absorb-free}

module _ {W : Type 0} where
  -- A block has absorbed the free one behind it.
  module _ (h : Heap W) (before b : Ptr) (x z : Block) (zs : List Block)
      (t : Tiles h before b (x ∷ z ∷ zs) null) (now_free : x.used ≡ false) (free : z.used ≡ false)
      (word : end_of b (x ∷ z ∷ zs) < 2 ^ 32) where
    abbrev c : Ptr
    c = behind b x

    abbrev d : Ptr
    d = behind c z

    joined : Heap W
    joined = record h {
      size = update h.size b (merged x z).size;
      next = update h.next b (h.next c);
      prev = if h.next c == null then h.prev else update h.prev (h.next c) b;
    }

    merge_behind-joined : merge_behind h b ≡ joined
    unfolding joined
    merge_behind-joined =
        let (s, u, p, n, (s2, u2, p2, n2, t2)) = t in
        let further : (c == null) ≡ false = ==_of_ne (λ e. omega (arith, e)) in
        let total : (h.size b + h.size c + header_size) % 2 ^ 32 ≡ (merged x z).size =
          omega (arith, s, s2, word, end_of-ge d zs) in
        rw (n, further, u2, free, total) refl

    joined-prev :
        (p : Ptr)
        → joined.prev p
          ≡ (if start_of d zs null == null then h.prev p else if p == d then b else h.prev p)
    unfolding joined
    joined-prev p =
        let (s, u, p', n, (s2, u2, p2, n2, t2)) = t in
        elim (start_of-cases d zs) [
          | inl last ↦ rw (n2, last) refl
          | inr more ↦ let further : d ≢ null = omega arith in rw (n2, more, ==_of_ne further) refl
        ]

    joined-ahead : (p : Ptr) → p < b → SameAt h joined p
    unfolding joined
    joined-ahead p l =
        let e1 : (p == b) ≡ false = ==_of_ne (λ e. omega (arith, e, l)) in
        let e2 : (p == d) ≡ false = ==_of_ne (λ e. omega (arith, e, l)) in
        record {
          same_size = rw e1 refl;
          same_used = refl;
          same_prev = joined-prev p ∙ rw e2 (if_same _ _);
          same_next = rw e1 refl;
        }

    joined-Tiles : Tiles joined before b (merged x z ∷ zs) null
    unfolding joined
    joined-Tiles =
        let (s, u, p, n, (s2, u2, p2, n2, t2)) = t in
        let at_end : behind b (merged x z) ≡ d = omega arith in
        let e1 : (d == b) ≡ false = ==_of_ne (λ e. omega (arith, e)) in
        (
          rw ==_refl refl,
          u ∙ now_free,
          joined-prev b ∙ rw (==_of_ne {a = b} {b = d} (λ e. omega (arith, e))) (if_same _ _ ∙ p),
          rw (==_refl, at_end) n2,
          rw at_end (
              relinked h joined c b d zs t2 (omega arith)
                (λ q l.
                  let f1 : (q == b) ≡ false = ==_of_ne (λ e. omega (arith, e, l)) in
                  let f2 : (q == d) ≡ false = ==_of_ne (λ e. omega (arith, e, l)) in
                  record {
                    same_size = rw f1 refl;
                    same_used = refl;
                    same_prev = joined-prev q ∙ rw f2 (if_same _ _);
                    same_next = rw f1 refl;
                  })
                (rw e1 refl) refl (rw e1 refl)
                (λ e.
                  let further : d ≢ null = omega arith in
                  joined-prev d ∙ rw (e, ==_of_ne further, ==_refl) refl)),
        )

  same_refl : {h : Heap W} {p : Ptr} → SameAt h h p
  same_refl = record { same_size = refl; same_used = refl; same_prev = refl; same_next = refl }

  pub same_trans : {h h1 h2 : Heap W} {p : Ptr} → SameAt h h1 p → SameAt h1 h2 p → SameAt h h2 p
  same_trans s r = record {
    same_size = r.same_size ∙ s.same_size;
    same_used = r.same_used ∙ s.same_used;
    same_prev = r.same_prev ∙ s.same_prev;
    same_next = r.same_next ∙ s.same_next;
  }

  -- The blocks from `a` on are now `xs`, and the headers before `a` are as they were.
  abbrev pub Becomes : Heap W → Heap W → Ptr → Ptr → List Block → Type 0
  Becomes h h' before a xs = Tiles h' before a xs null × ((p : Ptr) → p < a → SameAt h h' p)

  pub merge_behind-absorb :
      (h : Heap W) (before b : Ptr) (x : Block) (zs : List Block)
      → Tiles h before b (x ∷ zs) null
      → x.used ≡ false
      → end_of b (x ∷ zs) < 2 ^ 32
      → Becomes h (merge_behind h b) before b (absorb x zs)
  merge_behind-absorb h before b x [] (s, u, p, n, t) now_free word =
      rw n ((s, u, p, n, t), λ p l. same_refl)
  merge_behind-absorb h before b x (z ∷ zs) t now_free word = elim (Bool-cases z.used) [
    | inl used ↦
        let (s, u, p, n, (s2, u2, p2, n2, t2)) = t in
        let stays : merge_behind h b ≡ h =
          let further : (behind b x == null) ≡ false = ==_of_ne (λ e. omega (arith, e)) in
          rw (n, further, u2, used) refl in
        subst (Becomes h (merge_behind h b) before b) (sym (absorb-used x z zs used))
          (subst (λ k. Becomes h k before b (x ∷ z ∷ zs)) (sym stays) (t, λ p l. same_refl))
    | inr free ↦ subst (Becomes h (merge_behind h b) before b) (sym (absorb-free x z zs free)) (
        subst (λ k. Becomes h k before b (merged x z ∷ zs))
          (sym (merge_behind-joined h before b x z zs t now_free free word))
          (
            joined-Tiles h before b x z zs t now_free free word,
            joined-ahead h before b x z zs t now_free free word,
          ))
  ]
