-- ===== src/Heap/Tiles/Cut.antt =====
-- What `heap_split_block` and the mark of `heap_alloc` do to the blocks.
use gummy.Prelude.{
  ℕ, ◌+◌, ◌-◌, ◌%◌, ◌^◌, ◌≤◌, ◌<◌, ◌≡◌, refl, ◌≢◌, ◌⊎◌, arith, Bool, true, false, ◌||◌, leb, leb→le,
  lt→leb, le→ltb, ltb, ◌==◌, if◌then◌else◌, List, [], ◌∷◌, ◌++◌, ==_of_ne, ==_refl, sym, ap, ◌∙◌,
  Bool-cases, inl, inr,
}
use gummy.Queue.{Ptr, null, update}
use gummy.Heap.{Heap, header_size, heap_split_block, heap_split_block_min_size, rest_size}
use gummy.Heap.Tiles.{Block, behind, end_of, start_of, end_of-ge, Tiles, SameAt, Tiles-frame}
use gummy.Heap.Tiles.Find.{is_fit}

rest_size-sub :
    (all size : ℕ) → size + 48 ≤ all → all < 2 ^ 32 → rest_size all size ≡ all - size - header_size
rest_size-sub all size l w = omega arith

is_fit-free : (size : ℕ) (x : Block) → is_fit size x ≡ true → x.used ≡ false
is_fit-free size x e = ground arith

-- A block taken whole or, where at least a header and 32 bytes are left, as its beginning with a free
-- block behind.
abbrev pub cut : ℕ → Block → List Block
cut size x =
    if leb (size + header_size + heap_split_block_min_size) x.size
    then record { size = size; used = true }
      ∷ record { size = x.size - size - header_size; used = false }
      ∷ []
    else record { size = x.size; used = true } ∷ []

-- The block is not larger than the size by less than a header.
abbrev pub is_roomy : ℕ → Block → Bool
is_roomy size x = leb x.size size || leb (size + header_size) x.size

pub if_same : {A : Type 0} (b : Bool) (v : A) → (if b then v else v) ≡ v
if_same true v = refl
if_same false v = refl

pub start_of-cases :
    (a : Ptr) (xs : List Block) → (start_of a xs null ≡ null) ⊎ (start_of a xs null ≡ a)
start_of-cases a [] = inl refl
start_of-cases a (x ∷ xs) = inr refl

module _ {W : Type 0} where
  -- The block at `b` is split for a size and marked as used.
  abbrev pub taken : Heap W → Ptr → ℕ → Heap W
  taken h b size =
      let h1 : Heap W = heap_split_block h b size in record h1 { used = update h1.used b true }

  -- The header of the block behind `b`, with `b` or another block before it.
  pub relinked :
      (h h' : Heap W) (b c : Ptr) (a : Ptr) (zs : List Block)
      → Tiles h b a zs null
      → a ≢ null
      → ((p : Ptr) → a < p → SameAt h h' p)
      → h'.size a ≡ h.size a
      → h'.used a ≡ h.used a
      → h'.next a ≡ h.next a
      → (start_of a zs null ≡ a → h'.prev a ≡ c)
      → Tiles h' c a zs null
  relinked h h' b c a [] t real same s' u' n' p' = tt
  relinked h h' b c a (z ∷ zs) (s, u, p, n, t) real same s' u' n' p' = (
    s' ∙ s,
    u' ∙ u,
    p' refl,
    n' ∙ n,
    Tiles-frame h h' a (behind a z) zs null (λ q l e. same q (omega (arith, l))) t,
  )

  module _ (h : Heap W) (before b size : ℕ) (x : Block) (zs : List Block) (real : b ≢ null)
      (t : Tiles h before b (x ∷ zs) null) (fit : is_fit size x ≡ true)
      (roomy : is_roomy size x ≡ true) (word : end_of b (x ∷ zs) < 2 ^ 32) where
    whole :
        leb (size + header_size + heap_split_block_min_size) x.size ≡ false
        → heap_split_block h b size ≡ h
    unfolding heap_split_block
    whole small =
        let (s, u, p, n, r) = t in
        ground (arith, s, u, fit, roomy, small, end_of-ge (behind b x) zs)

    whole-Tiles :
        leb (size + header_size + heap_split_block_min_size) x.size ≡ false
        → Tiles (taken h b size) before b (cut size x ++ zs) null
    whole-Tiles small =
        let (s, u, p, n, r) = t in
        let marked : Heap W = record h { used = update h.used b true } in
        rw (whole small, small)
          (
            s,
            ground arith,
            p,
            n,
            Tiles-frame h marked b (behind b x) zs null
                (λ q l e. record {
                  same_size = refl;
                  same_used = ground (arith, l);
                  same_prev = refl;
                  same_next = refl;
                })
                r,
          )

    abbrev remainder : Block
    remainder = record { size = x.size - size - header_size; used = false }

    abbrev second : Ptr
    second = b + header_size + size

    module _ (big : leb (size + header_size + heap_split_block_min_size) x.size ≡ true) where
      room : size + 48 ≤ x.size
      room = omega (arith, leb→le (size + header_size + heap_split_block_min_size) x.size big)

      split_end : behind second remainder ≡ behind b x
      split_end = omega (arith, room)

      divided : Heap W
      divided = record h {
        size = update (update h.size second remainder.size) b size;
        used = update h.used second false;
        prev =
            if h.next b == null
            then update h.prev second b
            else update (update h.prev second b) (h.next b) second;
        next = update (update h.next second (h.next b)) b second;
      }

      split_eq : heap_split_block h b size ≡ divided
      unfolding heap_split_block divided
      split_eq =
          let (s, u, p, n, r) = t in
          let free : h.used b ≡ false = u ∙ is_fit-free size x fit in
          let bound : behind b x < 2 ^ 32 = omega (arith, word, end_of-ge (behind b x) zs) in
          let more : leb (h.size b) size ≡ false =
            ap (λ all. leb all size) s ∙ lt→leb size x.size (omega (arith, room)) in
          let rest : rest_size (h.size b) size ≡ remainder.size =
            ap (λ all. rest_size all size) s
            ∙ rest_size-sub x.size size room (omega (arith, bound)) in
          let enough : ltb remainder.size heap_split_block_min_size ≡ false =
            le→ltb heap_split_block_min_size remainder.size (omega (arith, room)) in
          let place : (b + size + header_size) % 2 ^ 32 ≡ second = omega (arith, room, bound) in
          rw (==_of_ne real, free, more, rest, enough, place) refl

      -- The link behind the block is NULL or the address behind it.
      divided-prev :
          (p : Ptr)
          → divided.prev p ≡ (
              if start_of (behind b x) zs null == null
              then (if p == second then b else h.prev p)
              else if p == behind b x
              then second
              else if p == second
              then b
              else h.prev p)
      unfolding divided
      divided-prev p =
          let (s, u, p', n, r) = t in
          elim (start_of-cases (behind b x) zs) [
            | inl last ↦ rw (n, last) refl
            | inr more ↦
                let further : behind b x ≢ null = omega arith in rw (n, more, ==_of_ne further) refl
          ]

      apart : (b ≢ second) × (b ≢ behind b x) × (second ≢ behind b x)
      apart = (omega arith, omega arith, omega (arith, room))

      away : (p : Ptr) → behind b x ≤ p → ((p == b) ≡ false) × ((p == second) ≡ false)
      away p l = (==_of_ne (λ e. omega (arith, e)), ==_of_ne (λ e. omega (arith, e, room)))

      -- The block behind, which begins where the rest ends.
      rest-Tiles :
          Tiles (record divided { used = update divided.used b true }) second (behind b x) zs null
      unfolding divided
      rest-Tiles =
          let (s, u, p, n, r) = t in
          let z : Ptr = behind b x in
          let (z1, z2) = away z (omega arith) in
          relinked h (record divided { used = update divided.used b true }) b second z zs r
            (omega arith)
            (λ p l.
              let (p1, p2) = away p (omega (arith, l)) in
              record {
                same_size = rw (p1, p2) refl;
                same_used = rw (p1, p2) refl;
                same_prev =
                    divided-prev p
                    ∙ rw (==_of_ne {a = p} {b = z} (λ e. omega (arith, e, l)), p2) (if_same _ _);
                same_next = rw (p1, p2) refl;
              })
            (rw (z1, z2) refl) (rw (z1, z2) refl) (rw (z1, z2) refl)
            (λ e.
              let further : z ≢ null = omega arith in
              divided-prev z ∙ rw (e, ==_of_ne further, ==_refl) refl)

      divided-Tiles : Tiles (taken h b size) before b (cut size x ++ zs) null
      unfolding divided
      divided-Tiles =
          let (s, u, p, n, r) = t in
          let (e1, e2, e3) = apart in
          let e4 : (second == b) ≡ false = ==_of_ne (λ e. e1 (sym e)) in
          rw (split_eq, big)
            (
              rw ==_refl refl,
              rw ==_refl refl,
              divided-prev b ∙ rw (==_of_ne e1, ==_of_ne e2) (if_same _ _ ∙ p),
              rw ==_refl refl,
              (
                rw (e4, ==_refl) refl,
                rw (e4, ==_refl) refl,
                divided-prev second ∙ rw (==_of_ne e3, ==_refl) (if_same _ _),
                rw (e4, ==_refl, split_end) n,
                rw split_end rest-Tiles,
              ),
            )

      divided-ahead : (p : Ptr) → p < b → SameAt h (taken h b size) p
      unfolding divided
      divided-ahead p l =
          let e1 : (p == b) ≡ false = ==_of_ne (λ e. omega (arith, e, l)) in
          let e2 : (p == second) ≡ false = ==_of_ne (λ e. omega (arith, e, l)) in
          let e3 : (p == behind b x) ≡ false = ==_of_ne (λ e. omega (arith, e, l)) in
          rw split_eq (record {
            same_size = rw (e1, e2) refl;
            same_used = rw (e1, e2) refl;
            same_prev = divided-prev p ∙ rw (e3, e2) (if_same _ _);
            same_next = rw (e1, e2) refl;
          })

    whole-ahead :
        leb (size + header_size + heap_split_block_min_size) x.size ≡ false
        → (p : Ptr) → p < b
        → SameAt h (taken h b size) p
    whole-ahead small p l =
        let e1 : (p == b) ≡ false = ==_of_ne (λ e. omega (arith, e, l)) in
        rw (whole small)
          (record { same_size = refl; same_used = rw e1 refl; same_prev = refl; same_next = refl })

    -- Splitting a block and marking it as used cuts it in the list of blocks, and leaves the headers
    -- before it.
    pub taken-Tiles :
        Tiles (taken h b size) before b (cut size x ++ zs) null
        × ((p : Ptr) → p < b → SameAt h (taken h b size) p)
    taken-Tiles = elim (Bool-cases (leb (size + header_size + heap_split_block_min_size) x.size)) [
      | inl big ↦ (divided-Tiles big, divided-ahead big)
      | inr small ↦ (whole-Tiles small, whole-ahead small)
    ]
