-- ===== src/Pmm/Alloc.antt =====
-- `pmm_alloc_page` and `pmm_free_page` against the set of used pages.
use gummy.Prelude.{
  ℕ, zero, suc, ◌+◌, ◌*◌, ◌/◌, ◌%◌, ◌^◌, ◌≤◌, ◌<◌, ◌≡◌, refl, ◌≢◌, ◌⊎◌, inl, inr, Bool, true, false,
  not, ◌||◌, ◌&&◌, arith, ◌==◌, Bool-cases, ◌∙◌, sym,
}
use gummy.Queue.{null}
use gummy.Bitmap.{bitmap_test_bit, bitmap_set_bit, bitmap_clear_bit}
use gummy.Bitmap.Bits.{AreBytes, test-set, test-clear, set-AreBytes, clear-AreBytes}
use gummy.Bitmap.Find.{first_free, bitmap_find_free_bit-first_free}
use gummy.Pmm.{Pmm, page_size, free_page, pmm_alloc_page, pmm_free_page}

-- Whether a page is in use.
abbrev pub used : Pmm → ℕ → Bool
used s page = bitmap_test_bit s.bytes s.bitmap page

-- A state after `pmm_init`: page 0 is in use, and 32 bits reach every page.
pub record IsReady (s : Pmm) : Type 0 where
  pub bitmap_real : s.bitmap ≢ null
  pub some_page : 0 < s.bitmap_bits
  pub reach : s.bitmap_bits ≤ 2 ^ 20
  pub bytes_ok : AreBytes s.bytes
  pub zero_used : used s 0 ≡ true

-- The lowest free page, or 0, by its properties.
first_free_lem :
    (f : ℕ → Bool) (n i : ℕ)
    → ((first_free f n i ≡ 0) × ((j : ℕ) → i ≤ j → j < i + n → f j ≡ true))
      ⊎ ((i ≤ first_free f n i)
          × (first_free f n i < i + n)
          × (f (first_free f n i) ≡ false)
          × ((j : ℕ) → i ≤ j → j < first_free f n i → f j ≡ true))
unfolding first_free
first_free_lem f zero i = inl (refl, λ j a b. absurd (omega arith))
first_free_lem f (suc n) i = elim (Bool-cases (f i)) [
  | inl u ↦ rw u (elim (first_free_lem f n (i + 1)) [
    | inl (e, all) ↦ inl (e, λ j a b. ground (arith, all j))
    | inr (a, b, c, all) ↦ inr (omega arith, omega arith, c, λ j d e. ground (arith, all j))
  ])
  | inr u ↦ inr (rw u (omega arith, omega arith, u, λ j a b. absurd (omega arith)))
]

first_free-le : (f : ℕ → Bool) (n : ℕ) → first_free f n 0 ≤ n
first_free-le f n = elim (first_free_lem f n 0) [
  | inl (e, all) ↦ omega arith
  | inr (a, b, c, all) ↦ omega arith
]

-- What `pmm_alloc_page` does to a state in order: either every page is in use, and it returns 0 and
-- changes nothing, or it returns the address of the lowest free page and marks that page alone.
abbrev pub Allocates : Pmm → ℕ × Pmm → Type 0
Allocates s (a, s') =
    ((a ≡ 0) × (s' ≡ s) × ((j : ℕ) → j < s.bitmap_bits → used s j ≡ true))
    ⊎ ((p : ℕ) × (a ≡ p * page_size)
        × (p ≢ 0)
        × (p < s.bitmap_bits)
        × (used s p ≡ false)
        × ((j : ℕ) → j < p → used s j ≡ true)
        × ((j : ℕ) → used s' j ≡ (p == j || used s j))
        × IsReady s')

module _ (s : Pmm) (r : IsReady s) where
  found : free_page s ≡ first_free (used s) s.bitmap_bits 0
  found = ground (
    arith,
    bitmap_find_free_bit-first_free s.bytes s.bitmap s.bitmap_bits,
    r.bitmap_real,
    r.reach,
    first_free-le (used s) s.bitmap_bits,
  )

  alloc_none : free_page s ≡ 0 → pmm_alloc_page s ≡ (0, s)
  unfolding pmm_alloc_page
  alloc_none e = ground arith

  alloc_some :
      free_page s ≢ 0
      → free_page s < s.bitmap_bits
      → pmm_alloc_page s ≡ (
        free_page s * page_size,
        record s { bytes = bitmap_set_bit s.bytes s.bitmap (free_page s) },
      )
  unfolding pmm_alloc_page
  alloc_some n l =
      let w : (free_page s * page_size) % 2 ^ 32 ≡ free_page s * page_size =
        omega (arith, r.reach) in
      ground (arith, r.bitmap_real, r.some_page, w)

  marked : Pmm
  marked = record s { bytes = bitmap_set_bit s.bytes s.bitmap (free_page s) }

  marked-used : (j : ℕ) → used marked j ≡ (free_page s == j || used s j)
  unfolding marked
  marked-used j = test-set s.bytes s.bitmap (free_page s) r.bitmap_real r.bytes_ok j

  marked-IsReady : IsReady marked
  unfolding marked
  marked-IsReady = record {
    bitmap_real = r.bitmap_real;
    some_page = r.some_page;
    reach = r.reach;
    bytes_ok = set-AreBytes s.bytes s.bitmap (free_page s) r.bitmap_real r.bytes_ok;
    zero_used =
        ground
          (arith, test-set s.bytes s.bitmap (free_page s) r.bitmap_real r.bytes_ok 0, r.zero_used);
  }

  -- In a state after `pmm_init`, `pmm_alloc_page` returns the address of the lowest free page, which
  -- is not page 0, and marks that page and no other, or returns 0 and changes nothing if every page
  -- is in use.
  pub pmm_alloc_page-Allocates : Allocates s (pmm_alloc_page s)
  pmm_alloc_page-Allocates = elim (first_free_lem (used s) s.bitmap_bits 0) [
    | inl (e, all) ↦
        rw (alloc_none (found ∙ e)) (inl (refl, refl, λ j l. all j (omega arith) (omega arith)))
    | inr (a, b, c, all) ↦
        let free : used s (free_page s) ≡ false = rw found c in
        let n : free_page s ≢ 0 = λ e. cc (free, e, r.zero_used) in
        let l : free_page s < s.bitmap_bits = omega (arith, found) in
        rw (alloc_some n l) (
          inr (
            free_page s,
            refl,
            n,
            l,
            free,
            λ j h. all j (omega arith) (rw (← found) h),
            unfold marked in marked-used,
            unfold marked in marked-IsReady,
          ))
  ]

  freed : ℕ → Pmm
  freed page = record s { bytes = bitmap_clear_bit s.bytes s.bitmap page }

  free-freed : (address : ℕ) → pmm_free_page s address ≡ freed (address / page_size)
  unfolding pmm_free_page freed
  free-freed address = ground (arith, r.bitmap_real, r.some_page)

  freed-used : (page j : ℕ) → used (freed page) j ≡ (not (page == j) && used s j)
  unfolding freed
  freed-used page j = test-clear s.bytes s.bitmap page r.bitmap_real r.bytes_ok j

  freed-IsReady : (page : ℕ) → page ≢ 0 → IsReady (freed page)
  freed-IsReady page n = record {
    bitmap_real = unfold freed in r.bitmap_real;
    some_page = unfold freed in r.some_page;
    reach = unfold freed in r.reach;
    bytes_ok = unfold freed in clear-AreBytes s.bytes s.bitmap page r.bitmap_real r.bytes_ok;
    zero_used = ground (arith, freed-used page 0, r.zero_used);
  }

-- In a state after `pmm_init`, `pmm_free_page` frees the page of the address and no other, and
-- leaves such a state if that is not page 0.
pub pmm_free_page-used :
    (s : Pmm) (address : ℕ)
    → IsReady s
    → address / page_size ≢ 0
    → ((j : ℕ) → used (pmm_free_page s address) j ≡ (not (address / page_size == j) && used s j))
      × IsReady (pmm_free_page s address)
pmm_free_page-used s address r n =
    rw (free-freed s r address)
      (freed-used s r (address / page_size), freed-IsReady s r (address / page_size) n)

-- Freeing the page that `pmm_alloc_page` returned gives back the set of used pages that there was.
pub pmm_free_page-alloc :
    (s : Pmm)
    → IsReady s
    → (pmm_alloc_page s).0 ≢ 0
    → (j : ℕ) → used (pmm_free_page (pmm_alloc_page s).1 (pmm_alloc_page s).0) j ≡ used s j
pmm_free_page-alloc s r got j = elim (pmm_alloc_page-Allocates s r) [
  | inl (e, _, _) ↦ absurd (got e)
  | inr (p, e, n, l, free, _, mark, ready) ↦
      let q : (pmm_alloc_page s).0 / page_size ≡ p = omega (arith, e) in
      let (same, _) =
        pmm_free_page-used (pmm_alloc_page s).1 (pmm_alloc_page s).0 ready (λ z. n (sym q ∙ z)) in
      ground (arith, same j, mark j, q, free)
]
