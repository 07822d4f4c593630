-- ===== src/Vmm/Alloc.antt =====
-- What `vmm_alloc_pages_region` maps.
use mathlib.Core.Path.{subst}
use gummy.Prelude.{
  ℕ, zero, suc, ◌+◌, ◌-◌, ◌*◌, ◌/◌, ◌%◌, ◌^◌, ◌≤◌, ◌<◌, ◌≡◌, refl, ◌≢◌, ◌⊎◌, arith, true, false,
  ◌==◌, ltb, if◌then◌else◌, Option, none, some, Bool-cases, inl, inr, ap, ◌∙◌, sym,
}
use gummy.Pmm.{page_size}
use gummy.Vmm.{Paging, page_present}
use gummy.Vmm.Region.{scan, map_pages, vmm_alloc_pages_region}
use gummy.Vmm.Walk.{translate, IsSpace}
use gummy.Vmm.Maps.{in_pages, translate-page, mapped-present, none_of_unmapped, Maps}
use gummy.Vmm.Fill.{map_pages-Settles}
use gummy.Bitmap.{align_up, align_down}

-- A region of `n` pages from `first` on, between two addresses, none of them present.
record IsFree (s : Paging) (low high n first : ℕ) : Type 0 where
  above : low ≤ first
  below : first + n * page_size ≤ high
  aligned : first % 4096 ≡ 0
  absent : (j : ℕ) → j < n → page_present s (first + j * page_size) ≡ false

-- `count` pages before `page` are free, from `first` on.
record Run (s : Paging) (low count first page : ℕ) : Type 0 where
  above : low ≤ first
  reaches : first + count * page_size ≡ page
  absent : (j : ℕ) → j < count → page_present s (first + j * page_size) ≡ false

Run-next :
    (s : Paging) (low count first page : ℕ)
    → Run s low count first page
    → page_present s page ≡ false
    → Run s low (count + 1) first (page + page_size)
Run-next s low count first page r free = record {
  above = r.above;
  reaches = omega (arith, r.reaches);
  absent = λ j l. elim (Bool-cases (j == count)) [
    | inl last ↦
        let e : first + j * page_size ≡ page = ground (arith, last, r.reaches) in
        ap (page_present s) e ∙ free
    | inr before ↦ r.absent j (ground (arith, before))
  ];
}

scan-IsFree :
    (s : Paging) (low n rounds page count first f : ℕ)
    → count < n
    → page % 4096 ≡ 0
    → low ≤ page
    → ((count ≡ 0) ⊎ Run s low count first page)
    → scan s n rounds page count first ≡ some f
    → IsFree s low (page + rounds * page_size) n f
unfolding scan
scan-IsFree s low n zero page count first f c z l run e = cc
scan-IsFree s low n (suc rounds) page count first f c z l run e =
    elim (Bool-cases (page_present s page)) [
      | inl there ↦
          let zero_pages : (0 == n) ≡ false = ground arith in
          let step : scan s n (suc rounds) page count first
              ≡ scan s n rounds (page + page_size) 0 first =
            rw (there, zero_pages) refl in
          subst (λ high. IsFree s low high n f) (omega arith)
            (scan-IsFree s low n rounds (page + page_size) 0 first f (omega arith) (omega arith)
              (omega arith) (inl refl) (sym step ∙ e))
      | inr free ↦
          let first1 : ℕ = if count == 0 then page else first in
          let run1 : Run s low count first1 page = elim run [
            | inl empty ↦ record {
              above = ground (arith, empty);
              reaches = ground (arith, empty);
              absent = λ j k. absurd (omega (arith, empty));
            }
            | inr r ↦ record {
              above = ground (arith, r.above);
              reaches = ground (arith, r.reaches);
              absent =
                  λ j k. ap (λ x. page_present s (x + j * page_size)) (ground arith) ∙ r.absent j k;
            }
          ] in
          let run2 = Run-next s low count first1 page run1 free in
          elim (Bool-cases (count + 1 == n)) [
            | inl done ↦
                let here : scan s n (suc rounds) page count first ≡ some first1 =
                  rw (free, done) refl in
                let same : first1 ≡ f = some_eq (sym here ∙ e) in
                rw (← same) (record {
                  above = run1.above;
                  below = ground (arith, done, run1.reaches);
                  aligned = omega (arith, run1.reaches);
                  absent = λ j k. run2.absent j (ground (arith, done));
                })
            | inr more ↦
                let step : scan s n (suc rounds) page count first
                    ≡ scan s n rounds (page + page_size) (count + 1) first1 =
                  rw (free, more) refl in
                subst (λ high. IsFree s low high n f) (omega arith)
                  (scan-IsFree s low n rounds (page + page_size) (count + 1) first1 f
                    (ground (arith, more)) (omega arith) (omega arith) (inr run2) (sym step ∙ e))
          ]
    ]
  where
    some_eq : {x y : ℕ} → some x ≡ some y → x ≡ y
    some_eq q = cc

found_or_not : (o : Option ℕ) → (o ≡ none) ⊎ ((f : ℕ) × (o ≡ some f))
found_or_not none = inl refl
found_or_not (some f) = inr (f, refl)

-- What a region of `n` pages between two addresses leads to: 0 and no change of any translation, or
-- the first of `n` pages in a row that were not mapped and are now.
abbrev pub Reserves : Paging → ℕ → ℕ → ℕ → ℕ × Paging → Type 0
Reserves s n low high (r, s') =
    ((r ≡ 0) × Maps s s' 0 0)
    ⊎ ((low ≤ r)
        × (r + n * page_size ≤ high)
        × (r % 4096 ≡ 0)
        × ((a : ℕ) → in_pages r n a ≡ true → translate s.frames s.cr3 a ≡ none)
        × Maps s s' r n)

unchanged : (s : Paging) → IsSpace s → Maps s s 0 0
unchanged s v = record {
  space = v;
  same_cr3 = refl;
  inside = λ a b h. ground arith;
  outside = λ a b h. refl;
}

no_pages : {s s' : Paging} (first : ℕ) → Maps s s' first 0 → Maps s s' 0 0
no_pages first m = record {
  space = m.space;
  same_cr3 = m.same_cr3;
  inside = λ a b h. ground arith;
  outside = λ a b h. m.outside a b (ground arith);
}

map_found-Reserves :
    (s : Paging) (n flags low high first : ℕ)
    → IsSpace s
    → flags < 4096
    → high ≤ 0xffc00000
    → IsFree s low high n first
    → Reserves s n low high (map_pages s flags first 0 n)
map_found-Reserves s n flags low high first v f l free =
    elim (map_pages-Settles s s flags first 0 n f free.aligned (omega (arith, free.below))
      (λ a b h. clear a (subst (λ k. in_pages first k a ≡ true) (omega arith) h))
      (record {
        space = v;
        same_cr3 = refl;
        inside = λ a b h. ground arith;
        outside = λ a b h. refl;
      })) [
        | inl (e, m) ↦ inr (
          omega (arith, e, free.above),
          omega (arith, e, free.below),
          omega (arith, e, free.aligned),
          λ a h. clear a (ground (arith, e)),
          subst (λ r. Maps s (map_pages s flags first 0 n).1 r n) (sym e)
              (subst (λ k. Maps s (map_pages s flags first 0 n).1 first k) (omega arith) m),
        )
        | inr (e, m) ↦ inl (e, no_pages first m)
      ]
  where
    clear : (a : ℕ) → in_pages first n a ≡ true → translate s.frames s.cr3 a ≡ none
    clear a h =
        let j : ℕ = (a - first) / page_size in
        let same : a / 4096 ≡ (first + j * page_size) / 4096 = ground (arith, free.aligned, h) in
        none_of_unmapped _ (
          translate-page s a (first + j * page_size) same
          ∙ mapped-present s (first + j * page_size)
          ∙ free.absent j (ground (arith, h)))

-- In an address space in order, with flags below 4096 and a region that ends by 0xFFC00000,
-- `vmm_alloc_pages_region` either returns 0 and leaves every translation below 0xFFC00000 as it was, or
-- returns the address of the first of `n` pages in a row that lie in the region, that were not mapped
-- and that are mapped now, and leaves every other translation. The address space stays in order.
pub vmm_alloc_pages_region-Reserves :
    (s : Paging) (n flags low high : ℕ)
    → IsSpace s
    → flags < 4096
    → low ≤ 0xfffff000
    → high ≤ 0xffc00000
    → Reserves s n low high (vmm_alloc_pages_region s n flags low high)
unfolding vmm_alloc_pages_region
vmm_alloc_pages_region-Reserves s n flags low high v f l h =
    let start : ℕ = align_up 32 low page_size in
    let end : ℕ = align_down high page_size in
    let rounds : ℕ = (end - start) / page_size in
    elim (Bool-cases (n == 0)) [
      | inl zero_pages ↦ rw zero_pages (inl (refl, unchanged s v))
      | inr pages ↦ elim (Bool-cases (ltb end ((start + n * page_size) % 2 ^ 32))) [
        | inl short ↦ rw (pages, short) (inl (refl, unchanged s v))
        | inr long ↦ elim (found_or_not (scan s n rounds start 0 0)) [
          | inl e ↦ rw (pages, long, e) (inl (refl, unchanged s v))
          | inr (first, e) ↦
              let some_pages : n ≢ 0 = ground (arith, pages) in
              let free =
                scan-IsFree s start n rounds start 0 0 first (ground (arith, pages)) (omega arith)
                  (omega arith) (inl refl) e in
              rw (pages, long, e)
                (map_found-Reserves s n flags low high first v f h (record {
                  above = omega (arith, free.above);
                  below = omega (arith, free.below, free.above, some_pages);
                  aligned = free.aligned;
                  absent = free.absent;
                }))
        ]
      ]
    ]
