-- ===== src/Vmm/Fill.antt =====
-- The loop of `vmm_alloc_pages_region` that maps: all of the pages or none.
use mathlib.Core.Path.{subst}
use gummy.Prelude.{
  ℕ, zero, suc, ◌+◌, ◌*◌, ◌%◌, ◌≤◌, ◌<◌, ◌≡◌, refl, ◌⊎◌, arith, true, false, ◌==◌, none, inl, inr,
  ◌∙◌,
}
use gummy.Pmm.{Pmm, page_size, pmm_alloc_page, pmm_free_page}
use gummy.Pmm.Alloc.{used, pmm_alloc_page-Allocates, pmm_free_page-used}
use gummy.Vmm.{Paging}
use gummy.Vmm.Region.{map_pages}
use gummy.Vmm.Walk.{translate, IsSpace}
use gummy.Vmm.Map.{vmm_map-translate}
use gummy.Vmm.Maps.{in_pages, Maps, more_used, undo}

-- Either every page is mapped, or none stays so.
abbrev pub Settles : Paging → ℕ → ℕ → ℕ × Paging → Type 0
Settles s first n (r, s') = ((r ≡ first) × Maps s s' first n) ⊎ ((r ≡ 0) × Maps s s' first 0)

pub map_pages-Settles :
    (s s1 : Paging) (flags first count rounds : ℕ)
    → flags < 4096
    → first % 4096 ≡ 0
    → first + (count + rounds) * page_size ≤ 0xffc00000
    → ((a : ℕ)
        → a < 0xffc00000
        → in_pages first (count + rounds) a ≡ true
        → translate s.frames s.cr3 a ≡ none)
    → Maps s s1 first count
    → Settles s first (count + rounds) (map_pages s1 flags first count rounds)
unfolding map_pages
map_pages-Settles s s1 flags first count zero f z l clear m =
    inl (refl, subst (λ n. Maps s s1 first n) (omega arith) m)
map_pages-Settles s s1 flags first count (suc rounds) f z l clear m =
    elim (pmm_alloc_page-Allocates s1.pmm m.space.ready) [
      | inl (e, same, all) ↦
          rw (e, same) (inr (refl, undo s s1 first count m z (omega arith) fewer))
      | inr (p, e, n, less, free, lowest, mark, ready) ↦
          let pm : Pmm = (pmm_alloc_page s1.pmm).1 in
          let s2 : Paging = record s1 { pmm = pm } in
          let more : (j : ℕ) → used s1.pmm j ≡ true → used pm j ≡ true =
            λ j h. ground (arith, mark j) in
          let v2 : IsSpace s2 = more_used s1 pm m.space ready more in
          let real : (p * page_size == 0) ≡ false = ground (arith, n) in
          let page : ℕ = first + count * page_size in
          elim (vmm_map-translate s2 page (p * page_size) flags v2 (omega arith) (omega arith) f) [
            | inl (e2, all) ↦
                let (gone, ready') =
                  pmm_free_page-used pm (p * page_size) ready (λ y. n (omega (arith, y))) in
                let s3 : Paging = record s2 { pmm = pmm_free_page pm (p * page_size) } in
                let v3 : IsSpace s3 =
                  more_used s1 s3.pmm m.space ready'
                    (λ j h. ground (arith, gone j, mark j, free)) in
                rw (e, real, e2)
                  (inr (
                    refl,
                    undo s s3 first count
                        (record {
                          space = v3;
                          same_cr3 = m.same_cr3;
                          inside = m.inside;
                          outside = m.outside;
                        })
                        z (omega arith) fewer,
                  ))
            | inr (s3, e2, v3, c3, w3, u3) ↦
                let m3 : Maps s s3 first (count + 1) = record {
                  space = v3;
                  same_cr3 = c3 ∙ m.same_cr3;
                  inside = λ a b h. ground (arith, w3 a b, m.inside a b, h);
                  outside = λ a b h. ground (arith, w3 a b, m.outside a b, h);
                } in
                rw (e, real, e2)
                  (subst (λ k. Settles s first k (map_pages s3 flags first (count + 1) rounds))
                    (omega arith)
                    (map_pages-Settles s s3 flags first (count + 1) rounds f z (omega arith)
                      (λ a b h. clear a b (ground arith)) m3))
          ]
    ]
  where
    fewer :
        (a : ℕ) → a < 0xffc00000 → in_pages first count a ≡ true → translate s.frames s.cr3 a ≡ none
    fewer a b h = clear a b (ground arith)
