-- ===== src/Vmm/Maps.antt =====
-- Pages of a region that are mapped, and mappings that are taken back.
use mathlib.Core.Path.{subst}
use gummy.Prelude.{
  ℕ, zero, suc, ◌+◌, ◌*◌, ◌/◌, ◌%◌, ◌^◌, ◌≤◌, ◌<◌, ◌≡◌, refl, arith, Bool, true, false, ◌&&◌, ltb,
  leb, if◌then◌else◌, Option, none, some, inl, inr, ap, ◌∙◌, sym,
}
use gummy.Pmm.{Pmm, page_size}
use gummy.Pmm.Alloc.{used, IsReady}
use gummy.Vmm.{Paging, page_present}
use gummy.Vmm.Region.{rollback}
use gummy.Vmm.Walk.{translate, IsSpace}
use gummy.Vmm.Unmap.{vmm_unmap-translate}

-- `a` lies in one of the `n` pages from `first` on.
abbrev pub in_pages : ℕ → ℕ → ℕ → Bool
in_pages first n a = leb first a && ltb a (first + n * page_size)

abbrev pub is_mapped : Option ℕ → Bool
is_mapped none = false
is_mapped (some a) = true

pub translate-page :
    (s : Paging) (a b : ℕ)
    → a / 4096 ≡ b / 4096
    → is_mapped (translate s.frames s.cr3 a) ≡ is_mapped (translate s.frames s.cr3 b)
translate-page s a b e =
    let x : a / 2 ^ 22 ≡ b / 2 ^ 22 = omega arith in
    let y : a / 2 ^ 12 % 2 ^ 10 ≡ b / 2 ^ 12 % 2 ^ 10 = omega arith in rw (x, y) (ground arith)

pub mapped-present :
    (s : Paging) (a : ℕ) → is_mapped (translate s.frames s.cr3 a) ≡ page_present s a
mapped-present s a = ground arith

pub none_of_unmapped : (o : Option ℕ) → is_mapped o ≡ false → o ≡ none
none_of_unmapped none e = refl
none_of_unmapped (some a) e = cc

-- The space `s'` after the pages of `s` from `first` on, `n` of them, are mapped.
pub record Maps (s s' : Paging) (first n : ℕ) : Type 0 where
  pub space : IsSpace s'
  pub same_cr3 : s'.cr3 ≡ s.cr3
  pub inside :
      (a : ℕ)
      → a < 0xffc00000
      → in_pages first n a ≡ true
      → is_mapped (translate s'.frames s'.cr3 a) ≡ true
  pub outside :
      (a : ℕ)
      → a < 0xffc00000
      → in_pages first n a ≡ false
      → translate s'.frames s'.cr3 a ≡ translate s.frames s.cr3 a

-- The space `s'` after the pages of `s` from `page` on, `n` of them, are unmapped.
record Unmaps (s s' : Paging) (page n : ℕ) : Type 0 where
  space : IsSpace s'
  same_cr3 : s'.cr3 ≡ s.cr3
  walks :
      (a : ℕ)
      → a < 0xffc00000
      → translate s'.frames s'.cr3 a
        ≡ (if in_pages page n a then none else translate s.frames s.cr3 a)

rollback-Unmaps :
    (s : Paging) (page rounds : ℕ)
    → IsSpace s
    → page % 4096 ≡ 0
    → page + rounds * page_size ≤ 0xffc00000
    → Unmaps s (rollback s page rounds) page rounds
unfolding rollback
rollback-Unmaps s page zero v z l = record {
  space = v;
  same_cr3 = refl;
  walks = λ a b. ground arith;
}
rollback-Unmaps s page (suc rounds) v z l = elim (vmm_unmap-translate s page v (omega arith)) [
  | inl (e, gone) ↦
      let u = rollback-Unmaps s (page + page_size) rounds v (omega arith) (omega arith) in
      let whole : (a : ℕ) → a / 4096 ≡ page / 4096 → translate s.frames s.cr3 a ≡ none =
        λ a q. none_of_unmapped _ (translate-page s a page q ∙ ap is_mapped gone) in
      subst
        (λ (x : ℕ × Paging). Unmaps s (rollback x.1 (page + page_size) rounds) page (suc rounds))
        (sym e)
        (record {
          space = u.space;
          same_cr3 = u.same_cr3;
          walks = λ a b. u.walks a b ∙ ground (arith, whole a);
        })
  | inr (s1, e, v1, c1, w1, u1) ↦
      let u = rollback-Unmaps s1 (page + page_size) rounds v1 (omega arith) (omega arith) in
      subst
        (λ (x : ℕ × Paging). Unmaps s (rollback x.1 (page + page_size) rounds) page (suc rounds))
        (sym e)
        (record {
          space = u.space;
          same_cr3 = u.same_cr3 ∙ c1;
          walks = λ a b. u.walks a b ∙ ground (arith, w1 a b);
        })
]

-- With more pages in use, an address space stays in order.
pub more_used :
    (s : Paging) (p : Pmm)
    → IsSpace s
    → IsReady p
    → ((j : ℕ) → used s.pmm j ≡ true → used p j ≡ true)
    → IsSpace (record s { pmm = p })
more_used s p v ready more = record {
  recursive = v.recursive;
  ready = ready;
  directory_used = λ q e. more q (v.directory_used q e);
  table_used = λ i l h. more _ (v.table_used i l h);
  table_real = v.table_real;
  table_apart = v.table_apart;
  tables_apart = v.tables_apart;
}

-- Nothing of the region is mapped in the end: the space translates as before.
pub undo :
    (s s1 : Paging) (first count : ℕ)
    → Maps s s1 first count
    → first % 4096 ≡ 0
    → first + count * page_size ≤ 0xffc00000
    → ((a : ℕ) → a < 0xffc00000 → in_pages first count a ≡ true → translate s.frames s.cr3 a ≡ none)
    → Maps s (rollback s1 first count) first 0
undo s s1 first count m z l clear =
    let u = rollback-Unmaps s1 first count m.space z l in
    record {
      space = u.space;
      same_cr3 = u.same_cr3 ∙ m.same_cr3;
      inside = λ a b h. ground arith;
      outside = λ a b h. u.walks a b ∙ ground (arith, m.outside a b, clear a b);
    }
