-- ===== src/Vmm/Unmap.antt =====
-- `vmm_unmap`, against the translation.
use gummy.Prelude.{
  ℕ, zero, suc, ◌/◌, ◌%◌, ◌^◌, ◌<◌, ◌≡◌, refl, ◌≢◌, ◌⊎◌, arith, true, false, not, ◌&&◌, ◌==◌, ltb,
  if◌then◌else◌, none, Bool-cases, inl, inr, ap, ◌∙◌, sym, ==_iff,
}
use gummy.Pmm.{pmm_free_page, page_size}
use gummy.Pmm.Alloc.{used, IsReady, pmm_free_page-used}
use gummy.Vmm.{
  Frames, Paging, is_present, frame_of, get_pde_index, get_pte_index, pde, set_pde, set_pte,
  page_present, count_present, drop_table, vmm_unmap, failure, entries_per_table, kernel_base,
}
use gummy.Vmm.Walk.{reach, translate, IsSpace}
use gummy.Vmm.Map.{Enters, Enters-IsSpace, Enters-translate}

count_present-zero :
    (m : Frames) (page n j : ℕ) → count_present m page n ≡ 0 → j < n → is_present (m page j) ≡ false
unfolding count_present
count_present-zero m page zero j e l = absurd (omega arith)
count_present-zero m page (suc n) j e l = ground (arith, count_present-zero m page n j)

set_pte-Enters :
    (s : Paging) (virt w : ℕ)
    → IsSpace s
    → virt < 0xffc00000
    → is_present (pde s virt) ≡ true
    → Enters s.frames (set_pte s virt w).frames s.cr3 (get_pde_index virt) (get_pte_index virt) w
set_pte-Enters s virt w v low on =
    let i : ℕ = get_pde_index virt in
    let apart : frame_of (pde s virt) ≢ s.cr3 = v.table_apart i (omega arith) on in
    record {
      last = ground (arith, apart);
      frames = λ k l. ground (arith, apart);
      presents = λ k l. ground (arith, apart);
      tables = λ k l small h. ground (arith, v.tables_apart i k (omega arith) small, on, h);
    }

-- A table without entries goes.
module _ (s : Paging) (v : IsSpace s) (virt : ℕ) (low : virt < 0xffc00000)
    (on : is_present (pde s virt) ≡ true)
    (bare : (j : ℕ) → j < 1024 → is_present (s.frames (frame_of (pde s virt)) j) ≡ false) where
  abbrev without_table : Paging
  without_table = set_pde (record s { pmm = pmm_free_page s.pmm (frame_of (pde s virt)) }) virt 0

  freed :
      ((j : ℕ)
        → used without_table.pmm j ≡ (not (frame_of (pde s virt) / page_size == j) && used s.pmm j))
      × IsReady without_table.pmm
  freed =
      pmm_free_page-used s.pmm (frame_of (pde s virt)) v.ready
        (λ e. v.table_real (get_pde_index virt) (omega arith) on (omega (arith, e)))

  without_table-IsSpace : IsSpace without_table
  without_table-IsSpace =
      let i : ℕ = get_pde_index virt in
      let small : i < 1023 = omega arith in
      let (mark, ready) = freed in
      let same : frame_of (pde s virt) / page_size ≡ pde s virt / 4096 = omega arith in
      record {
        recursive = ground (arith, v.recursive);
        ready = ready;
        directory_used =
            λ p e. ground (arith, mark p, v.directory_used p e, v.table_apart i small on, same);
        table_used = λ k l h. ground (
          arith,
          mark (s.frames s.cr3 k / 4096),
          v.table_used k l,
          v.tables_apart i k small l,
          on,
          h,
          same,
        );
        table_real = λ k l h. ground (arith, v.table_real k l, h);
        table_apart = λ k l h. ground (arith, v.table_apart k l, h);
        tables_apart = λ k j a b n h h'. ground (arith, v.tables_apart k j a b n, h, h');
      }

  without_table-translate :
      (a : ℕ) → a < 0xffc00000 → translate without_table.frames s.cr3 a ≡ translate s.frames s.cr3 a
  without_table-translate a l =
      let k : ℕ = a / 2 ^ 22 in
      let j : ℕ = a / 2 ^ 12 % 2 ^ 10 in
      let m' : Frames = without_table.frames in
      elim (Bool-cases (k == get_pde_index virt)) [
        | inl here ↦
            let e : m' s.cr3 k ≡ 0 = ground (arith, here) in
            let same : k ≡ get_pde_index virt = (==_iff _ _).0 here in
            let entry : ℕ = s.frames (frame_of (pde s virt)) j in
            let empty : is_present entry ≡ false = bare j (omega arith) in
            let before : translate s.frames s.cr3 a ≡ none =
              ap (λ x. reach (s.frames s.cr3 x) (s.frames (frame_of (s.frames s.cr3 x)) j) a) same
              ∙ ground (arith, empty) in
            ap (λ x. reach x (m' (frame_of x) j) a) e ∙ sym before
        | inr other ↦
            let e : m' s.cr3 k ≡ s.frames s.cr3 k = ground (arith, other) in
            ap (λ x. reach x (m' (frame_of x) j) a) e
            ∙ elim (Bool-cases (is_present (s.frames s.cr3 k))) [
              | inl old ↦
                  ap (λ x. reach (s.frames s.cr3 k) x a)
                    (ground (arith, v.table_apart k (omega arith) old))
              | inr gone ↦ ground (arith, gone)
            ]
      ]

-- In an address space in order and for an address below 0xFFC00000, `vmm_unmap` either fails, where
-- the address is not mapped, and changes nothing, or unmaps its page and leaves the translation of
-- every other address below 0xFFC00000. The address space stays in order, and no page comes in use.
pub vmm_unmap-translate :
    (s : Paging) (virt : ℕ)
    → IsSpace s
    → virt < 0xffc00000
    → ((vmm_unmap s virt ≡ (failure, s)) × (translate s.frames s.cr3 virt ≡ none))
      ⊎ ((s' : Paging) × (vmm_unmap s virt ≡ (0, s'))
          × IsSpace s'
          × (s'.cr3 ≡ s.cr3)
          × ((a : ℕ)
              → a < 0xffc00000
              → translate s'.frames s'.cr3 a
                ≡ (if a / 4096 == virt / 4096 then none else translate s.frames s.cr3 a))
          × ((j : ℕ) → used s'.pmm j ≡ true → used s.pmm j ≡ true))
unfolding vmm_unmap drop_table
vmm_unmap-translate s virt v low = elim (Bool-cases (page_present s virt)) [
  | inr gone ↦ inl (rw gone refl, rw gone refl)
  | inl there ↦
      let i : ℕ = get_pde_index virt in
      let on : is_present (pde s virt) ≡ true = ground arith in
      let s1 : Paging = set_pte s virt 0 in
      let enters = set_pte-Enters s virt 0 v low on in
      let v1 : IsSpace s1 = Enters-IsSpace s v s1.frames virt 0 on low enters in
      let walks = Enters-translate s v s1.frames virt 0 on low enters in
      let on1 : is_present (pde s1 virt) ≡ true = enters.presents i (omega arith) ∙ on in
      elim (Bool-cases (
        count_present s1.frames (frame_of (pde s1 virt)) entries_per_table == 0
        && ltb virt kernel_base)) [
          | inr stays ↦
              inr (s1, rw (there, stays) refl, v1, refl, λ a l. walks a l ∙ ground arith, λ j h. h)
          | inl bare ↦
              let empty : (j : ℕ)
                  → j < 1024
                  → is_present (s1.frames (frame_of (pde s1 virt)) j) ≡ false =
                λ j l.
                  count_present-zero s1.frames (frame_of (pde s1 virt)) 1024 j (ground arith) l in
              inr (
                without_table s1 v1 virt low on1 empty,
                rw (there, bare) refl,
                without_table-IsSpace s1 v1 virt low on1 empty,
                refl,
                λ a l.
                    without_table-translate s1 v1 virt low on1 empty a l ∙ walks a l ∙ ground arith,
                λ j h. ground (arith, (freed s1 v1 virt low on1 empty).0 j, h),
              )
        ]
]
