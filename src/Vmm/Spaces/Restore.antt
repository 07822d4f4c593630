-- ===== src/Vmm/Spaces/Restore.antt =====
-- The functions on another address space come back to the one that they were called in.
use gummy.Prelude.{
  ℕ, zero, suc, ◌+◌, ◌-◌, ◌*◌, ◌/◌, ◌%◌, ◌^◌, ◌≡◌, refl, arith, false, Option, none, some, ◌∙◌,
}
use gummy.Bitmap.{align_up, align_down}
use gummy.Pmm.{page_size, pmm_alloc_page, pmm_free_page}
use gummy.Vmm.{
  Paging, ensure_table, enter_page, drop_table, vmm_map, vmm_unmap, frame_of, pte, set_pte,
}
use gummy.Vmm.Region.{
  scan, rollback, map_pages, map_found, vmm_alloc_pages_region, vmm_alloc_pages, free_from,
  vmm_free_pages,
}
use gummy.Vmm.Spaces.{
  in_space, as_flag, vmm_map_in, vmm_unmap_in, vmm_alloc_pages_region_in, vmm_alloc_pages_in,
  vmm_free_pages_in, vmm_destroy,
}

vmm_map-cr3 : (s : Paging) (virt phys flags : ℕ) → (vmm_map s virt phys flags).1.cr3 ≡ s.cr3
unfolding vmm_map ensure_table enter_page
vmm_map-cr3 s virt phys flags = ground arith

vmm_unmap-cr3 : (s : Paging) (virt : ℕ) → (vmm_unmap s virt).1.cr3 ≡ s.cr3
unfolding vmm_unmap drop_table
vmm_unmap-cr3 s virt = ground arith

rollback-cr3 : (s : Paging) (page rounds : ℕ) → (rollback s page rounds).cr3 ≡ s.cr3
unfolding rollback
rollback-cr3 s page zero = refl
rollback-cr3 s page (suc rounds) =
    rollback-cr3 (vmm_unmap s page).1 (page + page_size) rounds ∙ vmm_unmap-cr3 s page

map_pages-cr3 :
    (s : Paging) (flags first count rounds : ℕ)
    → (map_pages s flags first count rounds).1.cr3 ≡ s.cr3
unfolding map_pages
map_pages-cr3 s flags first count zero = refl
map_pages-cr3 s flags first count (suc rounds) =
    let (phys, p) = pmm_alloc_page s.pmm in
    let s1 : Paging = record s { pmm = p } in
    let s2 : Paging = (vmm_map s1 (first + count * page_size) phys flags).1 in
    ground (
      arith,
      rollback-cr3 s1 first count,
      vmm_map-cr3 s1 (first + count * page_size) phys flags,
      rollback-cr3 (record s2 { pmm = pmm_free_page s2.pmm phys }) first count,
      map_pages-cr3 s2 flags first (count + 1) rounds,
    )

map_found-cr3 : (s : Paging) (n flags : ℕ) (o : Option ℕ) → (map_found s n flags o).1.cr3 ≡ s.cr3
map_found-cr3 s n flags none = refl
map_found-cr3 s n flags (some first) = map_pages-cr3 s flags first 0 n

region-cr3 :
    (s : Paging) (n flags low high : ℕ) → (vmm_alloc_pages_region s n flags low high).1.cr3 ≡ s.cr3
unfolding vmm_alloc_pages_region
region-cr3 s n flags low high =
    let start : ℕ = align_up 32 low page_size in
    ground (
      arith,
      map_found-cr3 s n flags
          (scan s n ((align_down high page_size - start) / page_size) start 0 0),
    )

free_from-cr3 : (s : Paging) (start i rounds : ℕ) → (free_from s start i rounds).1.cr3 ≡ s.cr3
unfolding free_from
free_from-cr3 s start i zero = refl
free_from-cr3 s start i (suc rounds) =
    let page : ℕ = (start + i * page_size) % 2 ^ 32 in
    let s1 : Paging = set_pte s page 0 in
    ground (
      arith,
      free_from-cr3 (record s1 { pmm = pmm_free_page s1.pmm (frame_of (pte s page)) }) start (i + 1)
          rounds,
    )

vmm_free_pages-cr3 : (s : Paging) (n virt : ℕ) → (vmm_free_pages s n virt).1.cr3 ≡ s.cr3
unfolding vmm_free_pages
vmm_free_pages-cr3 s n virt = ground (arith, free_from-cr3 s virt 0 n)

-- CR3 and the interrupt flag are those of `s`.
abbrev pub IsBack : Paging → Paging → Type 0
IsBack s s' = (s'.cr3 ≡ s.cr3) × (s'.interrupts ≡ s.interrupts)

in_space-IsBack :
    (s : Paging) (cr3 : ℕ) (body : Paging → ℕ × Paging)
    → ((t : Paging) → (body t).1.cr3 ≡ t.cr3)
    → IsBack s (in_space s cr3 body).1
in_space-IsBack s cr3 body keeps =
    (ground (arith, keeps (record s { interrupts = false; cr3 = cr3 })), refl)

-- Whatever they are given and whether they fail or not, the functions on another address space leave
-- CR3 and the interrupt flag as they were.
pub spaces-IsBack :
    (s : Paging) (cr3 n flags a b : ℕ)
    → IsBack s (vmm_map_in s cr3 a b flags).1
      × IsBack s (vmm_unmap_in s cr3 a).1
      × IsBack s (vmm_alloc_pages_region_in s cr3 n flags a b).1
      × IsBack s (vmm_alloc_pages_in s cr3 n flags).1
      × IsBack s (vmm_free_pages_in s cr3 n a).1
      × IsBack s (vmm_destroy s cr3)
unfolding vmm_map_in vmm_unmap_in vmm_alloc_pages_region_in vmm_alloc_pages_in vmm_free_pages_in
    vmm_alloc_pages vmm_destroy
spaces-IsBack s cr3 n flags a b = (
  in_space-IsBack s cr3 (λ t. as_flag (vmm_map t a b flags)) (λ t. vmm_map-cr3 t a b flags),
  in_space-IsBack s cr3 (λ t. as_flag (vmm_unmap t a)) (λ t. vmm_unmap-cr3 t a),
  in_space-IsBack s cr3 (λ t. vmm_alloc_pages_region t n flags a b) (λ t. region-cr3 t n flags a b),
  in_space-IsBack s cr3 (λ t. vmm_alloc_pages t n flags)
      (λ t. region-cr3 t n flags 0x1000 0xffc00000),
  in_space-IsBack s cr3 (λ t. as_flag (vmm_free_pages t n a)) (λ t. vmm_free_pages-cr3 t n a),
  ground arith,
)
