-- ===== src/Vmm/Region.antt =====
-- Pages in a region of virtual addresses: `vmm_alloc_pages_region`, `vmm_alloc_pages` and
-- `vmm_free_pages` of kernel/src/arch/i686/vmm.c. What is printed is left out.
use gummy.Prelude.{
  ℕ, zero, suc, ◌+◌, ◌-◌, ◌*◌, ◌/◌, ◌%◌, ◌^◌, Bool, not, ◌&&◌, ◌==◌, ltb, if◌then◌else◌, Option,
  none, some,
}
use gummy.Bitmap.{align_up, align_down}
use gummy.Pmm.{page_size, pmm_alloc_page, pmm_free_page}
use gummy.Vmm.{Paging, frame_of, pte, set_pte, page_present, vmm_map, vmm_unmap, failure}

-- The loop that looks for `n` pages in a row that are not present, on the pages left: `count` pages
-- before `page` are free, from `first` on.
unfoldable pub scan : Paging → ℕ → ℕ → ℕ → ℕ → ℕ → Option ℕ
scan s n zero page count first = none
scan s n (suc rounds) page count first =
    let free : Bool = not (page_present s page) in
    let first1 : ℕ = if free && count == 0 then page else first in
    let count1 : ℕ = if free then count + 1 else 0 in
    if count1 == n then some first1 else scan s n rounds (page + page_size) count1 first1

-- The loop that takes the mappings back, `rounds` pages from `page` on.
unfoldable pub rollback : Paging → ℕ → ℕ → Paging
rollback s page zero = s
rollback s page (suc rounds) = rollback (vmm_unmap s page).1 (page + page_size) rounds

-- The loop that maps, when `count` pages from `first` on are mapped and `rounds` are left. It returns
-- what the function does.
unfoldable pub map_pages : Paging → ℕ → ℕ → ℕ → ℕ → ℕ × Paging
map_pages s flags first count zero = (first, s)
map_pages s flags first count (suc rounds) =
    let (phys, p) = pmm_alloc_page s.pmm in
    let s1 : Paging = record s { pmm = p } in
    let (status, s2) = vmm_map s1 (first + count * page_size) phys flags in
    let rest : ℕ × Paging = map_pages s2 flags first (count + 1) rounds in
    if phys == 0
    then (0, rollback s1 first count)
    else if status == 0
    then rest
    else (0, rollback (record s2 { pmm = pmm_free_page s2.pmm phys }) first count)

abbrev pub map_found : Paging → ℕ → ℕ → Option ℕ → ℕ × Paging
map_found s n flags none = (0, s)
map_found s n flags (some first) = map_pages s flags first 0 n

-- The address of the first page, or 0.
unfoldable pub vmm_alloc_pages_region : Paging → ℕ → ℕ → ℕ → ℕ → ℕ × Paging
vmm_alloc_pages_region s n flags region_start region_end =
    let start : ℕ = align_up 32 region_start page_size in
    let end : ℕ = align_down region_end page_size in
    if n == 0
    then (0, s)
    else if ltb end ((start + n * page_size) % 2 ^ 32)
    then (0, s)
    else map_found s n flags (scan s n ((end - start) / page_size) start 0 0)

unfoldable pub vmm_alloc_pages : Paging → ℕ → ℕ → ℕ × Paging
vmm_alloc_pages s n flags = vmm_alloc_pages_region s n flags 0x1000 0xffc00000

-- The loop of `vmm_free_pages` from the index `i` on, `rounds` pages.
unfoldable pub free_from : Paging → ℕ → ℕ → ℕ → ℕ × Paging
free_from s start i zero = (0, s)
free_from s start i (suc rounds) =
    let page : ℕ = (start + i * page_size) % 2 ^ 32 in
    let phys : ℕ = frame_of (pte s page) in
    let s1 : Paging = set_pte s page 0 in
    if page_present s page
    then free_from (record s1 { pmm = pmm_free_page s1.pmm phys }) start (i + 1) rounds
    else (failure, s)

unfoldable pub vmm_free_pages : Paging → ℕ → ℕ → ℕ × Paging
vmm_free_pages s n virt = if n == 0 then (failure, s) else free_from s virt 0 n
