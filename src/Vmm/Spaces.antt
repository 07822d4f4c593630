-- ===== src/Vmm/Spaces.antt =====
-- Working in another address space, and making and destroying one: the end of
-- kernel/src/arch/i686/vmm.c.
pub mod Restore
use gummy.Prelude.{
  ℕ, zero, suc, ◌+◌, ◌*◌, ◌^◌, Bool, true, false, not, ◌&&◌, ◌||◌, ◌==◌, bit_or, if◌then◌else◌,
}
use gummy.Pmm.{Pmm, page_size, pmm_free_page}
use gummy.Vmm.{
  Frames, Paging, write_word, entries_per_table, is_present, frame_of, pte, clear_entries,
  get_physical_address, vmm_map, vmm_unmap,
}
use gummy.Vmm.Region.{vmm_alloc_pages_region, vmm_alloc_pages, vmm_free_pages}

-- What the functions on another address space have in common: interrupts are off and CR3 is `cr3`
-- during `body`, and both are restored. CR3 is written back only if it differs from `cr3`.
abbrev pub in_space : Paging → ℕ → (Paging → ℕ × Paging) → ℕ × Paging
in_space s cr3 body =
    let (r, s1) = body (record s { interrupts = false; cr3 = cr3 }) in
    (r, record s1 { cr3 = if s.cr3 == cr3 then s1.cr3 else s.cr3; interrupts = s.interrupts })

-- 1 for every failure.
abbrev pub as_flag : ℕ × Paging → ℕ × Paging
as_flag (r, s) = (if r == 0 then 0 else 1, s)

unfoldable pub vmm_map_in : Paging → ℕ → ℕ → ℕ → ℕ → ℕ × Paging
vmm_map_in s cr3 virt phys flags = in_space s cr3 (λ t. as_flag (vmm_map t virt phys flags))

unfoldable pub vmm_unmap_in : Paging → ℕ → ℕ → ℕ × Paging
vmm_unmap_in s cr3 virt = in_space s cr3 (λ t. as_flag (vmm_unmap t virt))

unfoldable pub vmm_alloc_pages_region_in : Paging → ℕ → ℕ → ℕ → ℕ → ℕ → ℕ × Paging
vmm_alloc_pages_region_in s cr3 n flags region_start region_end =
    in_space s cr3 (λ t. vmm_alloc_pages_region t n flags region_start region_end)

unfoldable pub vmm_alloc_pages_in : Paging → ℕ → ℕ → ℕ → ℕ × Paging
vmm_alloc_pages_in s cr3 n flags = in_space s cr3 (λ t. vmm_alloc_pages t n flags)

unfoldable pub vmm_free_pages_in : Paging → ℕ → ℕ → ℕ → ℕ × Paging
vmm_free_pages_in s cr3 n virt = in_space s cr3 (λ t. as_flag (vmm_free_pages t n virt))

-- The loop of `vmm_clone` that copies the kernel's entries, `rounds` of them from `i` on.
unfoldable pub copy_entries : Frames → ℕ → ℕ → ℕ → ℕ → Frames
copy_entries m old new i zero = m
copy_entries m old new i (suc rounds) =
    copy_entries (write_word m new i (m old i)) old new (i + 1) rounds

-- The new directory, in the page that `new_cr3` shows.
abbrev pub fill_directory : Frames → ℕ → ℕ → ℕ → Frames
fill_directory m old new phys =
    write_word (copy_entries (clear_entries m new entries_per_table) old new 768 256) new 1023
      (bit_or (bit_or phys 1) 2)

-- The flags are VMM_FLAGS_PRESENT | VMM_FLAGS_RW.
unfoldable pub vmm_clone : Paging → ℕ × Paging
vmm_clone s =
    let (new_cr3, s1) = vmm_alloc_pages s 1 3 in
    let phys : ℕ = get_physical_address s1 new_cr3 in
    let s2 : Paging = record s1 {
      frames = fill_directory s1.frames s1.cr3 (frame_of (pte s1 new_cr3)) phys;
    } in
    if new_cr3 == 0 then (0, s1) else (phys, (vmm_unmap s2 new_cr3).1)

-- The loop of `vmm_destroy` over the table `page`, `rounds` entries from `j` on.
unfoldable pub destroy_table : Paging → ℕ → ℕ → ℕ → Paging
destroy_table s page j zero = s
destroy_table s page j (suc rounds) =
    let s1 : Paging = record s {
      pmm = pmm_free_page s.pmm (frame_of (s.frames page j));
      frames = write_word s.frames page j 0;
    } in
    destroy_table (if is_present (s.frames page j) then s1 else s) page (j + 1) rounds

-- The loop over the directory, `rounds` entries from `i` on.
unfoldable pub destroy_tables : Paging → ℕ → ℕ → Paging
destroy_tables s i zero = s
destroy_tables s i (suc rounds) =
    let table : ℕ = frame_of (s.frames s.cr3 i) in
    let s1 : Paging = destroy_table s table 0 entries_per_table in
    let s2 : Paging = record s1 {
      pmm = pmm_free_page s1.pmm table;
      frames = write_word s1.frames s1.cr3 i 0;
    } in
    destroy_tables (if is_present (s.frames s.cr3 i) then s2 else s) (i + 1) rounds

unfoldable pub vmm_destroy : Paging → ℕ → Paging
vmm_destroy s cr3 =
    let s1 : Paging = destroy_tables (record s { interrupts = false; cr3 = cr3 }) 0 768 in
    if cr3 == 0 || cr3 == s.cr3 then s else record s1 { cr3 = s.cr3; interrupts = s.interrupts }
