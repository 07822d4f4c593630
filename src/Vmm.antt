-- ===== src/Vmm.antt =====
-- Page tables: kernel/src/arch/i686/vmm.c and kernel/include/arch/i686/vmm.h. Physical memory is a map
-- from the address of a page and the index of a word in it to the word. The last entry of a directory
-- names the directory itself, so the words at 0xFFFFF000 are those of the directory and the words from
-- 0xFFC00000 on are those of its tables: `Walk` shows that the addresses which the source computes lead
-- there. An entry keeps its frame in its upper 20 bits, which `& 0xFFFFF000` reads, and bit 0 is
-- `VMM_FLAGS_PRESENT`. `invlpg` and what is printed are left out.
pub mod Flags
pub mod Walk
pub mod Table
pub mod Map
pub mod Unmap
pub mod Maps
pub mod Fill
pub mod Alloc
pub mod Region
pub mod Spaces
use gummy.Prelude.{
  ℕ, zero, suc, ◌+◌, ◌-◌, ◌*◌, ◌/◌, ◌%◌, ◌^◌, Bool, true, false, not, ◌&&◌, ◌||◌, ◌==◌, ltb, bit_or,
  if◌then◌else◌, Option, none, some,
}
use gummy.Bitmap.{align_down}
use gummy.Pmm.{Pmm, page_size, pmm_alloc_page, pmm_free_page}

-- Words of physical memory, by page and index.
abbrev pub Frames : Type 0
Frames = ℕ → ℕ → ℕ

abbrev pub write_word : Frames → ℕ → ℕ → ℕ → Frames
write_word m page i w a j = if a == page && j == i then w else m a j

-- The memory, the page allocator, and the processor's CR3 and interrupt flag; `kernel_cr3` is the
-- global.
pub record Paging : Type 0 where
  pub pmm : Pmm
  pub frames : Frames
  pub cr3 : ℕ
  pub kernel_cr3 : ℕ
  pub interrupts : Bool

abbrev pub entries_per_table : ℕ
entries_per_table = 1024

abbrev pub kernel_base : ℕ
kernel_base = 0xc0000000

-- `-1` as a status.
abbrev pub failure : ℕ
failure = 2 ^ 32 - 1

-- `w & VMM_FLAGS_PRESENT`
abbrev pub is_present : ℕ → Bool
is_present w = not (w % 2 == 0)

-- `w & 0xFFFFF000`
abbrev pub frame_of : ℕ → ℕ
frame_of w = align_down w 4096

abbrev pub get_pde_index : ℕ → ℕ
get_pde_index virt = virt / 2 ^ 22

abbrev pub get_pte_index : ℕ → ℕ
get_pte_index virt = virt / 2 ^ 12 % 2 ^ 10

-- `*get_pde(virt)`, and an assignment to it.
abbrev pub pde : Paging → ℕ → ℕ
pde s virt = s.frames s.cr3 (get_pde_index virt)

abbrev pub set_pde : Paging → ℕ → ℕ → Paging
set_pde s virt w = record s { frames = write_word s.frames s.cr3 (get_pde_index virt) w }

-- The page that `get_pt` shows, or `none` for NULL.
abbrev pub get_pt : Paging → ℕ → Option ℕ
get_pt s virt = if is_present (pde s virt) then some (frame_of (pde s virt)) else none

-- `*get_pte(virt)` where `get_pte` is not NULL, and an assignment to it.
abbrev pub pte : Paging → ℕ → ℕ
pte s virt = s.frames (frame_of (pde s virt)) (get_pte_index virt)

abbrev pub set_pte : Paging → ℕ → ℕ → Paging
set_pte s virt w = record s {
  frames = write_word s.frames (frame_of (pde s virt)) (get_pte_index virt) w;
}

-- `pte && (*pte & VMM_FLAGS_PRESENT)`
abbrev pub page_present : Paging → ℕ → Bool
page_present s virt = is_present (pde s virt) && is_present (pte s virt)

-- 0 for an address that is not mapped.
unfoldable pub get_physical_address : Paging → ℕ → ℕ
get_physical_address s virt = if page_present s virt then frame_of (pte s virt) + virt % 4096 else 0

-- The loop that clears the first `n` entries of a table.
unfoldable pub clear_entries : Frames → ℕ → ℕ → Frames
clear_entries m page zero = m
clear_entries m page (suc n) = write_word (clear_entries m page n) page n 0

-- The entry of the directory for `virt`, with a new table where there is none, and whether there is
-- one then.
unfoldable pub ensure_table : Paging → ℕ → ℕ → Bool × Paging
ensure_table s virt flags =
    if is_present (pde s virt)
    then (true, s)
    else let (pt_phys, p) = pmm_alloc_page s.pmm in
      let s0 : Paging = record s { pmm = p } in
      if pt_phys == 0
      then (false, s0)
      else let s1 : Paging = set_pde s0 virt (bit_or (bit_or pt_phys flags) 1) in
        (
          true,
          record s1 { frames = clear_entries s1.frames (frame_of (pde s1 virt)) entries_per_table },
        )

-- The end of `vmm_map`, from `*pde |= flags` on.
unfoldable pub enter_page : Paging → ℕ → ℕ → ℕ → Paging
enter_page s virt phys flags =
    let s1 : Paging = set_pde s virt (bit_or (pde s virt) flags) in
    if is_present (pde s1 virt) then set_pte s1 virt (bit_or (bit_or phys flags) 1) else s1

unfoldable pub vmm_map : Paging → ℕ → ℕ → ℕ → ℕ × Paging
vmm_map s virt phys flags =
    let (found, s1) = ensure_table s virt flags in
    if found then (0, enter_page s1 virt phys flags) else (failure, s1)

-- How many of the first `n` entries of a table are present.
unfoldable pub count_present : Frames → ℕ → ℕ → ℕ
count_present m page zero = 0
count_present m page (suc n) =
    if is_present (m page n) then count_present m page n + 1 else count_present m page n

-- The end of `vmm_unmap`: a table of a user address that has no entry left is freed.
unfoldable pub drop_table : Paging → ℕ → Paging
drop_table s virt =
    if count_present s.frames (frame_of (pde s virt)) entries_per_table == 0 && ltb virt kernel_base
    then set_pde (record s { pmm = pmm_free_page s.pmm (frame_of (pde s virt)) }) virt 0
    else s

unfoldable pub vmm_unmap : Paging → ℕ → ℕ × Paging
vmm_unmap s virt =
    if page_present s virt then (0, drop_table (set_pte s virt 0) virt) else (failure, s)

unfoldable pub vmm_init : Paging → Paging
vmm_init s = set_pde (record s { kernel_cr3 = s.cr3 }) 0 0
