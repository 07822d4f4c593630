-- ===== src/Vmm/Walk.antt =====
-- The translation of the processor through the two levels of tables (https://wiki.osdev.org/X86_Paging), the
-- windows that the last entry of a directory opens, and address spaces that are in order.
use gummy.Prelude.{
  ℕ, ◌+◌, ◌*◌, ◌/◌, ◌%◌, ◌^◌, ◌<◌, ◌≡◌, ◌≢◌, arith, true, ◌&&◌, if◌then◌else◌, Option, none, some,
}
use gummy.Pmm.Alloc.{used, IsReady}
use gummy.Vmm.{Frames, Paging, is_present, frame_of, get_pde_index, get_pte_index, pde}

-- What the entry of the directory and that of the table make of an address: `none` where the access
-- faults.
abbrev pub reach : ℕ → ℕ → ℕ → Option ℕ
reach directory_entry table_entry virt =
    if is_present directory_entry && is_present table_entry
    then some (frame_of table_entry + virt % 2 ^ 12)
    else none

-- The physical address of a virtual one.
abbrev pub translate : Frames → ℕ → ℕ → Option ℕ
translate m cr3 virt =
    reach (m cr3 (virt / 2 ^ 22)) (m (frame_of (m cr3 (virt / 2 ^ 22))) (virt / 2 ^ 12 % 2 ^ 10))
      virt

-- `&((uint32_t *)0xFFFFF000)[get_pde_index(virt)]`, and the entry of `virt` in the table that
-- `get_pt` computes.
abbrev pub pde_address : ℕ → ℕ
pde_address virt = 0xfffff000 + 4 * get_pde_index virt

abbrev pub pte_address : ℕ → ℕ
pte_address virt = 0xffc00000 + get_pde_index virt * 0x1000 + 4 * get_pte_index virt

-- A directory whose last entry names itself.
abbrev pub IsRecursive : Frames → ℕ → Type 0
IsRecursive m cr3 = (frame_of (m cr3 1023) ≡ cr3) × (is_present (m cr3 1023) ≡ true)

-- In an address space whose directory names itself in its last entry, the address that the source
-- computes for the directory's entry of an address leads to that word of the directory, and the one
-- for the table's entry to that word of the table, if there is a table.
pub windows :
    (s : Paging) (virt : ℕ)
    → IsRecursive s.frames s.cr3
    → virt < 2 ^ 32
    → (translate s.frames s.cr3 (pde_address virt) ≡ some (s.cr3 + 4 * get_pde_index virt))
      × (translate s.frames s.cr3 (pte_address virt) ≡ (
          if is_present (pde s virt)
          then some (frame_of (pde s virt) + 4 * get_pte_index virt)
          else none))
windows s virt r l =
    let a : (pde_address virt) / 2 ^ 22 ≡ 1023 = omega arith in
    let b : (pde_address virt) / 2 ^ 12 % 2 ^ 10 ≡ 1023 = omega arith in
    let c : (pte_address virt) / 2 ^ 22 ≡ 1023 = omega arith in
    let d : (pte_address virt) / 2 ^ 12 % 2 ^ 10 ≡ get_pde_index virt = omega arith in
    let e : (pde_address virt) % 2 ^ 12 ≡ 4 * get_pde_index virt = omega arith in
    let f : (pte_address virt) % 2 ^ 12 ≡ 4 * get_pte_index virt = omega arith in
    (rw (a, b, r.0, e) (ground (arith, r)), rw (c, d, r.0, f) (ground (arith, r)))

-- An entry of the lower part of a directory names a table of its own, which the page allocator holds as
-- used and which is not the directory.
pub record IsSpace (s : Paging) : Type 0 where
  pub recursive : IsRecursive s.frames s.cr3
  pub ready : IsReady s.pmm
  pub directory_used : (p : ℕ) → p * 4096 ≡ s.cr3 → used s.pmm p ≡ true
  pub table_used :
      (i : ℕ)
      → i < 1023
      → is_present (s.frames s.cr3 i) ≡ true
      → used s.pmm (s.frames s.cr3 i / 4096) ≡ true
  pub table_real :
      (i : ℕ) → i < 1023 → is_present (s.frames s.cr3 i) ≡ true → s.frames s.cr3 i / 4096 ≢ 0
  pub table_apart :
      (i : ℕ)
      → i < 1023
      → is_present (s.frames s.cr3 i) ≡ true
      → frame_of (s.frames s.cr3 i) ≢ s.cr3
  pub tables_apart :
      (i j : ℕ)
      → i < 1023
      → j < 1023
      → i ≢ j
      → is_present (s.frames s.cr3 i) ≡ true
      → is_present (s.frames s.cr3 j) ≡ true
      → s.frames s.cr3 i / 4096 ≢ s.frames s.cr3 j / 4096
