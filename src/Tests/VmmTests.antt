-- ===== src/Tests/VmmTests.antt =====
-- kernel/src/arch/i686/vmm.c at concrete states.
use gummy.Prelude.{
  ℕ, ◌+◌, ◌/◌, ◌%◌, ◌<◌, ◌≡◌, refl, ◌⊎◌, arith, true, ◌==◌, ◌&&◌, if◌then◌else◌, none, some,
}
use gummy.Bitmap.{bitmap_test_bit}
use gummy.Pmm.Alloc.{used}
use gummy.Tests.PmmTests.{state, state-IsReady}
use gummy.Vmm.{Frames, Paging, failure, is_present, vmm_map, vmm_unmap}
use gummy.Vmm.Region.{vmm_alloc_pages_region}
use gummy.Vmm.Walk.{translate, IsSpace}
use gummy.Vmm.Map.{vmm_map-translate}
use gummy.Vmm.Unmap.{vmm_unmap-translate}
use gummy.Vmm.Alloc.{Reserves, vmm_alloc_pages_region-Reserves}

-- A directory in page 5 with a table in page 6 that maps 0x1000 to 0x7000.
abbrev mapped_once : Frames
mapped_once a i =
    if a == 0x5000
    then (if i == 0 then 0x6003 else if i == 1023 then 0x5003 else 0)
    else if a == 0x6000 && i == 1
    then 0x7003
    else 0

abbrev pub space : Paging
space = record {
  pmm = state;
  frames = mapped_once;
  cr3 = 0x5000;
  kernel_cr3 = 0x5000;
  interrupts = true;
}

only_entry : (i : ℕ) → i < 1023 → is_present (mapped_once 0x5000 i) ≡ true → i ≡ 0
only_entry i l h = ground arith

-- Pages 5 and 6 are in use.
used_five : used state 5 ≡ true
unfolding bitmap_test_bit
used_five = refl

used_six : used state 6 ≡ true
unfolding bitmap_test_bit
used_six = refl

pub space-IsSpace : IsSpace space
space-IsSpace = record {
  recursive = (refl, refl);
  ready = state-IsReady;
  directory_used = λ p h. let five : p ≡ 5 = omega (arith, h) in rw five used_five;
  table_used = λ i l h. rw (only_entry i l h) used_six;
  table_real = λ i l h. rw (only_entry i l h) (omega arith);
  table_apart = λ i l h. rw (only_entry i l h) (omega arith);
  tables_apart = λ i j l k n h g. omega (arith, n, only_entry i l h, only_entry j k g);
}

vmm_map-translate_example :
    ((vmm_map space 0x2000 0x8000 3 ≡ (failure, space)) × ((j : ℕ) → j < 20 → used state j ≡ true))
    ⊎ ((s' : Paging) × (vmm_map space 0x2000 0x8000 3 ≡ (0, s'))
        × IsSpace s'
        × (s'.cr3 ≡ 0x5000)
        × ((a : ℕ)
            → a < 0xffc00000
            → translate s'.frames s'.cr3 a ≡ (
                if a / 4096 == 2 then some (0x8000 + a % 4096) else translate mapped_once 0x5000 a))
        × ((j : ℕ) → used state j ≡ true → used s'.pmm j ≡ true))
vmm_map-translate_example =
    vmm_map-translate space 0x2000 0x8000 3 space-IsSpace (omega arith) refl (omega arith)

vmm_unmap-translate_example :
    ((vmm_unmap space 0x1000 ≡ (failure, space)) × (translate mapped_once 0x5000 0x1000 ≡ none))
    ⊎ ((s' : Paging) × (vmm_unmap space 0x1000 ≡ (0, s'))
        × IsSpace s'
        × (s'.cr3 ≡ 0x5000)
        × ((a : ℕ)
            → a < 0xffc00000
            → translate s'.frames s'.cr3 a
              ≡ (if a / 4096 == 1 then none else translate mapped_once 0x5000 a))
        × ((j : ℕ) → used s'.pmm j ≡ true → used state j ≡ true))
vmm_unmap-translate_example = vmm_unmap-translate space 0x1000 space-IsSpace (omega arith)

vmm_alloc_pages_region-Reserves_example :
    Reserves space 2 0x1000 0x400000 (vmm_alloc_pages_region space 2 3 0x1000 0x400000)
vmm_alloc_pages_region-Reserves_example =
    vmm_alloc_pages_region-Reserves space 2 3 0x1000 0x400000 space-IsSpace (omega arith)
      (omega arith) (omega arith)
