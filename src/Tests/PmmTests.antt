-- ===== src/Tests/PmmTests.antt =====
-- include/bitmap.h and kernel/src/arch/i686/pmm.c at concrete states.
use gummy.Prelude.{
  ltb, ◌||◌, not, ℕ, ◌*◌, ◌<◌, ◌≡◌, refl, arith, ◌==◌, if◌then◌else◌, List, [], ◌∷◌,
}
use gummy.Memory.{Bytes}
use gummy.Bitmap.{bitmap_test_bit, bitmap_find_free_bit, bitmap_set_bit, bitmap_clear_bit}
use gummy.Bitmap.Bits.{AreBytes}
use gummy.Bitmap.Find.{first_free, bitmap_find_free_bit-first_free}
use gummy.Pmm.{Pmm, E820Entry, pmm_alloc_page, pmm_init, survey, survey_entry}
use gummy.Pmm.Alloc.{used, IsReady, Allocates, pmm_alloc_page-Allocates}
use gummy.Pmm.Init.{pages, is_kernel, is_usable, pmm_init-used}

-- Bits 0 to 9 are set.
abbrev ten : Bytes
ten a = if a == 100 then 0xff else if a == 101 then 3 else 0

ten-AreBytes : AreBytes ten
ten-AreBytes a = ground arith

bitmap_find_free_bit-first_free_example :
    bitmap_find_free_bit ten 100 20 ≡ first_free (bitmap_test_bit ten 100) 20 0
bitmap_find_free_bit-first_free_example =
    bitmap_find_free_bit-first_free ten 100 20 (omega arith) (omega arith)

-- 20 pages, of which the first ten are in use.
abbrev pub state : Pmm
state = record {
  bytes = ten;
  bitmap = 100;
  bitmap_bits = 20;
  bitmap_bytes = 3;
  phys_top = 20 * 4096;
  usable_mem = 0;
}

pub state-IsReady : IsReady state
unfolding bitmap_test_bit
state-IsReady = record {
  bitmap_real = omega arith;
  some_page = omega arith;
  reach = omega arith;
  bytes_ok = ten-AreBytes;
  zero_used = refl;
}

alloc_state : (pmm_alloc_page state).0 ≡ 10 * 4096
unfolding pmm_alloc_page bitmap_find_free_bit gummy.Bitmap.scan_bytes gummy.Bitmap.scan_bits
    bitmap_set_bit
alloc_state = refl

pmm_alloc_page-Allocates_example : Allocates state (pmm_alloc_page state)
pmm_alloc_page-Allocates_example = pmm_alloc_page-Allocates state state-IsReady

-- 1 MiB of which the first 640 KiB are usable, before `pmm_init`.
abbrev map_1m : List E820Entry
map_1m =
    record { base = 0; len = 0xa0000; kind = 1 }
    ∷ record { base = 0xa0000; len = 0x60000; kind = 2 }
    ∷ []

abbrev blank : Pmm
blank = record {
  bytes = λ a. 0;
  bitmap = 0;
  bitmap_bits = 0;
  bitmap_bytes = 0;
  phys_top = 0;
  usable_mem = 0;
}

pages_1m : pages 0xc0010000 0xc0014000 map_1m blank ≡ 256
unfolding survey survey_entry
pages_1m = refl

pmm_init-used_example :
    IsReady (pmm_init 0xc0010000 0xc0014000 map_1m blank)
    × ((pmm_init 0xc0010000 0xc0014000 map_1m blank).bitmap_bits
        ≡ pages 0xc0010000 0xc0014000 map_1m blank)
    × ((j : ℕ)
        → j < pages 0xc0010000 0xc0014000 map_1m blank
        → used (pmm_init 0xc0010000 0xc0014000 map_1m blank) j ≡ (
            ltb j 16
            || is_kernel 0xc0010000 0xc0014000 (pages 0xc0010000 0xc0014000 map_1m blank) j
            || not (is_usable map_1m j)))
pmm_init-used_example =
    pmm_init-used 0xc0010000 0xc0014000 map_1m blank (omega (arith, pages_1m)) (λ a. omega arith)
      refl (omega (arith, pages_1m))
