-- ===== src/Pmm.antt =====
-- The physical page allocator of kernel/src/arch/i686/pmm.c. The addresses of the linker's symbols
-- and the E820 map are arguments of `pmm_init`; what it prints is left out.
pub mod Alloc
pub mod Init
use gummy.Prelude.{
  ℕ, zero, suc, ◌+◌, ◌-◌, ◌*◌, ◌/◌, ◌%◌, ◌^◌, Bool, true, not, ◌||◌, ◌==◌, leb, ltb, if◌then◌else◌,
  List, [], ◌∷◌, min,
}
use gummy.Queue.{Ptr, null}
use gummy.Memory.{Bytes, memset}
use gummy.Bitmap.{align_up, align_down, bitmap_set_bit, bitmap_clear_bit, bitmap_find_free_bit}

abbrev pub page_size : ℕ
page_size = 4096

pub record Pmm : Type 0 where
  pub bytes : Bytes
  pub bitmap : Ptr
  pub bitmap_bits : ℕ
  pub bitmap_bytes : ℕ
  pub phys_top : ℕ
  pub usable_mem : ℕ

-- `bitmap == NULL || bitmap_bits == 0`
abbrev pub uninitialized : Pmm → Bool
uninitialized s = s.bitmap == null || s.bitmap_bits == 0

-- `uint32_t page = bitmap_find_free_bit(bitmap, bitmap_bits);`
abbrev pub free_page : Pmm → ℕ
free_page s = bitmap_find_free_bit s.bytes s.bitmap s.bitmap_bits % 2 ^ 32

-- The address of the page, or 0, and the new state.
unfoldable pub pmm_alloc_page : Pmm → ℕ × Pmm
pmm_alloc_page s = if uninitialized s then (0, s) else if free_page s == 0 then (0, s) else (
  (free_page s * page_size) % 2 ^ 32,
  record s { bytes = bitmap_set_bit s.bytes s.bitmap (free_page s) },
)

unfoldable pub pmm_free_page : Pmm → ℕ → Pmm
pmm_free_page s page =
    if uninitialized s
    then s
    else record s { bytes = bitmap_clear_bit s.bytes s.bitmap (page / page_size) }

-- `e820_entry_t`
pub record E820Entry : Type 0 where
  pub base : ℕ
  pub len : ℕ
  pub kind : ℕ

-- `MIN(entry.base + entry.length, 0xFFFFFFFF)`, a sum of two `uint64_t`.
abbrev pub entry_end : E820Entry → ℕ
entry_end e = min ((e.base + e.len) % 2 ^ 64) 0xffffffff

-- A round of the first loop of `pmm_init`. `usable_mem` is a `uint32_t` that a `uint64_t` is added
-- to.
unfoldable pub survey_entry : E820Entry → Pmm → Pmm
survey_entry e s = if leb 0xffffffff e.base then s else record s {
  phys_top = if ltb (entry_end e) s.phys_top then s.phys_top else entry_end e;
  usable_mem =
      if e.kind == 1
      then (s.usable_mem + (2 ^ 64 + entry_end e - e.base)) % 2 ^ 32
      else s.usable_mem;
}

unfoldable pub survey : List E820Entry → Pmm → Pmm
survey [] s = s
survey (e ∷ es) s = survey es (survey_entry e s)

-- `bitmap_clear_bit` and `bitmap_set_bit` on the pages from `page` on, on the rounds left.
unfoldable pub clear_pages : Bytes → Ptr → ℕ → ℕ → Bytes
clear_pages m bmp zero page = m
clear_pages m bmp (suc k) page = clear_pages (bitmap_clear_bit m bmp page) bmp k (page + 1)

unfoldable pub set_pages : Bytes → Ptr → ℕ → ℕ → Bytes
set_pages m bmp zero page = m
set_pages m bmp (suc k) page = set_pages (bitmap_set_bit m bmp page) bmp k (page + 1)

-- The pages that the second loop frees for an entry: `start_page` is an `uint64_t` cut to 32 bits.
abbrev pub start_page : E820Entry → ℕ
start_page e = (align_up 64 e.base page_size / page_size) % 2 ^ 32

abbrev pub end_page : E820Entry → ℕ
end_page e = align_down (entry_end e) page_size / page_size

-- A round of the second loop.
unfoldable pub free_entry : E820Entry → Bytes → Ptr → Bytes
free_entry e m bmp =
    if not (e.kind == 1)
    then m
    else if leb 0xffffffff e.base
    then m
    else clear_pages m bmp (end_page e - start_page e) (start_page e)

unfoldable pub free_entries : List E820Entry → Bytes → Ptr → Bytes
free_entries [] m bmp = m
free_entries (e ∷ es) m bmp = free_entries es (free_entry e m bmp) bmp

-- The pages of the kernel and of the bitmap behind it, which start at virtual addresses.
abbrev pub kernel_start_page : ℕ → ℕ
kernel_start_page kstart =
    align_down ((kstart + 2 ^ 32 - 0xc0000000) % 2 ^ 32) page_size / page_size

abbrev pub kernel_end_page : ℕ → ℕ → ℕ
kernel_end_page kend bitmap_bytes =
    align_up 32 (((kend + bitmap_bytes) % 2 ^ 32 + 2 ^ 32 - 0xc0000000) % 2 ^ 32) page_size
    / page_size

-- The bitmap of `bits` pages that `pmm_init` builds at `kend`: all used, the usable entries freed,
-- the kernel and the first 16 pages used.
unfoldable pub build_bitmap : ℕ → ℕ → List E820Entry → ℕ → Bytes → Bytes
build_bitmap kstart kend entries bits m =
    let size : ℕ = align_up 32 bits 8 / 8 in
    let m1 : Bytes = memset m kend 0xff size in
    let m2 : Bytes = free_entries entries m1 kend in
    let m3 : Bytes =
      set_pages m2 kend (min (kernel_end_page kend size) bits - kernel_start_page kstart)
        (kernel_start_page kstart) in
    set_pages m3 kend 16 0

unfoldable pub pmm_init : ℕ → ℕ → List E820Entry → Pmm → Pmm
pmm_init kstart kend entries s0 =
    let s1 : Pmm = survey entries (record s0 { bitmap = kend }) in
    let bits : ℕ = s1.phys_top / page_size in
    record s1 {
      bytes = build_bitmap kstart kend entries bits s1.bytes;
      bitmap_bits = bits;
      bitmap_bytes = align_up 32 bits 8 / 8;
    }
