-- ===== src/Pmm/Init.antt =====
-- What `pmm_init` leaves in the bitmap.
use gummy.Prelude.{
  ℕ, zero, suc, ◌+◌, ◌-◌, ◌*◌, ◌/◌, ◌%◌, ◌^◌, ◌≤◌, ◌<◌, ◌≡◌, refl, ◌≢◌, Bool, true, false, not,
  ◌||◌, ◌&&◌, arith, ◌==◌, ltb, leb, List, [], ◌∷◌, min, ◌∙◌, Bool-cases, inl, inr,
}
use gummy.Queue.{Ptr, null}
use gummy.Memory.{Bytes, memset}
use gummy.Memory.Copy.{memset-reads}
use gummy.Bitmap.{align_up, bitmap_test_bit, bitmap_set_bit, bitmap_clear_bit}
use gummy.Bitmap.Bits.{AreBytes, test-set, test-clear, set-AreBytes, clear-AreBytes, test_full}
use gummy.Pmm.Alloc.{used, IsReady}
use gummy.Pmm.{
  Pmm, page_size, E820Entry, survey_entry, survey, clear_pages, set_pages, start_page, end_page,
  free_entry, free_entries, build_bitmap, kernel_start_page, kernel_end_page, pmm_init,
}

-- `a ≤ j < b`
abbrev pub between : ℕ → ℕ → ℕ → Bool
between a b j = leb a j && ltb j b

-- Whether a usable entry of the map covers the page `j`.
abbrev pub covered : List E820Entry → ℕ → Bool
covered [] j = false
covered (e ∷ es) j =
    (e.kind == 1 && not (leb 0xffffffff e.base) && between (start_page e) (end_page e) j)
    || covered es j

module _ (bmp : Ptr) (real : bmp ≢ null) where
  clear_pages-test :
      (m : Bytes) (k p : ℕ)
      → AreBytes m
      → AreBytes (clear_pages m bmp k p)
        × ((j : ℕ)
            → bitmap_test_bit (clear_pages m bmp k p) bmp j
              ≡ (not (between p (p + k) j) && bitmap_test_bit m bmp j))
  unfolding clear_pages
  clear_pages-test m zero p b = (b, λ j. ground arith)
  clear_pages-test m (suc k) p b =
      let (c, d) =
        clear_pages-test (bitmap_clear_bit m bmp p) k (p + 1) (clear-AreBytes m bmp p real b) in
      (c, λ j. ground (arith, d j, test-clear m bmp p real b j))

  set_pages-test :
      (m : Bytes) (k p : ℕ)
      → AreBytes m
      → AreBytes (set_pages m bmp k p)
        × ((j : ℕ)
            → bitmap_test_bit (set_pages m bmp k p) bmp j
              ≡ (between p (p + k) j || bitmap_test_bit m bmp j))
  unfolding set_pages
  set_pages-test m zero p b = (b, λ j. ground arith)
  set_pages-test m (suc k) p b =
      let (c, d) =
        set_pages-test (bitmap_set_bit m bmp p) k (p + 1) (set-AreBytes m bmp p real b) in
      (c, λ j. ground (arith, d j, test-set m bmp p real b j))

  free_entry-test :
      (e : E820Entry) (m : Bytes) (j : ℕ)
      → AreBytes m
      → bitmap_test_bit (free_entry e m bmp) bmp j
        ≡ (not (covered (e ∷ []) j) && bitmap_test_bit m bmp j)
  unfolding free_entry
  free_entry-test e m j b =
      ground (arith, (clear_pages-test m (end_page e - start_page e) (start_page e) b).1 j)

  free_entry-AreBytes : (e : E820Entry) (m : Bytes) → AreBytes m → AreBytes (free_entry e m bmp)
  unfolding free_entry
  free_entry-AreBytes e m b a =
      ground (arith, b a, (clear_pages-test m (end_page e - start_page e) (start_page e) b).0 a)

  free_entries-test :
      (es : List E820Entry) (m : Bytes)
      → AreBytes m
      → AreBytes (free_entries es m bmp)
        × ((j : ℕ)
            → bitmap_test_bit (free_entries es m bmp) bmp j
              ≡ (not (covered es j) && bitmap_test_bit m bmp j))
  unfolding free_entries
  free_entries-test [] m b = (b, λ j. ground arith)
  free_entries-test (e ∷ es) m b =
      let (c, d) = free_entries-test es (free_entry e m bmp) (free_entry-AreBytes e m b) in
      (c, λ j. ground (arith, d j, free_entry-test e m j b))

-- The first loop changes neither the bytes nor the address of the bitmap, and `phys_top` stays
-- below 2 ^ 32.
record Surveys (s t : Pmm) : Type 0 where
  bytes : t.bytes ≡ s.bytes
  bitmap : t.bitmap ≡ s.bitmap
  top : s.phys_top < 2 ^ 32 → t.phys_top < 2 ^ 32

survey_entry-Surveys : (e : E820Entry) (s : Pmm) → Surveys s (survey_entry e s)
unfolding survey_entry
survey_entry-Surveys e s = record {
  bytes = ground arith;
  bitmap = ground arith;
  top = λ h. ground arith;
}

survey-Surveys : (es : List E820Entry) (s : Pmm) → Surveys s (survey es s)
unfolding survey
survey-Surveys [] s = record { bytes = refl; bitmap = refl; top = λ h. h }
survey-Surveys (e ∷ es) s =
    let a = survey_entry-Surveys e s in
    let b = survey-Surveys es (survey_entry e s) in
    record { bytes = b.bytes ∙ a.bytes; bitmap = b.bitmap ∙ a.bitmap; top = λ h. b.top (a.top h) }

-- The filled bitmap.
filled-test :
    (m : Bytes) (bmp bits j : ℕ)
    → bmp ≢ null
    → bits ≤ 2 ^ 20
    → j < bits
    → bitmap_test_bit (memset m bmp 0xff (align_up 32 bits 8 / 8)) bmp j ≡ true
filled-test m bmp bits j real small l =
    let e : j / 8 * 8 + j % 8 ≡ j = omega arith in
    rw (← e) (
      test_full _ bmp (j / 8) (j % 8) real
        (ground (arith, memset-reads m bmp 0xff (align_up 32 bits 8 / 8) (bmp + j / 8)))
        (omega arith))

filled-AreBytes : (m : Bytes) (bmp n : ℕ) → bmp ≢ null → AreBytes m → AreBytes (memset m bmp 0xff n)
filled-AreBytes m bmp n real b a = ground (arith, b a, memset-reads m bmp 0xff n a)

-- What the bitmap of `bits` pages says of the page `j`.
abbrev pub initially_used : ℕ → ℕ → List E820Entry → ℕ → ℕ → Bool
initially_used kstart kend es bits j =
    ltb j 16
    || between (kernel_start_page kstart) (min (kernel_end_page kend (align_up 32 bits 8 / 8)) bits)
        j
    || not (covered es j)

build_bitmap-test :
    (kstart kend bits : ℕ) (es : List E820Entry) (m : Bytes)
    → kend ≢ null
    → bits ≤ 2 ^ 20
    → AreBytes m
    → AreBytes (build_bitmap kstart kend es bits m)
      × (bitmap_test_bit (build_bitmap kstart kend es bits m) kend 0 ≡ true)
      × ((j : ℕ)
          → j < bits
          → bitmap_test_bit (build_bitmap kstart kend es bits m) kend j
            ≡ initially_used kstart kend es bits j)
unfolding build_bitmap
build_bitmap-test kstart kend bits es m real small b =
    let size = align_up 32 bits 8 / 8 in
    let first = kernel_start_page kstart in
    let last = min (kernel_end_page kend size) bits in
    let b1 = filled-AreBytes m kend size real b in
    let (b2, t2) = free_entries-test kend real es _ b1 in
    let (b3, t3) = set_pages-test kend real _ (last - first) first b2 in
    let (b4, t4) = set_pages-test kend real _ 16 0 b3 in
    (
      b4,
      ground (arith, t4 0),
      λ j l. ground (arith, t4 j, t3 j, t2 j, filled-test m kend bits j real small l),
    )

-- The page `j` lies within the usable entry: its type is 1, it starts below 0xffffffff, and the page
-- lies between its start and its end, which is cut at 0xffffffff.
abbrev pub is_within : E820Entry → ℕ → Bool
is_within e j =
    e.kind == 1
    && ltb e.base 0xffffffff
    && leb e.base (j * 4096)
    && leb ((j + 1) * 4096) ((e.base + e.len) % 2 ^ 64)
    && leb ((j + 1) * 4096) 0xffffffff

abbrev pub is_usable : List E820Entry → ℕ → Bool
is_usable [] j = false
is_usable (e ∷ es) j = is_within e j || is_usable es j

-- The page `j` has a byte of the kernel or of the bitmap of a bit for each of the pages, which follows
-- the kernel. They are mapped at 0xc0000000.
abbrev pub is_kernel : ℕ → ℕ → ℕ → ℕ → Bool
is_kernel kstart kend pages j =
    ltb (kstart - 0xc0000000) ((j + 1) * 4096)
    && ltb (j * 4096) (kend + (pages + 7) / 8 - 0xc0000000)

start_lem :
    (e : E820Entry) (j : ℕ) → e.base < 0xffffffff → leb (start_page e) j ≡ leb e.base (j * 4096)
start_lem e j l =
    let up : start_page e ≡ (e.base + 4095) / 4096 = omega (arith, l) in rw up (ground arith)

end_lem :
    (e : E820Entry) (j : ℕ)
    → ltb j (end_page e)
      ≡ (leb ((j + 1) * 4096) ((e.base + e.len) % 2 ^ 64) && leb ((j + 1) * 4096) 0xffffffff)
end_lem e j =
    let down : end_page e ≡ min ((e.base + e.len) % 2 ^ 64) 0xffffffff / 4096 = omega arith in
    rw down (ground arith)

covered-within : (e : E820Entry) (j : ℕ) → covered (e ∷ []) j ≡ is_within e j
covered-within e j = elim (Bool-cases (leb 0xffffffff e.base)) [
  | inl high ↦ ground (arith, high)
  | inr low ↦
      let below : e.base < 0xffffffff = ground arith in
      ground (arith, low, start_lem e j below, end_lem e j)
]

covered-usable : (es : List E820Entry) (j : ℕ) → covered es j ≡ is_usable es j
covered-usable [] j = refl
covered-usable (e ∷ es) j = ground (arith, covered-within e j, covered-usable es j)

-- The kernel and its bitmap are mapped at 0xc0000000, and a page and more lies above them.
abbrev pub IsMapped : ℕ → ℕ → ℕ → Type 0
IsMapped kstart kend pages =
    (0xc0000000 ≤ kstart)
    × (kstart < 2 ^ 32)
    × (0xc0000000 ≤ kend)
    × (kend + (pages + 7) / 8 + 4096 ≤ 2 ^ 32)

initially_used_lem :
    (kstart kend : ℕ) (es : List E820Entry) (bits j : ℕ)
    → IsMapped kstart kend bits
    → bits ≤ 2 ^ 20
    → j < bits
    → initially_used kstart kend es bits j
      ≡ (ltb j 16 || is_kernel kstart kend bits j || not (is_usable es j))
initially_used_lem kstart kend es bits j (a, b, c, d) small l =
    let size : align_up 32 bits 8 / 8 ≡ (bits + 7) / 8 = omega arith in
    let first : leb (kernel_start_page kstart) j ≡ ltb (kstart - 0xc0000000) ((j + 1) * 4096) =
      ground arith in
    let last : kernel_end_page kend ((bits + 7) / 8)
        ≡ (kend + (bits + 7) / 8 - 0xc0000000 + 4095) / 4096 =
      omega arith in
    let last' : ltb j (min (kernel_end_page kend ((bits + 7) / 8)) bits)
        ≡ ltb (j * 4096) (kend + (bits + 7) / 8 - 0xc0000000) =
      rw last (ground arith) in
    rw size (ground (arith, first, last', covered-usable es j))

module _ (kstart kend : ℕ) (es : List E820Entry) (s : Pmm) where
  -- The number of pages that the bitmap covers.
  abbrev pub pages : ℕ
  pages = (survey es (record s { bitmap = kend })).phys_top / page_size

  -- With the kernel and its bitmap mapped at 0xc0000000 and up, below the last page, `phys_top` still 0
  -- and the map giving some page, `pmm_init` leaves a state in order, in which a page is in use exactly
  -- when it is one of the first 16, has a byte of the kernel or the bitmap, or does not lie within a
  -- usable entry of the map as a whole.
  pub pmm_init-used :
      IsMapped kstart kend pages
      → AreBytes s.bytes
      → s.phys_top ≡ 0
      → 0 < pages
      → IsReady (pmm_init kstart kend es s)
        × ((pmm_init kstart kend es s).bitmap_bits ≡ pages)
        × ((j : ℕ)
            → j < pages
            → used (pmm_init kstart kend es s) j
              ≡ (ltb j 16 || is_kernel kstart kend pages j || not (is_usable es j)))
  unfolding pmm_init
  pmm_init-used mapped b fresh some_page =
      let (_, _, above, _) = mapped in
      let real : kend ≢ null = omega arith in
      let t = survey es (record s { bitmap = kend }) in
      let g = survey-Surveys es (record s { bitmap = kend }) in
      let small : pages ≤ 2 ^ 20 = omega (arith, g.top (omega arith)) in
      let (bytes, zero_used, tests) =
        build_bitmap-test kstart kend pages es t.bytes real small (rw g.bytes b) in
      (
        record {
          bitmap_real = rw g.bitmap real;
          some_page = some_page;
          reach = small;
          bytes_ok = bytes;
          zero_used = rw g.bitmap zero_used;
        },
        refl,
        λ j l. rw g.bitmap (tests j l ∙ initially_used_lem kstart kend es pages j mapped small l),
      )
