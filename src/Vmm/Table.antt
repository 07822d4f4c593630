-- ===== src/Vmm/Table.antt =====
-- A new table in a directory: the first part of `vmm_map`.
use gummy.Prelude.{
  ℕ, zero, suc, ◌*◌, ◌/◌, ◌%◌, ◌^◌, ◌<◌, ◌≡◌, refl, ◌≢◌, ◌⊎◌, arith, true, false, ◌&&◌, ◌||◌, ◌==◌,
  ltb, bit_or, if◌then◌else◌, Bool-cases, inl, inr, ap, ◌∙◌,
}
use gummy.Pmm.{Pmm, pmm_alloc_page, page_size}
use gummy.Pmm.Alloc.{used, IsReady, pmm_alloc_page-Allocates}
use gummy.Vmm.{
  Frames, Paging, write_word, is_present, frame_of, get_pde_index, pde, clear_entries, ensure_table,
  entries_per_table,
}
use gummy.Vmm.Flags.{bit_or_flags}
use gummy.Vmm.Walk.{reach, translate, IsSpace}

clear_entries-reads :
    (m : Frames) (page n a j : ℕ)
    → clear_entries m page n a j ≡ (if a == page && ltb j n then 0 else m a j)
unfolding clear_entries
clear_entries-reads m page zero a j = ground arith
clear_entries-reads m page (suc n) a j = ground (arith, clear_entries-reads m page n a j)

-- What a new entry of a directory or a table holds.
pub entry_lem :
    (frame flags : ℕ)
    → frame % 4096 ≡ 0
    → flags < 4096
    → (bit_or (bit_or frame flags) 1 / 4096 ≡ frame / 4096)
      × (bit_or (bit_or frame flags) 1 % 2 ≡ 1)
entry_lem frame flags z l =
    let (a, b) = bit_or_flags frame flags l in
    let (c, d) = bit_or_flags (bit_or frame flags) 1 (omega arith) in
    (omega (arith, a, c), omega (arith, d))

-- The memory after `table` has become the table of the index `i`.
abbrev with_table : Frames → ℕ → ℕ → ℕ → Frames
with_table m cr3 i w = clear_entries (write_word m cr3 i w) (frame_of w) entries_per_table

module _ (s : Paging) (v : IsSpace s) (i w table : ℕ) (low : i < 1023)
    (missing : is_present (s.frames s.cr3 i) ≡ false) (frame : w / 4096 ≡ table)
    (present : is_present w ≡ true) (fresh : used s.pmm table ≡ false)
    (some_table : table ≢ 0) where
  apart : table * 4096 ≢ s.cr3
  apart = λ e. cc (v.directory_used table e, fresh)

  after :
      (a j : ℕ)
      → with_table s.frames s.cr3 i w a j ≡ (
          if a == table * 4096 && ltb j 1024
          then 0
          else if a == s.cr3 && j == i
          then w
          else s.frames a j)
  after a j =
      clear_entries-reads (write_word s.frames s.cr3 i w) (frame_of w) 1024 a j
      ∙ ground (arith, frame)

  directory :
      (j : ℕ) → with_table s.frames s.cr3 i w s.cr3 j ≡ (if j == i then w else s.frames s.cr3 j)
  directory j = after s.cr3 j ∙ ground (arith, apart)

  -- An entry that was present leads to its table, which is as it was.
  elsewhere :
      (k j : ℕ)
      → k < 1023
      → is_present (s.frames s.cr3 k) ≡ true
      → with_table s.frames s.cr3 i w (frame_of (s.frames s.cr3 k)) j
        ≡ s.frames (frame_of (s.frames s.cr3 k)) j
  elsewhere k j l h =
      let other : s.frames s.cr3 k / 4096 ≢ table = λ e. cc (v.table_used k l h, fresh, e) in
      after (frame_of (s.frames s.cr3 k)) j ∙ ground (arith, other, v.table_apart k l h)

  with_table-translate :
      (virt : ℕ)
      → virt < 0xffc00000
      → translate (with_table s.frames s.cr3 i w) s.cr3 virt ≡ translate s.frames s.cr3 virt
  with_table-translate virt l =
      let k : ℕ = virt / 2 ^ 22 in
      let j : ℕ = virt / 2 ^ 12 % 2 ^ 10 in
      let m' : Frames = with_table s.frames s.cr3 i w in
      let d : ℕ = s.frames s.cr3 k in
      elim (Bool-cases (k == i)) [
        | inl here ↦
            let e : m' s.cr3 k ≡ w = directory k ∙ ground (arith, here) in
            let t : m' (frame_of w) j ≡ 0 = after (frame_of w) j ∙ ground (arith, frame) in
            ap (λ x. reach x (m' (frame_of x) j) virt) e
            ∙ ap (λ x. reach w x virt) t
            ∙ ground (arith, missing, here)
        | inr other ↦
            let e : m' s.cr3 k ≡ d = directory k ∙ ground (arith, other) in
            elim (Bool-cases (is_present d)) [
              | inl old ↦
                  ap (λ x. reach x (m' (frame_of x) j) virt) e
                  ∙ ap (λ x. reach d x virt) (elsewhere k j (omega arith) old)
              | inr none_there ↦
                  ap (λ x. reach x (m' (frame_of x) j) virt) e ∙ ground (arith, none_there)
            ]
      ]

  with_table-IsSpace :
      (p : Pmm)
      → IsReady p
      → ((j : ℕ) → used p j ≡ (table == j || used s.pmm j))
      → IsSpace (record s { pmm = p; frames = with_table s.frames s.cr3 i w })
  with_table-IsSpace p ready mark = record {
    recursive = rw (directory 1023) (ground (arith, v.recursive));
    ready = ready;
    directory_used = λ q e. ground (arith, mark q, v.directory_used q e);
    table_used = λ k l h. rw (directory k) (
        ground (
          arith,
          mark (w / 4096),
          mark (s.frames s.cr3 k / 4096),
          v.table_used k l,
          directory k,
          h,
          frame,
        ));
    table_real = λ k l h.
        rw (directory k) (ground (arith, v.table_real k l, directory k, h, frame, some_table));
    table_apart =
        λ k l h. rw (directory k) (ground (arith, v.table_apart k l, directory k, h, frame, apart));
    tables_apart = λ k j a b n h h'.
        rw (directory k, directory j)
          (ground (
            arith,
            v.tables_apart k j a b n,
            v.table_used k a,
            v.table_used j b,
            directory k,
            directory j,
            h,
            h',
            frame,
            fresh,
          ));
  }

-- What `ensure_table` leaves where it finds or makes a table.
pub record HasTable (s : Paging) (virt : ℕ) (s' : Paging) : Type 0 where
  pub space : IsSpace s'
  pub same_cr3 : s'.cr3 ≡ s.cr3
  pub present : is_present (pde s' virt) ≡ true
  pub walks : (a : ℕ) → a < 0xffc00000 → translate s'.frames s'.cr3 a ≡ translate s.frames s.cr3 a
  pub still_used : (j : ℕ) → used s.pmm j ≡ true → used s'.pmm j ≡ true

pub ensure_table-HasTable :
    (s : Paging) (virt flags : ℕ)
    → IsSpace s
    → virt < 0xffc00000
    → flags < 4096
    → ((ensure_table s virt flags ≡ (false, s))
        × ((j : ℕ) → j < s.pmm.bitmap_bits → used s.pmm j ≡ true))
      ⊎ ((s' : Paging) × (ensure_table s virt flags ≡ (true, s')) × HasTable s virt s')
unfolding ensure_table
ensure_table-HasTable s virt flags v l f = elim (Bool-cases (is_present (pde s virt))) [
  | inl there ↦ inr (
    s,
    rw there refl,
    record {
      space = v;
      same_cr3 = refl;
      present = there;
      walks = λ a b. refl;
      still_used = λ j h. h;
    },
  )
  | inr missing ↦ elim (pmm_alloc_page-Allocates s.pmm v.ready) [
    | inl (e, same, all) ↦ inl (rw (missing, e, same) refl, all)
    | inr (p, e, n, less, free, lowest, mark, ready) ↦
        let i : ℕ = get_pde_index virt in
        let w : ℕ = bit_or (bit_or (p * page_size) flags) 1 in
        let (frame, bit) = entry_lem (p * page_size) flags (omega arith) f in
        let q : w / 4096 ≡ p = omega (arith, frame) in
        let on : is_present w ≡ true = ground (arith, bit) in
        let low : i < 1023 = omega arith in
        let pm : Pmm = (pmm_alloc_page s.pmm).1 in
        let m' : Frames = with_table s.frames s.cr3 i w in
        let real : (p * page_size == 0) ≡ false = ground (arith, n) in
        let set : write_word s.frames s.cr3 i w s.cr3 i ≡ w = ground arith in
        inr (
          record s { pmm = pm; frames = m' },
          rw (missing, e, real, set) refl,
          record {
            space = with_table-IsSpace s v i w p low missing q on free n pm ready mark;
            same_cr3 = refl;
            present = rw (directory s v i w p low missing q on free n i) (ground (arith, on));
            walks = with_table-translate s v i w p low missing q on free n;
            still_used = λ j h. ground (arith, mark j);
          },
        )
  ]
]
