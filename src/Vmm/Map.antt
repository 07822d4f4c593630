-- ===== src/Vmm/Map.antt =====
-- `vmm_map`, against the translation.
use gummy.Prelude.{
  ℕ, ◌+◌, ◌*◌, ◌/◌, ◌%◌, ◌^◌, ◌<◌, ◌≡◌, refl, ◌≢◌, ◌⊎◌, arith, true, ◌&&◌, ◌==◌, bit_or,
  if◌then◌else◌, some, Bool-cases, inl, inr, ap, ◌∙◌, sym,
}
use gummy.Pmm.Alloc.{used}
use gummy.Vmm.{
  Frames, Paging, write_word, is_present, frame_of, get_pde_index, get_pte_index, pde, enter_page,
  vmm_map, failure,
}
use gummy.Vmm.Flags.{bit_or_flags}
use gummy.Vmm.Walk.{reach, translate, IsSpace}
use gummy.Vmm.Table.{entry_lem, ensure_table-HasTable}

-- The memory `m'` is `m`, but that the entry of the directory for the index `i` may have other flags,
-- and that the entry `j` of its table is `w`.
pub record Enters (m m' : Frames) (cr3 i j w : ℕ) : Type 0 where
  pub last : m' cr3 1023 ≡ m cr3 1023
  pub frames : (k : ℕ) → k < 1023 → m' cr3 k / 4096 ≡ m cr3 k / 4096
  pub presents : (k : ℕ) → k < 1023 → is_present (m' cr3 k) ≡ is_present (m cr3 k)
  pub tables :
      (k l : ℕ)
      → k < 1023
      → is_present (m cr3 k) ≡ true
      → m' (frame_of (m cr3 k)) l ≡ (if k == i && l == j then w else m (frame_of (m cr3 k)) l)

module _ (s : Paging) (v : IsSpace s) (m' : Frames) (virt w : ℕ)
    (on : is_present (pde s virt) ≡ true) (low : virt < 0xffc00000)
    (e : Enters s.frames m' s.cr3 (get_pde_index virt) (get_pte_index virt) w) where
  pub Enters-IsSpace : IsSpace (record s { frames = m' })
  Enters-IsSpace = record {
    recursive = rw e.last v.recursive;
    ready = v.ready;
    directory_used = v.directory_used;
    table_used = λ k l h. rw (e.frames k l) (v.table_used k l (sym (e.presents k l) ∙ h));
    table_real = λ k l h. rw (e.frames k l) (v.table_real k l (sym (e.presents k l) ∙ h));
    table_apart = λ k l h. rw (e.frames k l) (v.table_apart k l (sym (e.presents k l) ∙ h));
    tables_apart = λ k j a b n h h'.
        rw (e.frames k a, e.frames j b)
          (v.tables_apart k j a b n (sym (e.presents k a) ∙ h) (sym (e.presents j b) ∙ h'));
  }

  pub Enters-translate :
      (a : ℕ)
      → a < 0xffc00000
      → translate m' s.cr3 a
        ≡ (if a / 4096 == virt / 4096 then reach 1 w a else translate s.frames s.cr3 a)
  Enters-translate a l =
      let k : ℕ = a / 2 ^ 22 in
      let j : ℕ = a / 2 ^ 12 % 2 ^ 10 in
      let small : k < 1023 = omega arith in
      let d : ℕ = s.frames s.cr3 k in
      let here : (a / 4096 == virt / 4096) ≡ (k == get_pde_index virt && j == get_pte_index virt) =
        ground arith in
      ap (λ x. reach (m' s.cr3 k) (m' (x * 4096) j) a) (e.frames k small)
      ∙ elim (Bool-cases (is_present d)) [
        | inl old ↦ rw (e.tables k j small old, here) (ground (arith, e.presents k small, old))
        | inr gone ↦ ground (arith, e.presents k small, gone, on, here)
      ]

-- An entry of the table of `virt` is written; the directory's entry has become `d`.
pub write_entry :
    (s : Paging) (virt d w : ℕ)
    → IsSpace s
    → virt < 0xffc00000
    → is_present (pde s virt) ≡ true
    → d / 4096 ≡ pde s virt / 4096
    → is_present d ≡ true
    → Enters s.frames
        (write_word
          (write_word s.frames s.cr3 (get_pde_index virt) d)
          (frame_of (pde s virt))
          (get_pte_index virt)
          w)
        s.cr3
        (get_pde_index virt)
        (get_pte_index virt)
        w
write_entry s virt d w v low on same present =
    let i : ℕ = get_pde_index virt in
    let apart : frame_of (pde s virt) ≢ s.cr3 = v.table_apart i (omega arith) on in
    record {
      last = ground (arith, apart);
      frames = λ k l. ground (arith, apart);
      presents = λ k l. ground (arith, apart);
      tables = λ k l small h.
          ground (arith, v.table_apart k small h, v.tables_apart i k (omega arith) small, on, h);
    }

enter_page-Enters :
    (s : Paging) (virt phys flags : ℕ)
    → IsSpace s
    → virt < 0xffc00000
    → flags < 4096
    → is_present (pde s virt) ≡ true
    → (m' : Frames) × (enter_page s virt phys flags ≡ record s { frames = m' })
      × Enters s.frames m' s.cr3
          (get_pde_index virt)
          (get_pte_index virt)
          (bit_or (bit_or phys flags) 1)
unfolding enter_page
enter_page-Enters s virt phys flags v low f on =
    let d : ℕ = bit_or (pde s virt) flags in
    let (frame, bit) = bit_or_flags (pde s virt) flags f in
    let present : is_present d ≡ true = ground (arith, bit, on) in
    let here : write_word s.frames s.cr3 (get_pde_index virt) d s.cr3 (get_pde_index virt) ≡ d =
      ground arith in
    (
      _,
      rw (here, present, frame) refl,
      write_entry s virt d (bit_or (bit_or phys flags) 1) v low on frame present,
    )

-- In an address space in order, for an address below 0xFFC00000, a page that is aligned and flags below
-- 4096, `vmm_map` either fails, with every page in use, and changes nothing, or maps the page of the
-- address to the given one and leaves the translation of every other address below 0xFFC00000. The
-- address space stays in order, and no page in use is freed.
pub vmm_map-translate :
    (s : Paging) (virt phys flags : ℕ)
    → IsSpace s
    → virt < 0xffc00000
    → phys % 4096 ≡ 0
    → flags < 4096
    → ((vmm_map s virt phys flags ≡ (failure, s))
        × ((j : ℕ) → j < s.pmm.bitmap_bits → used s.pmm j ≡ true))
      ⊎ ((s' : Paging) × (vmm_map s virt phys flags ≡ (0, s'))
          × IsSpace s'
          × (s'.cr3 ≡ s.cr3)
          × ((a : ℕ)
              → a < 0xffc00000
              → translate s'.frames s'.cr3 a ≡ (
                  if a / 4096 == virt / 4096
                  then some (phys + a % 4096)
                  else translate s.frames s.cr3 a))
          × ((j : ℕ) → used s.pmm j ≡ true → used s'.pmm j ≡ true))
unfolding vmm_map
vmm_map-translate s virt phys flags v low aligned f =
    elim (ensure_table-HasTable s virt flags v low f) [
      | inl (e, all) ↦ inl (rw e refl, all)
      | inr (s1, e, h) ↦
          let w : ℕ = bit_or (bit_or phys flags) 1 in
          let (frame, bit) = entry_lem phys flags aligned f in
          let (m', e', enters) = enter_page-Enters s1 virt phys flags h.space low f h.present in
          inr (
            record s1 { frames = m' },
            rw (e, e') refl,
            Enters-IsSpace s1 h.space m' virt w h.present low enters,
            h.same_cr3,
            λ a l.
                Enters-translate s1 h.space m' virt w h.present low enters a l
                ∙ ground (arith, frame, bit, h.walks a l, aligned),
            h.still_used,
          )
    ]
