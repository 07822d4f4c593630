-- ===== src/Devices/Pic/Masks.antt =====
-- Which interrupts the calls of kernel/src/pic.c leave masked.
use gummy.Prelude.{
  ℕ, ◌+◌, ◌-◌, ◌%◌, ◌^◌, ◌<◌, ◌≡◌, refl, ◌≢◌, arith, Bool, true, false, not, ◌&&◌, ◌||◌, ltb, ◌==◌,
  if◌then◌else◌, List, [], ◌∷◌, ◌++◌, bit_and, bit_or, Bool-cases, inl, inr, ap, ◌∙◌,
}
use gummy.Bitmap.{mask}
use gummy.Bitmap.Bits.{test, test_or, test_and, stays_byte, test_255}
use gummy.Devices.{Ports, Hardware, outb}
use gummy.Devices.Pic.{
  pic1_cmd, pic2_cmd, pic1_data, pic2_data, pic_eoi, pic_remap, mask_port, mask_place,
  pic_irq_set_mask, pic_irq_clear_mask,
}

-- The value that was written last to a port.
abbrev pub last_value : ℕ → List (ℕ × ℕ) → ℕ
last_value port [] = 0
last_value port ((a, value) ∷ writes) = if a == port then value else last_value port writes

-- None of the writes is a command to a controller other than the end of an interrupt.
abbrev pub are_quiet : List (ℕ × ℕ) → Bool
are_quiet [] = true
are_quiet ((a, value) ∷ writes) =
    (not (a == pic1_cmd || a == pic2_cmd) || value == pic_eoi) && are_quiet writes

-- The register of a controller that holds the mask of an interrupt, and its bit there: the first eight
-- belong to the first controller, at the port 0x21, the others to the second one, at 0xa1.
abbrev pub register_of : ℕ → ℕ
register_of irq = if ltb irq 8 then 0x21 else 0xa1

abbrev pub bit_of : ℕ → ℕ
bit_of irq = if ltb irq 8 then irq else irq - 8

-- After `pic_remap` on `before`, a controller that gets no other command returns the mask that was
-- written last.
abbrev pub ReturnsMasks : Hardware → Ports → Type 0
ReturnsMasks hardware before =
    (writes : List (ℕ × ℕ)) (reads irq : ℕ)
    → are_quiet writes ≡ true
    → hardware (writes ++ (pic_remap before).writes) reads (register_of irq)
      ≡ last_value (register_of irq) (writes ++ (pic_remap before).writes)

-- The interrupt is masked by the writes.
abbrev pub is_masked : List (ℕ × ℕ) → ℕ → Bool
is_masked writes irq = test (last_value (register_of irq) writes) (bit_of irq)

-- The writes since `pic_remap`, which leave the interrupts masked that `masked` tells.
pub record MasksAre (before p : Ports) (masked : ℕ → Bool) : Type 0 where
  pub later : List (ℕ × ℕ)
  pub history : p.writes ≡ later ++ (pic_remap before).writes
  pub quiet : are_quiet later ≡ true
  pub bytes : (irq : ℕ) → last_value (mask_port irq) p.writes < 256
  pub agree : (irq : ℕ) → irq < 16 → is_masked p.writes irq ≡ masked irq

-- `pic_remap` masks all of them.
pub pic_remap-MasksAre : (before : Ports) → MasksAre before (pic_remap before) (λ irq. true)
unfolding pic_remap
pic_remap-MasksAre before = record {
  later = [];
  history = refl;
  quiet = refl;
  bytes = λ irq. elim (Bool-cases (ltb irq 8)) [
    | inl low ↦ rw low (omega arith)
    | inr high ↦ rw high (omega arith)
  ];
  agree = λ irq l. elim (Bool-cases (ltb irq 8)) [
    | inl low ↦ rw low (test_255 irq (ground arith))
    | inr high ↦ rw high (test_255 (irq - 8) (ground arith))
  ];
}

-- A write elsewhere, or the end of an interrupt.
pub other-MasksAre :
    (before p : Ports) (masked : ℕ → Bool) (port value : ℕ)
    → MasksAre before p masked
    → port < 2 ^ 16
    → value < 2 ^ 8
    → port ≢ pic1_data
    → port ≢ pic2_data
    → (not (port == pic1_cmd || port == pic2_cmd) || value == pic_eoi) ≡ true
    → MasksAre before (outb p port value) masked
other-MasksAre before p masked port value m word byte data1 data2 quiet =
    let e : port % 2 ^ 16 ≡ port = omega (arith, word) in
    let e' : value % 2 ^ 8 ≡ value = omega (arith, byte) in
    let apart : (irq : ℕ) → (port == mask_port irq) ≡ false = λ irq. ground arith in
    rw (e, e')
      (record {
        later = (port, value) ∷ m.later;
        history = ap (λ ws. (port, value) ∷ ws) m.history;
        quiet = rw (quiet, m.quiet) refl;
        bytes = λ irq. rw (apart irq) (m.bytes irq);
        agree = λ irq l. rw (apart irq) (m.agree irq l);
      })

port-word : (irq : ℕ) → mask_port irq % 2 ^ 16 ≡ mask_port irq
port-word irq = ground arith

place-bounds : (irq : ℕ) → irq < 16 → mask_place irq < 8
place-bounds irq l = ground arith

-- Interrupts of one controller have different places.
place-apart :
    (irq j : ℕ) → mask_port irq ≡ mask_port j → (mask_place irq == mask_place j) ≡ (irq == j)
place-apart irq j e = ground arith

-- A new mask for the controller of an interrupt.
write-MasksAre :
    (before p : Ports) (masked masked' : ℕ → Bool) (irq value reads : ℕ)
    → MasksAre before p masked
    → value < 256
    → ((j : ℕ) → j < 16 → mask_port irq ≡ mask_port j → test value (mask_place j) ≡ masked' j)
    → ((j : ℕ) → j < 16 → (mask_port irq == mask_port j) ≡ false → masked j ≡ masked' j)
    → MasksAre before (outb (record p { reads = reads }) (mask_port irq) value) masked'
write-MasksAre before p masked masked' irq value reads m byte here there =
    let e : value % 2 ^ 8 ≡ value = omega (arith, byte) in
    let quiet : (not (mask_port irq == pic1_cmd || mask_port irq == pic2_cmd) || value == pic_eoi)
        ≡ true =
      ground arith in
    rw (port-word irq, e)
      (record {
        later = (mask_port irq, value) ∷ m.later;
        history = ap (λ ws. (mask_port irq, value) ∷ ws) m.history;
        quiet = rw (quiet, m.quiet) refl;
        bytes = λ j. elim (Bool-cases (mask_port irq == mask_port j)) [
          | inl same ↦ rw same byte
          | inr other ↦ rw other (m.bytes j)
        ];
        agree = λ j l. elim (Bool-cases (mask_port irq == mask_port j)) [
          | inl same ↦ rw same (here j l (ground (arith, same)))
          | inr other ↦ rw other (m.agree j l ∙ there j l other)
        ];
      })

module _ (hardware : Hardware) (before p : Ports) (masked : ℕ → Bool) (irq : ℕ)
    (real : ReturnsMasks hardware before) (m : MasksAre before p masked) (l : irq < 16) where
  -- The mask that is read is the one that was written last.
  abbrev read_mask : ℕ
  read_mask = hardware p.writes p.reads (mask_port irq % 2 ^ 16) % 2 ^ 8

  read_mask_lem : read_mask ≡ last_value (mask_port irq) p.writes
  read_mask_lem =
      let e : hardware p.writes p.reads (mask_port irq) ≡ last_value (mask_port irq) p.writes =
        rw m.history (real m.later p.reads irq m.quiet) in
      rw (port-word irq, e) (omega (arith, m.bytes irq))

  -- The bits of the interrupts of the same controller.
  read_mask-test :
      (j : ℕ) → j < 16 → mask_port irq ≡ mask_port j → test read_mask (mask_place j) ≡ masked j
  read_mask-test j k e =
      ap (λ v. test v (mask_place j)) (read_mask_lem ∙ ap (λ port. last_value port p.writes) e)
      ∙ m.agree j k

  apart-eq : (j : ℕ) → (mask_port irq == mask_port j) ≡ false → (irq == j) ≡ false
  apart-eq j e = ground arith

  pub set-MasksAre : MasksAre before (pic_irq_set_mask hardware p irq) (λ j. irq == j || masked j)
  unfolding pic_irq_set_mask
  set-MasksAre =
      let byte : read_mask < 256 = omega arith in
      write-MasksAre before p masked (λ j. irq == j || masked j) irq
        (bit_or read_mask (mask (mask_place irq))) (p.reads + 1) m
        (stays_byte read_mask (mask_place irq) byte (place-bounds irq l)).0
        (λ j k e.
          test_or read_mask (mask_place irq) (mask_place j) byte (place-bounds irq l)
            (place-bounds j k)
          ∙ ground (arith, place-apart irq j e, read_mask-test j k e))
        (λ j k e. rw (apart-eq j e) refl)

  pub clear-MasksAre :
      MasksAre before (pic_irq_clear_mask hardware p irq) (λ j. not (irq == j) && masked j)
  unfolding pic_irq_clear_mask
  clear-MasksAre =
      let byte : read_mask < 256 = omega arith in
      write-MasksAre before p masked (λ j. not (irq == j) && masked j) irq
        (bit_and read_mask (255 - mask (mask_place irq))) (p.reads + 1) m
        (stays_byte read_mask (mask_place irq) byte (place-bounds irq l)).1
        (λ j k e.
          test_and read_mask (mask_place irq) (mask_place j) byte (place-bounds irq l)
            (place-bounds j k)
          ∙ ground (arith, place-apart irq j e, read_mask-test j k e))
        (λ j k e. rw (apart-eq j e) refl)
