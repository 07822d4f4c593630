-- ===== src/Devices/Pic/Calls.antt =====
-- Sequences of calls of kernel/src/pic.c.
use gummy.Prelude.{
  ℕ, ◌<◌, ◌≡◌, refl, arith, Bool, true, not, ◌&&◌, ◌||◌, ltb, leb, ◌==◌, List, [], ◌∷◌, Bool-cases,
  inl, inr,
}
use gummy.Devices.{Ports, Hardware}
use gummy.Devices.Pic.{
  pic_remap, pic_send_eoi, pic_irq_set_mask, pic_irq_clear_mask, pic1_cmd, pic2_cmd, pic_eoi,
}
use gummy.Devices.Pic.Masks.{
  ReturnsMasks, is_masked, MasksAre, pic_remap-MasksAre, other-MasksAre, set-MasksAre,
  clear-MasksAre,
}

pub data PicCall : Type 0 where
  set_mask clear_mask send_eoi : ℕ → PicCall

abbrev pub run_pic_call : Hardware → Ports → PicCall → Ports
run_pic_call hardware p (set_mask irq) = pic_irq_set_mask hardware p irq
run_pic_call hardware p (clear_mask irq) = pic_irq_clear_mask hardware p irq
run_pic_call hardware p (send_eoi irq) = pic_send_eoi p irq

abbrev pub run_pic : Hardware → Ports → List PicCall → Ports
run_pic hardware p [] = p
run_pic hardware p (call ∷ calls) = run_pic hardware (run_pic_call hardware p call) calls

-- The interrupts that are masked after the calls, where `masked` tells those before.
abbrev pub masked_after : List PicCall → (ℕ → Bool) → ℕ → Bool
masked_after [] masked = masked
masked_after (set_mask irq ∷ calls) masked = masked_after calls (λ j. irq == j || masked j)
masked_after (clear_mask irq ∷ calls) masked = masked_after calls (λ j. not (irq == j) && masked j)
masked_after (send_eoi irq ∷ calls) masked = masked_after calls masked

-- The interrupts of the masks are below 16.
abbrev pub are_lines : List PicCall → Bool
are_lines [] = true
are_lines (set_mask irq ∷ calls) = ltb irq 16 && are_lines calls
are_lines (clear_mask irq ∷ calls) = ltb irq 16 && are_lines calls
are_lines (send_eoi irq ∷ calls) = are_lines calls

pub eoi-MasksAre :
    (before p : Ports) (masked : ℕ → Bool) (irq : ℕ)
    → MasksAre before p masked
    → MasksAre before (pic_send_eoi p irq) masked
unfolding pic_send_eoi
eoi-MasksAre before p masked irq m = elim (Bool-cases (leb 8 irq)) [
  | inl second ↦ rw second (
      other-MasksAre before _ masked pic1_cmd pic_eoi
        (other-MasksAre before p masked pic2_cmd pic_eoi m (omega arith) (omega arith) (omega arith)
          (omega arith) refl)
        (omega arith) (omega arith) (omega arith) (omega arith) refl)
  | inr first ↦ rw first (
      other-MasksAre before p masked pic1_cmd pic_eoi m (omega arith) (omega arith) (omega arith)
        (omega arith) refl)
]

run_pic-MasksAre :
    (hardware : Hardware) (before : Ports) (calls : List PicCall) (p : Ports) (masked : ℕ → Bool)
    → ReturnsMasks hardware before
    → are_lines calls ≡ true
    → MasksAre before p masked
    → MasksAre before (run_pic hardware p calls) (masked_after calls masked)
run_pic-MasksAre hardware before [] p masked real lines m = m
run_pic-MasksAre hardware before (set_mask irq ∷ calls) p masked real lines m =
    run_pic-MasksAre hardware before calls _ _ real (ground arith)
      (set-MasksAre hardware before p masked irq real m (ground arith))
run_pic-MasksAre hardware before (clear_mask irq ∷ calls) p masked real lines m =
    run_pic-MasksAre hardware before calls _ _ real (ground arith)
      (clear-MasksAre hardware before p masked irq real m (ground arith))
run_pic-MasksAre hardware before (send_eoi irq ∷ calls) p masked real lines m =
    run_pic-MasksAre hardware before calls _ _ real lines (eoi-MasksAre before p masked irq m)

-- With controllers that return the mask that was written last, after `pic_remap` and any sequence of calls
-- that set and clear masks of interrupts below 16 and send the ends of interrupts, an interrupt below 16 is
-- masked if and only if the last call on it set its mask or there was none.
pub run_pic-masked_after :
    (hardware : Hardware) (before : Ports) (calls : List PicCall) (irq : ℕ)
    → ReturnsMasks hardware before
    → are_lines calls ≡ true
    → irq < 16
    → is_masked (run_pic hardware (pic_remap before) calls).writes irq
      ≡ masked_after calls (λ j. true) irq
run_pic-masked_after hardware before calls irq real lines l =
    (run_pic-MasksAre hardware before calls (pic_remap before) (λ j. true) real lines
        (pic_remap-MasksAre before)).agree
      irq l
