-- ===== src/Ipc/Mailbox.antt =====
-- A mailbox as a list of messages.
use mathlib.Core.List.{map}
use gummy.Prelude.{ℕ, suc, ◌+◌, ◌*◌, ◌≤◌, ◌<◌, ◌≡◌, arith, List, ap, ◌∙◌, length, refl, [], ◌∷◌}
use gummy.Queue.{Ptr}
use gummy.Memory.Copy.{bytes_at-eq}
use gummy.RingBuffer.{RingBuffer, Memory, slot}
use gummy.RingBuffer.Slots.{from_to-eq, slot_inside}
use gummy.RingBuffer.Inv.{IsValid, contents, index, index-lt, slot_lem}
use gummy.Sched.{mailbox_ring}
use gummy.Ipc.{ipc_queue_size, message_size}
use gummy.Ipc.Message.{Message, decode}

-- The messages in the mailbox of `p`, oldest first.
abbrev pub messages : Memory → Ptr → List Message
messages m p = map decode (contents m (mailbox_ring p))

-- The ring buffer of a mailbox, as `sched_create_process` initialises it.
pub record IsMailbox (b : RingBuffer) : Type 0 where
  pub valid : IsValid b
  pub slots : b.capacity ≡ ipc_queue_size
  pub slot_size : b.elem_size ≡ message_size

-- A change outside the storage leaves what a ring buffer holds.
pub contents-frame :
    (m m' : Memory) (r : Ptr)
    → IsValid (m.ring r)
    → m'.ring ≡ m.ring
    → ((a : Ptr)
        → (m.ring r).buf ≤ a
        → a < (m.ring r).buf + (m.ring r).capacity * (m.ring r).elem_size
        → m'.bytes a ≡ m.bytes a)
    → contents m' r ≡ contents m r
contents-frame m m' r v e same =
    ap (λ (ring : Ptr → RingBuffer). contents (record { bytes = m'.bytes; ring = ring }) r) e
    ∙ from_to-eq _ _ 0 0 (m.ring r).count (λ k l.
      let i = index (m.ring r) (0 + k) in
      let h = index-lt (m.ring r) (0 + k) v in
      bytes_at-eq m'.bytes m.bytes (slot (m.ring r) i) (slot (m.ring r) i) (m.ring r).elem_size
        (λ j g. same (slot (m.ring r) i + j) (omega (arith, slot_lem (m.ring r) i v h)) (
          omega (
            arith,
            slot_lem (m.ring r) i v h,
            slot_inside i (m.ring r).capacity (m.ring r).elem_size h,
          ))))

pub length-map : (xs : List (List ℕ)) → length (map decode xs) ≡ length xs
length-map [] = refl
length-map (x ∷ xs) = ap suc (length-map xs)
