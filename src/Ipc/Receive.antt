-- ===== src/Ipc/Receive.antt =====
-- `ipc_receive` takes the oldest message of the mailbox.
use mathlib.Core.List.{map}
use native.Mathlib.Nat.{add-zero}
use gummy.Prelude.{
  ℕ, zero, suc, ◌+◌, ◌^◌, ◌≤◌, ◌<◌, ◌≡◌, refl, ◌≢◌, arith, List, [], ◌∷◌, ap, ◌∙◌, sym, length, min,
  Option, some,
}
use gummy.Queue.{Ptr, null}
use gummy.Memory.{Bytes, bytes_at}
use gummy.Words.{load32, slice, slice-bytes_at}
use gummy.RingBuffer.{RingBuffer, Memory, ring_buffer_pop}
use gummy.RingBuffer.Slots.{length-from_to}
use gummy.RingBuffer.Inv.{IsOutside, contents, element}
use gummy.RingBuffer.Fifo.{fifo_pop}
use gummy.RingBuffer.Pop.{Pops, delivered, pop_refines, pop-none, pop-shape}
use gummy.Sched.{mailbox_ring}
use gummy.Ipc.{ipc_msg_max, message_size, hand_over, receive_take}
use gummy.Ipc.Message.{Message, decode, decode-bytes_at, decode-size}
use gummy.Ipc.HandOver.{
  AreDisjoint, handed, hand_over-handed, handed_sender, handed_payload, handed_outside,
}
use gummy.Ipc.Mailbox.{messages, IsMailbox, contents-frame}

-- Where the caller's variables and `msg` lie.
pub record Receivable (b : RingBuffer) (sender_pid buffer size msg : ℕ) : Type 0 where
  pub mailbox : IsMailbox b
  pub sender_real : sender_pid ≢ null
  pub buffer_real : buffer ≢ null
  pub msg_real : msg ≢ null
  pub msg_outside : IsOutside b msg b.elem_size
  pub sender_outside : IsOutside b sender_pid 4
  pub buffer_outside : IsOutside b buffer size
  pub sender_msg : AreDisjoint sender_pid 4 msg message_size
  pub buffer_msg : AreDisjoint buffer size msg message_size
  pub buffer_sender : AreDisjoint buffer size sender_pid 4

some_eq : {a b : List ℕ} → some a ≡ some b → a ≡ b
some_eq e = cc

-- What a successful pop says of its result.
unpack :
    (m : Memory) (r out : Ptr) (c : List ℕ) (cs : List (List ℕ)) (o : ℕ × Memory)
    → ◌≡◌ {A = ℕ × Option (List ℕ) × List (List ℕ)}
        (o.0, delivered m r out o, contents o.1 r)
        (0, some c, cs)
    → (o.0 ≡ 0) × (bytes_at o.1.bytes out (m.ring r).elem_size ≡ c) × (contents o.1 r ≡ cs)
unpack m r out c cs (zero, m') h = (refl, some_eq (ap (λ x. x.1) h), ap (λ x. x.2) h)
unpack m r out c cs (suc e, m') h = absurd (omega (arith, ap (λ x. x.0) h))

map-nil : (es : List (List ℕ)) → map decode es ≡ [] → es ≡ []
map-nil [] e = refl
map-nil (c ∷ cs) e = cc

-- The first element of a mailbox whose first message is known.
map-cons :
    (es : List (List ℕ)) (x : Message) (xs : List Message)
    → map decode es ≡ x ∷ xs
    → (c : List ℕ) × (cs : List (List ℕ)) × (es ≡ c ∷ cs) × (decode c ≡ x) × (map decode cs ≡ xs)
map-cons [] x xs e = cc
map-cons (c ∷ cs) x xs e = (c, cs, refl, cc, cc)

-- On an empty mailbox, `ipc_receive` answers 1 and changes nothing.
pub receive_take-empty :
    (m : Memory) (p sender_pid buffer size msg : ℕ)
    → Receivable (m.ring (mailbox_ring p)) sender_pid buffer size msg
    → messages m p ≡ []
    → receive_take m p sender_pid buffer size msg ≡ (1, m)
unfolding receive_take
receive_take-empty m p sender_pid buffer size msg ok e =
    rw
      (pop-none m (mailbox_ring p) msg (omega arith) ok.mailbox.valid ok.msg_real ok.msg_outside
        none_left)
      refl
  where
    none_left : (m.ring (mailbox_ring p)).count ≡ 0
    none_left = omega (
      arith,
      length-from_to (element m.bytes (m.ring (mailbox_ring p))) 0 (m.ring (mailbox_ring p)).count,
      ap length (map-nil (contents m (mailbox_ring p)) e),
    )

module _ (m : Memory) (p sender_pid buffer size msg : ℕ)
    (ok : Receivable (m.ring (mailbox_ring p)) sender_pid buffer size msg) where
  pops : Pops m (mailbox_ring p) msg (ring_buffer_pop m (mailbox_ring p) msg)
  pops =
      pop_refines m (mailbox_ring p) msg (omega arith) ok.msg_real ok.mailbox.valid ok.msg_outside

  abbrev popped : Memory
  popped = (ring_buffer_pop m (mailbox_ring p) msg).1

  -- The pop of the element `c` in front of `cs`.
  pop-cons :
      (c : List ℕ) (cs : List (List ℕ))
      → contents m (mailbox_ring p) ≡ c ∷ cs
      → ((ring_buffer_pop m (mailbox_ring p) msg).0 ≡ 0)
        × (bytes_at popped.bytes msg (m.ring (mailbox_ring p)).elem_size ≡ c)
        × (contents popped (mailbox_ring p) ≡ cs)
  pop-cons c cs e =
      unpack m (mailbox_ring p) msg c cs (ring_buffer_pop m (mailbox_ring p) msg)
        (pops.0 ∙ ap fifo_pop e)

  -- What is known of `popped` when the element stands for the message `x`.
  popped-message :
      (x : Message)
      → decode (bytes_at popped.bytes msg (m.ring (mailbox_ring p)).elem_size) ≡ x
      → x.size ≤ ipc_msg_max
      → (load32 popped.bytes msg ≡ x.sender_pid)
        × (load32 popped.bytes (msg + 8) ≡ x.size)
        × (bytes_at popped.bytes (msg + 12) x.size ≡ x.payload)
  popped-message x e small =
      let n = (m.ring (mailbox_ring p)).elem_size in
      let sized : load32 popped.bytes (msg + 8) ≡ x.size =
        sym (decode-size popped.bytes msg n ok.mailbox.slot_size) ∙ ap (λ y. y.size) e in
      let whole = sym (decode-bytes_at popped.bytes msg n ok.mailbox.slot_size (omega arith)) ∙ e in
      (
        ap (λ y. y.sender_pid) whole,
        sized,
        ap (bytes_at popped.bytes (msg + 12)) (sym sized) ∙ ap (λ y. y.payload) whole,
      )

  -- The memory after the copy to the caller.
  abbrev taken : Memory
  taken = record popped { bytes = hand_over popped.bytes sender_pid buffer size msg }

  take-taken :
      (ring_buffer_pop m (mailbox_ring p) msg).0 ≡ 0
      → receive_take m p sender_pid buffer size msg ≡ (0, taken)
  unfolding receive_take
  take-taken z = rw z refl

  copy :
      (small : load32 popped.bytes (msg + 8) ≤ ipc_msg_max)
      → hand_over popped.bytes sender_pid buffer size msg
        ≡ handed popped.bytes sender_pid buffer size msg ok.sender_real ok.buffer_real ok.msg_real
            ok.sender_msg ok.buffer_msg ok.buffer_sender small
  copy small =
      hand_over-handed popped.bytes sender_pid buffer size msg ok.sender_real ok.buffer_real
        ok.msg_real ok.sender_msg ok.buffer_msg ok.buffer_sender small

  taken-messages :
      load32 popped.bytes (msg + 8) ≤ ipc_msg_max
      → messages taken p ≡ map decode (contents popped (mailbox_ring p))
  taken-messages small =
      let (a, b, c) = pop-shape m (mailbox_ring p) msg in
      ap (map decode) (
        contents-frame popped taken (mailbox_ring p) pops.1 refl (λ x h l.
          ap (λ (f : Bytes). f x) (copy small)
          ∙ handed_outside popped.bytes sender_pid buffer size msg ok.sender_real ok.buffer_real
              ok.msg_real ok.sender_msg ok.buffer_msg ok.buffer_sender small x
              (ground (arith, a, b, c, ok.sender_outside))
              (ground (arith, a, b, c, ok.buffer_outside))))

  -- On a mailbox whose first message is `x`, `ipc_receive` after its wait answers 0, leaves the other
  -- messages in their order, stores the sender of `x` at `sender_pid` and copies as much of the data
  -- of `x` to `buffer` as fits there. The hypotheses: the mailbox is in order, the variables of the
  -- caller, `msg` and the storage lie apart, and the size of `x` is at most 64, its sender a word.
  pub receive_take-oldest :
      (x : Message) (xs : List Message)
      → messages m p ≡ x ∷ xs
      → x.size ≤ ipc_msg_max
      → x.sender_pid < 2 ^ 32
      → let (e, m') = receive_take m p sender_pid buffer size msg in
        (e ≡ 0)
        × (messages m' p ≡ xs)
        × (load32 m'.bytes sender_pid ≡ x.sender_pid)
        × (bytes_at m'.bytes buffer (min size x.size) ≡ slice x.payload 0 (min size x.size))
  receive_take-oldest x xs e small word =
      let (c, cs, ec, ed, es) = map-cons (contents m (mailbox_ring p)) x xs e in
      let (z, b, rest) = pop-cons c cs ec in
      let (sender, sized, payload) = popped-message x (ap decode b ∙ ed) small in
      let fits : load32 popped.bytes (msg + 8) ≤ ipc_msg_max = omega arith in
      rw (take-taken z) (
        refl,
        taken-messages fits ∙ ap (map decode) rest ∙ es,
        ap (λ f. load32 f sender_pid) (copy fits)
            ∙ handed_sender popped.bytes sender_pid buffer size msg ok.sender_real ok.buffer_real
                ok.msg_real ok.sender_msg ok.buffer_msg ok.buffer_sender fits
                (omega (arith, sender))
            ∙ sender,
        ap (λ n. bytes_at taken.bytes buffer (min size n)) (sym sized)
            ∙ ap (λ f. bytes_at f buffer (min size (load32 popped.bytes (msg + 8)))) (copy fits)
            ∙ handed_payload popped.bytes sender_pid buffer size msg ok.sender_real ok.buffer_real
                ok.msg_real ok.sender_msg ok.buffer_msg ok.buffer_sender fits
            ∙ ap (λ n. bytes_at popped.bytes (msg + 12) (min size n)) sized
            ∙ sym (first_bytes x.size payload),
      )
    where
      first_bytes :
          (n : ℕ)
          → bytes_at popped.bytes (msg + 12) n ≡ x.payload
          → slice x.payload 0 (min size n) ≡ bytes_at popped.bytes (msg + 12) (min size n)
      first_bytes n q =
          ap (λ l. slice l 0 (min size n)) (sym q)
          ∙ slice-bytes_at popped.bytes (msg + 12) n 0 (min size n) (omega arith)
          ∙ ap (λ a. bytes_at popped.bytes a (min size n)) (add-zero (msg + 12))
