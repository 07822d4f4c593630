-- ===== src/Ipc/Message.antt =====
-- A message as the bytes of an `ipc_message_t`.
use native.Mathlib.Nat.{add-zero}
use gummy.Prelude.{ℕ, ◌+◌, ◌-◌, ◌^◌, ◌≤◌, ◌<◌, ◌≡◌, refl, ◌≢◌, ◌⊎◌, arith, List, false, ◌∙◌, ap}
use gummy.Queue.{Ptr, null}
use gummy.Memory.{Bytes, memcpy, bytes_at}
use gummy.Memory.Copy.{within, memcpy-reads, bytes_at-eq}
use gummy.Words.{
  load32, store32, load32-store32, store32-outside, word_of, word_of-bytes_at, slice,
  slice-bytes_at,
}
use gummy.Ipc.{fill_message, ipc_msg_max, message_size}

-- `ipc_message_t`, with the `size` bytes of its data that were sent.
pub record Message : Type 0 where
  pub sender_pid : ℕ
  pub kind : ℕ
  pub size : ℕ
  pub payload : List ℕ

-- The message that an element of a mailbox stands for.
unfoldable pub decode : List ℕ → Message
decode e = record {
  sender_pid = word_of e 0;
  kind = word_of e 4;
  size = word_of e 8;
  payload = slice e 12 (word_of e 8);
}

pub load32-eq :
    (m m' : Bytes) (p : ℕ) → ((j : ℕ) → j < 4 → m (p + j) ≡ m' (p + j)) → load32 m p ≡ load32 m' p
unfolding load32
load32-eq m m' p h = ground (arith, h 0, h 1, h 2, h 3, add-zero p)

-- The element that lies at `p`, with `n` bytes.
pub decode-bytes_at :
    (m : Bytes) (p n : ℕ)
    → n ≡ message_size
    → load32 m (p + 8) ≤ ipc_msg_max
    → decode (bytes_at m p n) ≡ record {
      sender_pid = load32 m p;
      kind = load32 m (p + 4);
      size = load32 m (p + 8);
      payload = bytes_at m (p + 12) (load32 m (p + 8));
    }
unfolding decode
decode-bytes_at m p n e l =
    let a = word_of-bytes_at m p n 0 (omega arith) ∙ ap (load32 m) (add-zero p) in
    let b = word_of-bytes_at m p n 4 (omega arith) in
    let c = word_of-bytes_at m p n 8 (omega arith) in
    rw (a, b, c, slice-bytes_at m p n 12 (load32 m (p + 8)) (omega arith)) refl

-- The parts of `msg` after `fill_message`.
module _ (m : Bytes) (msg sender kind payload size : ℕ) (real : msg ≢ null) (given : payload ≢ null)
    (fits : size ≤ ipc_msg_max)
    (away : (payload + size ≤ msg) ⊎ (msg + message_size ≤ payload)) where
  -- The memory after the first, the second and the third step.
  abbrev copied : Bytes
  copied = memcpy m (msg + 12) payload size

  abbrev sized : Bytes
  sized = store32 copied (msg + 8) size

  abbrev signed : Bytes
  signed = store32 sized msg sender

  abbrev filled : Bytes
  filled = fill_message m msg sender kind payload size

  filled_kind : kind < 2 ^ 32 → load32 filled (msg + 4) ≡ kind
  unfolding fill_message
  filled_kind l = load32-store32 _ (msg + 4) kind l

  filled_sender : sender < 2 ^ 32 → load32 filled msg ≡ sender
  unfolding fill_message
  filled_sender l =
      load32-eq _ _ msg (λ j h. store32-outside _ (msg + 4) kind (msg + j) (ground arith))
      ∙ load32-store32 _ msg sender l

  filled_size : load32 filled (msg + 8) ≡ size
  unfolding fill_message
  filled_size =
      load32-eq filled signed (msg + 8)
        (λ j h. store32-outside signed (msg + 4) kind (msg + 8 + j) (ground arith))
      ∙ load32-eq signed sized (msg + 8)
          (λ j h. store32-outside sized msg sender (msg + 8 + j) (ground arith))
      ∙ load32-store32 copied (msg + 8) size (omega arith)

  filled_payload : bytes_at filled (msg + 12) size ≡ bytes_at m payload size
  unfolding fill_message
  filled_payload = bytes_at-eq _ m (msg + 12) payload size (λ j h.
      store32-outside _ (msg + 4) kind (msg + 12 + j) (ground arith)
      ∙ store32-outside _ msg sender (msg + 12 + j) (ground arith)
      ∙ store32-outside _ (msg + 8) size (msg + 12 + j) (ground arith)
      ∙ memcpy-reads m (msg + 12) payload size (msg + 12 + j) (omega arith) given (ground arith)
      ∙ ground (arith, same_place j))
    where
      same_place : (j : ℕ) → msg + 12 + j - (msg + 12) ≡ j
      same_place j = omega arith

  -- Outside of `msg` nothing changes.
  pub filled-outside :
      (a : Ptr)
      → within msg message_size a ≡ false
      → fill_message m msg sender kind payload size a ≡ m a
  unfolding fill_message
  filled-outside a o =
      store32-outside _ (msg + 4) kind a (ground arith)
      ∙ store32-outside _ msg sender a (ground arith)
      ∙ store32-outside _ (msg + 8) size a (ground arith)
      ∙ memcpy-reads m (msg + 12) payload size a (omega arith) given (ground arith)
      ∙ ground arith

  -- What `fill_message` leaves in `msg` is the message.
  pub filled-decode :
      (n : ℕ)
      → n ≡ message_size
      → sender < 2 ^ 32
      → kind < 2 ^ 32
      → decode (bytes_at (fill_message m msg sender kind payload size) msg n) ≡ record {
        sender_pid = sender;
        kind = kind;
        size = size;
        payload = bytes_at m payload size;
      }
  filled-decode n e a b =
      decode-bytes_at filled msg n e (omega (arith, filled_size))
      ∙ rw (filled_sender a, filled_kind b, filled_size, filled_payload) refl

pub decode-size :
    (m : Bytes) (p n : ℕ) → n ≡ message_size → (decode (bytes_at m p n)).size ≡ load32 m (p + 8)
unfolding decode
decode-size m p n e = word_of-bytes_at m p n 8 (omega arith)
