-- ===== src/Ipc/HandOver.antt =====
-- The copy that ends `ipc_receive`, from `msg` to the variables of the caller.
use gummy.Prelude.{ℕ, ◌+◌, ◌^◌, ◌≤◌, ◌<◌, ◌≡◌, ◌≢◌, ◌⊎◌, arith, false, ap, ◌∙◌, min}
use gummy.Queue.{Ptr, null}
use gummy.Memory.{Bytes, memcpy, bytes_at}
use gummy.Memory.Copy.{within, memcpy-reads, bytes_at-eq}
use gummy.Words.{load32, store32, load32-store32, store32-outside}
use gummy.RingBuffer.Slots.{memcpy-target}
use gummy.Ipc.{ipc_msg_max, message_size, hand_over}
use gummy.Ipc.Message.{load32-eq}

-- The region of `n` bytes from `p` on and that of `k` bytes from `q` on do not meet.
abbrev pub AreDisjoint : Ptr → ℕ → Ptr → ℕ → Type 0
AreDisjoint p n q k = (p + n ≤ q) ⊎ (q + k ≤ p)

-- The copy of the message in `msg` to the caller.
module _ (m : Bytes) (sender_pid buffer size msg : ℕ) (sender_real : sender_pid ≢ null)
    (buffer_real : buffer ≢ null) (msg_real : msg ≢ null)
    (sender_msg : AreDisjoint sender_pid 4 msg message_size)
    (buffer_msg : AreDisjoint buffer size msg message_size)
    (buffer_sender : AreDisjoint buffer size sender_pid 4)
    (small : load32 m (msg + 8) ≤ ipc_msg_max) where
  abbrev pub stored : Bytes
  stored = store32 m sender_pid (load32 m msg)

  abbrev pub amount : ℕ
  amount = min size (load32 m (msg + 8))

  stored_size : load32 stored (msg + 8) ≡ load32 m (msg + 8)
  stored_size =
      load32-eq stored m (msg + 8)
        (λ j h. store32-outside m sender_pid (load32 m msg) (msg + 8 + j) (ground arith))

  abbrev pub handed : Bytes
  handed = memcpy stored buffer (msg + 12) amount

  pub hand_over-handed : hand_over m sender_pid buffer size msg ≡ handed
  hand_over-handed = ap (λ n. memcpy stored buffer (msg + 12) (min size n)) stored_size

  pub handed_sender : load32 m msg < 2 ^ 32 → load32 handed sender_pid ≡ load32 m msg
  handed_sender word =
      load32-eq handed stored sender_pid (λ j h.
        memcpy-reads stored buffer (msg + 12) amount (sender_pid + j) buffer_real (omega arith)
          (omega arith)
        ∙ ground arith)
      ∙ load32-store32 m sender_pid (load32 m msg) word

  pub handed_payload : bytes_at handed buffer amount ≡ bytes_at m (msg + 12) amount
  handed_payload =
      memcpy-target stored buffer (msg + 12) amount buffer_real (omega arith) (omega arith)
      ∙ bytes_at-eq stored m (msg + 12) (msg + 12) amount
          (λ j h. store32-outside m sender_pid (load32 m msg) (msg + 12 + j) (ground arith))

  pub handed_outside :
      (a : Ptr) → within sender_pid 4 a ≡ false → within buffer size a ≡ false → handed a ≡ m a
  handed_outside a o w =
      memcpy-reads stored buffer (msg + 12) amount a buffer_real (omega arith) (omega arith)
      ∙ ground (arith, store32-outside m sender_pid (load32 m msg) a o)
