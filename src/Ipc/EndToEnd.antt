-- ===== src/Ipc/EndToEnd.antt =====
-- A message from `ipc_send` to the end of `ipc_receive`, kernel/src/ipc.c.
use native.Mathlib.Nat.{add-zero}
use gummy.Prelude.{ℕ, ◌<◌, ◌≡◌, ◌≢◌, arith, false, List, [], ◌∷◌, ◌++◌, length, min, ap, ◌∙◌, sym}
use gummy.Queue.{Ptr, null}
use gummy.Queue.Inv.{Queues, Represents}
use gummy.Memory.{bytes_at}
use gummy.Words.{load32, slice-bytes_at}
use gummy.RingBuffer.{RingBuffer, Memory}
use gummy.RingBuffer.Push.{push-buf}
use gummy.Sched.{Symbols, Kernel, mailbox_ring}
use gummy.Sched.Run.{is_dying}
use gummy.Sched.Moves.{AreApart}
use gummy.Process.{sched_get_current_pid}
use gummy.Process.Find.{Processes, with_pid}
use gummy.Ipc.{replies, ipc_send, receive_take, ipc_queue_size}
use gummy.Ipc.Wake.{after_wake}
use gummy.Ipc.Mailbox.{messages, IsMailbox}
use gummy.Ipc.Send.{Sendable, message, filled, sent_memory, ipc_send-sent}
use gummy.Ipc.Receive.{Receivable, receive_take-oldest}

-- The conditions of a receive, on a mailbox with the same storage.
same-Receivable :
    (b b' : RingBuffer) (sender_pid buffer size msg : ℕ)
    → IsMailbox b'
    → b'.buf ≡ b.buf
    → Receivable b sender_pid buffer size msg
    → Receivable b' sender_pid buffer size msg
same-Receivable b b' sender_pid buffer size msg v same r =
    let slots : b'.capacity ≡ b.capacity = v.slots ∙ sym r.mailbox.slots in
    let slot_size : b'.elem_size ≡ b.elem_size = v.slot_size ∙ sym r.mailbox.slot_size in
    record {
      mailbox = v;
      sender_real = r.sender_real;
      buffer_real = r.buffer_real;
      msg_real = r.msg_real;
      msg_outside = rw (same, slots, slot_size) r.msg_outside;
      sender_outside = rw (same, slots, slot_size) r.sender_outside;
      buffer_outside = rw (same, slots, slot_size) r.buffer_outside;
      sender_msg = r.sender_msg;
      buffer_msg = r.buffer_msg;
      buffer_sender = r.buffer_sender;
    }

-- What a receive answers that takes the only message.
abbrev pub Takes : Ptr → ℕ → Ptr → ℕ → List ℕ → ℕ → ℕ × Memory → Type 0
Takes p sender_pid buffer n sent sender (e, m') =
    (e ≡ 0)
    × (messages m' p ≡ [])
    × (load32 m'.bytes sender_pid ≡ sender)
    × (bytes_at m'.bytes buffer n ≡ sent)

module _ (sym : Symbols) (k : Kernel) (f : Queues) (ps : List Ptr)
    (fuel pid kind payload size msg : ℕ) (apart : AreApart sym) (r : Represents k.queues f)
    (procs : Processes k ps) (enough : length ps < fuel) (real : with_pid k pid ps ≢ null)
    (alive : is_dying (k.process_state (with_pid k pid ps)) ≡ false)
    (ok : Sendable
      (k.memory.ring (mailbox_ring (with_pid k pid ps)))
      (sched_get_current_pid k)
      kind
      payload
      size
      msg)
    (sender_pid buffer room taken_msg : ℕ)
    (receiver : Receivable
      (k.memory.ring (mailbox_ring (with_pid k pid ps)))
      sender_pid
      buffer
      room
      taken_msg) where
  -- With the mailbox of the receiver empty, `ipc_send` returns 0 and `ipc_receive` after its wait then
  -- returns 0: it leaves the mailbox empty, stores the PID of the sender, and copies to the buffer the bytes
  -- that lay in the sender's data when it sent, as many as fit. The hypotheses are those of the two calls:
  -- the queues and the processes in order, the receiver alive, the sizes of the data and the mailbox in
  -- order, and the variables of both, the storage and the data apart.
  pub ipc_send-receive_take :
      messages k.memory (with_pid k pid ps) ≡ []
      → (k' : Kernel) × (ipc_send sym fuel k pid kind payload size msg ≡ replies 0 k')
        × Takes
            (with_pid k pid ps)
            sender_pid
            buffer
            (min room size)
            (bytes_at k.memory.bytes payload (min room size))
            (sched_get_current_pid k)
            (receive_take k'.memory (with_pid k pid ps) sender_pid buffer room taken_msg)
  ipc_send-receive_take empty =
      let p : Ptr = with_pid k pid ps in
      let none_before : length (messages k.memory p) < ipc_queue_size = rw empty (omega arith) in
      let (s, answers, added, mailbox, _) =
        ipc_send-sent sym k f ps fuel pid kind payload size msg apart r procs enough real alive ok
          none_before in
      let m : Memory =
        sent_memory sym k f ps fuel pid kind payload size msg apart r procs enough real alive ok in
      let only : messages m p ≡ message k kind payload size ∷ [] =
        added ∙ ap (λ xs. xs ++ message k kind payload size ∷ []) empty in
      let same = push-buf (filled k p kind payload size msg ok) (mailbox_ring p) msg in
      let (e, rest, sender, bytes) =
        receive_take-oldest m p sender_pid buffer room taken_msg
          (same-Receivable (k.memory.ring (mailbox_ring p)) (m.ring (mailbox_ring p)) sender_pid
            buffer room taken_msg mailbox same receiver)
          (message k kind payload size) [] only ok.fits ok.sender_word in
      (
        after_wake (record k { memory = m }) p f s,
        answers,
        (
          e,
          rest,
          sender,
          bytes
              ∙ slice-bytes_at k.memory.bytes payload size 0 (min room size) (omega arith)
              ∙ ap (λ a. bytes_at k.memory.bytes a (min room size)) (add-zero payload),
        ),
      )
