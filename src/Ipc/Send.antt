-- ===== src/Ipc/Send.antt =====
-- `ipc_send` puts a message in a mailbox and wakes the first thread that waits there.
use mathlib.Core.Path.{ap₂}
use mathlib.Core.List.{map, map-append}
use gummy.Prelude.{
  ℕ, ◌+◌, ◌^◌, ◌≤◌, ◌<◌, ◌≡◌, refl, ◌≢◌, ◌⊎◌, arith, false, List, [], ◌∷◌, ◌++◌, length, ◌||◌, ◌==◌,
  leb, ltb, ap, ◌∙◌, ==_of_ne,
}
use gummy.Queue.{Ptr, null, Store}
use gummy.Queue.Inv.{Queues, Represents}
use gummy.Memory.{bytes_at}
use gummy.RingBuffer.{RingBuffer, Memory, ring_buffer_push}
use gummy.RingBuffer.Inv.{IsOutside, contents}
use gummy.RingBuffer.Push.{Pushes, push_refines, push-shape}
use gummy.Sched.{Symbols, Kernel, mailbox_ring}
use gummy.Sched.Run.{is_dying}
use gummy.Sched.Moves.{AreApart}
use gummy.Process.{sched_get_current_pid}
use gummy.Process.Find.{Processes, with_pid, sched_get_process-with_pid}
use gummy.Ipc.{ipc_msg_max, ipc_queue_size, message_size, replies, fill_message, send_to, ipc_send}
use gummy.Ipc.Message.{Message, decode, filled-decode, filled-outside}
use gummy.Ipc.Wake.{woken, after_wake, wake_waiter-wakes}
use gummy.Ipc.Mailbox.{messages, IsMailbox, contents-frame, length-map}

-- Where `msg` and the data to send lie, and that the words fit.
pub record Sendable (b : RingBuffer) (sender kind payload size msg : ℕ) : Type 0 where
  pub mailbox : IsMailbox b
  pub msg_real : msg ≢ null
  pub msg_outside : IsOutside b msg b.elem_size
  pub payload_real : payload ≢ null
  pub payload_away : (payload + size ≤ msg) ⊎ (msg + message_size ≤ payload)
  pub some_data : 0 < size
  pub fits : size ≤ ipc_msg_max
  pub sender_word : sender < 2 ^ 32
  pub kind_word : kind < 2 ^ 32

-- The message that `ipc_send` is asked to send.
abbrev pub message : Kernel → ℕ → Ptr → ℕ → Message
message k kind payload size = record {
  sender_pid = sched_get_current_pid k;
  kind = kind;
  size = size;
  payload = bytes_at k.memory.bytes payload size;
}

module _ (k : Kernel) (p : Ptr) (kind payload size msg : ℕ)
    (ok : Sendable
      (k.memory.ring (mailbox_ring p))
      (sched_get_current_pid k)
      kind
      payload
      size
      msg) where
  -- The memory when `msg` is filled.
  abbrev pub filled : Memory
  filled = record k.memory {
    bytes = fill_message k.memory.bytes msg (sched_get_current_pid k) kind payload size;
  }

  filled-messages : messages filled p ≡ messages k.memory p
  filled-messages = ap (map decode) (
      contents-frame k.memory filled (mailbox_ring p) ok.mailbox.valid refl (λ a h l.
        filled-outside k.memory.bytes msg (sched_get_current_pid k) kind payload size ok.msg_real
          ok.payload_real ok.fits ok.payload_away a
          (ground (arith, ok.msg_outside, ok.mailbox.slot_size))))

  pushes : Pushes filled (mailbox_ring p) msg (ring_buffer_push filled (mailbox_ring p) msg)
  pushes =
      push_refines filled (mailbox_ring p) msg (omega arith) ok.msg_real ok.mailbox.valid
        ok.msg_outside

  new-decode :
      decode (bytes_at filled.bytes msg (k.memory.ring (mailbox_ring p)).elem_size)
      ≡ message k kind payload size
  new-decode =
      filled-decode k.memory.bytes msg (sched_get_current_pid k) kind payload size ok.msg_real
        ok.payload_real ok.fits ok.payload_away _ ok.mailbox.slot_size ok.sender_word ok.kind_word

  pushed-IsMailbox :
      IsMailbox ((ring_buffer_push filled (mailbox_ring p) msg).1.ring (mailbox_ring p))
  pushed-IsMailbox = record {
    valid = pushes.1;
    slots = (push-shape filled (mailbox_ring p) msg).0 ∙ ok.mailbox.slots;
    slot_size = (push-shape filled (mailbox_ring p) msg).1 ∙ ok.mailbox.slot_size;
  }

  -- With room in the mailbox, the push succeeds and adds the message.
  push-room :
      length (messages k.memory p) < ipc_queue_size
      → ((ring_buffer_push filled (mailbox_ring p) msg).0 ≡ 0)
        × (messages (ring_buffer_push filled (mailbox_ring p) msg).1 p
            ≡ messages k.memory p ++ message k kind payload size ∷ [])
  push-room room = (
    ap (λ x. x.0) outcome,
    ap (λ x. map decode x.1) outcome
        ∙ map-append decode (contents filled (mailbox_ring p)) _
        ∙ ap₂ (λ xs x. xs ++ x ∷ []) filled-messages new-decode,
  )
    where
      few :
          leb (k.memory.ring (mailbox_ring p)).capacity (length (contents filled (mailbox_ring p)))
          ≡ false
      few = ground (
        arith,
        ok.mailbox.slots,
        length-map (contents filled (mailbox_ring p)),
        ap (length {A = Message}) filled-messages,
        room,
      )

      outcome :
          ◌≡◌ {A = ℕ × List (List ℕ)}
            (
              (ring_buffer_push filled (mailbox_ring p) msg).0,
              contents (ring_buffer_push filled (mailbox_ring p) msg).1 (mailbox_ring p),
            )
            (
              0,
              contents filled (mailbox_ring p)
                  ++ bytes_at filled.bytes msg (k.memory.ring (mailbox_ring p)).elem_size ∷ [],
            )
      outcome = pushes.0 ∙ (rw few refl)

-- Sending to a process that is not dying, with room in its mailbox.
module _ (sym : Symbols) (k : Kernel) (f : Queues) (ps : List Ptr)
    (fuel pid kind payload size msg : ℕ) (apart : AreApart sym) (r : Represents k.queues f)
    (procs : Processes k ps) (enough : length ps < fuel) (real : with_pid k pid ps ≢ null)
    (alive : is_dying (k.process_state (with_pid k pid ps)) ≡ false)
    (ok : Sendable
      (k.memory.ring (mailbox_ring (with_pid k pid ps)))
      (sched_get_current_pid k)
      kind
      payload
      size
      msg) where
  -- The memory when the message is in the mailbox.
  abbrev pub sent_memory : Memory
  sent_memory =
      (ring_buffer_push (filled k (with_pid k pid ps) kind payload size msg ok)
        (mailbox_ring (with_pid k pid ps)) msg).1

  pub ipc_send-sent :
      length (messages k.memory (with_pid k pid ps)) < ipc_queue_size
      → (s : Store) × (ipc_send sym fuel k pid kind payload size msg
          ≡ replies 0 (after_wake (record k { memory = sent_memory }) (with_pid k pid ps) f s))
        × (messages sent_memory (with_pid k pid ps)
            ≡ messages k.memory (with_pid k pid ps) ++ message k kind payload size ∷ [])
        × IsMailbox (sent_memory.ring (mailbox_ring (with_pid k pid ps)))
        × Represents s (woken sym (with_pid k pid ps) f)
  unfolding ipc_send send_to
  ipc_send-sent room =
      let p = with_pid k pid ps in
      let (status, added) = push-room k p kind payload size msg ok room in
      let (s, e, r') = wake_waiter-wakes sym (record k { memory = sent_memory }) f p apart r in
      (
        s,
        rw
            (
              args,
              sched_get_process-with_pid k ps fuel pid procs enough,
              ==_of_ne real,
              alive,
              status,
              e,
            )
            refl,
        added,
        pushed-IsMailbox k p kind payload size msg ok,
        r',
      )
    where
      args : (payload == null || size == 0 || ltb ipc_msg_max size) ≡ false
      args = ground (arith, ok.payload_real, ok.some_data, ok.fits)

  -- `ipc_send` returns 0, adds the message at the end of the mailbox of the process with the PID,
  -- and moves the first thread that waits there, if any, to the ready queue. The hypotheses: the
  -- queues and the list of processes are in order, the process exists and is not dying, the mailbox
  -- is in order and has room, `msg` and the data lie apart, and the size is from 1 to 64.
  pub ipc_send-delivers :
      length (messages k.memory (with_pid k pid ps)) < ipc_queue_size
      → (m : Memory) × (s : Store) × (ipc_send sym fuel k pid kind payload size msg
          ≡ replies 0 (after_wake (record k { memory = m }) (with_pid k pid ps) f s))
        × (messages m (with_pid k pid ps)
            ≡ messages k.memory (with_pid k pid ps) ++ message k kind payload size ∷ [])
        × IsMailbox (m.ring (mailbox_ring (with_pid k pid ps)))
        × Represents s (woken sym (with_pid k pid ps) f)
  ipc_send-delivers room =
      let (s, answers, added, mailbox, r') = ipc_send-sent room in
      (sent_memory, s, answers, added, mailbox, r')
