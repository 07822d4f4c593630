-- ===== src/Ipc.antt =====
-- Messages between processes: kernel/src/ipc.c and include/ipc.h. `msg` is the address of the local
-- variable of that name. `ipc_receive` is in two parts, since other threads run between them when
-- it yields: `receive_check` up to `sys_yield`, and `receive_take` from there on.
pub mod Message
pub mod Mailbox
pub mod Wake
pub mod Send
pub mod Refuse
pub mod HandOver
pub mod Receive
pub mod Wait
pub mod EndToEnd
use gummy.Prelude.{
  ℕ, zero, suc, ◌+◌, Bool, true, false, ◌||◌, ◌==◌, ltb, if◌then◌else◌, min, Option, none, some,
}
use gummy.Queue.{Ptr, null, update, queue_remove, queue_push, queue_pop, queue_empty}
use gummy.Memory.{Bytes, memcpy}
use gummy.Words.{load32, store32}
use gummy.RingBuffer.{Memory, ring_buffer_push, ring_buffer_pop, ring_buffer_empty}
use gummy.Sched.{
  Symbols, Kernel, blocked, Outcome, stay, resume, waits, halted, fault, out_of_fuel, and_then,
  with_queues, mailbox_ring, mailbox_waiters,
}
use gummy.Sched.Threads.{sched_ready}
use gummy.Sched.Run.{is_dying}
use gummy.Process.{sched_get_process, sched_get_current_process, sched_get_current_pid}

abbrev pub ipc_queue_size : ℕ
ipc_queue_size = 16

abbrev pub ipc_msg_max : ℕ
ipc_msg_max = 64

-- `sizeof(ipc_message_t)`
abbrev pub message_size : ℕ
message_size = 76

-- A status with the kernel, or a call that does not come back to its caller.
pub data Reply : Type 0 where
  replies : ℕ → Kernel → Reply
  stops : Outcome → Reply

abbrev pub reply_after : ℕ → Outcome → Reply
reply_after e (stay k) = replies e k
reply_after e (resume c k) = stops (resume c k)
reply_after e (waits k) = stops (waits k)
reply_after e halted = stops halted
reply_after e fault = stops fault
reply_after e out_of_fuel = stops out_of_fuel

-- `msg` as `ipc_send` fills it: its data, size, sender and type, in that order.
unfoldable pub fill_message : Bytes → Ptr → ℕ → ℕ → Ptr → ℕ → Bytes
fill_message m msg sender kind payload size =
    let m1 : Bytes = memcpy m (msg + 12) payload size in
    let m2 : Bytes = store32 m1 (msg + 8) size in
    let m3 : Bytes = store32 m2 msg sender in store32 m3 (msg + 4) kind

module _ (sym : Symbols) where
  -- The end of `ipc_send`: the first waiter becomes ready.
  unfoldable pub wake_waiter : Kernel → Ptr → Reply
  wake_waiter k p =
      if queue_empty k.queues (mailbox_waiters p)
      then replies 0 k
      else let (n, s) = queue_pop k.queues (mailbox_waiters p) in
        let k1 : Kernel = record k { queues = s } in
        if n == null then replies 1 k1 else reply_after 0 (sched_ready sym k1 n)

  -- From the push of `msg` on.
  abbrev pub push_message : Kernel → Ptr → Ptr → Reply
  push_message k p msg =
      let (e, m) = ring_buffer_push k.memory (mailbox_ring p) msg in
      let k1 : Kernel = record k { memory = m } in if e == 0 then wake_waiter k1 p else replies 1 k1

  -- From the process that `sched_get_process` found on.
  unfoldable pub send_to : Kernel → Ptr → ℕ → Ptr → ℕ → Ptr → Reply
  send_to k p kind payload size msg =
      if p == null
      then replies 1 k
      else if is_dying (k.process_state p)
      then replies 1 k
      else push_message
          (record k {
            memory = record k.memory {
              bytes = fill_message k.memory.bytes msg (sched_get_current_pid k) kind payload size;
            };
          })
          p msg

  abbrev found : Option Ptr → (Ptr → Reply) → Reply
  found none f = stops out_of_fuel
  found (some p) f = f p

  -- `fuel` bounds the search for the process.
  unfoldable pub ipc_send : ℕ → Kernel → ℕ → ℕ → Ptr → ℕ → Ptr → Reply
  ipc_send fuel k pid kind payload size msg =
      if payload == null || size == 0 || ltb ipc_msg_max size
      then replies 1 k
      else found (sched_get_process k fuel pid) (λ p. send_to k p kind payload size msg)

-- What `receive_check` leads to: a status, the second part at once for the process `p`, or a yield
-- of the thread, which now waits at the mailbox of `p`.
pub data Check : Type 0 where
  refused : ℕ → Check
  takes : Ptr → Check
  yields : Ptr → Outcome → Check

unfoldable pub receive_check : Kernel → Ptr → Ptr → ℕ → Check
receive_check k sender_pid buffer size =
    if sender_pid == null || buffer == null || size == 0 || ltb ipc_msg_max size
    then refused 1
    else let p : Ptr = sched_get_current_process k in
      let t : Ptr = k.current_thread in
      let flags : Bool = k.interrupts in
      if p == null
      then refused 1
      else if ring_buffer_empty k.memory (mailbox_ring p)
      then yields p (
          and_then
            (with_queues (record k { interrupts = false; state = update k.state t blocked })
              (queue_remove k.queues t))
            (λ k1.
              and_then (with_queues k1 (queue_push k1.queues (mailbox_waiters p) t))
                (λ k2. stay (record k2 { interrupts = flags }))))
      else takes p

-- The copy of a message that is in `msg` to the caller.
abbrev pub hand_over : Bytes → Ptr → Ptr → ℕ → Ptr → Bytes
hand_over m sender_pid buffer size msg =
    let m1 : Bytes = store32 m sender_pid (load32 m msg) in
    memcpy m1 buffer (msg + 12) (min size (load32 m1 (msg + 8)))

unfoldable pub receive_take : Memory → Ptr → Ptr → Ptr → ℕ → Ptr → ℕ × Memory
receive_take m p sender_pid buffer size msg =
    let (e, m1) = ring_buffer_pop m (mailbox_ring p) msg in
    if e == 0
    then (0, record m1 { bytes = hand_over m1.bytes sender_pid buffer size msg })
    else (1, m1)
