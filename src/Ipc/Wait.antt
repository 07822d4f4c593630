-- ===== src/Ipc/Wait.antt =====
-- The first part of `ipc_receive`, which blocks a thread whose mailbox is empty.
use mathlib.Core.Path.{subst}
use gummy.Prelude.{ℕ, ◌≡◌, refl, ◌≢◌, arith, Bool, false, ◌||◌, ◌==◌, ltb, if◌then◌else◌, ==_of_ne}
use gummy.Queue.{Ptr, null}
use gummy.Queue.Inv.{Queues, Represents}
use gummy.Queue.Remove.{queue_remove-erase}
use gummy.Queue.Push.{queue_push-enqueue}
use gummy.RingBuffer.{ring_buffer_empty}
use gummy.Sched.{Kernel, blocked, Outcome, stay, mailbox_ring, mailbox_waiters}
use gummy.Sched.Moves.{enqueue-without, moved, MovesTo}
use gummy.Process.{sched_get_current_process}
use gummy.Ipc.{ipc_msg_max, refused, takes, yields, receive_check}

-- What `ipc_receive` refuses.
abbrev pub refuses_receive : Ptr → Ptr → ℕ → Bool
refuses_receive sender_pid buffer size =
    sender_pid == null || buffer == null || size == 0 || ltb ipc_msg_max size

current_process-running :
    (k : Kernel)
    → k.current_thread ≢ null
    → k.process k.current_thread ≢ null
    → sched_get_current_process k ≡ k.process k.current_thread
unfolding sched_get_current_process
current_process-running k runs owned = ground arith

-- For a running thread with a process, where the queues are in order: arguments that are not allowed
-- are refused with 1; with a message in the mailbox of the process the call goes on; and with none the
-- thread is moved to the end of the mailbox's waiters as blocked and yields, with the interrupt flag as
-- it was.
pub receive_check-waits :
    (k : Kernel) {f : Queues} (sender_pid buffer : Ptr) (size : ℕ)
    → Represents k.queues f
    → k.current_thread ≢ null
    → k.process k.current_thread ≢ null
    → let p = k.process k.current_thread in
      (o : Outcome) × MovesTo f k (mailbox_waiters p) blocked k.current_thread o
      × (receive_check k sender_pid buffer size ≡ (
          if refuses_receive sender_pid buffer size
          then refused 1
          else if (k.memory.ring (mailbox_ring p)).count == 0
          then yields p o
          else takes p))
unfolding receive_check ring_buffer_empty
receive_check-waits k {f} sender_pid buffer size r runs owned =
    let t : Ptr = k.current_thread in
    let q : Ptr = mailbox_waiters (k.process t) in
    let real : q ≢ null = omega arith in
    let ring : (mailbox_ring (k.process t) == null) ≡ false = ground arith in
    let (s1, e1, r1) = queue_remove-erase t r runs in
    let (s2, e2, r2) = queue_push-enqueue q t r1 real runs in
    (
      stay (moved k t blocked s2),
      (s2, refl, subst (λ g. Represents s2 g) (enqueue-without q t r) r2),
      rw (current_process-running k runs owned, ==_of_ne owned, ring, e1, e2) refl,
    )
