-- ===== src/Tests/IpcTests.antt =====
-- The messages and the search for processes at a concrete kernel.
use gummy.Prelude.{◌==◌, if◌then◌else◌, ℕ, ◌≡◌, refl, arith, ◌++◌, [], ◌∷◌, inl, inr}
use gummy.Queue.{update, Store}
use gummy.Queue.Inv.{Represents}
use gummy.Memory.{bytes_at}
use gummy.Words.{load32, word_of}
use gummy.RingBuffer.{Memory}
use gummy.RingBuffer.Inv.{IsValid}
use gummy.Sched.{Kernel, Outcome, blocked, mailbox_ring, mailbox_waiters}
use gummy.Sched.Moves.{MovesTo}
use gummy.Process.{sched_get_current_pid}
use gummy.Process.Find.{Processes}
use gummy.Ipc.{replies, ipc_send, receive_take, refused, takes, yields, receive_check}
use gummy.Ipc.Wake.{woken, after_wake}
use gummy.Ipc.Message.{decode}
use gummy.Ipc.Mailbox.{messages, IsMailbox}
use gummy.Ipc.Send.{Sendable, message, ipc_send-delivers}
use gummy.Ipc.Receive.{Receivable, receive_take-oldest}
use gummy.Ipc.EndToEnd.{Takes, ipc_send-receive_take}
use gummy.Ipc.Wait.{refuses_receive, receive_check-waits}
use gummy.Tests.SchedTests.{symbols, symbols-AreApart, queues, store-Represents, mailbox, kernel}

pub kernel-Processes : Processes kernel (4000 ∷ 2000 ∷ 1000 ∷ [])
kernel-Processes = record {
  no_null = refl;
  once = refl;
  first = refl;
  after = λ p h. ground arith;
  before = λ p h. ground arith;
}

mailbox-IsMailbox : IsMailbox mailbox
mailbox-IsMailbox = record {
  valid = record {
    real = omega arith;
    some_slot = omega arith;
    word = omega arith;
    fits = omega arith;
    head_in = omega arith;
    count_in = omega arith;
    tail_at = refl;
  };
  slots = refl;
  slot_size = refl;
}

sendable : Sendable mailbox (sched_get_current_pid kernel) 9 40000 5 30000
unfolding sched_get_current_pid
sendable = record {
  mailbox = mailbox-IsMailbox;
  msg_real = omega arith;
  msg_outside = inr (omega arith);
  payload_real = omega arith;
  payload_away = inr (omega arith);
  some_data = omega arith;
  fits = omega arith;
  sender_word = omega arith;
  kind_word = omega arith;
}

ipc_send-delivers_example :
    (m : Memory) × (s : Store) × (ipc_send symbols 4 kernel 2 9 40000 5 30000
      ≡ replies 0 (after_wake (record kernel { memory = m }) 4000 queues s))
    × (messages m 4000 ≡ messages kernel.memory 4000 ++ message kernel 9 40000 5 ∷ [])
    × IsMailbox (m.ring (mailbox_ring 4000))
    × Represents s (woken symbols 4000 queues)
ipc_send-delivers_example =
    ipc_send-delivers symbols kernel queues (4000 ∷ 2000 ∷ 1000 ∷ []) 4 2 9 40000 5 30000
      symbols-AreApart store-Represents kernel-Processes (omega arith) (omega arith) refl sendable
      (omega arith)

-- One message, of two bytes from the process with PID 1.
abbrev letter : Memory
letter = record {
  bytes = update (update (update (update (λ a. 0) 4000 1) 4008 2) 4012 65) 4013 66;
  ring = λ r. record mailbox { tail = 1; count = 1 };
}

receivable :
    (c t : ℕ)
    → IsValid (record mailbox { tail = t; count = c })
    → Receivable (record mailbox { tail = t; count = c }) 20000 25000 8 30000
receivable c t v = record {
  mailbox = record { valid = v; slots = refl; slot_size = refl };
  sender_real = omega arith;
  buffer_real = omega arith;
  msg_real = omega arith;
  msg_outside = inr (omega arith);
  sender_outside = inr (omega arith);
  buffer_outside = inr (omega arith);
  sender_msg = inl (omega arith);
  buffer_msg = inl (omega arith);
  buffer_sender = inr (omega arith);
}

-- The same variables with the empty mailbox.
mailbox-Receivable : Receivable mailbox 20000 25000 8 31000
mailbox-Receivable = record {
  mailbox = mailbox-IsMailbox;
  sender_real = omega arith;
  buffer_real = omega arith;
  msg_real = omega arith;
  msg_outside = inr (omega arith);
  sender_outside = inr (omega arith);
  buffer_outside = inr (omega arith);
  sender_msg = inl (omega arith);
  buffer_msg = inl (omega arith);
  buffer_sender = inr (omega arith);
}

letter-IsValid : IsValid (letter.ring 0)
letter-IsValid = record {
  real = omega arith;
  some_slot = omega arith;
  word = omega arith;
  fits = omega arith;
  head_in = omega arith;
  count_in = omega arith;
  tail_at = refl;
}

receive_take-oldest_example :
    let (e, m) = receive_take letter 4000 20000 25000 8 30000 in
    (e ≡ 0)
    × (messages m 4000 ≡ [])
    × (load32 m.bytes 20000 ≡ 1)
    × (bytes_at m.bytes 25000 2 ≡ 65 ∷ 66 ∷ [])
unfolding decode word_of
receive_take-oldest_example =
    receive_take-oldest letter 4000 20000 25000 8 30000 (receivable 1 1 letter-IsValid)
      (record { sender_pid = 1; kind = 0; size = 2; payload = 65 ∷ 66 ∷ [] }) [] refl (omega arith)
      (omega arith)

receive_check-waits_example :
    (o : Outcome) × MovesTo queues kernel (mailbox_waiters 2000) blocked 400 o
    × (receive_check kernel 50000 60000 64 ≡ (
        if refuses_receive 50000 60000 64
        then refused 1
        else if (kernel.memory.ring (mailbox_ring 2000)).count == 0
        then yields 2000 o
        else takes 2000))
receive_check-waits_example =
    receive_check-waits kernel 50000 60000 64 store-Represents (omega arith) (omega arith)

ipc_send-receive_take_example :
    (k' : Kernel) × (ipc_send symbols 4 kernel 2 9 40000 5 30000 ≡ replies 0 k')
    × Takes 4000 20000 25000 5
        (bytes_at kernel.memory.bytes 40000 5)
        1
        (receive_take k'.memory 4000 20000 25000 8 31000)
unfolding sched_get_current_pid
ipc_send-receive_take_example =
    ipc_send-receive_take symbols kernel queues (4000 ∷ 2000 ∷ 1000 ∷ []) 4 2 9 40000 5 30000
      symbols-AreApart store-Represents kernel-Processes (omega arith) (omega arith) refl sendable
      20000 25000 8 31000 mailbox-Receivable refl
