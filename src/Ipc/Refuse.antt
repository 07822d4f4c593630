-- ===== src/Ipc/Refuse.antt =====
-- The calls that `ipc_send` refuses.
use gummy.Prelude.{ℕ, ◌<◌, ◌≡◌, arith, Bool, true, List, length, ◌||◌, ◌==◌, ltb}
use gummy.Queue.{Ptr, null}
use gummy.Sched.{Symbols, Kernel}
use gummy.Sched.Run.{is_dying}
use gummy.Process.Find.{Processes, with_pid, sched_get_process-with_pid}
use gummy.Ipc.{ipc_msg_max, replies, ipc_send, send_to}

-- What `ipc_send` refuses: no data, no size or one above 64, or a PID that belongs to no process or
-- to a dying one.
abbrev pub refuses : Kernel → List Ptr → ℕ → Ptr → ℕ → Bool
refuses k ps pid payload size =
    payload == null
    || size == 0
    || ltb ipc_msg_max size
    || with_pid k pid ps == null
    || is_dying (k.process_state (with_pid k pid ps))

-- What `ipc_send` refuses it answers with 1, and changes nothing: not even the mailbox or a queue.
pub ipc_send-refuses :
    (sym : Symbols) (k : Kernel) (ps : List Ptr) (fuel pid kind payload size msg : ℕ)
    → Processes k ps
    → length ps < fuel
    → refuses k ps pid payload size ≡ true
    → ipc_send sym fuel k pid kind payload size msg ≡ replies 1 k
unfolding ipc_send send_to
ipc_send-refuses sym k ps fuel pid kind payload size msg procs enough bad =
    let e = sched_get_process-with_pid k ps fuel pid procs enough in ground (arith, e)
