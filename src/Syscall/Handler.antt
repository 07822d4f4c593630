-- ===== src/Syscall/Handler.antt =====
-- The other system calls, the dispatcher and `exception_handler`: kernel/src/arch/i686/syscall.c and
-- exception.c. The registers are read where `interrupt_context_t` of include/arch/i686/idt.h has them.
use gummy.Prelude.{ℕ, ◌+◌, ◌/◌, ◌%◌, ◌^◌, ◌==◌, if◌then◌else◌, List}
use gummy.Queue.{Ptr}
use gummy.Memory.{Bytes}
use gummy.Words.{load32}
use gummy.Sched.{Symbols, Kernel, Outcome, halted}
use gummy.Sched.Run.{sched_exit_current_thread, sched_thread_sleep}
use gummy.Process.{sched_get_current_pid, sched_get_current_ppid}
use gummy.Lifecycle.{Resources}
use gummy.Lifecycle.Destroy.{sched_destroy_current_process}
use gummy.Ipc.{ipc_send, Check, refused, takes, yields, receive_check, receive_take}
use gummy.Syscall.{Answer, answers, leaves, after_outcome, after_reply, no_call, reply_to}
use gummy.Syscall.Create.{sys_nthread_impl, sys_nprocess_impl}

-- `sys_sleep_impl`: a division by 0 in the kernel is an exception, which stops it.
unfoldable pub sys_sleep_impl : {W : Type 0} → Symbols → W → Kernel → Ptr → ℕ → Answer W
sys_sleep_impl sym w k ctx ms =
    if k.ms_per_tick == 0
    then leaves w halted
    else after_outcome w (sched_thread_sleep sym k ctx ((k.ticks + ms / k.ms_per_tick) % 2 ^ 32))

-- `sys_receive_impl`, up to the yield where the thread has to wait.
abbrev pub received : {W : Type 0} → W → Kernel → Ptr → Ptr → ℕ → Ptr → Check → Answer W
received w k sender_pid buffer size msg (refused e) = answers e w k
received w k sender_pid buffer size msg (takes p) =
    let (e, m) = receive_take k.memory p sender_pid buffer size msg in
    answers e w (record k { memory = m })
received w k sender_pid buffer size msg (yields p o) = leaves w o

unfoldable pub sys_receive_impl : {W : Type 0} → W → Kernel → Ptr → Ptr → ℕ → Ptr → Answer W
sys_receive_impl w k sender_pid buffer size msg =
    received w k sender_pid buffer size msg (receive_check k sender_pid buffer size)

module _ {W : Type 0} (res : Resources W) (sym : Symbols) (store_in : W → ℕ → Ptr → List ℕ → W)
    (fuel : ℕ) (msg : Ptr) where
  -- The switch on the number in `eax`.
  unfoldable pub dispatch_call : W → Kernel → Ptr → Answer W
  dispatch_call w k ctx =
      let m : Bytes = k.memory.bytes in
      let eax : ℕ = load32 m (ctx + 40) in
      let ebx : ℕ = load32 m (ctx + 36) in
      let ecx : ℕ = load32 m (ctx + 32) in
      let edx : ℕ = load32 m (ctx + 28) in
      let edi : ℕ = load32 m (ctx + 20) in
      let esi : ℕ = load32 m (ctx + 16) in
      if eax == 0
      then after_outcome w (sched_exit_current_thread sym k ctx ebx)
      else if eax == 1
      then answers (sched_get_current_pid k) w k
      else if eax == 2
      then answers (sched_get_current_ppid k) w k
      else if eax == 3
      then sys_nprocess_impl res sym store_in fuel w k ebx ecx
      else if eax == 4
      then sys_nthread_impl res sym w k ebx
      else if eax == 5
      then sys_sleep_impl sym w k ctx ebx
      else if eax == 6
      then after_reply w (ipc_send sym fuel k ebx ecx esi edx msg)
      else if eax == 7
      then sys_receive_impl w k esi edi ebx msg
      else answers no_call w k

  unfoldable pub syscall_handler : W → Kernel → Ptr → W × Outcome
  syscall_handler w k ctx = reply_to ctx (dispatch_call w k ctx)

-- An exception of a user program ends its process, one of the kernel stops the system. `cs` is at 56;
-- `yield_ctx` is where the yield at the end of the process pushes the registers.
unfoldable pub exception_handler : Symbols → Kernel → Ptr → ℕ → Outcome
exception_handler sym k ctx yield_ctx =
    if load32 k.memory.bytes (ctx + 56) % 4 == 3
    then sched_destroy_current_process sym k yield_ctx
    else halted
