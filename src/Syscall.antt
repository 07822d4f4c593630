-- ===== src/Syscall.antt =====
-- System calls: kernel/src/arch/i686/syscall.c, include/arch/i686/syscall.h and `exception_handler` of
-- kernel/src/arch/i686/exception.c. `ctx` is the address of the registers that isr_common pushes and
-- `msg` that of the local message of the mailbox functions. The lower half of another address space is
-- reached through `store_in`, which stores bytes there: it stands for the processor's translation.
pub mod Create
pub mod Handler
pub mod Stubs
pub mod Passes
pub mod Fault
use gummy.Prelude.{
  ℕ, zero, suc, ◌+◌, ◌-◌, ◌*◌, ◌/◌, ◌%◌, ◌^◌, Bool, ◌||◌, ◌==◌, if◌then◌else◌, Option, none, some,
  List,
}
use gummy.Queue.{Ptr, null}
use gummy.Memory.{Bytes}
use gummy.Words.{load32, store32}
use gummy.Sched.{Kernel, Outcome, stay, resume, waits, halted, fault, out_of_fuel}
use gummy.Ipc.{Reply, replies, stops}

-- A value for the caller, or a call that does not come back to it.
pub data Answer (W : Type 0) : Type 0 where
  answers : ℕ → W → Kernel → Answer W
  leaves : W → Outcome → Answer W

-- 0 where a call of the scheduler comes back.
abbrev pub after_outcome : {W : Type 0} → W → Outcome → Answer W
after_outcome w (stay k) = answers 0 w k
after_outcome w (resume c k) = leaves w (resume c k)
after_outcome w (waits k) = leaves w (waits k)
after_outcome w halted = leaves w halted
after_outcome w fault = leaves w fault
after_outcome w out_of_fuel = leaves w out_of_fuel

abbrev pub after_reply : {W : Type 0} → W → Reply → Answer W
after_reply w (replies e k) = answers e w k
after_reply w (stops o) = leaves w o

-- The value of a call that gives up with a value of its own or goes on, with 0 for a call that returns.
abbrev pub with_value : {W : Type 0} → ℕ → Answer W → Answer W
with_value v (answers e w k) = answers v w k
with_value v (leaves w o) = leaves w o

-- `-1`
abbrev pub no_call : ℕ
no_call = 2 ^ 32 - 1

-- `ctx->eax = ret`
unfoldable pub set_eax : Kernel → Ptr → ℕ → Kernel
set_eax k ctx v = record k {
  memory = record k.memory { bytes = store32 k.memory.bytes (ctx + 40) v };
}

-- What the caller of `syscall_handler` gets.
abbrev pub reply_to : {W : Type 0} → Ptr → Answer W → W × Outcome
reply_to ctx (answers v w k) = (w, stay (set_eax k ctx v))
reply_to ctx (leaves w o) = (w, o)
