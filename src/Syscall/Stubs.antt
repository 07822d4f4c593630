-- ===== src/Syscall/Stubs.antt =====
-- The caller's side of the system calls: the functions of include/arch/i686/syscall.h, which load the
-- registers, and isr_common of kernel/src/arch/i686/idt.asm, which pushes them.
use gummy.Prelude.{ℕ, ◌+◌}
use gummy.Queue.{Ptr}
use gummy.Memory.{Bytes}
use gummy.Words.{store32}

pub record Registers : Type 0 where
  pub eax : ℕ
  pub ebx : ℕ
  pub ecx : ℕ
  pub edx : ℕ
  pub esi : ℕ
  pub edi : ℕ

-- What isr_common pushes of them, the registers that `ctx` shows then.
unfoldable pub push_registers : Bytes → Ptr → Registers → Bytes
push_registers m ctx r =
    let m1 : Bytes = store32 (store32 m (ctx + 40) r.eax) (ctx + 36) r.ebx in
    let m2 : Bytes = store32 (store32 m1 (ctx + 32) r.ecx) (ctx + 28) r.edx in
    store32 (store32 m2 (ctx + 20) r.edi) (ctx + 16) r.esi

-- The registers of each call; `other` is what the others hold.
module _ (other : Registers) where
  abbrev pub sys_exit : ℕ → Registers
  sys_exit status = record other { eax = 0; ebx = status }

  abbrev pub sys_getpid : Registers
  sys_getpid = record other { eax = 1 }

  abbrev pub sys_getppid : Registers
  sys_getppid = record other { eax = 2 }

  abbrev pub sys_nprocess : Ptr → ℕ → Registers
  sys_nprocess entry n = record other { eax = 3; ebx = entry; ecx = n }

  abbrev pub sys_nthread : Ptr → Registers
  sys_nthread entry = record other { eax = 4; ebx = entry }

  abbrev pub sys_sleep : ℕ → Registers
  sys_sleep ms = record other { eax = 5; ebx = ms }

  abbrev pub sys_send : ℕ → ℕ → Ptr → ℕ → Registers
  sys_send pid kind payload size = record other {
    eax = 6;
    ebx = pid;
    ecx = kind;
    esi = payload;
    edx = size;
  }

  abbrev pub sys_receive : Ptr → Ptr → ℕ → Registers
  sys_receive sender_pid buffer size = record other {
    eax = 7;
    ebx = size;
    esi = sender_pid;
    edi = buffer;
  }
