-- ===== src/Tests/SyscallTests.antt =====
-- kernel/src/arch/i686/syscall.c at a concrete kernel.
use gummy.Prelude.{◌≢◌, true, ◌+◌, ◌%◌, ◌≡◌, refl, arith, has}
use gummy.Queue.{Ptr, null, Store}
use gummy.Queue.Inv.{Queues}
use gummy.Words.{load32}
use gummy.Syscall.Handler.{exception_handler}
use gummy.Syscall.Stubs.{Registers}
use gummy.Syscall.Passes.{Passes, syscalls-Passes}
use gummy.Syscall.Fault.{IsEnding, exception_handler-ends}
use gummy.Tests.SchedTests.{kernel, symbols, symbols-AreApart, queues, store-Represents}
use gummy.Tests.LifecycleTests.{resources}

abbrev registers : Registers
registers = record { eax = 11; ebx = 12; ecx = 13; edx = 14; esi = 15; edi = 16 }

syscalls-Passes_example :
    Passes resources symbols (λ w c p bs. w) 4 90000 0 kernel 80000 registers 1 2 3000 4 9
syscalls-Passes_example =
    syscalls-Passes resources symbols (λ w c p bs. w) 4 90000 0 kernel 80000 registers 1 2 3000 4 9
      (omega arith) (omega arith) (omega arith) (omega arith) (omega arith) (omega arith)

user_mode : load32 kernel.memory.bytes (80003 + 56) % 4 ≡ 3
unfolding load32
user_mode = refl

ready-process : (a : Ptr) → has a (queues 16) ≡ true → kernel.process a ≢ null
ready-process a h = omega arith

exception_handler-ends_example :
    (s : Store) × (g : Queues) × IsEnding symbols kernel 70000 queues s g
      (exception_handler symbols kernel 80003 70000)
exception_handler-ends_example =
    exception_handler-ends symbols kernel 80003 70000 symbols-AreApart store-Represents
      (omega arith) (omega arith) ready-process user_mode
