-- ===== src/Lib.antt =====
-- Gummy: a small i386 kernel with threads, processes, messages between processes, page tables and a
-- text screen. This library models the part of it that decides: the data structures of `lib`, the page
-- allocator, the address spaces, the heap, the scheduler, the mailboxes, the system calls and the
-- formatted output.
--
-- The parts and their files:
--   Queue       lib/src/queue.c, include/queue.h: the intrusive doubly linked queues. Memory is one
--               map for each field (`Store`); `Represents` ties it to a list for each queue.
--   Strings     the rest of lib/src/string.c.
--   Memory      `memcpy` and `memset` of lib/src/string.c, on a memory of bytes.
--   Words       the 32-bit little-endian words of that memory.
--   RingBuffer  lib/src/ring_buffer.c, include/ring_buffer.h, on the same memory.
--   Bitmap      include/bitmap.h, and ALIGN_UP and ALIGN_DOWN of include/types.h.
--   Pmm         kernel/src/arch/i686/pmm.c: the pages in use are the bits that are set.
--   Heap        kernel/src/heap.c, over a parameter for the page allocator of vmm.c. Heap/Tiles has the
--               heap as a list of blocks without gaps (`Tiles`), what allocating and freeing do to that
--               list and to the regions that are handed out; Heap/Paged joins it to Vmm.
--   Sched       kernel/include/sched.h (the state `Kernel`), kernel/src/sched.c, and the setters,
--               exit and sleep of kernel/src/thread.c.
--   Process     the reading functions of kernel/src/process.c.
--   Ipc         kernel/src/ipc.c, kernel/include/ipc.h; Ipc/EndToEnd joins a send and a receive.
--   Lifecycle   making and destroying threads and processes: the rest of kernel/src/thread.c and
--               process.c, over an interface of the heap and of the address spaces.
--   Lifecycle/Reap  the reaper of kernel/src/kmain.c.
--   Initrd      lib/src/initrd.c, include/initrd.h.
--   Vmm         kernel/src/arch/i686/vmm.c: page tables in physical memory (Frames), and address spaces;
--               Vmm/Walk has the translation of the processor, as an independent description.
--   Spinlock    lib/src/spinlock.c: the steps of threads in any order.
--   Vsnprintf   lib/src/vsnprintf.c: Parse has one directive of a format, Conversion what it stands for,
--               Limit the stores.
--   Syscall     kernel/src/arch/i686/syscall.c, include/arch/i686/syscall.h, exception.c, and what
--               idt.asm pushes.
--   Descriptors kernel/src/arch/i686/gdt.c, tss.c and idt.c, and what exception.c, sched.c and syscall.c
--               register.
--   Terminal    kernel/src/vga.c and kernel/src/terminal.c.
--   Devices     ports (io.asm), and the drivers on them: Pic kernel/src/pic.c, Pit kernel/src/pit.c, Serial
--               kernel/src/serial.c. Pic/Masks, Pit/Channel and Serial/Uart read the recorded writes
--               as the chips do.
--   Debug       kernel/src/debug.c: `printk`, on Vsnprintf, Terminal and Serial.
--   Prelude     the shared names, Boolean tests and list lemmas.
--   Tests       concrete runs.
-- The scheduler moves threads between queues (Queue); a mailbox is a ring buffer of messages and a
-- queue of waiting threads; sending finds a process (Process), pushes (RingBuffer) and makes a waiter
-- ready (Sched). The page allocator keeps its bitmap in memory (Bitmap, Memory).
--
-- Functions keep the source's names. A pointer is a number and NULL is 0; a word of 32 bits wraps
-- where the source's does. A read through NULL in a queue is `none` or the outcome `fault`; restoring
-- a context, waiting and halting are outcomes, since such a call does not come back. `ipc_receive` is
-- in two parts, before and after its yield; `sched_destroy_current_process` ends with `schedule`, the
-- handler of its yield. Where `itoa` would write beyond the 66 bytes that `put_number` has for it,
-- `vsnprintf` is `none`. The queues, the ring buffers' descriptors and the fields
-- of threads and processes lie in maps of their own, so they do not overlap with the bytes.
--
-- Fuel: `sched_get_process` and `sched_destroy_process` take more fuel than there are processes, the
-- heap more than there are blocks, strings more than there are characters, and `timer_handler` one
-- more than the size of the sleep queue; the theorems show that this is enough. `queue_get` counts
-- on its index.
--
-- A format and the strings of `vsnprintf` are lists of characters and have a text (`Renders`); the
-- loop over the format has a round for each of its characters, and each round takes one at least. The
-- loops of the page tables and of the screen count. Waiting for the serial port takes more fuel than the
-- reads after which its transmitter is empty.
--
-- Not modelled: the calls of `printk` in the other parts; the end of the interrupt that `timer_handler`
-- sends (`pic_send_eoi`, Devices/Pic); the interrupt flag and the change of CR3 in `sys_nprocess_impl`; debug_dump_code and E820_init, which print;
-- the loading of the descriptor tables; the rest of kmain.c, which calls the other parts in order;
-- other assembly. The heap and the address spaces are an interface in `Lifecycle` and a parameter in `Heap`
-- where these call them; `IsRegionAllocator` is what the heap relies on, and Heap/Paged proves it of Vmm.
pub mod Prelude
pub mod Queue
pub mod Memory
pub mod Strings
pub mod Words
pub mod RingBuffer
pub mod Tests
pub mod Bitmap
pub mod Pmm
pub mod Heap
pub mod Vmm
pub mod Spinlock
pub mod Vsnprintf
pub mod Syscall
pub mod Terminal
pub mod Descriptors
pub mod Sched
pub mod Process
pub mod Initrd
pub mod Ipc
pub mod Lifecycle
pub mod Devices
pub mod Debug
