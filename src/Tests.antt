-- ===== src/Tests.antt =====
-- Tests of the operations and the theorems at concrete inputs.
mod QueueTests
mod RingBufferTests
pub mod PmmTests
pub mod SchedTests
pub mod IpcTests
pub mod LifecycleTests
mod LibTests
mod HeapTests
mod InitrdTests
mod VmmTests
mod SpinlockTests
mod VsnprintfTests
mod SyscallTests
mod TerminalTests
mod DescriptorsTests
mod DevicesTests
