-- ===== src/Process.antt =====
-- Finding processes: the reading functions of kernel/src/process.c and sched.c.
pub mod Find
use gummy.Prelude.{ℕ, zero, suc, ◌||◌, ◌==◌, if◌then◌else◌, Option, none, some}
use gummy.Queue.{Ptr, null}
use gummy.Sched.{Kernel}

-- The loop of `sched_get_process`, on fuel: `none` is out of fuel, NULL is not found.
unfoldable pub find_process : Kernel → ℕ → ℕ → Ptr → Option Ptr
find_process k pid zero p = none
find_process k pid (suc fuel) p =
    let rest = find_process k pid fuel (k.next_process p) in
    if p == null then some null else if k.pid p == pid then some p else rest

unfoldable pub sched_get_process : Kernel → ℕ → ℕ → Option Ptr
sched_get_process k fuel pid = find_process k pid fuel k.first_process

-- `sched_get_current_process`, `sched_get_current_pid` and `sched_get_current_ppid`.
unfoldable pub sched_get_current_process : Kernel → Ptr
sched_get_current_process k =
    if k.current_thread == null || k.process k.current_thread == null
    then null
    else k.process k.current_thread

unfoldable pub sched_get_current_pid : Kernel → ℕ
sched_get_current_pid k =
    if k.current_thread == null || k.process k.current_thread == null
    then 0
    else k.pid (k.process k.current_thread)

unfoldable pub sched_get_current_ppid : Kernel → ℕ
sched_get_current_ppid k =
    if k.current_thread == null
      || k.process k.current_thread == null
      || k.dad (k.process k.current_thread) == null
    then 0
    else k.pid (k.dad (k.process k.current_thread))
