-- ===== src/Spinlock.antt =====
-- lib/src/spinlock.c and include/spinlock.h: threads that take and release a lock. The threads run one
-- after the other, in any order, and each access to the lock is one step: the test and set of the outer
-- loop, the read of the inner loop, the release.
pub mod Exclusion
use gummy.Prelude.{ℕ, ◌==◌, List, [], ◌∷◌, if◌then◌else◌}
use gummy.Queue.{update}

-- Where a thread is: outside of the lock, before the test and set of `spinlock`, in its inner loop, or
-- between the return of `spinlock` and the call of `spinunlock`.
pub data Place : Type 0 where
  outside : Place
  testing : Place
  waiting : Place
  inside : Place

-- The lock and the place of each thread.
pub record Spinlock : Type 0 where
  pub locked : ℕ
  pub place : ℕ → Place

-- SPINLOCK_INIT, and no thread has called.
abbrev pub spinlock_init : Spinlock
spinlock_init = record { locked = 0; place = λ i. outside }

-- `__sync_lock_test_and_set(&l->locked, 1)` and the test of what it returns.
abbrev pub test_and_set : Spinlock → ℕ → Spinlock
test_and_set s i = record {
  locked = 1;
  place = update s.place i (if s.locked == 0 then inside else waiting);
}

-- One round of the inner loop.
abbrev pub pause : Spinlock → ℕ → Spinlock
pause s i = record s { place = update s.place i (if s.locked == 0 then testing else waiting) }

-- `__sync_lock_release`
abbrev pub spinunlock : Spinlock → ℕ → Spinlock
spinunlock s i = record { locked = 0; place = update s.place i outside }

abbrev pub step_at : Spinlock → ℕ → Place → Spinlock
step_at s i outside = record s { place = update s.place i testing }
step_at s i testing = test_and_set s i
step_at s i waiting = pause s i
step_at s i inside = spinunlock s i

-- The next step of thread `i`: it calls `spinlock` if it is outside, and `spinunlock` if it has the lock.
abbrev pub thread_step : Spinlock → ℕ → Spinlock
thread_step s i = step_at s i (s.place i)

-- The state after the steps of the threads of a list, in this order.
unfoldable pub run_threads : Spinlock → List ℕ → Spinlock
run_threads s [] = s
run_threads s (i ∷ is) = run_threads (thread_step s i) is
