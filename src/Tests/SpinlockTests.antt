-- ===== src/Tests/SpinlockTests.antt =====
-- lib/src/spinlock.c at a concrete order of steps.
use gummy.Prelude.{ℕ, ◌≡◌, refl, true, false, List, [], ◌∷◌, ◌++◌}
use gummy.Spinlock.{testing, inside, spinlock_init, thread_step, run_threads}
use gummy.Spinlock.Exclusion.{is_inside, run_threads-exclusive}

abbrev first : ℕ
first = 1

abbrev second : ℕ
second = 2

-- Two threads call, the second takes the lock first, the first waits.
abbrev contended : List ℕ
contended = 1 ∷ 2 ∷ 2 ∷ 1 ∷ 1 ∷ []

second_inside : is_inside ((run_threads spinlock_init contended).place 2) ≡ true
unfolding run_threads
second_inside = refl

first_outside : is_inside ((run_threads spinlock_init contended).place 1) ≡ false
unfolding run_threads
first_outside = refl

-- The first gets it after the release.
first_inside : is_inside ((run_threads spinlock_init (contended ++ 2 ∷ 1 ∷ 1 ∷ [])).place 1) ≡ true
unfolding run_threads
first_inside = refl

run_threads-exclusive_example :
    (is_inside ((run_threads spinlock_init contended).place first) ≡ true
      → is_inside ((run_threads spinlock_init contended).place second) ≡ true
      → first ≡ second)
    × (((k : ℕ) → is_inside ((run_threads spinlock_init contended).place k) ≡ false)
        → (run_threads spinlock_init contended).place first ≡ testing
        → (thread_step (run_threads spinlock_init contended) first).place first ≡ inside)
run_threads-exclusive_example = run_threads-exclusive contended first second
