-- ===== src/Spinlock/Exclusion.antt =====
-- At most one thread has a spinlock.
use gummy.Prelude.{
  ℕ, ◌≡◌, refl, ◌⊎◌, inl, inr, arith, Bool, true, false, ◌==◌, List, [], ◌∷◌, ap, Bool-cases,
}
use gummy.Queue.{update}
use gummy.Spinlock.{
  Place, outside, testing, waiting, inside, Spinlock, spinlock_init, step_at, thread_step,
  run_threads,
}

abbrev pub is_inside : Place → Bool
is_inside outside = false
is_inside testing = false
is_inside waiting = false
is_inside inside = true

-- The lock is free and no thread has it, or it is taken and `h` alone has it.
abbrev pub IsHeld : Spinlock → Type 0
IsHeld s =
    ((s.locked ≡ 0) × ((i : ℕ) → is_inside (s.place i) ≡ false))
    ⊎ ((h : ℕ) × (s.locked ≡ 1) × ((i : ℕ) → is_inside (s.place i) ≡ (i == h)))

-- A step of `i` to a place where it does not have the lock.
stays_out :
    (s : Spinlock) (i : ℕ) (p : Place)
    → is_inside (s.place i) ≡ false
    → is_inside p ≡ false
    → IsHeld s
    → IsHeld (record s { place = update s.place i p })
stays_out s i p before after (inl (e, none)) = inl (e, λ j. ground (arith, none j, after))
stays_out s i p before after (inr (h, e, one)) =
    inr (h, e, λ j. ground (arith, one j, one i, after, before))

step_at-IsHeld :
    (s : Spinlock) (i : ℕ) (p : Place) → s.place i ≡ p → IsHeld s → IsHeld (step_at s i p)
step_at-IsHeld s i outside e v = stays_out s i testing (ap is_inside e) refl v
step_at-IsHeld s i testing e (inl (l, none)) = inr (i, refl, λ j. ground (arith, l, none j))
step_at-IsHeld s i testing e (inr (h, l, one)) =
    rw l (stays_out (record s { locked = 1 }) i waiting (ap is_inside e) refl (inr (h, refl, one)))
step_at-IsHeld s i waiting e v = elim (Bool-cases (s.locked == 0)) [
  | inl b ↦ rw b (stays_out s i testing (ap is_inside e) refl v)
  | inr b ↦ rw b (stays_out s i waiting (ap is_inside e) refl v)
]
step_at-IsHeld s i inside e (inl (l, none)) =
    inl (refl, λ j. ground (arith, none i, none j, ap is_inside e))
step_at-IsHeld s i inside e (inr (h, l, one)) =
    inl (refl, λ j. ground (arith, one j, one i, ap is_inside e))

run_threads-IsHeld : (s : Spinlock) (threads : List ℕ) → IsHeld s → IsHeld (run_threads s threads)
unfolding run_threads
run_threads-IsHeld s [] v = v
run_threads-IsHeld s (i ∷ is) v =
    run_threads-IsHeld (thread_step s i) is (step_at-IsHeld s i (s.place i) refl v)

-- In every state that the steps of any threads in any order lead to, at most one thread is between the
-- return of `spinlock` and the call of `spinunlock`. While there is none, a thread at its test and set
-- gets the lock with its next step.
pub run_threads-exclusive :
    (threads : List ℕ) (i j : ℕ)
    → (is_inside ((run_threads spinlock_init threads).place i) ≡ true
        → is_inside ((run_threads spinlock_init threads).place j) ≡ true
        → i ≡ j)
      × (((k : ℕ) → is_inside ((run_threads spinlock_init threads).place k) ≡ false)
          → (run_threads spinlock_init threads).place i ≡ testing
          → (thread_step (run_threads spinlock_init threads) i).place i ≡ inside)
run_threads-exclusive threads i j = (
  λ a b. elim (run_threads-IsHeld spinlock_init threads (inl (refl, λ k. refl))) [
    | inl (l, none) ↦ ground (arith, none i, a)
    | inr (h, l, one) ↦ ground (arith, one i, one j, a, b)
  ],
  λ all e. elim (run_threads-IsHeld spinlock_init threads (inl (refl, λ k. refl))) [
    | inl (l, none) ↦ rw e ground (arith, l)
    | inr (h, l, one) ↦ ground (arith, one h, all h)
  ],
)
