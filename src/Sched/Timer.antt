-- ===== src/Sched/Timer.antt =====
-- The timer wakes the threads whose time has come.
use mathlib.Core.Path.{fun_ext, subst}
use mathlib.Core.List.{append_assoc, append-nil}
use gummy.Prelude.{
  ℕ, zero, suc, ◌+◌, ◌%◌, ◌^◌, ◌<◌, ◌≡◌, refl, ◌≢◌, true, false, arith, ◌==◌, leb, if◌then◌else◌,
  List, [], ◌∷◌, ◌++◌, length, has, erase, distinct, Bool-cases, inl, inr, ◌∙◌, ap, sym as path_sym,
  ==_of_ne, erase_of_not_has,
}
use gummy.Queue.{Ptr, null, Store, queue_size}
use gummy.Queue.Links.{first_of, next_of}
use gummy.Queue.Inv.{Queues, Represents, enqueue}
use gummy.Sched.{ThreadState, ready, Symbols, Kernel, Outcome, stay}
use gummy.Sched.Run.{wake, timer_handler, schedule}
use gummy.Sched.Moves.{moved, AreApart, setters-MovesTo}

-- The threads of a list whose time has come at `now`, and the others.
abbrev pub due : (Ptr → ℕ) → ℕ → List Ptr → List Ptr
due wake_tick now [] = []
due wake_tick now (x ∷ xs) =
    if leb (wake_tick x) now then x ∷ due wake_tick now xs else due wake_tick now xs

abbrev pub not_due : (Ptr → ℕ) → ℕ → List Ptr → List Ptr
not_due wake_tick now [] = []
not_due wake_tick now (x ∷ xs) =
    if leb (wake_tick x) now then not_due wake_tick now xs else x ∷ not_due wake_tick now xs

has_middle : (x : Ptr) (ys xs : List Ptr) → has x (ys ++ x ∷ xs) ≡ true
has_middle x [] xs = ground arith
has_middle x (y ∷ ys) xs = ground (arith, has_middle x ys xs)

next_of_middle :
    (x : Ptr) (ys xs : List Ptr)
    → distinct (ys ++ x ∷ xs) ≡ true
    → next_of (ys ++ x ∷ xs) x ≡ first_of xs
next_of_middle x [] xs d = ground arith
next_of_middle x (y ∷ ys) xs d = ground (arith, next_of_middle x ys xs, has_middle x ys xs)

erase_middle :
    (x : Ptr) (ys xs : List Ptr)
    → distinct (ys ++ x ∷ xs) ≡ true
    → erase x (ys ++ x ∷ xs) ≡ ys ++ xs
erase_middle x [] xs d = ground arith
erase_middle x (y ∷ ys) xs d = ground (arith, erase_middle x ys xs, has_middle x ys xs)

module _ (sym : Symbols) (apart : AreApart sym) where
  -- The queues after the threads `xs` behind `ys` in the sleep queue have been looked at.
  abbrev pub looked_at : Kernel → Queues → List Ptr → List Ptr → Queues
  looked_at k f ys xs r =
      if r == sym.ready_queue
      then f r ++ due k.wake_tick k.ticks xs
      else if r == sym.sleep_queue
      then ys ++ not_due k.wake_tick k.ticks xs
      else f r

  abbrev pub woken_state : Kernel → List Ptr → Ptr → ThreadState
  woken_state k xs t = if has t (due k.wake_tick k.ticks xs) then ready else k.state t

  module _ (k : Kernel) (f : Queues) (ys : List Ptr) (x : Ptr) (xs : List Ptr)
      (r : Represents k.queues f) (e : f sym.sleep_queue ≡ ys ++ x ∷ xs) where
    x_sleeps : has x (f sym.sleep_queue) ≡ true
    x_sleeps = rw e (has_middle x ys xs)

    sleep_distinct : distinct (ys ++ x ∷ xs) ≡ true
    sleep_distinct = rw (← e) (r.once sym.sleep_queue)

    x_real : x ≢ null
    x_real = λ z. cc (x_sleeps, z, r.no_null sym.sleep_queue)

    x_next : k.queues.next x ≡ first_of xs
    x_next =
        r.after sym.sleep_queue x apart.sleep_real x_sleeps
        ∙ (rw e (next_of_middle x ys xs sleep_distinct))

    x_elsewhere : (a : Ptr) → a ≢ sym.sleep_queue → has x (f a) ≡ false
    x_elsewhere a n = ground (
      arith,
      r.nowhere,
      r.owner a x,
      r.owner sym.sleep_queue x,
      x_sleeps,
      x_real,
      apart.sleep_real,
    )

    sleep_erased : erase x (f sym.sleep_queue) ≡ ys ++ xs
    sleep_erased = rw e (erase_middle x ys xs sleep_distinct)

  looked_at-due :
      (k : Kernel) (f : Queues) (ys : List Ptr) (x : Ptr) (xs : List Ptr) (s : Store)
      → Represents k.queues f
      → f sym.sleep_queue ≡ ys ++ x ∷ xs
      → leb (k.wake_tick x) k.ticks ≡ true
      → looked_at (moved k x ready s) (enqueue sym.ready_queue x f) ys xs
        ≡ looked_at k f ys (x ∷ xs)
  looked_at-due k f ys x xs s r e d = fun_ext λ a. ground (
    arith,
    d,
    apart.ready_sleep,
    sleep_erased k f ys x xs r e,
    x_elsewhere k f ys x xs r e a,
    erase_of_not_has x (f a),
    append_assoc (f a) (x ∷ []) (due k.wake_tick k.ticks xs),
  )

  looked_at-not_due :
      (k : Kernel) (f : Queues) (ys : List Ptr) (x : Ptr) (xs : List Ptr)
      → leb (k.wake_tick x) k.ticks ≡ false
      → looked_at k f (ys ++ x ∷ []) xs ≡ looked_at k f ys (x ∷ xs)
  looked_at-not_due k f ys x xs d =
      fun_ext λ a. ground (arith, d, append_assoc ys (x ∷ []) (not_due k.wake_tick k.ticks xs))

  woken_state-due :
      (k : Kernel) (x : Ptr) (xs : List Ptr) (s : Store)
      → leb (k.wake_tick x) k.ticks ≡ true
      → woken_state (moved k x ready s) xs ≡ woken_state k (x ∷ xs)
  woken_state-due k x xs s d = fun_ext λ t. ground (arith, d)

  woken_state-not_due :
      (k : Kernel) (x : Ptr) (xs : List Ptr)
      → leb (k.wake_tick x) k.ticks ≡ false
      → woken_state k xs ≡ woken_state k (x ∷ xs)
  woken_state-not_due k x xs d = fun_ext λ t. ground (arith, d)

  -- The outcome `o` is that the due threads of `xs` are ready and the others sleep on behind `ys`.
  abbrev Wakes : Kernel → Queues → List Ptr → List Ptr → Outcome → Type 0
  Wakes k f ys xs o =
      (s : Store) × (o ≡ stay (record k { queues = s; state = woken_state k xs }))
      × Represents s (looked_at k f ys xs)

  wake-Wakes :
      (fuel : ℕ) (k : Kernel) (f : Queues) (ys xs : List Ptr)
      → Represents k.queues f
      → f sym.sleep_queue ≡ ys ++ xs
      → length xs < fuel
      → Wakes k f ys xs (wake sym fuel (first_of xs) k)
  unfolding wake
  wake-Wakes zero k f ys xs r e l = absurd (omega arith)
  wake-Wakes (suc fuel) k f ys [] r e l =
      (k.queues, refl, subst (λ g. Represents k.queues g) (fun_ext (λ a. untouched a)) r)
    where
      untouched : (a : Ptr) → f a ≡ looked_at k f ys [] a
      untouched a = ground (arith, append-nil (f a), append-nil ys, e)
  wake-Wakes (suc fuel) k f ys (x ∷ xs) r e l = elim (Bool-cases (leb (k.wake_tick x) k.ticks)) [
    | inl d ↦
        let (s1, e1, r1) = (setters-MovesTo sym k x apart r (x_real k f ys x xs r e)).0 in
        let shorter : enqueue sym.ready_queue x f sym.sleep_queue ≡ ys ++ xs =
          ground (arith, apart.ready_sleep, sleep_erased k f ys x xs r e) in
        let (s2, e2, r2) =
          wake-Wakes fuel (moved k x ready s1) (enqueue sym.ready_queue x f) ys xs r1 shorter
            (omega arith) in
        (
          s2,
          rw (given, d, e1, x_next k f ys x xs r e, e2)
              (ap (λ st. stay (record k { queues = s2; state = st }))
                (woken_state-due k x xs s1 d)),
          subst (λ g. Represents s2 g) (looked_at-due k f ys x xs s1 r e d) r2,
        )
    | inr d ↦
        let (s2, e2, r2) =
          wake-Wakes fuel k f (ys ++ x ∷ []) xs r (e ∙ path_sym (append_assoc ys (x ∷ []) xs))
            (omega arith) in
        (
          s2,
          rw (given, d, x_next k f ys x xs r e, e2)
              (ap (λ st. stay (record k { queues = s2; state = st }))
                (woken_state-not_due k x xs d)),
          subst (λ g. Represents s2 g) (looked_at-not_due k f ys x xs d) r2,
        )
  ]
    where
      given : (x == null) ≡ false
      given = ==_of_ne (x_real k f ys x xs r e)

  -- The kernel in which the timer calls the scheduler.
  abbrev pub after_tick : Kernel → List Ptr → Store → Kernel
  after_tick k xs s =
      let k1 : Kernel = record k { ticks = (k.ticks + 1) % 2 ^ 32 } in
      record k1 { queues = s; state = woken_state k1 xs }

  -- `timer_handler` advances the tick, moves exactly the sleeping threads whose time has come to the
  -- end of the ready queue, in their order, makes them ready, leaves the others asleep in theirs,
  -- and then calls `schedule`, provided that fewer than 2 ^ 32 threads sleep.
  pub timer_handler-wakes :
      (k : Kernel) (f : Queues) (ctx : ℕ)
      → Represents k.queues f
      → length (f sym.sleep_queue) < 2 ^ 32
      → (s : Store) × (timer_handler sym k ctx
          ≡ schedule sym (after_tick k (f sym.sleep_queue) s) ctx)
        × Represents s
            (looked_at (record k { ticks = (k.ticks + 1) % 2 ^ 32 }) f [] (f sym.sleep_queue))
  unfolding timer_handler queue_size
  timer_handler-wakes k f ctx r small =
      let k1 : Kernel = record k { ticks = (k.ticks + 1) % 2 ^ 32 } in
      let (s, e, r') =
        wake-Wakes (k.queues.size sym.sleep_queue + 1) k1 f [] (f sym.sleep_queue) r refl
          (omega (arith, r.count sym.sleep_queue apart.sleep_real)) in
      (s, rw (==_of_ne apart.sleep_real, r.first sym.sleep_queue apart.sleep_real, e) refl, r')
