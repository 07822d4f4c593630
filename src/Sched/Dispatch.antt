-- ===== src/Sched/Dispatch.antt =====
-- `schedule` takes the threads of the ready queue in turn.
use gummy.Prelude.{
  Bool, ℕ, ◌≡◌, refl, ◌≢◌, ◌⊎◌, inl, inr, false, ◌||◌, arith, ◌==◌, if◌then◌else◌, List, [], ◌∷◌,
  ◌++◌, has, erase, Bool-cases, ==_of_ne, ◌∙◌, ==_refl, ap, ◌+◌, ◌%◌, ◌^◌,
}
use gummy.Queue.{Ptr, null, update, Store, queue_pop, queue_push, queue_empty}
use gummy.Queue.Links.{first_of}
use gummy.Queue.Inv.{Queues, Represents, enqueue}
use gummy.Queue.Pop.{dequeue, queue_pop-first}
use gummy.Queue.Push.{queue_push-enqueue}
use gummy.Sched.{
  Symbols, Kernel, Outcome, stay, resume, and_then, with_queues, thread_at, running, ProcessState,
  normal, dying,
}
use gummy.Sched.Run.{is_running, is_dying, schedule, take_next, dispatch, switch_context, enter}
use gummy.Sched.Moves.{AreApart}

first_of-ne : (xs : List Ptr) → has null xs ≡ false → xs ≢ [] → first_of xs ≢ null
first_of-ne [] n ne = absurd (ne refl)
first_of-ne (x ∷ xs) n ne = ground arith

append-ne : (xs : List Ptr) (c : Ptr) → xs ++ c ∷ [] ≢ []
append-ne [] c = λ e. cc e
append-ne (x ∷ xs) c = λ e. cc e

dying-cases : (p : ProcessState) → (p ≡ dying) ⊎ (p ≡ normal)
dying-cases normal = inr refl
dying-cases dying = inl refl

-- The tests of `dispatch` on a thread that has a process.
dispatch_lem :
    (sym : Symbols) (k : Kernel) (new : Ptr)
    → k.current_thread ≢ null
    → new ≢ null
    → k.process new ≢ null
    → dispatch sym k new ≡ (
        if new == k.current_thread || is_dying (k.process_state (k.process new))
        then stay k
        else enter sym k new)
unfolding dispatch switch_context
dispatch_lem sym k new a b c = ground arith

module _ (sym : Symbols) (k : Kernel) (f : Queues) (ctx : ℕ) where
  -- The queues when `schedule` looks for the next thread: a running thread has gone to the end of
  -- the ready queue.
  abbrev pub with_current : Queues
  with_current =
      if is_running (k.state k.current_thread)
      then enqueue sym.ready_queue k.current_thread f
      else f

  -- The next thread, and the queues without it.
  abbrev pub next_thread : Ptr
  next_thread = first_of (with_current sym.ready_queue)

  abbrev pub next_queues : Queues
  next_queues = dequeue sym.ready_queue with_current

  -- The kernel at that point: the context of the current thread is saved.
  abbrev pub saved : Store → Kernel
  saved s = record k {
    queues = s;
    sp0 = if ctx == 0 then k.sp0 else update k.sp0 k.current_thread ctx;
  }

  -- What `schedule` does with the next thread.
  abbrev pub next_outcome : Store → Outcome
  next_outcome s =
      if next_thread == k.current_thread || is_dying (k.process_state (k.process next_thread))
      then stay (saved s)
      else enter sym (saved s) next_thread

  -- The next thread runs: its context is restored in its process and its address space, and it is the
  -- current thread; unless it is the idle thread, the processor enters the kernel on top of its kernel
  -- stack from then on.
  abbrev pub Resumes : Store → Outcome → Type 0
  Resumes s o =
      (k' : Kernel) × (o ≡ resume (k.sp0 next_thread) k')
      × (k'.queues ≡ s)
      × (k'.sp0 ≡ (if ctx == 0 then k.sp0 else update k.sp0 k.current_thread ctx))
      × (k'.current_thread ≡ next_thread)
      × (k'.current_process ≡ k.process next_thread)
      × (k'.state ≡ update k.state next_thread running)
      × (k.process next_thread ≢ k.current_process → k'.cpu_cr3 ≡ k.cr3 (k.process next_thread))
      × (k.process next_thread ≡ k.current_process → k'.cpu_cr3 ≡ k.cpu_cr3)
      × (next_thread ≢ thread_at sym.idle_process 0
          → (k'.tss_esp0 ≡ (k.stack0 next_thread + 4096) % 2 ^ 32) × (k'.tss_ss0 ≡ 0x10))

  -- `schedule` returns if the next thread is the current one or its process is dying.
  abbrev pub Continues : Store → Outcome → Type 0
  Continues s o =
      (((next_thread ≡ k.current_thread) ⊎ (k.process_state (k.process next_thread) ≡ dying))
        × (o ≡ stay (saved s)))
      ⊎ ((next_thread ≢ k.current_thread)
          × (k.process_state (k.process next_thread) ≡ normal)
          × Resumes s o)

  -- The kernel after the switch.
  abbrev switched : Store → Kernel
  switched s =
      let to_idle : Bool = next_thread == thread_at sym.idle_process 0 in
      record (saved s) {
        current_thread = next_thread;
        tss_esp0 = if to_idle then k.tss_esp0 else (k.stack0 next_thread + 4096) % 2 ^ 32;
        tss_ss0 = if to_idle then k.tss_ss0 else 0x10;
        cpu_cr3 =
            if k.process next_thread == k.current_process
            then k.cpu_cr3
            else k.cr3 (k.process next_thread);
        current_process = k.process next_thread;
        state = update k.state next_thread running;
      }

  enter-Resumes :
      (s : Store) (o : Outcome)
      → next_thread ≢ k.current_thread
      → o ≡ enter sym (saved s) next_thread
      → Resumes s o
  unfolding enter
  enter-Resumes s o other e = (
    switched s,
    e ∙ ap (λ p. resume p (switched s)) own_context,
    refl,
    refl,
    refl,
    refl,
    refl,
    λ n. ground arith,
    λ e. ground (arith, e),
    λ n. (ground arith, ground arith),
  )
    where
      own_context : (saved s).sp0 next_thread ≡ k.sp0 next_thread
      own_context = ground (arith, other)

  outcome-Continues : (s : Store) (o : Outcome) → o ≡ next_outcome s → Continues s o
  outcome-Continues s o e = elim (Bool-cases (next_thread == k.current_thread)) [
    | inl same ↦ inl (inl (ground arith), ground (arith, e, same))
    | inr other ↦ elim (dying-cases (k.process_state (k.process next_thread))) [
      | inl d ↦ inl (inr d, e ∙ rw (other, d) refl)
      | inr n ↦ inr (ground arith, n, enter-Resumes s o (ground arith) (e ∙ rw (other, n) refl))
    ]
  ]

  -- The kernel before `queue_pop`, where `s` is its queues.
  pushed :
      Represents k.queues f
      → sym.ready_queue ≢ null
      → k.current_thread ≢ null
      → (s : Store) × (and_then
            (if is_running (k.state k.current_thread)
              then with_queues
                  (saved k.queues)
                  (queue_push k.queues sym.ready_queue k.current_thread)
              else stay (saved k.queues))
            (take_next sym)
          ≡ take_next sym (saved s))
        × Represents s with_current
  pushed r real some_thread = elim (Bool-cases (is_running (k.state k.current_thread))) [
    | inl run ↦
        let (s, e, r') = queue_push-enqueue sym.ready_queue k.current_thread r real some_thread in
        (s, rw (run, e) refl, rw run r')
    | inr stopped ↦ (k.queues, rw stopped refl, rw stopped r)
  ]

  popped :
      (s : Store)
      → Represents s with_current
      → sym.ready_queue ≢ null
      → (s' : Store) × (take_next sym (saved s) ≡ dispatch sym (saved s') next_thread)
        × Represents s' next_queues
  unfolding take_next
  popped s r real =
      let (e, r') = queue_pop-first sym.ready_queue r real in
      ((queue_pop s sym.ready_queue).1, rw e refl, r')

  next-ne :
      (s : Store)
      → Represents s with_current
      → sym.ready_queue ≢ null
      → f sym.ready_queue ≢ []
      → next_thread ≢ null
  next-ne s r real ne =
      first_of-ne (with_current sym.ready_queue) (r.no_null sym.ready_queue) some_ready
    where
      some_ready : with_current sym.ready_queue ≢ []
      some_ready = elim (Bool-cases (is_running (k.state k.current_thread))) [
        | inl run ↦
            rw (run, ==_refl sym.ready_queue)
              (append-ne (erase k.current_thread (f sym.ready_queue)) k.current_thread)
        | inr stopped ↦ rw stopped ne
      ]

  -- Nothing changes if no thread is ready.
  pub schedule-idle :
      AreApart sym → Represents k.queues f → f sym.ready_queue ≡ [] → schedule sym k ctx ≡ stay k
  unfolding schedule queue_empty
  schedule-idle apart r e = ground (arith, r.first sym.ready_queue, apart.ready_real, e)

  -- For a current thread other than NULL and a first ready thread with a process: if the ready queue
  -- is empty, `schedule` changes nothing. Otherwise it saves the context, puts a running thread at the
  -- end of the ready queue and takes the first thread off. If that is the current thread or belongs to
  -- a dying process, it returns; otherwise it restores the context saved for that thread, which becomes
  -- the current, running thread, in its process and its address space, with the stack of the kernel
  -- being its own unless it is the idle thread. It never stops the processor nor reads through NULL.
  pub schedule-next :
      AreApart sym
      → Represents k.queues f
      → k.current_thread ≢ null
      → k.process next_thread ≢ null
      → ((f sym.ready_queue ≡ [] → schedule sym k ctx ≡ stay k)
          × (f sym.ready_queue ≢ []
              → (s : Store) × Continues s (schedule sym k ctx) × Represents s next_queues))
  unfolding schedule queue_empty
  schedule-next apart r current process = (
    schedule-idle apart r,
    λ ne.
        let (s1, e1, r1) = pushed r apart.ready_real current in
        let (s2, e2, r2) = popped s1 r1 apart.ready_real in
        let some_ready : (k.queues.head_next sym.ready_queue == null) ≡ false =
          rw (r.first sym.ready_queue apart.ready_real)
            (==_of_ne (first_of-ne (f sym.ready_queue) (r.no_null sym.ready_queue) ne)) in
        (
          s2,
          rw (==_of_ne apart.ready_real, some_ready, ==_of_ne current)
              (outcome-Continues s2 _ (
                e1
                ∙ e2
                ∙ dispatch_lem sym (saved s2) next_thread current
                    (next-ne s1 r1 apart.ready_real ne) process)),
          r2,
        ),
  )
