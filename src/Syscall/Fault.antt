-- ===== src/Syscall/Fault.antt =====
-- What an exception of a user program does: `exception_handler` of kernel/src/arch/i686/exception.c.
use mathlib.Core.Path.{subst}
use gummy.Prelude.{
  ◌+◌, ◌%◌, ◌≡◌, refl, ◌≢◌, not, ◌&&◌, has, erase, ◌++◌, List, [], ◌∷◌, ◌⊎◌, inl, inr, true,
  Bool-cases, ==_refl, ==_of_ne, ℕ, arith, ◌∙◌,
}
use gummy.Queue.{Ptr, null, Store}
use gummy.Queue.Inv.{Queues, Represents}
use gummy.Words.{load32}
use gummy.Queue.Links.{first_of}
use gummy.Sched.{Symbols, Kernel, Outcome, stay}
use gummy.Sched.Run.{is_running, schedule}
use gummy.Sched.Moves.{AreApart}
use gummy.Sched.Dispatch.{next_thread, next_queues, Continues, schedule-idle, schedule-next}
use gummy.Lifecycle.Destroy.{sched_destroy_current_process}
use gummy.Process.{sched_get_current_process}
use gummy.Lifecycle.Leave.{
  is_thread_of, without_threads, has-without_threads, ended, end_process-without,
}
use gummy.Syscall.Handler.{exception_handler}

first-has : (xs : List Ptr) → xs ≢ [] → has (first_of xs) xs ≡ true
first-has [] ne = absurd (ne refl)
first-has (x ∷ xs) ne = ground arith

-- The first element once `c` has gone to the end.
first-moved :
    (c : Ptr) (xs : List Ptr)
    → (first_of (erase c xs ++ c ∷ []) ≡ c) ⊎ (has (first_of (erase c xs ++ c ∷ [])) xs ≡ true)
first-moved c [] = inl refl
first-moved c (x ∷ []) = ground arith
first-moved c (x ∷ y ∷ xs) = ground arith

-- The queues `g`, which `s` stands for, are `f` without the threads of the process of the current thread,
-- and `o` is what follows where this process is dying.
pub record IsEnding (sym : Symbols) (k : Kernel) (yield_ctx : ℕ) (f : Queues) (s : Store)
    (g : Queues) (o : Outcome) : Type 0 where
  pub in_order : Represents s g
  pub holds :
      (q a : Ptr)
      → has a (g q) ≡ (not (is_thread_of (k.process k.current_thread) 8 a) && has a (f q))
  pub then_idle : g sym.ready_queue ≡ [] → o ≡ stay (ended k (k.process k.current_thread) s)
  pub then_next :
      g sym.ready_queue ≢ []
      → (s' : Store) × Continues sym (ended k (k.process k.current_thread) s) g yield_ctx s' o
        × Represents s' (next_queues sym (ended k (k.process k.current_thread) s) g yield_ctx)

-- The next thread has a process if the current one and those that are ready have one.
next-process :
    (sym : Symbols) (k : Kernel) (g : Queues) (ctx : ℕ)
    → g sym.ready_queue ≢ []
    → k.process k.current_thread ≢ null
    → ((a : Ptr) → has a (g sym.ready_queue) ≡ true → k.process a ≢ null)
    → k.process (next_thread sym k g ctx) ≢ null
next-process sym k g ctx ne own all = elim (Bool-cases (is_running (k.state k.current_thread))) [
  | inl run ↦ elim (first-moved k.current_thread (g sym.ready_queue)) [
    | inl same ↦ rw (run, ==_refl sym.ready_queue, same) own
    | inr other ↦ rw (run, ==_refl sym.ready_queue) (all _ other)
  ]
  | inr stopped ↦ rw stopped (all _ (first-has (g sym.ready_queue) ne))
]

current-process :
    (k : Kernel)
    → k.current_thread ≢ null
    → k.process k.current_thread ≢ null
    → sched_get_current_process k ≡ k.process k.current_thread
unfolding sched_get_current_process
current-process k a b = rw (==_of_ne a, ==_of_ne b) refl

-- An exception in user mode, where the queues are in order, the ready threads have a process and so does
-- the current thread, marks the process of this thread as dying and takes its eight threads off every
-- queue, and no other thread. Then it yields: if no thread is ready, it returns. Otherwise `schedule`
-- puts the current thread, which is still running, back at the end of the ready queue, takes the first
-- thread off it and resumes it, unless that is the current thread or belongs to a dying process.
pub exception_handler-ends :
    (sym : Symbols) (k : Kernel) (ctx : Ptr) (yield_ctx : ℕ) {f : Queues}
    → AreApart sym
    → Represents k.queues f
    → k.current_thread ≢ null
    → k.process k.current_thread ≢ null
    → ((a : Ptr) → has a (f sym.ready_queue) ≡ true → k.process a ≢ null)
    → load32 k.memory.bytes (ctx + 56) % 4 ≡ 3
    → (s : Store) × (g : Queues) × IsEnding sym k yield_ctx f s g
        (exception_handler sym k ctx yield_ctx)
unfolding exception_handler sched_destroy_current_process
exception_handler-ends sym k ctx yield_ctx {f} apart r current own all user =
    let p = k.process k.current_thread in
    let g = without_threads f p 8 in
    let (s, e, r') = end_process-without k p r in
    let held : (q a : Ptr) → has a (g q) ≡ (not (is_thread_of p 8 a) && has a (f q)) =
      λ q a. has-without_threads f p 8 q a (r.once q) in
    let run : exception_handler sym k ctx yield_ctx ≡ schedule sym (ended k p s) yield_ctx =
      rw (user, current-process k current own, ==_of_ne own, e) refl in
    let run_back = gummy.Prelude.sym run in
    (
      s,
      g,
      record {
        in_order = r';
        holds = held;
        then_idle = λ none. run ∙ schedule-idle sym (ended k p s) g yield_ctx apart r' none;
        then_next = λ ne.
            let ready : (a : Ptr) → has a (g sym.ready_queue) ≡ true → k.process a ≢ null =
              λ a h. all a (ground (arith, h, held sym.ready_queue a)) in
            let process = next-process sym (ended k p s) g yield_ctx ne own ready in
            let (s', c, r2) =
              (schedule-next sym (ended k p s) g yield_ctx apart r' current process).1 ne in
            (s', subst (λ o. Continues sym (ended k p s) g yield_ctx s' o) (run_back) c, r2);
      },
    )
