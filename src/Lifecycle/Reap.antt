-- ===== src/Lifecycle/Reap.antt =====
-- `reaper_thread` of kernel/src/kmain.c: one pass over the list of processes.
use mathlib.Core.Path.{subst}
use gummy.Prelude.{
  ℕ, zero, suc, ◌<◌, ◌≡◌, refl, ◌≢◌, arith, true, false, ◌==◌, if◌then◌else◌, List, [], ◌∷◌, ◌++◌,
  length, length-append, has, erase, distinct, Option, none, some, ap, ◌∙◌, sym, ==_of_ne,
  Bool-cases, inl, inr,
}
use gummy.Queue.{Ptr, null}
use gummy.Queue.Inv.{Queues, Represents}
use gummy.Queue.Links.{first_of, next_of}
use gummy.Sched.{ProcessState, Kernel}
use gummy.Sched.Run.{is_dying}
use gummy.Process.Find.{Processes}
use gummy.Lifecycle.{Resources}
use gummy.Lifecycle.Destroy.{then_do, sched_destroy_process}
use gummy.Lifecycle.Erase.{sched_destroy_process_lem}

module _ {W : Type 0} (res : Resources W) where
  -- The loop over the processes from `p` on, on rounds left; `fuel` is that of `sched_destroy_process`
  -- and `none` is out of fuel or a fault there.
  unfoldable pub reap : ℕ → ℕ → W → Kernel → Ptr → Option (W × Kernel)
  reap zero fuel w k p = none
  reap (suc rounds) fuel w k p =
      if p == null
      then some (w, k)
      else then_do
          (if is_dying (k.process_state p)
            then sched_destroy_process res fuel w k p
            else some (w, k))
          (λ w1 k1. reap rounds fuel w1 k1 (k.next_process p))

-- The processes that are not dying.
abbrev pub survivors : (Ptr → ProcessState) → List Ptr → List Ptr
survivors state [] = []
survivors state (p ∷ ps) = if is_dying (state p) then survivors state ps else p ∷ survivors state ps

has-middle : (xs : List ℕ) (p : ℕ) (ys : List ℕ) → has p (xs ++ p ∷ ys) ≡ true
has-middle [] p ys = ground arith
has-middle (x ∷ xs) p ys = ground (arith, has-middle xs p ys)

distinct-middle :
    (xs : List ℕ) (p : ℕ) (ys : List ℕ) → distinct (xs ++ p ∷ ys) ≡ true → has p xs ≡ false
distinct-middle [] p ys d = refl
distinct-middle (x ∷ xs) p ys d = ground (arith, distinct-middle xs p ys, d, has-middle xs p ys)

next_of-middle :
    (xs : List ℕ) (p : ℕ) (ys : List ℕ) → has p xs ≡ false → next_of (xs ++ p ∷ ys) p ≡ first_of ys
next_of-middle [] p ys h = ground arith
next_of-middle (x ∷ xs) p ys h = ground (arith, next_of-middle xs p ys, h)

erase-middle :
    (xs : List ℕ) (p : ℕ) (ys : List ℕ) → has p xs ≡ false → erase p (xs ++ p ∷ ys) ≡ xs ++ ys
erase-middle [] p ys h = ground arith
erase-middle (x ∷ xs) p ys h = ground (arith, erase-middle xs p ys, h)

append_one : (xs : List ℕ) (p : ℕ) (ys : List ℕ) → (xs ++ p ∷ []) ++ ys ≡ xs ++ p ∷ ys
append_one [] p ys = refl
append_one (x ∷ xs) p ys = ap (λ zs. x ∷ zs) (append_one xs p ys)

module _ {W : Type 0} (res : Resources W) where
  -- The pass over `rest` ends with the survivors behind `passed`.
  abbrev Reaps : ℕ → ℕ → W → Kernel → List Ptr → List Ptr → Type 0
  Reaps rounds fuel w k passed rest =
      (w' : W) × (k' : Kernel) × (g : Queues) × (reap res rounds fuel w k (first_of rest)
        ≡ some (w', k'))
      × Processes k' (passed ++ survivors k.process_state rest)
      × Represents k'.queues g

  reap-Reaps :
      (rounds fuel : ℕ) (w : W) (k : Kernel) {f : Queues} (passed rest : List Ptr)
      → Represents k.queues f
      → Processes k (passed ++ rest)
      → ((p : Ptr) → has p rest ≡ true → is_dying (k.process_state p) ≡ true → k.cpu_cr3 ≢ k.cr3 p)
      → length rest < rounds
      → length (passed ++ rest) < fuel
      → Reaps rounds fuel w k passed rest
  unfolding reap
  reap-Reaps zero fuel w k passed rest r v away l enough = absurd (omega arith)
  reap-Reaps (suc n) fuel w k {f} passed [] r v away l enough = (w, k, f, refl, v, r)
  reap-Reaps (suc n) fuel w k {f} passed (p ∷ rest) r v away l enough =
      let here : has p (passed ++ p ∷ rest) ≡ true = has-middle passed p rest in
      let real : p ≢ null = λ e. ground (arith, v.no_null, here, e) in
      let new : has p passed ≡ false = distinct-middle passed p rest v.once in
      let next : k.next_process p ≡ first_of rest =
        v.after p here ∙ next_of-middle passed p rest new in
      elim (Bool-cases (is_dying (k.process_state p))) [
        | inl dying ↦
            let (w1, k1, g, e, v1, _, r1, states, spaces, cpu) =
              sched_destroy_process_lem res fuel w k p (passed ++ p ∷ rest) r v here
                (away p (ground arith) dying) enough in
            let gone : length (passed ++ p ∷ rest) ≡ suc (length (passed ++ rest)) =
              ground (arith, length-append passed (p ∷ rest), length-append passed rest) in
            let (w2, k2, g2, e2, v2, r2) =
              reap-Reaps n fuel w1 k1 passed rest r1
                (subst (λ xs. Processes k1 xs) (erase-middle passed p rest new) v1)
                (λ q h d.
                  rw (cpu, spaces)
                    (away q (ground (arith, h))
                      (ap (λ state. is_dying (state q)) (sym states) ∙ d)))
                (omega (arith, l)) (omega (arith, enough, gone)) in
            (
              w2,
              k2,
              g2,
              rw (==_of_ne real, dying, e, next) e2,
              rw dying (subst (λ st. Processes k2 (passed ++ survivors st rest)) states v2),
              r2,
            )
        | inr alive ↦
            let one : (passed ++ p ∷ []) ++ rest ≡ passed ++ p ∷ rest = append_one passed p rest in
            let (w2, k2, g2, e2, v2, r2) =
              reap-Reaps n fuel w k (passed ++ p ∷ []) rest r
                (subst (λ xs. Processes k xs) (sym one) v) (λ q h. away q (ground (arith, h)))
                (omega (arith, l)) (rw one enough) in
            (
              w2,
              k2,
              g2,
              rw (==_of_ne real, alive, next) e2,
              rw alive (
                  subst (λ xs. Processes k2 xs)
                    (append_one passed p (survivors k.process_state rest)) v2),
              r2,
            )
      ]

-- A pass of the reaper.
module _ {W : Type 0} (res : Resources W) (rounds fuel : ℕ) (w : W) (k : Kernel) where
  -- A pass of the reaper over the list of processes ends, with enough fuel for the list, and leaves
  -- exactly the processes that were not dying, in order, with the queues in order, when no dying
  -- process has the address space that is the current one.
  pub reap-survivors :
      {f : Queues} (ps : List Ptr)
      → Represents k.queues f
      → Processes k ps
      → ((p : Ptr) → has p ps ≡ true → is_dying (k.process_state p) ≡ true → k.cpu_cr3 ≢ k.cr3 p)
      → length ps < rounds
      → length ps < fuel
      → (w' : W) × (k' : Kernel) × (g : Queues) × (reap res rounds fuel w k k.first_process
          ≡ some (w', k'))
        × Processes k' (survivors k.process_state ps)
        × Represents k'.queues g
  reap-survivors ps r v away l enough =
      let (w', k', g, e, v', r') = reap-Reaps res rounds fuel w k [] ps r v away l enough in
      (w', k', g, ap (reap res rounds fuel w k) v.first ∙ e, v', r')
