-- ===== src/Lifecycle/Erase.antt =====
-- What destroying a process does to the list of processes and to the queues.
use gummy.Prelude.{
  ℕ, zero, suc, ◌<◌, ◌≡◌, refl, ◌≢◌, arith, true, ◌||◌, ◌==◌, if◌then◌else◌, List, length, has,
  erase, Option, some, ap, ◌∙◌, ==_of_ne, Bool-cases, inl, inr,
}
use gummy.Queue.{Ptr, null}
use gummy.Queue.Inv.{Queues, Represents, without}
use gummy.Queue.Remove.{queue_remove-erase}
use gummy.Sched.{Kernel, thread_at}
use gummy.Process.Find.{Processes}
use gummy.Lifecycle.{Resources, reparent, unlink_process}
use gummy.Lifecycle.Destroy.{
  is_free, sched_destroy_thread, destroy_threads, destroy_rest, sched_destroy_process,
}
use gummy.Lifecycle.Unlink.{reparented, reparent-loop, unlink_process-Processes}

-- The fields of the list of processes are the same.
record KeepsList (k k' : Kernel) : Type 0 where
  first : k'.first_process ≡ k.first_process
  prev : k'.prev_process ≡ k.prev_process
  next : k'.next_process ≡ k.next_process
  dad : k'.dad ≡ k.dad
  cr3 : k'.cr3 ≡ k.cr3
  process_state : k'.process_state ≡ k.process_state
  cpu_cr3 : k'.cpu_cr3 ≡ k.cpu_cr3

module _ {W : Type 0} (res : Resources W) where
  -- The result is a kernel with queues in order and the list of processes of `k`.
  Settles : Kernel → Option (W × Kernel) → Type 0
  Settles k o =
      (w' : W) × (k' : Kernel) × (g : Queues) × (o ≡ some (w', k'))
      × Represents k'.queues g
      × KeepsList k k'

  settled : (w : W) (k : Kernel) {f : Queues} → Represents k.queues f → Settles k (some (w, k))
  unfolding Settles
  settled w k {f} r = (
    w,
    k,
    f,
    refl,
    r,
    record {
      first = refl;
      prev = refl;
      next = refl;
      dad = refl;
      cr3 = refl;
      process_state = refl;
      cpu_cr3 = refl;
    },
  )

  destroy_one :
      (w : W) (k : Kernel) {f : Queues} (t : Ptr)
      → Represents k.queues f
      → t ≢ null
      → Settles k (sched_destroy_thread res w k t)
  unfolding Settles sched_destroy_thread
  destroy_one w k {f} t r real =
      elim (Bool-cases (is_free (k.state t) || k.process t == null || t == k.current_thread)) [
        | inl skip ↦ rw (==_of_ne real, skip) (settled w k r)
        | inr used ↦
            let (s, e, r') = queue_remove-erase t r real in
            rw (==_of_ne real, used, e)
              (
                _,
                _,
                without t f,
                refl,
                r',
                record {
                  first = refl;
                  prev = refl;
                  next = refl;
                  dad = refl;
                  cr3 = refl;
                  process_state = refl;
                  cpu_cr3 = refl;
                },
              )
      ]

  destroy_many :
      (w : W) (k : Kernel) {f : Queues} (p : Ptr) (n : ℕ)
      → Represents k.queues f
      → Settles k (destroy_threads res w k p n)
  unfolding Settles destroy_threads
  destroy_many w k p zero r = settled w k r
  destroy_many w k p (suc n) r =
      let (w1, k1, g1, e1, r1, keep) = destroy_many w k p n r in
      let (w2, k2, g2, e2, r2, keep') = destroy_one w1 k1 (thread_at p n) r1 (omega arith) in
      (
        w2,
        k2,
        g2,
        rw e1 e2,
        r2,
        record {
          first = keep'.first ∙ keep.first;
          prev = keep'.prev ∙ keep.prev;
          next = keep'.next ∙ keep.next;
          dad = keep'.dad ∙ keep.dad;
          cr3 = keep'.cr3 ∙ keep.cr3;
          process_state = keep'.process_state ∙ keep.process_state;
          cpu_cr3 = keep'.cpu_cr3 ∙ keep.cpu_cr3;
        },
      )

  abbrev space_freed : W → Kernel → Ptr → W
  space_freed w k p =
      let w1 : W = res.vmm_destroy w (k.cr3 p) in
      let w2 : W = if k.cr3 p == 0 then w1 else res.pmm_free_page w1 (k.cr3 p) in res.heap_free w2 p

  pub sched_destroy_process_lem :
      (fuel : ℕ) (w : W) (k : Kernel) {f : Queues} (p : Ptr) (ps : List Ptr)
      → Represents k.queues f
      → Processes k ps
      → has p ps ≡ true
      → k.cpu_cr3 ≢ k.cr3 p
      → length ps < fuel
      → (w' : W) × (k' : Kernel) × (g : Queues) × (sched_destroy_process res fuel w k p
          ≡ some (w', k'))
        × Processes k' (erase p ps)
        × ((a : Ptr) → k'.dad a ≡ reparented k p ps a)
        × Represents k'.queues g
        × (k'.process_state ≡ k.process_state)
        × (k'.cr3 ≡ k.cr3)
        × (k'.cpu_cr3 ≡ k.cpu_cr3)
  unfolding sched_destroy_process destroy_rest unlink_process Settles
  sched_destroy_process_lem fuel w k {f} p ps r v m other enough =
      let k0 : Kernel = record k { dad = reparented k p ps } in
      let (w1, k1, g, e, r1, keep) = destroy_many w k0 p 8 r in
      let v1 : Processes k1 ps = record {
        no_null = v.no_null;
        once = v.once;
        first = keep.first ∙ v.first;
        after = λ a h. ap (λ (x : Ptr → Ptr). x a) keep.next ∙ v.after a h;
        before = λ a h. ap (λ (x : Ptr → Ptr). x a) keep.prev ∙ v.before a h;
      } in
      (
        space_freed w1 k1 p,
        unlink_process k1 p,
        g,
        rw (==_of_ne real, ==_of_ne other, adopted, e) refl,
        unlink_process-Processes k1 p ps v1 m,
        λ a. ap (λ (x : Ptr → Ptr). x a) keep.dad,
        r1,
        keep.process_state,
        keep.cr3,
        keep.cpu_cr3,
      )
    where
      adopted : reparent fuel k p k.first_process ≡ some (record k { dad = reparented k p ps })
      adopted =
          ap (reparent fuel k p) v.first ∙ reparent-loop fuel k p ps v.no_null v.once v.after enough

      real : p ≢ null
      real = λ e. ground (arith, v.no_null)

  -- `sched_destroy_process` on a process of the list whose address space is not the current one
  -- returns, with enough fuel for the list; the process is off the list, its children have its parent
  -- as theirs, and the queues are in order.
  pub sched_destroy_process-erase :
      (fuel : ℕ) (w : W) (k : Kernel) {f : Queues} (p : Ptr) (ps : List Ptr)
      → Represents k.queues f
      → Processes k ps
      → has p ps ≡ true
      → k.cpu_cr3 ≢ k.cr3 p
      → length ps < fuel
      → (w' : W) × (k' : Kernel) × (g : Queues) × (sched_destroy_process res fuel w k p
          ≡ some (w', k'))
        × Processes k' (erase p ps)
        × ((a : Ptr) → k'.dad a ≡ reparented k p ps a)
        × Represents k'.queues g
  sched_destroy_process-erase fuel w k p ps r v m other enough =
      let (w1, k1, g, e, v1, dads, r1, _, _, _) =
        sched_destroy_process_lem fuel w k p ps r v m other enough in
      (w1, k1, g, e, v1, dads, r1)
