-- ===== src/Lifecycle/Unlink.antt =====
-- The list of processes while one of them is destroyed: its children, and its own place.
use mathlib.Core.Path.{fun_ext}
use gummy.Prelude.{
  ℕ, zero, suc, ◌<◌, ◌≡◌, refl, ◌≢◌, arith, true, false, ◌&&◌, ◌==◌, if◌then◌else◌, List, [], ◌∷◌,
  length, has, erase, distinct, has-erase, distinct-erase, some, ap, ◌∙◌, ==_of_ne,
}
use gummy.Queue.{Ptr, null, update}
use gummy.Queue.Links.{
  first_of, next_of, prev_of, has-prev_of, first_of-erase, next_of-erase, prev_of-erase, prev_of-ne,
}
use gummy.Sched.{Kernel}
use gummy.Process.Find.{Processes}
use gummy.Lifecycle.{reparent, unlink_process}

-- A process list where each process has lost its parent `p` to the parent of `p`.
abbrev pub reparented : Kernel → Ptr → List Ptr → Ptr → Ptr
reparented k p ps a = if has a ps && k.dad a == p then k.dad p else k.dad a

pub reparent-loop :
    (fuel : ℕ) (k : Kernel) (p : Ptr) (ps : List Ptr)
    → has null ps ≡ false
    → distinct ps ≡ true
    → ((a : Ptr) → has a ps ≡ true → k.next_process a ≡ next_of ps a)
    → length ps < fuel
    → reparent fuel k p (first_of ps) ≡ some (record k { dad = reparented k p ps })
unfolding reparent
reparent-loop zero k p ps n d h l = absurd (omega arith)
reparent-loop (suc fuel) k p [] n d h l = refl
reparent-loop (suc fuel) k p (a ∷ ps) n d h l =
    rw (==_of_ne real, next)
      (reparent-loop fuel k1 p ps (ground arith) (ground arith) (λ b m. ground (arith, h b))
          (omega arith)
        ∙ ap (λ x. some (record k { dad = x })) (fun_ext λ b. ground arith))
  where
    real : a ≢ null
    real = λ e. ground arith

    k1 : Kernel
    k1 = record k { dad = if k.dad a == p then update k.dad a (k.dad p) else k.dad }

    next : k.next_process a ≡ first_of ps
    next = ground (arith, h a)

-- Only the first element has nothing before it.
first_of-prev_of :
    (ps : List Ptr) (p : Ptr)
    → has null ps ≡ false
    → has p ps ≡ true
    → (first_of ps == p) ≡ (prev_of null ps p == null)
first_of-prev_of [] p n h = absurd (ground arith)
first_of-prev_of (x ∷ ps) p n h = ground (arith, has-prev_of x ps p)

-- A destroyed process leaves the list of processes.
pub unlink_process-Processes :
    (k : Kernel) (p : Ptr) (ps : List Ptr)
    → Processes k ps
    → has p ps ≡ true
    → Processes (unlink_process k p) (erase p ps)
unfolding unlink_process
unlink_process-Processes k p ps v m = record {
  no_null = ground (arith, has-erase null p ps v.once, v.no_null);
  once = distinct-erase p ps v.once;
  first = ground (
    arith,
    v.first,
    first_of-erase null ps p v.once v.no_null m,
    first_of-prev_of ps p v.no_null m,
    v.after p m,
    has-prev_of null ps p m,
    real,
    before,
    self,
  );
  after = λ a h.
      let (inside, other) = kept a h in
      ground (
        arith,
        v.after p m,
        before,
        v.after a inside,
        next_of-erase null ps p a v.once v.no_null m inside other,
        inside,
        v.no_null,
      );
  before = λ a h.
      let (inside, other) = kept a h in
      ground (
        arith,
        after_prev,
        before,
        v.before a inside,
        prev_of-erase null ps p a v.once v.no_null m inside other,
        inside,
        v.no_null,
      );
}
  where
    before : k.prev_process p ≡ prev_of null ps p
    before = v.before p m

    real : p ≢ null
    real = λ e. ground (arith, v.no_null)

    self : prev_of null ps p ≢ p
    self = prev_of-ne null ps p v.once v.no_null m

    kept : (a : Ptr) → has a (erase p ps) ≡ true → (has a ps ≡ true) × (a ≢ p)
    kept a h = ground (arith, has-erase a p ps v.once)

    after_prev :
        (if k.prev_process p == null
            then k.next_process
            else update k.next_process (k.prev_process p) (k.next_process p))
          p
        ≡ next_of ps p
    after_prev = ground (arith, before, self, v.after p m)
