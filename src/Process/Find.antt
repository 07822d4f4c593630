-- ===== src/Process/Find.antt =====
-- The list of processes, and the search in it.
use gummy.Prelude.{
  ℕ, zero, suc, ◌<◌, ◌≡◌, refl, arith, ◌==◌, if◌then◌else◌, List, [], ◌∷◌, length, has, distinct,
  true, false, some, ap, ◌∙◌,
}
use gummy.Queue.{Ptr, null}
use gummy.Queue.Links.{first_of, next_of, prev_of}
use gummy.Sched.{Kernel}
use gummy.Process.{find_process, sched_get_process}

-- The processes `ps` in the order of the list that starts at `first_process`.
pub record Processes (k : Kernel) (ps : List Ptr) : Type 0 where
  pub no_null : has null ps ≡ false
  pub once : distinct ps ≡ true
  pub first : k.first_process ≡ first_of ps
  pub after : (p : Ptr) → has p ps ≡ true → k.next_process p ≡ next_of ps p
  pub before : (p : Ptr) → has p ps ≡ true → k.prev_process p ≡ prev_of null ps p

-- The first process with a PID, or NULL.
abbrev pub with_pid : Kernel → ℕ → List Ptr → Ptr
with_pid k pid [] = null
with_pid k pid (p ∷ ps) = if k.pid p == pid then p else with_pid k pid ps

find_process-with_pid :
    (k : Kernel) (pid fuel : ℕ) (ps : List Ptr)
    → has null ps ≡ false
    → distinct ps ≡ true
    → ((p : Ptr) → has p ps ≡ true → k.next_process p ≡ next_of ps p)
    → length ps < fuel
    → find_process k pid fuel (first_of ps) ≡ some (with_pid k pid ps)
unfolding find_process
find_process-with_pid k pid zero ps n d h l = absurd (omega arith)
find_process-with_pid k pid (suc fuel) [] n d h l = refl
find_process-with_pid k pid (suc fuel) (p ∷ ps) n d h l = ground (
  arith,
  h p,
  find_process-with_pid k pid fuel ps (ground arith) (ground arith) (λ q m. ground (arith, h q))
      (omega arith),
)

-- With fuel for each process of the list and one more, `sched_get_process` returns the first
-- process with the PID, and NULL if there is none.
pub sched_get_process-with_pid :
    (k : Kernel) (ps : List Ptr) (fuel pid : ℕ)
    → Processes k ps
    → length ps < fuel
    → sched_get_process k fuel pid ≡ some (with_pid k pid ps)
unfolding sched_get_process
sched_get_process-with_pid k ps fuel pid v l =
    ap (find_process k pid fuel) v.first
    ∙ find_process-with_pid k pid fuel ps v.no_null v.once v.after l
