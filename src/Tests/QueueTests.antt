-- ===== src/Tests/QueueTests.antt =====
-- lib/src/queue.c at concrete memories.
use gummy.Prelude.{◌≡◌, refl, arith, List, [], ◌∷◌, some}
use gummy.Queue.{update, Store}
use gummy.Queue.Inv.{Queues, Represents}
use gummy.Queue.Calls.{Call, push, pop, remove, run, list_run, run_refines}

abbrev cleared : Store
cleared = record {
  prev = λ a. 0;
  next = λ a. 0;
  q = λ a. 0;
  head_prev = λ a. 0;
  head_next = λ a. 0;
  size = λ a. 0;
}

abbrev no_nodes : Queues
no_nodes a = []

cleared-Represents : Represents cleared no_nodes
cleared-Represents = record {
  nowhere = refl;
  no_null = λ a. refl;
  once = λ a. refl;
  owner = λ a p m n. ground arith;
  first = λ a m. refl;
  last = λ a m. refl;
  after = λ a p m h. cc;
  before = λ a p m h. cc;
  count = λ a m. refl;
}

-- The nodes 16 and 32 in the queue 8.
abbrev pair : Store
pair = record {
  prev = update (λ a. 0) 32 16;
  next = update (λ a. 0) 16 32;
  q = update (update (λ a. 0) 16 8) 32 8;
  head_prev = update (λ a. 0) 8 32;
  head_next = update (λ a. 0) 8 16;
  size = update (λ a. 0) 8 2;
}

abbrev two_nodes : Queues
two_nodes = update no_nodes 8 (16 ∷ 32 ∷ [])

pair-Represents : Represents pair two_nodes
pair-Represents = record {
  nowhere = refl;
  no_null = λ a. ground arith;
  once = λ a. ground arith;
  owner = λ a p m n. ground arith;
  first = λ a m. ground arith;
  last = λ a m. ground arith;
  after = λ a p m h. ground arith;
  before = λ a p m h. ground arith;
  count = λ a m. ground arith;
}

-- Two threads that go round two queues, as the scheduler moves them.
abbrev script : List Call
script = push 8 16 ∷ push 8 32 ∷ push 40 16 ∷ pop 8 ∷ remove 16 ∷ pop 40 ∷ []

run_refines_example :
    (s' : Store) × (run script cleared ≡ some (0 ∷ 0 ∷ 0 ∷ 32 ∷ 0 ∷ 0 ∷ [], s'))
    × Represents s' (list_run script no_nodes).1
run_refines_example = run_refines script cleared-Represents (omega arith, tt)
