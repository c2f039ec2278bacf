-- ===== src/Engine/Task.antt =====
-- What the search engines (lazyparam_prover/engine) run: a task works on the search state and
-- calls the engine to add alternatives, subgoals, or to say that its subgoals are complete.
use tptp_benchmark_go.Prelude.{ℕ}

-- `S` is the search state. A task is given the size limit and the state; each call that saves
-- carries the state and the `Features.depth` of that time, and `stop` the state that the task leaves.
mutual
  pub data Task (S : Type 0) : Type 0 where
    task : (ℕ → S → Effects S) → Task S

  pub data Effects (S : Type 0) : Type 0 where
    stop : S → Effects S
    or_ : ℕ → S → Task S → Effects S → Effects S
    and_ : Task S → Effects S → Effects S
    done : ℕ → S → Effects S → Effects S

unfoldable pub run : {S : Type 0} → Task S → ℕ → S → Effects S
run (task f) limit st = f limit st

-- the state after all calls
unfoldable pub last : {S : Type 0} → Effects S → S
last (stop st) = st
last (or_ depth st f es) = last es
last (and_ f es) = last es
last (done depth st es) = last es
