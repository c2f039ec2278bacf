-- ===== src/Tests/Engine.antt =====
-- The engines and their theorems on small inputs.
use tptp_benchmark_go.Prelude.{
  ℕ, ◌+◌, ◌^◌, ◌≤◌, ◌≡◌, ◌↔◌, ◌⊎◌, refl, some, [], ◌∷◌, ◌++◌, arith, true, false, Bool, List, All,
  leb, map, ◌-◌,
}
use tptp_benchmark_go.Engine.Cells
use tptp_benchmark_go.Engine.Cells.{null, cell}
use tptp_benchmark_go.Engine.Task.{Task, task, stop, done}
use tptp_benchmark_go.Engine.Balanced.{
  spec_task, check_min, Div, Save, save, step, step_set, first_attempt, second_attempt, head_max,
}
use tptp_benchmark_go.Engine.Balanced.Budget.{
  Within, Over, attempts_split, step_set-attempts, overrun_unlimited,
}
use tptp_benchmark_go.Engine.Balanced.Cut.{EndsIn, StartsOutside, save-cut}
use tptp_benchmark_go.Engine.Balanced.Keep.{offers_of, step_keeps}

-- limit 20, 5 nodes used, three subgoals
attempts_split_example :
    ((5 + 4 + 8 ≤ 20) ↔ (Within 20 5 3 4 8 ⊎ Over 20 5 3 4 8))
    × ¬ (Within 20 5 3 4 8 × Over 20 5 3 4 8)
attempts_split_example = attempts_split 20 5 2 4 8 (omega arith) (omega arith)

overrun_unlimited_example : 2 ^ 62 ≤ head_max 3 4 2
overrun_unlimited_example = overrun_unlimited 3 4 (omega arith) (omega arith)

-- the state is the number of nodes used, and is saved with 100 added; the task has no subgoals
abbrev quick : Task ℕ
quick = task (λ limit st. done 1 (st + 1) (stop (st + 1)))

abbrev take : ℕ → ℕ
take st = st + 100

abbrev give : ℕ → ℕ → ℕ
give saved st = saved - 100

abbrev same : ℕ → ℕ
same st = st

abbrev older : Save ℕ ℕ
older = record { cont = null; ss = 100; next = 1 }

abbrev newer : Save ℕ ℕ
newer = record {
  cont = cell 2 (spec_task quick 0 10) (cell 1 (check_min 3) null);
  ss = 104;
  next = 3;
}

abbrev two_saves : Bool → Div ℕ ℕ
two_saves c = record { next = 5; cut = c; saves = newer ∷ older ∷ []; steps = 6 }

step_keeps_example :
    (st' : ℕ) × (d' : Div ℕ ℕ) × (new : List (Save ℕ ℕ)) × (step take give same 7 (two_saves false)
      ≡ some (false, st', d'))
    × (d'.saves ≡ new ++ (older ∷ []))
    × (map (λ (w : Save ℕ ℕ). w.ss) new ≡ 105 ∷ [])
    × (d'.cut ≡ false)
unfolding Cells.is_empty offers_of
step_keeps_example = step_keeps take give same newer (older ∷ []) 7 (two_saves false) refl refl

-- limit 20, 5 nodes used, three subgoals: the second attempt is saved
abbrev one_attempt : Div ℕ ℕ
one_attempt = first_attempt take give same quick (quick ∷ quick ∷ []) 20 null 5 (two_saves false)

step_set-attempts_example :
    ((step_set take give same (quick ∷ quick ∷ quick ∷ []) 20 null 5 (two_saves false)
        ≡ second_attempt take give same quick (quick ∷ quick ∷ []) 20 null 5 one_attempt)
      × ((a : ℕ) × (b : ℕ) × Over 20 5 3 a b))
    ⊎ ((step_set take give same (quick ∷ quick ∷ quick ∷ []) 20 null 5 (two_saves false)
          ≡ one_attempt)
        × ((a b : ℕ) → ¬ Over 20 5 3 a b))
step_set-attempts_example =
    step_set-attempts take give same quick quick (quick ∷ []) 20 null 5 (two_saves false)
      (omega arith) (omega arith)

-- the newer save is an alternative above the cell 1
save-cut_example :
    (cut kept : List (Save ℕ ℕ)) × ((two_saves true).saves ≡ cut ++ kept)
    × ((save take give (cell 1 (check_min 3) null) 4 (two_saves true)).saves
        ≡ record { cont = cell 1 (check_min 3) null; ss = 104; next = 5 } ∷ kept)
    × All (EndsIn (cell 1 (check_min 3) null)) cut
    × StartsOutside (cell 1 (check_min 3) null) kept
save-cut_example = save-cut take give (cell 1 (check_min 3) null) 4 (two_saves true) refl

-- a search that leaves a larger number, and succeeds with limit 3
abbrev from_three : ℕ → ℕ → Bool × ℕ
from_three n st = (leb 3 n, st + n)
