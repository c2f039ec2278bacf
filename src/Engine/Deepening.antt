-- ===== src/Engine/Deepening.antt =====
-- The loops that drive an engine: `search` of lazyparam_prover/engine/balanced.h and depth.h, and
-- `iterative_deepening` of lazyparam_prover/engine/engine.h. The clock is a parameter: `expired k`
-- is what the k-th question `ctx.done()` of the loop answers.
pub mod Least
use tptp_benchmark_go.Prelude.{
  ℕ, zero, suc, ◌+◌, ◌/◌, ◌%◌, Bool, true, false, ◌&&◌, Option, none, some, ◌>>=◌, ◌==◌,
  if◌then◌else◌,
}

-- `for (; saves.size(); steps++) { if (step()) return true; if (steps % 100 == 0 && ctx.done())
-- return false; }`, with the engine `D` and the search state `S`; `step` is `none` when nothing is
-- saved. The outer `none` means that the fuel ran out; the result carries the last search state.
unfoldable pub search :
    {D S : Type 0} (expired : ℕ → Bool) (step : S → D → Option (Bool × S × D))
    → ℕ
    → ℕ
    → S
    → D
    → Option (Bool × S)
search expired step zero steps st d = none
search expired step (suc fuel) steps st d = elim (step st d) [
  | none ↦ some (false, st)
  | some (found, st', d') ↦ elim found [
    | true ↦ some (true, st')
    | false ↦ elim ((steps % 100 == 0) && expired (steps / 100)) [
      | true ↦ some (false, st')
      | false ↦ search expired step fuel (steps + 1) st' d'
    ]
  ]
]

-- what `iterative_deepening` returns: the limit of the last search, and its state if it succeeded
pub record Output (S : Type 0) : Type 0 where
  pub cost : ℕ
  pub proof : Option S

-- `for (; !ctx.done();) { ss = s.save(); out.cost++; if (search(ctx, A, s, out.cost)) return ...;
-- s.restore(ss); }`. `S` is the search state with the allocator's state, `take` and `give` are the
-- saves and the restores of both; `search limit st` answers with the state that it leaves.
unfoldable pub deepen :
    {S R : Type 0} (take : S → R) (give : R → S → S) (expired : ℕ → Bool)
    (search : ℕ → S → Bool × S)
    → ℕ
    → ℕ
    → S
    → Option (Output S)
deepen take give expired search zero cost st = none
deepen take give expired search (suc fuel) cost st = elim (expired cost) [
  | true ↦ some (record { cost = cost; proof = none })
  | false ↦
      let ss = take st in
      let (found, st') = search (cost + 1) st in
      let rest = deepen take give expired search fuel (cost + 1) (give ss st') in
      elim found [ true ↦ some (record { cost = cost + 1; proof = some st' }) | false ↦ rest ]
]
