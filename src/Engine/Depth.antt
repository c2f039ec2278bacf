-- ===== src/Engine/Depth.antt =====
-- lazyparam_prover/engine/depth.h: depth-first search with a limit on the depth.
use tptp_benchmark_go.Prelude.{
  ℕ, ◌+◌, ◌-◌, Bool, true, false, not, ◌&&◌, Option, none, some, ltb, leb, if◌then◌else◌, List, [],
  ◌∷◌,
}
use tptp_benchmark_go.Engine.Cells
use tptp_benchmark_go.Engine.Cells.{Cells, null, cell}
use tptp_benchmark_go.Engine.Task.{Task, Effects, stop, or_, and_, done, run, last}

-- the size limit that tasks see
abbrev pub size_limit : ℕ
size_limit = 100000

abbrev pub Cont : Type 0 → Type 0
Cont S = Cells (Task S)

-- `Div::Save`: `R` is `SearchState::Save`
pub record Save (S R : Type 0) : Type 0 where
  pub cont : Cont S
  pub ss : R
  pub next : ℕ

-- `Div`; the back of the vector `saves` is the head of the list, `ands` is `_and`
pub record Div (S R : Type 0) : Type 0 where
  pub next : ℕ
  pub cut : Bool
  pub depth_limit : ℕ
  pub ands : Cont S
  pub saves : List (Save S R)
  pub steps : ℕ

module _ {S : Type 0} where
  -- one turn of the loop of `save`, as in the balanced engine
  unfoldable pub is_cut : Cont S → Cont S → Bool
  unfolding Cells.size Cells.drop Cells.pointer_equal
  is_cut c top =
      not (ltb (Cells.size top) (Cells.size c))
      && Cells.pointer_equal c (Cells.drop (Cells.size top - Cells.size c) top)

module _ {S R : Type 0} where
  unfoldable pub cut_saves : Cont S → List (Save S R) → List (Save S R)
  unfolding is_cut
  cut_saves c [] = []
  cut_saves c (v ∷ vs) = let rest = cut_saves c vs in if is_cut c v.cont then rest else v ∷ vs

  unfoldable pub call_and : Task S → Div S R → Div S R
  call_and f d = record d { ands = cell d.next f d.ands; next = d.next + 1 }

-- `take` is `SearchState::save`, and `give` is `restore`.
module _ {S R : Type 0} (take : S → R) (give : R → S → S) where
  unfoldable pub save : Cont S → S → Div S R → Div S R
  unfolding cut_saves
  save c st d = record d {
    saves =
        record { cont = c; ss = take st; next = d.next }
        ∷ (if d.cut then cut_saves c d.saves else d.saves);
  }

  -- `or_` and `done`
  unfoldable pub call_or : ℕ → S → Task S → Div S R → Div S R
  unfolding save
  call_or depth st f d =
      if leb depth d.depth_limit
      then save (cell d.next f d.ands) st (record d { next = d.next + 1 })
      else d

  unfoldable pub call_done : ℕ → S → Div S R → Div S R
  unfolding save
  call_done depth st d = if leb depth d.depth_limit then save d.ands st d else d

  unfoldable pub perform : Effects S → Div S R → Div S R
  unfolding call_or call_and call_done
  perform (stop st) d = d
  perform (or_ depth st f es) d = perform es (call_or depth st f d)
  perform (and_ f es) d = perform es (call_and f d)
  perform (done depth st es) d = perform es (call_done depth st d)

  -- the constructor of `Div`
  unfoldable pub start : Bool → ℕ → Task S → S → ℕ → Div S R
  unfolding save
  start cut limit f st next = save (cell next f null) st (record {
    next = next + 1;
    cut = cut;
    depth_limit = limit;
    ands = null;
    saves = [];
    steps = 0;
  })

  -- `step()` after the restores: `true` is success
  unfoldable pub step_cont : Cont S → S → Div S R → Bool × S × Div S R
  unfolding perform run last
  step_cont null st d = (true, st, d)
  step_cont (cell a f c) st d =
      let es = run f size_limit st in (false, last es, perform es (record d { ands = c }))

  -- `step()` in the search state `st`; `none` if nothing is saved, which `search` rules out
  unfoldable pub step : S → Div S R → Option (Bool × S × Div S R)
  unfolding step_cont
  step st d = elim (d.saves) [
    | [] ↦ none
    | v ∷ vs ↦ some (
        step_cont v.cont (give v.ss st)
          (record d { next = v.next; saves = vs; steps = d.steps + 1 }))
  ]
