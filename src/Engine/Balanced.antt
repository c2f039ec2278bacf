-- ===== src/Engine/Balanced.antt =====
-- lazyparam_prover/engine/balanced.h: depth-first search with a size limit that is divided among
-- the subgoals. Two attempts are saved for the first subgoal of a set: with its share of the limit,
-- before the others; and, taken up first, with more than its share, after the others were solved
-- within what this leaves. `size_t` arithmetic wraps.
pub mod Budget
pub mod Cut
pub mod Keep
use tptp_benchmark_go.Prelude.{
  ℕ, zero, suc, ◌+◌, ◌-◌, ◌/◌, ◌%◌, ◌^◌, Bool, true, false, not, ◌&&◌, Option, none, some, ◌==◌,
  ltb, if◌then◌else◌, List, [], ◌∷◌, length,
}
use tptp_benchmark_go.Engine.Cells
use tptp_benchmark_go.Engine.Cells.{Cells, null, cell}
use tptp_benchmark_go.Engine.Task.{Task, Effects, stop, or_, and_, done, run, last}

abbrev pub word : ℕ
word = 2 ^ 64

-- `size_t` addition and subtraction
abbrev pub add_size : ℕ → ℕ → ℕ
add_size a b = (a + b) % word

abbrev pub sub_size : ℕ → ℕ → ℕ
sub_size a b = (a + word - b) % word

-- `Spec`: the coproduct of `SpecCheckMin`, `SpecTask` and `SpecTaskSet`
pub data Spec (S : Type 0) : Type 0 where
  check_min : ℕ → Spec S
  spec_task : Task S → ℕ → ℕ → Spec S
  task_set : List (Task S) → ℕ → Spec S

abbrev pub Cont : Type 0 → Type 0
Cont S = Cells (Spec S)

-- `Div::Save`: `R` is `SearchState::Save`; the allocator's state is the address of the next cell
pub record Save (S R : Type 0) : Type 0 where
  pub cont : Cont S
  pub ss : R
  pub next : ℕ

-- `Div`; the back of the vector `saves` is the head of the list
pub record Div (S R : Type 0) : Type 0 where
  pub next : ℕ
  pub cut : Bool
  pub saves : List (Save S R)
  pub steps : ℕ

-- `budget = max - nodes_used`, `head_budget = budget / size`
unfoldable pub budget : ℕ → ℕ → ℕ
budget max used = sub_size max used

unfoldable pub head_budget : ℕ → ℕ → ℕ → ℕ
unfolding budget
head_budget max used n = budget max used / n

-- the limit of the first subgoal in the attempt with its share
unfoldable pub head_max : ℕ → ℕ → ℕ → ℕ
unfolding head_budget
head_max max used n = add_size used (head_budget max used n)

-- the limit of the other subgoals in the attempt that solves them first
unfoldable pub rest_max : ℕ → ℕ → ℕ → ℕ
unfolding head_budget
rest_max max used n = sub_size max (head_budget max used n + 1)

module _ {S : Type 0} where
  unfoldable pub add : Spec S → Cont S → ℕ → Cont S
  add x c a = cell a x c

  -- One turn of the loop of `save`: whether the topmost save is dropped because its continuation
  -- ends in the same cells.
  unfoldable pub is_cut : Cont S → Cont S → Bool
  unfolding Cells.size Cells.drop Cells.pointer_equal
  is_cut c top =
      not (ltb (Cells.size top) (Cells.size c))
      && Cells.pointer_equal c (Cells.drop (Cells.size top - Cells.size c) top)

module _ {S R : Type 0} where
  unfoldable pub cut_saves : Cont S → List (Save S R) → List (Save S R)
  unfolding is_cut
  cut_saves c [] = []
  cut_saves c (v ∷ vs) = let rest = cut_saves c vs in if is_cut c v.cont then rest else v ∷ vs

  -- a new cell, and the engine with the next address
  unfoldable pub alloc : Spec S → Cont S → Div S R → Cont S × Div S R
  unfolding add
  alloc x c d = (add x c d.next, record d { next = d.next + 1 })

  -- the `SpecCheckMin` that is pushed below a task with a minimum
  unfoldable pub push_min : ℕ → ℕ → Cont S → Div S R → Cont S × Div S R
  unfolding alloc
  push_min now low c d = if ltb 0 low then alloc (check_min (add_size now low)) c d else (c, d)

  -- the `SpecTaskSet` that is pushed for the other subgoals, if there are any
  unfoldable pub push_rest : List (Task S) → ℕ → Cont S → Div S R → Cont S × Div S R
  unfolding alloc
  push_rest fs high c d = if length fs == 0 then (c, d) else alloc (task_set fs high) c d

-- `take` is `SearchState::save`, and `give` is `restore`, which works on the state that it finds.
module _ {S R : Type 0} (take : S → R) (give : R → S → S) where
  -- `save(cont)` in the search state `st`
  unfoldable pub save : Cont S → S → Div S R → Div S R
  unfolding cut_saves
  save c st d = record d {
    saves =
        record { cont = c; ss = take st; next = d.next }
        ∷ (if d.cut then cut_saves c d.saves else d.saves);
  }

  unfoldable pub save_added : Spec S → Cont S → S → Div S R → Div S R
  unfolding alloc save
  save_added x c st d = let (c', d') = alloc x c d in save c' st d'

  -- `Proxy`: the calls of a task. `new_tasks` has the latest `and_` first.
  unfoldable pub perform : ℕ → Cont S → List (Task S) → Effects S → Div S R → Div S R
  unfolding save_added
  perform limit c new (stop st) d = d
  perform limit c new (or_ depth st f es) d =
      perform limit c new es (save_added (spec_task f 0 limit) c st d)
  perform limit c new (and_ f es) d = perform limit c (f ∷ new) es d
  perform limit c new (done depth st es) d =
      perform limit c new es (save_added (task_set new limit) c st d)

  -- the constructor of `Div`: one save with the starting task
  unfoldable pub start : Bool → ℕ → Task S → S → ℕ → Div S R
  unfolding save_added
  start cut limit f st next =
      save_added (spec_task f 0 limit) null st
        (record { next = next; cut = cut; saves = []; steps = 0 })

  module _ (used : S → ℕ) where
    -- the case of `SpecTask`
    unfoldable pub step_task : Task S → ℕ → ℕ → Cont S → S → Div S R → S × Div S R
    unfolding perform push_min run last
    step_task f low high c st d =
        let (c', d') = push_min (used st) low c d in
        if ltb high (add_size (used st) low)
        then (st, d)
        else (last (run f high st), perform high c' [] (run f high st) d')

    -- the two attempts of the case of `SpecTaskSet`, in the order in which they are saved
    unfoldable pub first_attempt : Task S → List (Task S) → ℕ → Cont S → S → Div S R → Div S R
    unfolding push_rest save_added head_max
    first_attempt f fs high c st d =
        let (c', d') = push_rest fs high c d in
        save_added (spec_task f 0 (head_max high (used st) (suc (length fs)))) c' st d'

    unfoldable pub second_attempt : Task S → List (Task S) → ℕ → Cont S → S → Div S R → Div S R
    unfolding alloc save_added head_budget rest_max
    second_attempt f fs high c st d =
        let n = suc (length fs) in
        let (c', d') = alloc (spec_task f (head_budget high (used st) n + 1) high) c d in
        save_added (task_set fs (rest_max high (used st) n)) c' st d'

    unfoldable pub step_set : List (Task S) → ℕ → Cont S → S → Div S R → Div S R
    unfolding save first_attempt second_attempt budget
    step_set [] high c st d = save c st d
    step_set (f ∷ fs) high c st d =
        let d' = first_attempt f fs high c st d in
        let n = suc (length fs) in
        if not (length fs == 0) && ltb (head_budget high (used st) n) (budget high (used st))
        then second_attempt f fs high c st d'
        else d'

    -- the switch on the head of the continuation, with the state that it leaves
    unfoldable pub dispatch : Spec S → Cont S → S → Div S R → S × Div S R
    unfolding step_task step_set save
    dispatch (check_min low) c st d = (st, if ltb (used st) low then d else save c st d)
    dispatch (spec_task f low high) c st d = step_task f low high c st d
    dispatch (task_set fs high) c st d = (st, step_set fs high c st d)

    -- `step()` after the restores: `true` is success
    unfoldable pub step_cont : Cont S → S → Div S R → Bool × S × Div S R
    unfolding dispatch
    step_cont null st d = (true, st, d)
    step_cont (cell a x c) st d = let (st', d') = dispatch x c st d in (false, st', d')

    -- `step()` in the search state `st`; `none` if nothing is saved, which `search` rules out
    unfoldable pub step : S → Div S R → Option (Bool × S × Div S R)
    unfolding step_cont
    step st d = elim (d.saves) [
      | [] ↦ none
      | v ∷ vs ↦ some (
          step_cont v.cont (give v.ss st)
            (record d { next = v.next; saves = vs; steps = d.steps + 1 }))
    ]
