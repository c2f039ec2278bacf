-- ===== src/Tests/Split.antt =====
-- Paths and evaluation: the theorems on small inputs.
use tptp_benchmark_go.Prelude.{◌≡◌, refl, some, [], ◌∷◌, All}
use tptp_benchmark_go.Syntax.Term.{Term, var, fun, nil, cons}
use tptp_benchmark_go.Split.{get_at, replace_at, paths}
use tptp_benchmark_go.Split.Laws.{
  get_at-replace_at, replace_at-get_at, LeadsToFun, paths-LeadsToFun,
}
use tptp_benchmark_go.Tests.Data.{constant}

-- the functor 3 of variable 0 and the functor 5 of variable 1
abbrev nested : Term
nested = fun 3 (cons (var 0) (cons (fun 5 (cons (var 1) nil)) nil))

get_at-replace_at_example :
    (u : Term) × (replace_at nested (1 ∷ 0 ∷ []) constant ≡ some u)
    × (get_at u (1 ∷ 0 ∷ []) ≡ some constant)
unfolding get_at
get_at-replace_at_example = get_at-replace_at nested (1 ∷ 0 ∷ []) constant (var 1) refl

replace_at-get_at_example : replace_at nested (1 ∷ 0 ∷ []) (var 1) ≡ some nested
unfolding get_at
replace_at-get_at_example = replace_at-get_at nested (1 ∷ 0 ∷ []) (var 1) refl

paths-LeadsToFun_example : All (LeadsToFun nested) (paths nested)
paths-LeadsToFun_example = paths-LeadsToFun nested
