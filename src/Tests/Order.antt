-- ===== src/Tests/Order.antt =====
-- The orders and the constraints: their theorems on small inputs.
use tptp_benchmark_go.Prelude.{ℕ, ◌≡◌, refl, some, [], ◌∷◌, arith, true, false, Bool, Option, List}
use tptp_benchmark_go.Memory.Rewind.{size}
use tptp_benchmark_go.Syntax.Term.{Term, var, fun, nil, cons}
use tptp_benchmark_go.Unify.Subst.{apply, Solves}
use tptp_benchmark_go.Order.FunOrd
use tptp_benchmark_go.Order.FunOrd.{FunOrd, size_of, less_by, less_trans}
use tptp_benchmark_go.Order.Constraint.{Relation, l, ne, OrderAtom, unknown, drop}
use tptp_benchmark_go.Order.Constraint.Laws.{Side, less, Agrees, lex}
use tptp_benchmark_go.Order.Constrained.{check_all}
use tptp_benchmark_go.Order.Constrained.Laws.{Checkable, AllSatisfied, Verdict, check_all-Verdict}
use tptp_benchmark_go.Order.Lpo.{cmp}
use tptp_benchmark_go.Order.Lpo.Sound.{Holds}
use tptp_benchmark_go.Order.Lpo.Total.{cmp_total}
use tptp_benchmark_go.Unify.Settle.{Settles}
use tptp_benchmark_go.Tests.Data.{arity, constant, bindings, bindings-Closed, bindings-Acyclic}

-- functor 0 is the largest, then 2, then 1
abbrev pub sizes : FunOrd
sizes = record { by_id = 9 ∷ 3 ∷ 5 ∷ [] }

less_trans_example : (FunOrd.less sizes 1 0 ≡ true) × (FunOrd.less sizes 0 1 ≡ false)
unfolding FunOrd.less size_of less_by
less_trans_example = less_trans sizes 1 2 0 refl refl

-- an order in which all terms are below the others, and comparisons that only say `L` or `G`
abbrev sides : Term → Term → Side
sides a b = less

abbrev says_ne : Term → Term → Option Relation
says_ne a b = some ne

abbrev below_constraint : OrderAtom
below_constraint = record {
  rel = l;
  pairs = record { a = var 0; b = constant } ∷ record { a = constant; b = var 0 } ∷ [];
  status = unknown;
  done = 0;
  range = record { begin = 0; end = 1 };
}

check_all-Verdict_example :
    (r : Bool × List OrderAtom) × (check_all says_ne (below_constraint ∷ []) [] ≡ some r)
    × Verdict sides says_ne (AllSatisfied sides says_ne (below_constraint ∷ [])) [] r
unfolding Agrees Checkable drop lex
check_all-Verdict_example =
    check_all-Verdict sides says_ne (below_constraint ∷ []) []
      ((((ne, refl, refl), ((ne, refl, refl), tt)), (omega arith, refl)), tt)

-- variable 1, which is bound to 7, against the functor 5 of 7
cmp_total_example :
    (r : Relation) × Settles (λ n. cmp n sizes bindings (var 1) (fun 5 (cons constant nil))) r
    × ((s : ℕ → Term)
        → (sol : Solves s bindings)
        → Holds arity sizes bindings s bindings-Closed sol r
            (apply s (var 1))
            (apply s (fun 5 (cons constant nil))))
unfolding size
cmp_total_example =
    cmp_total arity sizes bindings bindings-Closed bindings-Acyclic (var 1)
      (fun 5 (cons constant nil)) (omega arith) (refl, ((refl, tt), tt))
