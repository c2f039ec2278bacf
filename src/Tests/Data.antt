-- ===== src/Tests/Data.antt =====
-- Inputs that the tests share: a valuation (lazyparam_prover/mgu.h) in which one of two variables
-- is bound to a constant.
use tptp_benchmark_go.Prelude.{
  ℕ, zero, suc, ◌==◌, if◌then◌else◌, ◌≡◌, refl, none, some, some_eq, subst, [], ◌∷◌,
}
use tptp_benchmark_go.Memory.Rewind.{get, size}
use tptp_benchmark_go.Syntax.Term.{Term, fun, nil}
use tptp_benchmark_go.Unify.{Valuation}
use tptp_benchmark_go.Unify.Subst.{Closed, Known, Solves, apply}
use tptp_benchmark_go.Unify.Acyclic.{Acyclic, RankedBy, Under}

-- functor 3 has two arguments, functor 5 has one and the others have none
abbrev pub arity : ℕ → ℕ
arity n = if n == 3 then 2 else if n == 5 then 1 else 0

abbrev pub constant : Term
constant = fun 7 nil

-- variable 0 is free, and 1 is the constant 7
abbrev pub bindings : Valuation
bindings = record { cells = none ∷ some constant ∷ []; diffs = 1 ∷ [] }

pub bindings-Closed : Closed arity bindings
unfolding get size
bindings-Closed zero t h = cc
bindings-Closed (suc zero) t h = subst (Known arity bindings) (some_eq h) (refl, tt)
bindings-Closed (suc (suc i)) t h = cc

-- both variables are the constant 7
abbrev pub constants : ℕ → Term
constants i = constant

pub constants-Solves : Solves constants bindings
unfolding get
constants-Solves zero t h = cc
constants-Solves (suc zero) t h = subst (λ t. constant ≡ apply constants t) (some_eq h) refl
constants-Solves (suc (suc i)) t h = cc

bindings-RankedBy : RankedBy (λ i. i) bindings
unfolding get
bindings-RankedBy zero t h = cc
bindings-RankedBy (suc zero) t h = subst (Under (λ i. i) 1) (some_eq h) tt
bindings-RankedBy (suc (suc i)) t h = cc

pub bindings-Acyclic : Acyclic bindings
bindings-Acyclic = record { rank = λ i. i; falls = bindings-RankedBy }
