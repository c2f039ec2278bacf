-- ===== src/Tests/Unify.antt =====
-- Unification and its theorems on small inputs.
use tptp_benchmark_go.Prelude.{ℕ, ◌≡◌, refl, some, Bool, [], ◌∷◌, arith, true, false}
use tptp_benchmark_go.Memory.Rewind.{get, size, put, save, restore, undo, grow}
use tptp_benchmark_go.Syntax.Term.{Term, Terms, var, fun, nil, cons}
use tptp_benchmark_go.Syntax.Atom.{Atom, make}
use tptp_benchmark_go.Unify.{
  Valuation, mgu, mgu_atom, mgu_step, mgu_args, mgu_down, assign, assign_root, shallow_eval,
  has_var, any_var, any_var_args, eval,
}
use tptp_benchmark_go.Unify.Subst.{Solves, apply}
use tptp_benchmark_go.Unify.Solve.{Equates}
use tptp_benchmark_go.Unify.Settle.{Settles}
use tptp_benchmark_go.Unify.Eval.{Resolved}
use tptp_benchmark_go.Unify.Total.Mgu.{Unified, mgu_total}
use tptp_benchmark_go.Unify.Total.Atoms.{AtomsUnified, mgu_atom_total}
use tptp_benchmark_go.Unify.Total.Evaluate.{eval_total}
use tptp_benchmark_go.Tests.Data.{arity, constant, bindings, bindings-Closed, bindings-Acyclic}

-- the valuation after variable 0 was bound to the functor 5 of variable 1
abbrev bound_bindings : Valuation
bound_bindings = record {
  cells = some (fun 5 (cons (var 1) nil)) ∷ some constant ∷ [];
  diffs = 0 ∷ 1 ∷ [];
}

-- the functor 3 of variable 0 and 7 against the functor 3 of the functor 5 of variable 1, and
-- variable 1
abbrev left_args : Terms
left_args = cons (var 0) (cons constant nil)

abbrev right_args : Terms
right_args = cons (fun 5 (cons (var 1) nil)) (cons (var 1) nil)

mgu_run : mgu 9 bindings (fun 3 left_args) (fun 3 right_args) ≡ some (true, bound_bindings)
unfolding mgu mgu_step mgu_args assign assign_root shallow_eval has_var any_var any_var_args get put
    size
mgu_run = refl

-- The last arguments bind variable 0, then the first ones do not unify, and the binding is undone.
mgu_atom_run :
    mgu_atom 9 bindings
      (make true 4 (cons (var 1) (cons (var 0) nil)))
      (make true 4 (cons (fun 8 nil) (cons (fun 5 (cons (var 1) nil)) nil)))
    ≡ some (false, bindings)
unfolding mgu_atom mgu_down mgu mgu_step mgu_args assign assign_root shallow_eval has_var any_var
    any_var_args get put size save restore undo grow
mgu_atom_run = refl

mgu_total_example :
    (b : Bool) × (val' : Valuation) × Settles
      (λ n. mgu n bindings (fun 3 left_args) (fun 3 right_args))
      (b, val')
    × Unified arity bindings (Equates (fun 3 left_args) (fun 3 right_args)) b val'
unfolding size
mgu_total_example =
    mgu_total arity bindings (fun 3 left_args) (fun 3 right_args) bindings-Acyclic bindings-Closed
      (refl, (omega arith, ((refl, tt), tt))) (refl, ((refl, (omega arith, tt)), (omega arith, tt)))

abbrev left_atom : Atom
left_atom = make true 4 (cons (var 1) (cons (var 0) nil))

abbrev right_atom : Atom
right_atom = make true 4 (cons (fun 8 nil) (cons (fun 5 (cons (var 1) nil)) nil))

mgu_atom_total_example :
    (b : Bool) × (val' : Valuation) × Settles
      (λ n. mgu_atom n bindings left_atom right_atom)
      (b, val')
    × AtomsUnified arity bindings left_atom right_atom b val'
unfolding size
mgu_atom_total_example =
    mgu_atom_total arity bindings left_atom right_atom bindings-Acyclic bindings-Closed
      (omega arith, (omega arith, tt)) ((refl, tt), ((refl, (omega arith, tt)), tt)) (λ e. refl)

-- the functor 3 of variable 0 and variable 1
eval_total_example :
    (u : Term) × Settles (λ n. eval n bindings (fun 3 (cons (var 0) (cons (var 1) nil)))) u
    × Resolved bindings u
    × ((s : ℕ → Term)
        → Solves s bindings
        → apply s u ≡ apply s (fun 3 (cons (var 0) (cons (var 1) nil))))
eval_total_example = eval_total bindings bindings-Acyclic (fun 3 (cons (var 0) (cons (var 1) nil)))
