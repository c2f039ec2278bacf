-- ===== src/Axioms/Arity.antt =====
-- `ArityCtx` of lazyparam_prover/eq_axioms.h: the numbers of arguments of the functors and
-- predicates of a problem. A `std::map` is a list of its entries in the order of the keys;
-- `none` is the error on a name with two numbers of arguments.
pub mod Laws
use tptp_benchmark_go.Prelude.{
  ℕ, ◌+◌, Bool, true, false, Option, none, some, ◌>>=◌, ◌==◌, ltb, if◌then◌else◌, List, [], ◌∷◌,
}
use tptp_benchmark_go.Syntax.Term.{Term, Terms, var, fun, nil, cons, arg_count}
use tptp_benchmark_go.Syntax.Atom.{Atom, eq_pred}
use tptp_benchmark_go.Syntax.Clause.{AndClause, atoms}
use tptp_benchmark_go.Derived.{DerAndClause, OrForm, derived, sources}

pub record Entry : Type 0 where
  pub key : ℕ
  pub count : ℕ

-- `m[k] = n`
unfoldable pub set_entry : ℕ → ℕ → List Entry → List Entry
set_entry k n [] = record { key = k; count = n } ∷ []
set_entry k n (x ∷ m) =
    let rest = set_entry k n m in
    if ltb k x.key
    then (record { key = k; count = n } ∷ x ∷ m)
    else (if k == x.key then (record { key = k; count = n } ∷ m) else x ∷ rest)

-- `m.count(k)` and `m[k]`
unfoldable pub find_entry : ℕ → List Entry → Option ℕ
find_entry k [] = none
find_entry k (x ∷ m) = let rest = find_entry k m in if k == x.key then some x.count else rest

pub record ArityCtx : Type 0 where
  pub pred_count : List Entry
  pub fun_arity : List Entry
  pub pred_arity : List Entry

unfoldable pub initial : ArityCtx
unfolding set_entry
initial = record { pred_count = []; fun_arity = []; pred_arity = set_entry eq_pred 2 [] }

-- the check of a name, and the new entry
unfoldable pub note_arity : ℕ → ℕ → List Entry → Option (List Entry)
unfolding find_entry set_entry
note_arity k n m = elim (find_entry k m) [
  | none ↦ some (set_entry k n m)
  | some j ↦ if j == n then some (set_entry k n m) else none
]

unfoldable pub note_fun : ℕ → ℕ → ArityCtx → Option ArityCtx
unfolding note_arity
note_fun f n ctx = note_arity f n ctx.fun_arity >>= λ m. some (record ctx { fun_arity = m })

-- `traverse(Term)`: the arguments from the last to the first
unfoldable mutual
  unfolding note_fun

  pub traverse : Term → ArityCtx → Option ArityCtx
  traverse (var i) ctx = some ctx
  traverse (fun f ts) ctx = note_fun f (arg_count ts) ctx >>= traverse_args ts

  pub traverse_args : Terms → ArityCtx → Option ArityCtx
  traverse_args nil ctx = some ctx
  traverse_args (cons t ts) ctx = traverse_args ts ctx >>= traverse t

-- `if(!pred_count.count(p)) pred_count[p] = 0; pred_count[p]++;`
unfoldable pub count_of : ℕ → List Entry → ℕ
unfolding find_entry
count_of p m = elim (find_entry p m) [ none ↦ 0 | some n ↦ n ]

unfoldable pub count_pred : ℕ → ArityCtx → ArityCtx
unfolding count_of set_entry
count_pred p ctx = record ctx {
  pred_count = set_entry p (count_of p ctx.pred_count + 1) ctx.pred_count;
}

unfoldable pub note_pred : ℕ → ℕ → ArityCtx → Option ArityCtx
unfolding note_arity
note_pred p n ctx = note_arity p n ctx.pred_arity >>= λ m. some (record ctx { pred_arity = m })

unfoldable pub traverse_atom : Atom → ArityCtx → Option ArityCtx
unfolding count_pred note_pred traverse_args
traverse_atom a ctx =
    note_pred a.pred (arg_count a.args) (count_pred a.pred ctx) >>= traverse_args a.args

unfoldable pub traverse_atoms : List Atom → ArityCtx → Option ArityCtx
unfolding traverse_atom
traverse_atoms [] ctx = some ctx
traverse_atoms (a ∷ l) ctx = traverse_atoms l ctx >>= traverse_atom a

-- `traverse(AndClause)`, for all `source(i)`, the last one first
unfoldable pub traverse_clauses : List AndClause → ArityCtx → Option ArityCtx
unfolding traverse_atoms
traverse_clauses [] ctx = some ctx
traverse_clauses (c ∷ cs) ctx = traverse_clauses cs ctx >>= traverse_atoms (atoms c)

unfoldable pub traverse_derived : DerAndClause → ArityCtx → Option ArityCtx
unfolding traverse_clauses
traverse_derived c ctx = traverse_atoms (atoms (derived c)) ctx >>= traverse_clauses (sources c)

unfoldable pub traverse_form : OrForm → ArityCtx → Option ArityCtx
unfolding traverse_derived
traverse_form [] ctx = some ctx
traverse_form (c ∷ cs) ctx = traverse_derived c ctx >>= traverse_form cs

unfoldable pub has_equality : OrForm → Option Bool
unfolding traverse_form count_of initial
has_equality f = traverse_form f initial >>= λ ctx. some (ltb 0 (count_of eq_pred ctx.pred_count))
