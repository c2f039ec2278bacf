-- ===== src/Derived.antt =====
-- `DerAndClause` of lazyparam_prover/derived.h: a clause with its cost, the clauses that it was
-- derived from and its order constraints; and its evaluation in lazyparam_prover/mgu.h.
pub mod Laws
pub mod Allocate
use tptp_benchmark_go.Prelude.{
  ℕ, ◌+◌, Bool, true, false, Option, none, some, ◌>>=◌, ◌==◌, ◌&&◌, if◌then◌else◌, List, [], ◌∷◌,
  map, length, reverse,
}
use tptp_benchmark_go.Syntax.Range.{VarRange, no_vars, join}
use tptp_benchmark_go.Syntax.Clause
use tptp_benchmark_go.Syntax.Clause.{AndClause, eq_clause}
use tptp_benchmark_go.Order.Constraint
use tptp_benchmark_go.Order.Constraint.{TermPair, OrderAtom, eq_order_atom}
use tptp_benchmark_go.Unify.{Valuation, eval, eval_clause, relocate}
use tptp_benchmark_go.Memory.Rewind.{grow, size}

-- what `ptr` and `constraints_ptr` point to
pub record Stored : Type 0 where
  pub cost : ℕ
  pub derived : AndClause
  pub range : VarRange
  pub sources : List AndClause
  pub constraints : List OrderAtom

pub record DerAndClause : Type 0 where
  pub ptr : Stored
  pub offset : ℕ
  pub id_offset : ℕ

-- `struct OrForm`, the vector `and_clauses`
abbrev pub OrForm : Type 0
OrForm = List DerAndClause

unfoldable pub set_id_offset : ℕ → DerAndClause → DerAndClause
set_id_offset n c = record c { id_offset = n }

unfoldable pub shift : ℕ → DerAndClause → DerAndClause
shift d c = record c { offset = c.offset + d }

-- The stored range, without the offset.
unfoldable pub var_range : DerAndClause → VarRange
var_range c = c.ptr.range

unfoldable pub cost : DerAndClause → ℕ
cost c = c.ptr.cost

unfoldable pub derived : DerAndClause → AndClause
derived c = Clause.set_id_offset c.id_offset (Clause.shift c.offset c.ptr.derived)

-- all `source(i)` and all `constraint(i)`
unfoldable pub sources : DerAndClause → List AndClause
sources c = map (Clause.shift c.offset) c.ptr.sources

unfoldable pub constraints : DerAndClause → List OrderAtom
constraints c = map (Constraint.shift c.offset) c.ptr.constraints

pub record Builder : Type 0 where
  pub offset : ℕ
  pub id_offset : ℕ
  pub cost : ℕ
  pub derived : AndClause
  pub sources : List AndClause
  pub constraints : List OrderAtom

unfoldable pub join_clauses : VarRange → List AndClause → VarRange
join_clauses r [] = r
join_clauses r (c ∷ cs) = join_clauses (join r (Clause.var_range c)) cs

unfoldable pub join_constraints : VarRange → List OrderAtom → VarRange
join_constraints r [] = r
join_constraints r (c ∷ cs) = join_constraints (join r (Constraint.var_range c)) cs

unfoldable pub build : Builder → DerAndClause
unfolding join_clauses join_constraints
build b = record {
  ptr = record {
    cost = b.cost;
    derived = b.derived;
    range =
        join_constraints (join_clauses (join no_vars (Clause.var_range b.derived)) b.sources)
          b.constraints;
    sources = b.sources;
    constraints = b.constraints;
  };
  offset = b.offset;
  id_offset = b.id_offset;
}

-- `DerAndClause(A, cost, cla)`
unfoldable pub of_clause : ℕ → AndClause → DerAndClause
unfolding build
of_clause n c = build (record {
  offset = 0;
  id_offset = 0;
  cost = n;
  derived = c;
  sources = c ∷ [];
  constraints = [];
})

-- `to_builder(A)`: the sources and the constraints are pushed from the last to the first.
unfoldable pub to_builder : DerAndClause → Builder
unfolding derived sources constraints
to_builder c = record {
  offset = c.offset;
  id_offset = c.id_offset;
  cost = c.ptr.cost;
  derived = derived c;
  sources = reverse (sources c);
  constraints = reverse (constraints c);
}

-- the loops of `operator==`, which compare all pairs, the last one first
unfoldable pub eq_sources : List AndClause → List AndClause → Option Bool
eq_sources [] [] = some true
eq_sources [] (d ∷ ds) = some false
eq_sources (c ∷ cs) [] = some false
eq_sources (c ∷ cs) (d ∷ ds) = eq_sources cs ds >>= λ x. eq_clause c d >>= λ y. some (x && y)

unfoldable pub eq_constraints : List OrderAtom → List OrderAtom → Option Bool
eq_constraints [] [] = some true
eq_constraints [] (d ∷ ds) = some false
eq_constraints (c ∷ cs) [] = some false
eq_constraints (c ∷ cs) (d ∷ ds) =
    eq_constraints cs ds >>= λ x. eq_order_atom c d >>= λ y. some (x && y)

unfoldable pub eq_derived : DerAndClause → DerAndClause → Option Bool
unfolding derived sources constraints eq_sources eq_constraints
eq_derived a b = eq_clause (derived a) (derived b) >>= λ same.
    if (a.ptr.cost == b.ptr.cost)
      && same
      && (length a.ptr.sources == length b.ptr.sources)
      && (length a.ptr.constraints == length b.ptr.constraints)
    then (eq_sources (sources a) (sources b) >>= λ x.
        eq_constraints (constraints a) (constraints b) >>= λ y. some (x && y))
    else some false

-- `Valuation::eval` on a pair, a constraint and a derived clause
unfoldable pub eval_pair : ℕ → Valuation → TermPair → Option TermPair
eval_pair n val p = eval n val p.a >>= λ a. eval n val p.b >>= λ b. some (record { a = a; b = b })

unfoldable pub eval_pairs : ℕ → Valuation → List TermPair → Option (List TermPair)
unfolding eval_pair
eval_pairs n val [] = some []
eval_pairs n val (p ∷ ps) = eval_pair n val p >>= λ q. eval_pairs n val ps >>= λ qs. some (q ∷ qs)

unfoldable pub eval_constraint : ℕ → Valuation → OrderAtom → Option OrderAtom
unfolding eval_pairs
eval_constraint n val c = eval_pairs n val c.pairs >>= λ ps. some (Constraint.build c.rel ps)

unfoldable pub eval_sources : ℕ → Valuation → List AndClause → Option (List AndClause)
eval_sources n val [] = some []
eval_sources n val (c ∷ cs) =
    eval_clause n val c >>= λ d. eval_sources n val cs >>= λ ds. some (d ∷ ds)

unfoldable pub eval_constraints : ℕ → Valuation → List OrderAtom → Option (List OrderAtom)
unfolding eval_constraint
eval_constraints n val [] = some []
eval_constraints n val (c ∷ cs) =
    eval_constraint n val c >>= λ d. eval_constraints n val cs >>= λ ds. some (d ∷ ds)

unfoldable pub eval_derived : ℕ → Valuation → DerAndClause → Option DerAndClause
unfolding to_builder build eval_sources eval_constraints
eval_derived n val c =
    let b = to_builder c in
    eval_clause n val b.derived >>= λ d. eval_sources n val b.sources >>= λ ss.
    eval_constraints n val b.constraints >>= λ cs.
    some (build (record b { derived = d; sources = ss; constraints = cs }))
