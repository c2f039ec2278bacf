-- ===== src/Tests/Tableau.antt =====
-- The search state and the closing of branches: their theorems on small inputs.
use tptp_benchmark_go.Prelude.{
  ℕ, ◌≤◌, ◌%◌, ◌^◌, ◌+◌, ◌≡◌, refl, Bool, true, false, Option, some, [], ◌∷◌, map, Any, arith,
}
use tptp_benchmark_go.Memory.Rewind.{size}
use tptp_benchmark_go.Syntax.Term.{Term, var, nil, cons, rename}
use tptp_benchmark_go.Syntax.Atom.{Atom, make}
use tptp_benchmark_go.Syntax.Clause
use tptp_benchmark_go.Syntax.Clause.{AndClause, atoms, number_from}
use tptp_benchmark_go.Order.Constraint
use tptp_benchmark_go.Order.Constraint.{Relation, ne, unknown}
use tptp_benchmark_go.Order.Lpo.{cmp}
use tptp_benchmark_go.Derived.{DerAndClause, var_range, cost, constraints}
use tptp_benchmark_go.Derived.Allocate.{allocate_clause, relocate_clause}
use tptp_benchmark_go.Unify.{Valuation}
use tptp_benchmark_go.Unify.Settle.{Settles}
use tptp_benchmark_go.Index.{ClauseIndex}
use tptp_benchmark_go.Index.Matches.{Matches}
use tptp_benchmark_go.Search.{SearchState, allocate, save, restore}
use tptp_benchmark_go.Search.Laws.{allocate-restore}
use tptp_benchmark_go.Tableau.{reduction, or_, is_lemma, reductions}
use tptp_benchmark_go.Tableau.Laws.{opposites, reductions-opposites, SameUnder, is_lemma_total}
use tptp_benchmark_go.Tests.Data.{arity, constant, bindings, bindings-Closed, bindings-Acyclic}
use tptp_benchmark_go.Tests.Order.{sizes}

abbrev says_ne : Valuation → Term → Term → Option Relation
says_ne val x y = some ne

abbrev no_clauses : ClauseIndex
no_clauses = record { and_clauses = []; is_starting_clause = [] }

abbrev no_matches : Matches
no_matches = record { sets = []; map = [] }

abbrev state : SearchState
state = record {
  next_starting = 1;
  val = record {
    constraints = [];
    val = bindings;
    stats = record { unifications = 0; failed_unifications = 0; broken_constraints = 0 };
  };
  nodes_used = 3;
  clauses_used = [];
  lazy_clauses_used = [];
  stats = record { strong_steps = 0; strong_only_steps = 0; weak_steps = 0 };
}

-- the predicate 4 of variable 1, of the constant that it is bound to, and the negation of the latter
abbrev goal : Atom
goal = make true 4 (cons (var 1) nil)

abbrev proved : Atom
proved = make true 4 (cons constant nil)

abbrev refuted : Atom
refuted = make false 4 (cons constant nil)

reductions-opposites_example :
    reductions says_ne no_clauses no_matches 9 2 state goal (goal ∷ refuted ∷ [])
    ≡ map (λ b. or_ 2 state (reduction 2 goal b)) (opposites goal (goal ∷ refuted ∷ []))
reductions-opposites_example =
    reductions-opposites says_ne no_clauses no_matches 9 2 state goal (goal ∷ refuted ∷ [])
      (omega arith, omega arith) ((omega arith, omega arith), ((omega arith, omega arith), tt))

is_lemma_total_example :
    (x : Bool) × Settles
      (λ n. is_lemma says_ne no_clauses no_matches n bindings goal (refuted ∷ proved ∷ []))
      x
    × (x ≡ true
        → Any
            (SameUnder says_ne no_clauses no_matches arity
              (λ p. 1)
              sizes
              bindings
              bindings-Closed
              bindings-Acyclic
              goal)
            (refuted ∷ proved ∷ []))
unfolding size
is_lemma_total_example =
    is_lemma_total says_ne no_clauses no_matches arity (λ p. 1) sizes bindings bindings-Closed
      bindings-Acyclic goal (refuted ∷ proved ∷ [])
      ((omega arith, omega arith), (omega arith, tt), refl)
      (
        ((omega arith, omega arith), ((refl, tt), tt), refl),
        (((omega arith, omega arith), ((refl, tt), tt), refl), tt),
      )

-- a clause of the predicate 4 of variable 0, which must differ from the constant
abbrev unit_clause : DerAndClause
unit_clause = record {
  ptr = record {
    cost = 2;
    derived = Clause.make (make true 4 (cons (var 0) nil) ∷ []);
    range = record { begin = 0; end = 1 };
    sources = [];
    constraints =
        record {
          status = unknown;
          rel = ne;
          pairs = record { a = var 0; b = constant } ∷ [];
          done = 0;
          range = record { begin = 0; end = 1 };
        }
        ∷ [];
  };
  offset = 0;
  id_offset = 0;
}

allocate-restore_example :
    (k : ℕ) × ((n : ℕ)
      → k ≤ n
      → (m : Option AndClause) × (st' : SearchState) × (allocate
            (λ val. cmp n sizes val)
            state
            unit_clause
          ≡ some (m, st'))
        × (st'.clauses_used ≡ (allocate_clause bindings unit_clause).0 ∷ [])
        × (st'.nodes_used ≡ (3 + cost unit_clause) % 2 ^ 64)
        × (restore (save state) st' ≡ state))
unfolding var_range constraints allocate_clause relocate_clause size Constraint.shift rename
allocate-restore_example =
    allocate-restore arity sizes state unit_clause bindings-Closed bindings-Acyclic (omega arith)
      (λ h. omega arith, tt) (((omega arith, (refl, tt)), tt), tt)

-- the state with the constraint that variable 0 differs from the constant
abbrev constrained : SearchState
constrained = record state {
  val = record (state.val) { constraints = unit_clause.ptr.constraints };
}
