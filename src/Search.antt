-- ===== src/Search.antt =====
-- lazyparam_prover/search_state.h: what a proof search works on. The clause index is a parameter
-- of the operations; the state keeps the id of the next starting clause. A suspended clause
-- (`memory::Lazy`) is the clause that it gives, and the trace of debug builds is left out.
pub mod Fresh
pub mod Laws
use tptp_benchmark_go.Prelude.{
  ℕ, zero, suc, ◌+◌, ◌%◌, ◌^◌, Bool, true, false, Option, none, some, ◌>>=◌, if◌then◌else◌, List,
  [], ◌∷◌, ◌++◌, reverse, length,
}
use tptp_benchmark_go.Syntax.Term.{Term}
use tptp_benchmark_go.Syntax.Atom.{Atom}
use tptp_benchmark_go.Syntax.Clause.{AndClause}
use tptp_benchmark_go.Order.Constraint.{Relation, OrderAtom}
use tptp_benchmark_go.Order.Constrained
use tptp_benchmark_go.Order.Constrained.{ConstrainedValuation, push_constraint}
use tptp_benchmark_go.Derived.{DerAndClause, OrForm, derived, constraints, cost}
use tptp_benchmark_go.Derived.Allocate.{allocate_clause}
use tptp_benchmark_go.Unify.{Valuation}

-- `false_` is the path, whose atoms a countermodel makes false; `true_` are the atoms proved.
pub record Branch : Type 0 where
  pub false_ : List Atom
  pub true_ : List Atom

abbrev pub empty_branch : Branch
empty_branch = record { false_ = []; true_ = [] }

pub record BranchSet : Type 0 where
  pub branch : Branch
  pub branches : List Branch
  pub branches_size : ℕ

-- `BranchSet::push(a)`
unfoldable pub push : Atom → BranchSet → BranchSet
push a s = record {
  branch = record (s.branch) { true_ = a ∷ s.branch.true_ };
  branches = record (s.branch) { false_ = a ∷ s.branch.false_ } ∷ s.branches;
  branches_size = s.branches_size + 1;
}

-- the counters of `Stats` that the connection tableau uses
pub record Stats : Type 0 where
  pub strong_steps : ℕ
  pub strong_only_steps : ℕ
  pub weak_steps : ℕ

pub record SearchState : Type 0 where
  pub next_starting : ℕ
  pub val : ConstrainedValuation
  pub nodes_used : ℕ
  pub clauses_used : List DerAndClause
  pub lazy_clauses_used : List DerAndClause
  pub stats : Stats

-- `SearchState::Save`
pub record Saved : Type 0 where
  pub val : Constrained.Saved
  pub nodes_used : ℕ
  pub clauses_used : List DerAndClause
  pub lazy_clauses_used : List DerAndClause
  pub next_starting : ℕ

unfoldable pub save : SearchState → Saved
save st = record {
  val = Constrained.save st.val;
  nodes_used = st.nodes_used;
  clauses_used = st.clauses_used;
  lazy_clauses_used = st.lazy_clauses_used;
  next_starting = st.next_starting;
}

unfoldable pub restore : Saved → SearchState → SearchState
restore s st = record st {
  val = Constrained.restore s.val st.val;
  nodes_used = s.nodes_used;
  clauses_used = s.clauses_used;
  lazy_clauses_used = s.lazy_clauses_used;
  next_starting = s.next_starting;
}

-- `get_proof`
unfoldable pub get_proof : SearchState → OrForm
get_proof st = st.clauses_used ++ st.lazy_clauses_used

module _ (cmp : Valuation → Term → Term → Option Relation) where
  -- the loop over the constraints of a clause, from the last one on
  unfoldable pub push_constraints :
      ConstrainedValuation → List OrderAtom → Option (Bool × ConstrainedValuation)
  unfolding push_constraint
  push_constraints v [] = some (true, v)
  push_constraints v (c ∷ cs) =
      push_constraints v cs >>= λ r. if r.0 then push_constraint cmp r.1 c else some (false, r.1)

  -- `allocate(dcla)`: the atoms of the clause, unless a constraint fails; the sum of the
  -- costs wraps
  unfoldable pub allocate : SearchState → DerAndClause → Option (Option AndClause × SearchState)
  unfolding push_constraints allocate_clause
  allocate st c =
      let (d, val) = allocate_clause st.val.val c in
      push_constraints (record (st.val) { val = val }) (constraints d) >>= λ r.
      let st' = record st {
        val = r.1;
        clauses_used = d ∷ st.clauses_used;
        nodes_used = (st.nodes_used + cost d) % 2 ^ 64;
      } in
      some (if r.0 then (some (derived d), st') else (none, st'))
