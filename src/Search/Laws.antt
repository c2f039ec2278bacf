-- ===== src/Search/Laws.antt =====
-- The search state (lazyparam_prover/search_state.h) can be restored after a clause was allocated.
use tptp_benchmark_go.Prelude.{
  ℕ, ◌+◌, ◌-◌, ◌%◌, ◌^◌, ◌≤◌, ◌≡◌, refl, ap, Bool, true, false, Option, none, some, ◌>>=◌, leb,
  if◌then◌else◌, Bool-cases, inl, inr, List, [], ◌∷◌, All, arith,
}
use tptp_benchmark_go.Memory.Rewind.{size}
use tptp_benchmark_go.Memory.Rewind.Laws.{enlarge, run, Legal, restore-run}
use tptp_benchmark_go.Syntax.Term.{Term}
use tptp_benchmark_go.Syntax.Clause.{AndClause}
use tptp_benchmark_go.Order.Constraint.{Relation, Status, holds, fails, unknown, OrderAtom}
use tptp_benchmark_go.Order.Constrained
use tptp_benchmark_go.Order.Constrained.{ConstrainedValuation, check_and_push, push_constraint}
use tptp_benchmark_go.Derived.{DerAndClause, derived, constraints, cost, var_range}
use tptp_benchmark_go.Derived.Allocate.{allocate_clause, relocate_clause}
use tptp_benchmark_go.Unify.{Valuation}
use tptp_benchmark_go.Unify.Subst.{Closed}
use tptp_benchmark_go.Unify.Acyclic.{Acyclic}
use tptp_benchmark_go.Order.FunOrd.{FunOrd}
use tptp_benchmark_go.Order.Lpo.{cmp}
use tptp_benchmark_go.Order.Constrained.Returns.{
  Pending, Compares, KnownPairs, check_and_push-some, enough_for_all,
}
use tptp_benchmark_go.Search.Fresh.{allocated-Closed, allocated-Acyclic}
use tptp_benchmark_go.Search.{SearchState, push_constraints, allocate, save, restore}

pair_if :
    {A B : Type 0} (b : Bool) (x y : A) (z : B)
    → ◌≡◌ {A = Option (A × B)}
        (some (if b then (x, z) else (y, z)))
        (some ((if b then x else y), z))
pair_if true x y z = refl
pair_if false x y z = refl

cost-allocate_clause :
    (val : Valuation) (c : DerAndClause) → cost (allocate_clause val c).0 ≡ cost c
unfolding allocate_clause relocate_clause cost
cost-allocate_clause val c = elim (Bool-cases (leb (var_range c).begin (c.offset + size val))) [
  | inl e ↦ rw e refl
  | inr e ↦ rw e refl
]

module _ (cmp : Valuation → Term → Term → Option Relation) where
  -- A run that returns and changes at most the list of constraints.
  abbrev Pushes : ConstrainedValuation → Option (Bool × ConstrainedValuation) → Type 0
  Pushes v o = (b : Bool) × (cs : List OrderAtom) × (o ≡ some (b, record v { constraints = cs }))

  push_constraint-Pushes :
      (v : ConstrainedValuation) (c : OrderAtom)
      → Compares (cmp v.val) c.pairs
      → Pending c
      → Pushes v (push_constraint cmp v c)
  unfolding push_constraint
  push_constraint-Pushes v c returns h = go c.status
    where
      checked : Pushes v (
          check_and_push (cmp v.val) v.constraints c >>= λ r.
          some (r.0, record v { constraints = r.1 }))
      checked =
          let (r, ran) = check_and_push-some (cmp v.val) v.constraints c h returns in
          (r.0, r.1, rw ran refl)

      go :
          (s : Status)
          → Pushes v (elim s [
            | holds ↦ some (true, v)
            | fails ↦ check_and_push (cmp v.val) v.constraints c >>= λ r.
                some (r.0, record v { constraints = r.1 })
            | unknown ↦ check_and_push (cmp v.val) v.constraints c >>= λ r.
                some (r.0, record v { constraints = r.1 })
          ])
      go holds = (true, v.constraints, refl)
      go fails = checked
      go unknown = checked

  push_constraints-Pushes :
      (v : ConstrainedValuation) (cs : List OrderAtom)
      → All (λ (c : OrderAtom). Compares (cmp v.val) c.pairs) cs
      → All Pending cs
      → Pushes v (push_constraints cmp v cs)
  unfolding push_constraints
  push_constraints-Pushes v [] returns h = (true, v.constraints, refl)
  push_constraints-Pushes v (c ∷ cs) returns h =
      let (b, ds, ran) = push_constraints-Pushes v cs returns.1 h.1 in
      elim (Bool-cases b) [
        | inr e ↦ (false, ds, rw (ran, e) refl)
        | inl e ↦
            let (b', ds', ran') =
              push_constraint-Pushes (record v { constraints = ds }) c returns.0 h.0 in
            (b', ds', rw (ran, e) ran')
      ]

  -- an allocation whose comparisons return
  allocated :
      (st : SearchState) (c : DerAndClause)
      → (var_range c).begin ≤ (var_range c).end
      → All Pending (constraints (allocate_clause st.val.val c).0)
      → All
          (λ (o : OrderAtom). Compares (cmp (allocate_clause st.val.val c).1) o.pairs)
          (constraints (allocate_clause st.val.val c).0)
      → (m : Option AndClause) × (st' : SearchState) × (allocate cmp st c ≡ some (m, st'))
        × (st'.clauses_used ≡ (allocate_clause st.val.val c).0 ∷ st.clauses_used)
        × (st'.nodes_used ≡ (st.nodes_used + cost c) % 2 ^ 64)
        × (restore (save st) st' ≡ st)
  unfolding allocate save restore Constrained.save Constrained.restore allocate_clause run Legal
      cost size
  allocated st c range pending returns =
      let (d, val) = allocate_clause st.val.val c in
      let (b, cs, ran) =
        push_constraints-Pushes (record (st.val) { val = val }) (constraints d) returns pending in
      let k = size st.val.val + (var_range c).end - (var_range c).begin in
      (
        (if b then some (derived d) else none),
        record st {
          val = record (st.val) { val = val; constraints = cs };
          clauses_used = d ∷ st.clauses_used;
          nodes_used = (st.nodes_used + cost d) % 2 ^ 64;
        },
        rw ran (pair_if b (some (derived d)) none _),
        refl,
        ap (λ x. (st.nodes_used + x) % 2 ^ 64) (cost-allocate_clause st.val.val c),
        ap (λ w. record st { val = record (st.val) { val = w } })
            (restore-run st.val.val (enlarge k ∷ []) (omega arith, tt)),
      )

module _ (ar : ℕ → ℕ) (ord : FunOrd) where
  -- Under the lexicographic path order and a closed valuation without cycles, and for a clause whose
  -- stored range is not reversed and whose constraints, once allocated, are over the variables of
  -- the valuation and have pairs left where they are undecided, `allocate` returns with enough
  -- fuel. The clause is then the last one used and its cost is added, whether or not a constraint
  -- failed, and restoring the state saved before gives exactly this state back.
  pub allocate-restore :
      (st : SearchState) (c : DerAndClause)
      → Closed ar st.val.val
      → Acyclic st.val.val
      → (var_range c).begin ≤ (var_range c).end
      → All Pending (constraints (allocate_clause st.val.val c).0)
      → All
          (λ (o : OrderAtom). KnownPairs ar ord (allocate_clause st.val.val c).1 o.pairs)
          (constraints (allocate_clause st.val.val c).0)
      → (k : ℕ) × ((n : ℕ)
          → k ≤ n
          → (m : Option AndClause) × (st' : SearchState) × (allocate (λ val. cmp n ord val) st c
              ≡ some (m, st'))
            × (st'.clauses_used ≡ (allocate_clause st.val.val c).0 ∷ st.clauses_used)
            × (st'.nodes_used ≡ (st.nodes_used + cost c) % 2 ^ 64)
            × (restore (save st) st' ≡ st))
  allocate-restore st c closed acyclic range pending known =
      let val = (allocate_clause st.val.val c).1 in
      let (k, returns) =
        enough_for_all ar ord val (allocated-Closed ar st.val.val c range closed)
          (allocated-Acyclic st.val.val c range acyclic)
          (constraints (allocate_clause st.val.val c).0) known in
      (k, λ n h. allocated (cmp n ord) st c range pending (returns n h))
