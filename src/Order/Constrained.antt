-- ===== src/Order/Constrained.antt =====
-- `ConstrainedValuation` of lazyparam_prover/constrained_valuation.h: a valuation with order
-- constraints that every unification keeps. The order is a parameter, `cmp val l r`, without a
-- state of its own (the `Save` of an order and its `resize`); `comparisons` is not counted.
pub mod Laws
pub mod Returns
pub mod Total
use tptp_benchmark_go.Prelude.{
  ℕ, ◌+◌, Bool, true, false, Option, some, ◌>>=◌, if◌then◌else◌, List, [], ◌∷◌,
}
use tptp_benchmark_go.Memory.Rewind
use tptp_benchmark_go.Syntax.Term.{Term}
use tptp_benchmark_go.Syntax.Atom.{Atom}
use tptp_benchmark_go.Order.Constraint.{Relation, holds, fails, unknown, OrderAtom, reduce}
use tptp_benchmark_go.Unify.{Valuation, mgu, mgu_atom}

pub record Stats : Type 0 where
  pub unifications : ℕ
  pub failed_unifications : ℕ
  pub broken_constraints : ℕ

pub record ConstrainedValuation : Type 0 where
  pub constraints : List OrderAtom
  pub val : Valuation
  pub stats : Stats

pub record Saved : Type 0 where
  pub val : Rewind.Save
  pub constraints : List OrderAtom

unfoldable pub save : ConstrainedValuation → Saved
save v = record { val = Rewind.save v.val; constraints = v.constraints }

unfoldable pub restore : Saved → ConstrainedValuation → ConstrainedValuation
restore s v = record v { val = Rewind.restore s.val v.val; constraints = s.constraints }

-- `check_and_push_constraint`, on the list of constraints alone: whether it can still be
-- satisfied, and the new list
unfoldable pub check_and_push :
    (Term → Term → Option Relation) → List OrderAtom → OrderAtom → Option (Bool × List OrderAtom)
check_and_push cmp cs c = reduce cmp c >>= λ d. elim (d.status) [
  | holds ↦ some (true, cs)
  | unknown ↦ some (true, d ∷ cs)
  | fails ↦ some (false, cs)
]

-- the loop of `check_constraints`, from the old list into the new one
unfoldable pub check_all :
    (Term → Term → Option Relation)
    → List OrderAtom
    → List OrderAtom
    → Option (Bool × List OrderAtom)
unfolding check_and_push
check_all cmp [] c2 = some (true, c2)
check_all cmp (c ∷ cs) c2 =
    check_and_push cmp c2 c >>= λ r. if r.0 then check_all cmp cs r.1 else some (false, r.1)

module _ (cmp : Valuation → Term → Term → Option Relation) where
  unfoldable pub check_constraints : ConstrainedValuation → Option (Bool × ConstrainedValuation)
  unfolding check_all
  check_constraints v = check_all (cmp v.val) v.constraints [] >>= λ r.
      some (if r.0 then (true, record v { constraints = r.1 }) else (false, v))

  unfoldable pub push_constraint :
      ConstrainedValuation → OrderAtom → Option (Bool × ConstrainedValuation)
  unfolding check_and_push
  push_constraint v c = elim (c.status) [
    | holds ↦ some (true, v)
    | fails ↦ check_and_push (cmp v.val) v.constraints c >>= λ r.
        some (r.0, record v { constraints = r.1 })
    | unknown ↦ check_and_push (cmp v.val) v.constraints c >>= λ r.
        some (r.0, record v { constraints = r.1 })
  ]

  unfoldable pub count_unification : ConstrainedValuation → ConstrainedValuation
  count_unification v = record v {
    stats = record (v.stats) { unifications = v.stats.unifications + 1 };
  }

  unfoldable pub count_failed : ConstrainedValuation → ConstrainedValuation
  count_failed v = record v {
    stats = record (v.stats) { failed_unifications = v.stats.failed_unifications + 1 };
  }

  unfoldable pub count_broken : ConstrainedValuation → ConstrainedValuation
  count_broken v = record v {
    stats = record (v.stats) { broken_constraints = v.stats.broken_constraints + 1 };
  }

  -- `unify` on terms: the state is saved after `mgu` has written its bindings
  unfoldable pub unify :
      ℕ → ConstrainedValuation → Term → Term → Option (Bool × ConstrainedValuation)
  unfolding check_constraints count_unification count_failed count_broken save restore
  unify n v0 x y =
      let v = count_unification v0 in
      mgu n v.val x y >>= λ r.
      let w = record v { val = r.1 } in
      if r.0
      then (check_constraints w >>= λ s.
          some (if s.0 then (true, s.1) else (false, restore (save w) (count_broken s.1))))
      else some (false, count_failed w)

  -- `unify` on atoms
  unfoldable pub unify_atoms :
      ℕ → ConstrainedValuation → Atom → Atom → Option (Bool × ConstrainedValuation)
  unfolding check_constraints count_unification count_failed count_broken save restore
  unify_atoms n v0 x y =
      let v = count_unification v0 in
      mgu_atom n v.val x y >>= λ r.
      let w = record v { val = r.1 } in
      if r.0
      then (check_constraints w >>= λ s.
          some (if s.0 then (true, s.1) else (false, restore (save w) (count_broken s.1))))
      else some (false, count_failed w)
