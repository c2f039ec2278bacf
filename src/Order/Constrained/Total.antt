-- ===== src/Order/Constrained/Total.antt =====
-- The unification of atoms under constraints (lazyparam_prover/constrained_valuation.h) returns.
use tptp_benchmark_go.Prelude.{
  ℕ, ◌+◌, ◌≤◌, ◌≡◌, ◌↔◌, refl, sym, ap, ◌∙◌, Bool, true, false, some, Bool-cases, inl, inr, List,
  [], All, arith, subst, some_eq,
}
use tptp_benchmark_go.Memory.Rewind
use tptp_benchmark_go.Memory.Rewind.{size}
use tptp_benchmark_go.Memory.Rewind.Laws.{run, Legal, restore-run}
use tptp_benchmark_go.Syntax.Term.{Term, arg_count}
use tptp_benchmark_go.Syntax.Atom.{Atom}
use tptp_benchmark_go.Order.Constraint.{OrderAtom}
use tptp_benchmark_go.Order.Constrained.{
  ConstrainedValuation, check_all, check_constraints, count_unification, count_failed, count_broken,
  save, restore, unify_atoms,
}
use tptp_benchmark_go.Order.Constrained.Returns.{
  Pending, Compares, KnownPairs, check_all-some, enough_for_all,
}
use tptp_benchmark_go.Order.FunOrd.{FunOrd}
use tptp_benchmark_go.Order.Lpo.{cmp}
use tptp_benchmark_go.Unify.{Valuation, mgu_atom}
use tptp_benchmark_go.Unify.Subst.{KnownArgs, Closed, Solves, WellFormed}
use tptp_benchmark_go.Unify.Acyclic.{Acyclic}
use tptp_benchmark_go.Unify.Solve.{EquatesArgs}
use tptp_benchmark_go.Unify.Atoms.{mgu_atom-Outcome}
use tptp_benchmark_go.Unify.Total.Atoms.{AtomsUnified, mgu_atom_total}

module _ (ar : ℕ → ℕ) (ord : FunOrd) where
  -- On success the atoms have the same predicate, and the solutions are exactly the old ones that
  -- make the arguments equal. Without constraints it fails only where there is none of these.
  pub record Unified (v : ConstrainedValuation) (x y : Atom) (b : Bool) (w : ConstrainedValuation)
      : Type 0 where
    pub closed : Closed ar w.val
    pub acyclic : Acyclic w.val
    pub same_pred : b ≡ true → x.pred ≡ y.pred
    pub solved :
        b ≡ true → (s : ℕ → Term) → Solves s w.val ↔ (Solves s v.val × EquatesArgs x.args y.args s)
    pub failed :
        b ≡ false
        → v.constraints ≡ []
        → x.pred ≡ y.pred
        → (s : ℕ → Term) → Solves s v.val
        → ¬ EquatesArgs x.args y.args s

  abbrev Ran : ConstrainedValuation → Atom → Atom → ℕ → Type 0
  Ran v x y n =
      (b : Bool) × (w : ConstrainedValuation) × (unify_atoms (λ val. cmp n ord val) n v x y
        ≡ some (b, w))
      × Unified v x y b w

  -- The constraints are over the variables of the valuation, and undecided ones have pairs left.
  pub record Ready (v : ConstrainedValuation) : Type 0 where
    pub pending : All Pending v.constraints
    pub known : All (λ (c : OrderAtom). KnownPairs ar ord v.val c.pairs) v.constraints

  -- after `mgu` has succeeded
  checked :
      (n : ℕ) (v : ConstrainedValuation) (x y : Atom) (val : Valuation)
      → mgu_atom n v.val x y ≡ some (true, val)
      → AtomsUnified ar v.val x y true val
      → All Pending v.constraints
      → All (λ (c : OrderAtom). Compares (cmp n ord val) c.pairs) v.constraints
      → Ran v x y n
  unfolding unify_atoms check_constraints check_all count_unification count_broken save restore run
      Legal
  checked n v x y val ran u pending returns =
      let (r, all) = check_all-some (cmp n ord val) v.constraints [] pending returns in
      let w : ConstrainedValuation = record v {
        val = val;
        stats = record (v.stats) { unifications = v.stats.unifications + 1 };
      } in
      elim (Bool-cases r.0) [
        | inl e ↦ (
          true,
          record w { constraints = r.1 },
          rw (ran, all, e) refl,
          record {
            closed = u.closed;
            acyclic = u.acyclic;
            same_pred = u.same_pred;
            solved = u.solved;
            failed = λ h. absurd (cc h);
          },
        )
        | inr e ↦
            let back : Rewind.restore (Rewind.save val) val ≡ val = restore-run val [] tt in
            (
              false,
              restore (save w) (count_broken (λ val. cmp n ord val) w),
              rw (ran, all, e) refl,
              record {
                closed = subst (Closed ar) (sym back) u.closed;
                acyclic = subst Acyclic (sym back) u.acyclic;
                same_pred = λ h. absurd (cc h);
                solved = λ h. absurd (cc h);
                failed = λ h empty.
                    let kept = ap (λ l. check_all (cmp n ord val) l []) (sym empty) ∙ all in
                    let good : true ≡ r.0 =
                      ap (λ (r : Bool × List OrderAtom). r.0) (some_eq kept) in
                    absurd (cc (good, e));
              },
            )
      ]

  -- after `mgu` has failed
  failed_at :
      (n : ℕ) (v : ConstrainedValuation) (x y : Atom) (val : Valuation)
      → mgu_atom n v.val x y ≡ some (false, val)
      → AtomsUnified ar v.val x y false val
      → Ran v x y n
  unfolding unify_atoms count_unification count_failed
  failed_at n v x y val ran u = (
    false,
    record v {
      val = val;
      stats = record (v.stats) {
        unifications = v.stats.unifications + 1;
        failed_unifications = v.stats.failed_unifications + 1;
      };
    },
    rw ran refl,
    record {
      closed = u.closed;
      acyclic = u.acyclic;
      same_pred = λ h. absurd (cc h);
      solved = λ h. absurd (cc h);
      failed = λ h empty. u.failed refl;
    },
  )

  known_after :
      (val val' : Valuation) (cs : List OrderAtom)
      → size val' ≡ size val
      → All (λ (c : OrderAtom). KnownPairs ar ord val c.pairs) cs
      → All (λ (c : OrderAtom). KnownPairs ar ord val' c.pairs) cs
  known_after val val' cs same h =
      subst
        (λ n.
          All (λ (c : OrderAtom). All (λ p. WellFormed ar n p.a × WellFormed ar n p.b) c.pairs) cs)
        (sym same) h

  -- For a closed valuation without cycles, constraints over its variables, and two atoms whose
  -- arguments are over its variables, as many of them for the same predicate: with enough fuel
  -- `unify` returns under the lexicographic path order, and leaves such a valuation. On success
  -- the predicates are the same and the solutions are exactly the old ones that make the arguments
  -- equal; without constraints it fails only if there is no such solution.
  pub unify_atoms_total :
      (v : ConstrainedValuation) (x y : Atom)
      → Acyclic v.val
      → Closed ar v.val
      → Ready v
      → KnownArgs ar v.val x.args
      → KnownArgs ar v.val y.args
      → (x.pred ≡ y.pred → arg_count x.args ≡ arg_count y.args)
      → (k : ℕ) × ((n : ℕ)
          → k ≤ n
          → (b : Bool) × (w : ConstrainedValuation) × (unify_atoms (λ val. cmp n ord val) n v x y
              ≡ some (b, w))
            × Unified v x y b w)
  unify_atoms_total v x y a c ready kx ky counts =
      let (b, val, (k, ran), u) = mgu_atom_total ar v.val x y a c kx ky counts in go b val k ran u
    where
      go :
          (b : Bool) (val : Valuation) (k : ℕ)
          → ((n : ℕ) → k ≤ n → mgu_atom n v.val x y ≡ some (b, val))
          → AtomsUnified ar v.val x y b val
          → (k : ℕ) × ((n : ℕ) → k ≤ n → Ran v x y n)
      go true val k ran u =
          let (same, o) = mgu_atom-Outcome ar k v.val x y val c kx ky (ran k (omega arith)) in
          let (i, returns) =
            enough_for_all ar ord val u.closed u.acyclic v.constraints
              (known_after v.val val v.constraints o.same_size ready.known) in
          (
            i + k,
            λ n h.
                checked n v x y val (ran n (omega arith)) u ready.pending (returns n (omega arith)),
          )
      go false val k ran u = (k, λ n h. failed_at n v x y val (ran n h) u)
