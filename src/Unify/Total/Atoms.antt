-- ===== src/Unify/Total/Atoms.antt =====
-- The unification of atoms (`mgu` on atoms of lazyparam_prover/mgu.h) ends.
use tptp_benchmark_go.Prelude.{
  ℕ, ◌≡◌, ◌↔◌, ◌⊎◌, inl, inr, refl, sym, ap, ◌∙◌, Bool, true, false, some, ◌==◌, ==_iff,
  if◌then◌else◌, Bool-cases, arith,
}
use tptp_benchmark_go.Memory.Rewind.{save, restore}
use tptp_benchmark_go.Memory.Rewind.Laws.{restore-run}
use tptp_benchmark_go.Syntax.Term.{Term, Terms, nil, cons, arg_count}
use tptp_benchmark_go.Syntax.Atom.{Atom}
use tptp_benchmark_go.Unify.{Valuation, mgu, mgu_down, mgu_atom}
use tptp_benchmark_go.Unify.Subst.{KnownArgs, Closed, Solves}
use tptp_benchmark_go.Unify.Outcome.{Outcome}
use tptp_benchmark_go.Unify.Solve.{EquatesArgs, mgu_down-Outcome, Known-size}
use tptp_benchmark_go.Unify.Settle.{Settles}
use tptp_benchmark_go.Unify.Acyclic.{Acyclic}
use tptp_benchmark_go.Unify.Total.{Ends, Ends-now, Ends-then}
use tptp_benchmark_go.Unify.Total.Mgu.{mgu-Ends}

module _ (ar : ℕ → ℕ) where
  -- the outcome of a run on the arguments
  down-Outcome :
      (val : Valuation) (ts us : Terms)
      → Closed ar val
      → KnownArgs ar val ts
      → KnownArgs ar val us
      → (e : Ends val (λ n. mgu_down n val ts us))
      → Outcome ar val (EquatesArgs ts us) e.result.0 e.result.1
  down-Outcome val ts us c k l e =
      mgu_down-Outcome ar e.settles.0 val ts us e.result.0 e.result.1 c k l
        (e.settles.1 e.settles.0 (omega arith))

  mgu_down-Ends :
      (val : Valuation) (ts us : Terms)
      → Acyclic val
      → Closed ar val
      → KnownArgs ar val ts
      → KnownArgs ar val us
      → arg_count ts ≡ arg_count us
      → Ends val (λ n. mgu_down n val ts us)
  unfolding mgu_down
  mgu_down-Ends val nil us a c k l same = Ends-now val true _ a (0, λ n g. refl)
  mgu_down-Ends val (cons t ts) nil a c k l same = absurd (omega arith)
  mgu_down-Ends val (cons t ts) (cons u us) a c k l same =
      let e = mgu_down-Ends val ts us a c k.1 l.1 (omega arith) in
      Ends-then val (λ n. mgu_down n val ts us)
        (λ n r. if r.0 then mgu n r.1 t u else some (false, r.1)) e
        (first e (down-Outcome val ts us c k.1 l.1 e) (Bool-cases e.result.0))
    where
      first :
          (e : Ends val (λ n. mgu_down n val ts us))
          → Outcome ar val (EquatesArgs ts us) e.result.0 e.result.1
          → (e.result.0 ≡ true) ⊎ (e.result.0 ≡ false)
          → Ends e.result.1
              (λ n. if e.result.0 then mgu n e.result.1 t u else some (false, e.result.1))
      first e o (inr p) = Ends-now e.result.1 false _ e.acyclic (0, λ n g. rw p refl)
      first e o (inl p) = rw p (
          mgu-Ends ar e.result.1 t u e.acyclic o.closed
            (Known-size ar val e.result.1 t o.same_size k.0)
            (Known-size ar val e.result.1 u o.same_size l.0))

  -- What unification of two atoms computes: on success the most general valuation that makes the
  -- arguments equal; on failure the valuation from before, and then the predicates differ or no
  -- solution makes the arguments equal.
  pub record AtomsUnified (val : Valuation) (x y : Atom) (b : Bool) (val' : Valuation)
      : Type 0 where
    pub acyclic : Acyclic val'
    pub closed : Closed ar val'
    pub same_pred : b ≡ true → x.pred ≡ y.pred
    pub solved :
        b ≡ true → (s : ℕ → Term) → Solves s val' ↔ (Solves s val × EquatesArgs x.args y.args s)
    pub undone : b ≡ false → val' ≡ val
    pub failed :
        b ≡ false → x.pred ≡ y.pred → (s : ℕ → Term) → Solves s val → ¬ EquatesArgs x.args y.args s

  -- For a well-formed valuation without cycles and two atoms with well-formed arguments, as many
  -- of them for the same predicate, `mgu_atom` returns, with the same result for all fuel from
  -- some amount on, and leaves a well-formed valuation without cycles. On success the predicates
  -- are the same and the solutions of the new valuation are exactly the solutions of the old one
  -- that make the arguments equal, one by one. On failure the valuation is exactly the one from
  -- before, and if the predicates are the same, no solution of it makes the arguments equal.
  pub mgu_atom_total :
      (val : Valuation) (x y : Atom)
      → Acyclic val
      → Closed ar val
      → KnownArgs ar val x.args
      → KnownArgs ar val y.args
      → (x.pred ≡ y.pred → arg_count x.args ≡ arg_count y.args)
      → (b : Bool) × (val' : Valuation) × Settles (λ n. mgu_atom n val x y) (b, val')
        × AtomsUnified val x y b val'
  unfolding mgu_atom
  mgu_atom_total val x y a c k l counts = elim (Bool-cases (x.pred == y.pred)) [
    | inr p ↦ (
      false,
      val,
      (0, λ n g. rw p refl),
      record {
        acyclic = a;
        closed = c;
        same_pred = λ h. cc;
        solved = λ h. cc;
        undone = λ h. refl;
        failed = λ h q. let t = (==_iff x.pred y.pred).1 q in cc;
      },
    )
    | inl p ↦
        let same : x.pred ≡ y.pred = (==_iff x.pred y.pred).0 p in
        let e = mgu_down-Ends val x.args y.args a c k l (counts same) in
        let o = down-Outcome val x.args y.args c k l e in
        elim (Bool-cases e.result.0) [
          | inl q ↦ (
            true,
            e.result.1,
            (e.settles.0, λ n g. rw (p, e.settles.1 n g, q) (ap (λ b. some (b, e.result.1)) q)),
            record {
              acyclic = e.acyclic;
              closed = o.closed;
              same_pred = λ h. same;
              solved = λ h. o.solved q;
              undone = λ h. cc;
              failed = λ h. cc;
            },
          )
          | inr q ↦
              let back : restore (save val) e.result.1 ≡ val =
                ap (restore (save val)) (sym o.ran) ∙ restore-run val o.edits o.legal in
              (
                false,
                val,
                (e.settles.0, λ n g. rw (p, e.settles.1 n g, q, back) refl),
                record {
                  acyclic = a;
                  closed = c;
                  same_pred = λ h. cc;
                  solved = λ h. cc;
                  undone = λ h. refl;
                  failed = λ h g. o.failed q;
                },
              )
        ]
  ]
