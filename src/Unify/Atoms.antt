-- ===== src/Unify/Atoms.antt =====
-- Unification of atoms (`mgu` on atoms of lazyparam_prover/mgu.h).
use tptp_benchmark_go.Prelude.{
  ℕ, ◌≡◌, refl, sym, ap, ◌∙◌, Bool, true, false, some, >>=-eq-some, ◌==◌, ==_iff, if◌then◌else◌,
  Bool-cases, inl, inr, some_eq, ◌↔◌,
}
use tptp_benchmark_go.Memory.Rewind.{save, restore}
use tptp_benchmark_go.Memory.Rewind.Laws.{restore-run}
use tptp_benchmark_go.Syntax.Term.{Term}
use tptp_benchmark_go.Syntax.Atom.{Atom}
use tptp_benchmark_go.Unify.{Valuation, mgu_down, mgu_atom}
use tptp_benchmark_go.Unify.Subst.{KnownArgs, Closed, Solves}
use tptp_benchmark_go.Unify.Outcome.{Outcome}
use tptp_benchmark_go.Unify.Solve.{EquatesArgs, mgu_down-Outcome}

module _ (ar : ℕ → ℕ) where
  -- Where the valuation and the arguments are well-formed and the unification of two atoms fails,
  -- the valuation is exactly the one before: every binding that arguments made is undone.
  pub mgu_atom_undone :
      (n : ℕ) (val : Valuation) (x y : Atom) (val' : Valuation)
      → Closed ar val
      → KnownArgs ar val x.args
      → KnownArgs ar val y.args
      → mgu_atom n val x y ≡ some (false, val')
      → val' ≡ val
  unfolding mgu_atom
  mgu_atom_undone n val x y val' c k l e = elim (Bool-cases (x.pred == y.pred)) [
    | inr p ↦ cc (rw p at e)
    | inl p ↦
        let (r, ran, rest) =
          >>=-eq-some (mgu_down n val x.args y.args)
            (λ r. if r.0 then some r else some (false, restore (save val) r.1)) (rw p at e) in
        let o = mgu_down-Outcome ar n val x.args y.args r.0 r.1 c k l ran in
        elim (Bool-cases r.0) [
          | inl q ↦ let f : some r ≡ some (false, val') = rw q at rest in cc
          | inr q ↦
              let f : some (false, restore (save val) r.1) ≡ some (false, val') = rw q at rest in
              sym (ap (λ (s : Bool × Valuation). s.1) (some_eq f))
              ∙ ap (restore (save val)) (sym o.ran)
              ∙ restore-run val o.edits o.legal
        ]
  ]

  -- A success binds what the loop over the arguments binds.
  pub mgu_atom-Outcome :
      (n : ℕ) (val : Valuation) (x y : Atom) (val' : Valuation)
      → Closed ar val
      → KnownArgs ar val x.args
      → KnownArgs ar val y.args
      → mgu_atom n val x y ≡ some (true, val')
      → (x.pred ≡ y.pred) × Outcome ar val (EquatesArgs x.args y.args) true val'
  unfolding mgu_atom
  mgu_atom-Outcome n val x y val' c k l e = elim (Bool-cases (x.pred == y.pred)) [
    | inr p ↦ let f : some (false, val) ≡ some (true, val') = rw p at e in cc
    | inl p ↦
        let (r, ran, rest) =
          >>=-eq-some (mgu_down n val x.args y.args)
            (λ r. if r.0 then some r else some (false, restore (save val) r.1)) (rw p at e) in
        elim (Bool-cases r.0) [
          | inr q ↦
              let f : some (false, restore (save val) r.1) ≡ some (true, val') = rw q at rest in cc
          | inl q ↦
              let f : some r ≡ some (true, val') = rw q at rest in
              (
                (==_iff x.pred y.pred).0 p,
                mgu_down-Outcome ar n val x.args y.args true val' c k l (ran ∙ f),
              )
        ]
  ]

  -- Where the valuation and the arguments are well-formed and the unification of two atoms
  -- succeeds, the solutions of the new valuation are exactly the solutions of the old one that
  -- make the arguments equal, one by one.
  pub mgu_atom_most_general :
      (n : ℕ) (val : Valuation) (x y : Atom) (val' : Valuation)
      → Closed ar val
      → KnownArgs ar val x.args
      → KnownArgs ar val y.args
      → mgu_atom n val x y ≡ some (true, val')
      → (s : ℕ → Term) → Solves s val' ↔ (Solves s val × EquatesArgs x.args y.args s)
  mgu_atom_most_general n val x y val' c k l e =
      (mgu_atom-Outcome n val x y val' c k l e).1.solved refl
