-- ===== src/Axioms/Laws.antt =====
-- The equality axioms (lazyparam_prover/eq_axioms.h) hold where equality is equality.
use tptp_benchmark_go.Prelude.{
  ℕ, zero, suc, ◌+◌, ◌≡◌, ◌↔◌, refl, sym, ap, ap₂, ◌∙◌, Bool, true, false, List, [], ◌∷◌, All,
  subst,
}
use tptp_benchmark_go.Syntax.Atom.{Atom, eq_pred}
use tptp_benchmark_go.Syntax.Clause
use tptp_benchmark_go.Syntax.Clause.{AndClause}
use tptp_benchmark_go.Derived.{derived, of_clause, build}
use tptp_benchmark_go.Derived.Laws.{atoms-shift_zero}
use tptp_benchmark_go.Axioms.Model.{values}
use tptp_benchmark_go.Axioms.{
  equations, left_vars, right_vars, Kind, reflexivity, symmetry, transitivity, congruence_pred,
  congruence_fun, eq_axiom, neg_refl_axiom, neg_symm_axiom, neg_trans_axiom, neg_cong_pred_axiom,
  neg_cong_fun_axiom,
}

pub derived-stored : (k : ℕ) (c : AndClause) → (derived (of_clause k c)).stored ≡ c.stored
unfolding derived of_clause build Clause.shift Clause.set_id_offset
derived-stored k c = atoms-shift_zero c.stored

-- A structure with functions and relations, in which `EQ` is equality.
module _ {D : Type 0} (op : ℕ → List D → D) (rel : ℕ → List D → Type 0)
    (eq_means : (x y : D) → rel eq_pred (x ∷ y ∷ []) ↔ (x ≡ y)) (v : ℕ → D) where
  abbrev pub Signed : Bool → Type 0 → Type 0
  Signed true P = P
  Signed false P = ¬ P

  abbrev pub Holds : Atom → Type 0
  Holds a = Signed a.sign (rel a.pred (values op v a.args))

  equations-same :
      (n i : ℕ) (l : List Atom)
      → All Holds (equations n i l)
      → (values op v (left_vars n i) ≡ values op v (right_vars n i)) × All Holds l
  unfolding equations left_vars right_vars
  equations-same zero i l h = (refl, h)
  equations-same (suc n) i l (e, h) =
      let (same, rest) = equations-same n (i + 1) l h in
      (ap₂ (λ (x : D) (y : List D). x ∷ y) ((eq_means _ _).0 e) same, rest)

  refuted :
      (k : ℕ) (c : AndClause) → ¬ All Holds c.stored → ¬ All Holds (derived (of_clause k c)).stored
  refuted k c no' h = no' (subst (All Holds) (derived-stored k c) h)

  -- No axiom that is added, which is a conjunction of atoms, is satisfied by any values of its
  -- variables: its negation is true in every structure in which `EQ` is equality.
  pub eq_axiom-Holds : (x : Kind) → ¬ All Holds (derived (eq_axiom x)).stored
  unfolding eq_axiom neg_refl_axiom neg_symm_axiom neg_trans_axiom neg_cong_pred_axiom
      neg_cong_fun_axiom
  eq_axiom-Holds reflexivity = refuted _ _ (λ h. h.0 ((eq_means _ _).1 refl))
  eq_axiom-Holds symmetry =
      refuted _ _ (λ (e, (n, _)). n ((eq_means _ _).1 (sym ((eq_means _ _).0 e))))
  eq_axiom-Holds transitivity =
      refuted _ _
        (λ (e, (f, (n, _))). n ((eq_means _ _).1 ((eq_means _ _).0 e ∙ (eq_means _ _).0 f)))
  eq_axiom-Holds (congruence_pred p n) =
      refuted _ _
        (λ h. let (same, (l, (r, _))) = equations-same n 0 _ h in r (subst (rel p) same l))
  eq_axiom-Holds (congruence_fun f n) =
      refuted _ _
        (λ h. let (same, (r, _)) = equations-same n 0 _ h in r ((eq_means _ _).1 (ap (op f) same)))
