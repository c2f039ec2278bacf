-- ===== src/Axioms/Append/Restricted.antt =====
-- The equality axioms with restricted transitivity (lazyparam_prover/eq_axioms.h): the predicates
-- that they use in place of `EQ` stand for it.
use tptp_benchmark_go.Prelude.{
  ℕ, ◌+◌, ◌≡◌, refl, sym, ap, ◌∙◌, Bool, not, some, ◌==◌, ==_iff, Bool-cases, inl, inr, List, [],
  ◌∷◌, ◌++◌, map, reverse, All, All-append, All-of_reverse,
}
use tptp_benchmark_go.Syntax.Atom.{Atom, eq_pred, eq_trans_pos, eq_trans_neg, eq_symm}
use tptp_benchmark_go.Syntax.Clause
use tptp_benchmark_go.Syntax.Clause.{AndClause, make, atoms}
use tptp_benchmark_go.Derived.{DerAndClause, OrForm, derived, sources, of_clause, to_builder, build}
use tptp_benchmark_go.Axioms.{
  Kind, reflexivity, symmetry, transitivity, congruence_pred, congruence_fun, eq_axiom,
  neg_refl_axiom, neg_symm_axiom, neg_trans_axiom, neg_cong_pred_axiom, neg_cong_fun_axiom,
}
use tptp_benchmark_go.Axioms.Model.{
  values, Holds, Refuted, Follows, Holds-number_from, Holds-shift, Refuted-shift,
}
use tptp_benchmark_go.Axioms.Arity.{initial}
use tptp_benchmark_go.Axioms.Arity.Laws.{AtomArity, EachAtom, traverse_form-Finds}
use tptp_benchmark_go.Axioms.Append.{
  congruences, clause_of, restricted_symm1, restricted_symm2, restricted_trans_pos,
  restricted_trans_neg, restrict_atom, restrict_clause, append_restricted_transitivity_axioms,
  append_eq_axioms_with_restricted_transitivity,
}
use tptp_benchmark_go.Axioms.Append.Result.{initial-Right}

-- `[a=b]`, `{a=b}` and `symm(a,b)` are read as `a=b`.
pub record StandsForEq {D : Type 0} (rel : ℕ → List D → Bool) : Type 0 where
  pub trans_pos : (xs : List D) → rel eq_trans_pos xs ≡ rel eq_pred xs
  pub trans_neg : (xs : List D) → rel eq_trans_neg xs ≡ rel eq_pred xs
  pub symm : (xs : List D) → rel eq_symm xs ≡ rel eq_pred xs

module _ {D : Type 0} (op : ℕ → List D → D) (rel : ℕ → List D → Bool) (e : StandsForEq rel) where
  restricted-Holds : (v : ℕ → D) (a : Atom) → Holds op rel v (restrict_atom a) → Holds op rel v a
  unfolding restrict_atom
  restricted-Holds v a h = elim (Bool-cases (a.pred == eq_pred)) [
    | inr p ↦ rw p at h
    | inl p ↦
        let same : a.pred ≡ eq_pred = (==_iff a.pred eq_pred).0 p in
        let xs = values op v a.args in
        ap (λ q. rel q xs) same ∙ elim (Bool-cases (not a.sign)) [
          | inl s ↦
              let here : rel eq_trans_pos xs ≡ a.sign = rw (p, s) at h in
              sym (e.trans_pos xs) ∙ here
          | inr s ↦
              let here : rel eq_trans_neg xs ≡ a.sign = rw (p, s) at h in
              sym (e.trans_neg xs) ∙ here
        ]
  ]

  All-restricted :
      (v : ℕ → D) (l : List Atom)
      → All (Holds op rel v) (map restrict_atom l)
      → All (Holds op rel v) l
  All-restricted v [] h = tt
  All-restricted v (a ∷ l) h = (restricted-Holds v a h.0, All-restricted v l h.1)

  restrict_clause-Follows :
      (c : DerAndClause) → Follows op rel c → Follows op rel (restrict_clause c)
  unfolding restrict_clause to_builder build derived sources Clause.shift Clause.set_id_offset atoms
  restrict_clause-Follows c follows v h none' =
      let w : ℕ → D = λ i. v (i + c.offset) in
      let stored = (derived c).stored in
      let here = All-restricted w _ (Holds-shift op rel v c.offset _ h) in
      follows w (Holds-number_from op rel w c.id_offset stored here) (
        All-of_reverse (Refuted op rel w) (sources c)
          (Refuted-shift op rel v c.offset (reverse (sources c)) none'))

  All-Follows : (f : OrForm) → All (Follows op rel) f → All (Follows op rel) (map restrict_clause f)
  All-Follows [] h = tt
  All-Follows (c ∷ cs) h = (restrict_clause-Follows c h.0, All-Follows cs h.1)

  -- A clause that is its own source follows from it.
  of_clause-Follows : (k : ℕ) (c : AndClause) → Follows op rel (of_clause k c)
  unfolding of_clause build derived sources Clause.shift Clause.set_id_offset
  of_clause-Follows k c v h none' = none'.0 h

  kind-Follows : (k : Kind) → Follows op rel (eq_axiom k)
  unfolding eq_axiom neg_refl_axiom neg_symm_axiom neg_trans_axiom neg_cong_pred_axiom
      neg_cong_fun_axiom
  kind-Follows reflexivity = of_clause-Follows _ _
  kind-Follows symmetry = of_clause-Follows _ _
  kind-Follows transitivity = of_clause-Follows _ _
  kind-Follows (congruence_pred p n) = of_clause-Follows _ _
  kind-Follows (congruence_fun f n) = of_clause-Follows _ _

  kinds-Follow : (l : List Kind) → All (Follows op rel) (map eq_axiom l)
  kinds-Follow [] = tt
  kinds-Follow (k ∷ l) = (kind-Follows k, kinds-Follow l)

  clause_of-Follows :
      (n : ℕ) (l : List Atom) (ss : List AndClause)
      → ((w : ℕ → D) → All (Holds op rel w) l → ¬ All (Refuted op rel w) ss)
      → Follows op rel (clause_of n l ss)
  unfolding build derived sources Clause.shift Clause.set_id_offset
  clause_of-Follows n l ss follows v h none' =
      follows (λ i. v (i + 0)) (Holds-shift op rel v 0 l h) (Refuted-shift op rel v 0 ss none')

  transitivity-Follows :
      (f : OrForm)
      → All (Follows op rel) f
      → All (Follows op rel) (append_restricted_transitivity_axioms f)
  unfolding append_restricted_transitivity_axioms
  transitivity-Follows f h =
      All-append (Follows op rel) f _ h (symm1, (symm2, (trans_pos, (trans_neg, tt))))
    where
      symm1 : Follows op rel restricted_symm1
      symm1 =
          clause_of-Follows _ _ []
            (λ w (p, (q, _)) _. let r = sym p ∙ e.trans_pos _ ∙ sym (e.symm _) ∙ q in cc)

      symm2 : Follows op rel restricted_symm2
      symm2 =
          clause_of-Follows _ _ (_ ∷ [])
            (λ w (p, (q, _)) (no', _). no' (sym (e.trans_pos _) ∙ p, (sym (e.symm _) ∙ q, tt)))

      trans_pos : Follows op rel restricted_trans_pos
      trans_pos =
          clause_of-Follows _ _ (_ ∷ [])
            (λ w (p, (q, (r, _))) (no', _). no' (sym (e.symm _) ∙ p, (q, (r, tt))))

      trans_neg : Follows op rel restricted_trans_neg
      trans_neg =
          clause_of-Follows _ _ (_ ∷ [])
            (λ w (p, (q, (r, _))) (no', _). no' (sym (e.trans_neg _) ∙ p, (q, (r, tt))))

  -- For a problem whose names have the numbers of arguments that `ar` and `pr` say,
  -- `append_eq_axioms_with_restricted_transitivity` returns. In a structure where the predicates
  -- of restricted equations stand for `EQ`, whatever relation that is, each clause of the result
  -- follows from its sources if each clause of the problem does.
  pub append_restricted-Follows :
      (ar pr : ℕ → ℕ)
      → pr eq_pred ≡ 2
      → (f : OrForm) → All (EachAtom ar pr (AtomArity ar pr)) f
      → All (Follows op rel) f
      → (f' : OrForm) × (append_eq_axioms_with_restricted_transitivity f ≡ some f')
        × All (Follows op rel) f'
  unfolding append_eq_axioms_with_restricted_transitivity
  append_restricted-Follows ar pr two f arity follows =
      let (ctx, ran, _, _, _) =
        traverse_form-Finds ar pr f arity initial (initial-Right ar pr two) in
      let extended = map restrict_clause (f ++ map eq_axiom (congruences ctx)) in
      (
        append_restricted_transitivity_axioms (extended ++ (eq_axiom reflexivity ∷ [])),
        rw ran refl,
        transitivity-Follows (extended ++ (eq_axiom reflexivity ∷ [])) (
            All-append (Follows op rel) extended (eq_axiom reflexivity ∷ [])
              (All-Follows (f ++ map eq_axiom (congruences ctx))
                (All-append (Follows op rel) f _ follows (kinds-Follow (congruences ctx))))
              (kind-Follows reflexivity, tt)),
      )
