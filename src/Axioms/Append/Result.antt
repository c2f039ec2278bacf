-- ===== src/Axioms/Append/Result.antt =====
-- The result of `append_eq_axioms` of lazyparam_prover/eq_axioms.h: the problem with added
-- constraints, and the axioms.

use tptp_benchmark_go.Prelude.{
  ℕ, ◌≡◌, ◌↔◌, refl, sym, ap, ◌∙◌, Bool, true, false, not, none, some, ◌==◌, ==_iff, ◌&&◌,
  Bool-cases, inl, inr, arith, List, [], ◌∷◌, ◌++◌, map, reverse, All, All-of_reverse, All-reverse,
  subst, some_eq,
}
use tptp_benchmark_go.Syntax.Term.{Term, Terms, nil, cons, arg_count, arg}
use tptp_benchmark_go.Syntax.Atom.{Atom, eq_pred}
use tptp_benchmark_go.Syntax.Clause
use tptp_benchmark_go.Syntax.Clause.{AndClause, atoms}
use tptp_benchmark_go.Order.Constraint
use tptp_benchmark_go.Order.Constraint.{OrderAtom, ne}
use tptp_benchmark_go.Derived.{DerAndClause, OrForm, derived, sources, to_builder, build}
use tptp_benchmark_go.Derived.Laws.{clause-shift_zero, map-shift_zero}
use tptp_benchmark_go.Axioms.{eq_axiom}
use tptp_benchmark_go.Axioms.Arity.{ArityCtx, initial, set_entry, find_entry}
use tptp_benchmark_go.Axioms.Arity.Laws.{
  Right, Agrees, AtomArity, EachAtom, AtomFound, traverse_form-Finds,
}
use tptp_benchmark_go.Axioms.Append.{
  refl_constraints, add_refl_constraint, add_refl_constraints, congruences, equivalence_axioms,
  append_eq_axioms,
}

-- A clause as it is built, not shifted.
abbrev pub Unshifted : DerAndClause → Type 0
Unshifted c = c.offset ≡ 0

-- the same atoms, and the sources in the reverse order
abbrev pub SameClauses : DerAndClause → DerAndClause → Type 0
SameClauses c d = (derived d ≡ derived c) × (sources d ≡ reverse (sources c))

rebuilt :
    (c : DerAndClause) (cs : List OrderAtom)
    → Unshifted c
    → SameClauses c (build (record (to_builder c) { constraints = cs }))
unfolding build to_builder derived sources Clause.shift Clause.set_id_offset
rebuilt c cs h = (
  ap (λ d. Clause.shift d (derived c)) h ∙ clause-shift_zero (derived c),
  ap (λ d. map (Clause.shift d) (reverse (sources c))) h ∙ map-shift_zero (reverse (sources c)),
)

first_true : (x y : Bool) → (x && y) ≡ true → x ≡ true
first_true true y h = refl
first_true false y h = h

pair_of : (ts : Terms) → arg_count ts ≡ 2 → (x y : Term) × (arg ts 0 ≡ some x) × (arg ts 1 ≡ some y)
pair_of nil h = absurd (omega arith)
pair_of (cons x nil) h = absurd (omega arith)
pair_of (cons x (cons y ts)) h = (x, y, refl, refl)

module _ (ar pr : ℕ → ℕ) (two : pr eq_pred ≡ 2) where
  refl_constraints-some :
      (l : List Atom)
      → All (AtomArity ar pr) l
      → (cs : List OrderAtom) × (refl_constraints l ≡ some cs)
  unfolding refl_constraints
  refl_constraints-some [] h = ([], refl)
  refl_constraints-some (a ∷ l) h =
      let (cs, ran) = refl_constraints-some l h.1 in
      elim (Bool-cases ((a.pred == eq_pred) && not a.sign)) [
        | inr e ↦ (cs, rw (e, ran) refl)
        | inl e ↦
            let is_eq : a.pred ≡ eq_pred = (==_iff a.pred eq_pred).0 (first_true _ _ e) in
            let (x, y, at0, at1) = pair_of a.args (sym h.0.0 ∙ ap pr is_eq ∙ two) in
            (Constraint.build ne (record { a = x; b = y } ∷ []) ∷ cs, rw (e, at0, at1, ran) refl)
      ]

  add_refl_constraint-some :
      (c : DerAndClause)
      → Unshifted c
      → EachAtom ar pr (AtomArity ar pr) c
      → (d : DerAndClause) × (add_refl_constraint c ≡ some d) × SameClauses c d
  unfolding add_refl_constraint
  add_refl_constraint-some c u h =
      let (cs, ran) = refl_constraints-some (atoms (derived c)) h.0 in
      let all = (to_builder c).constraints ++ cs in
      (build (record (to_builder c) { constraints = all }), rw ran refl, rebuilt c all u)

  EachAtom-same :
      (P : Atom → Type 0) (c d : DerAndClause)
      → SameClauses c d
      → EachAtom ar pr P c ↔ EachAtom ar pr P d
  EachAtom-same P c d (same, back) = (
    (λ (p, q). (
      subst (λ x. All P (atoms x)) (sym same) p,
      subst (All (λ s. All P (atoms s))) (sym back)
          (All-reverse (λ s. All P (atoms s)) (sources c) q),
    )),
    λ (p, q). (
      subst (λ x. All P (atoms x)) same p,
      All-of_reverse (λ s. All P (atoms s)) (sources c) (subst (All (λ s. All P (atoms s))) back q),
    ),
  )

  abbrev pub AllSame : OrForm → OrForm → Type 0
  AllSame [] [] = Unit
  AllSame [] (d ∷ ds) = ⊥
  AllSame (c ∷ cs) [] = ⊥
  AllSame (c ∷ cs) (d ∷ ds) = SameClauses c d × AllSame cs ds

  add_refl_constraints-some :
      (f : OrForm)
      → All Unshifted f
      → All (EachAtom ar pr (AtomArity ar pr)) f
      → (g : OrForm) × (add_refl_constraints f ≡ some g) × AllSame f g
  unfolding add_refl_constraints
  add_refl_constraints-some [] u h = ([], refl, tt)
  add_refl_constraints-some (c ∷ cs) u h =
      let (d, ran, same) = add_refl_constraint-some c u.0 h.0 in
      let (ds, ran', rest) = add_refl_constraints-some cs u.1 h.1 in
      (d ∷ ds, rw (ran, ran') refl, (same, rest))

  AllSame-EachAtom :
      (P : Atom → Type 0) (f g : OrForm)
      → AllSame f g
      → All (EachAtom ar pr P) f ↔ All (EachAtom ar pr P) g
  AllSame-EachAtom P [] [] same = ((λ h. h), λ h. h)
  AllSame-EachAtom P [] (d ∷ ds) same = absurd same
  AllSame-EachAtom P (c ∷ cs) [] same = absurd same
  AllSame-EachAtom P (c ∷ cs) (d ∷ ds) same =
      let (to, back) = EachAtom-same P c d same.0 in
      let (to', back') = AllSame-EachAtom P cs ds same.1 in
      ((λ h. (to h.0, to' h.1)), λ h. (back h.0, back' h.1))

  pub initial-Right : Right ar pr initial
  unfolding initial set_entry find_entry
  initial-Right = record { funs = λ k n e. absurd (cc e); preds = preds }
    where
      preds : Agrees pr initial.pred_arity
      preds k n e = elim (Bool-cases (k == eq_pred)) [
        | inl p ↦
            let found : some 2 ≡ some n = rw p at e in
            ap pr ((==_iff k eq_pred).0 p) ∙ two ∙ some_eq found
        | inr p ↦ let missed : none ≡ some n = rw p at e in absurd (cc missed)
      ]

  -- What `append_eq_axioms` returns: the problem with added constraints, and axioms.
  pub appended :
      (f : OrForm)
      → All Unshifted f
      → All (EachAtom ar pr (AtomArity ar pr)) f
      → (g : OrForm) × (ctx : ArityCtx) × (append_eq_axioms f
          ≡ some (g ++ map eq_axiom (equivalence_axioms ++ congruences ctx)))
        × AllSame f g
        × All (EachAtom ar pr (AtomFound ar pr ctx)) f
  unfolding append_eq_axioms
  appended f u h =
      let (g, ran, same) = add_refl_constraints-some f u h in
      let (ctx, ran', _, _, found) =
        traverse_form-Finds ar pr g ((AllSame-EachAtom (AtomArity ar pr) f g same).0 h) initial
          initial-Right in
      (g, ctx, rw (ran, ran') refl, same, (AllSame-EachAtom (AtomFound ar pr ctx) f g same).1 found)
