-- ===== src/Axioms/Congruence.antt =====
-- What the equality axioms (lazyparam_prover/eq_axioms.h) force: where none of these conjunctions
-- is satisfied, `EQ` is a congruence.
use tptp_benchmark_go.Prelude.{
  ℕ, zero, suc, ◌+◌, ◌≡◌, refl, sym, ap, ap₂, ◌∙◌, Bool, true, List, [], ◌∷◌, All, subst, arith,
  length,
}
use tptp_benchmark_go.Syntax.Atom.{Atom, eq_pred}
use tptp_benchmark_go.Derived.{DerAndClause, derived, of_clause}
use tptp_benchmark_go.Axioms.{
  equations, left_vars, right_vars, reflexivity, symmetry, transitivity, congruence_pred,
  congruence_fun, eq_axiom, neg_refl_axiom, neg_symm_axiom, neg_trans_axiom, neg_cong_pred_axiom,
  neg_cong_fun_axiom,
}
use tptp_benchmark_go.Axioms.Laws.{derived-stored}
use tptp_benchmark_go.Axioms.Model.{not_false, values, Holds, Refuted}

module _ {D : Type 0} (op : ℕ → List D → D) (rel : ℕ → List D → Bool) where
  -- Equality in the structure.
  abbrev pub Eq : D → D → Type 0
  Eq x y = rel eq_pred (x ∷ y ∷ []) ≡ true

  abbrev pub EqLists : List D → List D → Type 0
  EqLists [] [] = Unit
  EqLists [] (y ∷ ys) = ⊥
  EqLists (x ∷ xs) [] = ⊥
  EqLists (x ∷ xs) (y ∷ ys) = Eq x y × EqLists xs ys

  -- The structure satisfies the clause for no values of its variables.
  abbrev pub Excludes : DerAndClause → Type 0
  Excludes c = (v : ℕ → D) → Refuted op rel v (derived c)

  -- values for variables 2 * i and 2 * i + 1
  abbrev interleave : List D → List D → ℕ → D
  interleave [] ys i = op 0 []
  interleave (x ∷ xs) [] i = op 0 []
  interleave (x ∷ xs) (y ∷ ys) zero = x
  interleave (x ∷ xs) (y ∷ ys) (suc zero) = y
  interleave (x ∷ xs) (y ∷ ys) (suc (suc i)) = interleave xs ys i

  left-later :
      (v : ℕ → D) (n i : ℕ)
      → values op v (left_vars n (i + 1)) ≡ values op (λ j. v (suc (suc j))) (left_vars n i)
  unfolding left_vars
  left-later v zero i = refl
  left-later v (suc n) i =
      ap₂ (λ (x : D) (y : List D). x ∷ y) (ap v (omega arith)) (left-later v n (i + 1))

  right-later :
      (v : ℕ → D) (n i : ℕ)
      → values op v (right_vars n (i + 1)) ≡ values op (λ j. v (suc (suc j))) (right_vars n i)
  unfolding right_vars
  right-later v zero i = refl
  right-later v (suc n) i =
      ap₂ (λ (x : D) (y : List D). x ∷ y) (ap v (omega arith)) (right-later v n (i + 1))

  left-interleave :
      (xs ys : List D) → EqLists xs ys → values op (interleave xs ys) (left_vars (length xs) 0) ≡ xs
  unfolding left_vars
  left-interleave [] ys e = refl
  left-interleave (x ∷ xs) (y ∷ ys) e =
      ap (λ (l : List D). x ∷ l)
        (left-later (interleave (x ∷ xs) (y ∷ ys)) (length xs) 0 ∙ left-interleave xs ys e.1)
  left-interleave (x ∷ xs) [] e = absurd e

  right-interleave :
      (xs ys : List D)
      → EqLists xs ys
      → values op (interleave xs ys) (right_vars (length xs) 0) ≡ ys
  unfolding right_vars
  right-interleave [] [] e = refl
  right-interleave [] (y ∷ ys) e = absurd e
  right-interleave (x ∷ xs) (y ∷ ys) e =
      ap (λ (l : List D). y ∷ l)
        (right-later (interleave (x ∷ xs) (y ∷ ys)) (length xs) 0 ∙ right-interleave xs ys e.1)
  right-interleave (x ∷ xs) [] e = absurd e

  equations-Holds :
      (v : ℕ → D) (n i : ℕ) (l : List Atom)
      → EqLists (values op v (left_vars n i)) (values op v (right_vars n i))
      → All (Holds op rel v) l
      → All (Holds op rel v) (equations n i l)
  unfolding equations left_vars right_vars
  equations-Holds v zero i l e h = h
  equations-Holds v (suc n) i l e h = (e.0, equations-Holds v n (i + 1) l e.1 h)

  interleaved :
      (xs ys : List D) (l : List Atom)
      → EqLists xs ys
      → All (Holds op rel (interleave xs ys)) l
      → All (Holds op rel (interleave xs ys)) (equations (length xs) 0 l)
  interleaved xs ys l e h =
      equations-Holds (interleave xs ys) (length xs) 0 l
        (subst (λ zs. EqLists zs (values op (interleave xs ys) (right_vars (length xs) 0)))
          (sym (left-interleave xs ys e)) (subst (EqLists xs) (sym (right-interleave xs ys e)) e))
        h

  -- `EQ` is reflexive, symmetric and transitive.
  pub record Equivalence : Type 0 where
    pub reflexive : (x : D) → Eq x x
    pub symmetric : (x y : D) → Eq x y → Eq y x
    pub transitive : (x y z : D) → Eq x y → Eq y z → Eq x z

  three : D → D → D → ℕ → D
  three x y z zero = x
  three x y z (suc zero) = y
  three x y z (suc (suc i)) = z

  excluded :
      (k : ℕ) (l : List Atom) (v : ℕ → D)
      → Excludes (of_clause k (record { stored = l; id_offset = 0 }))
      → ¬ All (Holds op rel v) l
  excluded k l v ex h = ex v (
      subst (All (Holds op rel v)) (sym (derived-stored k (record { stored = l; id_offset = 0 })))
        h)

  pub excluded-Equivalence :
      Excludes (eq_axiom reflexivity)
      → Excludes (eq_axiom symmetry)
      → Excludes (eq_axiom transitivity)
      → Equivalence
  unfolding eq_axiom neg_refl_axiom neg_symm_axiom neg_trans_axiom three
  excluded-Equivalence r s t = record {
    reflexive = λ x. not_false _ (λ ne. excluded _ _ (three x x x) r (ne, tt));
    symmetric = λ x y e. not_false _ (λ ne. excluded _ _ (three x y y) s (e, (ne, tt)));
    transitive = λ x y z e f. not_false _ (λ ne. excluded _ _ (three x y z) t (e, (f, (ne, tt))));
  }

  -- The functor, with `n` arguments, respects `EQ`.
  abbrev pub FunRespects : ℕ → ℕ → Type 0
  FunRespects n f = (xs ys : List D) → length xs ≡ n → EqLists xs ys → Eq (op f xs) (op f ys)

  -- The predicate, with `n` arguments, respects `EQ`.
  abbrev pub PredRespects : ℕ → ℕ → Type 0
  PredRespects n p =
      (xs ys : List D) → length xs ≡ n → EqLists xs ys → rel p xs ≡ true → rel p ys ≡ true

  pub excluded-FunRespects : (n f : ℕ) → Excludes (eq_axiom (congruence_fun f n)) → FunRespects n f
  unfolding eq_axiom neg_cong_fun_axiom
  excluded-FunRespects n f ex xs ys h e = not_false _ (λ ne.
      let ex' = subst (λ n. Excludes (neg_cong_fun_axiom f n)) (sym h) ex in
      excluded _ _ (interleave xs ys) ex' (
        interleaved xs ys _ e (
          ap₂ (λ x y. rel eq_pred (op f x ∷ op f y ∷ [])) (left-interleave xs ys e)
                (right-interleave xs ys e)
              ∙ ne,
          tt,
        )))

  pub excluded-PredRespects :
      (n p : ℕ) → Excludes (eq_axiom (congruence_pred p n)) → PredRespects n p
  unfolding eq_axiom neg_cong_pred_axiom
  excluded-PredRespects n p ex xs ys h e yes' = not_false _ (λ ne.
      let ex' = subst (λ n. Excludes (neg_cong_pred_axiom p n)) (sym h) ex in
      excluded _ _ (interleave xs ys) ex' (
        interleaved xs ys _ e (
          ap (rel p) (left-interleave xs ys e) ∙ yes',
          (ap (rel p) (right-interleave xs ys e) ∙ ne, tt),
        )))
