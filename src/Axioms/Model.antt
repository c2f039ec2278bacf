-- ===== src/Axioms/Model.antt =====
-- Structures of first-order logic in which `EQ` (lazyparam_prover/eq_axioms.h) may be any relation,
-- and clauses that follow from their sources in them.
use tptp_benchmark_go.Prelude.{
  ℕ, ◌+◌, ◌≡◌, refl, sym, ap, ap₂, ◌∙◌, Bool, true, false, List, [], ◌∷◌, map, All,
}
use tptp_benchmark_go.Syntax.Term.{Term, Terms, var, fun, nil, cons, rename, rename_args}
use tptp_benchmark_go.Syntax.Atom
use tptp_benchmark_go.Syntax.Atom.{Atom, eq_pred}
use tptp_benchmark_go.Syntax.Clause
use tptp_benchmark_go.Syntax.Clause.{AndClause, atoms, number_from}
use tptp_benchmark_go.Derived.{DerAndClause, derived, sources}

pub not_false : (x : Bool) → ¬ (x ≡ false) → x ≡ true
not_false true h = refl
not_false false h = absurd (h refl)

module _ {D : Type 0} (op : ℕ → List D → D) where
  abbrev mutual
    pub value : (ℕ → D) → Term → D
    value v (var i) = v i
    value v (fun f ts) = op f (values v ts)

    pub values : (ℕ → D) → Terms → List D
    values v nil = []
    values v (cons t ts) = value v t ∷ values v ts

  mutual
    unfolding rename rename_args

    value-rename :
        (v : ℕ → D) (g : ℕ → ℕ) (t : Term) → value v (rename g t) ≡ value (λ i. v (g i)) t
    value-rename v g (var i) = refl
    value-rename v g (fun f ts) = ap (op f) (values-rename v g ts)

    values-rename :
        (v : ℕ → D) (g : ℕ → ℕ) (ts : Terms)
        → values v (rename_args g ts) ≡ values (λ i. v (g i)) ts
    values-rename v g nil = refl
    values-rename v g (cons t ts) =
        ap₂ (λ (x : D) (y : List D). x ∷ y) (value-rename v g t) (values-rename v g ts)

  module _ (rel : ℕ → List D → Bool) where
    -- The atom is true for these values of the variables.
    abbrev pub Holds : (ℕ → D) → Atom → Type 0
    Holds v a = rel a.pred (values v a.args) ≡ a.sign

    -- No atom list is a clause that is satisfied.
    abbrev pub Refuted : (ℕ → D) → AndClause → Type 0
    Refuted v c = ¬ All (Holds v) c.stored

    -- Where the clause is satisfied, not all of its sources are refuted.
    abbrev pub Follows : DerAndClause → Type 0
    Follows c = (v : ℕ → D) → All (Holds v) (derived c).stored → ¬ All (Refuted v) (sources c)

    pub Holds-number_from :
        (v : ℕ → D) (n : ℕ) (l : List Atom) → All (Holds v) (number_from n l) → All (Holds v) l
    unfolding number_from Atom.set_id
    Holds-number_from v n [] h = tt
    Holds-number_from v n (a ∷ l) h = (h.0, Holds-number_from v (n + 1) l h.1)

    pub Holds-shift :
        (v : ℕ → D) (d : ℕ) (l : List Atom)
        → All (Holds v) (map (Atom.shift d) l)
        → All (Holds (λ i. v (i + d))) l
    unfolding Atom.shift
    Holds-shift v d [] h = tt
    Holds-shift v d (a ∷ l) h =
        (ap (rel a.pred) (sym (values-rename v (λ i. i + d) a.args)) ∙ h.0, Holds-shift v d l h.1)

    pub Holds-of_shift :
        (v : ℕ → D) (d : ℕ) (l : List Atom)
        → All (Holds (λ i. v (i + d))) l
        → All (Holds v) (map (Atom.shift d) l)
    unfolding Atom.shift
    Holds-of_shift v d [] h = tt
    Holds-of_shift v d (a ∷ l) h =
        (ap (rel a.pred) (values-rename v (λ i. i + d) a.args) ∙ h.0, Holds-of_shift v d l h.1)

    pub Refuted-shift :
        (v : ℕ → D) (d : ℕ) (cs : List AndClause)
        → All (Refuted v) (map (Clause.shift d) cs)
        → All (Refuted (λ i. v (i + d))) cs
    unfolding Clause.shift
    Refuted-shift v d [] h = tt
    Refuted-shift v d (c ∷ cs) h =
        ((λ p. h.0 (Holds-of_shift v d c.stored p)), Refuted-shift v d cs h.1)
