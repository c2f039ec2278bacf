-- ===== src/Axioms/Flatten/Derives.antt =====
-- The flattening of lazyparam_prover/eq_axioms.h is a derivation: a flat clause follows from its
-- sources, which contain the instances of the equality axioms that it needs.
use tptp_benchmark_go.Prelude.{
  ℕ, ◌+◌, ◌≡◌, refl, ap, ◌∙◌, Bool, true, false, not, Option, some, ◌>>=◌, ◌==◌, ==_iff, Bool-cases,
  inl, inr, List, [], ◌∷◌, All, All-append_cases, arith,
}
use tptp_benchmark_go.Syntax.Term.{Term, Terms, var, fun, nil, cons, arg_count}
use tptp_benchmark_go.Syntax.Atom
use tptp_benchmark_go.Syntax.Atom.{Atom, eq_pred}
use tptp_benchmark_go.Syntax.Clause
use tptp_benchmark_go.Syntax.Clause.{AndClause, make, atoms, number_from}
use tptp_benchmark_go.Derived
use tptp_benchmark_go.Derived.{DerAndClause, derived, sources}
use tptp_benchmark_go.Axioms.Model.{
  not_false, value, values, Holds, Refuted, Follows, Holds-number_from, Holds-shift, Refuted-shift,
}
use tptp_benchmark_go.Axioms.Flatten.{
  FlatClauseBuilder, push_atom, push_source, arg_equations, push_congruence, define_var,
  introduce_var, introduce_vars, flatten_term, flatten_left, flatten_right, flatten_equation,
  flatten_other, flatten_atom, flatten_atoms, start, flat_builder, build, flatten_form,
}

-- Equations have two arguments.
abbrev pub EqBinary : Atom → Type 0
EqBinary a = a.pred ≡ eq_pred → arg_count a.args ≡ 2

EqBinary-number_from : (n : ℕ) (l : List Atom) → All EqBinary l → All EqBinary (number_from n l)
unfolding number_from Atom.set_id
EqBinary-number_from n [] h = tt
EqBinary-number_from n (a ∷ l) h = (h.0, EqBinary-number_from (n + 1) l h.1)

not_other : (x s : Bool) → ¬ (x ≡ not s) → x ≡ s
not_other true true h = refl
not_other true false h = absurd (h refl)
not_other false true h = absurd (h refl)
not_other false false h = refl

module _ {D : Type 0} (op : ℕ → List D → D) (rel : ℕ → List D → Bool) (v : ℕ → D) where
  -- The atoms collected so far are true, and no source is.
  record Assumed (b : FlatClauseBuilder) : Type 0 where
    no_source : All (Refuted op rel v) b.source_clauses
    all_atoms : All (Holds op rel v) b.atoms

  -- `EQ` relates the values of the two terms.
  abbrev Same : Term → Term → Type 0
  Same t u = rel eq_pred (value op v t ∷ value op v u ∷ []) ≡ true

  abbrev SameArgs : Terms → Terms → Type 0
  SameArgs nil us = Unit
  SameArgs (cons t ts) nil = Unit
  SameArgs (cons t ts) (cons u us) = Same t u × SameArgs ts us

  push_source-Assumed :
      (l : List Atom) (b : FlatClauseBuilder)
      → Assumed (push_source l b)
      → Assumed b × (¬ All (Holds op rel v) l)
  unfolding push_source
  push_source-Assumed l b h =
      let (old, new) =
        All-append_cases (Refuted op rel v) b.source_clauses (make l ∷ []) h.no_source in
      (record { no_source = old; all_atoms = h.all_atoms }, new.0)

  push_atom-Assumed :
      (a : Atom) (b : FlatClauseBuilder) → Assumed (push_atom a b) → Assumed b × Holds op rel v a
  unfolding push_atom
  push_atom-Assumed a b h =
      let (old, new) = All-append_cases (Holds op rel v) b.atoms (a ∷ []) h.all_atoms in
      (record { no_source = h.no_source; all_atoms = old }, new.0)

  arg_equations-Holds :
      (ts us : Terms) (l : List Atom)
      → SameArgs ts us
      → All (Holds op rel v) l
      → All (Holds op rel v) (arg_equations ts us l)
  unfolding arg_equations
  arg_equations-Holds nil us l s h = h
  arg_equations-Holds (cons t ts) nil l s h = h
  arg_equations-Holds (cons t ts) (cons u us) l s h = (s.0, arg_equations-Holds ts us l s.1 h)

  congruence :
      (f : ℕ) (ts us : Terms) (b : FlatClauseBuilder)
      → (Assumed b → SameArgs ts us)
      → Assumed (push_congruence f ts us b)
      → Assumed b × Same (fun f ts) (fun f us)
  unfolding push_congruence
  congruence f ts us b args h =
      let (before, no') = push_source-Assumed _ b h in
      (before, not_false _ (λ ne. no' (arg_equations-Holds ts us _ (args before) (ne, tt))))

  -- The count of variables does not matter.
  uncounted : (n : ℕ) (b : FlatClauseBuilder) → Assumed (record b { var_count = n }) → Assumed b
  uncounted n b h = record { no_source = h.no_source; all_atoms = h.all_atoms }

  defined :
      (f : ℕ) (ts us : Terms) (b : FlatClauseBuilder)
      → (Assumed b → Same (fun f ts) (fun f us))
      → Assumed (define_var f ts us b).1
      → Assumed b × Same (fun f ts) (var (define_var f ts us b).0)
  unfolding define_var Atom.neg
  defined f ts us b same h =
      let (mid, is_x) = push_atom-Assumed _ _ h in
      let (before, no') = push_source-Assumed _ _ mid in
      let old = uncounted (b.var_count + 1) b before in
      (old, not_false _ (λ ne. no' (same old, (is_x, (ne, tt)))))

  mutual
    unfolding introduce_var introduce_vars

    introduced :
        (t : Term) (b : FlatClauseBuilder)
        → Assumed (introduce_var t b).1
        → Assumed b × Same t (var (introduce_var t b).0)
    introduced (var i) b h =
        let (before, no') = push_source-Assumed _ b h in (before, not_false _ (λ ne. no' (ne, tt)))
    introduced (fun f ts) b h =
        let us = (introduce_vars ts b).0 in
        let c = (introduce_vars ts b).1 in
        let (mid, same) =
          defined f ts us (push_congruence f ts us c)
            (λ m. (congruence f ts us c (λ p. (introduced_all ts b p).1) m).1) h in
        let (early, _) = congruence f ts us c (λ p. (introduced_all ts b p).1) mid in
        ((introduced_all ts b early).0, same)

    introduced_all :
        (ts : Terms) (b : FlatClauseBuilder)
        → Assumed (introduce_vars ts b).1
        → Assumed b × SameArgs ts (introduce_vars ts b).0
    introduced_all nil b h = (h, tt)
    introduced_all (cons t ts) b h =
        let (mid, rest) = introduced_all ts (introduce_var t b).1 h in
        let (before, first) = introduced t b mid in (before, (first, rest))

  flattened :
      (f : ℕ) (ts : Terms) (b : FlatClauseBuilder)
      → Assumed (flatten_term f ts b).1
      → Assumed b × Same (fun f ts) (fun f (flatten_term f ts b).0)
  unfolding flatten_term
  flattened f ts b h =
      let (mid, same) =
        congruence f ts (introduce_vars ts b).0 (introduce_vars ts b).1
          (λ p. (introduced_all ts b p).1) h in
      ((introduced_all ts b mid).0, same)

  -- An equation with this sign is true.
  abbrev Signed : Bool → Term → Term → Type 0
  Signed sign l r = rel eq_pred (value op v l ∷ value op v r ∷ []) ≡ sign

  flattened_left :
      (sign : Bool) (l r : Term) (b : FlatClauseBuilder)
      → Assumed (flatten_left sign l r b).1
      → Assumed b × (Signed sign (flatten_left sign l r b).0 r → Signed sign l r)
  unfolding flatten_left
  flattened_left sign (var i) r b h = (h, λ p. p)
  flattened_left sign (fun f ts) r b h =
      let (mid, no') = push_source-Assumed _ _ h in
      let (before, same) = flattened f ts b mid in
      (before, λ p. not_other _ sign (λ ne. no' (same, (p, (ne, tt)))))

  flattened_right :
      (sign : Bool) (l r : Term) (b : FlatClauseBuilder)
      → Assumed (flatten_right sign l r b).1
      → Assumed b × (Signed sign l (flatten_right sign l r b).0 → Signed sign l r)
  unfolding flatten_right
  flattened_right sign l (var i) b h = (h, λ p. p)
  flattened_right sign l (fun f ts) b h =
      let (mid, no') = push_source-Assumed _ _ h in
      let (before, same) = flattened f ts b mid in
      (before, λ p. not_other _ sign (λ ne. no' (same, (p, (ne, tt)))))

  flattened_other :
      (a : Atom) (b : FlatClauseBuilder)
      → Assumed (flatten_other a b)
      → Assumed b × Holds op rel v a
  unfolding flatten_other Atom.neg
  flattened_other a b h =
      let (late, new) = push_atom-Assumed _ _ h in
      let (mid, no') = push_source-Assumed _ _ late in
      let (before, same) = introduced_all a.args b mid in
      (before, not_other _ a.sign (λ ne. no' (arg_equations-Holds a.args _ _ same (ne, (new, tt)))))

module _ {D : Type 0} (op : ℕ → List D → D) (rel : ℕ → List D → Bool) where
  -- What flattening an atom does, where it returns: the old atom is true if the new one is.
  abbrev Yields :
      (FlatClauseBuilder → Option FlatClauseBuilder)
      → FlatClauseBuilder
      → ((ℕ → D) → Type 0)
      → Type 0
  Yields f b P =
      (c : FlatClauseBuilder) × (f b ≡ some c)
      × ((v : ℕ → D) → Assumed op rel v c → Assumed op rel v b × P v)

  flattened_equation :
      (sign : Bool) (ts : Terms) (b : FlatClauseBuilder)
      → arg_count ts ≡ 2
      → Yields (flatten_equation sign ts) b (λ v. rel eq_pred (values op v ts) ≡ sign)
  unfolding flatten_equation
  flattened_equation sign nil b two = absurd (omega arith)
  flattened_equation sign (cons l nil) b two = absurd (omega arith)
  flattened_equation sign (cons l (cons r (cons t ts))) b two = absurd (omega arith)
  flattened_equation sign (cons l (cons r nil)) b two = (
    _,
    refl,
    λ v h.
        let c = (flatten_left sign l r b).1 in
        let l' = (flatten_left sign l r b).0 in
        let (late, new) = push_atom-Assumed op rel v _ _ h in
        let (mid, right) = flattened_right op rel v sign l' r c late in
        let (before, left) = flattened_left op rel v sign l r b mid in (before, left (right new)),
  )

  flattened_atom :
      (a : Atom) (b : FlatClauseBuilder)
      → EqBinary a
      → Yields (flatten_atom a) b (λ v. Holds op rel v a)
  unfolding flatten_atom
  flattened_atom a b two = elim (Bool-cases (a.pred == eq_pred)) [
    | inr e ↦ (flatten_other a b, rw e refl, λ v. flattened_other op rel v a b)
    | inl e ↦
        let is_eq : a.pred ≡ eq_pred = (==_iff a.pred eq_pred).0 e in
        let (c, ran, gives) = flattened_equation a.sign a.args b (two is_eq) in
        (
          c,
          rw e ran,
          λ v h.
              let (before, p) = gives v h in
              (before, ap (λ p. rel p (values op v a.args)) is_eq ∙ p),
        )
  ]

  flattened_atoms :
      (l : List Atom) (b : FlatClauseBuilder)
      → All EqBinary l
      → Yields (flatten_atoms l) b (λ v. All (Holds op rel v) l)
  unfolding flatten_atoms
  flattened_atoms [] b two = (b, refl, λ v h. (h, tt))
  flattened_atoms (a ∷ l) b two =
      let (c, ran, rest) = flattened_atoms l b two.1 in
      let (d, ran', first) = flattened_atom a c two.0 in
      (
        d,
        ap (λ m. m >>= flatten_atom a) ran ∙ ran',
        λ v h. let (mid, p) = first v h in let (before, q) = rest v mid in (before, (p, q)),
      )

  -- Where the equations of a clause have two arguments, flattening it returns. If the clause
  -- follows from its sources in a structure, whatever relation `EQ` is there, so does the flat one.
  pub flat_builder-Follows :
      (c : DerAndClause)
      → All EqBinary (derived c).stored
      → Follows op rel c
      → (b : FlatClauseBuilder) × (flat_builder c ≡ some b) × Follows op rel (build b)
  unfolding flat_builder build Derived.build derived sources atoms start Clause.shift
      Clause.set_id_offset
  flat_builder-Follows c two follows =
      let d = derived c in
      let (b, ran, gives) =
        flattened_atoms (atoms d) (start c) (EqBinary-number_from d.id_offset d.stored two) in
      (
        b,
        ran,
        λ v h no'.
            let w : ℕ → D = λ i. v (i + 0) in
            let (before, p) = gives w (record {
              no_source = Refuted-shift op rel v 0 b.source_clauses no';
              all_atoms = Holds-shift op rel v 0 b.atoms h;
            }) in
            follows w (Holds-number_from op rel w d.id_offset d.stored p) before.no_source,
      )

  -- Where the equations of a problem have two arguments, flattening it returns. If in a structure
  -- each clause follows from its sources, whatever relation `EQ` is there, then so does each flat
  -- clause.
  pub flatten_form-Follows :
      (f : List DerAndClause)
      → All (λ c. All EqBinary (derived c).stored) f
      → All (Follows op rel) f
      → (f' : List DerAndClause) × (flatten_form f ≡ some f') × All (Follows op rel) f'
  unfolding flatten_form
  flatten_form-Follows [] two follows = ([], refl, tt)
  flatten_form-Follows (c ∷ cs) two follows =
      let (b, ran, first) = flat_builder-Follows c two.0 follows.0 in
      let (ds, ran', rest) = flatten_form-Follows cs two.1 follows.1 in
      (build b ∷ ds, rw (ran, ran') refl, (first, rest))
