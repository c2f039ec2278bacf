-- ===== src/Order/Lpo/Sound.antt =====
-- The comparison of lazyparam_prover/lpo.h is sound for the definition of the lexicographic path
-- order, under every solution of the valuation.
use tptp_benchmark_go.Prelude.{
  ℕ, zero, suc, ◌≡◌, refl, ◌∙◌, ap, inl, inr, Bool, true, false, Option, none, some, ◌>>=◌, ◌==◌,
  if◌then◌else◌, >>=-eq-some, Bool-cases, ==_iff, some_eq, subst, sym,
}
use mathlib.Core.Path.{subst₂}
use tptp_benchmark_go.Syntax.Term.{Term, var, fun, Terms, nil, cons}
use tptp_benchmark_go.Unify.{Valuation, has_var, shallow_eval, equal}
use tptp_benchmark_go.Unify.Subst.{apply, apply_args, Solves, Known, KnownArgs, Closed}
use tptp_benchmark_go.Unify.Outcome.{shallow_eval-Shallow}
use tptp_benchmark_go.Order.FunOrd.{FunOrd}
use tptp_benchmark_go.Order.FunOrd
use tptp_benchmark_go.Order.Constraint.{Relation, l, g, e, u}
use tptp_benchmark_go.Order.Lpo.{
  Prefix, stop_at, first_diff, all_less, any_above, less_rest, less_fun, less_roots, less, cmp,
}
use tptp_benchmark_go.Order.Lpo.Below.{
  IsArg, here, there, Below, is_arg, below_arg, smaller, same, AllBelow, none_left, one_more,
  LexBelow, at, after, AtMost, Below-of_arg, EqSound, LessSound, equal-EqSound, has_var-Below,
}

module _ (ar : ℕ → ℕ) (ord : FunOrd) (val : Valuation) (s : ℕ → Term) (c : Closed ar val)
    (sol : Solves s val) where
  module _ (eq : Term → Term → Option Bool) (rec : Term → Term → Option Bool)
      (eq_ok : EqSound ar ord val s c sol eq) (rec_ok : LessSound ar ord val s c sol rec) where
    all_less-AllBelow :
        (ts : Terms) (b : Term)
        → KnownArgs ar val ts
        → Known ar val b
        → all_less rec ts b ≡ some true
        → AllBelow ord (apply_args s ts) (apply s b)
    unfolding all_less
    all_less-AllBelow nil b k m h = none_left
    all_less-AllBelow (cons t ts) b k m h =
        let (x, p, q) =
          >>=-eq-some (rec t b) (λ x. if x then all_less rec ts b else some false) h in
        elim (Bool-cases x) [
          | inl y ↦
              one_more (rec_ok t b k.0 m (p ∙ ap some y)) (all_less-AllBelow ts b k.1 m (rw y at q))
          | inr y ↦ let f : some false ≡ some true = rw y at q in cc
        ]

    any_above-AtMost :
        (a : Term) (us : Terms)
        → Known ar val a
        → KnownArgs ar val us
        → any_above eq rec a us ≡ some true
        → (b : Term) × IsArg b (apply_args s us) × AtMost ord (apply s a) b
    unfolding any_above
    any_above-AtMost a nil k m h = cc
    any_above-AtMost a (cons w us) k m h =
        let rest = any_above eq rec a us in
        let (x, p, q) =
          >>=-eq-some (eq a w)
            (λ x. if x then some true else (rec a w >>= λ y. if y then some true else rest)) h in
        elim (Bool-cases x) [
          | inl x' ↦ (apply s w, here refl, inl (eq_ok a w k m.0 (p ∙ ap some x')))
          | inr x' ↦
              let (y, p', q') =
                >>=-eq-some (rec a w) (λ y. if y then some true else rest) (rw x' at q) in
              elim (Bool-cases y) [
                | inl y' ↦ (apply s w, here refl, inr (rec_ok a w k m.0 (p' ∙ ap some y')))
                | inr y' ↦
                    let (b, i, r) = any_above-AtMost a us k m.1 (rw y' at q') in (b, there i, r)
              ]
        ]

    -- What the common prefix of two lists of arguments says of them.
    record Split (ts us : Terms) (p : Prefix) : Type 0 where
      known_a : KnownArgs ar val p.rest_a
      known_b : KnownArgs ar val p.rest_b
      suffix : (b : Term) → IsArg b (apply_args s p.rest_b) → IsArg b (apply_args s us)
      below :
          p.lex ≡ true
          → (h : ℕ) (vs : Terms) → ((b : Term) → IsArg b (apply_args s us) → IsArg b vs)
          → AllBelow ord (apply_args s p.rest_a) (fun h vs)
          → LexBelow ord (apply_args s ts) (apply_args s us)
            × AllBelow ord (apply_args s ts) (fun h vs)

    different :
        (t w : Term) (ts us : Terms) (x : Bool)
        → KnownArgs ar val (cons t ts)
        → KnownArgs ar val (cons w us)
        → rec t w ≡ some x
        → Split (cons t ts) (cons w us) (record { lex = x; rest_a = ts; rest_b = us })
    different t w ts us x k m q = record {
      known_a = k.1;
      known_b = m.1;
      suffix = λ b i. there i;
      below = λ lx h vs sub all.
          let b = rec_ok t w k.0 m.0 (q ∙ ap some lx) in
          (at b, one_more (below_arg (sub (apply s w) (here refl)) b) all);
    }

    first_diff-Split :
        (ts us : Terms) (p : Prefix)
        → KnownArgs ar val ts
        → KnownArgs ar val us
        → first_diff eq rec ts us ≡ some (some p)
        → Split ts us p
    unfolding first_diff
    first_diff-Split nil us p k m h = cc
    first_diff-Split (cons t ts) nil p k m h = cc
    first_diff-Split (cons t ts) (cons w us) p k m h =
        let rest = first_diff eq rec ts us in
        let diff = rec t w >>= stop_at ts us in
        let (x, q, r) = >>=-eq-some (eq t w) (λ x. if x then rest else diff) h in
        elim (Bool-cases x) [
          | inl y ↦
              let z : Split ts us p = first_diff-Split ts us p k.1 m.1 (rw y at r) in
              let e' = eq_ok t w k.0 m.0 (q ∙ ap some y) in
              record {
                known_a = z.known_a;
                known_b = z.known_b;
                suffix = λ b i. there (z.suffix b i);
                below = λ lx h vs sub all.
                    let (lx', all') = z.below lx h vs (λ b i. sub b (there i)) all in
                    (after e' lx', one_more (is_arg (sub (apply s t) (here e'))) all');
              }
          | inr y ↦
              let (x', q', r') = >>=-eq-some (rec t w) (stop_at ts us) (rw y at r) in
              subst (Split (cons t ts) (cons w us)) (some_eq (some_eq r'))
                (different t w ts us x' k m q')
        ]

    less_rest-Below :
        (f h : ℕ) (ts us : Terms) (x : Bool) (rs bs : Terms)
        → Known ar val (fun f ts)
        → Known ar val (fun h us)
        → KnownArgs ar val rs
        → KnownArgs ar val bs
        → ((b : Term) → IsArg b (apply_args s bs) → IsArg b (apply_args s us))
        → (x ≡ true
            → AllBelow ord (apply_args s rs) (apply s (fun h us))
            → Below ord (apply s (fun f ts)) (apply s (fun h us)))
        → less_rest eq rec (fun f ts) (fun h us) x rs bs ≡ some true
        → Below ord (apply s (fun f ts)) (apply s (fun h us))
    unfolding less_rest
    less_rest-Below f h ts us true rs bs k m ka kb sub done q =
        done refl (all_less-AllBelow rs (fun h us) ka m q)
    less_rest-Below f h ts us false rs bs k m ka kb sub done q =
        let (b, i, r) = any_above-AtMost (fun f ts) bs k kb q in
        Below-of_arg ord (apply s (fun f ts)) b h (apply_args s us) (sub b i) r

    less_fun-Below :
        (f h : ℕ) (ts us : Terms)
        → Known ar val (fun f ts)
        → Known ar val (fun h us)
        → less_fun eq rec ord f ts h us ≡ some true
        → Below ord (apply s (fun f ts)) (apply s (fun h us))
    unfolding less_fun
    less_fun-Below f h ts us k m q = elim (Bool-cases (f == h)) [
      | inl p ↦ equal_functors (rw p at q) ((==_iff f h).0 p)
      | inr p ↦
          less_rest-Below f h ts us (FunOrd.less ord f h) ts us k m k.1 m.1 (λ b i. i)
            (λ lx all. smaller lx all) (rw p at q)
    ]
      where
        equal_functors :
            (first_diff eq rec ts us >>= elim [
              | none ↦ some false
              | some p ↦ less_rest eq rec (fun f ts) (fun h us) p.lex p.rest_a p.rest_b
            ])
              ≡ some true
            → f ≡ h
            → Below ord (apply s (fun f ts)) (apply s (fun h us))
        equal_functors q e' =
            let (o, found, r) =
              >>=-eq-some (first_diff eq rec ts us)
                (elim [
                  | none ↦ some false
                  | some p ↦ less_rest eq rec (fun f ts) (fun h us) p.lex p.rest_a p.rest_b
                ])
                q in
            go o found r
          where
            go :
                (o : Option Prefix)
                → first_diff eq rec ts us ≡ some o
                → (elim o [
                  | none ↦ some false
                  | some p ↦ less_rest eq rec (fun f ts) (fun h us) p.lex p.rest_a p.rest_b
                ])
                  ≡ some true
                → Below ord (apply s (fun f ts)) (apply s (fun h us))
            go none found r = cc
            go (some p) found r =
                let z = first_diff-Split ts us p k.1 m.1 found in
                less_rest-Below f h ts us p.lex p.rest_a p.rest_b k m z.known_a z.known_b z.suffix
                  (λ lx all.
                    let (lx', all') = z.below lx h (apply_args s us) (λ b i. i) all in
                    same e' lx' all')
                  r

  roots :
      (n : ℕ)
      → LessSound ar ord val s c sol (less n ord val)
      → (a b : Term) → Known ar val a
      → Known ar val b
      → less_roots (equal n val) (less n ord val) (has_var n val) ord a b ≡ some true
      → Below ord (apply s a) (apply s b)
  unfolding less_roots
  roots n ih (var i) (var j) k m h = cc
  roots n ih (fun f ts) (var j) k m h = cc
  roots n ih (var i) (fun h us) k m q = has_var-Below ar ord val s c sol n h us i q
  roots n ih (fun f ts) (fun h us) k m q =
      less_fun-Below (equal n val) (less n ord val) (equal-EqSound ar ord val s c sol n) ih f h ts
        us k m q

  less-LessSound : (n : ℕ) → LessSound ar ord val s c sol (less n ord val)
  unfolding less
  less-LessSound zero a b k m h = cc
  less-LessSound (suc n) a b k m h =
      let step =
        λ (b' a' : Term). less_roots (equal n val) (less n ord val) (has_var n val) ord a' b' in
      let (b', p, h') =
        >>=-eq-some (shallow_eval n val b) (λ b'. shallow_eval n val a >>= λ a'. step b' a') h in
      let (a', q, h'') = >>=-eq-some (shallow_eval n val a) (λ a'. step b' a') h' in
      let sb = shallow_eval-Shallow ar n val b b' c m p in
      let sa = shallow_eval-Shallow ar n val a a' c k q in
      subst₂ (Below ord) (sym (sa.same s sol)) (sym (sb.same s sol))
        (roots n (less-LessSound n) a' b' sa.known sb.known h'')

  -- What a relation says of two terms in the lexicographic path order.
  abbrev pub Holds : Relation → Term → Term → Type 0
  Holds l a b = Below ord a b
  Holds g a b = Below ord b a
  Holds e a b = a ≡ b
  Holds _ a b = Unit

  -- What `cmp` says of two well-formed terms under a well-formed valuation holds for the terms that any solution of the valuation makes of
  -- them: on `E` they become equal, on `L` the first is below the second in the lexicographic
  -- path order, and on `G` above it.
  pub cmp-Holds :
      (n : ℕ) (a b : Term) (r : Relation)
      → Known ar val a
      → Known ar val b
      → cmp n ord val a b ≡ some r
      → Holds r (apply s a) (apply s b)
  unfolding cmp
  cmp-Holds n a b r k m h =
      let back = less n ord val b a >>= λ y. if y then some g else some u in
      let after_eq = less n ord val a b >>= λ x. if x then some l else back in
      let (x, p, q) = >>=-eq-some (equal n val a b) (λ x. if x then some e else after_eq) h in
      elim (Bool-cases x) [
        | inl y ↦
            subst (λ r. Holds r (apply s a) (apply s b)) (some_eq (rw y at q))
              (equal-EqSound ar ord val s c sol n a b k m (p ∙ ap some y))
        | inr y ↦
            let (x', p', q') =
              >>=-eq-some (less n ord val a b) (λ x. if x then some l else back) (rw y at q) in
            elim (Bool-cases x') [
              | inl y' ↦
                  subst (λ r. Holds r (apply s a) (apply s b)) (some_eq (rw y' at q'))
                    (less-LessSound n a b k m (p' ∙ ap some y'))
              | inr y' ↦
                  let (z, p'', q'') =
                    >>=-eq-some (less n ord val b a) (λ y. if y then some g else some u)
                      (rw y' at q') in
                  elim (Bool-cases z) [
                    | inl w ↦
                        subst (λ r. Holds r (apply s a) (apply s b)) (some_eq (rw w at q''))
                          (less-LessSound n b a m k (p'' ∙ ap some w))
                    | inr w ↦
                        subst (λ r. Holds r (apply s a) (apply s b)) (some_eq (rw w at q'')) tt
                  ]
            ]
      ]
