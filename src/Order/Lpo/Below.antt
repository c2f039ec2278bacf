-- ===== src/Order/Lpo/Below.antt =====
-- The lexicographic path order of lazyparam_prover/lpo.h as a relation, and what equality and
-- occurrence under a valuation say of it for every solution of the valuation.
use tptp_benchmark_go.Prelude.{
  ℕ, zero, suc, ◌≡◌, refl, sym, ap, ap₂, ◌∙◌, ◌⊎◌, inl, inr, Bool, true, false, Option, none, some,
  ◌>>=◌, ◌==◌, if◌then◌else◌, >>=-eq-some, Bool-cases, ==_iff, some_eq, subst, arith,
}
use tptp_benchmark_go.Syntax.Term.{Term, var, fun, Terms, nil, cons, arg_count}
use tptp_benchmark_go.Memory.Rewind.{get}
use tptp_benchmark_go.Unify.{
  Valuation, any_var, any_var_args, has_var, shallow_eval, equal, equal_roots, equal_args,
}
use tptp_benchmark_go.Unify.Subst.{apply, apply_args, Solves, Known, KnownArgs, Closed}
use tptp_benchmark_go.Unify.Outcome.{shallow_eval-Shallow}
use tptp_benchmark_go.Order.FunOrd.{FunOrd}
use tptp_benchmark_go.Order.FunOrd

-- `a` is one of the arguments.
pub data IsArg (a : Term) : Terms → Type 0 where
  here : {b : Term} {ts : Terms} → a ≡ b → IsArg a (cons b ts)
  there : {b : Term} {ts : Terms} → IsArg a ts → IsArg a (cons b ts)

-- The order of the header comment: `a` is below `b` if it is an argument of `b` or below one, or
-- if all arguments of `a` are below `b` and either the functor of `a` is, or the functors are the
-- same and the arguments of `a` are lexicographically below those of `b`.
mutual
  pub data Below (ord : FunOrd) : Term → Term → Type 0 where
    is_arg : {a : Term} {h : ℕ} {us : Terms} → IsArg a us → Below ord a (fun h us)
    below_arg :
        {a b : Term} {h : ℕ} {us : Terms} → IsArg b us → Below ord a b → Below ord a (fun h us)
    smaller :
        {f h : ℕ} {ts us : Terms}
        → FunOrd.less ord f h ≡ true
        → AllBelow ord ts (fun h us)
        → Below ord (fun f ts) (fun h us)
    same :
        {f h : ℕ} {ts us : Terms}
        → f ≡ h
        → LexBelow ord ts us
        → AllBelow ord ts (fun h us)
        → Below ord (fun f ts) (fun h us)

  pub data AllBelow (ord : FunOrd) : Terms → Term → Type 0 where
    none_left : {b : Term} → AllBelow ord nil b
    one_more :
        {t b : Term} {ts : Terms} → Below ord t b → AllBelow ord ts b → AllBelow ord (cons t ts) b

  pub data LexBelow (ord : FunOrd) : Terms → Terms → Type 0 where
    at : {t s : Term} {ts us : Terms} → Below ord t s → LexBelow ord (cons t ts) (cons s us)
    after :
        {t s : Term} {ts us : Terms}
        → t ≡ s
        → LexBelow ord ts us
        → LexBelow ord (cons t ts) (cons s us)

-- `a` is `b` or below it.
abbrev pub AtMost : FunOrd → Term → Term → Type 0
AtMost ord a b = (a ≡ b) ⊎ Below ord a b

pub Below-of_arg :
    (ord : FunOrd) (a b : Term) (h : ℕ) (us : Terms)
    → IsArg b us
    → AtMost ord a b
    → Below ord a (fun h us)
Below-of_arg ord a b h us m (inl q) = is_arg (subst (λ x. IsArg x us) (sym q) m)
Below-of_arg ord a b h us m (inr q) = below_arg m q

module _ (ar : ℕ → ℕ) (ord : FunOrd) (val : Valuation) (s : ℕ → Term) (c : Closed ar val)
    (sol : Solves s val) where
  -- A test that says `true` only for terms that the solution makes equal, and one that does so
  -- only for terms that it puts in order.
  abbrev pub EqSound : (Term → Term → Option Bool) → Type 0
  EqSound eq =
      (x y : Term) → Known ar val x → Known ar val y → eq x y ≡ some true → apply s x ≡ apply s y

  abbrev pub LessSound : (Term → Term → Option Bool) → Type 0
  LessSound rec =
      (x y : Term)
      → Known ar val x
      → Known ar val y
      → rec x y ≡ some true
      → Below ord (apply s x) (apply s y)

  pub equal_args-same :
      (rec : Term → Term → Option Bool)
      → EqSound rec
      → (ts us : Terms) → arg_count ts ≡ arg_count us
      → KnownArgs ar val ts
      → KnownArgs ar val us
      → equal_args rec ts us ≡ some true
      → apply_args s ts ≡ apply_args s us
  unfolding equal_args
  equal_args-same rec ok nil nil n k m h = refl
  equal_args-same rec ok nil (cons w us) n k m h = absurd (omega arith)
  equal_args-same rec ok (cons t ts) nil n k m h = absurd (omega arith)
  equal_args-same rec ok (cons t ts) (cons w us) n k m h =
      let (b, q, r) =
        >>=-eq-some (equal_args rec ts us) (λ b. if b then rec t w else some false) h in
      elim (Bool-cases b) [
        | inl p ↦
            ap₂ cons (ok t w k.0 m.0 (rw p at r))
              (equal_args-same rec ok ts us (omega arith) k.1 m.1 (q ∙ ap some p))
        | inr p ↦ let f : some false ≡ some true = rw p at r in cc
      ]

  equal_roots-same : (rec : Term → Term → Option Bool) → EqSound rec → EqSound (equal_roots rec)
  unfolding equal_roots
  equal_roots-same rec ok (var i) (var j) k m h = ap s ((==_iff i j).0 (some_eq h))
  equal_roots-same rec ok (var i) (fun h us) k m q = cc
  equal_roots-same rec ok (fun f ts) (var j) k m q = cc
  equal_roots-same rec ok (fun f ts) (fun h us) k m q = elim (Bool-cases (f == h)) [
    | inl p ↦
        let eq : f ≡ h = (==_iff f h).0 p in
        ap₂ fun eq (equal_args-same rec ok ts us (k.0 ∙ ap ar eq ∙ sym m.0) k.1 m.1 (rw p at q))
    | inr p ↦ let f : some false ≡ some true = rw p at q in cc
  ]

  pub equal-EqSound : (n : ℕ) → EqSound (equal n val)
  unfolding equal
  equal-EqSound zero x y k m h = cc
  equal-EqSound (suc n) x y k m h =
      let (x', p, h') =
        >>=-eq-some (shallow_eval n val x)
          (λ x'. shallow_eval n val y >>= λ y'. equal_roots (equal n val) x' y') h in
      let (y', q, h'') =
        >>=-eq-some (shallow_eval n val y) (λ y'. equal_roots (equal n val) x' y') h' in
      let sx = shallow_eval-Shallow ar n val x x' c k p in
      let sy = shallow_eval-Shallow ar n val y y' c m q in
      sx.same s sol
      ∙ equal_roots-same (equal n val) (equal-EqSound n) x' y' sx.known sy.known h''
      ∙ sym (sy.same s sol)

  module _ (v : ℕ) (p : ℕ → Option Bool)
      (bound : (i : ℕ) → p i ≡ some true → AtMost ord (s v) (s i)) where
    mutual
      unfolding any_var

      found_in : (t : Term) → any_var p t ≡ some true → AtMost ord (s v) (apply s t)
      found_in (var i) h = bound i h
      found_in (fun f ts) h =
          let (b, m, a) = found_in_args ts h in
          inr (Below-of_arg ord (s v) b f (apply_args s ts) m a)

      found_in_args :
          (ts : Terms)
          → any_var_args p ts ≡ some true
          → (b : Term) × IsArg b (apply_args s ts) × AtMost ord (s v) b
      found_in_args nil h = cc
      found_in_args (cons t ts) h =
          let (b, q, r) =
            >>=-eq-some (any_var_args p ts) (λ b. if b then some true else any_var p t) h in
          elim (Bool-cases b) [
            | inl e' ↦ let (x, m, a) = found_in_args ts (q ∙ ap some e') in (x, there m, a)
            | inr e' ↦ (apply s t, here refl, found_in t (rw e' at r))
          ]

  bound_below :
      (n v : ℕ)
      → ((w : Term) → has_var n val w v ≡ some true → AtMost ord (s v) (apply s w))
      → (i : ℕ) (m : Option Term) → get val i ≡ m
      → (elim m [ none ↦ some (i == v) | some w ↦ has_var n val w v ]) ≡ some true
      → AtMost ord (s v) (s i)
  bound_below n v rec i none q h = inl (ap s (sym ((==_iff i v).0 (some_eq h))))
  bound_below n v rec i (some w) q h = subst (λ t. AtMost ord (s v) t) (sym (sol i w q)) (rec w h)

  has_var-AtMost :
      (n : ℕ) (t : Term) (v : ℕ) → has_var n val t v ≡ some true → AtMost ord (s v) (apply s t)
  unfolding has_var
  has_var-AtMost zero t v h = cc
  has_var-AtMost (suc n) t v h =
      found_in v _ (λ i q. bound_below n v (λ w. has_var-AtMost n w v) i (get val i) refl q) t h

  -- A variable that occurs in a functor's term is below it.
  pub has_var-Below :
      (n f : ℕ) (ts : Terms) (v : ℕ)
      → has_var n val (fun f ts) v ≡ some true
      → Below ord (s v) (apply s (fun f ts))
  unfolding has_var any_var
  has_var-Below zero f ts v h = cc
  has_var-Below (suc n) f ts v h =
      let (b, m, a) =
        found_in_args v _ (λ i q. bound_below n v (λ w. has_var-AtMost n w v) i (get val i) refl q)
          ts h in
      Below-of_arg ord (s v) b f (apply_args s ts) m a
