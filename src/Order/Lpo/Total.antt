-- ===== src/Order/Lpo/Total.antt =====
-- The comparison of lazyparam_prover/lpo.h ends under a valuation without cycles.
use tptp_benchmark_go.Prelude.{
  ℕ, ◌+◌, ◌<◌, ◌≤◌, ◌≡◌, inl, inr, refl, sym, ap, ◌∙◌, Bool, true, false, Option, none, some, ◌>>=◌,
  ◌==◌, ==_iff, if◌then◌else◌, Bool-cases, arith,
}
use tptp_benchmark_go.Syntax.Term.{Term, Terms, var, fun, nil, cons, arg_count}
use tptp_benchmark_go.Unify.{Valuation, has_var, equal}
use tptp_benchmark_go.Unify.Subst.{Known, KnownArgs, Closed, Solves, apply, term_size, args_size}
use tptp_benchmark_go.Unify.Settle.{Settles, Settles-suc, Settles->>=}
use tptp_benchmark_go.Unify.Acyclic.{Acyclic, Under, UnderArgs, Under-bound, has_var-Settles}
use tptp_benchmark_go.Unify.Total.Pairs.{
  Answers, Answers->>=, Answers-if, Answers-now, Answers-eq, AnswersInside, pair-Answers,
  equal-Answers,
}
use tptp_benchmark_go.Order.FunOrd.{FunOrd}
use tptp_benchmark_go.Order.FunOrd
use tptp_benchmark_go.Order.Constraint.{Relation, l, g, e, u}
use tptp_benchmark_go.Order.Lpo.{
  Prefix, stop_at, first_diff, all_less, any_above, less_rest, less_fun, less_roots, less, cmp,
}
use tptp_benchmark_go.Order.Lpo.Sound.{Holds, cmp-Holds}

module _ (ar : ℕ → ℕ) (ord : FunOrd) (val : Valuation) (c : Closed ar val) (a : Acyclic val) where
  -- The comparison ends on smaller pairs: the second term has ranks below `p`, the first below `q`.
  abbrev Inside : ℕ → ℕ → ℕ → Type 0
  Inside = AnswersInside ar val c a (λ n y x. less n ord val x y)

  occurs-Answers : (t : Term) (v : ℕ) → Answers (λ n. has_var n val t v)
  occurs-Answers t v =
      let (k, below) = Under-bound a.rank t in
      let (b, s) = has_var-Settles a.rank val a.falls k t v below in
      (b, Settles-suc (λ n. has_var n val t v) (k, s))

  -- Arguments of a term with ranks below `q` and `m` symbols or fewer.
  record Part (q m : ℕ) (ts : Terms) : Type 0 where
    under : UnderArgs a.rank q ts
    small : args_size ts ≤ m
    known : KnownArgs ar val ts

  later : (q m : ℕ) (t : Term) (ts : Terms) → Part q m (cons t ts) → Part q m ts
  later q m t ts h =
      let s = h.small in record { under = h.under.1; small = omega arith; known = h.known.1 }

  all_less-Answers :
      (p q m k : ℕ)
      → Inside p q m
      → (b : Term) → Under a.rank p b
      → Known ar val b
      → term_size b + k < m
      → (ts : Terms) → Part q k ts
      → Answers (λ n. all_less (less n ord val) ts b)
  unfolding all_less
  all_less-Answers p q m k inside b ub kb s nil h = Answers-now true _ (λ n. refl)
  all_less-Answers p q m k inside b ub kb s (cons t ts) h =
      let size = h.small in
      Answers-if (λ n. less n ord val t b) (λ n. all_less (less n ord val) ts b) (λ n. some false)
        (inside b t ub h.under.0 (omega arith) kb h.known.0)
        (all_less-Answers p q m k inside b ub kb s ts (later q k t ts h))
        (Answers-now false _ (λ n. refl))

  any_above-Answers :
      (p q m k : ℕ)
      → Inside p q m
      → (x : Term) → Under a.rank q x
      → Known ar val x
      → term_size x + k < m
      → (us : Terms) → Part p k us
      → Answers (λ n. any_above (equal n val) (less n ord val) x us)
  unfolding any_above
  any_above-Answers p q m k inside x ux kx s nil h = Answers-now false _ (λ n. refl)
  any_above-Answers p q m k inside x ux kx s (cons t us) h =
      let size = h.small in
      let rest = any_above-Answers p q m k inside x ux kx s us (later p k t us h) in
      Answers-if (λ n. equal n val x t) (λ n. some true)
        (λ n. less n ord val x t >>= λ y.
          if y then some true else any_above (equal n val) (less n ord val) x us)
        (equal-Answers ar val c a x t kx h.known.0) (Answers-now true _ (λ n. refl))
        (Answers-if (λ n. less n ord val x t) (λ n. some true)
          (λ n. any_above (equal n val) (less n ord val) x us)
          (inside t x h.under.0 ux (omega arith) h.known.0 kx) (Answers-now true _ (λ n. refl))
          rest)

  -- the arguments behind the first difference
  abbrev Rest : ℕ → ℕ → ℕ → ℕ → Option Prefix → Type 0
  Rest p q i j none = Unit
  Rest p q i j (some d) = Part q i d.rest_a × Part p j d.rest_b

  stop-Rest :
      (p q i j : ℕ) (ts us : Terms) (f : ℕ → Option Bool)
      → Part q i ts
      → Part p j us
      → Answers f
      → (r : Option Prefix) × Settles (λ n. f n >>= stop_at ts us) r × Rest p q i j r
  stop-Rest p q i j ts us f h k (x, s) = (
    some (record { lex = x; rest_a = ts; rest_b = us }),
    Settles->>= f (λ n. stop_at ts us) s (0, λ n g. refl),
    (h, k),
  )

  first_diff-Rest :
      (p q m i j : ℕ)
      → Inside p q m
      → i + j < m
      → (ts us : Terms) → Part q i ts
      → Part p j us
      → arg_count ts ≡ arg_count us
      → (r : Option Prefix) × Settles (λ n. first_diff (equal n val) (less n ord val) ts us) r
        × Rest p q i j r
  unfolding first_diff
  first_diff-Rest p q m i j inside s nil us h k same = (none, (0, λ n g. refl), tt)
  first_diff-Rest p q m i j inside s (cons t ts) nil h k same = absurd (omega arith)
  first_diff-Rest p q m i j inside s (cons t ts) (cons x us) h k same =
      let size = h.small in
      let size' = k.small in
      go (equal-Answers ar val c a t x h.known.0 k.known.0)
        (first_diff-Rest p q m i j inside s ts us (later q i t ts h) (later p j x us k)
          (omega arith))
        (stop-Rest p q i j ts us (λ n. less n ord val t x) (later q i t ts h) (later p j x us k)
          (inside x t k.under.0 h.under.0 (omega arith) k.known.0 h.known.0))
    where
      rest : ℕ → Option (Option Prefix)
      rest n = first_diff (equal n val) (less n ord val) ts us

      stop : ℕ → Option (Option Prefix)
      stop n = less n ord val t x >>= stop_at ts us

      go :
          Answers (λ n. equal n val t x)
          → ((r : Option Prefix) × Settles rest r × Rest p q i j r)
          → ((r : Option Prefix) × Settles stop r × Rest p q i j r)
          → (r : Option Prefix) × Settles
              (λ n. equal n val t x >>= λ same. if same then rest n else stop n)
              r
            × Rest p q i j r
      go (true, se) (r, sr, hr) stopped = (
        r,
        Settles->>= (λ n. equal n val t x) (λ n same. if same then rest n else stop n) se sr,
        hr,
      )
      go (false, se) found (r, sr, hr) = (
        r,
        Settles->>= (λ n. equal n val t x) (λ n same. if same then rest n else stop n) se sr,
        hr,
      )

  less_rest-Answers :
      (p q m i j : ℕ)
      → Inside p q m
      → (x y : Term) → Under a.rank q x
      → Under a.rank p y
      → Known ar val x
      → Known ar val y
      → term_size y + i < m
      → term_size x + j < m
      → (lex : Bool) (ts us : Terms) → Part q i ts
      → Part p j us
      → Answers (λ n. less_rest (equal n val) (less n ord val) x y lex ts us)
  unfolding less_rest
  less_rest-Answers p q m i j inside x y ux uy kx ky sy sx true ts us h k =
      all_less-Answers p q m i inside y uy ky sy ts h
  less_rest-Answers p q m i j inside x y ux uy kx ky sy sx false ts us h k =
      any_above-Answers p q m j inside x ux kx sx us k

  roots-Answers :
      (p q m : ℕ)
      → Inside p q m
      → (y x : Term) → Under a.rank p y
      → Under a.rank q x
      → term_size y + term_size x ≤ m
      → Known ar val y
      → Known ar val x
      → Answers (λ n. less_roots (equal n val) (less n ord val) (has_var n val) ord x y)
  unfolding less_roots less_fun
  roots-Answers p q m inside (var j) x uy ux s ky kx = Answers-now false _ (λ n. refl)
  roots-Answers p q m inside (fun h us) (var i) uy ux s ky kx = occurs-Answers (fun h us) i
  roots-Answers p q m inside (fun h us) (fun f ts) uy ux s ky kx = elim (Bool-cases (f == h)) [
    | inr d ↦
        Answers-eq _ (λ n. rest n (FunOrd.less ord f h) ts us) (λ n. rw d refl)
          (tail (FunOrd.less ord f h) ts us whole_a whole_b)
    | inl d ↦
        let same : f ≡ h = (==_iff f h).0 d in
        Answers-eq _ (λ n. first_diff (equal n val) (less n ord val) ts us >>= after n)
          (λ n. rw d refl)
          (go (
            first_diff-Rest p q m (args_size ts) (args_size us) inside (omega arith) ts us whole_a
              whole_b (kx.0 ∙ ap ar same ∙ sym ky.0)))
  ]
    where
      rest : ℕ → Bool → Terms → Terms → Option Bool
      rest n = less_rest (equal n val) (less n ord val) (fun f ts) (fun h us)

      after : ℕ → Option Prefix → Option Bool
      after n none = some false
      after n (some d) = rest n d.lex d.rest_a d.rest_b

      whole_a : Part q (args_size ts) ts
      whole_a = record { under = ux; small = omega arith; known = kx.1 }

      whole_b : Part p (args_size us) us
      whole_b = record { under = uy; small = omega arith; known = ky.1 }

      tail :
          (lex : Bool) (ts' us' : Terms)
          → Part q (args_size ts) ts'
          → Part p (args_size us) us'
          → Answers (λ n. rest n lex ts' us')
      tail =
          less_rest-Answers p q m (args_size ts) (args_size us) inside (fun f ts) (fun h us) ux uy
            kx ky (omega arith) (omega arith)

      go :
          ((r : Option Prefix) × Settles (λ n. first_diff (equal n val) (less n ord val) ts us) r
            × Rest p q (args_size ts) (args_size us) r)
          → Answers (λ n. first_diff (equal n val) (less n ord val) ts us >>= after n)
      go (none, sr, hr) =
          Answers->>= (λ n. first_diff (equal n val) (less n ord val) ts us) after none sr
            (Answers-now false _ (λ n. refl))
      go (some d, sr, hr) =
          Answers->>= (λ n. first_diff (equal n val) (less n ord val) ts us) after (some d) sr
            (tail d.lex d.rest_a d.rest_b hr.0 hr.1)

  -- The strict comparison ends.
  pub less-Answers :
      (x y : Term) → Known ar val x → Known ar val y → Answers (λ n. less n ord val x y)
  unfolding less
  less-Answers x y kx ky =
      pair-Answers ar val c a (λ n y x. less n ord val x y)
        (λ n y x. less_roots (equal n val) (less n ord val) (has_var n val) ord x y) (λ n y x. refl)
        roots-Answers y x ky kx

  -- Comparison of two well-formed terms under a well-formed valuation without cycles returns, with
  -- the same relation for all fuel from some amount on, and what it says holds for the terms that
  -- any solution of the valuation makes of the two: on `E` they become equal, on `L` the first is
  -- below the second in the lexicographic path order, and on `G` above it.
  pub cmp_total :
      (x y : Term)
      → Known ar val x
      → Known ar val y
      → (r : Relation) × Settles (λ n. cmp n ord val x y) r
        × ((s : ℕ → Term)
            → (sol : Solves s val) → Holds ar ord val s c sol r (apply s x) (apply s y))
  unfolding cmp
  cmp_total x y kx ky = told (settled (equal-Answers ar val c a x y kx ky))
    where
      back : ℕ → Option Relation
      back n = less n ord val y x >>= λ b. if b then some g else some u

      after : ℕ → Option Relation
      after n = less n ord val x y >>= λ b. if b then some l else back n

      settled_back : Answers (λ n. less n ord val y x) → (r : Relation) × Settles back r
      settled_back (true, s) = (
        g,
        Settles->>= (λ n. less n ord val y x) (λ n b. if b then some g else some u) s
            (0, λ n h. refl),
      )
      settled_back (false, s) = (
        u,
        Settles->>= (λ n. less n ord val y x) (λ n b. if b then some g else some u) s
            (0, λ n h. refl),
      )

      settled_after :
          Answers (λ n. less n ord val x y)
          → ((r : Relation) × Settles back r)
          → (r : Relation) × Settles after r
      settled_after (true, s) later = (
        l,
        Settles->>= (λ n. less n ord val x y) (λ n b. if b then some l else back n) s
            (0, λ n h. refl),
      )
      settled_after (false, s) (r, t) =
          (r, Settles->>= (λ n. less n ord val x y) (λ n b. if b then some l else back n) s t)

      rest : (r : Relation) × Settles after r
      rest = settled_after (less-Answers x y kx ky) (settled_back (less-Answers y x ky kx))

      settled : Answers (λ n. equal n val x y) → (r : Relation) × Settles (λ n. cmp n ord val x y) r
      settled (true, s) = (
        e,
        Settles->>= (λ n. equal n val x y) (λ n b. if b then some e else after n) s
            (0, λ n h. refl),
      )
      settled (false, s) = (
        rest.0,
        Settles->>= (λ n. equal n val x y) (λ n b. if b then some e else after n) s rest.1,
      )

      told :
          ((r : Relation) × Settles (λ n. cmp n ord val x y) r)
          → (r : Relation) × Settles (λ n. cmp n ord val x y) r
            × ((s : ℕ → Term)
                → (sol : Solves s val) → Holds ar ord val s c sol r (apply s x) (apply s y))
      told (r, (k, h)) =
          (r, (k, h), λ s sol. cmp-Holds ar ord val s c sol k x y r kx ky (h k (omega arith)))
