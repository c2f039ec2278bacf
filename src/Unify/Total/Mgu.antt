-- ===== src/Unify/Total/Mgu.antt =====
-- The induction behind the termination of unification (lazyparam_prover/mgu.h): on the number of
-- free variables, the ranks of the two terms, and their sizes.
use tptp_benchmark_go.Prelude.{
  ℕ, ◌+◌, ◌<◌, ◌≤◌, ◌≡◌, ◌↔◌, inl, inr, refl, sym, ap, ◌∙◌, Bool, true, false, Option, none, some,
  ◌==◌, ==_iff, Bool-cases, arith, subst, strong_induction,
}
use tptp_benchmark_go.Memory.Rewind.{get, size}
use tptp_benchmark_go.Syntax.Term.{Term, Terms, var, fun, nil, cons, arg_count}
use tptp_benchmark_go.Unify.{Valuation, assign, mgu_args, mgu_step, mgu}
use tptp_benchmark_go.Unify.Subst.{Known, KnownArgs, Closed, Solves, term_size, args_size}
use tptp_benchmark_go.Unify.Solve.{mgu-Correct, Equates, KnownArgs-size}
use tptp_benchmark_go.Unify.Settle.{Settles}
use tptp_benchmark_go.Unify.Acyclic.{Acyclic, RankedBy, Under, UnderArgs, Under-bound}
use tptp_benchmark_go.Unify.Total.Evaluate.{Acyclic-Solves}
use tptp_benchmark_go.Unify.Total.{
  Ends, Ends-now, Ends-then, Ends-eq, Ends-suc, free_count, assign-Ends, MguEnds, Smaller, mgu-kept,
  next_args, next_args-Ends, args_less,
}

module _ (ar : ℕ → ℕ) where
  -- Unification ends for this valuation on pairs of terms with ranks below `p` and `q` that
  -- together have fewer than `m` symbols.
  abbrev Inside : (ℕ → ℕ) → Valuation → ℕ → ℕ → ℕ → Type 0
  Inside rank val p q m =
      (x y : Term)
      → Under rank p x
      → Under rank q y
      → term_size x + term_size y < m
      → Known ar val x
      → Known ar val y
      → MguEnds ar val x y

  -- ... and on pairs with ranks below any `p` and `q` whose sum is less than `a`.
  abbrev Lower : (ℕ → ℕ) → Valuation → ℕ → Type 0
  Lower rank val a =
      (p q : ℕ) (x y : Term)
      → p + q < a
      → Under rank p x
      → Under rank q y
      → Known ar val x
      → Known ar val y
      → MguEnds ar val x y

  args_here :
      (rank : ℕ → ℕ) (val : Valuation) (k p q m : ℕ)
      → Acyclic val
      → Closed ar val
      → free_count val ≤ k
      → Smaller ar k
      → Inside rank val p q m
      → (ts us : Terms) → UnderArgs rank p ts
      → UnderArgs rank q us
      → args_size ts + args_size us < m
      → KnownArgs ar val ts
      → KnownArgs ar val us
      → arg_count ts ≡ arg_count us
      → Ends val (λ n. mgu_args (mgu n) val ts us)
  unfolding mgu_args
  args_here rank val k p q m a c h less inside nil us ut uu sz kt ku same =
      Ends-now val true _ a (0, λ n g. refl)
  args_here rank val k p q m a c h less inside (cons t ts) nil ut uu sz kt ku same =
      absurd (omega arith)
  args_here rank val k p q m a c h less inside (cons t ts) (cons u us) ut uu sz kt ku same =
      let e = inside t u ut.0 uu.0 (omega arith) kt.0 ku.0 in
      Ends-then val (λ n. mgu n val t u) (λ n r. next_args ar n ts us r) e
        (next_args-Ends ar ts us e.result e.acyclic (
          go e (
            args_here rank val k p q m a c h less inside ts us ut.1 uu.1 (omega arith) kt.1 ku.1
              (omega arith))))
    where
      go :
          (e : MguEnds ar val t u)
          → Ends val (λ n. mgu_args (mgu n) val ts us)
          → Ends e.result.1 (λ n. mgu_args (mgu n) e.result.1 ts us)
      go e ih = elim (e.progress) [
        | inl eq ↦ subst (λ v. Ends v (λ n. mgu_args (mgu n) v ts us)) (sym eq) ih
        | inr lt ↦
            let (c', size') = mgu-kept ar val t u c kt.0 ku.0 e in
            args_less ar k less e.result.1 ts us (omega arith) e.acyclic c'
              (KnownArgs-size ar val e.result.1 ts size' kt.1)
              (KnownArgs-size ar val e.result.1 us size' ku.1) (omega arith)
      ]

  -- a variable on one side
  var-Ends :
      (rank : ℕ → ℕ) (val : Valuation) (a i q : ℕ) (y : Term)
      → RankedBy rank val
      → Closed ar val
      → i < size val
      → rank i + q < a
      → Under rank q y
      → Known ar val y
      → Lower rank val a
      → Ends val (λ n. elim (get val i) [ none ↦ assign n val i y | some t ↦ mgu n val t y ])
  var-Ends rank val a i q y r c h s uy ky lower = go (get val i) refl
    where
      go :
          (m : Option Term)
          → get val i ≡ m
          → Ends val (λ n. elim m [ none ↦ assign n val i y | some t ↦ mgu n val t y ])
      go none e = assign-Ends val i y (record { rank = rank; falls = r }) h e
      go (some t) e = lower (rank i) q t y s (r i t e) uy (c i t e) ky

  step-Ends :
      (rank : ℕ → ℕ) (val : Valuation) (k a p q m : ℕ)
      → RankedBy rank val
      → Closed ar val
      → free_count val ≤ k
      → p + q ≤ a
      → Smaller ar k
      → Lower rank val a
      → Inside rank val p q m
      → (x y : Term) → Under rank p x
      → Under rank q y
      → term_size x + term_size y ≤ m
      → Known ar val x
      → Known ar val y
      → Ends val (λ n. mgu_step (mgu n) n val x y)
  unfolding mgu_step
  step-Ends rank val k a p q m r c h s less lower inside (var i) y ux uy sz kx ky =
      var-Ends rank val a i q y r c kx (omega arith) uy ky lower
  step-Ends rank val k a p q m r c h s less lower inside (fun f ts) (var j) ux uy sz kx ky =
      var-Ends rank val a j p (fun f ts) r c ky (omega arith) ux kx lower
  step-Ends rank val k a p q m r c h s less lower inside (fun f ts) (fun g us) ux uy sz kx ky =
      elim (Bool-cases (f == g)) [
        | inl e ↦
            let same : f ≡ g = (==_iff f g).0 e in
            Ends-eq val _ (λ n. mgu_args (mgu n) val ts us) (λ n. rw e refl)
              (args_here rank val k p q m (record { rank = rank; falls = r }) c h less inside ts us
                ux uy (omega arith) kx.1 ky.1 (kx.0 ∙ ap ar same ∙ sym ky.0))
        | inr e ↦ Ends-now val false _ (record { rank = rank; falls = r }) (0, λ n g. rw e refl)
      ]

  -- Unification ends, for the three bounds.
  abbrev Bounded : ℕ → ℕ → ℕ → Type 0
  Bounded k a m =
      (rank : ℕ → ℕ) (val : Valuation) (p q : ℕ) (x y : Term)
      → RankedBy rank val
      → Closed ar val
      → free_count val ≡ k
      → p + q ≡ a
      → Under rank p x
      → Under rank q y
      → term_size x + term_size y ≡ m
      → Known ar val x
      → Known ar val y
      → MguEnds ar val x y

  Bounded-step :
      (k a m : ℕ)
      → ((k' : ℕ) → k' < k → (a' m' : ℕ) → Bounded k' a' m')
      → ((a' : ℕ) → a' < a → (m' : ℕ) → Bounded k a' m')
      → ((m' : ℕ) → m' < m → Bounded k a m')
      → Bounded k a m
  unfolding mgu
  Bounded-step k a m ihk iha ihm rank val p q x y r c hk ha ux uy hm kx ky =
      Ends-suc val (λ n. mgu n val x y)
        (step-Ends rank val k a p q m r c (omega arith) (omega arith) less lower inside x y ux uy
          (omega arith) kx ky)
    where
      less : Smaller ar k
      less val' x' y' h ac c' kx' ky' =
          let (p', ux') = Under-bound ac.rank x' in
          let (q', uy') = Under-bound ac.rank y' in
          ihk (free_count val') h (p' + q') (term_size x' + term_size y') ac.rank val' p' q' x' y'
            ac.falls c' refl refl ux' uy' refl kx' ky'

      lower : Lower rank val a
      lower p' q' x' y' h ux' uy' kx' ky' =
          iha (p' + q') h (term_size x' + term_size y') rank val p' q' x' y' r c hk refl ux' uy'
            refl kx' ky'

      inside : Inside rank val p q m
      inside x' y' ux' uy' h kx' ky' =
          ihm (term_size x' + term_size y') h rank val p q x' y' r c hk ha ux' uy' refl kx' ky'

  bounded : (k a m : ℕ) → Bounded k a m
  bounded =
      strong_induction (λ k. (a m : ℕ) → Bounded k a m)
        (λ k ihk.
          strong_induction (λ a. (m : ℕ) → Bounded k a m)
            (λ a iha.
              strong_induction (λ m. Bounded k a m) (λ m ihm. Bounded-step k a m ihk iha ihm)))

  -- Unification ends for a valuation without cycles.
  pub mgu-Ends :
      (val : Valuation) (x y : Term)
      → Acyclic val
      → Closed ar val
      → Known ar val x
      → Known ar val y
      → MguEnds ar val x y
  mgu-Ends val x y a c kx ky =
      let (p, ux) = Under-bound a.rank x in
      let (q, uy) = Under-bound a.rank y in
      bounded (free_count val) (p + q) (term_size x + term_size y) a.rank val p q x y a.falls c refl
        refl ux uy refl kx ky

  -- What unification of two terms computes: `b` says whether they have a common instance under
  -- the solutions of the valuation, and then the new valuation is the most general one.
  pub record Unified (val : Valuation) (P : (ℕ → Term) → Type 0) (b : Bool) (val' : Valuation)
      : Type 0 where
    pub acyclic : Acyclic val'
    pub closed : Closed ar val'
    pub solved : b ≡ true → (s : ℕ → Term) → Solves s val' ↔ (Solves s val × P s)
    pub unifiable : b ≡ true → (s : ℕ → Term) × Solves s val × P s
    pub failed : b ≡ false → (s : ℕ → Term) → Solves s val → ¬ P s

  -- For a well-formed valuation without cycles and two well-formed terms, `mgu` returns, with the
  -- same result for all fuel from some amount on. The new valuation has no cycles and is
  -- well-formed. On success its solutions are exactly the solutions of the old one that make the
  -- two terms equal, and there is one: it is the most general unifier. On failure no solution of
  -- the old valuation makes the two terms equal.
  pub mgu_total :
      (val : Valuation) (x y : Term)
      → Acyclic val
      → Closed ar val
      → Known ar val x
      → Known ar val y
      → (b : Bool) × (val' : Valuation) × Settles (λ n. mgu n val x y) (b, val')
        × Unified val (Equates x y) b val'
  mgu_total val x y a c kx ky =
      let e = mgu-Ends val x y a c kx ky in
      let o =
        mgu-Correct ar e.settles.0 val x y e.result.0 e.result.1 c kx ky
          (e.settles.1 e.settles.0 (omega arith)) in
      (
        e.result.0,
        e.result.1,
        e.settles,
        record {
          acyclic = e.acyclic;
          closed = o.closed;
          solved = o.solved;
          unifiable = λ h.
              let (s, sol) = Acyclic-Solves e.result.1 e.acyclic in
              let (old, same) = (o.solved h s).0 sol in (s, old, same);
          failed = o.failed;
        },
      )
