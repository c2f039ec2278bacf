-- ===== src/Unify/Total/Pairs.antt =====
-- Functions on two terms that look at their roots under a valuation and go on to the arguments
-- (`equal` of lazyparam_prover/mgu.h, `less` of lazyparam_prover/lpo.h) end.
use tptp_benchmark_go.Prelude.{
  ℕ, suc, ◌+◌, ◌<◌, ◌≤◌, ◌≡◌, ◌⊎◌, inl, inr, refl, sym, ap, ◌∙◌, Bool, true, false, Option, none,
  some, ◌>>=◌, ◌==◌, ==_iff, if◌then◌else◌, Bool-cases, arith, strong_induction,
}
use tptp_benchmark_go.Memory.Rewind.{get}
use tptp_benchmark_go.Syntax.Term.{Term, Terms, var, fun, nil, cons, arg_count}
use tptp_benchmark_go.Unify.{Valuation, shallow_eval, equal_args, equal_roots, equal}
use tptp_benchmark_go.Unify.Subst.{Known, KnownArgs, Closed, term_size, args_size}
use tptp_benchmark_go.Unify.Outcome.{shallow_eval-Shallow}
use tptp_benchmark_go.Unify.Settle.{Settles, Settles-suc, Settles->>=}
use tptp_benchmark_go.Unify.Acyclic.{
  Acyclic, Under, UnderArgs, Under-bound, Under-mono, shallow_eval-RootOf,
}

-- With enough fuel there is one answer.
abbrev pub Answers : (ℕ → Option Bool) → Type 0
Answers f = (b : Bool) × Settles f b

pub Answers-suc : (f : ℕ → Option Bool) → Answers (λ n. f (suc n)) → Answers f
Answers-suc f (b, s) = (b, Settles-suc f s)

pub Answers->>= {ℓ} :
    {A : Type ℓ} (f : ℕ → Option A) (g : ℕ → A → Option Bool) (a : A)
    → Settles f a
    → Answers (λ n. g n a)
    → Answers (λ n. f n >>= g n)
Answers->>= f g a s (b, t) = (b, Settles->>= f g s t)

-- a test after an answer
pub Answers-if :
    (f g h : ℕ → Option Bool)
    → Answers f
    → Answers g
    → Answers h
    → Answers (λ n. f n >>= λ b. if b then g n else h n)
Answers-if f g h (true, s) (c, t) a = (c, Settles->>= f (λ n b. if b then g n else h n) s t)
Answers-if f g h (false, s) a (c, t) = (c, Settles->>= f (λ n b. if b then g n else h n) s t)

pub Answers-now : (b : Bool) (f : ℕ → Option Bool) → ((n : ℕ) → f n ≡ some b) → Answers f
Answers-now b f h = (b, (0, λ n g. h n))

pub Answers-eq : (f g : ℕ → Option Bool) → ((n : ℕ) → f n ≡ g n) → Answers g → Answers f
Answers-eq f g h (b, (k, s)) = (b, (k, λ n l. h n ∙ s n l))

module _ (ar : ℕ → ℕ) (val : Valuation) (c : Closed ar val) (a : Acyclic val) where
  -- The function answers on pairs with ranks below `p` and `q` and fewer than `m` symbols.
  abbrev pub AnswersInside : (ℕ → Term → Term → Option Bool) → ℕ → ℕ → ℕ → Type 0
  AnswersInside f p q m =
      (x y : Term)
      → Under a.rank p x
      → Under a.rank q y
      → term_size x + term_size y < m
      → Known ar val x
      → Known ar val y
      → Answers (λ n. f n x y)

  -- A root, and whether a binding was followed to it.
  record Rooted (k : ℕ) (t u : Term) : Type 0 where
    settles : Settles (λ n. shallow_eval n val t) u
    below : Under a.rank k u
    moved : (u ≡ t) ⊎ ((j : ℕ) × (j < k) × Under a.rank j u)

  rooted_var :
      (k i : ℕ)
      → a.rank i < k
      → (m : Option Term) → get val i ≡ m
      → (u : Term) × Settles (λ n. elim m [ none ↦ some (var i) | some t ↦ shallow_eval n val t ]) u
        × Under a.rank k u
        × ((u ≡ var i) ⊎ ((j : ℕ) × (j < k) × Under a.rank j u))
  rooted_var k i h none e = (var i, (0, λ n g. refl), h, inl refl)
  rooted_var k i h (some t) e =
      let (u, (s, below, root)) =
        shallow_eval-RootOf a.rank val a.falls (a.rank i) t (a.falls i t e) in
      (
        u,
        Settles-suc (λ n. shallow_eval n val t) (a.rank i, s),
        Under-mono a.rank (a.rank i) k u (omega arith) below,
        inr (a.rank i, h, below),
      )

  rooted : (k : ℕ) (t : Term) → Under a.rank k t → (u : Term) × Rooted k t u
  unfolding shallow_eval
  rooted k (fun f ts) h = (
    fun f ts,
    record {
      settles = Settles-suc (λ n. shallow_eval n val (fun f ts)) (0, λ n g. refl);
      below = h;
      moved = inl refl;
    },
  )
  rooted k (var i) h =
      let (u, s, below, moved) = rooted_var k i h (get val i) refl in
      (
        u,
        record {
          settles = Settles-suc (λ n. shallow_eval n val (var i)) s;
          below = below;
          moved = moved;
        },
      )

  module _ (f step : ℕ → Term → Term → Option Bool)
      (unfolds : (n : ℕ) (x y : Term)
        → f (suc n) x y
          ≡ (shallow_eval n val x >>= λ x'. shallow_eval n val y >>= λ y'. step n x' y'))
      (answers : (p q m : ℕ)
        → AnswersInside f p q m
        → (x y : Term) → Under a.rank p x
        → Under a.rank q y
        → term_size x + term_size y ≤ m
        → Known ar val x
        → Known ar val y
        → Answers (λ n. step n x y)) where
    abbrev BoundedPair : ℕ → ℕ → Type 0
    BoundedPair b m =
        (p q : ℕ) (x y : Term)
        → p + q ≡ b
        → Under a.rank p x
        → Under a.rank q y
        → term_size x + term_size y ≡ m
        → Known ar val x
        → Known ar val y
        → Answers (λ n. f n x y)

    -- the roots, of which one was reached along a binding
    moved_pair :
        (b p q : ℕ) (x y : Term)
        → p + q < b
        → Under a.rank p x
        → Under a.rank q y
        → Known ar val x
        → Known ar val y
        → ((b' : ℕ) → b' < b → (m : ℕ) → BoundedPair b' m)
        → Answers (λ n. step n x y)
    moved_pair b p q x y h ux uy kx ky ih =
        answers p q (term_size x + term_size y)
          (λ x' y' ux' uy' s kx' ky'.
            ih (p + q) h (term_size x' + term_size y') p q x' y' refl ux' uy' refl kx' ky')
          x y ux uy (omega arith) kx ky

    root_pair :
        (b m p q : ℕ) (x y x' y' : Term)
        → p + q ≡ b
        → term_size x + term_size y ≡ m
        → ((b' : ℕ) → b' < b → (m' : ℕ) → BoundedPair b' m')
        → ((m' : ℕ) → m' < m → BoundedPair b m')
        → Under a.rank p x'
        → Under a.rank q y'
        → Known ar val x'
        → Known ar val y'
        → (x' ≡ x) ⊎ ((j : ℕ) × (j < p) × Under a.rank j x')
        → (y' ≡ y) ⊎ ((j : ℕ) × (j < q) × Under a.rank j y')
        → Answers (λ n. step n x' y')
    root_pair b m p q x y x' y' hb hm ihb ihm ux uy kx ky (inl e) (inl g) =
        answers p q m
          (λ t u ut uu s kt ku. ihm (term_size t + term_size u) s p q t u hb ut uu refl kt ku) x' y'
          ux uy (omega (arith, ap term_size e, ap term_size g)) kx ky
    root_pair b m p q x y x' y' hb hm ihb ihm ux uy kx ky (inr (j, lt, below)) g =
        moved_pair b j q x' y' (omega arith) below uy kx ky ihb
    root_pair b m p q x y x' y' hb hm ihb ihm ux uy kx ky (inl e) (inr (j, lt, below)) =
        moved_pair b p j x' y' (omega arith) ux below kx ky ihb

    pair_step :
        (b m : ℕ)
        → ((b' : ℕ) → b' < b → (m' : ℕ) → BoundedPair b' m')
        → ((m' : ℕ) → m' < m → BoundedPair b m')
        → BoundedPair b m
    pair_step b m ihb ihm p q x y hb ux uy hm kx ky =
        let (x', rx) = rooted p x ux in
        let (y', ry) = rooted q y uy in
        let sx =
          shallow_eval-Shallow ar rx.settles.0 val x x' c kx
            (rx.settles.1 rx.settles.0 (omega arith)) in
        let sy =
          shallow_eval-Shallow ar ry.settles.0 val y y' c ky
            (ry.settles.1 ry.settles.0 (omega arith)) in
        Answers-suc (λ n. f n x y)
          (Answers-eq _
            (λ n. shallow_eval n val x >>= λ x'. shallow_eval n val y >>= λ y'. step n x' y')
            (λ n. unfolds n x y)
            (Answers->>= (λ n. shallow_eval n val x)
              (λ n x'. shallow_eval n val y >>= λ y'. step n x' y') x' rx.settles
              (Answers->>= (λ n. shallow_eval n val y) (λ n y'. step n x' y') y' ry.settles
                (root_pair b m p q x y x' y' hb hm ihb ihm rx.below ry.below sx.known sy.known
                  rx.moved ry.moved))))

    pub pair-Answers : (x y : Term) → Known ar val x → Known ar val y → Answers (λ n. f n x y)
    pair-Answers x y kx ky =
        let (p, ux) = Under-bound a.rank x in
        let (q, uy) = Under-bound a.rank y in
        strong_induction (λ b. (m : ℕ) → BoundedPair b m)
          (λ b ihb. strong_induction (λ m. BoundedPair b m) (λ m ihm. pair_step b m ihb ihm))
          (p + q) (term_size x + term_size y) p q x y refl ux uy refl kx ky

  equal_args-Answers :
      (p q m : ℕ)
      → AnswersInside (λ n. equal n val) p q m
      → (ts us : Terms) → UnderArgs a.rank p ts
      → UnderArgs a.rank q us
      → args_size ts + args_size us < m
      → KnownArgs ar val ts
      → KnownArgs ar val us
      → arg_count ts ≡ arg_count us
      → Answers (λ n. equal_args (equal n val) ts us)
  unfolding equal_args
  equal_args-Answers p q m inside nil us ut uu s kt ku e = Answers-now true _ (λ n. refl)
  equal_args-Answers p q m inside (cons t ts) nil ut uu s kt ku e = absurd (omega arith)
  equal_args-Answers p q m inside (cons t ts) (cons u us) ut uu s kt ku e =
      Answers-if (λ n. equal_args (equal n val) ts us) (λ n. equal n val t u) (λ n. some false)
        (equal_args-Answers p q m inside ts us ut.1 uu.1 (omega arith) kt.1 ku.1 (omega arith))
        (inside t u ut.0 uu.0 (omega arith) kt.0 ku.0) (Answers-now false _ (λ n. refl))

  equal_roots-Answers :
      (p q m : ℕ)
      → AnswersInside (λ n. equal n val) p q m
      → (x y : Term) → Under a.rank p x
      → Under a.rank q y
      → term_size x + term_size y ≤ m
      → Known ar val x
      → Known ar val y
      → Answers (λ n. equal_roots (equal n val) x y)
  unfolding equal_roots
  equal_roots-Answers p q m inside (var i) (var j) ux uy s kx ky =
      Answers-now (i == j) _ (λ n. refl)
  equal_roots-Answers p q m inside (var i) (fun g us) ux uy s kx ky =
      Answers-now false _ (λ n. refl)
  equal_roots-Answers p q m inside (fun f ts) (var j) ux uy s kx ky =
      Answers-now false _ (λ n. refl)
  equal_roots-Answers p q m inside (fun f ts) (fun g us) ux uy s kx ky =
      elim (Bool-cases (f == g)) [
        | inl e ↦
            let same : f ≡ g = (==_iff f g).0 e in
            Answers-eq _ (λ n. equal_args (equal n val) ts us) (λ n. rw e refl)
              (equal_args-Answers p q m inside ts us ux uy (omega arith) kx.1 ky.1
                (kx.0 ∙ ap ar same ∙ sym ky.0))
        | inr e ↦ Answers-now false _ (λ n. rw e refl)
      ]

  -- The comparison of two terms ends.
  pub equal-Answers :
      (x y : Term) → Known ar val x → Known ar val y → Answers (λ n. equal n val x y)
  unfolding equal
  equal-Answers =
      pair-Answers (λ n. equal n val) (λ n. equal_roots (equal n val)) (λ n x y. refl)
        equal_roots-Answers

  -- The comparison of as many arguments ends.
  pub all_equal-Answers :
      (ts us : Terms)
      → KnownArgs ar val ts
      → KnownArgs ar val us
      → arg_count ts ≡ arg_count us
      → Answers (λ n. equal_args (equal n val) ts us)
  unfolding equal_args
  all_equal-Answers nil us kt ku e = Answers-now true _ (λ n. refl)
  all_equal-Answers (cons t ts) nil kt ku e = absurd (omega arith)
  all_equal-Answers (cons t ts) (cons u us) kt ku e =
      Answers-if (λ n. equal_args (equal n val) ts us) (λ n. equal n val t u) (λ n. some false)
        (all_equal-Answers ts us kt.1 ku.1 (omega arith)) (equal-Answers t u kt.0 ku.0)
        (Answers-now false _ (λ n. refl))
