-- ===== src/Unify/Total.antt =====
-- Unification (lazyparam_prover/mgu.h) of a valuation without cycles ends, and makes no cycle. Each
-- call binds a variable, which happens at most as often as there are free ones, or follows a
-- binding, which lowers the ranks, or descends into the arguments.
pub mod Mgu
pub mod Pairs
pub mod Atoms
pub mod Evaluate
use tptp_benchmark_go.Prelude.{
  ℕ, zero, suc, ◌+◌, ◌<◌, ◌≤◌, ◌≡◌, ◌⊎◌, inl, inr, refl, sym, ap, ◌∙◌, Bool, true, false, Option,
  none, some, ◌>>=◌, ◌==◌, ==_iff, ==_refl, if◌then◌else◌, Bool-cases, arith, subst, List, [], ◌∷◌,
  get_elem?, set, length,
}
use tptp_benchmark_go.Memory.Rewind.{get, size, put}
use tptp_benchmark_go.Syntax.Term.{
  Term, Terms, var, fun, nil, cons, AllVars, AllVarsArgs, arg_count,
}
use tptp_benchmark_go.Unify.{
  Valuation, has_var, shallow_eval, assign_root, assign, mgu_args, mgu_step, mgu,
}
use tptp_benchmark_go.Unify.Subst.{Known, KnownArgs, Closed, term_size, args_size}
use tptp_benchmark_go.Unify.Outcome.{Root, Outcome, shallow_eval-Shallow}
use tptp_benchmark_go.Unify.Solve.{mgu-Correct, Known-size, KnownArgs-size}
use tptp_benchmark_go.Unify.Settle.{SettlesAt, Settles, Settles-suc, Settles->>=}
use tptp_benchmark_go.Unify.Acyclic.{
  Acyclic, RankedBy, Under, UnderArgs, Under-bound, Under-mono, has_var-Settles,
  shallow_eval-RootOf, Acyclic-put, has_var_free,
}

-- the number of free variables
abbrev count_none : List (Option Term) → ℕ
count_none [] = 0
count_none (none ∷ xs) = suc (count_none xs)
count_none (some t ∷ xs) = count_none xs

unfoldable pub free_count : Valuation → ℕ
free_count val = count_none val.cells

count_none-set :
    (xs : List (Option Term)) (v : ℕ) (t : Term)
    → v < length xs
    → (elim (get_elem? xs v) [ none ↦ none | some m ↦ m ]) ≡ none
    → count_none (set xs v (some t)) < count_none xs
count_none-set [] v t h e = absurd (omega arith)
count_none-set (none ∷ xs) zero t h e = omega arith
count_none-set (some u ∷ xs) zero t h e = cc
count_none-set (none ∷ xs) (suc v) t h e = omega (arith, count_none-set xs v t (omega arith) e)
count_none-set (some u ∷ xs) (suc v) t h e = count_none-set xs v t (omega arith) e

free_count-put :
    (v : ℕ) (t : Term) (val : Valuation)
    → v < size val
    → get val v ≡ none
    → free_count (put v t val) < free_count val
unfolding free_count get size put
free_count-put v t val h e = count_none-set val.cells v t h e

-- The run ends; it leaves no cycle, and it left the valuation as it was or bound a variable.
pub record Ends (val : Valuation) (f : ℕ → Option (Bool × Valuation)) : Type 0 where
  pub result : Bool × Valuation
  pub settles : Settles f result
  pub acyclic : Acyclic result.1
  pub progress : (result.1 ≡ val) ⊎ (free_count result.1 < free_count val)

pub Ends-now :
    (val : Valuation) (b : Bool) (f : ℕ → Option (Bool × Valuation))
    → Acyclic val
    → Settles f (b, val)
    → Ends val f
Ends-now val b f a s = record { result = (b, val); settles = s; acyclic = a; progress = inl refl }

Ends-bound :
    (val : Valuation) (v : ℕ) (t : Term) (f : ℕ → Option (Bool × Valuation))
    → v < size val
    → get val v ≡ none
    → Acyclic (put v t val)
    → Settles f (true, put v t val)
    → Ends val f
Ends-bound val v t f h e a s = record {
  result = (true, put v t val);
  settles = s;
  acyclic = a;
  progress = inr (free_count-put v t val h e);
}

pub Ends-suc :
    (val : Valuation) (f : ℕ → Option (Bool × Valuation)) → Ends val (λ n. f (suc n)) → Ends val f
Ends-suc val f e = record {
  result = e.result;
  settles = Settles-suc f e.settles;
  acyclic = e.acyclic;
  progress = e.progress;
}

pub Ends-eq :
    (val : Valuation) (f g : ℕ → Option (Bool × Valuation))
    → ((n : ℕ) → f n ≡ g n)
    → Ends val g
    → Ends val f
Ends-eq val f g h e = record {
  result = e.result;
  settles = (e.settles.0, λ n l. h n ∙ e.settles.1 n l);
  acyclic = e.acyclic;
  progress = e.progress;
}

-- after a step that does not change the valuation
pub Ends-after :
    {A : Type 0} (val : Valuation) (f : ℕ → Option A) (g : ℕ → A → Option (Bool × Valuation))
    (a : A)
    → Settles f a
    → Ends val (λ n. g n a)
    → Ends val (λ n. f n >>= g n)
Ends-after val f g a s e = record {
  result = e.result;
  settles = Settles->>= f g s e.settles;
  acyclic = e.acyclic;
  progress = e.progress;
}

later_progress :
    (val mid last : Valuation)
    → (mid ≡ val) ⊎ (free_count mid < free_count val)
    → (last ≡ mid) ⊎ (free_count last < free_count mid)
    → (last ≡ val) ⊎ (free_count last < free_count val)
later_progress val mid last (inl e) (inl g) = inl (g ∙ e)
later_progress val mid last (inl e) (inr g) = inr (omega (arith, ap free_count e))
later_progress val mid last (inr e) (inl g) = inr (omega (arith, ap free_count g))
later_progress val mid last (inr e) (inr g) = inr (omega arith)

-- one run after another
pub Ends-then :
    (val : Valuation) (f : ℕ → Option (Bool × Valuation))
    (g : ℕ → Bool × Valuation → Option (Bool × Valuation)) (e : Ends val f)
    → Ends e.result.1 (λ n. g n e.result)
    → Ends val (λ n. f n >>= g n)
Ends-then val f g e h = record {
  result = h.result;
  settles = Settles->>= f g e.settles h.settles;
  acyclic = h.acyclic;
  progress = later_progress val e.result.1 h.result.1 e.progress h.progress;
}

-- the `switch` of `assign` on a root
assign_root-Ends :
    (val : Valuation) (v : ℕ) (u : Term)
    → Acyclic val
    → v < size val
    → get val v ≡ none
    → Root val u
    → Ends val (λ n. assign_root (suc n) val v u)
unfolding assign_root
assign_root-Ends val v (var j) a h e r = elim (Bool-cases (j == v)) [
  | inl p ↦ Ends-now val true _ a (0, λ n g. rw p refl)
  | inr p ↦
      Ends-bound val v (var j) _ h e
        (Acyclic-put a.rank val a.falls v (var j) h e
          (0, λ n g. has_var_free n val j v r ∙ ap some p))
        (0, λ n g. rw p refl)
]
assign_root-Ends val v (fun f ts) a h e r =
    let (k, below) = Under-bound a.rank (fun f ts) in
    let (b, s) = has_var-Settles a.rank val a.falls k (fun f ts) v below in
    elim (Bool-cases b) [
      | inl p ↦ Ends-now val false _ a (k, λ n g. rw (s n g, p) refl)
      | inr p ↦
          Ends-bound val v (fun f ts) _ h e
            (Acyclic-put a.rank val a.falls v (fun f ts) h e (k, λ n g. s n g ∙ ap some p))
            (k, λ n g. rw (s n g, p) refl)
    ]

pub assign-Ends :
    (val : Valuation) (v : ℕ) (t : Term)
    → Acyclic val
    → v < size val
    → get val v ≡ none
    → Ends val (λ n. assign n val v t)
unfolding assign
assign-Ends val v t a h e =
    let (k, below) = Under-bound a.rank t in
    let (u, (s, _, root)) = shallow_eval-RootOf a.rank val a.falls k t below in
    Ends-suc val (λ n. assign n val v t)
      (Ends-after val (λ n. shallow_eval (suc n) val t) (λ n u. assign_root (suc n) val v u) u
        (k, s) (assign_root-Ends val v u a h e root))

module _ (ar : ℕ → ℕ) where
  abbrev pub MguEnds : Valuation → Term → Term → Type 0
  MguEnds val x y = Ends val (λ n. mgu n val x y)

  -- Unification ends for all valuations with fewer free variables than `k`.
  abbrev pub Smaller : ℕ → Type 0
  Smaller k =
      (val : Valuation) (x y : Term)
      → free_count val < k
      → Acyclic val
      → Closed ar val
      → Known ar val x
      → Known ar val y
      → MguEnds val x y

  -- what a run of `mgu` keeps of the valuation
  pub mgu-kept :
      (val : Valuation) (x y : Term)
      → Closed ar val
      → Known ar val x
      → Known ar val y
      → (e : MguEnds val x y) → Closed ar e.result.1 × (size e.result.1 ≡ size val)
  mgu-kept val x y c k l e =
      let o =
        mgu-Correct ar e.settles.0 val x y e.result.0 e.result.1 c k l
          (e.settles.1 e.settles.0 (omega arith)) in
      (o.closed, o.same_size)

  -- the rest of the arguments, after the first pair
  abbrev pub next_args : ℕ → Terms → Terms → Bool × Valuation → Option (Bool × Valuation)
  next_args n ts us r = if r.0 then mgu_args (mgu n) r.1 ts us else some (false, r.1)

  pub next_args-Ends :
      (ts us : Terms) (r : Bool × Valuation)
      → Acyclic r.1
      → Ends r.1 (λ n. mgu_args (mgu n) r.1 ts us)
      → Ends r.1 (λ n. next_args n ts us r)
  next_args-Ends ts us (true, val) a e = e
  next_args-Ends ts us (false, val) a e = Ends-now val false _ a (0, λ n g. refl)

  pub args_less :
      (k : ℕ)
      → Smaller k
      → (val : Valuation) (ts us : Terms) → free_count val < k
      → Acyclic val
      → Closed ar val
      → KnownArgs ar val ts
      → KnownArgs ar val us
      → arg_count ts ≡ arg_count us
      → Ends val (λ n. mgu_args (mgu n) val ts us)
  unfolding mgu_args
  args_less k less val nil us h a c kt ku same = Ends-now val true _ a (0, λ n g. refl)
  args_less k less val (cons t ts) nil h a c kt ku same = absurd (omega arith)
  args_less k less val (cons t ts) (cons u us) h a c kt ku same =
      let e = less val t u h a c kt.0 ku.0 in
      let (c', size') = mgu-kept val t u c kt.0 ku.0 e in
      Ends-then val (λ n. mgu n val t u) (λ n r. next_args n ts us r) e
        (next_args-Ends ts us e.result e.acyclic (
          args_less k less e.result.1 ts us (fewer e) e.acyclic c'
            (KnownArgs-size ar val e.result.1 ts size' kt.1)
            (KnownArgs-size ar val e.result.1 us size' ku.1) (omega arith)))
    where
      fewer : (e : MguEnds val t u) → free_count e.result.1 < k
      fewer e = elim (e.progress) [ inl p ↦ omega (arith, ap free_count p) | inr p ↦ omega arith ]
