-- ===== src/Unify/Solve.antt =====
-- What unification (lazyparam_prover/mgu.h) computes: the most general solution.

use tptp_benchmark_go.Prelude.{
  ℕ, zero, suc, ◌<◌, ◌≡◌, ◌↔◌, ◌≢◌, inl, inr, refl, sym, ap, ap₂, ◌∙◌, Bool, true, false, Option,
  none, some, >>=-eq-some, ◌==◌, if◌then◌else◌, Bool-cases, ==_iff, arith, subst, some_eq, List, [],
  ◌∷◌, ◌++◌,
}
use tptp_benchmark_go.Memory.Rewind.{get, size}
use tptp_benchmark_go.Memory.Rewind.Laws.{Edit, write, enlarge, run, Legal}
use tptp_benchmark_go.Syntax.Term.{Term, var, fun, Terms, nil, cons, arg_count}
use tptp_benchmark_go.Unify.{
  Valuation, shallow_eval, assign_root, assign, mgu_args, mgu_step, mgu, mgu_down,
}
use tptp_benchmark_go.Unify.Subst.{
  apply, apply_args, Solves, WellFormed, WellFormedArgs, Known, KnownArgs, Closed,
}
use tptp_benchmark_go.Unify.Outcome.{shallow_eval-Shallow, Outcome, unchanged, assign_root-Outcome}

Legal-append :
    (es fs : List (Edit Term)) (val : Valuation)
    → Legal es val
    → Legal fs (run es val)
    → Legal (es ++ fs) val × (run (es ++ fs) val ≡ run fs (run es val))
unfolding Legal run
Legal-append [] fs val p q = (q, refl)
Legal-append (write i e ∷ es) fs val p q = let (l, r) = Legal-append es fs _ p.1 q in ((p.0, l), r)
Legal-append (enlarge n ∷ es) fs val p q = let (l, r) = Legal-append es fs _ p.1 q in ((p.0, l), r)

-- The equation between two terms, and between two lists of arguments.
abbrev pub Equates : Term → Term → (ℕ → Term) → Type 0
Equates x y s = apply s x ≡ apply s y

-- `us` may be longer: only the arguments that `ts` has are compared.
abbrev pub EquatesArgs : Terms → Terms → (ℕ → Term) → Type 0
EquatesArgs nil us s = Unit
EquatesArgs (cons t ts) nil s = ⊥
EquatesArgs (cons t ts) (cons u us) s = Equates t u s × EquatesArgs ts us s

module _ (ar : ℕ → ℕ) where
  -- The same for an equivalent equation.
  mono :
      {val : Valuation} (P Q : (ℕ → Term) → Type 0) {b : Bool} {val' : Valuation}
      → ((s : ℕ → Term) → Solves s val → P s ↔ Q s)
      → Outcome ar val P b val'
      → Outcome ar val Q b val'
  mono P Q f o = record {
    edits = o.edits;
    legal = o.legal;
    ran = o.ran;
    same_size = o.same_size;
    closed = o.closed;
    solved = λ e s. (
      (λ sol. let (old, p) = (o.solved e s).0 sol in (old, (f s old).0 p)),
      λ (old, q). (o.solved e s).1 (old, (f s old).1 q),
    );
    failed = λ e s old q. o.failed e s old ((f s old).1 q);
  }

  -- A failure stays one for a stronger equation.
  weaken :
      {val : Valuation} (P Q : (ℕ → Term) → Type 0) {val' : Valuation}
      → ((s : ℕ → Term) → Q s → P s)
      → Outcome ar val P false val'
      → Outcome ar val Q false val'
  weaken P Q f o = record {
    edits = o.edits;
    legal = o.legal;
    ran = o.ran;
    same_size = o.same_size;
    closed = o.closed;
    solved = λ e. cc;
    failed = λ e s old q. o.failed refl s old (f s q);
  }

  -- One equation after another.
  both :
      {val mid val' : Valuation} (P Q R : (ℕ → Term) → Type 0) {b : Bool}
      → ((s : ℕ → Term) → R s ↔ (P s × Q s))
      → Outcome ar val P true mid
      → Outcome ar mid Q b val'
      → Outcome ar val R b val'
  both {val} {mid} {val'} P Q R {b} f o q =
      let legal' : Legal q.edits (run o.edits val) = subst (Legal q.edits) (sym o.ran) q.legal in
      let (l, r) = Legal-append o.edits q.edits val o.legal legal' in
      record {
        edits = o.edits ++ q.edits;
        legal = l;
        ran = r ∙ ap (run q.edits) o.ran ∙ q.ran;
        same_size = q.same_size ∙ o.same_size;
        closed = q.closed;
        solved = λ e s. (
          (λ sol.
              let (m, y) = (q.solved e s).0 sol in
              let (old, x) = (o.solved refl s).0 m in (old, (f s).1 (x, y))),
          λ (old, z). let (x, y) = (f s).0 z in (q.solved e s).1 ((o.solved refl s).1 (old, x), y),
        );
        failed =
            λ e s old z. let (x, y) = (f s).0 z in q.failed e s ((o.solved refl s).1 (old, x)) y;
      }

  -- A recursive call keeps the promise.
  abbrev pub Correct : (Valuation → Term → Term → Option (Bool × Valuation)) → Type 0
  Correct rec =
      (val : Valuation) (x y : Term) (b : Bool) (val' : Valuation)
      → Closed ar val
      → Known ar val x
      → Known ar val y
      → rec val x y ≡ some (b, val')
      → Outcome ar val (Equates x y) b val'

  pub Known-size :
      (val mid : Valuation) (t : Term) → size mid ≡ size val → Known ar val t → Known ar mid t
  Known-size val mid t e k = subst (λ n. WellFormed ar n t) (sym e) k

  pub KnownArgs-size :
      (val mid : Valuation) (ts : Terms)
      → size mid ≡ size val
      → KnownArgs ar val ts
      → KnownArgs ar mid ts
  KnownArgs-size val mid ts e k = subst (λ n. WellFormedArgs ar n ts) (sym e) k

  assign-Outcome :
      (n : ℕ) (val : Valuation) (v : ℕ) (t : Term) (b : Bool) (val' : Valuation)
      → Closed ar val
      → v < size val
      → get val v ≡ none
      → Known ar val t
      → assign n val v t ≡ some (b, val')
      → Outcome ar val (λ s. s v ≡ apply s t) b val'
  unfolding assign
  assign-Outcome n val v t b val' c h free k e =
      let (u, found, r) = >>=-eq-some (shallow_eval n val t) (λ u. assign_root n val v u) e in
      let sh = shallow_eval-Shallow ar n val t u c k found in
      mono (λ s. s v ≡ apply s u) (λ s. s v ≡ apply s t)
        (λ s sol. ((λ p. p ∙ sym (sh.same s sol)), λ p. p ∙ sh.same s sol))
        (assign_root-Outcome ar n val v u b val' c h free sh.known sh.root r)

  mgu_args-Outcome :
      (rec : Valuation → Term → Term → Option (Bool × Valuation))
      → Correct rec
      → (val : Valuation) (ts us : Terms) (b : Bool) (val' : Valuation) → Closed ar val
      → KnownArgs ar val ts
      → KnownArgs ar val us
      → mgu_args rec val ts us ≡ some (b, val')
      → Outcome ar val (EquatesArgs ts us) b val'
  unfolding mgu_args
  mgu_args-Outcome rec ok val nil us b val' c k l e =
      subst (λ (r : Bool × Valuation). Outcome ar val (EquatesArgs nil us) r.0 r.1) (some_eq e)
        (unchanged ar val _ true c (λ t s sol. tt) (λ t. cc))
  mgu_args-Outcome rec ok val (cons t ts) nil b val' c k l e = cc
  mgu_args-Outcome rec ok val (cons t ts) (cons u us) b val' c k l e =
      let (r, first, rest) =
        >>=-eq-some (rec val t u) (λ r. if r.0 then mgu_args rec (r.1) ts us else some (false, r.1))
          e in
      let o = ok val t u r.0 r.1 c k.0 l.0 first in
      elim (Bool-cases r.0) [
        | inl p ↦
            both (Equates t u) (EquatesArgs ts us) (EquatesArgs (cons t ts) (cons u us))
              (λ s. ((λ x. x), λ x. x)) (subst (λ b. Outcome ar val (Equates t u) b r.1) p o)
              (mgu_args-Outcome rec ok r.1 ts us b val' o.closed
                (KnownArgs-size val r.1 ts o.same_size k.1)
                (KnownArgs-size val r.1 us o.same_size l.1) (rw p at rest))
        | inr p ↦
            let q : some (false, r.1) ≡ some (b, val') = rw p at rest in
            subst
              (λ (r : Bool × Valuation).
                Outcome ar val (EquatesArgs (cons t ts) (cons u us)) r.0 r.1)
              (some_eq q)
              (weaken (Equates t u) (EquatesArgs (cons t ts) (cons u us)) (λ s x. x.0)
                (subst (λ b. Outcome ar val (Equates t u) b r.1) p o))
      ]

  EquatesArgs-iff :
      (ts us : Terms) (s : ℕ → Term)
      → arg_count ts ≡ arg_count us
      → EquatesArgs ts us s ↔ (apply_args s ts ≡ apply_args s us)
  EquatesArgs-iff nil nil s n = ((λ x. refl), λ x. tt)
  EquatesArgs-iff nil (cons u us) s n = absurd (omega arith)
  EquatesArgs-iff (cons t ts) nil s n = absurd (omega arith)
  EquatesArgs-iff (cons t ts) (cons u us) s n =
      let (there, back) = EquatesArgs-iff ts us s (omega arith) in
      ((λ x. ap₂ cons x.0 (there x.1)), λ e. (cc e, back (cc e)))

  mgu_step-funs :
      (rec : Valuation → Term → Term → Option (Bool × Valuation)) (n : ℕ)
      → Correct rec
      → (val : Valuation) (f : ℕ) (ts : Terms) (g : ℕ) (us : Terms) (b : Bool) (val' : Valuation)
      → Closed ar val
      → Known ar val (fun f ts)
      → Known ar val (fun g us)
      → mgu_step rec n val (fun f ts) (fun g us) ≡ some (b, val')
      → Outcome ar val (Equates (fun f ts) (fun g us)) b val'
  unfolding mgu_step
  mgu_step-funs rec n ok val f ts g us b val' c k l e = elim (Bool-cases (f == g)) [
    | inl p ↦
        let same : f ≡ g = (==_iff f g).0 p in
        mono (EquatesArgs ts us) (Equates (fun f ts) (fun g us))
          (λ s sol.
            let (there, back) = EquatesArgs-iff ts us s (k.0 ∙ ap ar same ∙ sym l.0) in
            ((λ x. ap₂ fun same (there x)), λ x. back (cc x)))
          (mgu_args-Outcome rec ok val ts us b val' c k.1 l.1 (rw p at e))
    | inr p ↦
        let q : some (false, val) ≡ some (b, val') = rw p at e in
        subst (λ (r : Bool × Valuation). Outcome ar val (Equates (fun f ts) (fun g us)) r.0 r.1)
          (some_eq q)
          (unchanged ar val (Equates (fun f ts) (fun g us)) false c (λ t. cc)
            (λ t s sol x.
              let same : f ≡ g = cc x in let hit : (f == g) ≡ true = (==_iff f g).1 same in cc))
  ]

  -- A variable `i` against a term: `x` and `y` are these in either order.
  mgu_step-var :
      (rec : Valuation → Term → Term → Option (Bool × Valuation)) (n : ℕ)
      → Correct rec
      → (val : Valuation) (i : ℕ) (y : Term) (b : Bool) (val' : Valuation) → Closed ar val
      → i < size val
      → Known ar val y
      → (elim (get val i) [ none ↦ assign n val i y | some t ↦ rec val t y ]) ≡ some (b, val')
      → Outcome ar val (Equates (var i) y) b val'
  mgu_step-var rec n ok val i y b val' c k l e = go (get val i) refl e
    where
      go :
          (m : Option Term)
          → get val i ≡ m
          → (elim m [ none ↦ assign n val i y | some t ↦ rec val t y ]) ≡ some (b, val')
          → Outcome ar val (Equates (var i) y) b val'
      go none g e = assign-Outcome n val i y b val' c k g l e
      go (some t) g e =
          mono (Equates t y) (Equates (var i) y)
            (λ s sol. ((λ x. sol i t g ∙ x), λ x. sym (sol i t g) ∙ x))
            (ok val t y b val' c (c i t g) l e)

  mgu_step-Correct :
      (rec : Valuation → Term → Term → Option (Bool × Valuation)) (n : ℕ)
      → Correct rec
      → Correct (mgu_step rec n)
  unfolding mgu_step
  mgu_step-Correct rec n ok val (var i) y b val' c k l e =
      mgu_step-var rec n ok val i y b val' c k l e
  mgu_step-Correct rec n ok val (fun f ts) (fun g us) b val' c k l e =
      mgu_step-funs rec n ok val f ts g us b val' c k l e
  mgu_step-Correct rec n ok val (fun f ts) (var j) b val' c k l e =
      mono (Equates (var j) (fun f ts)) (Equates (fun f ts) (var j))
        (λ s sol. ((λ x. sym x), λ x. sym x))
        (mgu_step-var rec n ok val j (fun f ts) b val' c l k e)

  pub mgu-Correct : (n : ℕ) → Correct (mgu n)
  unfolding mgu
  mgu-Correct zero val x y b val' c k l e = cc
  mgu-Correct (suc n) val x y b val' c k l e =
      mgu_step-Correct (mgu n) n (mgu-Correct n) val x y b val' c k l e

  -- Where the valuation and the two terms are well-formed and `mgu` succeeds, the solutions of the
  -- new valuation are exactly the solutions of the old one that make the two terms equal: the new
  -- valuation is the most general unifier.
  pub mgu_most_general :
      (n : ℕ) (val : Valuation) (x y : Term) (val' : Valuation)
      → Closed ar val
      → Known ar val x
      → Known ar val y
      → mgu n val x y ≡ some (true, val')
      → (s : ℕ → Term) → Solves s val' ↔ (Solves s val × (apply s x ≡ apply s y))
  mgu_most_general n val x y val' c k l e s =
      (mgu-Correct n val x y true val' c k l e).solved refl s

  -- Where the valuation and the two terms are well-formed and `mgu` fails, no solution of the
  -- valuation makes the two terms equal.
  pub mgu_failed :
      (n : ℕ) (val : Valuation) (x y : Term) (val' : Valuation)
      → Closed ar val
      → Known ar val x
      → Known ar val y
      → mgu n val x y ≡ some (false, val')
      → (s : ℕ → Term) → Solves s val
      → apply s x ≢ apply s y
  mgu_failed n val x y val' c k l e s sol =
      (mgu-Correct n val x y false val' c k l e).failed refl s sol

  pub mgu_down-Outcome :
      (n : ℕ) (val : Valuation) (ts us : Terms) (b : Bool) (val' : Valuation)
      → Closed ar val
      → KnownArgs ar val ts
      → KnownArgs ar val us
      → mgu_down n val ts us ≡ some (b, val')
      → Outcome ar val (EquatesArgs ts us) b val'
  unfolding mgu_down
  mgu_down-Outcome n val nil us b val' c k l e =
      subst (λ (r : Bool × Valuation). Outcome ar val (EquatesArgs nil us) r.0 r.1) (some_eq e)
        (unchanged ar val _ true c (λ t s sol. tt) (λ t. cc))
  mgu_down-Outcome n val (cons t ts) nil b val' c k l e = cc
  mgu_down-Outcome n val (cons t ts) (cons u us) b val' c k l e =
      let (r, first, rest) =
        >>=-eq-some (mgu_down n val ts us) (λ r. if r.0 then mgu n (r.1) t u else some (false, r.1))
          e in
      let o = mgu_down-Outcome n val ts us r.0 r.1 c k.1 l.1 first in
      elim (Bool-cases r.0) [
        | inl p ↦
            both (EquatesArgs ts us) (Equates t u) (EquatesArgs (cons t ts) (cons u us))
              (λ s. ((λ x. (x.1, x.0)), λ x. (x.1, x.0)))
              (subst (λ b. Outcome ar val (EquatesArgs ts us) b r.1) p o)
              (mgu-Correct n r.1 t u b val' o.closed (Known-size val r.1 t o.same_size k.0)
                (Known-size val r.1 u o.same_size l.0) (rw p at rest))
        | inr p ↦
            let q : some (false, r.1) ≡ some (b, val') = rw p at rest in
            subst
              (λ (r : Bool × Valuation).
                Outcome ar val (EquatesArgs (cons t ts) (cons u us)) r.0 r.1)
              (some_eq q)
              (weaken (EquatesArgs ts us) (EquatesArgs (cons t ts) (cons u us)) (λ s x. x.1)
                (subst (λ b. Outcome ar val (EquatesArgs ts us) b r.1) p o))
      ]
