-- ===== src/Unify/Acyclic.antt =====
-- Valuations without cycles (the comment on `val` in lazyparam_prover/mgu.h): walking along the
-- bindings ends, and the occurs check keeps it so.
use native.Mathlib.Decide.{ℕ_discrete}
use tptp_benchmark_go.Prelude.{
  ℕ, zero, suc, ◌+◌, ◌<◌, ◌≤◌, ◌≡◌, refl, sym, ap, ◌∙◌, Bool, true, false, Option, none, some, ◌==◌,
  ==_refl, >>=-eq-some, some_eq, if◌then◌else◌, Bool-cases, inl, inr, arith, subst,
}
use tptp_benchmark_go.Memory.Rewind.{get, size, put}
use tptp_benchmark_go.Syntax.Term.{Term, Terms, var, fun, nil, cons, AllVars, AllVarsArgs}
use tptp_benchmark_go.Syntax.Term.Laws.{AllVars-mono, AllVars-both}
use tptp_benchmark_go.Unify.{Valuation, any_var, any_var_args, has_var, shallow_eval}
use tptp_benchmark_go.Unify.Subst.{get-put_self, get-put_ne}
use tptp_benchmark_go.Unify.Outcome.{Root}
use tptp_benchmark_go.Unify.Settle.{SettlesAt, Settles}

-- The ranks of all variables of the term are below `n`.
abbrev pub Under : (ℕ → ℕ) → ℕ → Term → Type 0
Under rank n = AllVars (λ i. rank i < n)

abbrev pub UnderArgs : (ℕ → ℕ) → ℕ → Terms → Type 0
UnderArgs rank n = AllVarsArgs (λ i. rank i < n)

-- Ranks that fall along each binding.
abbrev pub RankedBy : (ℕ → ℕ) → Valuation → Type 0
RankedBy rank val = (i : ℕ) (t : Term) → get val i ≡ some t → Under rank (rank i) t

-- No variable leads back to itself.
pub record Acyclic (val : Valuation) : Type 0 where
  pub rank : ℕ → ℕ
  pub falls : RankedBy rank val

pub Under-mono : (rank : ℕ → ℕ) (m n : ℕ) (t : Term) → m ≤ n → Under rank m t → Under rank n t
Under-mono rank m n t h = AllVars-mono (λ i. rank i < m) (λ i. rank i < n) (λ i p. omega arith) t

AllVars-below : (rank : ℕ → ℕ) (m n : ℕ) → m ≤ n → (i : ℕ) → rank i < m → rank i < n
AllVars-below rank m n h i p = omega arith

mutual
  bound : (rank : ℕ → ℕ) (t : Term) → (n : ℕ) × Under rank n t
  bound rank (var i) = (suc (rank i), omega arith)
  bound rank (fun f ts) = bound_args rank ts

  bound_args : (rank : ℕ → ℕ) (ts : Terms) → (n : ℕ) × UnderArgs rank n ts
  bound_args rank nil = (0, tt)
  bound_args rank (cons t ts) =
      let (m, p) = bound rank t in
      let (n, q) = bound_args rank ts in
      (
        m + n,
        (Under-mono rank m (m + n) t (omega arith) p, under_args rank n (m + n) ts (omega arith) q),
      )

  under_args :
      (rank : ℕ → ℕ) (m n : ℕ) (ts : Terms) → m ≤ n → UnderArgs rank m ts → UnderArgs rank n ts
  under_args rank m n nil h p = tt
  under_args rank m n (cons t ts) h p = (Under-mono rank m n t h p.0, under_args rank m n ts h p.1)

pub Under-bound : (rank : ℕ → ℕ) (t : Term) → (n : ℕ) × Under rank n t
Under-bound rank t = bound rank t

-- A walk over a term settles where it does at each variable.
abbrev Decided : ℕ → (ℕ → ℕ → Option Bool) → ℕ → Type 0
Decided k p i = (b : Bool) × SettlesAt k (λ n. p n i) b

mutual
  unfolding any_var any_var_args

  any_var-Settles :
      (k : ℕ) (p : ℕ → ℕ → Option Bool) (t : Term)
      → AllVars (Decided k p) t
      → (b : Bool) × SettlesAt k (λ n. any_var (p n) t) b
  any_var-Settles k p (var i) h = h
  any_var-Settles k p (fun f ts) h = any_var_args-Settles k p ts h

  any_var_args-Settles :
      (k : ℕ) (p : ℕ → ℕ → Option Bool) (ts : Terms)
      → AllVarsArgs (Decided k p) ts
      → (b : Bool) × SettlesAt k (λ n. any_var_args (p n) ts) b
  any_var_args-Settles k p nil h = (false, λ n g. refl)
  any_var_args-Settles k p (cons t ts) h =
      let (b, first) = any_var_args-Settles k p ts h.1 in
      let (c, second) = any_var-Settles k p t h.0 in
      elim (Bool-cases b) [
        | inl e ↦ (true, λ n g. rw (first n g, e) refl)
        | inr e ↦ (c, λ n g. rw (first n g, e) (second n g))
      ]

  -- Where the walk finds nothing, no variable answers `true`.
  any_var_none :
      (p : ℕ → Option Bool) (t : Term)
      → any_var p t ≡ some false
      → AllVars (λ i. p i ≡ some false) t
  any_var_none p (var i) h = h
  any_var_none p (fun f ts) h = any_var_args_none p ts h

  any_var_args_none :
      (p : ℕ → Option Bool) (ts : Terms)
      → any_var_args p ts ≡ some false
      → AllVarsArgs (λ i. p i ≡ some false) ts
  any_var_args_none p nil h = tt
  any_var_args_none p (cons t ts) h =
      let (b, first, second) =
        >>=-eq-some (any_var_args p ts) (λ b. if b then some true else any_var p t) h in
      elim (Bool-cases b) [
        | inl e ↦ let q : some true ≡ some false = rw e at second in cc
        | inr e ↦ (any_var_none p t (rw e at second), any_var_args_none p ts (first ∙ ap some e))
      ]

-- one variable of `has_var`
abbrev visit : ℕ → Valuation → ℕ → ℕ → Option Bool
visit v val n i = elim (get val i) [ none ↦ some (i == v) | some u ↦ has_var n val u v ]

has_var-var : (n : ℕ) (val : Valuation) (i v : ℕ) → has_var (suc n) val (var i) v ≡ visit v val n i
unfolding has_var any_var
has_var-var n val i v = refl

visit_bound :
    (v : ℕ) (val : Valuation) (n i : ℕ) (t : Term)
    → get val i ≡ some t
    → visit v val n i ≡ has_var n val t v
visit_bound v val n i t e = rw (visit, e) refl

-- the occurs check at a free variable
pub has_var_free :
    (n : ℕ) (val : Valuation) (i v : ℕ)
    → get val i ≡ none
    → has_var (suc n) val (var i) v ≡ some (i == v)
has_var_free n val i v e = has_var-var n val i v ∙ rw (visit, e) refl

module _ (rank : ℕ → ℕ) (val : Valuation) (falls : RankedBy rank val) where
  -- At a variable the occurs check ends where it does on terms of smaller rank.
  visit-Settles :
      (k v i : ℕ)
      → rank i < suc k
      → ((u : Term) → Under rank k u → (b : Bool) × SettlesAt k (λ n. has_var (suc n) val u v) b)
      → Decided (suc k) (visit v val) i
  visit-Settles k v i p rec = go (get val i) refl
    where
      later :
          (u : Term) (b : Bool)
          → SettlesAt k (λ n. has_var (suc n) val u v) b
          → SettlesAt (suc k) (λ n. has_var n val u v) b
      later u b s zero g = absurd (omega arith)
      later u b s (suc n) g = s n (omega arith)

      go :
          (m : Option Term)
          → get val i ≡ m
          → (b : Bool) × SettlesAt
              (suc k)
              (λ n. elim m [ none ↦ some (i == v) | some u ↦ has_var n val u v ])
              b
      go none e = ((i == v), λ n g. refl)
      go (some u) e =
          let (b, s) = rec u (Under-mono rank (rank i) k u (omega arith) (falls i u e)) in
          (b, later u b s)

  -- The occurs check ends.
  pub has_var-Settles :
      (k : ℕ) (t : Term) (v : ℕ)
      → Under rank k t
      → (b : Bool) × SettlesAt k (λ n. has_var (suc n) val t v) b
  unfolding has_var
  has_var-Settles zero t v h = any_var-Settles zero (visit v val) t (
      AllVars-mono (λ i. rank i < 0) (Decided zero (visit v val)) (λ i p. absurd (omega arith)) t h)
  has_var-Settles (suc k) t v h = any_var-Settles (suc k) (visit v val) t (
      AllVars-mono (λ i. rank i < suc k) (Decided (suc k) (visit v val))
        (λ i p. visit-Settles k v i p (λ u q. has_var-Settles k u v q)) t h)

  -- Where the walk to the root of a term ends.
  abbrev pub RootFrom : ℕ → (ℕ → Option Term) → Term → Type 0
  RootFrom k f u = SettlesAt k f u × Under rank k u × Root val u

  abbrev pub RootOf : ℕ → Term → Term → Type 0
  RootOf k t = RootFrom k (λ n. shallow_eval (suc n) val t)

  RootOf-var :
      (k i : ℕ)
      → rank i < suc k
      → ((t : Term) → Under rank k t → (u : Term) × RootOf k t u)
      → (u : Term) × RootOf (suc k) (var i) u
  unfolding shallow_eval
  RootOf-var k i p rec = go (get val i) refl
    where
      later :
          (t u : Term)
          → SettlesAt k (λ n. shallow_eval (suc n) val t) u
          → SettlesAt (suc k) (λ n. shallow_eval n val t) u
      later t u s zero g = absurd (omega arith)
      later t u s (suc n) g = s n (omega arith)

      go :
          (m : Option Term)
          → get val i ≡ m
          → (u : Term) × RootFrom
              (suc k)
              (λ n. elim m [ none ↦ some (var i) | some t ↦ shallow_eval n val t ])
              u
      go none e = (var i, ((λ n g. refl), p, e))
      go (some t) e =
          let (u, (s, below, root)) =
            rec t (Under-mono rank (rank i) k t (omega arith) (falls i t e)) in
          (u, (later t u s, Under-mono rank k (suc k) u (omega arith) below, root))

  -- The walk to the root ends.
  pub shallow_eval-RootOf : (k : ℕ) (t : Term) → Under rank k t → (u : Term) × RootOf k t u
  unfolding shallow_eval
  shallow_eval-RootOf k (fun f ts) h = (fun f ts, ((λ n g. refl), h, tt))
  shallow_eval-RootOf zero (var i) h = absurd (omega arith)
  shallow_eval-RootOf (suc k) (var i) h = RootOf-var k i h (λ t q. shallow_eval-RootOf k t q)

  -- Whether the bindings lead from the variable to `v`.
  reach : (v i : ℕ) → (b : Bool) × SettlesAt (suc (rank i)) (λ n. has_var (suc n) val (var i) v) b
  reach v i = has_var-Settles (suc (rank i)) (var i) v (omega arith)

  -- What the occurs check found absent in a term, no variable of the term leads to.
  none_reach :
      (v : ℕ) (t : Term)
      → Settles (λ n. has_var (suc n) val t v) false
      → AllVars (λ i. (reach v i).0 ≡ false) t
  unfolding has_var
  none_reach v t (k, h) =
      let (m, below) = Under-bound rank t in
      AllVars-both (λ i. visit v val (k + m) i ≡ some false) (λ i. rank i < m)
        (λ i. (reach v i).0 ≡ false)
        (λ i p q.
          some_eq (sym ((reach v i).1 (k + m) (omega arith)) ∙ has_var-var (k + m) val i v ∙ p))
        t (any_var_none (visit v val (k + m)) t (h (k + m) (omega arith))) below

  -- A binding `i` to `t` leads to `v` if `t` does.
  reach_along :
      (v i : ℕ) (t : Term)
      → get val i ≡ some t
      → (reach v i).0 ≡ false
      → AllVars (λ j. (reach v j).0 ≡ false) t
  unfolding has_var
  reach_along v i t e h = none_reach v t (
    suc (rank i),
    λ n g.
        sym (visit_bound v val (suc n) i t e)
        ∙ sym (has_var-var (suc n) val i v)
        ∙ (reach v i).1 (suc n) (omega arith)
        ∙ ap some h,
  )

  reach_self : (v : ℕ) → get val v ≡ none → (reach v v).0 ≡ true
  reach_self v e =
      let here : visit v val (suc (rank v)) v ≡ some true = rw (visit, e, ==_refl v) refl in
      some_eq (
        sym ((reach v v).1 (suc (rank v)) (omega arith))
        ∙ has_var-var (suc (rank v)) val v v
        ∙ here)

  -- The ranks after `v` was bound to a term whose variables have ranks below `m`.
  new_rank : ℕ → ℕ → ℕ → ℕ
  new_rank v m i = if (reach v i).0 then rank i + m else rank i

  new_rank-reach : (v m i : ℕ) → (reach v i).0 ≡ true → new_rank v m i ≡ rank i + m
  unfolding new_rank
  new_rank-reach v m i h = rw h refl

  new_rank_away : (v m i : ℕ) → (reach v i).0 ≡ false → new_rank v m i ≡ rank i
  unfolding new_rank
  new_rank_away v m i h = rw h refl

  new_rank_most : (v m i : ℕ) → new_rank v m i ≤ rank i + m
  unfolding new_rank
  new_rank_most v m i = ground arith

  -- An old binding still falls.
  old_falls : (v m i : ℕ) (t : Term) → get val i ≡ some t → Under (new_rank v m) (new_rank v m i) t
  old_falls v m i t e = elim (Bool-cases (reach v i).0) [
    | inl h ↦
        AllVars-mono (λ j. rank j < rank i) (λ j. new_rank v m j < new_rank v m i)
          (λ j p. omega (arith, new_rank_most v m j, new_rank-reach v m i h)) t (falls i t e)
    | inr h ↦
        AllVars-both (λ j. rank j < rank i) (λ j. (reach v j).0 ≡ false)
          (λ j. new_rank v m j < new_rank v m i)
          (λ j p q. omega (arith, new_rank_away v m j q, new_rank_away v m i h)) t (falls i t e)
          (reach_along v i t e h)
  ]

  -- A binding that passed the occurs check makes no cycle.
  pub Acyclic-put :
      (v : ℕ) (u : Term)
      → v < size val
      → get val v ≡ none
      → Settles (λ n. has_var (suc n) val u v) false
      → Acyclic (put v u val)
  Acyclic-put v u h free s = record { rank = new_rank v m; falls = falls' }
    where
      m : ℕ
      m = (Under-bound rank u).0

      new_falls : Under (new_rank v m) (new_rank v m v) u
      new_falls =
          AllVars-both (λ j. rank j < m) (λ j. (reach v j).0 ≡ false)
            (λ j. new_rank v m j < new_rank v m v)
            (λ j p q.
              omega (arith, new_rank_away v m j q, new_rank-reach v m v (reach_self v free)))
            u (Under-bound rank u).1 (none_reach v u s)

      falls' : RankedBy (new_rank v m) (put v u val)
      falls' i t e = elim (ℕ_discrete v i) [
        | yes p ↦
            let same : u ≡ t =
              some_eq (sym (get-put_self v u val h) ∙ ap (get (put v u val)) p ∙ e) in
            subst (λ j. Under (new_rank v m) (new_rank v m j) t) p
              (subst (Under (new_rank v m) (new_rank v m v)) same new_falls)
        | no p ↦ old_falls v m i t (sym (get-put_ne v i u val p) ∙ e)
      ]
