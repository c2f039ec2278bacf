-- ===== src/Syntax/Term/Laws.antt =====
-- Terms of lazyparam_prover/syntax/term.h: equality decides equality, ranges hold the variables.
use tptp_benchmark_go.Prelude.{
  ℕ, ◌≡◌, inl, inr, refl, sym, ap, ap₂, ◌∙◌, Bool, true, false, Option, some, ◌==◌, arith,
  Bool-cases, ==_iff, ==_refl,
}
use tptp_benchmark_go.Syntax.Range.{VarRange, no_vars, join, Has, Has-join_left, Has-join_right}
use tptp_benchmark_go.Syntax.Term.{
  Term, var, fun, Terms, nil, cons, arg_count, rename, rename_args, var_range, join_args, eq_term,
  eq_args, AllVars, AllVarsArgs, HasArity, HasArityArgs,
}

-- `m` gives a result, and it is `true` exactly when `P` holds.
abbrev pub Decides : Option Bool → Type 0 → Type 0
Decides m P = (b : Bool) × (m ≡ some b) × (b ≡ true → P) × (P → b ≡ true)

module _ (ar : ℕ → ℕ) where
  mutual
    unfolding eq_term eq_args

    eq_decides : (x y : Term) → HasArity ar x → HasArity ar y → Decides (eq_term x y) (x ≡ y)
    eq_decides (var i) (var j) p q =
        (i == j, refl, (λ e. ap var ((==_iff i j).0 e)), λ e. (==_iff i j).1 (cc e))
    eq_decides (var i) (fun g us) p q = (false, refl, (λ e. cc), λ e. cc)
    eq_decides (fun f ts) (var j) p q = (false, refl, (λ e. cc), λ e. cc)
    eq_decides (fun f ts) (fun g us) p q = elim (Bool-cases (f == g)) [
      | inl e ↦
          let same : f ≡ g = (==_iff f g).0 e in
          let (b, r, sound, complete) =
            eq_args_decides ts us (p.0 ∙ ap ar same ∙ sym q.0) p.1 q.1 in
          (b, rw e r, (λ h. ap₂ fun same (sound h)), λ h. complete (cc h))
      | inr e ↦ (
        false,
        rw e,
        (λ h. cc),
        λ h. let same : f ≡ g = cc h in let t : (f == g) ≡ true = (==_iff f g).1 same in cc,
      )
    ]

    eq_args_decides :
        (xs ys : Terms)
        → arg_count xs ≡ arg_count ys
        → HasArityArgs ar xs
        → HasArityArgs ar ys
        → Decides (eq_args xs ys) (xs ≡ ys)
    eq_args_decides nil nil n p q = (true, refl, (λ h. refl), λ h. refl)
    eq_args_decides nil (cons y ys) n p q = absurd (omega arith)
    eq_args_decides (cons x xs) nil n p q = absurd (omega arith)
    eq_args_decides (cons x xs) (cons y ys) n p q =
        let (b, r, sound, complete) = eq_args_decides xs ys (omega arith) p.1 q.1 in
        let (c, r', sound', complete') = eq_decides x y p.0 q.0 in
        elim (Bool-cases b) [
          | inl e ↦ (c, rw (r, e) r', (λ h. ap₂ cons (sound' h) (sound e)), λ h. complete' (cc h))
          | inr e ↦ (false, rw (r, e), (λ h. cc), λ h. let t : b ≡ true = complete (cc h) in cc)
        ]

  -- On terms whose functors have a fixed number of arguments `operator==` returns, and its result
  -- is `true` exactly when the two terms are equal.
  pub eq_term-Decides : (x y : Term) → HasArity ar x → HasArity ar y → Decides (eq_term x y) (x ≡ y)
  eq_term-Decides x y p q = eq_decides x y p q

mutual
  unfolding eq_term

  eq_refl : (x : Term) → eq_term x x ≡ some true
  eq_refl (var i) = ap some (==_refl i)
  eq_refl (fun f ts) = rw (==_refl f) (eq_args_refl ts)

  eq_args_refl : (xs : Terms) → eq_args xs xs ≡ some true
  eq_args_refl nil = refl
  eq_args_refl (cons x xs) = rw (eq_args_refl xs) (eq_refl x)

pub eq_term_refl : (x : Term) → eq_term x x ≡ some true
eq_term_refl x = eq_refl x

mutual
  AllVars-map : (P Q : ℕ → Type 0) → ((i : ℕ) → P i → Q i) → (x : Term) → AllVars P x → AllVars Q x
  AllVars-map P Q f (var i) p = f i p
  AllVars-map P Q f (fun g ts) p = AllVarsArgs-map P Q f ts p

  AllVarsArgs-map :
      (P Q : ℕ → Type 0)
      → ((i : ℕ) → P i → Q i)
      → (xs : Terms) → AllVarsArgs P xs
      → AllVarsArgs Q xs
  AllVarsArgs-map P Q f nil p = tt
  AllVarsArgs-map P Q f (cons x xs) p = (AllVars-map P Q f x p.0, AllVarsArgs-map P Q f xs p.1)

pub AllVars-mono :
    (P Q : ℕ → Type 0) → ((i : ℕ) → P i → Q i) → (x : Term) → AllVars P x → AllVars Q x
AllVars-mono P Q f x p = AllVars-map P Q f x p

pub AllVarsArgs-mono :
    (P Q : ℕ → Type 0) → ((i : ℕ) → P i → Q i) → (xs : Terms) → AllVarsArgs P xs → AllVarsArgs Q xs
AllVarsArgs-mono P Q f xs p = AllVarsArgs-map P Q f xs p

Has-join_args : (r : VarRange) (ts : Terms) (i : ℕ) → Has r i → Has (join_args r ts) i
unfolding join_args
Has-join_args r nil i h = h
Has-join_args r (cons t ts) i h =
    Has-join_args (join r (var_range t)) ts i (Has-join_left r (var_range t) i h)

mutual
  unfolding var_range

  range_holds : (t : Term) → AllVars (Has (var_range t)) t
  range_holds (var i) = omega arith
  range_holds (fun f ts) = range_args_holds no_vars ts

  range_args_holds : (r : VarRange) (ts : Terms) → AllVarsArgs (Has (join_args r ts)) ts
  range_args_holds r nil = tt
  range_args_holds r (cons t ts) = (
    AllVars-map (Has (var_range t)) (Has (join_args (join r (var_range t)) ts))
        (λ i h. Has-join_args (join r (var_range t)) ts i (Has-join_right r (var_range t) i h)) t
        (range_holds t),
    range_args_holds (join r (var_range t)) ts,
  )

pub AllVars-var_range : (t : Term) → AllVars (Has (var_range t)) t
AllVars-var_range t = range_holds t

-- Renaming twice is renaming once.
mutual
  unfolding rename

  rename_twice : (f g : ℕ → ℕ) (t : Term) → rename f (rename g t) ≡ rename (λ i. f (g i)) t
  rename_twice f g (var i) = refl
  rename_twice f g (fun h ts) = ap (fun h) (rename_args_twice f g ts)

  rename_args_twice :
      (f g : ℕ → ℕ) (ts : Terms) → rename_args f (rename_args g ts) ≡ rename_args (λ i. f (g i)) ts
  rename_args_twice f g nil = refl
  rename_args_twice f g (cons t ts) = ap₂ cons (rename_twice f g t) (rename_args_twice f g ts)

pub rename-rename : (f g : ℕ → ℕ) (t : Term) → rename f (rename g t) ≡ rename (λ i. f (g i)) t
rename-rename f g t = rename_twice f g t

mutual
  AllVars-pair :
      (P Q : ℕ → Type 0) (x : Term) → AllVars P x → AllVars Q x → AllVars (λ i. P i × Q i) x
  AllVars-pair P Q (var i) p q = (p, q)
  AllVars-pair P Q (fun f ts) p q = AllVarsArgs-pair P Q ts p q

  AllVarsArgs-pair :
      (P Q : ℕ → Type 0) (xs : Terms)
      → AllVarsArgs P xs
      → AllVarsArgs Q xs
      → AllVarsArgs (λ i. P i × Q i) xs
  AllVarsArgs-pair P Q nil p q = tt
  AllVarsArgs-pair P Q (cons x xs) p q =
      (AllVars-pair P Q x p.0 q.0, AllVarsArgs-pair P Q xs p.1 q.1)

-- Two facts about each variable give a third.
pub AllVars-both :
    (P Q R : ℕ → Type 0)
    → ((i : ℕ) → P i → Q i → R i)
    → (x : Term) → AllVars P x
    → AllVars Q x
    → AllVars R x
AllVars-both P Q R f x p q =
    AllVars-map (λ i. P i × Q i) R (λ i r. f i r.0 r.1) x (AllVars-pair P Q x p q)
