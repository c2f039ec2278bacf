-- ===== src/Split/Laws.antt =====
-- Paths (lazyparam_prover/lazy_paramodulation/split.h) lead to subterms, and replace them.
use tptp_benchmark_go.Prelude.{
  ℕ, zero, suc, ◌+◌, ◌≡◌, refl, sym, ap, ◌∙◌, some, >>=-eq-some, some_eq, List, [], ◌∷◌, map,
  reverse, All, All-append, arith,
}
use tptp_benchmark_go.Syntax.Term.{Term, Terms, var, fun, nil, cons, arg, set_arg}
use tptp_benchmark_go.Split.{get_at, replace_at, paths, paths_args}

arg-set_arg :
    (ts : Terms) (k : ℕ) (u v : Term) → arg ts k ≡ some u → arg (set_arg ts k v) k ≡ some v
arg-set_arg nil k u v h = absurd (cc h)
arg-set_arg (cons t ts) zero u v h = refl
arg-set_arg (cons t ts) (suc k) u v h = arg-set_arg ts k u v h

set_arg_same : (ts : Terms) (k : ℕ) (u : Term) → arg ts k ≡ some u → set_arg ts k u ≡ ts
set_arg_same nil k u h = refl
set_arg_same (cons t ts) zero u h = ap (λ x. cons x ts) (sym (some_eq h))
set_arg_same (cons t ts) (suc k) u h = ap (cons t) (set_arg_same ts k u h)

-- Where a path leads to a subterm, any term can be put in its place, and is then found there.
pub get_at-replace_at :
    (t : Term) (p : List ℕ) (a b : Term)
    → get_at t p ≡ some b
    → (u : Term) × (replace_at t p a ≡ some u) × (get_at u p ≡ some a)
unfolding get_at replace_at
get_at-replace_at t [] a b h = (a, refl, refl)
get_at-replace_at (var i) (k ∷ p) a b h = absurd (cc h)
get_at-replace_at (fun f ts) (k ∷ p) a b h =
    let (s, e, q) = >>=-eq-some (arg ts k) (λ u. get_at u p) h in
    let (u, r, g) = get_at-replace_at s p a b q in
    (fun f (set_arg ts k u), rw (e, r) refl, rw (arg-set_arg ts k s u e) g)

-- A subterm that is put in its own place changes nothing.
pub replace_at-get_at :
    (t : Term) (p : List ℕ) (b : Term) → get_at t p ≡ some b → replace_at t p b ≡ some t
unfolding get_at replace_at
replace_at-get_at t [] b h = sym h
replace_at-get_at (var i) (k ∷ p) b h = absurd (cc h)
replace_at-get_at (fun f ts) (k ∷ p) b h =
    let (s, e, q) = >>=-eq-some (arg ts k) (λ u. get_at u p) h in
    rw (e, replace_at-get_at s p b q, set_arg_same ts k s e) refl

-- The path leads to a functor.
abbrev pub LeadsToFun : Term → List ℕ → Type 0
LeadsToFun t p = (g : ℕ) × (us : Terms) × (get_at t p ≡ some (fun g us))

All-reverse : {A : Type 0} (P : A → Type 0) (xs : List A) → All P xs → All P (reverse xs)
All-reverse P [] h = tt
All-reverse P (x ∷ xs) h = All-append P (reverse xs) (x ∷ []) (All-reverse P xs h.1) (h.0, tt)

All-map :
    {A B : Type 0} (P : A → Type 0) (Q : B → Type 0) (f : A → B)
    → ((x : A) → P x → Q (f x))
    → (xs : List A) → All P xs
    → All Q (map f xs)
All-map P Q f g [] h = tt
All-map P Q f g (x ∷ xs) h = (g x h.0, All-map P Q f g xs h.1)

-- An argument of `us` at its place, `i` further on.
abbrev Placed : Terms → ℕ → Terms → Type 0
Placed ts i us = (k : ℕ) (u : Term) → arg us k ≡ some u → arg ts (i + k) ≡ some u

mutual
  unfolding paths paths_args get_at

  lead : (t : Term) → All (LeadsToFun t) (paths t)
  lead (var i) = tt
  lead (fun f ts) =
      All-append (LeadsToFun (fun f ts)) (paths_args 0 ts) ([] ∷ [])
        (lead_args f ts 0 ts (λ k u e. ap (arg ts) (omega arith) ∙ e)) ((f, ts, refl), tt)

  lead_args :
      (f : ℕ) (ts : Terms) (i : ℕ) (us : Terms)
      → Placed ts i us
      → All (LeadsToFun (fun f ts)) (paths_args i us)
  lead_args f ts i nil h = tt
  lead_args f ts i (cons u us) h =
      let here : arg ts i ≡ some u = ap (arg ts) (omega arith) ∙ h 0 u refl in
      All-append (LeadsToFun (fun f ts)) (reverse (map (λ p. i ∷ p) (paths u)))
        (paths_args (i + 1) us)
        (All-reverse (LeadsToFun (fun f ts)) (map (λ p. i ∷ p) (paths u)) (
          All-map (LeadsToFun u) (LeadsToFun (fun f ts)) (λ p. i ∷ p)
            (λ p (g, vs, e). (g, vs, rw here e)) (paths u) (lead u)))
        (lead_args f ts (i + 1) us (λ k v e. ap (arg ts) (omega arith) ∙ h (suc k) v e))

-- Every path that `paths` lists leads to a subterm that is not a variable.
pub paths-LeadsToFun : (t : Term) → All (LeadsToFun t) (paths t)
paths-LeadsToFun t = lead t
