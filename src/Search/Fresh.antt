-- ===== src/Search/Fresh.antt =====
-- What the fresh variables of an allocation (`Valuation::allocate` in lazyparam_prover/mgu.h) keep of
-- the valuation.
use tptp_benchmark_go.Prelude.{
  ℕ, zero, suc, ◌+◌, ◌-◌, ◌≤◌, ◌≡◌, refl, sym, ◌∙◌, Option, none, some, List, [], ◌∷◌, get_elem?,
  resize, length, length-resize, arith,
}
use tptp_benchmark_go.Memory.Rewind.{get, size, grow}
use tptp_benchmark_go.Syntax.Term.{Term, Terms, var, fun, nil, cons}
use tptp_benchmark_go.Derived.{DerAndClause, var_range}
use tptp_benchmark_go.Derived.Allocate.{allocate_clause}
use tptp_benchmark_go.Unify.{Valuation}
use tptp_benchmark_go.Unify.Subst.{Closed, WellFormed, WellFormedArgs}
use tptp_benchmark_go.Unify.Acyclic.{Acyclic}

-- The cells beyond the end are unbound, as new cells are.
get-resize :
    (n : ℕ) (xs : List (Option Term)) (i : ℕ)
    → length xs ≤ n
    → (elim (get_elem? (resize n none xs) i) [ none ↦ none | some m ↦ m ])
      ≡ (elim (get_elem? xs i) [ none ↦ none | some m ↦ m ])
get-resize zero [] i h = refl
get-resize zero (x ∷ xs) i h = absurd (omega arith)
get-resize (suc n) [] zero h = refl
get-resize (suc n) [] (suc i) h = get-resize n [] i (omega arith)
get-resize (suc n) (x ∷ xs) zero h = refl
get-resize (suc n) (x ∷ xs) (suc i) h = get-resize n xs i (omega arith)

get-grow : (n : ℕ) (val : Valuation) (i : ℕ) → size val ≤ n → get (grow n val) i ≡ get val i
unfolding get size grow
get-grow n val i h = get-resize n val.cells i h

mutual
  WellFormed-mono :
      (ar : ℕ → ℕ) (m n : ℕ) (t : Term) → m ≤ n → WellFormed ar m t → WellFormed ar n t
  WellFormed-mono ar m n (var i) h k = omega arith
  WellFormed-mono ar m n (fun f ts) h k = (k.0, WellFormedArgs-mono ar m n ts h k.1)

  WellFormedArgs-mono :
      (ar : ℕ → ℕ) (m n : ℕ) (ts : Terms) → m ≤ n → WellFormedArgs ar m ts → WellFormedArgs ar n ts
  WellFormedArgs-mono ar m n nil h k = tt
  WellFormedArgs-mono ar m n (cons t ts) h k =
      (WellFormed-mono ar m n t h k.0, WellFormedArgs-mono ar m n ts h k.1)

pub allocated-Closed :
    (ar : ℕ → ℕ) (val : Valuation) (c : DerAndClause)
    → (var_range c).begin ≤ (var_range c).end
    → Closed ar val
    → Closed ar (allocate_clause val c).1
unfolding allocate_clause size grow
allocated-Closed ar val c range closed i t e =
    let top = size val + (var_range c).end - (var_range c).begin in
    WellFormed-mono ar (size val) (size (grow top val)) t
      (omega (arith, range, length-resize top none val.cells))
      (closed i t (sym (get-grow top val i (omega (arith, range))) ∙ e))

pub allocated-Acyclic :
    (val : Valuation) (c : DerAndClause)
    → (var_range c).begin ≤ (var_range c).end
    → Acyclic val
    → Acyclic (allocate_clause val c).1
unfolding allocate_clause
allocated-Acyclic val c range a =
    let top = size val + (var_range c).end - (var_range c).begin in
    record {
      rank = a.rank;
      falls = λ i t e. a.falls i t (sym (get-grow top val i (omega (arith, range))) ∙ e);
    }
