-- ===== src/Order/Constrained/Returns.antt =====
-- The checks of constraints (lazyparam_prover/constrained_valuation.h) return where the comparisons
-- of their pairs do.
use tptp_benchmark_go.Prelude.{
  ℕ, zero, suc, ◌+◌, ◌<◌, ◌≤◌, ◌≡◌, refl, Bool, true, false, Option, some, ◌>>=◌, Bool-cases, inl,
  inr, List, [], ◌∷◌, All, length, arith,
}
use tptp_benchmark_go.Syntax.Term.{Term}
use tptp_benchmark_go.Order.Constraint.{
  Relation, Status, holds, fails, unknown, TermPair, OrderAtom, reduce, reduce_from, drop, is_e,
  is_nil, verdict, decide,
}
use tptp_benchmark_go.Order.Constrained.{check_and_push, check_all}
use tptp_benchmark_go.Unify.{Valuation}
use tptp_benchmark_go.Unify.Subst.{Known, Closed}
use tptp_benchmark_go.Unify.Acyclic.{Acyclic}
use tptp_benchmark_go.Order.FunOrd.{FunOrd}
use tptp_benchmark_go.Order.Lpo.{cmp}
use tptp_benchmark_go.Order.Lpo.Total.{cmp_total}

-- A constraint that is not decided has pairs left.
abbrev pub Pending : OrderAtom → Type 0
Pending c = c.status ≡ unknown → c.done < length c.pairs

length-drop : (n : ℕ) (ps : List TermPair) → n < length ps → 0 < length (drop n ps)
unfolding drop
length-drop zero ps h = h
length-drop (suc n) [] h = absurd (omega arith)
length-drop (suc n) (p ∷ ps) h = length-drop n ps (omega arith)

module _ (cmp : Term → Term → Option Relation) where
  -- The comparison of each pair returns.
  abbrev pub Compares : List TermPair → Type 0
  Compares = All (λ p. (r : Relation) × (cmp p.a p.b ≡ some r))

  Compares-drop : (n : ℕ) (ps : List TermPair) → Compares ps → Compares (drop n ps)
  unfolding drop
  Compares-drop zero ps h = h
  Compares-drop (suc n) [] h = tt
  Compares-drop (suc n) (p ∷ ps) h = Compares-drop n ps h.1

  reduce_from-some :
      (want : Relation) (ps : List TermPair) (done : ℕ)
      → 0 < length ps
      → Compares ps
      → (r : Status × ℕ) × (reduce_from cmp want ps done ≡ some r)
  unfolding reduce_from is_nil
  reduce_from-some want [] done h returns = absurd (omega arith)
  reduce_from-some want (p ∷ []) done h returns =
      let (r, e) = returns.0 in ((verdict (decide r true) want, done), rw e refl)
  reduce_from-some want (p ∷ q ∷ ps) done h returns =
      let (r, e) = returns.0 in
      let (s, rest) = reduce_from-some want (q ∷ ps) (done + 1) (omega arith) returns.1 in
      elim (Bool-cases (is_e r)) [
        | inl i ↦ (s, rw (e, i) rest)
        | inr i ↦ ((verdict (decide r false) want, done), rw (e, i) refl)
      ]

  reduce-some :
      (c : OrderAtom) → Pending c → Compares c.pairs → (d : OrderAtom) × (reduce cmp c ≡ some d)
  unfolding reduce
  reduce-some c h returns = go c.status refl
    where
      go :
          (s : Status)
          → c.status ≡ s
          → (d : OrderAtom) × ((elim s [
            | holds ↦ some c
            | fails ↦ some c
            | unknown ↦ reduce_from cmp c.rel (drop c.done c.pairs) c.done >>= λ r.
                some (record c { status = r.0; done = r.1 })
          ])
              ≡ some d)
      go holds e = (c, refl)
      go fails e = (c, refl)
      go unknown e =
          let (r, ran) =
            reduce_from-some c.rel (drop c.done c.pairs) c.done (length-drop c.done c.pairs (h e))
              (Compares-drop c.done c.pairs returns) in
          (record c { status = r.0; done = r.1 }, rw ran refl)

  pub check_and_push-some :
      (cs : List OrderAtom) (c : OrderAtom)
      → Pending c
      → Compares c.pairs
      → (r : Bool × List OrderAtom) × (check_and_push cmp cs c ≡ some r)
  unfolding check_and_push
  check_and_push-some cs c h returns =
      let (d, ran) = reduce-some c h returns in let (r, e) = go d d.status in (r, rw ran e)
    where
      go :
          (d : OrderAtom) (s : Status)
          → (r : Bool × List OrderAtom) × ((elim s [
            | holds ↦ some (true, cs)
            | unknown ↦ some (true, d ∷ cs)
            | fails ↦ some (false, cs)
          ])
              ≡ some r)
      go d holds = ((true, cs), refl)
      go d unknown = ((true, d ∷ cs), refl)
      go d fails = ((false, cs), refl)

  pub check_all-some :
      (cs c2 : List OrderAtom)
      → All Pending cs
      → All (λ (c : OrderAtom). Compares c.pairs) cs
      → (r : Bool × List OrderAtom) × (check_all cmp cs c2 ≡ some r)
  unfolding check_all
  check_all-some [] c2 h returns = ((true, c2), refl)
  check_all-some (c ∷ cs) c2 h returns =
      let (r, ran) = check_and_push-some c2 c h.0 returns.0 in
      let (q, rest) = check_all-some cs r.1 h.1 returns.1 in
      elim (Bool-cases r.0) [
        | inl e ↦ (q, rw (ran, e) rest)
        | inr e ↦ ((false, r.1), rw (ran, e) refl)
      ]

-- The comparisons of lazyparam_prover/lpo.h, with enough fuel for all pairs.
module _ (ar : ℕ → ℕ) (ord : FunOrd) where
  -- The terms are over the variables of the valuation.
  abbrev pub KnownPairs : Valuation → List TermPair → Type 0
  KnownPairs val = All (λ p. Known ar val p.a × Known ar val p.b)

  module _ (val : Valuation) (closed : Closed ar val) (acyclic : Acyclic val) where
    enough_for :
        (ps : List TermPair)
        → KnownPairs val ps
        → (k : ℕ) × ((n : ℕ) → k ≤ n → Compares (cmp n ord val) ps)
    enough_for [] h = (0, λ n p. tt)
    enough_for (p ∷ ps) h =
        let (r, (i, first), holds_) = cmp_total ar ord val closed acyclic p.a p.b h.0.0 h.0.1 in
        let (k, rest) = enough_for ps h.1 in
        (i + k, λ n q. ((r, first n (omega arith)), rest n (omega arith)))

    pub enough_for_all :
        (cs : List OrderAtom)
        → All (λ (c : OrderAtom). KnownPairs val c.pairs) cs
        → (k : ℕ) × ((n : ℕ) → k ≤ n → All (λ (c : OrderAtom). Compares (cmp n ord val) c.pairs) cs)
    enough_for_all [] h = (0, λ n p. tt)
    enough_for_all (c ∷ cs) h =
        let (i, first) = enough_for c.pairs h.0 in
        let (k, rest) = enough_for_all cs h.1 in
        (i + k, λ n q. (first n (omega arith), rest n (omega arith)))
