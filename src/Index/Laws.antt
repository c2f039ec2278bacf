-- ===== src/Index/Laws.antt =====
-- What the hashes and the filters of lazyparam_prover/index.h promise.
use tptp_benchmark_go.Prelude.{
  ℕ, zero, suc, ◌+◌, ◌%◌, ◌^◌, ◌≤◌, ◌<◌, ◌≡◌, refl, sym, ap, ◌∙◌, Bool, true, false, not, arith,
  leb, ltb, Option, none, some, ◌>>=◌, List, [], ◌∷◌, length, get_elem?, if◌then◌else◌, ◌&&◌, All,
  Bool-cases, inl, inr, get_or,
}
use tptp_benchmark_go.Derived.{DerAndClause, cost}
use tptp_benchmark_go.Index.{
  atom_hash, flip, AtomClauseId, ClauseIndex, Filter, AndClauseWithAtom, too_costly, is_used,
  next_of, next,
}

-- The hash of a predicate and a sign, with `^ 1`, is the hash of the predicate and the other sign.
pub flip-atom_hash : (p : ℕ) (s : Bool) → flip (atom_hash p s) ≡ atom_hash p (not s)
unfolding flip atom_hash
flip-atom_hash p true = ground arith
flip-atom_hash p false = ground arith

-- Predicates that are at most 2^63 - 5, or one of the four reserved ones, have different hashes
-- if they differ or the signs do.
pub atom_hash-injective :
    (p q : ℕ) (s t : Bool)
    → (p + 4) % 2 ^ 64 < 2 ^ 63
    → (q + 4) % 2 ^ 64 < 2 ^ 63
    → p < 2 ^ 64
    → q < 2 ^ 64
    → atom_hash p s ≡ atom_hash q t
    → (p ≡ q) × (s ≡ t)
unfolding atom_hash
atom_hash-injective p q true true a b c d e = (omega arith, refl)
atom_hash-injective p q true false a b c d e = absurd (omega arith)
atom_hash-injective p q false true a b c d e = absurd (omega arith)
atom_hash-injective p q false false a b c d e = (omega arith, refl)

get_elem?-has :
    (xs : List DerAndClause) (i : ℕ)
    → i < length xs
    → (c : DerAndClause) × (get_elem? xs i ≡ some c)
get_elem?-has [] i h = absurd (omega arith)
get_elem?-has (x ∷ xs) zero h = (x, refl)
get_elem?-has (x ∷ xs) (suc i) h = get_elem?-has xs i (omega arith)

and_marked :
    (bs : List Bool) (x : Bool) (i : ℕ)
    → (x && get_or bs i false) ≡ (elim (get_elem? bs i) [ none ↦ false | some b ↦ b && x ])
and_marked [] true i = refl
and_marked [] false i = refl
and_marked (true ∷ bs) true zero = refl
and_marked (true ∷ bs) false zero = refl
and_marked (false ∷ bs) true zero = refl
and_marked (false ∷ bs) false zero = refl
and_marked (b ∷ bs) x (suc i) = and_marked bs x i

module _ (index : ClauseIndex) (limit : Option ℕ) (start : ℕ) where
  abbrev filter_at : List AtomClauseId → Filter
  filter_at l = record { cost_limit = limit; rest = l; starting_clause_id = start }

  -- What `n` calls of `next()` at most return, up to the first that returns nothing.
  unfoldable pub drain : ℕ → List AtomClauseId → Option (List AndClauseWithAtom)
  unfolding next
  drain zero l = some []
  drain (suc n) l = next index (filter_at l) >>= λ r. elim (r.0) [
    | none ↦ some []
    | some x ↦ drain n (r.1).rest >>= λ xs. some (x ∷ xs)
  ]

  -- the cost of the clause of an atom
  unfoldable pub clause_cost : AtomClauseId → ℕ
  clause_cost a = elim (get_elem? index.and_clauses a.clause_id) [ none ↦ 0 | some c ↦ cost c ]

  unfoldable pub within : Option ℕ → ℕ → Bool
  within none n = true
  within (some k) n = leb n k

  -- Whether the clause with this id is a starting one with an id from 0 to `start - 1`.
  unfoldable pub used_before : ℕ → Bool
  used_before i = elim (get_elem? index.is_starting_clause i) [
    | none ↦ false
    | some b ↦ b && leb (i + 1) start
  ]

  is_used-used_before : (a : AtomClauseId) → is_used index start a ≡ used_before a.clause_id
  unfolding is_used used_before
  is_used-used_before a =
      let same : ltb a.clause_id start ≡ leb (a.clause_id + 1) start = ground arith in
      rw same (and_marked index.is_starting_clause (leb (a.clause_id + 1) start) a.clause_id)

  -- The atoms of clauses within the cost limit, less those of starting clauses before `start`.
  unfoldable pub matching : List AtomClauseId → List AndClauseWithAtom
  unfolding within clause_cost used_before
  matching [] = []
  matching (a ∷ l) =
      let rest = matching l in
      elim (get_elem? index.and_clauses a.clause_id) [
        | none ↦ rest
        | some c ↦
            if within limit (cost c) && not (used_before a.clause_id)
            then record { i = a.atom_id; cla = c } ∷ rest
            else rest
      ]

  -- Each atom is one of a clause of the index, and the costs of the clauses do not decrease.
  unfoldable pub Ascending : List AtomClauseId → Type 0
  unfolding clause_cost
  Ascending [] = Unit
  Ascending (a ∷ l) =
      (a.clause_id < length index.and_clauses)
      × All (λ b. clause_cost a ≤ clause_cost b) l
      × Ascending l

  within_mono : (m : Option ℕ) (x y : ℕ) → x ≤ y → within m x ≡ false → within m y ≡ false
  unfolding within
  within_mono none x y h e = e
  within_mono (some k) x y h e = ground arith

  too_costly-within :
      (m : Option ℕ) (c : DerAndClause) → too_costly index m c ≡ not (within m (cost c))
  unfolding too_costly within
  too_costly-within none c = refl
  too_costly-within (some k) c = ground arith

  -- Behind a clause that costs too much, all do.
  matching-costly :
      (n : ℕ) (l : List AtomClauseId)
      → within limit n ≡ false
      → All (λ b. n ≤ clause_cost b) l
      → matching l ≡ []
  unfolding matching clause_cost
  matching-costly n [] h a = refl
  matching-costly n (b ∷ l) h (le, a) =
      go (matching-costly n l h a) (get_elem? index.and_clauses b.clause_id) le
    where
      go :
          matching l ≡ []
          → (m : Option DerAndClause) → n ≤ (elim m [ none ↦ 0 | some c ↦ cost c ])
          → (elim m [
            | none ↦ matching l
            | some c ↦
                if within limit (cost c) && not (used_before b.clause_id)
                then record { i = b.atom_id; cla = c } ∷ matching l
                else matching l
          ])
            ≡ []
      go rest none le = rest
      go rest (some c) le = rw (within_mono limit n (cost c) le h) rest

  -- The three ways in which a call goes at an atom whose clause is `c`.
  next_of-costly :
      (a : AtomClauseId) (l : List AtomClauseId) (c : DerAndClause)
      → get_elem? index.and_clauses a.clause_id ≡ some c
      → within limit (cost c) ≡ false
      → next_of index limit start (a ∷ l) ≡ some (none, a ∷ l)
  unfolding next_of
  next_of-costly a l c e p = rw (e, too_costly-within limit c, p) refl

  next_of-used :
      (a : AtomClauseId) (l : List AtomClauseId) (c : DerAndClause)
      → get_elem? index.and_clauses a.clause_id ≡ some c
      → within limit (cost c) ≡ true
      → is_used index start a ≡ true
      → (next_of index limit start (a ∷ l) ≡ next_of index limit start l)
        × (matching (a ∷ l) ≡ matching l)
  unfolding next_of matching
  next_of-used a l c e p q = (
    rw (e, too_costly-within limit c, p, q) refl,
    rw (matching, e, p, sym (is_used-used_before a) ∙ q) refl,
  )

  next_of-found :
      (a : AtomClauseId) (l : List AtomClauseId) (c : DerAndClause)
      → get_elem? index.and_clauses a.clause_id ≡ some c
      → within limit (cost c) ≡ true
      → is_used index start a ≡ false
      → (next_of index limit start (a ∷ l) ≡ some (some (record { i = a.atom_id; cla = c }), l))
        × (matching (a ∷ l) ≡ record { i = a.atom_id; cla = c } ∷ matching l)
  unfolding next_of matching
  next_of-found a l c e p q = (
    rw (e, too_costly-within limit c, p, q) refl,
    rw (matching, e, p, sym (is_used-used_before a) ∙ q) refl,
  )

  cost_of :
      (a : AtomClauseId) (c : DerAndClause)
      → get_elem? index.and_clauses a.clause_id ≡ some c
      → clause_cost a ≡ cost c
  unfolding clause_cost
  cost_of a c e = rw (clause_cost, e) refl

  drain-nil : (n : ℕ) → drain (suc n) [] ≡ some (matching [])
  unfolding drain next next_of matching
  drain-nil n = refl

  -- `next()` called until it returns nothing returns, each once and in order, exactly the atoms of
  -- the clauses within the cost limit, less those of the starting clauses before `start`: provided
  -- that the clauses are sorted by cost, `next()` misses none by stopping at the first that
  -- costs too much.
  pub drain-matching :
      (n : ℕ) (l : List AtomClauseId) → length l < n → Ascending l → drain n l ≡ some (matching l)
  unfolding drain next Ascending
  drain-matching zero l h a = absurd (omega arith)
  drain-matching (suc n) [] h a = drain-nil n
  drain-matching (suc n) (a ∷ l) h (has, le, asc) =
      let (c, e) = get_elem?-has index.and_clauses a.clause_id has in
      elim (Bool-cases (within limit (cost c))) [
        | inr p ↦
            let all_costly =
              matching-costly (clause_cost a) (a ∷ l) (ap (within limit) (cost_of a c e) ∙ p)
                (omega arith, le) in
            rw (next_of-costly a l c e p, all_costly) refl
        | inl p ↦ elim (Bool-cases (is_used index start a)) [
          | inl q ↦
              let (same, less) = next_of-used a l c e p q in
              rw (same, less) (drain-matching (suc n) l (omega arith) asc)
          | inr q ↦
              let (found, more) = next_of-found a l c e p q in
              rw (found, more, drain-matching n l (omega arith) asc) refl
        ]
      ]
