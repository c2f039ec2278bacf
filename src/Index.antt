-- ===== src/Index.antt =====
-- `ClauseIndex` of lazyparam_prover/index.h, with `Index::atom_hash` of lazyparam_prover/eq_axioms.h.
pub mod Laws
pub mod Numbers
pub mod Matches
use tptp_benchmark_go.Prelude.{
  ℕ, zero, suc, ◌+◌, ◌-◌, ◌*◌, ◌%◌, ◌^◌, Bool, true, false, not, Option, none, some, ◌>>=◌, ◌==◌,
  ltb, ◌&&◌, if◌then◌else◌, List, [], ◌∷◌, ◌++◌, map, get_or, get_elem?, length,
}
use tptp_benchmark_go.Syntax.Atom.{Atom, pred_min}
use tptp_benchmark_go.Syntax.Clause.{AndClause}
use tptp_benchmark_go.Derived.{DerAndClause, derived, cost, set_id_offset}

-- `atom_hash(pred, sign)`: `(pred - PRED_MIN) << 1 | sign` on 64 bits
unfoldable pub atom_hash : ℕ → Bool → ℕ
atom_hash pred sign = (pred + 2 ^ 64 - pred_min) % 2 ^ 64 * 2 % 2 ^ 64 + (if sign then 1 else 0)

-- `h ^ 1`
unfoldable pub flip : ℕ → ℕ
flip h = if h % 2 == 0 then h + 1 else h - 1

pub record AtomClauseId : Type 0 where
  pub atom_id : ℕ
  pub clause_id : ℕ

pub record ClauseIndex : Type 0 where
  pub and_clauses : List DerAndClause
  pub is_starting_clause : List Bool

-- `Filter`; `rest` is `atoms` from `next_id` on
pub record Filter : Type 0 where
  pub cost_limit : Option ℕ
  pub rest : List AtomClauseId
  pub starting_clause_id : ℕ

pub record AndClauseWithAtom : Type 0 where
  pub i : ℕ
  pub cla : DerAndClause

-- `starting &= d.atom(j).sign()` over all atoms
unfoldable pub all_positive : List Atom → Bool
all_positive [] = true
all_positive (a ∷ l) = a.sign && all_positive l

unfoldable pub is_starting : DerAndClause → Bool
unfolding all_positive derived
is_starting c = all_positive (derived c).stored

-- The loop of the constructor that numbers the atoms, from the last clause to the first: the
-- clauses with their offsets, and the number of atoms.
unfoldable pub number_clauses : List DerAndClause → List DerAndClause × ℕ
unfolding set_id_offset derived
number_clauses [] = ([], 0)
number_clauses (c ∷ cs) =
    let (ds, n) = number_clauses cs in (set_id_offset n c ∷ ds, n + length (derived c).stored)

-- the clauses and the marks of the starting ones; `sort` is the stable sort by cost
unfoldable pub build_clauses :
    (List DerAndClause → List DerAndClause) → List DerAndClause → ClauseIndex
unfolding number_clauses is_starting
build_clauses sort f =
    let ds = (number_clauses (sort f)).0 in
    record { and_clauses = ds; is_starting_clause = map is_starting ds }

-- the places of the atoms of the i-th clause, and of all clauses: `all`
unfoldable pub places_of : ℕ → ℕ → List Atom → List AtomClauseId
places_of i j [] = []
places_of i j (a ∷ l) = record { atom_id = j; clause_id = i } ∷ places_of i (j + 1) l

unfoldable pub all_places : ℕ → List DerAndClause → List AtomClauseId
unfolding places_of derived
all_places i [] = []
all_places i (c ∷ cs) = places_of i 0 (derived c).stored ++ all_places (i + 1) cs

module _ (index : ClauseIndex) where
  -- `cost_limit && cost > cost_limit.get()`
  unfoldable pub too_costly : Option ℕ → DerAndClause → Bool
  unfolding cost
  too_costly none c = false
  too_costly (some limit) c = ltb limit (cost c)

  -- `starting_clause_id > a.clause_id && is_starting_clause[a.clause_id]`
  unfoldable pub is_used : ℕ → AtomClauseId → Bool
  is_used start a = ltb a.clause_id start && get_or index.is_starting_clause a.clause_id false

  -- `next()`: the outer `none` is a read past the last clause
  unfoldable pub next_of :
      Option ℕ → ℕ → List AtomClauseId → Option (Option AndClauseWithAtom × List AtomClauseId)
  unfolding too_costly is_used
  next_of limit start [] = some (none, [])
  next_of limit start (a ∷ l) =
      let later = next_of limit start l in
      get_elem? index.and_clauses a.clause_id >>= λ c.
      if too_costly limit c
      then some (none, a ∷ l)
      else if is_used start a
      then later
      else some (some (record { i = a.atom_id; cla = c }), l)

  unfoldable pub next : Filter → Option (Option AndClauseWithAtom × Filter)
  unfolding next_of
  next f =
      next_of f.cost_limit f.starting_clause_id f.rest >>= λ r. some (r.0, record f { rest = r.1 })

  -- `State::next_starting_clause()`: the clause, and the new `next_starting_clause_id`
  unfoldable pub next_starting_from : List DerAndClause → List Bool → ℕ → Option DerAndClause × ℕ
  next_starting_from [] bs i = (none, i)
  next_starting_from (c ∷ cs) [] i = (none, i)
  next_starting_from (c ∷ cs) (b ∷ bs) i =
      if b then (some c, i + 1) else next_starting_from cs bs (i + 1)

  unfoldable pub drop_list : {A : Type 0} → ℕ → List A → List A
  drop_list zero l = l
  drop_list (suc n) [] = []
  drop_list (suc n) (x ∷ l) = drop_list n l

  unfoldable pub next_starting_clause : ℕ → Option DerAndClause × ℕ
  unfolding next_starting_from drop_list
  next_starting_clause i =
      next_starting_from (drop_list i index.and_clauses) (drop_list i index.is_starting_clause) i

  -- `get_all(cost_limit)` with `next_starting_clause_id`
  unfoldable pub get_all : ℕ → ℕ → Filter
  unfolding all_places
  get_all next_id limit = record {
    cost_limit = some limit;
    rest = all_places 0 index.and_clauses;
    starting_clause_id = next_id - 1;
  }
