-- ===== src/Tableau.antt =====
-- The frames of lazyparam_prover/connection_tableau: the tasks of the search for a closed tableau.
-- A task that the source keeps as a closure is a value of `Frame`; running it gives the calls of
-- the engine that it makes. `none` is fuel that ran out, or a stop of a debug build.
pub mod Laws
pub mod Close
use tptp_benchmark_go.Prelude.{
  ℕ, zero, suc, ◌+◌, Bool, true, false, not, Option, none, some, ◌>>=◌, ◌==◌, if◌then◌else◌, List,
  [], ◌∷◌, ◌++◌, length,
}
use tptp_benchmark_go.Syntax.Term.{Term}
use tptp_benchmark_go.Syntax.Atom.{Atom}
use tptp_benchmark_go.Syntax.Clause.{AndClause, atom, atoms}
use tptp_benchmark_go.Order.Constraint.{Relation, neq}
use tptp_benchmark_go.Order.Constrained.{ConstrainedValuation, push_constraint, unify_atoms}
use tptp_benchmark_go.Derived.{DerAndClause}
use tptp_benchmark_go.Unify.{Valuation, equal_mod_sign}
use tptp_benchmark_go.Index.{
  ClauseIndex, Filter, AndClauseWithAtom, flip, next, next_starting_clause,
}
use tptp_benchmark_go.Index.Matches.{Matches, hash_of, get_matches}
use tptp_benchmark_go.Search.{Branch, empty_branch, SearchState, Stats, allocate}
use tptp_benchmark_go.Engine.Balanced.{sub_size}
use tptp_benchmark_go.Engine.Task.{Task, task, Effects, stop}
use tptp_benchmark_go.Engine.Task

-- `reduction` and `extension` are the alternatives of a weak frame, with the atom at the head of
-- its branch.
pub data Frame : Type 0 where
  start : Frame
  strong : Branch → DerAndClause → Option ℕ → Frame
  weak : Branch → Frame
  reduction : ℕ → Atom → Atom → Frame
  extension : ℕ → Atom → Branch → Frame

-- The calls of the engine, each with `Features.depth` and the state of its time.
pub data Action : Type 0 where
  or_ : ℕ → SearchState → Frame → Action
  and_ : Frame → Action
  done : ℕ → SearchState → Action

abbrev pub head? : List Atom → Option Atom
head? [] = none
head? (a ∷ l) = some a

abbrev pub tail_of : List Atom → List Atom
tail_of [] = []
tail_of (a ∷ l) = l

-- `for(i = atom_count; i--;) if(i != k) todo.push(atom(i))`, from the j-th atom on
unfoldable pub push_others : ℕ → Option ℕ → List Atom → List Atom → List Atom
push_others j k [] todo = todo
push_others j k (a ∷ l) todo =
    let rest = push_others (j + 1) k l todo in
    if (elim k [ none ↦ false | some i ↦ i == j ]) then rest else a ∷ rest

-- What `strong_resolution` does with a `strong_only` atom: the first two matches decide.
pub data Choice : Type 0 where
  no_match : Choice
  one_match : AndClauseWithAtom → Choice
  many_matches : Choice

module _ (cmp : Valuation → Term → Term → Option Relation) (index : ClauseIndex) (matches : Matches)
    (n : ℕ) where
  -- `size_limit - nodes_used`, which wraps
  abbrev pub room : ℕ → SearchState → Option ℕ
  room limit st = some (sub_size limit st.nodes_used)

  -- `unify` on the valuation of the state
  unfoldable pub unify_in : SearchState → Atom → Atom → Option (Bool × SearchState)
  unfolding unify_atoms
  unify_in st a b = unify_atoms cmp n st.val a b >>= λ r. some (r.0, record st { val = r.1 })

  -- an atom that is connected to a new clause, whose other atoms are to be done
  unfoldable pub connect :
      SearchState → Atom → AndClauseWithAtom → List Atom → Option (Option (List Atom) × SearchState)
  unfolding allocate unify_in push_others
  connect st a ca todo = allocate cmp st ca.cla >>= λ r. elim (r.0) [
    | none ↦ some (none, r.1)
    | some cla ↦ atom cla ca.i >>= λ b. unify_in r.1 a b >>= λ s.
        some (if s.0 then some (push_others 0 (some ca.i) (atoms cla) todo) else none, s.1)
  ]

  abbrev count_strong_only : SearchState → SearchState
  count_strong_only st = record st {
    stats = record (st.stats) { strong_only_steps = st.stats.strong_only_steps + 1 };
  }

  unfoldable pub choose : SearchState → ℕ → Atom → Option Choice
  unfolding get_matches next
  choose st limit a = get_matches matches st.next_starting a (room limit st) >>= λ f.
      next index f >>= λ r. elim (r.0) [
        | none ↦ some no_match
        | some ca ↦ next index (r.1) >>= λ r'. elim (r'.0) [
          | none ↦ some (one_match ca)
          | some x ↦ some many_matches
        ]
      ]

  -- `while(!todo.empty())`: the atoms that are left, unless the clause fails
  unfoldable pub resolve :
      ℕ → SearchState → ℕ → List Atom → List Atom → Option (Option (List Atom) × SearchState)
  unfolding choose connect
  resolve zero st limit todo checked = none
  resolve (suc k) st limit [] checked = some (some checked, st)
  resolve (suc k) st limit (a ∷ todo) checked =
      if not a.strong_only
      then resolve k st limit todo (a ∷ checked)
      else (choose st limit a >>= elim [
        | no_match ↦ some (none, st)
        | many_matches ↦ resolve k st limit todo (a ∷ checked)
        | one_match ca ↦ connect (count_strong_only st) a ca todo >>= λ r. elim (r.0) [
          | none ↦ some (none, r.1)
          | some todo' ↦ resolve k r.1 limit todo' checked
        ]
      ])

  unfoldable pub strong_resolution :
      SearchState → List Atom → ℕ → Option (Option (List Atom) × SearchState)
  unfolding resolve
  strong_resolution st todo limit = resolve n st limit todo []

  -- the loop over the atoms that are left: each is the head of a branch, and proved in the later
  -- ones
  unfoldable pub weak_frames : Branch → List Atom → List Action
  weak_frames b [] = []
  weak_frames b (a ∷ l) =
      and_ (weak (record b { false_ = a ∷ b.false_ }))
      ∷ weak_frames (record b { true_ = a ∷ b.true_ }) l

  -- `if(strong_id>=0) if(!unify(branch.false_.head(),cla.atom(strong_id))) return;`
  unfoldable pub unify_head :
      SearchState → Branch → AndClause → Option ℕ → Option (Bool × SearchState)
  unfolding unify_in
  unify_head st b cla none = some (true, st)
  unify_head st b cla (some i) = head? b.false_ >>= λ a. atom cla i >>= λ c. unify_in st a c

  abbrev count_strong : SearchState → SearchState
  count_strong st = record st {
    stats = record (st.stats) { strong_steps = st.stats.strong_steps + 1 };
  }

  unfoldable pub run_strong :
      ℕ → SearchState → Branch → DerAndClause → Option ℕ → Option (List Action)
  unfolding allocate unify_head push_others strong_resolution weak_frames
  run_strong limit st b c k = allocate cmp (count_strong st) c >>= λ r. elim (r.0) [
    | none ↦ some []
    | some cla ↦ unify_head r.1 b cla k >>= λ s.
        if s.0
        then (strong_resolution s.1 (push_others 0 k (atoms cla) []) limit >>= λ q. elim (q.0) [
          | none ↦ some []
          | some l ↦ some (weak_frames b l ++ (done (length b.false_ + 1) q.1 ∷ []))
        ])
        else some []
  ]

  -- the first loop of `_WeakFrame`: whether an atom was proved before
  unfoldable pub is_lemma : Valuation → Atom → List Atom → Option Bool
  unfolding equal_mod_sign
  is_lemma val a [] = some false
  is_lemma val a (b ∷ l) =
      let rest = is_lemma val a l in
      if hash_of a == hash_of b
      then (equal_mod_sign n val a b >>= λ x. if x then some true else rest)
      else rest

  -- the alternatives that close the branch with an atom of the path
  unfoldable pub reductions : ℕ → SearchState → Atom → List Atom → List Action
  reductions depth st a [] = []
  reductions depth st a (b ∷ l) =
      let rest = reductions depth st a l in
      if flip (hash_of a) == hash_of b then or_ depth st (reduction depth a b) ∷ rest else rest

  abbrev count_weak : SearchState → SearchState
  count_weak st = record st { stats = record (st.stats) { weak_steps = st.stats.weak_steps + 1 } }

  unfoldable pub run_weak : SearchState → Branch → Option (List Action)
  unfolding is_lemma reductions
  run_weak st0 b = head? b.false_ >>= λ a.
      let st = count_weak st0 in
      let depth = length b.false_ in
      is_lemma st.val.val a b.true_ >>= λ found. some (
        if found
        then done depth st ∷ []
        else ((if a.strong_only then [] else reductions depth st a b.false_)
            ++ (or_ depth st (extension depth a b) ∷ [])))

  unfoldable pub run_reduction : SearchState → ℕ → Atom → Atom → Option (List Action)
  unfolding unify_in
  run_reduction st depth a b =
      unify_in st a b >>= λ r. some (if r.0 then done depth r.1 ∷ [] else [])

  -- the constraints that the atom differs from those of the path
  unfoldable pub push_neqs :
      ConstrainedValuation → Atom → List Atom → Option (Bool × ConstrainedValuation)
  unfolding push_constraint neq
  push_neqs v a [] = some (true, v)
  push_neqs v a (b ∷ l) = neq a b >>= λ c.
      push_constraint cmp v c >>= λ r. if r.0 then push_neqs r.1 a l else some (false, r.1)

  -- `while(auto mca = matches.next())`, with more fuel than there are places
  unfoldable pub extensions : ℕ → ℕ → SearchState → Branch → Filter → Option (List Action)
  unfolding next
  extensions zero depth st b f = none
  extensions (suc k) depth st b f = next index f >>= λ r. elim (r.0) [
    | none ↦ some []
    | some ca ↦
        extensions k depth st b (r.1) >>= λ l. some (or_ depth st (strong b ca.cla (some ca.i)) ∷ l)
  ]

  unfoldable pub run_extension : ℕ → SearchState → ℕ → Atom → Branch → Option (List Action)
  unfolding push_neqs extensions get_matches
  run_extension limit st depth a b =
      (if a.strong_only then some (true, st.val) else push_neqs st.val a (tail_of b.false_))
      >>= λ r.
          let st' = record st { val = r.1 } in
          if r.0
          then (head? b.false_ >>= λ h.
              get_matches matches st'.next_starting h (room limit st') >>= λ f.
              extensions (suc (length f.rest)) depth st' b f)
          else some []

  -- `next_starting_clause` changes the state before the two calls
  unfoldable pub run_start : SearchState → List Action
  unfolding next_starting_clause
  run_start st =
      let (c, i) = next_starting_clause index st.next_starting in
      let st' = record st { next_starting = i } in
      elim c [ none ↦ [] | some d ↦ or_ 0 st' (strong empty_branch d none) ∷ or_ 0 st' start ∷ [] ]

  unfoldable pub run : ℕ → SearchState → Frame → Option (List Action)
  unfolding run_start run_strong run_weak run_reduction run_extension
  run limit st start = some (run_start st)
  run limit st (strong b c k) = run_strong limit st b c k
  run limit st (weak b) = run_weak st b
  run limit st (reduction depth a b) = run_reduction st depth a b
  run limit st (extension depth a b) = run_extension limit st depth a b
