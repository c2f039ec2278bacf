-- ===== src/Tableau/Laws.antt =====
-- The ways to close a branch (lazyparam_prover/connection_tableau/frames/weak.h): with an atom
-- proved before, or with an atom of the path.
use tptp_benchmark_go.Prelude.{
  ℕ, ◌+◌, ◌<◌, ◌≡◌, ◌%◌, ◌^◌, inl, inr, refl, sym, ap, ◌∙◌, Bool, true, false, not, Option, some,
  ◌>>=◌, ◌==◌, ==_iff, ◌&&◌, if◌then◌else◌, Bool-cases, List, [], ◌∷◌, map, All, Any, arith,
}
use tptp_benchmark_go.Syntax.Term.{Term, arg_count}
use tptp_benchmark_go.Syntax.Atom.{Atom, same_sign}
use tptp_benchmark_go.Order.Constraint.{Relation}
use tptp_benchmark_go.Order.FunOrd.{FunOrd}
use tptp_benchmark_go.Order.Lpo.Below.{equal_args-same, equal-EqSound}
use tptp_benchmark_go.Unify.{Valuation, equal, equal_args, equal_mod_sign}
use tptp_benchmark_go.Unify.Subst.{KnownArgs, Closed, Solves, apply_args}
use tptp_benchmark_go.Unify.Settle.{Settles, Settles->>=}
use tptp_benchmark_go.Unify.Acyclic.{Acyclic}
use tptp_benchmark_go.Unify.Total.Pairs.{Answers, Answers-now, Answers-eq, all_equal-Answers}
use tptp_benchmark_go.Index.{ClauseIndex, atom_hash, flip}
use tptp_benchmark_go.Index.Laws.{atom_hash-injective, flip-atom_hash}
use tptp_benchmark_go.Index.Matches.{Matches, hash_of}
use tptp_benchmark_go.Search.{SearchState}
use tptp_benchmark_go.Tableau.{reduction, or_, is_lemma, reductions}

-- A predicate whose hash is its own: a number given by the parser, or a reserved one.
abbrev pub Named : Atom → Type 0
Named a = ((a.pred + 4) % 2 ^ 64 < 2 ^ 63) × (a.pred < 2 ^ 64)

-- the same predicate and the opposite sign
abbrev pub opposite : Atom → Atom → Bool
opposite a b = (b.pred == a.pred) && not (same_sign a.sign b.sign)

abbrev pub opposites : Atom → List Atom → List Atom
opposites a [] = []
opposites a (b ∷ l) = let rest = opposites a l in if opposite a b then b ∷ rest else rest

same_hash :
    (a b : Atom) → Named a → Named b → hash_of a ≡ hash_of b → (a.pred ≡ b.pred) × (a.sign ≡ b.sign)
same_hash a b p q = atom_hash-injective a.pred b.pred a.sign b.sign p.0 q.0 p.1 q.1

opposite_signs : (x y : Bool) → not x ≡ y → not (same_sign x y) ≡ true
opposite_signs true y h = ap not (sym h)
opposite_signs false y h = ap (λ z. not (not z)) (sym h)

sign_of_opposite : (x y : Bool) → not (same_sign x y) ≡ true → not x ≡ y
sign_of_opposite true true h = absurd (cc h)
sign_of_opposite true false h = refl
sign_of_opposite false true h = refl
sign_of_opposite false false h = absurd (cc h)

-- The test of the hashes is the test of predicate and sign.
flip-opposite : (a b : Atom) → Named a → Named b → (flip (hash_of a) == hash_of b) ≡ opposite a b
flip-opposite a b p q = elim (Bool-cases (flip (hash_of a) == hash_of b)) [
  | inl h ↦
      let (same, sign) =
        atom_hash-injective a.pred b.pred (not a.sign) b.sign p.0 q.0 p.1 q.1
          (sym (flip-atom_hash a.pred a.sign) ∙ (==_iff (flip (hash_of a)) (hash_of b)).0 h) in
      let eq : (b.pred == a.pred) ≡ true = (==_iff b.pred a.pred).1 (sym same) in
      h ∙ sym (both _ _ eq (opposite_signs a.sign b.sign sign))
  | inr h ↦ elim (Bool-cases (opposite a b)) [
    | inr o ↦ h ∙ sym o
    | inl o ↦
        let (eq, sign) = split _ _ o in
        let hashes : flip (hash_of a) ≡ hash_of b =
          flip-atom_hash a.pred a.sign
          ∙ ap (atom_hash a.pred) (sign_of_opposite a.sign b.sign sign)
          ∙ ap (λ p. atom_hash p b.sign) (sym ((==_iff b.pred a.pred).0 eq)) in
        let yes' = (==_iff (flip (hash_of a)) (hash_of b)).1 hashes in cc
  ]
]
  where
    both : (x y : Bool) → x ≡ true → y ≡ true → (x && y) ≡ true
    both x y g h = rw (g, h) refl

    split : (x y : Bool) → (x && y) ≡ true → (x ≡ true) × (y ≡ true)
    split true y h = (refl, h)
    split false y h = absurd (cc h)

module _ (cmp : Valuation → Term → Term → Option Relation) (index : ClauseIndex)
    (matches : Matches) where
  -- Where the predicates are numbers that the hash keeps apart, the alternatives to close a branch
  -- with its path are exactly those with the atoms of the path that have the same predicate and
  -- the opposite sign, in the order of the path.
  pub reductions-opposites :
      (n depth : ℕ) (st : SearchState) (a : Atom) (l : List Atom)
      → Named a
      → All Named l
      → reductions cmp index matches n depth st a l
        ≡ map (λ b. or_ depth st (reduction depth a b)) (opposites a l)
  unfolding reductions
  reductions-opposites n depth st a [] p q = refl
  reductions-opposites n depth st a (b ∷ l) p q =
      let rest = reductions-opposites n depth st a l p q.1 in
      let test = flip-opposite a b p q.0 in
      elim (Bool-cases (opposite a b)) [
        | inl o ↦ rw (test ∙ o, o) (ap (λ l. or_ depth st (reduction depth a b) ∷ l) rest)
        | inr o ↦ rw (test ∙ o, o) rest
      ]

  module _ (ar pr : ℕ → ℕ) (ord : FunOrd) (val : Valuation) (c : Closed ar val)
      (y : Acyclic val) where
    -- A well-formed atom over the variables of the valuation.
    abbrev pub Proper : Atom → Type 0
    Proper a = Named a × KnownArgs ar val a.args × (arg_count a.args ≡ pr a.pred)

    -- The two atoms are the same under every solution of the valuation.
    abbrev pub SameUnder : Atom → Atom → Type 0
    SameUnder a b =
        (a.pred ≡ b.pred)
        × (a.sign ≡ b.sign)
        × ((s : ℕ → Term) → Solves s val → apply_args s a.args ≡ apply_args s b.args)

    counts :
        (a b : Atom) → Proper a → Proper b → a.pred ≡ b.pred → arg_count a.args ≡ arg_count b.args
    counts a b p q h = p.2 ∙ ap pr h ∙ sym q.2

    -- the test of one atom
    test-Answers : (a b : Atom) → Proper a → Proper b → Answers (λ n. equal_mod_sign n val a b)
    unfolding equal_mod_sign
    test-Answers a b p q = elim (Bool-cases (a.pred == b.pred)) [
      | inr h ↦ Answers-now false _ (λ n. rw h refl)
      | inl h ↦
          Answers-eq _ (λ n. equal_args (equal n val) a.args b.args) (λ n. rw h refl)
            (all_equal-Answers ar val c y a.args b.args p.1 q.1
              (counts a b p q ((==_iff a.pred b.pred).0 h)))
    ]

    test-same :
        (n : ℕ) (a b : Atom)
        → Proper a
        → Proper b
        → a.pred ≡ b.pred
        → equal_mod_sign n val a b ≡ some true
        → (s : ℕ → Term) → Solves s val
        → apply_args s a.args ≡ apply_args s b.args
    unfolding equal_mod_sign
    test-same n a b p q same h s sol =
        let eq = (==_iff a.pred b.pred).1 same in
        equal_args-same ar ord val s c sol (equal n val) (equal-EqSound ar ord val s c sol n) a.args
          b.args (counts a b p q same) p.1 q.1 (rw eq at h)

    abbrev Found : Atom → List Atom → (ℕ → Option Bool) → Type 0
    Found a l f = (x : Bool) × Settles f x × (x ≡ true → Any (SameUnder a) l)

    -- For a well-formed valuation without cycles and well-formed atoms, the search for an atom that
    -- was proved before returns, with the same answer for all fuel from some amount on. If the
    -- answer is yes, one of the atoms is the same as the given one under every solution of the
    -- valuation: predicate, sign and arguments.
    pub is_lemma_total :
        (a : Atom) (l : List Atom)
        → Proper a
        → All Proper l
        → (x : Bool) × Settles (λ n. is_lemma cmp index matches n val a l) x
          × (x ≡ true → Any (SameUnder a) l)
    unfolding is_lemma
    is_lemma_total a [] p q = (false, (0, λ n g. refl), λ h. cc)
    is_lemma_total a (b ∷ l) p q =
        let (x, s, found) = is_lemma_total a l p q.1 in
        elim (Bool-cases (hash_of a == hash_of b)) [
          | inr h ↦ (x, (s.0, λ n g. rw h (s.1 n g)), λ e. inr (found e))
          | inl h ↦
              let (same, sign) = same_hash a b p.0 q.0.0 ((==_iff (hash_of a) (hash_of b)).0 h) in
              go h same sign (test-Answers a b p q.0) (x, s, found)
        ]
      where
        rest : ℕ → Option Bool
        rest n = is_lemma cmp index matches n val a l

        step : ℕ → Bool → Option Bool
        step n x = if x then some true else rest n

        go :
            (hash_of a == hash_of b) ≡ true
            → a.pred ≡ b.pred
            → a.sign ≡ b.sign
            → Answers (λ n. equal_mod_sign n val a b)
            → Found a l rest
            → Found a (b ∷ l) (λ n.
              if hash_of a == hash_of b then equal_mod_sign n val a b >>= step n else rest n)
        go h same sign (true, (k, t)) later = (
          true,
          (k, λ n g. rw (h, t n g) refl),
          λ e. inl (same, sign, test-same k a b p q.0 same (t k (omega arith))),
        )
        go h same sign (false, t) (x, s, found) =
            let both = Settles->>= (λ n. equal_mod_sign n val a b) step t s in
            (x, (both.0, λ n g. rw h (both.1 n g)), λ e. inr (found e))
