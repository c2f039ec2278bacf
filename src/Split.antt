-- ===== src/Split.antt =====
-- lazyparam_prover/lazy_paramodulation/split.h: paths to the subterms of terms and atoms. A path is
-- an immutable list of argument positions, here a List.
pub mod Laws
use tptp_benchmark_go.Prelude.{
  ℕ, ◌+◌, Bool, true, false, Option, none, some, ◌>>=◌, List, [], ◌∷◌, ◌++◌, map, reverse,
}
use tptp_benchmark_go.Syntax.Term.{Term, Terms, var, fun, nil, cons, arg, set_arg}
use tptp_benchmark_go.Syntax.Atom
use tptp_benchmark_go.Syntax.Atom.{Atom}

-- the loop of `AtomPath::get`; `none` is an argument of a variable or past the last one
unfoldable pub get_at : Term → List ℕ → Option Term
get_at t [] = some t
get_at (var i) (k ∷ p) = none
get_at (fun f ts) (k ∷ p) = arg ts k >>= λ u. get_at u p

-- the recursive `AtomPath::replace`
unfoldable pub replace_at : Term → List ℕ → Term → Option Term
replace_at t [] a = some a
replace_at (var i) (k ∷ p) a = none
replace_at (fun f ts) (k ∷ p) a =
    arg ts k >>= λ u. replace_at u p a >>= λ v. some (fun f (set_arg ts k v))

pub record AtomPath : Type 0 where
  pub atom : Atom
  pub i : ℕ
  pub path : List ℕ

-- `get()`
unfoldable pub get : AtomPath → Option Term
unfolding get_at
get p = arg p.atom.args p.i >>= λ t. get_at t p.path

-- `replace(x, a)`
unfoldable pub replace : AtomPath → Term → Option Atom
unfolding replace_at
replace p a =
    arg p.atom.args p.i >>= λ t. replace_at t p.path a >>= λ u. some (Atom.replace_arg p.i u p.atom)

-- `paths(A, t)`: to all subterms that are not variables. Each path is pushed to the front.
unfoldable mutual
  pub paths : Term → List (List ℕ)
  paths (var i) = []
  paths (fun f ts) = paths_args 0 ts ++ ([] ∷ [])

  pub paths_args : ℕ → Terms → List (List ℕ)
  paths_args i nil = []
  paths_args i (cons t ts) = reverse (map (λ p. i ∷ p) (paths t)) ++ paths_args (i + 1) ts

-- `paths(A, a)` for an atom
unfoldable pub atom_paths_from : Atom → ℕ → Terms → List AtomPath
unfolding paths
atom_paths_from a i nil = []
atom_paths_from a i (cons t ts) =
    reverse (map (λ p. record { atom = a; i = i; path = p }) (paths t))
    ++ atom_paths_from a (i + 1) ts

unfoldable pub atom_paths : Atom → List AtomPath
unfolding atom_paths_from
atom_paths a = atom_paths_from a 0 a.args
