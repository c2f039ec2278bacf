-- ===== src/Order/FunOrd.antt =====
-- lazyparam_prover/fun_ord.h: the precedence of functors. A size is an `int64_t`; it is held here
-- with 2^63 added, which keeps the order and makes the default, the largest one, 2^64 - 1.
use Prim.Native.String.{String}
use text.Mathlib.Text.{◌==◌ as str_eq}
use tptp_benchmark_go.Prelude.{
  ℕ, ◌+◌, ◌-◌, ◌^◌, ◌≡◌, ◌≢◌, Bool, true, false, Option, none, some, ◌>>=◌, ltb, ◌==◌,
  if◌then◌else◌, List, [], ◌∷◌, length, get_or, set, resize, arith, not, leb,
}

abbrev pub default_size : ℕ
default_size = 2 ^ 64 - 1

-- an entry of the message `solutions.FunOrd`
pub record FunSize : Type 0 where
  pub name : String
  pub size : ℕ

-- what is read of a `tptp.Node`: whether it is a `TERM_FUN`, its id (`none` if negative), its name
pub record Node : Type 0 where
  pub is_fun : Bool
  pub id : Option ℕ
  pub name : String

pub record FunOrd : Type 0 where
  pub by_id : List ℕ

-- the default constructor
abbrev pub no_ord : FunOrd
no_ord = record { by_id = [] }

-- `by_name`: a later entry of a name replaces an earlier one
unfoldable pub find_size : List FunSize → String → Option ℕ
find_size [] n = none
find_size (f ∷ fs) n =
    let rest = find_size fs n in
    elim rest [ some s ↦ some s | none ↦ if str_eq f.name n then some f.size else none ]

-- `if (f.name() == "") error(...)`
unfoldable pub names_valid : List FunSize → Bool
names_valid [] = true
names_valid (f ∷ fs) = if str_eq f.name "" then false else names_valid fs

-- one node: `by_id` is enlarged to hold it, and set if the name has a size
unfoldable pub add_node : List FunSize → Node → List ℕ → Option (List ℕ)
unfolding find_size
add_node funs n by_id =
    if n.is_fun
    then (n.id >>= λ i.
        let grown = if leb (length by_id) i then resize (i + 1) default_size by_id else by_id in
        some (elim (find_size funs n.name) [ none ↦ grown | some s ↦ set grown i s ]))
    else some by_id

unfoldable pub add_nodes : List FunSize → List Node → List ℕ → Option (List ℕ)
unfolding add_node
add_nodes funs [] by_id = some by_id
add_nodes funs (n ∷ ns) by_id = add_node funs n by_id >>= λ m. add_nodes funs ns m

-- `FunOrd(proto, nodes)`; `none` is `error(...)`
unfoldable pub build : List FunSize → List Node → Option FunOrd
unfolding names_valid add_nodes
build funs nodes =
    if names_valid funs
    then (add_nodes funs nodes [] >>= λ l. some (record { by_id = l }))
    else none

unfoldable pub size_of : FunOrd → ℕ → ℕ
size_of o f = get_or o.by_id f default_size

-- `s1 != s2 ? s1 < s2 : f1 < f2`
unfoldable pub less_by : ℕ → ℕ → ℕ → ℕ → Bool
less_by a b f g = if not (a == b) then ltb a b else ltb f g

unfoldable pub less : FunOrd → ℕ → ℕ → Bool
unfolding size_of less_by
less o f g = less_by (size_of o f) (size_of o g) f g

less_by_trans :
    (a b c f g h : ℕ)
    → less_by a b f g ≡ true
    → less_by b c g h ≡ true
    → (less_by a c f h ≡ true) × (less_by c a h f ≡ false)
unfolding less_by
less_by_trans a b c f g h p q = (ground arith, ground arith)

less_by_swap : (a b f g : ℕ) → f ≢ g → less_by b a g f ≡ not (less_by a b f g)
unfolding less_by
less_by_swap a b f g ne = ground arith

-- `less` is transitive, and its converse fails along a chain: it is a strict order on functors.
pub less_trans :
    (o : FunOrd) (f g h : ℕ)
    → less o f g ≡ true
    → less o g h ≡ true
    → (less o f h ≡ true) × (less o h f ≡ false)
unfolding less
less_trans o f g h p q = less_by_trans (size_of o f) (size_of o g) (size_of o h) f g h p q

-- Of two different functors exactly one is less than the other, whatever sizes they were given.
less_swap : (o : FunOrd) (f g : ℕ) → f ≢ g → less o g f ≡ not (less o f g)
unfolding less
less_swap o f g ne = less_by_swap (size_of o f) (size_of o g) f g ne
