-- ===== src/Unify/Settle.antt =====
-- Functions on fuel (Unify, Order/Lpo) that give the same result for all fuel from some amount on.
use tptp_benchmark_go.Prelude.{
  ℕ, zero, suc, ◌+◌, ◌≤◌, ◌≡◌, sym, ap, ◌∙◌, Option, some, ◌>>=◌, some_eq, arith,
}

-- With fuel `k` or more the result is `r`.
abbrev pub SettlesAt {ℓ} : {A : Type ℓ} → ℕ → (ℕ → Option A) → A → Type ℓ
SettlesAt k f r = (n : ℕ) → k ≤ n → f n ≡ some r

-- From some amount of fuel on the result is `r`.
abbrev pub Settles {ℓ} : {A : Type ℓ} → (ℕ → Option A) → A → Type ℓ
Settles f r = (k : ℕ) × SettlesAt k f r

pub Settles-same {ℓ} : {A : Type ℓ} {f : ℕ → Option A} {a b : A} → Settles f a → Settles f b → a ≡ b
Settles-same (k, p) (l, q) = some_eq (sym (p (k + l) (omega arith)) ∙ q (k + l) (omega arith))

-- The function that needs one unit more.
pub Settles-suc {ℓ} :
    {A : Type ℓ} (f : ℕ → Option A) {a : A} → Settles (λ n. f (suc n)) a → Settles f a
Settles-suc f {a} (k, p) = (suc k, go)
  where
    go : (n : ℕ) → suc k ≤ n → f n ≡ some a
    go zero h = absurd (omega arith)
    go (suc n) h = p n (omega arith)

pub Settles->>= {ℓ κ} :
    {A : Type ℓ} {B : Type κ} (f : ℕ → Option A) (g : ℕ → A → Option B) {a : A} {b : B}
    → Settles f a
    → Settles (λ n. g n a) b
    → Settles (λ n. f n >>= g n) b
Settles->>= f g (k, p) (l, q) =
    (k + l, λ n h. ap (λ m. m >>= g n) (p n (omega arith)) ∙ q n (omega arith))

pub Settles-eq {ℓ} :
    {A : Type ℓ} (f g : ℕ → Option A) {a : A} → ((n : ℕ) → f n ≡ g n) → Settles g a → Settles f a
Settles-eq f g e (k, p) = (k, λ n h. e n ∙ p n h)
