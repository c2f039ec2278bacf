-- ===== src/Engine/Deepening/Least.antt =====
-- The limits that `iterative_deepening` of lazyparam_prover/engine/engine.h tries.
use tptp_benchmark_go.Prelude.{ℕ, ◌<◌, ◌≡◌, ◌⊎◌, Bool, true, false, none, some}
use tptp_benchmark_go.Engine.Deepening.{Output}

module _ {S R : Type 0} (take : S → R) (give : R → S → S) (expired : ℕ → Bool)
    (search : ℕ → S → Bool × S) (st : S) where
  -- The search with a limit, from the first state, fails; nothing of it is left after a restore.
  abbrev pub Fails : ℕ → Type 0
  Fails i = (search i st).0 ≡ false

  -- What a search that succeeds, or a deadline, ends: no smaller limit suffices. A proof is the
  -- state that the search with the returned limit leaves; without one, that limit does not suffice
  -- either, and the deadline had passed.
  pub record Ended (out : Output S) : Type 0 where
    pub fails_below : (i : ℕ) → 0 < i → i < out.cost → Fails i
    pub in_time : (i : ℕ) → i < out.cost → expired i ≡ false
    pub ended :
        ((out.proof ≡ none) × (expired out.cost ≡ true) × (0 < out.cost → Fails out.cost))
        ⊎ ((st' : S) × (out.proof ≡ some st') × (search out.cost st ≡ (true, st')))
