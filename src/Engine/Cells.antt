-- ===== src/Engine/Cells.antt =====
-- `memory::List` of lazyparam_prover/memory/list.h: immutable linked cells in the allocator's
-- memory. A cell has its address, which `pointer_equal` compares; 0 is the null pointer.
use tptp_benchmark_go.Prelude.{ℕ, zero, suc, ◌+◌, Bool, true, false, Option, none, some, ◌==◌}

pub data Cells {ℓ} (E : Type ℓ) : Type ℓ where
  null : Cells E
  cell : ℕ → E → Cells E → Cells E

module _ {ℓ} {E : Type ℓ} where
  unfoldable pub address : Cells E → ℕ
  address null = 0
  address (cell a h t) = a

  -- `empty()`
  unfoldable pub is_empty : Cells E → Bool
  is_empty null = true
  is_empty (cell a h t) = false

  -- `size()`
  unfoldable pub size : Cells E → ℕ
  size null = 0
  size (cell a h t) = size t + 1

  -- `head()`; `none` where a debug build stops
  unfoldable pub head : Cells E → Option E
  head null = none
  head (cell a h t) = some h

  -- `tail()`; the null list where a debug build stops
  unfoldable pub tail : Cells E → Cells E
  tail null = null
  tail (cell a h t) = t

  -- `n` calls of `tail()`
  unfoldable pub drop : ℕ → Cells E → Cells E
  drop zero l = l
  drop (suc n) null = null
  drop (suc n) (cell a h t) = drop n t

  unfoldable pub pointer_equal : Cells E → Cells E → Bool
  unfolding address
  pointer_equal l m = address l == address m
