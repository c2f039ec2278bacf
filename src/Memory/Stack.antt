-- ===== src/Memory/Stack.antt =====
-- `memory::Stack` of lazyparam_prover/memory/stack.h: a bump allocator over blocks of `block`
-- bytes that is rewound by `restore` and keeps its blocks for reuse.
-- Addresses are numbers, 0 is the null pointer. `fresh k` is the address that the `k`-th
-- `new u8[BLOCK]` of this allocator returns: the C++ runtime chooses it.
pub mod Valid
pub mod Replay
use tptp_benchmark_go.Prelude.{
  ℕ, suc, ◌+◌, List, [], ◌∷◌, ◌++◌, ltb, ◌==◌, if◌then◌else◌, length, get_or,
}

-- `Stack::Save`, which is also the mutable part of the state
pub record Save : Type 0 where
  pub blocks_used : ℕ
  pub begin : ℕ
  pub end : ℕ

pub record Stack : Type 0 where
  pub blocks : List ℕ
  pub state : Save

unfoldable pub init : Stack
init = record { blocks = []; state = record { blocks_used = 0; begin = 0; end = 0 } }

unfoldable pub save : Stack → Save
save s = s.state

unfoldable pub restore : Save → Stack → Stack
restore v s = record s { state = v }

-- `auto ptr = state.begin; state.begin += s; return ptr;`
unfoldable pub bump : ℕ → Stack → ℕ × Stack
bump n s = (s.state.begin, record s { state = record (s.state) { begin = s.state.begin + n } })

module _ (block : ℕ) (fresh : ℕ → ℕ) where
  -- `if (blocks.size() == state.blocks_used) blocks.push_back(new u8[BLOCK]);`
  unfoldable pub ensure_block : Stack → List ℕ
  ensure_block s =
      if length s.blocks == s.state.blocks_used
      then s.blocks ++ (fresh (length s.blocks) ∷ [])
      else s.blocks

  -- `state.begin = blocks[state.blocks_used++]; state.end = state.begin + BLOCK;`
  unfoldable pub next_block : Stack → Stack
  unfolding ensure_block
  next_block s =
      let base = get_or (ensure_block s) s.state.blocks_used 0 in
      record {
        blocks = ensure_block s;
        state = record { blocks_used = suc s.state.blocks_used; begin = base; end = base + block };
      }

  -- the address and the new state
  unfoldable pub alloc_bytes : ℕ → Stack → ℕ × Stack
  unfolding bump next_block
  alloc_bytes n s = if ltb s.state.end (s.state.begin + n) then bump n (next_block s) else bump n s

  -- allocations of the given sizes, one after the other, with the addresses returned
  unfoldable pub alloc_all : List ℕ → Stack → List ℕ × Stack
  unfolding alloc_bytes
  alloc_all [] s = ([], s)
  alloc_all (n ∷ ns) s = let (p, t) = alloc_bytes n s in let (ps, u) = alloc_all ns t in (p ∷ ps, u)
