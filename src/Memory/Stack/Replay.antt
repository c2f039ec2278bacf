-- ===== src/Memory/Stack/Replay.antt =====
-- After `restore` the allocator of lazyparam_prover/memory/stack.h reuses its blocks.
use tptp_benchmark_go.Prelude.{
  ℕ, suc, ◌+◌, ◌≤◌, ◌≡◌, refl, sym, ap, ap₂, ◌∙◌, inl, inr, List, [], ◌∷◌, arith, ltb,
  if◌then◌else◌, Bool-cases, length, length-append,
}
use tptp_benchmark_go.Memory.Stack.{
  Stack, Save, save, restore, ensure_block, next_block, bump, alloc_bytes, alloc_all,
}
use tptp_benchmark_go.Memory.Stack.Valid.{
  IsValid, length-bases, next_block-Valid, alloc_bytes-IsValid, Fits,
}

module _ (block : ℕ) (fresh : ℕ → ℕ) where
  -- What an allocation does to `begin`, `end` and `blocks_used`, with no vector of blocks.
  step : ℕ → Save → ℕ × Save
  step n v =
      if ltb v.end (v.begin + n)
      then (
        fresh v.blocks_used,
        record {
          blocks_used = suc v.blocks_used;
          begin = fresh v.blocks_used + n;
          end = fresh v.blocks_used + block;
        },
      )
      else (v.begin, record v { begin = v.begin + n })

  steps : List ℕ → Save → List ℕ
  steps [] v = []
  steps (n ∷ ns) v = (step n v).0 ∷ steps ns (step n v).1

  alloc_bytes-step :
      (n : ℕ) {s : Stack}
      → IsValid block fresh s
      → ((alloc_bytes block fresh n s).0 ≡ (step n s.state).0)
        × ((alloc_bytes block fresh n s).1.state ≡ (step n s.state).1)
  unfolding alloc_bytes bump step
  alloc_bytes-step n {s} v = elim (Bool-cases (ltb s.state.end (s.state.begin + n))) [
    | inl e ↦
        let (w, used, begin, end) = next_block-Valid block fresh v in
        rw e (begin, λ i. record { blocks_used = used i; begin = begin i + n; end = end i })
    | inr e ↦ rw e (refl, refl)
  ]

  alloc_all-steps :
      (ns : List ℕ) {s : Stack}
      → IsValid block fresh s
      → Fits block fresh ns
      → (alloc_all block fresh ns s).0 ≡ steps ns s.state
  unfolding alloc_all steps
  alloc_all-steps [] v f = refl
  alloc_all-steps (n ∷ ns) v f =
      let (p, q) = alloc_bytes-step n v in
      ap₂ ◌∷◌ p
        (alloc_all-steps ns (alloc_bytes-IsValid block fresh n v f.0.0 f.0.1) f.1 ∙ ap (steps ns) q)

  length-alloc_bytes :
      (n : ℕ) (s : Stack) → length s.blocks ≤ length (alloc_bytes block fresh n s).1.blocks
  unfolding alloc_bytes bump next_block ensure_block
  length-alloc_bytes n s = ground (arith, length-append s.blocks (fresh (length s.blocks) ∷ []))

  alloc_all-IsValid :
      (ns : List ℕ) {s : Stack}
      → IsValid block fresh s
      → Fits block fresh ns
      → IsValid block fresh (alloc_all block fresh ns s).1
        × (length s.blocks ≤ length (alloc_all block fresh ns s).1.blocks)
  unfolding alloc_all
  alloc_all-IsValid [] v f = (v, omega arith)
  alloc_all-IsValid (n ∷ ns) {s} v f =
      let (w, l) = alloc_all-IsValid ns (alloc_bytes-IsValid block fresh n v f.0.0 f.0.1) f.1 in
      (w, omega (arith, length-alloc_bytes n s))

  -- `restore` with a save of a valid allocator, after any allocations, gives a valid allocator.
  restore-IsValid :
      {s u : Stack}
      → IsValid block fresh s
      → IsValid block fresh u
      → length s.blocks ≤ length u.blocks
      → IsValid block fresh (restore (save s) u)
  unfolding restore save
  restore-IsValid {s} {u} v w l = record {
    count = w.count;
    known = w.known;
    used = omega (
      arith,
      v.used,
      ap length v.known ∙ length-bases fresh v.count,
      ap length w.known ∙ length-bases fresh w.count,
    );
    current = v.current;
  }

  -- After a `save`, allocations and a `restore`, the same requests get the same addresses as
  -- they would have got at the save: the blocks are reused, whatever was allocated in between.
  pub alloc_all-restore :
      (ms ns : List ℕ) (s : Stack)
      → IsValid block fresh s
      → Fits block fresh ms
      → Fits block fresh ns
      → (alloc_all block fresh ns (restore (save s) (alloc_all block fresh ms s).1)).0
        ≡ (alloc_all block fresh ns s).0
  unfolding restore save
  alloc_all-restore ms ns s v f g =
      let (w, l) = alloc_all-IsValid ms v f in
      alloc_all-steps ns (restore-IsValid v w l) g ∙ sym (alloc_all-steps ns v g)
