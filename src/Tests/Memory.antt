-- ===== src/Tests/Memory.antt =====
-- The allocator, the arrays and their theorems on small inputs.
use tptp_benchmark_go.Prelude.{ℕ, ◌+◌, ◌*◌, ◌≡◌, refl, inl, none, some, [], ◌∷◌, arith}
use tptp_benchmark_go.Memory.Rewind
use tptp_benchmark_go.Memory.Rewind.{RewindArray}
use tptp_benchmark_go.Memory.Rewind.Laws.{write, enlarge, run, Legal, restore-run}
use tptp_benchmark_go.Memory.Reset.{reset}
use tptp_benchmark_go.Memory.Reset.Laws.{write_all, clean, reset-write_all}
use tptp_benchmark_go.Memory.Stack
use tptp_benchmark_go.Memory.Stack.{init, alloc_all}
use tptp_benchmark_go.Memory.Stack.Valid.{
  IsValid, Beyond, Separate, AllApart, Each, alloc_all-Beyond, alloc_all-AllApart,
}
use tptp_benchmark_go.Memory.Stack.Replay.{alloc_all-restore}

abbrev two_cells : RewindArray ℕ
two_cells = record { cells = none ∷ some 4 ∷ []; diffs = 1 ∷ [] }

restore-run_example :
    Rewind.restore (Rewind.save two_cells) (run (write 0 8 ∷ enlarge 5 ∷ write 3 9 ∷ []) two_cells)
    ≡ two_cells
unfolding Legal Rewind.put Rewind.grow
restore-run_example =
    restore-run two_cells (write 0 8 ∷ enlarge 5 ∷ write 3 9 ∷ []) (refl, (omega arith, (refl, tt)))

reset-write_all_example :
    reset {E = ℕ} 0 (write_all ((2, 7) ∷ (0, 1) ∷ (2, 5) ∷ []) (clean 4 0)) ≡ clean 4 0
reset-write_all_example = reset-write_all 4 0 ((2, 7) ∷ (0, 1) ∷ (2, 5) ∷ [])

-- blocks of 16 bytes, 100 bytes apart
abbrev fresh_block : ℕ → ℕ
fresh_block k = 100 * k + 100

init-IsValid : IsValid 16 fresh_block init
unfolding init
init-IsValid = record {
  count = 0;
  known = refl;
  used = omega arith;
  current = inl (refl, refl, refl);
}

fresh_block-Separate : Separate 16 fresh_block
fresh_block-Separate i j h = inl (omega arith)

alloc_all-Beyond_example :
    Each 16 fresh_block
      (Beyond 16 fresh_block init.state)
      (10 ∷ 10 ∷ 6 ∷ [])
      (alloc_all 16 fresh_block (10 ∷ 10 ∷ 6 ∷ []) init).0
alloc_all-Beyond_example =
    alloc_all-Beyond 16 fresh_block (10 ∷ 10 ∷ 6 ∷ []) init init-IsValid
      ((omega arith, omega arith), ((omega arith, omega arith), ((omega arith, omega arith), tt)))

alloc_all-AllApart_example :
    AllApart 16 fresh_block (10 ∷ 10 ∷ 6 ∷ []) (alloc_all 16 fresh_block (10 ∷ 10 ∷ 6 ∷ []) init).0
alloc_all-AllApart_example =
    alloc_all-AllApart 16 fresh_block (10 ∷ 10 ∷ 6 ∷ []) init fresh_block-Separate init-IsValid
      ((omega arith, omega arith), ((omega arith, omega arith), ((omega arith, omega arith), tt)))

alloc_all-restore_example :
    (alloc_all 16 fresh_block
      (8 ∷ [])
      (Stack.restore (Stack.save init) (alloc_all 16 fresh_block (10 ∷ 10 ∷ []) init).1)).0
    ≡ (alloc_all 16 fresh_block (8 ∷ []) init).0
alloc_all-restore_example =
    alloc_all-restore 16 fresh_block (10 ∷ 10 ∷ []) (8 ∷ []) init init-IsValid
      ((omega arith, omega arith), ((omega arith, omega arith), tt))
      ((omega arith, omega arith), tt)
