-- ===== src/Dedupe/Search.antt =====
-- src/pba.c (is_in_storage, find_swapped_pba) and src/block_swap.c (find_empty_block_swap): the
-- searches for a block.
pub mod Least
pub mod Most
use imr_dedupe.Prelude.{
  ℕ, zero, suc, ◌+◌, ◌-◌, ◌/◌, ◌%◌, ◌^◌, Bool, true, false, ◌&&◌, Option, none, some, min, ltb,
  if◌then◌else◌, Outcome, ok, stop, ◌>>=◌, undefined, ◌==◌,
}
use imr_dedupe.Disk.{Hash, hash_eq, Block, Disk, add64, is_phase1, is_in_use}

-- The first of the blocks `i`, `i + step`, ..., of which there are `n`, that passes the test.
unfoldable pub find_block : (Block → Bool) → Disk → (step n i : ℕ) → Outcome (Option ℕ)
find_block test d step zero i = ok none
find_block test d step (suc n) i = elim (ltb i d.report.max_block_num) [
  | false ↦ stop undefined
  | true ↦ elim (test (d.storage i)) [
    | true ↦ ok (some i)
    | false ↦ find_block test d step n (i + step)
  ]
]

abbrev pub phase1_total_block_num : Disk → ℕ
phase1_total_block_num d = let n = d.report.max_track_num in if n % 2 == 0 then n / 2 else n / 2 + 1

-- In phase 1 the bottom tracks, as many as there are blocks in use; later all blocks.
unfoldable pub find_in_phase : (Block → Bool) → Disk → Outcome (Option ℕ)
find_in_phase test d =
    if is_phase1 d.zinfo.phases
    then find_block test d 2 (min (phase1_total_block_num d) d.report.current_use_block_num)
        d.zinfo.phase1_start
    else find_block test d 1 d.report.max_block_num 0

-- The argument is whether NEW_ALLOC is defined. `none` for the return value false.
unfoldable pub is_in_storage : Bool → Disk → Hash → Outcome (Option ℕ)
is_in_storage new_alloc d hash =
    if new_alloc
    then find_block (λ b. hash_eq b.hash hash) d 1 d.report.max_block_num 0
    else find_in_phase (λ b. hash_eq b.hash hash) d

-- `line_cnt` serves a debug output alone.
unfoldable pub find_swapped_pba : Disk → Hash → Outcome ℕ
find_swapped_pba d hash = do
  found ← find_in_phase (λ b. is_in_use b.status && hash_eq b.hash hash) d
  ok (elim found [ some i ↦ i | none ↦ add64 d.report.max_block_num 100 ])

-- `(unsigned long)-1`
abbrev pub minus_one : ℕ
minus_one = 2 ^ 64 - 1

-- `(signed)n == -1`
abbrev pub is_minus_one : ℕ → Bool
is_minus_one n = n % 2 ^ 32 == 2 ^ 32 - 1

-- The rounds of the loop from track `i` on, with the best track so far and its owners.
unfoldable pub most_shared : Disk → (n i max_referced_count pba : ℕ) → ℕ
most_shared d zero i max_referced_count pba = pba
most_shared d (suc n) i max_referced_count pba =
    let b = d.storage i in
    elim (is_in_use b.status && ltb max_referced_count b.referenced_count) [
      | true ↦ most_shared d n (i + 2) b.referenced_count i
      | false ↦ most_shared d n (i + 2) max_referced_count pba
    ]

-- The disk has as many blocks as tracks, so the loop stays in bounds.
unfoldable pub find_empty_block_swap : Disk → ℕ
find_empty_block_swap d = most_shared d (d.report.max_track_num / 2) 1 0 minus_one
