-- ===== src/Dedupe/Swap.antt =====
-- src/active_swap.c and src/pba.c (DEDU_update): a bottom track that is to be written again changes
-- places with a top track.
pub mod Items
pub mod Owners
pub mod Content
use imr_dedupe.Prelude.{
  ℕ, zero, suc, ◌+◌, ◌/◌, ◌%◌, ◌^◌, Bool, true, false, not, ◌&&◌, List, none, some, ◌==◌, ltb,
  if◌then◌else◌, update, Outcome, ok, ◌>>=◌, ◌>>◌, require, undefined,
}
use imr_dedupe.Disk.{BbEntry, Disk, add32, add64, is_in_use, is_trimed, is_toptrack}
use imr_dedupe.BlockIo.{rw_block}
use imr_dedupe.HashTable.{insert, delete_item}
use imr_dedupe.Zalloc.{sub64}
use imr_dedupe.Dedupe.Search.{find_block, minus_one, is_minus_one, find_empty_block_swap}

-- `entry[lba].pba = pba`, for the logical block `i` of the block and the `n - 1` after it
unfoldable pub move_lbas : (from pba n i : ℕ) → Disk → Outcome Disk
move_lbas from pba zero i d = ok d
move_lbas from pba (suc n) i d = do
  let b = d.storage from
  let lba = b.lba i
  require (ltb i b.lba_capacity && ltb lba d.report.max_logical_block_num) undefined
  move_lbas from pba n (i + 1)
      (record d { ltp = update d.ltp lba (record (d.ltp lba) { pba = pba }) })

-- `new_pba` is an `unsigned`.
unfoldable pub ltp_table_swap : Disk → (old_pba new_pba : ℕ) → Outcome Disk
ltp_table_swap d old_pba new_pba = do
  let new = new_pba % 2 ^ 32
  d' ← move_lbas old_pba new (add32 (d.storage old_pba).referenced_count 1) 0 d
  move_lbas new old_pba (add32 (d'.storage new).referenced_count 1) 0 d'

-- All fields of a block are copied, so that the two blocks change places.
abbrev pub swap_blocks : Disk → (from to : ℕ) → Disk
swap_blocks d from to = record d {
  storage = update (update d.storage to (d.storage from)) from (d.storage to);
}

unfoldable pub block_info_swap : Disk → (from to : ℕ) → Outcome Disk
block_info_swap d from to = do
  (_, d₁) ← delete_item d (d.storage from).hash
  (_, d₂) ← delete_item d₁ (d₁.storage to).hash
  let d₃ = swap_blocks d₂ from to
  d₄ ← insert d₃ (d₃.storage from).hash from
  insert d₄ (d₄.storage to).hash to

-- The part under TRIM_V2, which is the first argument.
unfoldable pub find_unshared : Bool → Disk → Outcome ℕ
find_unshared trim_v2 d =
    if trim_v2
    then (find_block (λ b. b.referenced_count == 0) d 2 ((d.report.max_block_num + 1) / 2) 0
        >>= λ found. ok (elim found [ some i ↦ i | none ↦ minus_one ]))
    else ok minus_one

unfoldable pub find_unused_bottom_block : Bool → Disk → Outcome (ℕ × Disk)
find_unused_bottom_block trim_v2 d =
    if d.is_bottom_has_trimed_track
    then (find_block (λ b. is_trimed b.status) d 2 ((d.report.max_block_num + 1) / 2) 0 >>= λ found.
        elim found [
          | some i ↦ ok (i, d)
          | none ↦ find_unshared trim_v2 d >>= λ i.
              ok (i, record d { is_bottom_has_trimed_track = false })
        ])
    else find_unshared trim_v2 d >>= λ i. ok (i, d)

-- The owners that are looked at are those of block 0.
unfoldable pub is_top_should_be_swap : Disk → ℕ → Bool
is_top_should_be_swap d tba =
    is_in_use (d.storage tba).status && ltb 0 (d.storage 0).referenced_count

module _ (qsort : List BbEntry → List BbEntry) where
  unfoldable pub create_block_swap : Disk → (from to : ℕ) → Outcome Disk
  create_block_swap d from to = do
    let count = add64 d.report.current_block_swap_count 1
    d₁ ←
        rw_block qsort (record d { report = record d.report { current_block_swap_count = count } })
          from to
    d₂ ← ltp_table_swap d₁ from to
    block_info_swap d₂ to from

  unfoldable pub swap_back : Disk → (tba bba swap_bba : ℕ) → Outcome Disk
  swap_back d tba bba swap_bba =
      if not (swap_bba == bba) && not (is_minus_one swap_bba)
      then (create_block_swap d tba swap_bba >>= λ d'. ok (record d' {
        report = record d'.report { reversion_swap_count = add64 d'.report.reversion_swap_count 1 };
      }))
      else ok d

  unfoldable pub inversion_swap : Bool → Disk → (tba bba : ℕ) → Outcome Disk
  inversion_swap trim_v2 d tba bba =
      require (ltb tba d.report.max_block_num) undefined
      >> (if is_top_should_be_swap d tba
          then (find_unused_bottom_block trim_v2 d >>= λ r. swap_back r.1 tba bba r.0)
          else ok d)

  -- The part under TRIM
  unfoldable pub inversion_swaps : Bool → Disk → ℕ → Outcome Disk
  inversion_swaps trim_v2 d bba = do
    d' ← (if bba == 0 then ok d else inversion_swap trim_v2 d (sub64 bba 1) bba)
    inversion_swap trim_v2 d' (add64 bba 1) bba

  unfoldable pub dedu_run_block_swap : (trim trim_v2 : Bool) → Disk → ℕ → Outcome (Disk × ℕ)
  dedu_run_block_swap trim trim_v2 d bba = do
    d₁ ← (if trim then inversion_swaps trim_v2 d bba else ok d)
    let tba = find_empty_block_swap d₁
    d₂ ← (if is_minus_one tba then ok d₁ else create_block_swap d₁ tba bba)
    ok (d₂, tba)

  -- Whether a neighbour of the bottom track is in use. The second one is looked at only if the
  -- first is not.
  unfoldable pub has_top_in_use : Disk → ℕ → Outcome Bool
  has_top_in_use d pba =
      let prev_track = sub64 pba 1 in
      let next_track = add64 pba 1 in
      require (ltb prev_track d.report.max_block_num) undefined
      >> (if is_in_use (d.storage prev_track).status
          then ok true
          else require (ltb next_track d.report.max_block_num) undefined
            >> ok (is_in_use (d.storage next_track).status))

  unfoldable pub swap_unshared : (trim trim_v2 : Bool) → Disk → ℕ → Bool → Outcome (Disk × ℕ)
  swap_unshared trim trim_v2 d pba spoils =
      if spoils && (d.storage pba).referenced_count == 0
      then (dedu_run_block_swap trim trim_v2 d pba >>= λ r.
          ok (if is_minus_one r.1 then (r.0, pba) else r))
      else ok (d, pba)

  unfoldable pub dedu_update : (trim trim_v2 : Bool) → Disk → ℕ → Outcome (Disk × ℕ)
  dedu_update trim trim_v2 d pba =
      if is_toptrack pba
      then ok (d, pba)
      else has_top_in_use d pba >>= swap_unshared trim trim_v2 d pba
