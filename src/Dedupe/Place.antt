-- ===== src/Dedupe/Place.antt =====
-- src/pba.c (dedupe_pba_search): the physical block that a logical block is written to.
pub mod Mapping
pub mod Stored
use imr_dedupe.Prelude.{
  ℕ, ◌+◌, ◌%◌, ◌^◌, Bool, true, false, not, ◌&&◌, List, Option, none, some, ltb, if◌then◌else◌,
  update, Outcome, ok, ◌>>=◌, ◌>>◌, require, undefined,
}
use imr_dedupe.Disk.{
  Hash, hash_eq, BbEntry, Block, Disk, LtpEntry, add32, in_use, is_in_use, is_trimed,
}
use imr_dedupe.Zalloc.Find.{zalloc_find_next_pba}
use imr_dedupe.Dedupe.{lba_to_pba, dedupe_update_ltp_table, set_block}
use imr_dedupe.Dedupe.Search.{is_in_storage, find_swapped_pba}
use imr_dedupe.Dedupe.Swap.{dedu_update}

-- The macros NEW_ALLOC, TRIM and TRIM_V2, `qsort`, and the fuel of the allocation.
pub record Setting : Type 0 where
  pub new_alloc : Bool
  pub trim : Bool
  pub trim_v2 : Bool
  pub qsort : List BbEntry → List BbEntry
  pub fuel : ℕ

-- `is_storage_data_valid(d, pba) && DEDU_is_ltp_mapping_valid(d, lba, hash)`
unfoldable pub dedupe_is_lba_valid : Disk → ℕ → Outcome Bool
dedupe_is_lba_valid d lba =
    let pba = lba_to_pba d lba in
    require (ltb pba d.report.max_block_num) undefined
    >> ok (is_in_use (d.storage pba).status && (d.ltp lba).valid)

-- `d->storage[pba].referenced_count++; d->report.disk_has_dedupe = true;`
abbrev pub share : Disk → ℕ → Disk
share d pba =
    let b = d.storage pba in
    record (set_block d pba (record b { referenced_count = add32 b.referenced_count 1 })) {
      report = record d.report { disk_has_dedupe = true };
    }

-- The results are the disk, the block, and `*pass`.
abbrev pub Placed : Type 0
Placed = Disk × ℕ × Bool

-- A logical block that gets another content.
unfoldable pub overwrite : Setting → Disk → (lba : ℕ) → Hash → Bool → Outcome Placed
overwrite s d lba hash pass = dedu_update s.qsort s.trim s.trim_v2 d (lba_to_pba d lba) >>= λ r.
    ok (dedupe_update_ltp_table r.0 lba r.1 hash, r.1, pass)

-- The content of a logical block that was trimmed is written again: it may have moved.
unfoldable pub relocate : Disk → (lba pba temp : ℕ) → Hash → Outcome Placed
relocate d lba pba temp hash =
    let found = if ltb temp d.report.max_block_num then temp else pba in
    let d' = if is_trimed (d.storage found).status then d else share d found in
    ok (dedupe_update_ltp_table d' lba found hash, found, true)

unfoldable pub restore : Disk → ℕ → Hash → Outcome Placed
restore d lba hash =
    let pba = lba_to_pba d lba in
    if hash_eq hash (d.storage pba).hash
    then ok (dedupe_update_ltp_table d lba pba hash, pba, true)
    else find_swapped_pba d hash >>= λ temp. relocate d lba pba temp hash

-- The hash is stored already, in the block `pba`.
abbrev pub own : Disk → (pba lba : ℕ) → Disk
own d pba lba =
    let b = d.storage pba in
    set_block d pba (record b { status = in_use; lba = update b.lba 0 lba })

unfoldable pub reuse : Disk → (lba pba : ℕ) → Hash → Bool → Placed
reuse d lba pba hash pass =
    let d' = dedupe_update_ltp_table d lba pba hash in
    if is_trimed (d'.storage pba).status
    then (own d' pba lba, pba, true)
    else (share d' pba, pba, pass)

unfoldable pub allocate : Setting → Disk → ℕ → Hash → Bool → Outcome Placed
allocate s d lba hash pass = zalloc_find_next_pba s.new_alloc s.fuel d >>= λ r.
    ok (dedupe_update_ltp_table r.0 lba r.1 hash, r.1, pass)

-- The first write of a logical block: whether the hash is stored decides.
unfoldable pub first_write : Setting → Disk → ℕ → Hash → Bool → Option ℕ → Outcome Placed
first_write s d lba hash pass none = allocate s d lba hash pass
first_write s d lba hash pass (some pba) =
    if (d.ltp lba).valid then allocate s d lba hash pass else ok (reuse d lba pba hash pass)

unfoldable pub search_by_state : Setting → Disk → ℕ → Hash → Bool → (valid : Bool) → Outcome Placed
search_by_state s d lba hash pass valid =
    let e = d.ltp lba in
    if e.trim && not valid
    then (if hash_eq e.hash hash then restore d lba hash else overwrite s d lba hash pass)
    else if not e.trim && valid
    then (if hash_eq e.hash hash
        then ok (d, lba_to_pba d lba, true)
        else overwrite s d lba hash pass)
    else is_in_storage s.new_alloc d hash >>= first_write s d lba hash pass

-- The argument `dedupe` has no effect on the allocation.
unfoldable pub dedupe_pba_search : Setting → Disk → ℕ → Hash → Bool → Outcome Placed
dedupe_pba_search s d lba hash pass = do
  require (ltb lba d.report.max_logical_block_num) undefined
  valid ← dedupe_is_lba_valid d lba
  search_by_state s d lba hash pass valid
