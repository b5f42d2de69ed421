-- ===== src/Dedupe/Flush.antt =====
-- src/lba.c (buffer_flush and dedupe_lba_write_p1_buf): the slots of the buffer are written out, and
-- the write that fills them, which is `new_alloc` of the disk's operations.
use imr_dedupe.Prelude.{
  ℕ, zero, suc, ◌+◌, ◌-◌, Bool, true, false, ◌&&◌, ◌||◌, Option, none, some, ◌==◌, ltb,
  if◌then◌else◌, update, Outcome, ok, stop, ◌>>=◌, ◌>>◌, require, undefined, aborted, exit_failure,
  jumped, out_of_fuel,
}
use imr_dedupe.Disk.{
  Hash, hash_eq, Block, BufferBlock, Disk, add32, add64, is_trimed, is_phase1, p1_buf_num,
}
use imr_dedupe.Batch.{batch_add}
use imr_dedupe.HashTable.{insert, delete_item}
use imr_dedupe.Zalloc.Find.{zalloc_find_next_pba}
use imr_dedupe.Dedupe.{lba_to_pba, dedupe_update_ltp_table, set_block}
use imr_dedupe.Dedupe.Search.{is_in_storage, find_swapped_pba}
use imr_dedupe.Dedupe.Swap.{dedu_update}
use imr_dedupe.Dedupe.Place.{Setting, Placed, dedupe_is_lba_valid, dedupe_pba_search, share}
use imr_dedupe.Dedupe.Buffer.{room, set_used, buffer_write}
use imr_dedupe.Dedupe.Write.{
  increase_storage_lba_capacity, is_lba_in_storage, add_owner, write_shared, write_own, write_out,
}

-- `while (lba_capacity < need) increase_storage_lba_capacity(...)`: after 32 rounds the capacity, an
-- `unsigned`, is 0 and stays so.
unfoldable pub grow : (fuel need : ℕ) → Block → Outcome Block
grow zero need b = stop out_of_fuel
grow (suc fuel) need b = elim (ltb b.lba_capacity need) [
  | true ↦ grow fuel need (increase_storage_lba_capacity b)
  | false ↦ ok b
]

unfoldable pub grow_block : Disk → (pba need : ℕ) → Outcome Disk
grow_block d pba need = grow 33 need (d.storage pba) >>= λ b. ok (set_block d pba b)

-- The owners of the slot from the `k`-th on, of which there are `n`, go into the block from `base`
-- on, and are mapped to it.
unfoldable pub copy_owners : BufferBlock → (pba base n k : ℕ) → Disk → Outcome Disk
copy_owners slot pba base zero k d = ok d
copy_owners slot pba base (suc n) k d = do
  let b = d.storage pba
  let lba = slot.lba k
  require (ltb k (room slot) && ltb (base + k) b.lba_capacity) undefined
  require (ltb lba d.report.max_logical_block_num) undefined
  let d' = set_block d pba (record b { lba = update b.lba (base + k) lba })
  copy_owners slot pba base n (k + 1) (dedupe_update_ltp_table d' lba pba slot.hash)

-- The content was trimed and is stored elsewhere: the block gets the owners of the slot as well.
unfoldable pub join_block : BufferBlock → Disk → (pba : ℕ) → Outcome Disk
join_block slot d pba = do
  let b = d.storage pba
  let idx = add32 b.referenced_count 1
  let count = add32 idx (add32 slot.referenced_count 1)
  let d₁ = set_block d pba (record b { referenced_count = count })
  let d₂ = record d₁ { report = record d.report { disk_has_dedupe = true } }
  d₃ ← grow_block d₂ pba (add32 count 1)
  let from = add32 idx 1
  copy_owners slot pba from (add32 count 1 - from) 0 d₃

-- `batch_add(d, pba, &gbtable); batch_write(d, &gbtable);`
unfoldable pub write_now : Setting → Disk → (pba : ℕ) → Outcome Disk
write_now s d pba =
    write_out s (record d { gbtable = batch_add pba d.gbtable }, false) >>= λ r. ok r.0

-- The block gets the content and the owners of the slot.
unfoldable pub take_block : Setting → BufferBlock → Disk × ℕ → Outcome Disk
take_block s slot (d, pba) = do
  require (ltb pba d.report.max_block_num) aborted
  (_, d₁) ← delete_item d (d.storage pba).hash
  d₂ ← insert d₁ slot.hash pba
  let b = d₂.storage pba
  let count = slot.referenced_count
  let d₃ = set_block d₂ pba (record b { referenced_count = count; hash = slot.hash })
  d₄ ← grow_block d₃ pba count
  d₅ ← copy_owners slot pba 0 (add32 count 1) 0 d₄
  write_now s d₅ pba

-- The first logical block of the slot was trimed with the content that the slot has.
unfoldable pub flush_restored : Setting → BufferBlock → Disk → (pba : ℕ) → Outcome Disk
flush_restored s slot d pba =
    require (ltb pba d.report.max_block_num) undefined
    >> (if hash_eq slot.hash (d.storage pba).hash
        then take_block s slot (d, pba)
        else (find_swapped_pba d slot.hash >>= λ position.
            let found = if ltb position d.report.max_block_num then position else pba in
            if is_trimed (d.storage found).status
            then take_block s slot (d, found)
            else join_block slot d found))

unfoldable pub flush_trimed : Setting → BufferBlock → Disk → Outcome Disk
flush_trimed s slot d =
    let lba = slot.lba 0 in
    let pba = lba_to_pba d lba in
    if hash_eq (d.ltp lba).hash slot.hash
    then flush_restored s slot d pba
    else (dedu_update s.qsort s.trim s.trim_v2 d pba >>= take_block s slot)

-- The old content leaves the hash table after the block was found.
unfoldable pub flush_valid : Setting → BufferBlock → Disk → Outcome Disk
flush_valid s slot d = do
  let lba = slot.lba 0
  (d₁, pba) ← dedu_update s.qsort s.trim s.trim_v2 d (lba_to_pba d lba)
  (_, d₂) ← delete_item d₁ (d₁.ltp lba).hash
  take_block s slot (d₂, pba)

unfoldable pub flush_by_state : Setting → BufferBlock → Disk → (trim valid : Bool) → Outcome Disk
flush_by_state s slot d true valid = flush_trimed s slot d
flush_by_state s slot d false true = flush_valid s slot d
flush_by_state s slot d false false =
    zalloc_find_next_pba s.new_alloc s.fuel d >>= take_block s slot

unfoldable pub flush_slot : Setting → (i : ℕ) → Disk → Outcome Disk
flush_slot s i d = do
  let slot = d.phase1_buf i
  let lba = slot.lba 0
  require (ltb lba d.report.max_logical_block_num) undefined
  valid ← (if (d.ltp lba).trim then ok false else dedupe_is_lba_valid d lba)
  flush_by_state s slot d (d.ltp lba).trim valid

-- The slots from `i` on, of which there are `n`; all of them are written, used or not.
unfoldable pub flush_slots : Setting → (n i : ℕ) → Disk → Outcome Disk
flush_slots s zero i d = ok d
flush_slots s (suc n) i d = flush_slot s i d >>= flush_slots s n (i + 1)

unfoldable pub buffer_flush : Setting → Disk → Outcome Disk
buffer_flush s d = flush_slots s p1_buf_num 0 d >>= λ e. ok (set_used e 0)

-- In phase 1: a content that is stored is shared, any other goes into the buffer.
unfoldable pub share_stored : Disk → (lba pba : ℕ) → Hash → Outcome Disk
share_stored d lba pba hash =
    let d₁ = dedupe_update_ltp_table d lba pba hash in
    write_shared (if is_trimed (d₁.storage pba).status then d₁ else share d₁ pba) pba lba hash

unfoldable pub write_phase1 : Setting → Disk → (lba : ℕ) → Hash → Option ℕ → Outcome Disk
write_phase1 s d lba hash none = buffer_write (buffer_flush s) d lba hash
write_phase1 s d lba hash (some pba) =
    if (d.ltp lba).valid
    then buffer_write (buffer_flush s) d lba hash
    else share_stored d lba pba hash

-- After phase 1, the buffer is written out once.
unfoldable pub flush_once : Setting → Disk → Outcome Disk
flush_once s d =
    if d.report.buffer_flushed
    then ok d
    else (buffer_flush s d >>= λ e.
        ok (record e { report = record e.report { buffer_flushed = true } }))

-- As `write_shared`, but for the test by which the block grows.
unfoldable pub write_shared_late : Disk → (pba lba : ℕ) → Hash → Outcome Disk
write_shared_late d pba lba hash = do
  let b = d.storage pba
  require (hash_eq hash b.hash) exit_failure
  let b' = if ltb b.lba_capacity b.referenced_count then increase_storage_lba_capacity b else b
  let d' = set_block d pba b'
  found ← is_lba_in_storage d' pba lba
  add_owner d' pba lba found

-- The disk, whether the function returns, and `pass`.
unfoldable pub write_late : Setting → (first lba : ℕ) → Hash → Placed → Outcome (Disk × Bool × Bool)
write_late s first lba hash (d, pba, pass) =
    require (ltb pba d.report.max_block_num) aborted
    >> (if ltb 0 (d.storage pba).referenced_count
        then (write_shared_late d pba first hash >>= λ d'. ok (d', true, pass))
        else ((if pass then ok d else write_own d pba lba hash) >>= λ d₁.
            write_out s (d₁, false) >>= λ r. ok (r.0, false, pass)))

unfoldable pub p1_round :
    Setting → (first i : ℕ) → Hash → Disk × Bool → Outcome (Disk × Bool × Bool)
p1_round s first i hash (d, pass) =
    if is_phase1 d.zinfo.phases
    then (is_in_storage s.new_alloc d hash >>= λ found.
        require (ltb first d.report.max_logical_block_num) undefined
        >> (write_phase1 s d first hash found >>= λ d'. ok (d', true, pass)))
    else (flush_once s d >>= λ d₁.
        dedupe_pba_search s d₁ (add64 first i) hash pass
        >>= write_late s first (add64 first i) hash)

unfoldable pub p1_rounds :
    Setting → (first : ℕ) → Hash → (n i : ℕ) → Disk × Bool × Bool → Outcome Disk
p1_rounds s first hash zero i (d, returned, pass) = ok d
p1_rounds s first hash (suc n) i (d, true, pass) = ok d
p1_rounds s first hash (suc n) i (d, false, pass) =
    p1_round s first i hash (d, pass) >>= p1_rounds s first hash n (i + 1)

unfoldable pub dedupe_lba_write_p1_buf : Setting → Disk → (lba n : ℕ) → Hash → Outcome Disk
dedupe_lba_write_p1_buf s d lba n hash =
    let max = d.report.max_logical_block_num in
    if n == 0
    then ok d
    else if ltb max lba || ltb max (add64 lba (n - 1))
    then stop jumped
    else p1_rounds s lba hash n 0 (d, false, false)
