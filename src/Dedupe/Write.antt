-- ===== src/Dedupe/Write.antt =====
-- src/lba.c (dedupe_lba_write and what it calls): the write of a run of logical blocks that have one
-- hash.
pub mod Same
pub mod New
pub mod Share
use imr_dedupe.Prelude.{
  ℕ, zero, suc, ◌+◌, ◌-◌, ◌*◌, ◌%◌, ◌^◌, Bool, true, false, ◌||◌, ◌==◌, ltb, if◌then◌else◌, is_some,
  update, Outcome, ok, stop, ◌>>=◌, ◌>>◌, require, undefined, aborted, exit_failure, jumped,
}
use imr_dedupe.Disk.{Hash, hash_eq, Block, Disk, add32, add64}
use imr_dedupe.Batch.{batch_add}
use imr_dedupe.BlockIo.{batch_write}
use imr_dedupe.HashTable.{insert, delete_item}
use imr_dedupe.Dedupe.{find_lba, set_block}
use imr_dedupe.Dedupe.Place.{Setting, Placed, dedupe_pba_search}

-- `realloc` succeeds.
unfoldable pub increase_storage_lba_capacity : Block → Block
increase_storage_lba_capacity b = record b { lba_capacity = b.lba_capacity * 2 % 2 ^ 32 }

-- As many owners are looked at as block 0 has.
unfoldable pub is_lba_in_storage : Disk → (pba lba : ℕ) → Outcome Bool
is_lba_in_storage d pba lba =
    find_lba (d.storage pba) lba (add32 (d.storage 0).referenced_count 1) 0 >>= λ r. ok (is_some r)

unfoldable pub add_owner : Disk → (pba lba : ℕ) → (found : Bool) → Outcome Disk
add_owner d pba lba true = ok d
add_owner d pba lba false =
    let b = d.storage pba in
    require (ltb b.referenced_count b.lba_capacity) undefined
    >> ok (set_block d pba (record b { lba = update b.lba b.referenced_count lba }))

-- A block that several logical blocks share gets one more owner.
unfoldable pub write_shared : Disk → (pba lba : ℕ) → Hash → Outcome Disk
write_shared d pba lba hash = do
  let b = d.storage pba
  require (hash_eq hash b.hash) exit_failure
  let b' =
      if ltb b.lba_capacity (add32 b.referenced_count 1) then increase_storage_lba_capacity b else b
  let d' = set_block d pba b'
  found ← is_lba_in_storage d' pba lba
  add_owner d' pba lba found

-- A block of one owner is written: the hash table and the block get the new content.
unfoldable pub write_own : Disk → (pba lba : ℕ) → Hash → Outcome Disk
write_own d pba lba hash = do
  (_, d₁) ← delete_item d (d.storage pba).hash
  d₂ ← insert d₁ hash pba
  let b = d₂.storage pba
  let d₃ = set_block d₂ pba (record b { lba = update b.lba 0 lba; hash = hash })
  ok (record d₃ { gbtable = batch_add pba d₃.gbtable })

-- One round, with the disk, whether the function returns at once, and `pass`.
unfoldable pub write_placed : (first lba : ℕ) → Hash → Placed → Outcome (Disk × Bool × Bool)
write_placed first lba hash (d, pba, pass) =
    require (ltb pba d.report.max_block_num) aborted
    >> (if ltb 0 (d.storage pba).referenced_count
        then (write_shared d pba first hash >>= λ d'. ok (d', true, pass))
        else if pass
        then ok (d, false, pass)
        else (write_own d pba lba hash >>= λ d'. ok (d', false, pass)))

-- The rounds from `i` on, of which there are `n`. The result tells whether the function returned.
unfoldable pub write_rounds :
    Setting → (first : ℕ) → Hash → (n i : ℕ) → Disk × Bool × Bool → Outcome (Disk × Bool)
write_rounds s first hash zero i (d, returned, pass) = ok (d, returned)
write_rounds s first hash (suc n) i (d, true, pass) = ok (d, true)
write_rounds s first hash (suc n) i (d, false, pass) =
    let lba = add64 first i in
    dedupe_pba_search s d lba hash pass
    >>= write_placed first lba hash
    >>= write_rounds s first hash n (i + 1)

-- `batch_write(d, &gbtable)`
unfoldable pub write_out : Setting → Disk × Bool → Outcome (Disk × ℕ)
write_out s (d, true) = ok (d, 0)
write_out s (d, false) =
    batch_write s.qsort d d.gbtable >>= λ r. ok (record r.0 { gbtable = r.1 }, r.2)

unfoldable pub dedupe_lba_write : Setting → Disk → (lba n : ℕ) → Hash → Outcome (Disk × ℕ)
dedupe_lba_write s d lba n hash =
    let max = d.report.max_logical_block_num in
    if n == 0
    then ok (d, 0)
    else if ltb max lba || ltb max (add64 lba (n - 1))
    then stop jumped
    else (write_rounds s lba hash n 0 (d, false, false) >>= write_out s)
