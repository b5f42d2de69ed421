-- ===== src/Files.antt =====
-- src/pba.c and src/lba.c: the requests of a trace without hashes, where a file identifier says who may
-- read, write and delete a logical block. The pointers to these functions are `imr_ops`.
pub mod Read
pub mod Foreign
pub mod Collect
pub mod Delete
pub mod RoundTrip
use imr_dedupe.Prelude.{
  ℕ, zero, suc, ◌+◌, ◌-◌, ◌%◌, ◌^◌, Bool, true, false, not, ◌&&◌, ◌||◌, ◌==◌, ltb, if◌then◌else◌,
  update, Outcome, ok, ◌>>=◌, ◌>>◌, require, undefined, aborted, exit_failure, List,
}
use imr_dedupe.Disk.{
  BbEntry, BatchTable, TimeSize, Block, LtpEntry, Disk, booked, is_in_use, is_normal, is_free,
  is_invalid, set_status, add64,
}
use imr_dedupe.Batch.{batch_add}
use imr_dedupe.BlockIo.{set_report, batch_read, batch_write, batch_delete}
use imr_dedupe.Zalloc.Find.{zalloc_find_next_pba}
use imr_dedupe.Dedupe.{lba_to_pba, set_block}

-- The mapping has as many entries as there are logical blocks.
unfoldable pub is_ltp_mapping_valid : Disk → (lba fid : ℕ) → Outcome Bool
is_ltp_mapping_valid d lba fid =
    require (ltb lba d.report.max_logical_block_num) undefined
    >> ok ((d.ltp lba).valid && (d.ltp lba).fid == fid)

unfoldable pub is_storage_data_valid : Disk → ℕ → Outcome Bool
is_storage_data_valid d pba =
    require (ltb pba d.report.max_block_num) undefined >> ok (is_in_use (d.storage pba).status)

-- Without TOP_BUFFER this is the same test as `is_lba_valid`, which also returns the block.
unfoldable pub is_block_data_valid : Disk → (lba fid : ℕ) → Outcome Bool
is_block_data_valid d lba fid = is_ltp_mapping_valid d lba fid >>= λ valid.
    if valid then is_storage_data_valid d (lba_to_pba d lba) else ok false

unfoldable pub is_lba_valid : Disk → (lba fid : ℕ) → Outcome (Bool × ℕ)
is_lba_valid d lba fid = is_block_data_valid d lba fid >>= λ valid. ok (valid, lba_to_pba d lba)

-- The parameter `pba` is `unsigned`.
unfoldable pub update_ltp_table : Disk → (lba pba fid : ℕ) → Disk
update_ltp_table d lba pba fid =
    let e : LtpEntry = record (d.ltp lba) { pba = pba % 2 ^ 32; valid = true; fid = fid } in
    record d { ltp = update d.ltp lba e }

unfoldable pub pba_to_tba : Disk → ℕ → ℕ
pba_to_tba d pba = (d.ptt pba).tba

unfoldable pub lba_to_tba : Disk → ℕ → ℕ
unfolding pba_to_tba lba_to_pba
lba_to_tba d lba =
    let pba = lba_to_pba d lba in if is_normal (d.ptt pba).type then pba else pba_to_tba d pba

-- The block is the one of the same number. The assertion is `status != free || status != invalid`,
-- which always holds.
unfoldable pub zalloc_journal_get_block : Disk → ℕ → Outcome (Disk × ℕ)
zalloc_journal_get_block d t =
    require (ltb t d.report.max_block_num) undefined
    >> require (not (is_free (d.storage t).status) || not (is_invalid (d.storage t).status)) aborted
    >> ok (set_block d t (set_status booked (d.storage t)), t)

-- Without ZALLOC_JOURNAL_VIRTUAL
unfoldable pub find_next_pba_jfs : Disk → (lba fid : ℕ) → Outcome (Disk × ℕ)
find_next_pba_jfs d t fid = zalloc_journal_get_block d t

abbrev pub add_pba : Disk → ℕ → Disk
add_pba d pba = record d { gbtable = batch_add pba d.gbtable }

-- The logical block is mapped to a new block, unless it has one.
unfoldable pub search_by : (Disk → Outcome (Disk × ℕ)) → Disk → (lba fid : ℕ) → Outcome (Disk × ℕ)
search_by find d lba fid = is_lba_valid d lba fid >>= λ (valid, pba).
    if valid
    then ok (d, pba)
    else (find d >>= λ (d', new). ok (update_ltp_table d' lba new fid, new))

unfoldable pub pba_search_jfs : Disk → (lba fid : ℕ) → Outcome (Disk × ℕ)
pba_search_jfs d lba fid = search_by (λ d'. find_next_pba_jfs d' lba fid) d lba fid

-- The macro NEW_ALLOC, and the fuel of the allocation
module _ (new_alloc : Bool) (fuel : ℕ) where
  unfoldable pub find_next_pba : Disk → Outcome (Disk × ℕ)
  find_next_pba d = zalloc_find_next_pba new_alloc fuel d

  unfoldable pub pba_search : Disk → (lba fid : ℕ) → Outcome (Disk × ℕ)
  pba_search d lba fid = search_by find_next_pba d lba fid

-- `d->storage[pba].lba[0] = lba`, and the block joins the batch.
abbrev pub link : Disk → (pba lba : ℕ) → Disk
link d pba lba =
    let b = d.storage pba in add_pba (set_block d pba (record b { lba = update b.lba 0 lba })) pba

abbrev pub count_invalid_read : Disk → Disk
count_invalid_read d =
    set_report d (record d.report { num_invalid_read = add64 d.report.num_invalid_read 1 })

abbrev pub count_invalid_write : Disk → Disk
count_invalid_write d =
    set_report d (record d.report { num_invalid_write = add64 d.report.num_invalid_write 1 })

-- The rounds of the loop, of which there are `n`, and how many blocks were not valid; those are at
-- most `n`.
unfoldable pub read_rounds : (fid n lba : ℕ) → Disk × ℕ → Outcome (Disk × ℕ)
read_rounds fid zero lba r = ok r
read_rounds fid (suc n) lba (d, num_invalid) = is_block_data_valid d lba fid >>= λ valid.
    read_rounds fid n (add64 lba 1) (
      if valid
      then (add_pba d (lba_to_pba d lba), num_invalid)
      else (count_invalid_read d, num_invalid + 1))

-- `!(lba < max_block_num) || !(lba + (n - 1) < max_block_num)`
abbrev pub out_of_range : Disk → (lba n : ℕ) → Bool
out_of_range d lba n =
    not (ltb lba d.report.max_block_num) || not (ltb (add64 lba (n - 1)) d.report.max_block_num)

-- The result of a batch operation on `gbtable`
abbrev pub put_table : Disk × BatchTable × ℕ → Disk × ℕ
put_table (d, t, count) = (record d { gbtable = t }, count)

unfoldable pub is_invalid_write : Disk → (lba fid : ℕ) → Outcome Bool
is_invalid_write d lba fid =
    require (ltb lba d.report.max_logical_block_num) undefined
    >> ok ((d.ltp lba).valid && not (fid == (d.ltp lba).fid))

-- A write, with the search for a block as its first argument
unfoldable pub write_file_block :
    (Disk → (lba fid : ℕ) → Outcome (Disk × ℕ)) → (fid lba : ℕ) → Disk × ℕ → Outcome (Disk × ℕ)
write_file_block search fid lba (d, num_invalid) = is_invalid_write d lba fid >>= λ foreign.
    if foreign
    then ok (count_invalid_write d, num_invalid + 1)
    else (search d lba fid >>= λ (d', pba).
        require (ltb pba d.report.max_block_num) aborted >> ok (link d' pba lba, num_invalid))

unfoldable pub write_file_rounds :
    (Disk → (lba fid : ℕ) → Outcome (Disk × ℕ)) → (fid n lba : ℕ) → Disk × ℕ → Outcome (Disk × ℕ)
write_file_rounds search fid zero lba r = ok r
write_file_rounds search fid (suc n) lba r =
    write_file_block search fid lba r >>= write_file_rounds search fid n (add64 lba 1)

unfoldable pub journal_rounds : (fid n lba : ℕ) → Disk → Outcome Disk
journal_rounds fid zero lba d = ok d
journal_rounds fid (suc n) lba d = pba_search_jfs d lba fid >>= λ (d', pba).
    require (ltb pba d.report.max_block_num) undefined
    >> journal_rounds fid n (add64 lba 1) (link d' pba lba)

-- The entries from `i` on, of which there are `n`, and how many belong to the file.
unfoldable pub collect_file : (fid n i : ℕ) → Disk × ℕ → Outcome (Disk × ℕ)
collect_file fid zero i r = ok r
collect_file fid (suc n) i (d, count) = is_ltp_mapping_valid d i fid >>= λ valid.
    collect_file fid n (i + 1)
      (if valid then (add_pba d (lba_to_pba d i), count + 1) else (d, count))

unfoldable pub invalid_rounds : (fid n lba : ℕ) → Disk → Outcome Disk
invalid_rounds fid zero lba d = ok d
invalid_rounds fid (suc n) lba d = is_block_data_valid d lba fid >>= λ valid.
    require valid exit_failure >> invalid_rounds fid n (add64 lba 1) (add_pba d (lba_to_pba d lba))

abbrev no_times : TimeSize
no_times = record {
  total_read_time = 0;
  total_write_time = 0;
  total_write_size = 0;
  total_read_block_size = 0;
  total_write_block_size = 0;
}

unfoldable pub clear_info : Disk → Disk
clear_info d =
    set_report d
      (record d.report { total_access_time = 0; normal = no_times; journaling = no_times })

-- `qsort` of libc
module _ (qsort : List BbEntry → List BbEntry) where
  -- The first argument is `is_csv_flag`.
  unfoldable pub lba_read : Bool → Disk → (lba n fid : ℕ) → Outcome (Disk × ℕ)
  lba_read is_csv_flag d lba n fid =
      if n == 0 || out_of_range d lba n
      then ok (d, 0)
      else (read_rounds fid n lba (d, 0) >>= λ (d', num_invalid).
          if num_invalid == n
          then ok (d', 0)
          else (batch_read qsort is_csv_flag d' d'.gbtable >>= λ r. ok (put_table r)))

  unfoldable pub lba_write : Bool → (fuel : ℕ) → Disk → (lba n fid : ℕ) → Outcome (Disk × ℕ)
  lba_write new_alloc fuel d lba n fid =
      if n == 0 || out_of_range d lba n
      then ok (d, 0)
      else (write_file_rounds (pba_search new_alloc fuel) fid n lba (d, 0) >>= λ (d', num_invalid).
          if num_invalid == n
          then ok (d', 0)
          else (batch_write qsort d' d'.gbtable >>= λ r. ok (put_table r)))

  -- Only the file counts: all its blocks are deleted.
  unfoldable pub native_lba_delete : Disk → (lba n fid : ℕ) → Outcome (Disk × ℕ)
  native_lba_delete d lba n fid =
      collect_file fid d.report.max_block_num 0 (d, 0) >>= λ (d', count).
      if count == 0
      then ok (d', 0)
      else (batch_delete qsort d' d'.gbtable >>= λ r. ok (put_table r))

  unfoldable pub lba_delete : Disk → (lba n fid : ℕ) → Outcome (Disk × ℕ)
  lba_delete d lba n fid = native_lba_delete d lba n fid

  -- `batch_invalid` is `batch_delete` without VIRTUAL_GROUPS.
  unfoldable pub lba_invalid : Disk → (lba n fid : ℕ) → Outcome (Disk × ℕ)
  lba_invalid d lba n fid =
      if n == 0
      then ok (d, 0)
      else (invalid_rounds fid n lba d >>= λ d'.
          batch_delete qsort d' d'.gbtable >>= λ r. ok (put_table r))

  -- The assertion holds if one of the two ends is in range.
  unfoldable pub journaling_write : Disk → (lba n fid : ℕ) → Outcome (Disk × ℕ)
  journaling_write d lba n fid =
      if n == 0
      then ok (d, 0)
      else (require
            (ltb lba d.report.max_block_num || ltb (add64 lba (n - 1)) d.report.max_block_num)
            aborted
          >> (journal_rounds fid n lba d >>= λ d'.
              batch_write qsort d' d'.gbtable >>= λ r. ok (put_table r)))
