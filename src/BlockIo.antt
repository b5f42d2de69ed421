-- ===== src/BlockIo.antt =====
-- src/batch.c, src/pba.c (pba_read, pba_write, pba_delete) and src/rw.c: a batch is sorted, extended,
-- carried out and recorded. A table that is passed by pointer is returned.
pub mod Sort
pub mod Write
pub mod Single
pub mod Read
pub mod Delete
use imr_dedupe.Prelude.{
  ℕ, ◌+◌, ◌*◌, Bool, true, false, List, [], ◌∷◌, Outcome, ok, stop, ◌>>=◌, ◌>>◌, require,
  exit_failure, aborted, if◌then◌else◌,
}
use imr_dedupe.Disk.{OpMode, BbEntry, BatchTable, TimeSize, Report, Disk, add64, block_size}
use imr_dedupe.Batch.{entries, batch_add, batch_clear, batch_extend, batch_sync}
use imr_dedupe.RecordOp.{time_size, set_time_size, record_read, record_write, record_delete}
use imr_dedupe.Chs.{chs_write, chs_delete}

abbrev pub set_report : Disk → Report → Disk
set_report d p = record d { report = p }

unfoldable pub pba_read : Disk → BatchTable → Disk × ℕ
pba_read d t =
    let sum = t.block_head.size in
    let mode = d.recording_mode in
    let t_s = time_size mode d.report in
    let t_s' = record t_s {
      total_read_block_size = add64 t_s.total_read_block_size (sum * block_size);
    } in
    (set_report d (set_time_size mode t_s' d.report), sum)

unfoldable pub write_blocks : List BbEntry → Disk → Outcome Disk
write_blocks [] d = ok d
write_blocks (e ∷ l) d = chs_write d e.pba >>= write_blocks l

-- `t_s->total_write_block_size += sum * BLOCK_SIZE`
abbrev pub count_write_blocks : ℕ → Disk → Disk
count_write_blocks sum d =
    let mode = d.recording_mode in
    let t_s = time_size mode d.report in
    let total = add64 t_s.total_write_block_size (sum * block_size) in
    set_report d (set_time_size mode (record t_s { total_write_block_size = total }) d.report)

unfoldable pub pba_write : Disk → BatchTable → Outcome (Disk × ℕ)
pba_write d t = do
  let sum = t.block_head.size
  d' ← write_blocks (entries t.block_head) d
  ok (count_write_blocks sum d', sum)

unfoldable pub delete_blocks : List BbEntry → Disk → Outcome Disk
delete_blocks [] d = ok d
delete_blocks (e ∷ l) d = chs_delete d e.pba >>= delete_blocks l

unfoldable pub pba_delete : Disk → BatchTable → Outcome (Disk × ℕ)
pba_delete d t = do
  let sum = t.block_head.size
  d' ← delete_blocks (entries t.block_head) d
  let total = add64 d'.report.total_delete_write_block_size (sum * block_size)
  ok (set_report d' (record d'.report { total_delete_write_block_size = total }), sum)

-- `record_write(d, t)` and `record_delete(d, t)`
abbrev pub record_batch_write : BatchTable → Disk → Disk
record_batch_write t d = set_report d (record_write d.recording_mode t.extend_head d.report)

abbrev pub record_batch_delete : BatchTable → Disk → Disk
record_batch_delete t d = set_report d (record_delete t.extend_head d.report)

-- `qsort` of libc, and the flag `is_csv_flag` of the command line
module _ (qsort : List BbEntry → List BbEntry) where
  unfoldable pub batch_read_kept : Bool → Disk → BatchTable → Outcome (Disk × BatchTable × ℕ)
  batch_read_kept is_csv_flag d t =
      let (t', any) = batch_sync qsort t in
      if any
      then (do
        let (d', count) = pba_read d t'
        p ← record_read d'.recording_mode t'.block_head d'.report
        ok (set_report d' p, t', count))
      else if is_csv_flag
      then ok (d, batch_clear t', 0)
      else stop exit_failure

  unfoldable pub batch_read : Bool → Disk → BatchTable → Outcome (Disk × BatchTable × ℕ)
  batch_read is_csv_flag d t = do
    (d', t', count) ← batch_read_kept is_csv_flag d t
    ok (d', batch_clear t', count)

  unfoldable pub batch_write : Disk → BatchTable → Outcome (Disk × BatchTable × ℕ)
  batch_write d t = do
    let t' = batch_extend d (batch_sync qsort t).0
    (d', count) ← pba_write d t'
    ok (record_batch_write t' d', batch_clear t', count)

  -- `batch_invalid` is the same code where VIRTUAL_GROUPS is not defined.
  unfoldable pub batch_delete : Disk → BatchTable → Outcome (Disk × BatchTable × ℕ)
  batch_delete d t = do
    let (s, any) = batch_sync qsort t
    require any aborted
    let t' = batch_extend d s
    (d', count) ← pba_delete (record_batch_delete t' d) t'
    ok (d', batch_clear t', count)

  -- Here the table is extended after the blocks are written.
  unfoldable pub rw_block : Disk → (from to : ℕ) → Outcome Disk
  rw_block d from to = do
    let t₁ = (batch_sync qsort (batch_add from d.mbtable)).0
    let d₁ = (pba_read d t₁).0
    p₁ ← record_read d₁.recording_mode t₁.block_head d₁.report
    let t₂ = (batch_sync qsort (batch_add to (batch_clear t₁))).0
    (d₂, count) ← pba_write (set_report d₁ p₁) t₂
    let t₃ = batch_extend d₂ t₂
    ok (record (record_batch_write t₃ d₂) { mbtable = batch_clear t₃ })
