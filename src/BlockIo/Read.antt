-- ===== src/BlockIo/Read.antt =====
-- src/batch.c (batch_read): what a batch of reads does to the disk.
use imr_dedupe.Prelude.{
  ℕ, ◌+◌, ◌*◌, ◌<◌, ◌≡◌, refl, ap, ◌∙◌, Bool, true, false, List, ◌==◌, if◌then◌else◌, Holds-ok,
  subst₂, Returns, arith,
}
use imr_dedupe.Disk.{
  OpMode, normal_op_mode, journaling_op_mode, TimeSize, BbEntry, BatchTable, Report, Disk,
  track_size,
}
use imr_dedupe.Batch.{entries, batch_sync, batch_clear}
use imr_dedupe.RecordOp.{set_time_size}
use imr_dedupe.RecordOp.Charges.{Grows, virtual, record_read-Grows}
use imr_dedupe.RecordOp.Frame.{without_accounts, record_read_frame}
use imr_dedupe.BlockIo.{pba_read, batch_read_kept, batch_read}
use imr_dedupe.BlockIo.Sort.{IsSort, batch_sync-entries, perm_invariant}
use native.Mathlib.Nat.{ℕ_set}

virtual-qsort :
    {qsort : List BbEntry → List BbEntry}
    → IsSort qsort
    → (l : List BbEntry) → virtual (qsort l) ≡ virtual l
virtual-qsort sort l =
    perm_invariant virtual (λ e n. (if e.is_virtual then 1 else 0) + n) (λ e m. refl)
      (λ x y n. omega arith) ℕ_set (sort.perm l)

-- The sizes of all reads do not depend on the accounts of a mode.
same_size :
    (mode : OpMode) (t : TimeSize) (p : Report)
    → ((set_time_size mode t p).total_read_size ≡ p.total_read_size)
      × ((set_time_size mode t p).num_invalid_read ≡ p.num_invalid_read)
same_size normal_op_mode t p = (refl, refl)
same_size journaling_op_mode t p = (refl, refl)

-- What a batch of reads returns.
pub record BatchRead (d : Disk) (t : BatchTable) (r : Disk × BatchTable × ℕ) : Type 0 where
  pub disk : r.0 ≡ record d { report = r.0.report }
  pub grows :
      Grows (t.block_head.size * track_size) d.report.total_read_size r.0.report.total_read_size
  pub invalid : r.0.report.num_invalid_read ≡ d.report.num_invalid_read
  pub table : r.1.block_head.size ≡ 0
  pub result : r.2 ≡ t.block_head.size

-- A batch of reads that has an entry, and none that is virtual, returns.
pub batch_read-BatchRead :
    {qsort : List BbEntry → List BbEntry} (is_csv_flag : Bool) (d : Disk) (t : BatchTable)
    → IsSort qsort
    → 0 < t.block_head.size
    → virtual (entries t.block_head) ≡ 0
    → Returns (batch_read qsort is_csv_flag d t) (BatchRead d t)
unfolding batch_read batch_read_kept pba_read batch_clear
batch_read-BatchRead {qsort} is_csv_flag d t sort some physical =
    let (any, kept, size, ext) = batch_sync-entries t sort in
    let t' = (batch_sync qsort t).0 in
    let some_left : (t.block_head.size == 0) ≡ false = ground arith in
    let any' : (batch_sync qsort t).1 ≡ true = any ∙ rw some_left refl in
    let d' = (pba_read d t').0 in
    let (p, runs, grows) =
      record_read-Grows d'.recording_mode t'.block_head d'.report (rw size some)
        (rw kept (virtual-qsort sort (entries t.block_head) ∙ physical)) in
    let frame =
      Holds-ok (λ q. without_accounts q ≡ without_accounts d'.report)
        (record_read_frame d'.recording_mode t'.block_head d'.report) runs in
    let (same_read, same_invalid) = same_size d.recording_mode _ d.report in
    (
      (record d { report = p }, batch_clear t', t'.block_head.size),
      rw (any', runs) refl,
      record {
        disk = refl;
        grows =
            subst₂ (λ (a b : ℕ). Grows (a * track_size) b p.total_read_size) size same_read grows;
        invalid = ap (λ (q : Report). q.num_invalid_read) frame ∙ same_invalid;
        table = refl;
        result = size;
      },
    )
