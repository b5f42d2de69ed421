-- ===== src/Tests/Charging.antt =====
-- The tables of the batch of the tracks 2 and 4, between tracks 1 and 3 that are in use.
use imr_dedupe.Prelude.{◌+◌, true, ◌==◌, if◌then◌else◌, arith}
use imr_dedupe.Disk.{normal_op_mode, BbHead}
use imr_dedupe.Batch.{entries}
use imr_dedupe.RecordOp.{record_write}
use imr_dedupe.RecordOp.Charges.{physical, virtual, WriteCharged, record_write-WriteCharged}
use imr_dedupe.Tests.Data.{first_report}

-- The tracks 1 to 4 and 7; the tracks 1 and 3 are virtual.
abbrev five_tracks : BbHead
five_tracks = record {
  table = λ i. record {
    pba = if i == 4 then 7 else i + 1;
    is_virtual = if i == 0 then true else i == 2;
  };
  capacity = 12;
  size = 5;
}

record_write-WriteCharged_example :
    WriteCharged normal_op_mode
      (physical (entries five_tracks))
      (virtual (entries five_tracks))
      first_report
      (record_write normal_op_mode five_tracks first_report)
record_write-WriteCharged_example =
    record_write-WriteCharged normal_op_mode five_tracks first_report (omega arith)
