-- ===== src/Chs.antt =====
-- src/chs.c: one block that is read, written or deleted, in the build with DEDU_WRITE.
use imr_dedupe.Prelude.{
  ℕ, Bool, false, ◌||◌, ltb, if◌then◌else◌, update, Outcome, ok, ◌>>◌, require, undefined, aborted,
  exit_failure,
}
use imr_dedupe.Disk.{
  Block, BlockStatus, in_use, invalid, is_booked, is_in_use, is_trimed, Disk, add32, add64,
  set_status,
}

unfoldable pub chs_read : Disk → ℕ → ℕ
chs_read d base = 1

-- The statuses that the first assertion lets pass.
abbrev pub is_writable : BlockStatus → Bool
is_writable s = is_booked s || is_in_use s || is_trimed s

-- The block after a write.
abbrev pub written_block : Block → Block
written_block b = record b { status = in_use; count = add32 b.count 1 }

abbrev pub count_use : Block → Disk → Disk
count_use b d = if is_in_use b.status then d else record d {
  report = record d.report { current_use_block_num = add64 d.report.current_use_block_num 1 };
}

unfoldable pub chs_write : Disk → ℕ → Outcome Disk
chs_write d pba = do
  require (ltb pba d.report.max_block_num) undefined
  require (is_writable (d.storage pba).status) aborted
  let d' = count_use (d.storage pba) d
  ok (record d' { storage = update d.storage pba (written_block (d.storage pba)) })

-- The block becomes invalid, and with it the logical block that it names first.
unfoldable pub chs_delete : Disk → ℕ → Outcome Disk
chs_delete d pba = do
  require (ltb pba d.report.max_block_num) undefined
  let lba = (d.storage pba).lba 0
  require (is_in_use (d.storage pba).status) exit_failure
  require (ltb lba d.report.max_logical_block_num) undefined
  require (d.ltp lba).valid aborted
  ok (record d {
    storage = update d.storage pba (set_status invalid (d.storage pba));
    ltp = update d.ltp lba (record (d.ltp lba) { valid = false });
  })
