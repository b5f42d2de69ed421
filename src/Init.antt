-- ===== src/Init.antt =====
-- src/lba.c (init_disk): the disk that the simulator starts with. Allocation succeeds.
pub mod Sound
use imr_dedupe.Prelude.{
  ℕ, ◌+◌, ◌-◌, ◌*◌, ◌/◌, ◌%◌, ◌^◌, Bool, false, [], none, ltb, Outcome, ok, ◌>>◌, require, aborted,
}
use imr_dedupe.Disk.{
  normal_op_mode, free, normal, TimeSize, Report, Block, BufferBlock, LtpEntry, PttEntry, Disk,
  block_size,
}
use imr_dedupe.Batch.{init_batch_table}
use imr_dedupe.Zalloc.{sub64, total_tracks, init_zinfo}

abbrev init_time_size : TimeSize
init_time_size = record {
  total_read_time = 0;
  total_write_time = 0;
  total_write_size = 0;
  total_read_block_size = 0;
  total_write_block_size = 0;
}

-- `GB_TO_BYTE(size) / BLOCK_SIZE`, for a size that is not negative
abbrev pub logical_blocks : ℕ → ℕ
logical_blocks logical_size = (logical_size * 2 ^ 30) % 2 ^ 64 / block_size

unfoldable pub init_report : (block_num logical_block_num : ℕ) → Report
init_report block_num logical_block_num = record {
  block_swap_boundary = sub64 block_num 0;
  max_top_buffer_num = 0;
  current_block_swap_count = 0;
  normal = init_time_size;
  journaling = init_time_size;
  max_track_num = block_num;
  max_block_num = block_num;
  current_use_block_num = 0;
  total_access_time = 0;
  total_delete_time = 0;
  total_delete_write_block_size = 0;
  total_delete_write_size = 0;
  total_delete_rewrite_size = 0;
  total_delete_reread_size = 0;
  total_read_size = 0;
  total_write_size = 0;
  total_rewrite_size = 0;
  total_reread_size = 0;
  ins_count = 0;
  read_ins_count = 0;
  write_ins_count = 0;
  delete_ins_count = 0;
  num_invalid_read = 0;
  num_invalid_write = 0;
  next_top_to_write = 1;
  next_bottom_to_write = 0;
  used_buffer_count = 0;
  buffer_flushed = false;
  disk_has_dedupe = false;
  max_logical_block_num = logical_block_num;
  reversion_swap_count = 0;
}

-- The argument is what `malloc` leaves in the array of logical blocks.
abbrev pub init_block : (ℕ → ℕ) → Block
init_block lba = record {
  hash = [];
  lba = lba;
  status = free;
  lba_capacity = 2;
  count = 0;
  referenced_count = 0;
}

abbrev pub init_slot : BufferBlock
init_slot = record {
  hash = [];
  lba = λ _. 0;
  lba_capacity = 4;
  referenced_count = 0;
  dedupe = false;
}

abbrev pub init_ltp_entry : LtpEntry
init_ltp_entry = record { pba = 0; fid = 0; hash = []; valid = false; trim = false }

abbrev pub init_ptt_entry : PttEntry
init_ptt_entry = record { tba = 0; scp_pba = 0; type = normal }

-- The first argument is what `malloc` leaves in the arrays of logical blocks; the globals are as at
-- the start of the program.
abbrev pub initial : (ℕ → ℕ → ℕ) → (block_num logical_block_num : ℕ) → Disk
initial memory block_num logical_block_num = record {
  storage = λ i. init_block (memory i);
  ltp = λ _. init_ltp_entry;
  ptt = λ _. init_ptt_entry;
  phase1_buf = λ _. init_slot;
  hash_table = λ _. none;
  dinfo_current_track = 0;
  zinfo = init_zinfo block_num;
  report = init_report block_num logical_block_num;
  gbtable = init_batch_table;
  mbtable = init_batch_table;
  recording_mode = normal_op_mode;
  enable_top_buffer = false;
  is_bottom_has_trimed_track = false;
}

unfoldable pub init_disk : (ℕ → ℕ → ℕ) → (physical_size logical_size : ℕ) → Outcome Disk
init_disk memory physical_size logical_size =
    require (ltb 0 physical_size) aborted
    >> ok (initial memory (total_tracks physical_size) (logical_blocks logical_size))
