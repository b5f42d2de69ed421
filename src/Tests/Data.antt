-- ===== src/Tests/Data.antt =====
-- A disk of eight tracks: the even ones are bottom tracks, the odd ones top tracks.
use imr_dedupe.Prelude.{ℕ, false, [], ◌∷◌, none, ◌+◌, ◌==◌, if◌then◌else◌}
use imr_dedupe.Disk.{
  Hash, normal_op_mode, phase1, BlockStatus, free, booked, in_use, normal, Block, TimeSize, Report,
  BbEntry, BbHead, BatchTable, Disk,
}

abbrev no_time : TimeSize
no_time = record {
  total_read_time = 0;
  total_write_time = 0;
  total_write_size = 0;
  total_read_block_size = 0;
  total_write_block_size = 0;
}

abbrev pub first_report : Report
first_report = record {
  block_swap_boundary = 8;
  max_top_buffer_num = 0;
  current_block_swap_count = 0;
  normal = no_time;
  journaling = no_time;
  max_track_num = 8;
  max_block_num = 8;
  current_use_block_num = 2;
  total_access_time = 0;
  total_delete_time = 0;
  total_delete_write_block_size = 0;
  total_delete_write_size = 0;
  total_delete_rewrite_size = 0;
  total_delete_reread_size = 0;
  total_read_size = 0;
  total_write_size = 0;
  total_rewrite_size = 0;
  total_reread_size = 0;
  ins_count = 0;
  read_ins_count = 0;
  write_ins_count = 0;
  delete_ins_count = 0;
  num_invalid_read = 0;
  num_invalid_write = 0;
  next_top_to_write = 1;
  next_bottom_to_write = 0;
  used_buffer_count = 0;
  buffer_flushed = false;
  disk_has_dedupe = false;
  max_logical_block_num = 8;
  reversion_swap_count = 0;
}

abbrev pub entry_of : ℕ → BbEntry
entry_of pba = record { pba = pba; is_virtual = false }

abbrev pub head_of : (ℕ → BbEntry) → ℕ → BbHead
head_of table size = record { table = table; capacity = 16; size = size }

abbrev pub no_entries : BbHead
no_entries = head_of entry_of 0

-- The hash "ab"
abbrev pub ab : Hash
ab = 97 ∷ 98 ∷ []

-- The hash "ba", whose characters have the same sum
abbrev pub ba : Hash
ba = 98 ∷ 97 ∷ []

-- Tracks 2 and 4 are booked, 1 and 3 are in use; the logical blocks 5 and 6 share track 3.
abbrev status_of : ℕ → BlockStatus
status_of i =
    if i == 2
    then booked
    else if i == 4
    then booked
    else if i == 1
    then in_use
    else if i == 3
    then in_use
    else free

abbrev block_of : ℕ → Block
block_of i = record {
  hash = if i == 3 then ab else [];
  lba = λ j. 5 + j;
  status = status_of i;
  lba_capacity = 2;
  count = 0;
  referenced_count = if i == 3 then 1 else 0;
}

abbrev pub eight : Disk
eight = record {
  storage = block_of;
  ltp = λ lba. record { pba = 3; fid = 0; hash = ab; valid = lba == 5; trim = false };
  ptt = λ i. record { tba = 0; scp_pba = 0; type = normal };
  phase1_buf = λ i. record {
    hash = [];
    lba = λ j. 0;
    lba_capacity = 4;
    referenced_count = 0;
    dedupe = false;
  };
  hash_table = λ i. none;
  dinfo_current_track = 0;
  zinfo = record {
    phase1_start = 0;
    phase1_end = 6;
    phase1_is_full = false;
    phase2_start = 7;
    phase2_end = 3;
    phase3_start = 1;
    phase3_end = 5;
    current_track = 2;
    phase4_start = 1;
    phase4_end = 7;
    phases = phase1;
  };
  report = first_report;
  gbtable = record { block_head = no_entries; extend_head = no_entries };
  mbtable = record { block_head = no_entries; extend_head = no_entries };
  recording_mode = normal_op_mode;
  enable_top_buffer = false;
  is_bottom_has_trimed_track = false;
}

-- The blocks 4 and 2, in this order.
abbrev pub two_blocks : BatchTable
two_blocks = record {
  block_head = head_of (λ i. entry_of (if i == 0 then 4 else 2)) 2;
  extend_head = no_entries;
}

-- The same in ascending order.
abbrev pub two_sorted : BatchTable
two_sorted = record {
  block_head = head_of (λ i. entry_of (if i == 0 then 2 else 4)) 2;
  extend_head = no_entries;
}

-- The content "ab" is on the bottom track 2.
abbrev pub ab_on_two : Disk
ab_on_two = record eight { storage = λ q. if q == 2 then block_of 3 else block_of q }
