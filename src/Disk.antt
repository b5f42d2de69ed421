-- ===== src/Disk.antt =====
-- include/lba.h, include/batch.h and include/op_mode.h: the data of the simulator.
-- A C array is a function of its index, and its length stands beside it in the struct. What malloc
-- leaves in an array is what the function returns there.
pub mod Compare
use imr_dedupe.Prelude.{
  ℕ, ◌+◌, ◌*◌, ◌%◌, ◌^◌, Bool, true, false, ◌&&◌, ◌||◌, List, [], ◌∷◌, Option, ◌==◌,
}

-- `uint64_t`, `unsigned long` and `size_t` addition, and `unsigned` addition
abbrev pub add64 : ℕ → ℕ → ℕ
add64 a b = (a + b) % 2 ^ 64

abbrev pub add32 : ℕ → ℕ → ℕ
add32 a b = (a + b) % 2 ^ 32

-- A hash is the codes of its characters, up to the terminating zero.
abbrev pub Hash : Type 0
Hash = List ℕ

-- `strcmp(a, b) == 0`
unfoldable pub hash_eq : Hash → Hash → Bool
hash_eq [] [] = true
hash_eq [] (y ∷ ys) = false
hash_eq (x ∷ xs) [] = false
hash_eq (x ∷ xs) (y ∷ ys) = x == y && hash_eq xs ys

pub data OpMode : Type 0 where
  normal_op_mode journaling_op_mode : OpMode

-- The phases of the build with DEDU_WRITE.
pub data ZallocPhase : Type 0 where
  phase1 phase2 phase3 phase4 : ZallocPhase

abbrev pub is_phase1 : ZallocPhase → Bool
is_phase1 phase1 = true
is_phase1 _ = false

pub data BlockStatus : Type 0 where
  free booked in_use trimed invalid end : BlockStatus

abbrev pub is_free : BlockStatus → Bool
is_free free = true
is_free _ = false

abbrev pub is_booked : BlockStatus → Bool
is_booked booked = true
is_booked _ = false

abbrev pub is_in_use : BlockStatus → Bool
is_in_use in_use = true
is_in_use _ = false

abbrev pub is_trimed : BlockStatus → Bool
is_trimed trimed = true
is_trimed _ = false

abbrev pub is_invalid : BlockStatus → Bool
is_invalid invalid = true
is_invalid _ = false

pub data BlockType : Type 0 where
  normal top_buffer buffered block_swap end : BlockType

abbrev pub is_normal : BlockType → Bool
is_normal normal = true
is_normal _ = false

-- `referenced_count` is the number of logical blocks beyond the first; `lba[0..referenced_count]`
-- are meant to be the logical blocks that share this block.
pub record Block : Type 0 where
  pub hash : Hash
  pub lba : ℕ → ℕ
  pub status : BlockStatus
  pub lba_capacity : ℕ
  pub count : ℕ
  pub referenced_count : ℕ

pub record BufferBlock : Type 0 where
  pub hash : Hash
  pub lba : ℕ → ℕ
  pub lba_capacity : ℕ
  pub referenced_count : ℕ
  pub dedupe : Bool

pub record LtpEntry : Type 0 where
  pub pba : ℕ
  pub fid : ℕ
  pub hash : Hash
  pub valid : Bool
  pub trim : Bool

pub record PttEntry : Type 0 where
  pub tba : ℕ
  pub scp_pba : ℕ
  pub type : BlockType

-- `negsuc n` is -(n + 1).
pub data ℤ : Type 0 where
  pos : ℕ → ℤ
  negsuc : ℕ → ℤ

pub record DataItem : Type 0 where
  pub hash : Hash
  pub pba : ℤ

pub record ZallocInfo : Type 0 where
  pub phase1_start : ℕ
  pub phase1_end : ℕ
  pub phase1_is_full : Bool
  pub phase2_start : ℕ
  pub phase2_end : ℕ
  pub phase3_start : ℕ
  pub phase3_end : ℕ
  pub current_track : ℕ
  pub phase4_start : ℕ
  pub phase4_end : ℕ
  pub phases : ZallocPhase

pub record TimeSize : Type 0 where
  pub total_read_time : ℕ
  pub total_write_time : ℕ
  pub total_write_size : ℕ
  pub total_read_block_size : ℕ
  pub total_write_block_size : ℕ

-- The fields that the build with DEDU_WRITE has.
pub record Report : Type 0 where
  pub block_swap_boundary : ℕ
  pub max_top_buffer_num : ℕ
  pub current_block_swap_count : ℕ
  pub normal : TimeSize
  pub journaling : TimeSize
  pub max_track_num : ℕ
  pub max_block_num : ℕ
  pub current_use_block_num : ℕ
  pub total_access_time : ℕ
  pub total_delete_time : ℕ
  pub total_delete_write_block_size : ℕ
  pub total_delete_write_size : ℕ
  pub total_delete_rewrite_size : ℕ
  pub total_delete_reread_size : ℕ
  pub total_read_size : ℕ
  pub total_write_size : ℕ
  pub total_rewrite_size : ℕ
  pub total_reread_size : ℕ
  pub ins_count : ℕ
  pub read_ins_count : ℕ
  pub write_ins_count : ℕ
  pub delete_ins_count : ℕ
  pub num_invalid_read : ℕ
  pub num_invalid_write : ℕ
  pub next_top_to_write : ℕ
  pub next_bottom_to_write : ℕ
  pub used_buffer_count : ℕ
  pub buffer_flushed : Bool
  pub disk_has_dedupe : Bool
  pub max_logical_block_num : ℕ
  pub reversion_swap_count : ℕ

pub record BbEntry : Type 0 where
  pub pba : ℕ
  pub is_virtual : Bool

pub record BbHead : Type 0 where
  pub table : ℕ → BbEntry
  pub capacity : ℕ
  pub size : ℕ

pub record BatchTable : Type 0 where
  pub block_head : BbHead
  pub extend_head : BbHead

-- `struct disk` with the globals that its operations use: the two batch tables, the recording
-- mode, the top buffer flag and the flag that a trimed track may exist.
pub record Disk : Type 0 where
  pub storage : ℕ → Block
  pub ltp : ℕ → LtpEntry
  pub ptt : ℕ → PttEntry
  pub phase1_buf : ℕ → BufferBlock
  pub hash_table : ℕ → Option DataItem
  pub dinfo_current_track : ℕ
  pub zinfo : ZallocInfo
  pub report : Report
  pub gbtable : BatchTable
  pub mbtable : BatchTable
  pub recording_mode : OpMode
  pub enable_top_buffer : Bool
  pub is_bottom_has_trimed_track : Bool

abbrev pub sector_per_track : ℕ
sector_per_track = 512

abbrev pub sector_size : ℕ
sector_size = 4096

abbrev pub track_size : ℕ
track_size = sector_size * sector_per_track

abbrev pub block_size : ℕ
block_size = track_size

abbrev pub p1_buf_num : ℕ
p1_buf_num = 32

abbrev pub is_toptrack : ℕ → Bool
is_toptrack t = t % 2 == 1

-- In this build (NO_DEDU is not defined).
unfoldable pub storage_is_free : Disk → ℕ → Bool
storage_is_free d pba = is_invalid (d.storage pba).status || is_free (d.storage pba).status

unfoldable pub storage_is_in_use : Disk → ℕ → Bool
storage_is_in_use d pba = is_booked (d.storage pba).status || is_in_use (d.storage pba).status

-- `d->storage[pba].status = status`
abbrev pub set_status : BlockStatus → Block → Block
set_status status b = record b { status = status }
