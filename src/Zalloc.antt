-- ===== src/Zalloc.antt =====
-- src/lba.c (init_disk, the part under ZALLOC): the three passes over the tracks in which blocks
-- are allocated. The first takes the bottom tracks in ascending order; the second takes every other
-- top track, from the last downwards; the third takes the top tracks that remain.
pub mod Find
pub mod Layout
use imr_dedupe.Prelude.{ℕ, ◌+◌, ◌-◌, ◌*◌, ◌/◌, ◌%◌, ◌^◌, Bool, true, false, ◌==◌, if◌then◌else◌}
use imr_dedupe.Disk.{ZallocInfo, ZallocPhase, phase1, add64, is_toptrack, track_size}

-- `uint64_t` subtraction, of operands below 2 ^ 64
abbrev pub sub64 : ℕ → ℕ → ℕ
sub64 a b = (a + (2 ^ 64 - b)) % 2 ^ 64

-- `x & ~0x3UL`
abbrev pub clear_low2 : ℕ → ℕ
clear_low2 x = x - x % 4

-- `GB_TO_BYTE(size) / TRACK_SIZE`, for a size that is positive
unfoldable pub total_tracks : ℕ → ℕ
total_tracks physical_size = (physical_size * 2 ^ 30) % 2 ^ 64 / track_size

unfoldable pub phase3_first : (phase1_start phase2_end : ℕ) → ℕ
phase3_first phase1_start phase2_end =
    if phase2_end == add64 phase1_start 1 then add64 phase1_start 3 else add64 phase1_start 1

-- The layout of a disk with this `max_track_num`; JFS is not defined.
unfoldable pub init_zinfo : ℕ → ZallocInfo
init_zinfo max_track_num =
    let phase1_start : ℕ = 0 in
    let max_track_index = sub64 max_track_num 1 in
    let before = sub64 max_track_index 1 in
    let top = is_toptrack max_track_index in
    let phase2_start = if top then max_track_index else before in
    let phase2_end = add64 phase1_start (phase2_start % 4) in
    let phase3_start = phase3_first phase1_start phase2_end in
    record {
      phase1_start = phase1_start;
      phase1_end = if top then before else max_track_index;
      phase1_is_full = false;
      phase2_start = phase2_start;
      phase2_end = phase2_end;
      phase3_start = phase3_start;
      phase3_end = add64 phase3_start (clear_low2 (sub64 max_track_index phase3_start));
      current_track = phase1_start;
      phase4_start = 1;
      phase4_end = if top then max_track_index else before;
      phases = phase1;
    }
