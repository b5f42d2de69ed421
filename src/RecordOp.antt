-- ===== src/RecordOp.antt =====
-- src/record_op.c: the access times and the sizes that the report accumulates. Sizes are in tracks
-- times TRACK_SIZE, times in nanoseconds; every counter is a `uint64_t`.
pub mod Charges
pub mod Frame
use imr_dedupe.Prelude.{
  ℕ, ◌+◌, ◌-◌, ◌*◌, Bool, true, false, ◌||◌, List, [], ◌∷◌, ◌==◌, if◌then◌else◌, slice, Outcome, ok,
  stop, exit_failure,
}
use imr_dedupe.Disk.{
  OpMode, normal_op_mode, journaling_op_mode, TimeSize, Report, BbEntry, BbHead, Disk, add64,
  track_size,
}

abbrev pub l_seek : ℕ
l_seek = 8_000_000

abbrev pub l_rotational : ℕ
l_rotational = 8_330_000

abbrev pub l_transfer : ℕ
l_transfer = 13_443_282

-- `L_SEEK + tracks * (L_ROTATIONAL + L_TRANSFER)`
abbrev pub access_time : ℕ → ℕ
access_time tracks = l_seek + tracks * (l_rotational + l_transfer)

-- `t_s`, the part of the report that the recording mode selects
abbrev pub time_size : OpMode → Report → TimeSize
time_size normal_op_mode p = p.normal
time_size journaling_op_mode p = p.journaling

abbrev pub set_time_size : OpMode → TimeSize → Report → Report
set_time_size normal_op_mode t p = record p { normal = t }
set_time_size journaling_op_mode t p = record p { journaling = t }

unfoldable pub record_write_physical_tracks : OpMode → ℕ → Report → Report
record_write_physical_tracks mode tracks p =
    let t_s = time_size mode p in
    set_time_size mode
      (record t_s {
        total_write_time = add64 t_s.total_write_time (access_time tracks);
        total_write_size = add64 t_s.total_write_size (tracks * track_size);
      })
      (record p {
        total_access_time = add64 p.total_access_time (access_time tracks);
        total_write_size = add64 p.total_write_size (tracks * track_size);
      })

unfoldable pub record_read_physical_tracks : OpMode → ℕ → Report → Report
record_read_physical_tracks mode tracks p =
    let t_s = time_size mode p in
    set_time_size mode
      (record t_s { total_read_time = add64 t_s.total_read_time (access_time tracks) })
      (record p {
        total_access_time = add64 p.total_access_time (access_time tracks);
        total_read_size = add64 p.total_read_size (tracks * track_size);
      })

unfoldable pub record_delete_physical_tracks : ℕ → Report → Report
record_delete_physical_tracks tracks p = record p {
  total_access_time = add64 p.total_access_time (access_time tracks);
  total_delete_time = add64 p.total_delete_time (access_time tracks);
  total_delete_write_size = add64 p.total_delete_write_size (tracks * track_size);
}

-- Reading the tracks, writing them to a temporary area, and writing them back.
unfoldable pub record_write_virtual_tracks : OpMode → ℕ → ℕ → Report → Report
record_write_virtual_tracks mode total_tracks num_phy_tracks p =
    let t_s = time_size mode p in
    let reread_time = access_time total_tracks in
    let write_time = 2 * access_time total_tracks in
    set_time_size mode
      (record t_s {
        total_write_time = add64 t_s.total_write_time (write_time + reread_time);
        total_write_size = add64 t_s.total_write_size (num_phy_tracks * track_size);
      })
      (record p {
        total_access_time = add64 p.total_access_time (reread_time + write_time);
        total_rewrite_size =
            add64 p.total_rewrite_size ((total_tracks - num_phy_tracks) * track_size);
        total_reread_size = add64 p.total_reread_size (total_tracks * track_size);
        total_write_size = add64 p.total_write_size (num_phy_tracks * track_size);
      })

unfoldable pub record_delete_virtual_tracks : ℕ → ℕ → Report → Report
record_delete_virtual_tracks total_tracks num_phy_tracks p =
    let read_time = access_time total_tracks in
    let write_time = 2 * access_time total_tracks in
    record p {
      total_access_time = add64 p.total_access_time (read_time + write_time);
      total_delete_time = add64 p.total_delete_time (write_time + read_time);
      total_delete_write_size = add64 p.total_delete_write_size (num_phy_tracks * track_size);
      total_delete_rewrite_size =
          add64 p.total_delete_rewrite_size ((total_tracks - num_phy_tracks) * track_size);
      total_delete_reread_size = add64 p.total_delete_reread_size (total_tracks * track_size);
    }

-- The end of a run of neighbouring tracks in `record_write` and in `record_delete`.
unfoldable pub write_group : OpMode → Bool → ℕ → ℕ → Report → Report
write_group mode is_virtual continuous_tracks num_phy_tracks p =
    if is_virtual
    then record_write_virtual_tracks mode continuous_tracks num_phy_tracks p
    else record_write_physical_tracks mode continuous_tracks p

unfoldable pub delete_group : Bool → ℕ → ℕ → Report → Report
delete_group is_virtual continuous_tracks num_phy_tracks p =
    if is_virtual
    then record_delete_virtual_tracks continuous_tracks num_phy_tracks p
    else record_delete_physical_tracks continuous_tracks p

-- The loop that `record_write` and `record_delete` have in common, from the entry `curr` on.
unfoldable pub group_loop :
    (Bool → ℕ → ℕ → Report → Report)
    → (curr : BbEntry) → List BbEntry
    → (continuous_tracks num_phy_tracks : ℕ) → Bool
    → Report
    → Report
group_loop group curr [] continuous_tracks num_phy_tracks is_virtual p =
    group (is_virtual || curr.is_virtual) continuous_tracks
      (if curr.is_virtual then num_phy_tracks else num_phy_tracks + 1) p
group_loop group curr (next ∷ l) continuous_tracks num_phy_tracks is_virtual p =
    let v = is_virtual || curr.is_virtual in
    let n = if curr.is_virtual then num_phy_tracks else num_phy_tracks + 1 in
    elim (add64 curr.pba 1 == next.pba) [
      | true ↦ group_loop group next l (continuous_tracks + 1) n v p
      | false ↦ group_loop group next l 1 0 false (group v continuous_tracks n p)
    ]

-- The first entry of the table is read even where the table is empty.
abbrev pub from_first : (Bool → ℕ → ℕ → Report → Report) → BbHead → Report → Report
from_first group h =
    group_loop group (h.table 0) (slice h.table 1 (h.size - 1)) 1 0 (h.table 0).is_virtual

unfoldable pub record_write : OpMode → BbHead → Report → Report
record_write mode extend_head = from_first (write_group mode) extend_head

unfoldable pub record_delete : BbHead → Report → Report
record_delete extend_head = from_first delete_group extend_head

-- The last entry is not looked at for `isVirtual`.
unfoldable pub read_loop :
    OpMode → (curr : BbEntry) → List BbEntry → (continuous_tracks : ℕ) → Report → Outcome Report
read_loop mode curr [] continuous_tracks p =
    ok (record_read_physical_tracks mode continuous_tracks p)
read_loop mode curr (next ∷ l) continuous_tracks p = elim curr.is_virtual [
  | true ↦ stop exit_failure
  | false ↦ elim (add64 curr.pba 1 == next.pba) [
    | true ↦ read_loop mode next l (continuous_tracks + 1) p
    | false ↦ read_loop mode next l 1 (record_read_physical_tracks mode continuous_tracks p)
  ]
]

unfoldable pub record_read : OpMode → BbHead → Report → Outcome Report
record_read mode block_head =
    read_loop mode (block_head.table 0) (slice block_head.table 1 (block_head.size - 1)) 1
