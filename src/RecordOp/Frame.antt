-- ===== src/RecordOp/Frame.antt =====
-- src/record_op.c: `record_write` changes the write accounts of the report alone.
use imr_dedupe.Prelude.{
  ℕ, ◌+◌, ◌≡◌, refl, ◌∙◌, Bool, true, false, List, [], ◌∷◌, ◌==◌, Bool-cases, inl, inr, Holds,
  subst,
}
use imr_dedupe.Disk.{
  OpMode, normal_op_mode, journaling_op_mode, TimeSize, Report, BbEntry, BbHead, add64,
}
use imr_dedupe.RecordOp.{
  set_time_size, record_write_physical_tracks, record_write_virtual_tracks, write_group, group_loop,
  record_write, record_read_physical_tracks, read_loop, record_read, delete_group, record_delete,
  record_delete_physical_tracks, record_delete_virtual_tracks,
}

abbrev zero_times : TimeSize
zero_times = record {
  total_read_time = 0;
  total_write_time = 0;
  total_write_size = 0;
  total_read_block_size = 0;
  total_write_block_size = 0;
}

-- The report without the accounts of reading and writing.
abbrev pub without_accounts : Report → Report
without_accounts p = record p {
  normal = zero_times;
  journaling = zero_times;
  total_access_time = 0;
  total_read_size = 0;
  total_write_size = 0;
  total_rewrite_size = 0;
  total_reread_size = 0;
}

group_frame :
    (mode : OpMode) (v : Bool) (c n : ℕ) (p : Report)
    → without_accounts (write_group mode v c n p) ≡ without_accounts p
unfolding write_group record_write_physical_tracks record_write_virtual_tracks
group_frame normal_op_mode true c n p = refl
group_frame normal_op_mode false c n p = refl
group_frame journaling_op_mode true c n p = refl
group_frame journaling_op_mode false c n p = refl

loop_frame :
    (mode : OpMode) (curr : BbEntry) (l : List BbEntry) (c n : ℕ) (v : Bool) (p : Report)
    → without_accounts (group_loop (write_group mode) curr l c n v p) ≡ without_accounts p
unfolding group_loop
loop_frame mode curr [] c n v p = group_frame mode _ c _ p
loop_frame mode curr (next ∷ l) c n v p = elim (Bool-cases (add64 curr.pba 1 == next.pba)) [
  | inl e ↦ rw (e, group_loop) (loop_frame mode next l (c + 1) _ _ p)
  | inr e ↦ rw (e, group_loop) (loop_frame mode next l 1 0 false _ ∙ group_frame mode _ c _ p)
]

pub record_write_frame :
    (mode : OpMode) (h : BbHead) (p : Report)
    → without_accounts (record_write mode h p) ≡ without_accounts p
unfolding record_write
record_write_frame mode h p = loop_frame mode (h.table 0) _ 1 0 _ p

record_read_tracks_frame :
    (mode : OpMode) (c : ℕ) (p : Report)
    → without_accounts (record_read_physical_tracks mode c p) ≡ without_accounts p
unfolding record_read_physical_tracks
record_read_tracks_frame normal_op_mode c p = refl
record_read_tracks_frame journaling_op_mode c p = refl

read_loop_frame :
    (mode : OpMode) (curr : BbEntry) (l : List BbEntry) (c : ℕ) (p : Report)
    → Holds (λ q. without_accounts q ≡ without_accounts p) (read_loop mode curr l c p)
unfolding read_loop
read_loop_frame mode curr [] c p = record_read_tracks_frame mode c p
read_loop_frame mode curr (next ∷ l) c p = elim (Bool-cases curr.is_virtual) [
  | inl v ↦ rw (v, read_loop) tt
  | inr v ↦ elim (Bool-cases (add64 curr.pba 1 == next.pba)) [
    | inl e ↦ rw (v, e, read_loop) (read_loop_frame mode next l (c + 1) p)
    | inr e ↦
        let p' = record_read_physical_tracks mode c p in
        rw (v, e, read_loop)
          (subst (λ (w : Report). Holds (λ q. without_accounts q ≡ w) (read_loop mode next l 1 p'))
            (record_read_tracks_frame mode c p) (read_loop_frame mode next l 1 p'))
  ]
]

-- A read that is recorded changes the accounts alone.
pub record_read_frame :
    (mode : OpMode) (h : BbHead) (p : Report)
    → Holds (λ q. without_accounts q ≡ without_accounts p) (record_read mode h p)
unfolding record_read
record_read_frame mode h p = read_loop_frame mode (h.table 0) _ 1 p

pub set_time_size_frame :
    (mode : OpMode) (t : TimeSize) (p : Report)
    → without_accounts (set_time_size mode t p) ≡ without_accounts p
set_time_size_frame normal_op_mode t p = refl
set_time_size_frame journaling_op_mode t p = refl

-- The sizes of the disk.
abbrev pub sizes : Report → ℕ × ℕ × ℕ
sizes p = (p.max_block_num, p.max_track_num, p.max_logical_block_num)

sizes-delete_group : (v : Bool) (c n : ℕ) (p : Report) → sizes (delete_group v c n p) ≡ sizes p
unfolding delete_group record_delete_physical_tracks record_delete_virtual_tracks
sizes-delete_group true c n p = refl
sizes-delete_group false c n p = refl

sizes-delete_loop :
    (curr : BbEntry) (l : List BbEntry) (c n : ℕ) (v : Bool) (p : Report)
    → sizes (group_loop delete_group curr l c n v p) ≡ sizes p
unfolding group_loop
sizes-delete_loop curr [] c n v p = sizes-delete_group _ c _ p
sizes-delete_loop curr (next ∷ l) c n v p = elim (Bool-cases (add64 curr.pba 1 == next.pba)) [
  | inl e ↦ rw (e, group_loop) (sizes-delete_loop next l (c + 1) _ _ p)
  | inr e ↦ rw (e, group_loop) (sizes-delete_loop next l 1 0 false _ ∙ sizes-delete_group _ c _ p)
]

pub sizes-record_delete : (h : BbHead) (p : Report) → sizes (record_delete h p) ≡ sizes p
unfolding record_delete
sizes-record_delete h p = sizes-delete_loop (h.table 0) _ 1 0 _ p
