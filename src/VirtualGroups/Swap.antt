-- ===== src/VirtualGroups/Swap.antt =====
-- src/virtual_groups.c (do_dual_swap, dual_swap, swap_block): a bottom track whose neighbours are in use
-- changes places with a top track of its group.
pub mod Least
use imr_dedupe.Prelude.{
  ℕ, zero, suc, ◌+◌, ◌-◌, ◌^◌, Bool, true, false, not, ◌&&◌, ◌||◌, Option, none, some, ltb, ◌==◌,
  if◌then◌else◌, update, Outcome, ok, stop, ◌>>=◌, ◌>>◌, require, undefined, exit_failure,
}
use imr_dedupe.Disk.{
  Disk, Block, BlockStatus, free, booked, in_use, trimed, invalid, end, is_booked, add32, add64,
  is_toptrack, set_status, storage_is_free,
}
use imr_dedupe.Zalloc.Find.{rounds_of}
use imr_dedupe.VirtualGroups.{VgStatus, vg_constrain, VirtualGroup, Groups, pba_to_vg}

-- `swap_block`, of two blocks of the disk. The field `lba` of a block in use is the address of an
-- array, and there is no entry of the mapping at it.
unfoldable pub swap_block : Disk → (top bottom : ℕ) → Outcome Disk
swap_block d top bottom =
    let put = λ (status : BlockStatus).
      let storage = update d.storage bottom (set_status status (d.storage bottom)) in
      record d { storage = update storage top (set_status booked (storage top)) } in
    elim (d.storage top).status [
      | free ↦ ok (put free)
      | invalid ↦ ok (put invalid)
      | in_use ↦ stop undefined
      | booked ↦ stop exit_failure
      | trimed ↦ stop exit_failure
      | end ↦ stop exit_failure
    ]

-- The top track so far, with its count; `none` is (unsigned long)-1.
abbrev pub Best : Type 0
Best = Option ℕ × ℕ

-- The top tracks from `track` on, of which there are `n`: the first that is free or invalid, or the
-- first of those, booked ones left out, that have the least count.
unfoldable pub find_top : Disk → (n track : ℕ) → Best → Outcome (Option ℕ)
find_top d zero track (best, count) = ok best
find_top d (suc n) track (best, count) =
    let b = d.storage track in
    require (ltb track d.report.max_block_num) undefined >> elim (storage_is_free d track) [
      | true ↦ ok (some track)
      | false ↦ elim (not (is_booked b.status) && ltb b.count count) [
        | true ↦ find_top d n (track + 2) (some track, b.count)
        | false ↦ find_top d n (track + 2) (best, count)
      ]
    ]

-- `d->report.dual_swap_count` is not part of the report. The result is the disk and `*tba`, if there
-- was a swap.
unfoldable pub swap_with : Disk → (bba : ℕ) → Option ℕ → Outcome (Disk × Option ℕ)
swap_with d bba none = ok (d, none)
swap_with d bba (some top) = do
  require (ltb bba d.report.max_block_num) undefined
  d' ← swap_block d top bba
  ok (d', some top)

unfoldable pub dual_swap : Disk → VirtualGroup → (bba : ℕ) → Outcome (Disk × Option ℕ)
dual_swap d vg bba =
    find_top d (rounds_of vg.top_start vg.top_end) vg.top_start (none, 2 ^ 32 - 1)
    >>= swap_with d bba

abbrev pub is_constrained : VgStatus → Bool
is_constrained vg_constrain = true
is_constrained _ = false

-- Whether the neighbour on a side is missing or free.
unfoldable pub is_side_free : Disk → Option ℕ → Outcome Bool
is_side_free d none = ok true
is_side_free d (some track) =
    require (ltb track d.report.max_block_num) undefined >> ok (storage_is_free d track)

abbrev pub higher_neighbor : Disk → ℕ → Option ℕ
higher_neighbor d track = if ltb d.report.max_track_num track then none else some (add64 track 1)

abbrev pub lower_neighbor : ℕ → Option ℕ
lower_neighbor track = if track == 0 then none else some (track - 1)

unfoldable pub swap_between : Disk → VirtualGroup → (bba : ℕ) → Outcome (Disk × Option ℕ)
swap_between d vg bba = is_side_free d (higher_neighbor d bba) >>= λ higher.
    (elim higher [ true ↦ is_side_free d (lower_neighbor bba) | false ↦ ok false ]) >>= λ both.
    elim both [ true ↦ ok (d, none) | false ↦ dual_swap d vg bba ]

-- The group of the block, if it has one.
unfoldable pub swap_in_group :
    {Heads : Type 0} → Disk → Groups Heads → (bba : ℕ) → Option ℕ → Outcome (Disk × Option ℕ)
swap_in_group d g bba none = stop undefined
swap_in_group d g bba (some i) = elim (is_constrained (g.vg i).vg_status) [
  | false ↦ ok (d, none)
  | true ↦ swap_between d (g.vg i) bba
]

unfoldable pub do_dual_swap :
    {Heads : Type 0} → Disk → Groups Heads → (bba : ℕ) → Outcome (Disk × Option ℕ)
do_dual_swap d g bba = elim (is_toptrack bba) [
  | true ↦ ok (d, none)
  | false ↦ pba_to_vg g bba >>= swap_in_group d g bba
]
