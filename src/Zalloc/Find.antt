-- ===== src/Zalloc/Find.antt =====
-- src/pba.c (zalloc_find_next_pba, dedupe_find_next_pba): the allocation of a block, in the build
-- with DEDU_WRITE and without TOP_BUFFER. A round of `while (1)` either returns a block or goes on.
pub mod Rounds
pub mod Booking
pub mod Phase1
use imr_dedupe.Prelude.{
  ℕ, zero, suc, ◌+◌, ◌-◌, ◌*◌, ◌/◌, Bool, true, false, not, ◌&&◌, Option, none, some, ◌==◌, ltb,
  leb, if◌then◌else◌, update, Outcome, ok, stop, ◌>>=◌, ◌>>◌, require, undefined, jumped,
  out_of_fuel,
}
use imr_dedupe.Disk.{
  Disk, Hash, ZallocInfo, ZallocPhase, phase1, phase2, phase3, phase4, is_normal, booked, add64,
  set_status, storage_is_free,
}
use imr_dedupe.Zalloc.{sub64}

pub data Round : Type 0 where
  allocated : Disk → ℕ → Round
  again : Disk → Round

-- `d->storage[pba].status = status_booked; return pba;`
abbrev pub book : Disk → ℕ → Round
book d pba =
    allocated (record d { storage = update d.storage pba (set_status booked (d.storage pba)) }) pba

abbrev pub set_zinfo : Disk → ZallocInfo → Disk
set_zinfo d z = record d { zinfo = z }

-- The tracks from `i` on, every second, of which there are `n`: the first one that is free.
unfoldable pub find_free : Disk → (n i : ℕ) → Outcome (Option ℕ)
find_free d zero i = ok none
find_free d (suc n) i = elim (ltb i d.report.max_block_num) [
  | false ↦ stop undefined
  | true ↦ elim (storage_is_free d i) [ true ↦ ok (some i) | false ↦ find_free d n (i + 2) ]
]

-- How often `for (i = start; i <= last; i += 2)` turns.
abbrev pub rounds_of : (start last : ℕ) → ℕ
rounds_of start last = if leb start last then (last - start) / 2 + 1 else 0

-- What follows the `switch` in phase 1.
unfoldable pub try_bottom : Disk → ℕ → Outcome Round
try_bottom d pba = do
  require (ltb pba d.report.max_block_num) undefined
  ok (if storage_is_free d pba && is_normal (d.ptt pba).type then book d pba else again d)

-- What follows it in phases 2 and 3: a top track is taken between two tracks that are shared.
unfoldable pub take_between : Disk → ℕ → Outcome Round
take_between d pba = do
  let next_track = add64 pba 1
  require (ltb next_track d.report.max_block_num) undefined
  require (ltb pba d.report.max_block_num) undefined
  let shared = ltb 0 (d.storage next_track).referenced_count
  ok (if shared && storage_is_free d pba then book d pba else again d)

unfoldable pub try_top : Disk → ℕ → Outcome Round
try_top d pba =
    let pre_track = sub64 pba 1 in
    require (ltb pre_track d.report.max_block_num) undefined
    >> (if ltb 0 (d.storage pre_track).referenced_count then take_between d pba else ok (again d))

-- The end of phase 1 without NEW_ALLOC and with it. The loop for a top track in the second has no
-- effect, since `track` is assigned again after it.
unfoldable pub next_bottom : Bool → Disk → ℕ → Disk × ℕ
next_bottom false d track =
    let z = d.zinfo in
    let z' =
      if track == z.phase1_end
      then record z { phase1_is_full = true }
      else record z { current_track = add64 z.current_track 2 } in
    (set_zinfo d z', track)
next_bottom true d track =
    let next = d.report.next_bottom_to_write in
    if leb d.zinfo.phase1_end next
    then (set_zinfo d (record d.zinfo { phase1_is_full = true }), track)
    else (record d { report = record d.report { next_bottom_to_write = add64 next 2 } }, next)

unfoldable pub go_on_bottom : Bool → Disk → ℕ → Outcome Round
go_on_bottom new_alloc d track = let (d', pba) = next_bottom new_alloc d track in try_bottom d' pba

-- Where the sequential search of phase 1 has led; if it failed, phase 2 is set up, but this round
-- goes on as one of phase 1.
unfoldable pub after_search : Bool → Disk → ℕ → Option ℕ → Outcome Round
after_search new_alloc d track (some i) =
    ok (book (set_zinfo d (record d.zinfo { current_track = i; phase1_is_full = false })) i)
after_search new_alloc d track none =
    let z = record d.zinfo { phases = phase2; current_track = d.zinfo.phase2_start } in
    go_on_bottom new_alloc (record (set_zinfo d z) { enable_top_buffer = true }) track

unfoldable pub round1 : Bool → Disk → Outcome Round
round1 new_alloc d =
    let z = d.zinfo in
    let track = z.current_track in
    if z.phase1_is_full
    then find_free d (rounds_of z.phase1_start z.phase1_end) z.phase1_start
      >>= after_search new_alloc d track
    else go_on_bottom new_alloc d track

abbrev pub step2 : ZallocInfo → ZallocInfo
step2 z =
    if z.current_track == z.phase2_end
    then record z { current_track = z.phase3_start; phases = phase3 }
    else record z { current_track = sub64 z.current_track 4 }

abbrev pub step3 : ZallocInfo → ℕ → ZallocInfo
step3 z max_track_num =
    if ltb max_track_num z.current_track
    then record z { current_track = z.phase4_start; phases = phase4 }
    else record z { current_track = add64 z.current_track 4 }

-- Phase 4 takes any free top track; without one, the disk is full.
unfoldable pub take_top : Disk → Option ℕ → Outcome Round
take_top d none = stop jumped
take_top d (some i) = ok (book (set_zinfo d (record d.zinfo { current_track = i })) i)

unfoldable pub round4 : Disk → Outcome Round
round4 d =
    let z = d.zinfo in
    find_free d (rounds_of z.phase4_start z.phase4_end) z.phase4_start >>= take_top d

unfoldable pub zalloc_round : Bool → Disk → ZallocPhase → Outcome Round
zalloc_round new_alloc d phase1 = round1 new_alloc d
zalloc_round new_alloc d phase2 = try_top (set_zinfo d (step2 d.zinfo)) d.zinfo.current_track
zalloc_round new_alloc d phase3 =
    try_top (set_zinfo d (step3 d.zinfo d.report.max_track_num)) d.zinfo.current_track
zalloc_round new_alloc d phase4 = round4 d

unfoldable pub zalloc_find_next_pba : Bool → (fuel : ℕ) → Disk → Outcome (Disk × ℕ)
zalloc_find_next_pba new_alloc zero d = stop out_of_fuel
zalloc_find_next_pba new_alloc (suc fuel) d = zalloc_round new_alloc d d.zinfo.phases >>= λ r.
    elim r [ allocated d' pba ↦ ok (d', pba) | again d' ↦ zalloc_find_next_pba new_alloc fuel d' ]
