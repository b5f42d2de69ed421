-- ===== src/Tests/Allocation.antt =====
-- The layout of eight tracks, and an allocation that passes the booked tracks 2 and 4.
use imr_dedupe.Prelude.{
  ℕ, zero, suc, ◌+◌, ◌-◌, ◌*◌, ◌%◌, ◌≤◌, ◌<◌, ◌≡◌, refl, false, Returns, Holds, arith,
  if◌then◌else◌, leb,
}
use imr_dedupe.Disk.{storage_is_free}
use imr_dedupe.Zalloc.{init_zinfo}
use imr_dedupe.Zalloc.Layout.{in_phase1, in_phase2, in_phase3, one, init_zinfo-partition}
use imr_dedupe.Zalloc.Find.{zalloc_find_next_pba}
use imr_dedupe.Zalloc.Find.Rounds.{Booking}
use imr_dedupe.Zalloc.Find.Booking.{zalloc_find_next_pba-Booking}
use imr_dedupe.Zalloc.Find.Phase1.{IsPhase1, is_takable, zalloc_find_next_pba-first}
use imr_dedupe.Tests.Data.{eight}

init_zinfo-partition_example :
    let z = init_zinfo 8 in
    (one (in_phase1 z 5) + one (in_phase2 z 5) + one (in_phase3 z 5) ≡ (if leb 6 8 then 1 else 0))
    × ((z.phase2_start - z.phase2_end) % 4 ≡ 0)
    × (z.phase2_end ≤ z.phase2_start)
init_zinfo-partition_example = init_zinfo-partition 8 5 (omega arith) (omega arith)

zalloc_find_next_pba-Booking_example : Holds (Booking eight) (zalloc_find_next_pba false 3 eight)
zalloc_find_next_pba-Booking_example = zalloc_find_next_pba-Booking false 3 eight

pub eight-IsPhase1 : IsPhase1 eight
eight-IsPhase1 = record {
  phase = refl;
  not_full = refl;
  on_disk = omega arith;
  small = omega arith;
}

pub two_taken : (j : ℕ) → j < 2 → is_takable eight (2 + 2 * j) ≡ false
unfolding storage_is_free
two_taken zero lt = refl
two_taken (suc zero) lt = refl
two_taken (suc (suc j)) lt = absurd (omega arith)

zalloc_find_next_pba-first_example :
    Returns (zalloc_find_next_pba false 3 eight) (λ r. (r.1 ≡ 2 + 2 * 2) × Booking eight r)
unfolding storage_is_free
zalloc_find_next_pba-first_example =
    zalloc_find_next_pba-first eight 2 3 eight-IsPhase1 (omega arith) two_taken refl (omega arith)
