-- ===== src/Zalloc/Find/Booking.antt =====
-- src/pba.c (zalloc_find_next_pba): in whatever phase a block is allocated, it was free.
use imr_dedupe.Prelude.{ℕ, zero, suc, Bool, Outcome, ok, stop, ◌>>=◌, Holds}
use imr_dedupe.Disk.{Disk}
use imr_dedupe.Zalloc.Find.{Round, allocated, again, zalloc_round, zalloc_find_next_pba}
use imr_dedupe.Zalloc.Find.Rounds.{Booking, IsRound, Same, Same-Booking, zalloc_round-IsRound}

-- In whatever state the allocator is, a block that it returns was free, and is booked in the disk
-- that it returns; the other blocks, the mapping and the hash table are as they were.
pub zalloc_find_next_pba-Booking :
    (new_alloc : Bool) (fuel : ℕ) (d : Disk)
    → Holds (Booking d) (zalloc_find_next_pba new_alloc fuel d)
unfolding zalloc_find_next_pba
zalloc_find_next_pba-Booking new_alloc zero d = tt
zalloc_find_next_pba-Booking new_alloc (suc fuel) d =
    go (zalloc_round new_alloc d d.zinfo.phases) (zalloc_round-IsRound new_alloc d d.zinfo.phases)
      (zalloc_find_next_pba-Booking new_alloc fuel)
  where
    booking_after :
        {d' : Disk} (m : Outcome (Disk × ℕ))
        → Same d d'
        → Holds (Booking d') m
        → Holds (Booking d) m
    booking_after (ok r) s b = Same-Booking s r b
    booking_after (stop e) s b = tt

    go :
        (m : Outcome Round)
        → Holds (IsRound d) m
        → ((d' : Disk) → Holds (Booking d') (zalloc_find_next_pba new_alloc fuel d'))
        → Holds (Booking d) (
            m >>= λ r. elim r [
              | allocated d' pba ↦ ok (d', pba)
              | again d' ↦ zalloc_find_next_pba new_alloc fuel d'
            ])
    go (ok (allocated d' pba)) h rest = h
    go (ok (again d')) h rest = booking_after (zalloc_find_next_pba new_alloc fuel d') h (rest d')
    go (stop s) h rest = tt
