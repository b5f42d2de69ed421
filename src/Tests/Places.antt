-- ===== src/Tests/Places.antt =====
-- The hash "ab" is first found in block 2, which a new logical block comes to share.
use imr_dedupe.Prelude.{◌<◌, ◌≡◌, arith, Holds, ok, refl, false}
use imr_dedupe.Disk.{hash_eq}
use imr_dedupe.Dedupe.{lba_to_pba, dedupe_update_ltp_table}
use imr_dedupe.Dedupe.Search.{is_in_storage, find_in_phase, find_block}
use imr_dedupe.Dedupe.Place.{
  dedupe_is_lba_valid, dedupe_pba_search, search_by_state, first_write, reuse, share,
}
use imr_dedupe.Dedupe.Place.Mapping.{IsPlaced, dedupe_pba_search-IsPlaced}
use imr_dedupe.Tests.Data.{ab, ab_on_two}
use imr_dedupe.Tests.Writes.{setting}

dedupe_pba_search-IsPlaced_example :
    Holds (λ r. IsPlaced (r.0.ltp 7) r.1 ab) (dedupe_pba_search setting ab_on_two 7 ab false)
dedupe_pba_search-IsPlaced_example = dedupe_pba_search-IsPlaced setting ab_on_two 7 ab false

-- The search does return there.
seven-shares :
    dedupe_pba_search setting ab_on_two 7 ab false
    ≡ ok (share (dedupe_update_ltp_table ab_on_two 7 2 ab) 2, 2, false)
unfolding dedupe_pba_search dedupe_is_lba_valid lba_to_pba search_by_state is_in_storage
    find_in_phase find_block first_write reuse hash_eq dedupe_update_ltp_table
seven-shares = refl

seven-on_disk : lba_to_pba ab_on_two 7 < 8
unfolding lba_to_pba
seven-on_disk = omega arith
