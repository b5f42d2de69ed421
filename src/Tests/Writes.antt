-- ===== src/Tests/Writes.antt =====
-- The logical block 4 is alone on block 1, and is written with the content that it has.
use imr_dedupe.Prelude.{ℕ, ◌≡◌, refl, true, false, Returns, arith}
use imr_dedupe.Disk.{Disk, hash_eq}
use imr_dedupe.Dedupe.{lba_to_pba}
use imr_dedupe.Dedupe.Write.{dedupe_lba_write}
use imr_dedupe.Dedupe.Write.Same.{IsCurrent, dedupe_lba_write-current}
use imr_dedupe.Dedupe.Place.{Setting}
use imr_dedupe.Tests.Data.{ab, eight}
use imr_dedupe.Tests.Sorting.{sort_entries, sort_entries-IsSort}

abbrev pub setting : Setting
setting = record {
  new_alloc = false;
  trim = false;
  trim_v2 = false;
  qsort = sort_entries;
  fuel = 8;
}

abbrev four_on_one : Disk
four_on_one = record eight {
  ltp = λ lba. record { pba = 1; fid = 0; hash = ab; valid = true; trim = false };
}

four_on_one-IsCurrent : IsCurrent four_on_one 4 ab
unfolding lba_to_pba hash_eq
four_on_one-IsCurrent = record {
  logical = omega arith;
  small = omega arith;
  on_disk = omega arith;
  used = refl;
  valid = refl;
  kept = refl;
  same = refl;
  unshared = refl;
}

dedupe_lba_write-current_example : Returns (dedupe_lba_write setting four_on_one 4 1 ab) (λ r.
    ((q : ℕ) → r.0.storage q ≡ four_on_one.storage q) × (r.0.ltp ≡ four_on_one.ltp) × (r.1 ≡ 0))
dedupe_lba_write-current_example =
    dedupe_lba_write-current setting four_on_one 4 ab sort_entries-IsSort four_on_one-IsCurrent refl
      refl
