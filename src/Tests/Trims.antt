-- ===== src/Tests/Trims.antt =====
-- The logical blocks 5 and 6 share the physical block 3; 5 is trimmed.
use imr_dedupe.Prelude.{ℕ, ◌≡◌, ◌≢◌, refl, update, Returns, ok, arith}
use imr_dedupe.Disk.{Block, Disk, hash_eq}
use imr_dedupe.Dedupe.{
  lba_to_pba, trimmed_entry, find_lba, shift_lba, drop_lba, delete_lba_in_storage, release,
  trim_block, dedupe_trim,
}
use imr_dedupe.Dedupe.Release.{IsOwned, Released}
use imr_dedupe.Dedupe.Trim.Consistent.{IsConsistent, dedupe_trim-IsConsistent}
use imr_dedupe.Dedupe.Trim.{dedupe_trim-Released}
use imr_dedupe.Tests.Data.{ab, eight}

five-IsOwned : IsOwned eight (lba_to_pba eight 5) 5
unfolding lba_to_pba
five-IsOwned = record {
  on_disk = omega arith;
  used = refl;
  small = omega arith;
  room = omega arith;
  few = omega arith;
  owner = refl;
}

dedupe_trim-Released_example : Returns (dedupe_trim eight 5 ab) (λ d'.
    (d'.ltp 5 ≡ trimmed_entry (eight.ltp 5))
    × ((l : ℕ) → l ≢ 5 → d'.ltp l ≡ eight.ltp l)
    × Released (record eight { ltp = d'.ltp }) (lba_to_pba eight 5) 5 d')
unfolding hash_eq
dedupe_trim-Released_example = dedupe_trim-Released eight 5 ab (omega arith) refl five-IsOwned

-- The disk after the trim: logical block 6 alone is left on block 3.
abbrev trimmed : Disk
trimmed =
    let b : Block = eight.storage 3 in
    let shifted = record b { lba = update b.lba 0 6 } in
    record eight {
      ltp = update eight.ltp 5 (trimmed_entry (eight.ltp 5));
      storage = update (update eight.storage 3 shifted) 3 (record shifted { referenced_count = 0 });
    }

eight-trimmed : dedupe_trim eight 5 ab ≡ ok trimmed
unfolding dedupe_trim lba_to_pba trim_block delete_lba_in_storage find_lba drop_lba shift_lba
    release hash_eq
eight-trimmed = refl

pub eight-IsConsistent : IsConsistent eight
unfolding lba_to_pba
eight-IsConsistent = record {
  owned = λ l below valid. let at : l ≡ 5 = ground arith in rw at five-IsOwned;
}

dedupe_trim-IsConsistent_example :
    Returns (dedupe_trim eight 5 ab) (λ d'. IsConsistent d' × (d'.report ≡ eight.report))
dedupe_trim-IsConsistent_example =
    dedupe_trim-IsConsistent eight 5 ab (omega arith) eight-IsConsistent
