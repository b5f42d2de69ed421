-- ===== src/Tests/Sharing.antt =====
-- A disk on which the allocator takes block 6 for the content "ba", which no block has.
use imr_dedupe.Prelude.{
  ℕ, ◌+◌, ◌*◌, ◌<◌, ◌≡◌, refl, false, ◌==◌, if◌then◌else◌, Returns, arith, Bool-cases, inl, inr,
  ◌>>=◌,
}
use imr_dedupe.Disk.{Disk, in_use, hash_eq, storage_is_free}
use imr_dedupe.Zalloc.Find.{
  zalloc_find_next_pba, zalloc_round, round1, go_on_bottom, next_bottom, try_bottom, find_free,
  after_search,
}
use imr_dedupe.Dedupe.{lba_to_pba, dedupe_trim}
use imr_dedupe.Dedupe.Search.Least.{IsScanned, scan}
use imr_dedupe.Dedupe.Trim.Consistent.{IsConsistent}
use imr_dedupe.Dedupe.Write.{dedupe_lba_write}
use imr_dedupe.Dedupe.Write.New.{IsNew}
use imr_dedupe.Dedupe.Write.New.Effects.{NewWritten, dedupe_lba_write-NewWritten}
use imr_dedupe.Dedupe.Write.Share.{IsShareable}
use imr_dedupe.Dedupe.Write.Share.Effects.{Shared, dedupe_lba_write-Shared}
use imr_dedupe.Dedupe.Sharing.{AreNew, one_more, OneLeft, dedupe_trim-dedupe_lba_write}
use imr_dedupe.Tests.Data.{ab, ba, eight, ab_on_two}
use imr_dedupe.Tests.Sorting.{sort_entries-IsSort}
use imr_dedupe.Tests.Writes.{setting}

-- Block 0 is in use, as the booked and used blocks of `eight` are.
abbrev six_free : Disk
six_free = record eight {
  storage = λ q. if q == 0 then record (eight.storage 0) { status = in_use } else eight.storage q;
  report = record eight.report { current_use_block_num = 3 };
}

six_taken : Returns (zalloc_find_next_pba false 8 six_free) (λ r.
    (r.1 ≡ 6)
    × IsScanned (scan false (one_more r.0)) r.1
    × (r.0.zinfo.phase1_start ≡ 0)
    × (r.0.report.current_use_block_num ≡ 3))
unfolding zalloc_find_next_pba zalloc_round round1 go_on_bottom next_bottom try_bottom find_free
    after_search storage_is_free
six_taken = (_, refl, (refl, (3, omega arith, refl), refl, refl))

no_ba : (q : ℕ) → hash_eq (six_free.storage q).hash ba ≡ false
unfolding hash_eq
no_ba q = elim (Bool-cases (q == 0)) [
  | inl e ↦ rw e refl
  | inr e ↦ elim (Bool-cases (q == 3)) [ inl k ↦ rw (e, k) refl | inr k ↦ rw (e, k) refl ]
]

two-IsNew : IsNew setting six_free 2 ba six_taken.0
unfolding lba_to_pba hash_eq
two-IsNew = record {
  logical = omega arith;
  small = omega arith;
  leads = omega arith;
  unmapped = refl;
  kept = refl;
  absent = λ q lt. no_ba q;
  unlisted = λ i lt. refl;
  real = λ e. cc;
  short = omega arith;
  roomy = record {
    a = 0;
    b = 1;
    reachable = λ i item k hi content. cc;
    inside_a = omega arith;
    inside_b = omega arith;
    empty_a = refl;
    empty_b = refl;
    apart = omega arith;
  };
  finds = six_taken.1;
  on_disk = rw (six_taken.2.0) (omega arith);
  tracks = refl;
  starts = refl;
  few = omega arith;
  unshared = rw (six_taken.2.0) refl;
  room = rw (six_taken.2.0) (omega arith);
  closed = refl;
}

dedupe_lba_write-NewWritten_example :
    Returns
      (dedupe_lba_write setting six_free 2 1 ba)
      (λ w. NewWritten six_free 2 ba six_taken.0 w × (IsConsistent six_free → IsConsistent w.0))
dedupe_lba_write-NewWritten_example =
    dedupe_lba_write-NewWritten setting six_free 2 ba six_taken.0 sort_entries-IsSort two-IsNew

two-three-AreNew : AreNew setting six_free 2 3 ba six_taken.0
unfolding lba_to_pba
two-three-AreNew = record {
  first_new = two-IsNew;
  apart = omega arith;
  logical = omega arith;
  leads = omega arith;
  unmapped = refl;
  kept = refl;
  capacity_bound = rw (six_taken.2.0) (omega arith);
  not_zero = rw (six_taken.2.0) (omega arith);
  zero_unshared = refl;
  counted = rw (six_taken.2.3) (omega arith);
  starts = six_taken.2.2;
  scanned = six_taken.2.1;
}

dedupe_trim-dedupe_lba_write_example :
    Returns
      (dedupe_lba_write setting six_free 2 1 ba >>= λ w.
        dedupe_lba_write setting w.0 3 1 ba >>= λ v. dedupe_trim v.0 2 ba)
      (λ e. OneLeft 2 3 ba six_taken.0.1 e × (IsConsistent six_free → IsConsistent e))
dedupe_trim-dedupe_lba_write_example =
    dedupe_trim-dedupe_lba_write setting six_free 2 3 ba six_taken.0 sort_entries-IsSort
      two-three-AreNew

-- The block 2 has the content "ab".
seven-IsShareable : IsShareable setting ab_on_two 7 ab 2
unfolding lba_to_pba hash_eq
seven-IsShareable = record {
  logical = omega arith;
  small = omega arith;
  leads = omega arith;
  unmapped = refl;
  kept = refl;
  tracks = refl;
  starts = refl;
  on_disk = omega arith;
  first = (refl, 1, omega arith, refl, λ j lt. before j lt);
  used = refl;
  room = omega arith;
  owners_bound = omega arith;
  capacity_bound = omega arith;
  few = omega arith;
  cells = omega arith;
  counter = omega arith;
  unlisted = λ i lt. omega arith;
}
  where
    before : (j : ℕ) → j < 1 → hash_eq (ab_on_two.storage (0 + j * 2)).hash ab ≡ false
    before j lt = let here : j ≡ 0 = omega arith in rw here refl

dedupe_lba_write-Shared_example :
    Returns
      (dedupe_lba_write setting ab_on_two 7 1 ab)
      (λ w. Shared ab_on_two 7 ab 2 w × (IsConsistent ab_on_two → IsConsistent w.0))
dedupe_lba_write-Shared_example = dedupe_lba_write-Shared setting ab_on_two 7 ab 2 seven-IsShareable
