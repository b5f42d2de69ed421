-- ===== src/Tests/Files.antt =====
-- The files 7 and 9 on a disk of eight blocks: 7 has the logical blocks 1 and 3, 9 the logical block 2.
use imr_dedupe.Prelude.{
  ℕ, ◌+◌, ◌*◌, ◌≤◌, ◌<◌, ◌≡◌, refl, true, false, [], ◌==◌, ◌||◌, if◌then◌else◌, Returns, arith,
  Bool-cases, inl, inr,
}
use imr_dedupe.Disk.{free, in_use, Disk, storage_is_free}
use imr_dedupe.RecordOp.Charges.{Grows}
use imr_dedupe.BlockIo.Delete.{IsBacked}
use imr_dedupe.Files.{lba_read, lba_write, native_lba_delete}
use imr_dedupe.Files.Read.{IsRequest, FileRead, lba_read-FileRead}
use imr_dedupe.Files.Foreign.{with_invalid_writes, IsForeign, lba_write-foreign}
use imr_dedupe.Files.Collect.{belongs, IsStored}
use imr_dedupe.Files.Delete.{FileDeleted, native_lba_delete-FileDeleted}
use imr_dedupe.Files.RoundTrip.{IsFresh, lba_write-lba_read}
use imr_dedupe.Zalloc.Find.{zalloc_find_next_pba}
use imr_dedupe.Zalloc.Find.Rounds.{Booking}
use imr_dedupe.Zalloc.Find.Phase1.{zalloc_find_next_pba-first}
use imr_dedupe.Tests.Allocation.{eight-IsPhase1, two_taken}
use imr_dedupe.Tests.Data.{eight}
use imr_dedupe.Tests.Sorting.{sort_entries, sort_entries-IsSort}

-- The logical block `i` is on block `i + 1`, for `i` from 1 to 3.
abbrev two_files : Disk
two_files = record eight {
  storage = λ q. record {
    hash = [];
    lba = λ j. if q == 2 then 1 else if q == 3 then 2 else 3;
    status = if q == 2 then in_use else if q == 3 then in_use else if q == 4 then in_use else free;
    lba_capacity = 2;
    count = 0;
    referenced_count = 0;
  };
  ltp = λ l. record {
    pba = if l == 1 then 2 else if l == 2 then 3 else if l == 3 then 4 else 0;
    fid = if l == 2 then 9 else 7;
    hash = [];
    valid = l == 1 || (l == 2 || l == 3);
    trim = false;
  };
}

one_to_three : IsRequest two_files 1 3
one_to_three = record {
  some_block = omega arith;
  on_disk = omega arith;
  logical = omega arith;
  small = omega arith;
  leads = λ l inside. ground arith;
  closed = refl;
}

lba_read-FileRead_example :
    Returns (lba_read sort_entries true two_files 1 3 7) (FileRead two_files 1 3 7)
lba_read-FileRead_example = lba_read-FileRead true two_files 1 3 7 sort_entries-IsSort one_to_three

lba_write-foreign_example : Returns (lba_write sort_entries true 8 two_files 2 1 7) (λ r.
    (m : ℕ) × (r ≡ (with_invalid_writes two_files m, 0))
    × Grows 1 two_files.report.num_invalid_write m)
lba_write-foreign_example =
    lba_write-foreign sort_entries true 8 two_files 2 1 7 (omega arith) (omega arith) (omega arith)
      (omega arith) (λ j low high. foreign j low high)
  where
    foreign : (j : ℕ) → 2 ≤ j → j < 2 + 1 → IsForeign two_files 7 j
    foreign j low high =
        let at : j ≡ 2 = omega arith in rw at (record { valid = refl; other = λ e. omega arith })

seven-IsStored : IsStored two_files 7
seven-IsStored = record {
  on_disk = λ l below own. ground arith;
  named = λ l below own. ground arith;
  backed = λ l below own. backed l below own;
}
  where
    backed :
        (l : ℕ) → l < 8 → belongs two_files 7 l ≡ true → IsBacked two_files (two_files.ltp l).pba
    backed l below own = elim (Bool-cases (l == 1)) [
      | inl e ↦
          let at : l ≡ 1 = ground arith in
          rw at (record { used = refl; logical = omega arith; valid = refl; back = refl })
      | inr e ↦
          let at : l ≡ 3 = ground arith in
          rw at (record { used = refl; logical = omega arith; valid = refl; back = refl })
    ]

native_lba_delete-FileDeleted_example :
    Returns (native_lba_delete sort_entries two_files 0 1 7) (FileDeleted two_files 7)
native_lba_delete-FileDeleted_example =
    native_lba_delete-FileDeleted two_files 0 1 7 sort_entries-IsSort seven-IsStored refl
      (omega arith) refl

-- On `eight`, the allocator passes the booked tracks 2 and 4 and takes 6.
six-Booking :
    Returns (zalloc_find_next_pba false 3 eight) (λ r. (r.1 ≡ 2 + 2 * 2) × Booking eight r)
unfolding storage_is_free
six-Booking =
    zalloc_find_next_pba-first eight 2 3 eight-IsPhase1 (omega arith) two_taken refl (omega arith)

two-IsFresh : IsFresh false 3 eight 2 six-Booking.0
two-IsFresh =
    let (at, b) = six-Booking.2 in
    record {
      request = record {
        some_block = omega arith;
        on_disk = omega arith;
        logical = omega arith;
        small = omega arith;
        leads = λ l inside. omega arith;
        closed = refl;
      };
      unmapped = refl;
      finds = six-Booking.1;
      booking = b;
      on_disk = omega arith;
      tracks = refl;
      few = omega arith;
    }

lba_write-lba_read_example : Returns (lba_write sort_entries false 3 eight 2 1 7) (λ w.
    (w.1 ≡ 1)
    × ((reader : ℕ)
        → Returns
            (lba_read sort_entries true w.0 2 1 reader)
            (λ v. v.1 ≡ (if reader == 7 then 1 else 0))))
lba_write-lba_read_example =
    lba_write-lba_read false true 3 eight 2 7 six-Booking.0 sort_entries-IsSort two-IsFresh
