-- ===== src/Files/Foreign.antt =====
-- src/lba.c (lba_write): a file does not write over the blocks of another.
use imr_dedupe.Prelude.{
  ℕ, zero, suc, ◌+◌, ◌-◌, ◌^◌, ◌≤◌, ◌<◌, ◌≡◌, ◌≢◌, refl, Bool, true, false, ◌||◌, List, ◌==◌, ltb,
  Returns, returns_of_eq, returns_map, arith,
}
use imr_dedupe.Disk.{BbEntry, Disk, add64}
use imr_dedupe.RecordOp.Charges.{Grows}
use imr_dedupe.Files.{
  is_invalid_write, pba_search, write_file_block, write_file_rounds, out_of_range, lba_write,
}

-- The disk with another count of invalid writes.
abbrev pub with_invalid_writes : Disk → ℕ → Disk
with_invalid_writes d m = record d { report = record d.report { num_invalid_write = m } }

-- The logical block belongs to another file.
pub record IsForeign (d : Disk) (fid l : ℕ) : Type 0 where
  pub valid : (d.ltp l).valid ≡ true
  pub other : (d.ltp l).fid ≢ fid

write_rounds-foreign :
    (new_alloc : Bool) (fuel : ℕ) (d : Disk) (fid n l m k : ℕ)
    → ((j : ℕ) → l ≤ j → j < l + n → IsForeign d fid j)
    → l + n ≤ d.report.max_logical_block_num
    → l + n < 2 ^ 64
    → Returns
        (write_file_rounds (pba_search new_alloc fuel) fid n l (with_invalid_writes d m, k))
        (λ r. (m' : ℕ) × (r ≡ (with_invalid_writes d m', k + n)) × Grows n m m')
unfolding write_file_rounds write_file_block is_invalid_write
write_rounds-foreign new_alloc fuel d fid zero l m k foreign inside small =
    let same : k + 0 ≡ k = omega arith in
    ((with_invalid_writes d m, k), refl, (m, rw same refl, omega arith))
write_rounds-foreign new_alloc fuel d fid (suc n) l m k foreign inside small =
    let f = foreign l (omega arith) (omega arith) in
    let i : ltb l d.report.max_logical_block_num ≡ true = ground arith in
    let other : (fid == (d.ltp l).fid) ≡ false = let o = f.other in ground arith in
    let next : add64 l 1 ≡ l + 1 = ground arith in
    let number : k + 1 + n ≡ k + suc n = omega arith in
    returns_of_eq (rw (i, f.valid, other, next) refl) (
      returns_map (λ r (m', same, grows). (m', rw (← number) same, omega arith))
        (write_rounds-foreign new_alloc fuel d fid n (l + 1) (add64 m 1) (k + 1)
          (λ j a b. foreign j (omega arith) (omega arith)) (omega arith) (omega arith)))

-- A write by a file over at least one logical block of the disk, all of which belong to another file,
-- returns 0 and changes nothing but the count of invalid writes, which grows by the number of blocks.
pub lba_write-foreign :
    (qsort : List BbEntry → List BbEntry) (new_alloc : Bool) (fuel : ℕ) (d : Disk) (lba n fid : ℕ)
    → 0 < n
    → lba + n ≤ d.report.max_block_num
    → lba + n ≤ d.report.max_logical_block_num
    → d.report.max_block_num < 2 ^ 64
    → ((j : ℕ) → lba ≤ j → j < lba + n → IsForeign d fid j)
    → Returns
        (lba_write qsort new_alloc fuel d lba n fid)
        (λ r. (m : ℕ) × (r ≡ (with_invalid_writes d m, 0)) × Grows n d.report.num_invalid_write m)
unfolding lba_write
lba_write-foreign qsort new_alloc fuel d lba n fid some on_disk inside small foreign =
    let last : add64 lba (n - 1) ≡ lba + (n - 1) = ground arith in
    let range : (n == 0 || out_of_range d lba n) ≡ false = rw last (ground arith) in
    let (r, runs, (m, same, grows)) =
      write_rounds-foreign new_alloc fuel d fid n lba d.report.num_invalid_write 0 foreign inside
        (omega arith) in
    let all : (0 + n == n) ≡ true = ground arith in
    ((with_invalid_writes d m, 0), rw (range, runs, same, all) refl, (m, refl, grows))
