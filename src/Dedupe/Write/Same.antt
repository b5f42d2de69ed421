-- ===== src/Dedupe/Write/Same.antt =====
-- src/lba.c (dedupe_lba_write): a logical block is written with the content that it has.
use imr_dedupe.Prelude.{
  ℕ, ◌^◌, ◌<◌, ◌≡◌, refl, sym, ap, ◌∙◌, Bool, true, false, not, ◌&&◌, ◌||◌, List, [], ltb,
  if◌then◌else◌, subst, Outcome, ok, ◌>>=◌, Returns, arith,
}
use imr_dedupe.Disk.{Hash, hash_eq, BbEntry, BbHead, Disk, is_in_use, add64}
use imr_dedupe.Batch.{entries}
use imr_dedupe.BlockIo.Sort.{IsSort, IsFit}
use imr_dedupe.BlockIo.Write.{batch_write-BatchWritten}
use imr_dedupe.Dedupe.{lba_to_pba}
use imr_dedupe.Dedupe.Search.{is_in_storage}
use imr_dedupe.Dedupe.Place.{
  Setting, Placed, dedupe_is_lba_valid, overwrite, restore, first_write, search_by_state,
  dedupe_pba_search,
}
use imr_dedupe.Dedupe.Write.{write_placed, write_rounds, write_out, dedupe_lba_write}

-- The logical block holds the content already, in a block that it does not share.
pub record IsCurrent (d : Disk) (lba : ℕ) (hash : Hash) : Type 0 where
  pub logical : lba < d.report.max_logical_block_num
  pub small : d.report.max_logical_block_num < 2 ^ 63
  pub on_disk : lba_to_pba d lba < d.report.max_block_num
  pub used : is_in_use (d.storage (lba_to_pba d lba)).status ≡ true
  pub valid : (d.ltp lba).valid ≡ true
  pub kept : (d.ltp lba).trim ≡ false
  pub same : hash_eq (d.ltp lba).hash hash ≡ true
  pub unshared : (d.storage (lba_to_pba d lba)).referenced_count ≡ 0

module _ (s : Setting) (d : Disk) (lba : ℕ) (hash : Hash) (c : IsCurrent d lba hash) where
  search-current : dedupe_pba_search s d lba hash false ≡ ok (d, lba_to_pba d lba, true)
  unfolding dedupe_pba_search dedupe_is_lba_valid search_by_state
  search-current =
      let a = c.logical in
      let b = c.on_disk in
      let u = c.used in
      let v = c.valid in
      let i : ltb lba d.report.max_logical_block_num ≡ true = ground arith in
      let o : ltb (lba_to_pba d lba) d.report.max_block_num ≡ true = ground arith in
      let is_valid : is_in_use (d.storage (lba_to_pba d lba)).status && (d.ltp lba).valid ≡ true =
        ground arith in
      rw (i, o, is_valid) by_state
    where
      choice : Bool → Bool → Outcome Placed
      choice trim same =
          if trim && not true
          then (if same then restore d lba hash else overwrite s d lba hash false)
          else if not trim && true
          then (if same then ok (d, lba_to_pba d lba, true) else overwrite s d lba hash false)
          else is_in_storage s.new_alloc d hash >>= first_write s d lba hash false

      by_state : search_by_state s d lba hash false true ≡ ok (d, lba_to_pba d lba, true)
      by_state =
          ap (λ (b : Bool). choice b (hash_eq (d.ltp lba).hash hash)) c.kept
          ∙ ap (λ (b : Bool). choice false b) c.same

  placed-current : write_placed lba lba hash (d, lba_to_pba d lba, true) ≡ ok (d, false, true)
  unfolding write_placed
  placed-current =
      let b = c.on_disk in
      let u = c.unshared in
      let o : ltb (lba_to_pba d lba) d.report.max_block_num ≡ true = ground arith in
      let alone : ltb 0 (d.storage (lba_to_pba d lba)).referenced_count ≡ false = ground arith in
      rw (o, alone) refl

  rounds-current : write_rounds s lba hash 1 0 (d, false, false) ≡ ok (d, false)
  unfolding write_rounds
  rounds-current =
      let a = c.logical in
      let m = c.small in
      let z : add64 lba 0 ≡ lba = ground arith in rw (z, search-current, placed-current) refl

no_entries : (h : BbHead) → h.size ≡ 0 → entries h ≡ []
no_entries h e = rw e refl

no_entries-IsFit : (d : Disk) (l : List BbEntry) → l ≡ [] → IsFit d l
no_entries-IsFit d l e = subst (IsFit d) (sym e) (record { once = λ t. omega arith; fit = refl })

-- A write of one logical block that `IsCurrent`, while no batch is open, on a disk with as many
-- blocks as tracks and with a `qsort` that sorts, returns 0; the storage and the mapping are as
-- before.
pub dedupe_lba_write-current :
    (s : Setting) (d : Disk) (lba : ℕ) (hash : Hash)
    → IsSort s.qsort
    → IsCurrent d lba hash
    → d.gbtable.block_head.size ≡ 0
    → d.report.max_block_num ≡ d.report.max_track_num
    → Returns
        (dedupe_lba_write s d lba 1 hash)
        (λ r. ((q : ℕ) → r.0.storage q ≡ d.storage q) × (r.0.ltp ≡ d.ltp) × (r.1 ≡ 0))
unfolding dedupe_lba_write write_out
dedupe_lba_write-current s d lba hash sort c closed size =
    let l = entries d.gbtable.block_head in
    let none_open = no_entries d.gbtable.block_head closed in
    let a = c.logical in
    let m = c.small in
    let fits : ltb d.report.max_logical_block_num lba
          || ltb d.report.max_logical_block_num (add64 lba 0)
        ≡ false =
      ground arith in
    let (r, runs, w) =
      batch_write-BatchWritten sort d d.gbtable (no_entries-IsFit d l none_open) size
        (rw none_open refl) in
    (
      (record r.0 { gbtable = r.1 }, r.2),
      rw (fits, rounds-current s d lba hash c, runs) refl,
      (λ q. w.blocks q ∙ rw none_open refl, w.logical, w.result ∙ closed),
    )
