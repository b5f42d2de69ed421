-- ===== src/Files/RoundTrip.antt =====
-- src/lba.c (lba_write, lba_read): what a file writes it can read, and no other file can.
use imr_dedupe.Prelude.{
  ℕ, suc, ◌%◌, ◌^◌, ◌<◌, ◌≡◌, refl, sym, ap, ◌∙◌, Bool, true, false, ◌&&◌, List, [], ◌∷◌, ◌++◌,
  ◌==◌, ltb, if◌then◌else◌, update, update_self, update_ne, subst, ok, Returns, returns_map, arith,
  Bool-cases, inl, inr,
}
use imr_dedupe.Disk.{
  BbEntry, BbHead, BatchTable, Block, BlockStatus, LtpEntry, Disk, in_use, booked, set_status,
}
use imr_dedupe.Batch.{entry, entries, batch_add}
use imr_dedupe.Batch.Extend.{tracks}
use imr_dedupe.Batch.Lookup.{add_size}
use imr_dedupe.Chs.{is_writable, written_block}
use imr_dedupe.RecordOp.Frame.{sizes}
use imr_dedupe.BlockIo.{batch_write}
use imr_dedupe.BlockIo.Sort.{IsSort, IsFit}
use imr_dedupe.BlockIo.Write.{all_writable, BatchWritten, batch_write-BatchWritten}
use imr_dedupe.Zalloc.Find.Rounds.{Booking}
use imr_dedupe.Zalloc.Find.{zalloc_find_next_pba}
use imr_dedupe.Files.{
  is_lba_valid, is_invalid_write, update_ltp_table, search_by, find_next_pba, pba_search, link,
  write_file_block, write_file_rounds, lba_write, lba_read,
}
use imr_dedupe.Files.Read.{
  is_readable, readable, IsRequest, data_valid, in_range, lba_read-FileRead,
}
use imr_dedupe.BlockIo.Single.{entries-add}

-- No file has the logical block, and the allocator finds a block for it.
pub record IsFresh (new_alloc : Bool) (fuel : ℕ) (d : Disk) (lba : ℕ) (r : Disk × ℕ) : Type 0 where
  pub request : IsRequest d lba 1
  pub unmapped : (d.ltp lba).valid ≡ false
  pub finds : zalloc_find_next_pba new_alloc fuel d ≡ ok r
  pub booking : Booking d r
  pub on_disk : r.1 < d.report.max_block_num
  pub tracks : d.report.max_block_num ≡ d.report.max_track_num
  pub few : d.report.max_block_num < 2 ^ 32

abbrev mapped_entry : LtpEntry → (p fid : ℕ) → LtpEntry
mapped_entry e p fid = record e { pba = p % 2 ^ 32; valid = true; fid = fid }

-- The disk once the allocated block is linked to the logical block.
abbrev linked : Disk → (p lba fid : ℕ) → Disk
linked d p lba fid =
    link (record d { ltp = update d.ltp lba (mapped_entry (d.ltp lba) p fid) }) p lba

module _ (new_alloc : Bool) (fuel : ℕ) (d : Disk) (lba fid : ℕ) (r : Disk × ℕ)
    (f : IsFresh new_alloc fuel d lba r) where
  search-fresh : pba_search new_alloc fuel d lba fid ≡ ok (update_ltp_table r.0 lba r.1 fid, r.1)
  unfolding pba_search search_by is_lba_valid find_next_pba
  search-fresh =
      let q = f.request in
      let inside = q.logical in
      let free = f.unmapped in
      let here = data_valid d lba fid (omega arith) (q.leads lba (omega arith)) in
      let not_own : is_readable d fid lba ≡ false = rw free refl in rw (here, not_own, f.finds) refl

  rounds-fresh :
      write_file_rounds (pba_search new_alloc fuel) fid 1 lba (d, 0)
      ≡ ok (linked r.0 r.1 lba fid, 0)
  unfolding write_file_rounds write_file_block is_invalid_write update_ltp_table
  rounds-fresh =
      let q = f.request in
      let inside = q.logical in
      let on_disk = f.on_disk in
      let i : ltb lba d.report.max_logical_block_num ≡ true = ground arith in
      let o : ltb r.1 d.report.max_block_num ≡ true = ground arith in
      rw (i, f.unmapped, search-fresh, o) refl

  batch-fresh : entries (linked r.0 r.1 lba fid).gbtable.block_head ≡ entry r.1 false ∷ []
  unfolding batch_add
  batch-fresh =
      let closed = f.request.closed in
      let empty : r.0.gbtable.block_head.size ≡ 0 =
        ap (λ (t : BatchTable). t.block_head.size) f.booking.batch ∙ closed in
      entries-add r.0.gbtable.block_head r.1
      ∙ ap (λ (l : List BbEntry). l ++ (entry r.1 false ∷ []))
          (no_entries r.0.gbtable.block_head empty)
    where
      no_entries : (h : BbHead) → h.size ≡ 0 → entries h ≡ []
      no_entries h e = rw e refl

  size-fresh : (linked r.0 r.1 lba fid).gbtable.block_head.size ≡ 1
  unfolding batch_add
  size-fresh =
      add_size r.0.gbtable.block_head r.1 false
      ∙ ap suc (ap (λ (t : BatchTable). t.block_head.size) f.booking.batch ∙ f.request.closed)

  status-fresh : ((linked r.0 r.1 lba fid).storage r.1).status ≡ booked
  status-fresh =
      let b = r.0.storage r.1 in
      ap (λ (x : Block). x.status)
        (update_self r.0.storage r.1 (record b { lba = update b.lba 0 lba }))
      ∙ ap (λ (g : ℕ → Block). (g r.1).status) f.booking.storage
      ∙ ap (λ (x : Block). x.status) (update_self d.storage r.1 (set_status booked (d.storage r.1)))

  -- The block is booked, and a batch of it alone can be written.
  write-fresh :
      {qsort : List BbEntry → List BbEntry}
      → IsSort qsort
      → let d₁ = linked r.0 r.1 lba fid in
        Returns (batch_write qsort d₁ d₁.gbtable) (BatchWritten d₁ d₁.gbtable)
  write-fresh sort =
      let b = f.booking in
      let d₁ = linked r.0 r.1 lba fid in
      let same_max : d₁.report.max_block_num ≡ d.report.max_block_num =
        ap (λ (s : ℕ × ℕ × ℕ). s.0) b.sizes_kept in
      let same_tracks : d₁.report.max_track_num ≡ d.report.max_track_num =
        ap (λ (s : ℕ × ℕ × ℕ). s.1) b.sizes_kept in
      let tracks = f.tracks in
      let on_disk = f.on_disk in
      let below : ltb r.1 d₁.report.max_track_num ≡ true = ground arith in
      batch_write-BatchWritten sort d₁ d₁.gbtable
        (subst (IsFit d₁) (sym batch-fresh)
          (record { once = λ t. ground arith; fit = rw below refl }))
        (same_max ∙ tracks ∙ sym same_tracks)
        (ap (all_writable d₁) batch-fresh
          ∙ ap (λ (x : BlockStatus). is_writable x && true) status-fresh)

  -- The disk after the batch.
  module _ (w : Disk × BatchTable × ℕ)
      (x : BatchWritten (linked r.0 r.1 lba fid) (linked r.0 r.1 lba fid).gbtable w) where
    sizes-written : sizes w.0.report ≡ sizes d.report
    sizes-written = x.sizes_kept ∙ f.booking.sizes_kept

    entry-written : w.0.ltp lba ≡ mapped_entry (d.ltp lba) r.1 fid
    entry-written =
        ap (λ (g : ℕ → LtpEntry). g lba) x.logical
        ∙ update_self r.0.ltp lba (mapped_entry (r.0.ltp lba) r.1 fid)
        ∙ ap (λ (g : ℕ → LtpEntry). mapped_entry (g lba) r.1 fid) f.booking.ltp

    other-written : (l : ℕ) → (lba == l) ≡ false → w.0.ltp l ≡ d.ltp l
    other-written l ne =
        ap (λ (g : ℕ → LtpEntry). g l) x.logical
        ∙ update_ne r.0.ltp lba l (mapped_entry (r.0.ltp lba) r.1 fid) ne
        ∙ ap (λ (g : ℕ → LtpEntry). g l) f.booking.ltp

    block-written : (w.0.storage r.1).status ≡ in_use
    block-written =
        let d₁ = linked r.0 r.1 lba fid in
        let here : tracks (entries d₁.gbtable.block_head) r.1 ≡ true =
          ap (λ l. tracks l r.1) batch-fresh ∙ ground arith in
        ap (λ (b : Block). b.status) (x.blocks r.1)
        ∙ ap (λ (v : Bool). (if v then written_block (d₁.storage r.1) else d₁.storage r.1).status)
            here

    written-IsRequest : IsRequest (record w.0 { gbtable = w.1 }) lba 1
    written-IsRequest =
        let q = f.request in
        let max : w.0.report.max_block_num ≡ d.report.max_block_num =
          ap (λ (s : ℕ × ℕ × ℕ). s.0) sizes-written in
        let logical : w.0.report.max_logical_block_num ≡ d.report.max_logical_block_num =
          ap (λ (s : ℕ × ℕ × ℕ). s.2) sizes-written in
        record {
          some_block = omega arith;
          on_disk = rw max q.on_disk;
          logical = rw logical q.logical;
          small = rw max q.small;
          leads = λ l below. rw max (elim (Bool-cases (lba == l)) [
            | inl e ↦
                let at : l ≡ lba = ground arith in
                let few = f.few in let on_disk = f.on_disk in rw (at, entry-written) (omega arith)
            | inr e ↦ rw (other-written l e) (q.leads l (rw logical at below))
          ]);
          closed = x.table.0;
        }

    readable-written :
        (reader : ℕ)
        → readable (record w.0 { gbtable = w.1 }) reader 1 lba ≡ (if reader == fid then 1 else 0)
    readable-written reader =
        let few = f.few in
        let on_disk = f.on_disk in
        let p : r.1 % 2 ^ 32 ≡ r.1 = omega arith in
        rw (entry-written, p, block-written) (ground arith)

-- If the logical block is one of the disk that no entry maps, no batch is open, every entry leads to a
-- block of the disk, the disk has as many blocks as tracks and fewer than 2 ^ 32, `qsort` sorts, and
-- the allocator finds a block of the disk, then a write of the logical block by a file returns 1; a
-- read of it by that file then returns 1, and a read by any other file returns 0.
pub lba_write-lba_read :
    {qsort : List BbEntry → List BbEntry} (new_alloc is_csv_flag : Bool) (fuel : ℕ) (d : Disk)
    (lba fid : ℕ) (r : Disk × ℕ)
    → IsSort qsort
    → IsFresh new_alloc fuel d lba r
    → Returns (lba_write qsort new_alloc fuel d lba 1 fid) (λ w.
      (w.1 ≡ 1)
      × ((reader : ℕ)
          → Returns
              (lba_read qsort is_csv_flag w.0 lba 1 reader)
              (λ v. v.1 ≡ (if reader == fid then 1 else 0))))
unfolding lba_write
lba_write-lba_read {qsort} new_alloc is_csv_flag fuel d lba fid r sort f =
    let range = in_range d lba 1 f.request in
    let (w, runs, x) = write-fresh new_alloc fuel d lba fid r f sort in
    let one : (linked r.0 r.1 lba fid).gbtable.block_head.size ≡ 1 =
      size-fresh new_alloc fuel d lba fid r f in
    (
      (record w.0 { gbtable = w.1 }, w.2),
      rw (range, rounds-fresh new_alloc fuel d lba fid r f, runs) refl,
      (
        x.result ∙ one,
        λ reader.
            returns_map (λ v y. y.result ∙ readable-written new_alloc fuel d lba fid r f w x reader)
              (lba_read-FileRead is_csv_flag (record w.0 { gbtable = w.1 }) lba 1 reader sort
                (written-IsRequest new_alloc fuel d lba fid r f w x)),
      ),
    )
