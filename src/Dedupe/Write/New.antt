-- ===== src/Dedupe/Write/New.antt =====
-- src/lba.c (dedupe_lba_write): a logical block is written for the first time, with a content that no
-- block of the disk has.
pub mod Effects
use imr_dedupe.Prelude.{
  ℕ, zero, suc, ◌+◌, ◌%◌, ◌^◌, ◌<◌, ◌≡◌, ◌≢◌, refl, sym, ap, ◌∙◌, Bool, true, false, not, ◌&&◌,
  ◌||◌, List, [], ◌∷◌, Option, none, some, ltb, ◌==◌, if◌then◌else◌, length, update, update_self,
  update_ne, subst, Outcome, ok, ◌>>=◌, bind_assoc, Returns, returns_map, Holds-ok, arith,
  Bool-cases, inl, inr,
}
use imr_dedupe.Disk.{
  Hash, hash_eq, BbEntry, BatchTable, Block, BlockStatus, LtpEntry, Disk, free, booked, in_use,
  trimed, invalid, end, is_free, is_invalid, is_in_use, storage_is_free, set_status, add64,
}
use imr_dedupe.Disk.Compare.{hash_eq_refl}
use imr_dedupe.Batch.{batch_add}
use imr_dedupe.Chs.{is_writable, written_block}
use imr_dedupe.RecordOp.Frame.{sizes}
use imr_dedupe.BlockIo.{batch_write}
use imr_dedupe.BlockIo.Sort.{IsSort}
use imr_dedupe.BlockIo.Single.{SingleWritten, batch_write-SingleWritten}
use imr_dedupe.HashTable.{holds, search_item, insert, delete_item}
use imr_dedupe.HashTable.Laws.{IsRoomy}
use imr_dedupe.HashTable.Updates.{item_of}
use imr_dedupe.HashTable.Replace.{Replaced, delete_item-insert}
use imr_dedupe.Zalloc.Find.{zalloc_find_next_pba}
use imr_dedupe.Zalloc.Find.Rounds.{Booking}
use imr_dedupe.Zalloc.Find.Booking.{zalloc_find_next_pba-Booking}
use imr_dedupe.Dedupe.{lba_to_pba, dedupe_update_ltp_table, set_block}
use imr_dedupe.Dedupe.Release.{owners, IsOwned}
use imr_dedupe.Dedupe.Trim.Consistent.{IsConsistent}
use imr_dedupe.Dedupe.Search.{is_in_storage}
use imr_dedupe.Dedupe.Search.Least.{IsFirst, scan, scan-StaysInside, is_in_storage-IsFirst}
use imr_dedupe.Dedupe.Place.{
  Setting, Placed, dedupe_is_lba_valid, overwrite, restore, allocate, first_write, search_by_state,
  dedupe_pba_search,
}
use imr_dedupe.Dedupe.Place.Mapping.{IsMapped}
use imr_dedupe.Dedupe.Write.{write_own, write_placed, write_rounds, write_out, dedupe_lba_write}

-- No entry maps the logical block, no block and no item has the content, and the allocator finds a
-- block that no logical block shares, in the build with NEW_ALLOC or without it.
pub record IsNew (s : Setting) (d : Disk) (lba : ℕ) (hash : Hash) (r : Disk × ℕ) : Type 0 where
  pub logical : lba < d.report.max_logical_block_num
  pub small : d.report.max_logical_block_num < 2 ^ 32
  pub leads : lba_to_pba d lba < d.report.max_block_num
  pub unmapped : (d.ltp lba).valid ≡ false
  pub kept : (d.ltp lba).trim ≡ false
  pub absent : (q : ℕ) → q < d.report.max_block_num → hash_eq (d.storage q).hash hash ≡ false
  pub unlisted : (i : ℕ) → i < d.report.max_track_num → holds d.hash_table hash i ≡ false
  pub real : hash ≢ []
  pub short : length hash < 20
  pub roomy : IsRoomy d
  pub finds : zalloc_find_next_pba s.new_alloc s.fuel d ≡ ok r
  pub on_disk : r.1 < d.report.max_block_num
  pub tracks : d.report.max_block_num ≡ d.report.max_track_num
  pub starts : d.zinfo.phase1_start ≡ 0
  pub few : d.report.max_block_num < 2 ^ 32
  pub unshared : (d.storage r.1).referenced_count ≡ 0
  pub room : 0 < (d.storage r.1).lba_capacity
  pub closed : d.gbtable.block_head.size ≡ 0

module _ (s : Setting) (d : Disk) (lba : ℕ) (hash : Hash) (r : Disk × ℕ)
    (f : IsNew s d lba hash r) where
  -- The mapping names the allocated block.
  unfoldable pub mapped_disk : Disk
  mapped_disk = dedupe_update_ltp_table r.0 lba r.1 hash

  pub booking : Booking d r
  booking = Holds-ok (Booking d) (zalloc_find_next_pba-Booking s.new_alloc s.fuel d) f.finds

  not_stored : is_in_storage s.new_alloc d hash ≡ ok none
  not_stored =
      let (found, runs, first) = is_in_storage-IsFirst s.new_alloc d hash f.starts f.tracks in
      runs ∙ ap (λ o. ok o) (nothing found first)
    where
      nothing :
          (found : Option ℕ)
          → IsFirst (λ b. hash_eq b.hash hash) d (scan s.new_alloc d) found
          → found ≡ none
      nothing none first = refl
      nothing (some q) (same, k, lt, here, before) =
          let stays = scan-StaysInside s.new_alloc d f.starts f.tracks k lt in
          let inside = subst (λ p. p < d.report.max_block_num) (sym here) stays in
          let a = f.absent q inside in cc

  search_by_state-new : search_by_state s d lba hash false false ≡ ok (mapped_disk, r.1, false)
  unfolding search_by_state first_write allocate mapped_disk
  search_by_state-new =
      ap (λ (b : Bool). by_trim b) f.kept
      ∙ ap (λ m. m >>= first_write s d lba hash false) not_stored
      ∙ ap
          (λ (m : Outcome (Disk × ℕ)).
            m >>= λ r. ok (dedupe_update_ltp_table r.0 lba r.1 hash, r.1, false))
          f.finds
    where
      by_trim : Bool → Outcome Placed
      by_trim b =
          if b && not false
          then (if hash_eq (d.ltp lba).hash hash
              then restore d lba hash
              else overwrite s d lba hash false)
          else if not b && false
          then (if hash_eq (d.ltp lba).hash hash
              then ok (d, lba_to_pba d lba, true)
              else overwrite s d lba hash false)
          else is_in_storage s.new_alloc d hash >>= first_write s d lba hash false

  search-new : dedupe_pba_search s d lba hash false ≡ ok (mapped_disk, r.1, false)
  unfolding dedupe_pba_search dedupe_is_lba_valid
  search-new =
      let inside = f.logical in
      let on_disk = f.leads in
      let v = f.unmapped in
      let i : ltb lba d.report.max_logical_block_num ≡ true = ground arith in
      let o : ltb (lba_to_pba d lba) d.report.max_block_num ≡ true = ground arith in
      let invalid : is_in_use (d.storage (lba_to_pba d lba)).status && (d.ltp lba).valid ≡ false =
        ground arith in
      rw (i, o, invalid) search_by_state-new

  pub block-mapped : mapped_disk.storage r.1 ≡ set_status booked (d.storage r.1)
  unfolding mapped_disk dedupe_update_ltp_table
  block-mapped = rw (booking.storage) (update_self d.storage r.1 _)

  pub sizes-mapped : sizes mapped_disk.report ≡ sizes d.report
  unfolding mapped_disk dedupe_update_ltp_table
  sizes-mapped = booking.sizes_kept

  -- The disk after a block of one owner got its content, but for the hash table.
  abbrev pub owned_disk : Disk → Disk
  owned_disk d₂ =
      let b = d₂.storage r.1 in
      let d₃ = set_block d₂ r.1 (record b { lba = update b.lba 0 lba; hash = hash }) in
      record d₃ { gbtable = batch_add r.1 d₃.gbtable }

  unfoldable pub owned_block : Block → Block
  owned_block b = record b { status = booked; lba = update b.lba 0 lba; hash = hash }

  unfoldable pub new_entry : LtpEntry → LtpEntry
  new_entry e = record e { pba = r.1; valid = true; trim = false; hash = hash }

  pub exchange-new :
      Returns
        (delete_item mapped_disk (mapped_disk.storage r.1).hash >>= λ x. insert x.1 hash r.1)
        (Replaced mapped_disk hash r.1)
  unfolding mapped_disk dedupe_update_ltp_table
  exchange-new =
      let b = booking in
      let tracks : mapped_disk.report.max_track_num ≡ d.report.max_track_num =
        ap (λ (x : ℕ × ℕ × ℕ). x.1) b.sizes_kept in
      let room = f.roomy in
      delete_item-insert mapped_disk (mapped_disk.storage r.1).hash hash r.1
        (record {
          a = room.a;
          b = room.b;
          reachable = rw (b.hash_table, tracks) room.reachable;
          inside_a = rw tracks room.inside_a;
          inside_b = rw tracks room.inside_b;
          empty_a = rw (b.hash_table) room.empty_a;
          empty_b = rw (b.hash_table) room.empty_b;
          apart = room.apart;
        })
        f.real f.short (λ i below. rw (b.hash_table) (f.unlisted i (rw tracks at below)))

  module _ (d₂ : Disk) (x : Replaced mapped_disk hash r.1 d₂)
      (runs : (delete_item mapped_disk (mapped_disk.storage r.1).hash >>= λ x. insert x.1 hash r.1)
        ≡ ok d₂) where
    pub write_own-new : write_own mapped_disk r.1 lba hash ≡ ok (owned_disk d₂)
    unfolding write_own
    write_own-new =
        sym (
          bind_assoc (delete_item mapped_disk (mapped_disk.storage r.1).hash)
            (λ x. insert x.1 hash r.1) (λ d₂. ok (owned_disk d₂)))
        ∙ ap (λ m. m >>= λ d₂. ok (owned_disk d₂)) runs

    placed-new :
        write_placed lba lba hash (mapped_disk, r.1, false) ≡ ok (owned_disk d₂, false, false)
    unfolding write_placed
    placed-new =
        let on_disk = f.on_disk in
        let b = booking in
        let size : mapped_disk.report.max_block_num ≡ d.report.max_block_num =
          ap (λ (x : ℕ × ℕ × ℕ). x.0) sizes-mapped in
        let o : ltb r.1 mapped_disk.report.max_block_num ≡ true = rw size (ground arith) in
        let alone : ltb 0 (mapped_disk.storage r.1).referenced_count ≡ false =
          rw block-mapped (let u = f.unshared in ground arith) in
        rw (o, alone, write_own-new) refl

    pub rounds-new : write_rounds s lba hash 1 0 (d, false, false) ≡ ok (owned_disk d₂, false)
    unfolding write_rounds
    rounds-new =
        let a = f.logical in
        let m = f.small in
        let z : add64 lba 0 ≡ lba = ground arith in rw (z, search-new, placed-new) refl

    storage-owned : d₂.storage ≡ update d.storage r.1 (set_status booked (d.storage r.1))
    unfolding mapped_disk dedupe_update_ltp_table
    storage-owned = ap (λ (x : Disk). x.storage) x.rest ∙ booking.storage

    pub block-owned : (owned_disk d₂).storage r.1 ≡ owned_block (d.storage r.1)
    unfolding owned_block
    block-owned =
        update_self d₂.storage r.1 _
        ∙ ap (λ (b : Block). record b { lba = update b.lba 0 lba; hash = hash })
            (ap (λ (g : ℕ → Block). g r.1) storage-owned ∙ update_self d.storage r.1 _)

    pub other-owned : (q : ℕ) → (r.1 == q) ≡ false → (owned_disk d₂).storage q ≡ d.storage q
    other-owned q ne =
        update_ne d₂.storage r.1 q _ ne
        ∙ ap (λ (g : ℕ → Block). g q) storage-owned
        ∙ update_ne d.storage r.1 q _ ne

    pub ltp-owned : d₂.ltp ≡ update d.ltp lba (new_entry (d.ltp lba))
    unfolding mapped_disk dedupe_update_ltp_table new_entry
    ltp-owned =
        let on_disk = f.on_disk in
        let few = f.few in
        let p : r.1 % 2 ^ 32 ≡ r.1 = omega arith in
        ap (λ (x : Disk). x.ltp) x.rest
        ∙ rw (booking.ltp) (
            ap
              (λ (p : ℕ).
                update d.ltp lba
                  (record (d.ltp lba) { pba = p; valid = true; trim = false; hash = hash }))
              p)

    pub sizes-owned : sizes d₂.report ≡ sizes d.report
    sizes-owned = ap (λ (x : Disk). sizes x.report) x.rest ∙ sizes-mapped

    pub zinfo-owned : d₂.zinfo ≡ r.0.zinfo
    unfolding mapped_disk dedupe_update_ltp_table
    zinfo-owned = ap (λ (x : Disk). x.zinfo) x.rest

    pub use_count-owned : d₂.report.current_use_block_num ≡ r.0.report.current_use_block_num
    unfolding mapped_disk dedupe_update_ltp_table
    use_count-owned = ap (λ (x : Disk). x.report.current_use_block_num) x.rest

    closed-owned : d₂.gbtable.block_head.size ≡ 0
    unfolding mapped_disk dedupe_update_ltp_table
    closed-owned =
        ap (λ (x : Disk). x.gbtable.block_head.size) x.rest
        ∙ ap (λ (t : BatchTable). t.block_head.size) booking.batch
        ∙ f.closed

    pub written-new :
        IsSort s.qsort
        → Returns
            (batch_write s.qsort (owned_disk d₂) (owned_disk d₂).gbtable)
            (SingleWritten (owned_disk d₂) r.1)
    unfolding owned_block
    written-new sort =
        let on_disk = f.on_disk in
        let tracks = f.tracks in
        let blocks = ap (λ (x : ℕ × ℕ × ℕ). x.0) sizes-owned in
        let all_tracks = ap (λ (x : ℕ × ℕ × ℕ). x.1) sizes-owned in
        batch_write-SingleWritten (owned_disk d₂) d₂.gbtable r.1 closed-owned sort
          (rw blocks on_disk) (blocks ∙ tracks ∙ sym all_tracks)
          (ap (λ (b : Block). is_writable b.status) block-owned)
