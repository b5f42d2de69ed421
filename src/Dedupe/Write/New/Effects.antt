-- ===== src/Dedupe/Write/New/Effects.antt =====
-- src/lba.c (dedupe_lba_write): what the first write of a content leaves.
use imr_dedupe.Prelude.{
  ℕ, ◌-◌, ◌^◌, max, ◌≤◌, ◌<◌, ◌≡◌, refl, sym, ap, ◌∙◌, true, false, ◌||◌, [], ◌∷◌, some, ltb, ◌==◌,
  update_self, update_ne, subst, ok, ◌>>=◌, Returns, arith, Bool-cases, inl, inr,
}
use imr_dedupe.Disk.{
  Hash, BatchTable, Block, BlockStatus, LtpEntry, Disk, free, booked, in_use, trimed, invalid, end,
  is_free, is_invalid, is_in_use, storage_is_free, add64,
}
use imr_dedupe.Disk.Compare.{hash_eq_refl}
use imr_dedupe.Chs.{written_block}
use imr_dedupe.RecordOp.Charges.{Grows}
use imr_dedupe.RecordOp.Frame.{sizes}
use imr_dedupe.BlockIo.Sort.{IsSort}
use imr_dedupe.BlockIo.Single.{SingleWritten}
use imr_dedupe.HashTable.{search_item, insert, delete_item}
use imr_dedupe.HashTable.Updates.{item_of}
use imr_dedupe.HashTable.Replace.{Replaced}
use imr_dedupe.Dedupe.{lba_to_pba}
use imr_dedupe.Dedupe.Release.{owners, IsOwned}
use imr_dedupe.Dedupe.Trim.Consistent.{IsConsistent}
use imr_dedupe.Dedupe.Place.{Setting}
use imr_dedupe.Dedupe.Place.Mapping.{IsMapped}
use imr_dedupe.Dedupe.Write.{write_out, dedupe_lba_write}
use imr_dedupe.Dedupe.Write.New.{
  IsNew, mapped_disk, booking, sizes-mapped, new_entry, owned_block, owned_disk, exchange-new,
  rounds-new, block-owned, other-owned, ltp-owned, sizes-owned, zinfo-owned, use_count-owned,
  written-new,
}

-- What the first write of a content leaves: the block is in use and belongs to the logical block
-- alone, the mapping and the hash table lead to it, no other block and no other entry differs, and
-- there is one more block in use than the allocator left.
pub record NewWritten (d : Disk) (lba : ℕ) (hash : Hash) (r : Disk × ℕ) (w : Disk × ℕ)
    : Type 0 where
  pub result : w.1 ≡ 1
  pub mapped : IsMapped (w.0.ltp lba) r.1 hash
  pub leads : lba_to_pba w.0 lba ≡ r.1
  pub used : is_in_use (w.0.storage r.1).status ≡ true
  pub content : (w.0.storage r.1).hash ≡ hash
  pub unshared : (w.0.storage r.1).referenced_count ≡ 0
  pub capacity : (w.0.storage r.1).lba_capacity ≡ (d.storage r.1).lba_capacity
  pub cell : (w.0.storage r.1).lba 0 ≡ lba
  pub owner : owners (w.0.storage r.1) ≡ lba ∷ []
  pub found : search_item w.0 hash ≡ ok (some (item_of hash r.1))
  pub blocks : (q : ℕ) → (r.1 == q) ≡ false → w.0.storage q ≡ d.storage q
  pub entries : (l : ℕ) → (lba == l) ≡ false → w.0.ltp l ≡ d.ltp l
  pub sizes_kept : sizes w.0.report ≡ sizes d.report
  pub zinfo : w.0.zinfo ≡ r.0.zinfo
  pub use_count : Grows 1 r.0.report.current_use_block_num w.0.report.current_use_block_num
  pub use_bound :
      w.0.report.current_use_block_num ≤ max r.0.report.current_use_block_num (2 ^ 64 - 1)
  pub closed : w.0.gbtable.block_head.size ≡ 0

module _ (s : Setting) (d : Disk) (lba : ℕ) (hash : Hash) (r : Disk × ℕ) (f : IsNew s d lba hash r)
    (d₂ : Disk) (x : Replaced (mapped_disk s d lba hash r f) hash r.1 d₂)
    (runs : let m = mapped_disk s d lba hash r f in
      (delete_item m (m.storage r.1).hash >>= λ x. insert x.1 hash r.1) ≡ ok d₂)
    (w : Disk × BatchTable × ℕ) (y : SingleWritten (owned_disk s d lba hash r f d₂) r.1 w) where
  all-NewWritten : NewWritten d lba hash r (record w.0 { gbtable = w.1 }, w.2)
  unfolding new_entry owned_block lba_to_pba
  all-NewWritten =
      let block = y.block ∙ ap written_block (block-owned s d lba hash r f d₂ x runs) in
      let ltp = y.logical ∙ ltp-owned s d lba hash r f d₂ x runs in
      let e : w.0.ltp lba ≡ new_entry s d lba hash r f (d.ltp lba) =
        ap (λ (g : ℕ → LtpEntry). g lba) ltp ∙ update_self d.ltp lba _ in
      let alone = f.unshared in
      let count = use_count-owned s d lba hash r f d₂ x runs in
      let tracks : w.0.report.max_track_num ≡ d.report.max_track_num =
        ap (λ (x : ℕ × ℕ × ℕ). x.1) (y.sizes_kept ∙ sizes-owned s d lba hash r f d₂ x runs) in
      record {
        result = y.result;
        mapped = rw e (refl, refl, hash_eq_refl hash, refl);
        leads = rw e refl;
        used = rw block refl;
        content = rw block refl;
        unshared = rw block alone;
        capacity = rw block refl;
        cell = ap (λ (b : Block). b.lba 0) block ∙ update_self (d.storage r.1).lba 0 lba;
        owner = rw (block, alone) (ap (λ (l : ℕ). l ∷ []) (update_self (d.storage r.1).lba 0 lba));
        found =
            x.found (record w.0 { gbtable = w.1 }) y.hash_table
              (tracks ∙ sym (ap (λ (x : ℕ × ℕ × ℕ). x.1) (sizes-mapped s d lba hash r f)));
        blocks = λ q ne. y.others q ne ∙ other-owned s d lba hash r f d₂ x runs q ne;
        entries = λ l ne. ap (λ (g : ℕ → LtpEntry). g l) ltp ∙ update_ne d.ltp lba l _ ne;
        sizes_kept = y.sizes_kept ∙ sizes-owned s d lba hash r f d₂ x runs;
        zinfo = y.zinfo ∙ zinfo-owned s d lba hash r f d₂ x runs;
        use_count =
            let unused =
              ap (λ (b : Block). is_in_use b.status) (block-owned s d lba hash r f d₂ x runs) in
            rw count at (y.use_count unused);
        use_bound = rw count at y.use_bound;
        closed = y.closed;
      }

-- A free block is not in use.
free-unused :
    (d : Disk) (p : ℕ) → storage_is_free d p ≡ true → is_in_use (d.storage p).status ≡ false
unfolding storage_is_free
free-unused d p h = by_status (d.storage p).status h
  where
    by_status : (s : BlockStatus) → is_invalid s || is_free s ≡ true → is_in_use s ≡ false
    by_status in_use h = cc
    by_status free h = refl
    by_status booked h = refl
    by_status trimed h = refl
    by_status invalid h = refl
    by_status end h = refl

new-IsConsistent :
    (s : Setting) (d : Disk) (lba : ℕ) (hash : Hash) (r : Disk × ℕ) (w : Disk × ℕ)
    → IsNew s d lba hash r
    → NewWritten d lba hash r w
    → IsConsistent d
    → IsConsistent w.0
unfolding lba_to_pba
new-IsConsistent s d lba hash r w f n c = record { owned = owned_after }
  where
    new_owner : IsOwned w.0 r.1 lba
    new_owner =
        let alone = n.unshared in
        let room = f.room in
        let capacity = n.capacity in
        let on_disk = f.on_disk in
        let blocks = ap (λ (x : ℕ × ℕ × ℕ). x.0) n.sizes_kept in
        let logical = f.logical in
        let small = f.small in
        record {
          on_disk = rw blocks on_disk;
          used = n.used;
          small = omega arith;
          room = omega arith;
          few = omega arith;
          owner = rw (n.owner) (ground arith);
        }

    other_owner : (l p : ℕ) → IsOwned d p l → IsOwned w.0 p l
    other_owner l p o =
        let free = free-unused d r.1 (booking s d lba hash r f).was_free in
        let used = o.used in
        let apart : (r.1 == p) ≡ false = elim (Bool-cases (r.1 == p)) [
          | inr e ↦ e
          | inl e ↦ let same : p ≡ r.1 = ground arith in let used' = rw same at used in cc
        ] in
        let block = n.blocks p apart in
        let blocks = ap (λ (x : ℕ × ℕ × ℕ). x.0) n.sizes_kept in
        record {
          on_disk = rw blocks o.on_disk;
          used = rw block o.used;
          small = o.small;
          room = rw block o.room;
          few = rw block o.few;
          owner = rw block o.owner;
        }

    owned_after :
        (l : ℕ)
        → l < w.0.report.max_logical_block_num
        → (w.0.ltp l).valid ≡ true
        → IsOwned w.0 (lba_to_pba w.0 l) l
    owned_after l below valid = elim (Bool-cases (lba == l)) [
      | inl e ↦ let same : l ≡ lba = ground arith in rw (same, n.leads) new_owner
      | inr e ↦
          let logical = ap (λ (x : ℕ × ℕ × ℕ). x.2) n.sizes_kept in
          let entry = n.entries l e in
          subst (λ (x : LtpEntry). IsOwned w.0 x.pba l) (sym entry)
            (other_owner l (lba_to_pba d l) (c.owned l (rw logical at below) (rw entry at valid)))
    ]

-- In the build with NEW_ALLOC or without it: if the logical block is one of the disk, which has fewer
-- than 2 ^ 32 of them, its entry is neither valid nor trimed and leads to a block of the disk, no block
-- and no item of the hash table has the content, whose hash has from 1 to 19 characters, the allocator
-- finds a block of the disk that no logical block shares and that has room for one, no batch is open,
-- `qsort` sorts, the disk has as many blocks as tracks and fewer than 2 ^ 32, phase 1 starts at track
-- 0, and the hash table is sound and has two NULL cells, then the write of the logical block returns 1
-- and a disk where it is mapped to that block, which is in use, has the content and no other owner, and
-- which a search of the hash table for the content returns; no other block and no other entry changes,
-- and if each valid entry led to a block of its owner it still does.
pub dedupe_lba_write-NewWritten :
    (s : Setting) (d : Disk) (lba : ℕ) (hash : Hash) (r : Disk × ℕ)
    → IsSort s.qsort
    → IsNew s d lba hash r
    → Returns
        (dedupe_lba_write s d lba 1 hash)
        (λ w. NewWritten d lba hash r w × (IsConsistent d → IsConsistent w.0))
unfolding dedupe_lba_write write_out
dedupe_lba_write-NewWritten s d lba hash r sort f =
    let a = f.logical in
    let m = f.small in
    let fits : ltb d.report.max_logical_block_num lba
          || ltb d.report.max_logical_block_num (add64 lba 0)
        ≡ false =
      ground arith in
    let (d₂, runs, x) = exchange-new s d lba hash r f in
    let (w, written, y) = written-new s d lba hash r f d₂ x runs sort in
    let n = all-NewWritten s d lba hash r f d₂ x runs w y in
    (
      (record w.0 { gbtable = w.1 }, w.2),
      rw (fits, rounds-new s d lba hash r f d₂ x runs, written) refl,
      (n, new-IsConsistent s d lba hash r (record w.0 { gbtable = w.1 }, w.2) f n),
    )
