-- ===== src/Init/Sound.antt =====
-- src/lba.c (init_disk): the disk at the start satisfies what the operations rely on.
use imr_dedupe.Prelude.{
  ℕ, ◌*◌, ◌/◌, ◌%◌, ◌^◌, ◌<◌, ◌≡◌, refl, [], none, true, false, ltb, length, Returns, arith,
}
use imr_dedupe.Disk.{Hash, Disk, track_size, block_size, storage_is_free}
use imr_dedupe.Batch.{init_batch_table}
use imr_dedupe.Zalloc.{total_tracks, init_zinfo}
use imr_dedupe.Zalloc.Layout.{init_zinfo-IsLayout}
use imr_dedupe.Zalloc.Find.Phase1.{IsPhase1, is_takable}
use imr_dedupe.Dedupe.{lba_to_pba}
use imr_dedupe.Dedupe.Buffer.Slots.{IsWritable}
use imr_dedupe.Dedupe.Trim.Consistent.{IsConsistent}
use imr_dedupe.HashTable.Laws.{IsRoomy}
use imr_dedupe.Files.Read.{LeadsToDisk}
use imr_dedupe.Files.Collect.{IsStored}
use imr_dedupe.Init.{logical_blocks, init_report, initial, init_disk}

-- An empty disk, which agrees with its own mapping and hash table: the mapping leads to blocks of the
-- disk, valid entries to blocks of their owner, the items of the hash table can be reached and two
-- cells are NULL, the buffer takes any hash of fewer than 20 characters, each file's blocks are in use
-- and name their logical blocks, there are as many blocks as tracks, and no batch is open. The
-- allocator is in phase 1, at track 0, every track may be allocated, no block has a content or a second
-- owner, no entry is valid or trimed, and no block is in use.
pub record IsSound (d : Disk) : Type 0 where
  pub consistent : IsConsistent d
  pub roomy : IsRoomy d
  pub leads : LeadsToDisk d
  pub writable : (hash : Hash) → length hash < 20 → IsWritable d hash
  pub files : (fid : ℕ) → IsStored d fid
  pub sizes : d.report.max_block_num ≡ d.report.max_track_num
  pub closed : (d.gbtable.block_head.size ≡ 0) × (d.mbtable.block_head.size ≡ 0)
  pub in_phase1 : IsPhase1 d
  pub starts : (d.zinfo.phase1_start ≡ 0) × (d.zinfo.current_track ≡ 0)
  pub takable : (t : ℕ) → is_takable d t ≡ true
  pub blank :
      (q : ℕ)
      → ((d.storage q).hash ≡ [])
        × ((d.storage q).referenced_count ≡ 0)
        × ((d.storage q).lba_capacity ≡ 2)
  pub unmapped : (l : ℕ) → ((d.ltp l).valid ≡ false) × ((d.ltp l).trim ≡ false)
  pub no_item : (i : ℕ) → d.hash_table i ≡ none
  pub unused : d.report.current_use_block_num ≡ 0

-- For a physical size from 1 to 2 ^ 31 - 1 and a logical size below 2 ^ 31, `init_disk` returns a disk
-- that `IsSound`, whatever is in the memory that it gets, with 512 tracks and blocks for each physical
-- gigabyte and 512 logical blocks for each logical one.
pub init_disk-IsSound :
    (memory : ℕ → ℕ → ℕ) (physical_size logical_size : ℕ)
    → 0 < physical_size
    → physical_size < 2 ^ 31
    → logical_size < 2 ^ 31
    → Returns (init_disk memory physical_size logical_size) (λ d.
      IsSound d
      × (d.report.max_track_num ≡ 512 * physical_size)
      × (d.report.max_logical_block_num ≡ 512 * logical_size))
unfolding init_disk init_report total_tracks lba_to_pba init_batch_table init_zinfo storage_is_free
init_disk-IsSound memory physical_size logical_size some small small' =
    let positive : ltb 0 physical_size ≡ true = ground arith in
    let tracks : (physical_size * 2 ^ 30) % 2 ^ 64 / track_size ≡ 512 * physical_size =
      omega arith in
    let logical : (logical_size * 2 ^ 30) % 2 ^ 64 / block_size ≡ 512 * logical_size =
      omega arith in
    let layout =
      init_zinfo-IsLayout (total_tracks physical_size) (rw tracks (omega arith))
        (rw tracks (omega arith)) in
    (
      initial memory (total_tracks physical_size) (logical_blocks logical_size),
      rw positive refl,
      (
        record {
          consistent = record { owned = λ l below valid. cc };
          roomy = record {
            a = 0;
            b = 1;
            reachable = λ i item k hi content. cc;
            inside_a = rw tracks (omega arith);
            inside_b = rw tracks (omega arith);
            empty_a = refl;
            empty_b = refl;
            apart = λ e. omega arith;
          };
          leads = λ l below. rw tracks (omega arith);
          writable = λ hash short. record {
            slot = λ (k : ℕ) (h : k < 0). absurd (omega arith);
            grows = λ (k : ℕ) (h : k < 0). absurd (omega arith);
            next = refl;
            below = omega arith;
            short = short;
          };
          files = λ fid. record {
            on_disk = λ l below own. cc;
            named = λ l below own. cc;
            backed = λ l below own. cc;
          };
          sizes = refl;
          closed = (refl, refl);
          in_phase1 = record {
            phase = refl;
            not_full = refl;
            on_disk = let last = layout.last1 in omega arith;
            small = rw tracks (omega arith);
          };
          starts = (refl, refl);
          takable = λ t. refl;
          blank = λ q. (refl, refl, refl);
          unmapped = λ l. (refl, refl);
          no_item = λ i. refl;
          unused = refl;
        },
        tracks,
        logical,
      ),
    )
