-- ===== src/Dedupe/Sharing.antt =====
-- src/lba.c (dedupe_lba_write, dedupe_trim): two logical blocks get the same content, and one of them is
-- trimed.
use imr_dedupe.Prelude.{
  ℕ, ◌+◌, ◌%◌, ◌^◌, ◌<◌, ◌≡◌, ◌≢◌, refl, sym, ap, ◌∙◌, subst, true, false, List, [], ◌∷◌, ◌++◌,
  ◌==◌, some, ok-injective, ◌>>=◌, Returns, returns_bind, returns_map, arith,
}
use imr_dedupe.Disk.{Hash, hash_eq, LtpEntry, ZallocInfo, Report, Disk, in_use, add64}
use imr_dedupe.Disk.Compare.{hash_eq_refl, hash_eq→eq}
use imr_dedupe.RecordOp.Frame.{sizes}
use imr_dedupe.BlockIo.Sort.{IsSort}
use imr_dedupe.Dedupe.{lba_to_pba, is_live, dedupe_trim}
use imr_dedupe.Dedupe.Release.{erase, owners, IsOwned, Released}
use imr_dedupe.Dedupe.Trim.{dedupe_trim-Released}
use imr_dedupe.Dedupe.Trim.Consistent.{IsConsistent, dedupe_trim-IsConsistent}
use imr_dedupe.Dedupe.Search.Least.{
  IsFirst, IsScanned, block_at, scan, scan-StaysInside, scan-apart, scan-same,
}
use imr_dedupe.Dedupe.Place.{Setting}
use imr_dedupe.Dedupe.Place.Mapping.{IsMapped}
use imr_dedupe.Dedupe.Write.{dedupe_lba_write}
use imr_dedupe.Dedupe.Write.New.{IsNew, booking}
use imr_dedupe.Dedupe.Write.New.Effects.{NewWritten, dedupe_lba_write-NewWritten}
use imr_dedupe.Dedupe.Write.Share.{compared, IsShareable}
use imr_dedupe.Dedupe.Write.Share.Effects.{Shared, dedupe_lba_write-Shared}

-- The disk with one more block in use.
abbrev pub one_more : Disk → Disk
one_more d = record d {
  report = record d.report { current_use_block_num = add64 d.report.current_use_block_num 1 };
}

-- Neither logical block is mapped, the content of the first is new, block 0 has one owner, which is
-- what the code compares with, and once one more block is in use the allocated one is among those that
-- a search for a content looks at.
pub record AreNew (s : Setting) (d : Disk) (first second : ℕ) (hash : Hash) (r : Disk × ℕ)
    : Type 0 where
  pub first_new : IsNew s d first hash r
  pub apart : first ≢ second
  pub logical : second < d.report.max_logical_block_num
  pub leads : lba_to_pba d second < d.report.max_block_num
  pub unmapped : (d.ltp second).valid ≡ false
  pub kept : (d.ltp second).trim ≡ false
  pub capacity_bound : (d.storage r.1).lba_capacity < 2 ^ 31
  pub not_zero : r.1 ≢ 0
  pub zero_unshared : (d.storage 0).referenced_count ≡ 0
  pub counted : r.0.report.current_use_block_num < 2 ^ 64
  pub starts : r.0.zinfo.phase1_start ≡ 0
  pub scanned : IsScanned (scan s.new_alloc (one_more r.0)) r.1

-- The block belongs to both logical blocks.
record BothMapped (d : Disk) (first second : ℕ) (hash : Hash) (pba : ℕ) : Type 0 where
  to_first : IsMapped (d.ltp first) pba hash
  leads_first : lba_to_pba d first ≡ pba
  to_second : IsMapped (d.ltp second) pba hash
  content : (d.storage pba).hash ≡ hash
  two_owners : owners (d.storage pba) ≡ first ∷ second ∷ []
  count : (d.storage pba).referenced_count ≡ 1
  inside : first < d.report.max_logical_block_num
  owned : IsOwned d pba first

module _ (s : Setting) (d : Disk) (first second : ℕ) (hash : Hash) (r : Disk × ℕ)
    (f : AreNew s d first second hash r) where
  apart-test : (first == second) ≡ false
  apart-test = let a = f.apart in ground arith

  scan-written :
      (w : Disk × ℕ)
      → NewWritten d first hash r w
      → scan s.new_alloc w.0 ≡ scan s.new_alloc (one_more r.0)
  scan-written w n =
      let same = n.sizes_kept ∙ sym (booking s d first hash r f.first_new).sizes_kept in
      let before = f.counted in
      let bound = n.use_bound in
      let below : w.0.report.current_use_block_num < 2 ^ 64 = ground arith in
      let low : w.0.report.current_use_block_num % 2 ^ 64 ≡ w.0.report.current_use_block_num =
        omega arith in
      let counted_after = sym low ∙ n.use_count in
      scan-same s.new_alloc w.0 (one_more r.0) n.zinfo (ap (λ (x : ℕ × ℕ × ℕ). x.0) same)
        (ap (λ (x : ℕ × ℕ × ℕ). x.1) same) counted_after

  -- A search for the content finds the block that was written.
  written-IsFirst :
      (w : Disk × ℕ)
      → NewWritten d first hash r w
      → IsFirst (λ b. hash_eq b.hash hash) w.0 (scan s.new_alloc w.0) (some r.1)
  written-IsFirst w n =
      let g = f.first_new in
      let blocks = ap (λ (x : ℕ × ℕ × ℕ). x.0) n.sizes_kept in
      let tracks = ap (λ (x : ℕ × ℕ × ℕ). x.1) n.sizes_kept in
      let (k, below, here) = subst (λ c. IsScanned c r.1) (sym (scan-written w n)) f.scanned in
      let starts = ap (λ (z : ZallocInfo). z.phase1_start) n.zinfo ∙ f.starts in
      let inside = scan-StaysInside s.new_alloc w.0 starts (blocks ∙ g.tracks ∙ sym tracks) in
      (
        rw (n.content) (hash_eq_refl hash),
        k,
        below,
        here,
        λ j lt.
            let q = block_at (scan s.new_alloc w.0) j in
            let other = rw (← here) at (scan-apart s.new_alloc w.0 j k lt) in
            rw (n.blocks q other) (g.absent q (subst (λ m. q < m) blocks (inside j (omega arith)))),
      )

  written-IsShareable :
      (w : Disk × ℕ) → NewWritten d first hash r w → IsShareable s w.0 second hash r.1
  unfolding lba_to_pba
  written-IsShareable w n =
      let g = f.first_new in
      let blocks = ap (λ (x : ℕ × ℕ × ℕ). x.0) n.sizes_kept in
      let logical = ap (λ (x : ℕ × ℕ × ℕ). x.2) n.sizes_kept in
      let entry = n.entries second apart-test in
      let not_zero = f.not_zero in
      let zero = n.blocks 0 (ground arith) in
      let zero_count : (w.0.storage 0).referenced_count ≡ 0 = rw zero f.zero_unshared in
      let room = g.room in
      let alone = n.unshared in
      let capacity = n.capacity in
      let bound = f.capacity_bound in
      let one : compared w.0 r.1 ≡ 1 =
        let e : (r.1 == 0) ≡ false = ground arith in rw (zero_count, e) refl in
      record {
        logical = rw logical f.logical;
        small = rw logical g.small;
        leads =
            subst (λ (e : LtpEntry). e.pba < w.0.report.max_block_num) (sym entry)
              (rw blocks f.leads);
        unmapped = rw entry f.unmapped;
        kept = rw entry f.kept;
        tracks = blocks ∙ g.tracks ∙ sym (ap (λ (x : ℕ × ℕ × ℕ). x.1) n.sizes_kept);
        starts = ap (λ (z : ZallocInfo). z.phase1_start) n.zinfo ∙ f.starts;
        on_disk = rw blocks g.on_disk;
        first = written-IsFirst w n;
        used = n.used;
        room = omega arith;
        owners_bound = omega arith;
        capacity_bound = omega arith;
        few = rw blocks g.few;
        cells = rw one (ground arith);
        counter = omega arith;
        unlisted = λ i lt named.
            let here : i ≡ 0 = omega arith in
            f.apart (sym n.cell ∙ ap (w.0.storage r.1).lba (sym here) ∙ named);
      }

  both-BothMapped :
      (w v : Disk × ℕ)
      → NewWritten d first hash r w
      → Shared w.0 second hash r.1 v
      → BothMapped v.0 first second hash r.1
  unfolding lba_to_pba
  both-BothMapped w v n m =
      let g = f.first_new in
      let other : (second == first) ≡ false = let a = f.apart in ground arith in
      let entry = m.entries first other in
      let sizes_now = ap (λ (p : Report). sizes p) m.report ∙ n.sizes_kept in
      let blocks = ap (λ (x : ℕ × ℕ × ℕ). x.0) sizes_now in
      let logical = ap (λ (x : ℕ × ℕ × ℕ). x.2) sizes_now in
      let one : (v.0.storage r.1).referenced_count ≡ 1 =
        m.count ∙ ap (λ (k : ℕ). k + 1) n.unshared in
      let two : owners (v.0.storage r.1) ≡ first ∷ second ∷ [] =
        m.owners_after ∙ ap (λ (l : List ℕ). l ++ (second ∷ [])) n.owner in
      let small = g.small in
      let inside = g.logical in
      record {
        to_first = rw entry n.mapped;
        leads_first = ap (λ (e : LtpEntry). e.pba) entry ∙ n.leads;
        to_second = m.mapped;
        content = m.content ∙ n.content;
        two_owners = two;
        count = one;
        inside = rw logical inside;
        owned = record {
          on_disk = rw blocks g.on_disk;
          used = m.used;
          small = omega arith;
          room = m.room_after;
          few = omega arith;
          owner = rw two (ground arith);
        };
      }

-- What is left once the first logical block is trimed: the block is that of the second one alone.
pub record OneLeft (first second : ℕ) (hash : Hash) (pba : ℕ) (d : Disk) : Type 0 where
  pub gone : (d.ltp first).valid ≡ false
  pub mapped : IsMapped (d.ltp second) pba hash
  pub used : (d.storage pba).status ≡ in_use
  pub content : (d.storage pba).hash ≡ hash
  pub owner : owners (d.storage pba) ≡ second ∷ []

erase_first : (x : ℕ) (l : List ℕ) → erase x (x ∷ l) ≡ l
erase_first x l = let same : (x == x) ≡ true = ground arith in rw same refl

left-OneLeft :
    (d : Disk) (first second : ℕ) (hash : Hash) (pba : ℕ)
    → first ≢ second
    → BothMapped d first second hash pba
    → Returns (dedupe_trim d first hash) (OneLeft first second hash pba)
left-OneLeft d first second hash pba apart b =
    let (valid, kept, same, to) = b.to_first in
    let equal : hash_eq hash (d.ltp first).hash ≡ true =
      rw (hash_eq→eq (d.ltp first).hash hash same) (hash_eq_refl hash) in
    let live : is_live (d.ltp first) hash ≡ true = ground arith in
    let at_pba = b.leads_first in
    returns_map
      (λ e (entry, others, x).
        let x' = subst (λ (p : ℕ). Released (record d { ltp = e.ltp }) p first e) at_pba x in
        let one = b.count in
        let (used, less, left) = x'.shared (omega arith) in
        record {
          gone = rw entry refl;
          mapped = rw (others second (λ h. apart (sym h))) b.to_second;
          used = used;
          content = x'.hash ∙ b.content;
          owner = left ∙ ap (erase first) b.two_owners ∙ erase_first first (second ∷ []);
        })
      (dedupe_trim-Released d first hash b.inside live (rw at_pba b.owned))

-- In the build with NEW_ALLOC or without it: if two logical blocks of the disk differ, the entries of
-- both are neither valid nor trimed and lead to blocks of the disk, the first of them and the content
-- satisfy `IsNew`, as for the first write of a content, `qsort` sorts, the allocated block is not block
-- 0 and has a capacity within an int, block 0 has one owner, phase 1 starts at track 0, and with one more
-- block in use, of which there are fewer than 2 ^ 64, the allocated block is among those that a search
-- looks at, then writing the first logical block, writing the second with the same content and trimming
-- the first return a disk where the second is mapped to the allocated block, which is in use, has the
-- content and the second as its only owner, while the first is no longer mapped; if each valid entry led
-- to a block of its owner it still does.
pub dedupe_trim-dedupe_lba_write :
    (s : Setting) (d : Disk) (first second : ℕ) (hash : Hash) (r : Disk × ℕ)
    → IsSort s.qsort
    → AreNew s d first second hash r
    → Returns
        (dedupe_lba_write s d first 1 hash >>= λ w.
          dedupe_lba_write s w.0 second 1 hash >>= λ v. dedupe_trim v.0 first hash)
        (λ e. OneLeft first second hash r.1 e × (IsConsistent d → IsConsistent e))
dedupe_trim-dedupe_lba_write s d first second hash r sort f =
    returns_bind (λ w. dedupe_lba_write s w.0 second 1 hash >>= λ v. dedupe_trim v.0 first hash)
      (dedupe_lba_write-NewWritten s d first hash r sort f.first_new)
      (λ w (n, c).
        returns_bind (λ v. dedupe_trim v.0 first hash)
          (dedupe_lba_write-Shared s w.0 second hash r.1
            (written-IsShareable s d first second hash r f w n))
          (λ v (m, c').
            by_trim v.0 (both-BothMapped s d first second hash r f w v n m) (λ k. c' (c k))))
  where
    by_trim :
        (v : Disk)
        → BothMapped v first second hash r.1
        → (IsConsistent d → IsConsistent v)
        → Returns
            (dedupe_trim v first hash)
            (λ e. OneLeft first second hash r.1 e × (IsConsistent d → IsConsistent e))
    by_trim v b c =
        let (e, runs, left) = left-OneLeft v first second hash r.1 f.apart b in
        (
          e,
          runs,
          (
            left,
            λ k.
                let (e', runs', (k', same)) =
                  dedupe_trim-IsConsistent v first hash b.inside (c k) in
                subst (λ (x : Disk). IsConsistent x) (ok-injective (sym runs' ∙ runs)) k',
          ),
        )
