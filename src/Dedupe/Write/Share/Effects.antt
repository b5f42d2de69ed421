-- ===== src/Dedupe/Write/Share/Effects.antt =====
-- src/lba.c (dedupe_lba_write): what the write of a content that is shared leaves.
use imr_dedupe.Prelude.{
  ℕ, suc, ◌+◌, ◌%◌, ◌^◌, ◌≤◌, ◌<◌, ◌≡◌, refl, sym, ap, ◌∙◌, true, false, ◌||◌, List, [], ◌∷◌, ◌++◌,
  ltb, ◌==◌, update, update_self, update_ne, subst, slice-update_end, slice, Returns, arith,
  Bool-cases, inl, inr,
}
use imr_dedupe.Disk.{Hash, Block, LtpEntry, Disk, is_in_use, add64}
use imr_dedupe.Disk.Compare.{hash_eq_refl}
use imr_dedupe.Dedupe.{lba_to_pba, dedupe_update_ltp_table}
use imr_dedupe.Dedupe.Release.{owners, member, IsOwned}
use imr_dedupe.Dedupe.Trim.Consistent.{IsConsistent}
use imr_dedupe.Dedupe.Place.{Setting}
use imr_dedupe.Dedupe.Place.Mapping.{IsMapped}
use imr_dedupe.Dedupe.Write.{write_out, dedupe_lba_write}
use imr_dedupe.Dedupe.Write.Share.{
  IsShareable, shared_disk, grown_block, shared_block, written_disk, rounds-shared,
}

-- What the write leaves: the block has one more owner, at the end, and the mapping leads to it; its
-- content, the other blocks and entries and the hash table are as they were.
pub record Shared (d : Disk) (lba : ℕ) (hash : Hash) (pba : ℕ) (w : Disk × ℕ) : Type 0 where
  pub result : w.1 ≡ 0
  pub mapped : IsMapped (w.0.ltp lba) pba hash
  pub leads : lba_to_pba w.0 lba ≡ pba
  pub used : is_in_use (w.0.storage pba).status ≡ true
  pub content : (w.0.storage pba).hash ≡ (d.storage pba).hash
  pub count : (w.0.storage pba).referenced_count ≡ (d.storage pba).referenced_count + 1
  pub owners_after : owners (w.0.storage pba) ≡ owners (d.storage pba) ++ (lba ∷ [])
  pub room_after : (w.0.storage pba).referenced_count + 1 ≤ (w.0.storage pba).lba_capacity
  pub blocks : (q : ℕ) → (pba == q) ≡ false → w.0.storage q ≡ d.storage q
  pub entries : (l : ℕ) → (lba == l) ≡ false → w.0.ltp l ≡ d.ltp l
  pub hash_table : w.0.hash_table ≡ d.hash_table
  pub report : w.0.report ≡ record d.report { disk_has_dedupe = true }

member-append : (x : ℕ) (l m : List ℕ) → member x l ≡ true → member x (l ++ m) ≡ true
member-append x [] m h = cc
member-append x (y ∷ l) m h = elim (Bool-cases (y == x)) [
  | inl e ↦ rw e refl
  | inr e ↦ rw e (member-append x l m (rw e at h))
]

member_last : (x : ℕ) (l : List ℕ) → member x (l ++ (x ∷ [])) ≡ true
member_last x [] = ground arith
member_last x (y ∷ l) = elim (Bool-cases (y == x)) [
  | inl e ↦ rw e refl
  | inr e ↦ rw e (member_last x l)
]

module _ (s : Setting) (d : Disk) (lba : ℕ) (hash : Hash) (pba : ℕ)
    (f : IsShareable s d lba hash pba) where
  written-Shared : Shared d lba hash pba (written_disk s d lba hash pba f, 0)
  unfolding written_disk shared_block dedupe_update_ltp_table lba_to_pba
  written-Shared =
      let b = d.storage pba in
      let g = grown_block s d lba hash pba f b in
      let shared = shared_disk s d lba hash pba f in
      let grown = update shared.storage pba g in
      let inside = f.on_disk in
      let few = f.few in
      let small : pba % 2 ^ 32 ≡ pba = omega arith in
      let room = f.room in
      let entry =
        update_self d.ltp lba
          (record (d.ltp lba) { pba = pba % 2 ^ 32; valid = true; trim = false; hash = hash }) in
      let block = update_self grown pba (shared_block s d lba hash pba f b) in
      record {
        result = refl;
        mapped = rw entry (refl, refl, hash_eq_refl hash, small);
        leads = ap (λ (e : LtpEntry). e.pba) entry ∙ small;
        used = rw block f.used;
        content = rw block refl;
        count = rw block refl;
        owners_after =
            let one_more : b.referenced_count + 1 + 1 ≡ suc (b.referenced_count + 1) =
              omega arith in
            ap (λ (x : Block). owners x) block
            ∙ ap (λ (n : ℕ). slice (update b.lba (b.referenced_count + 1) lba) 0 n) one_more
            ∙ slice-update_end b.lba (b.referenced_count + 1) lba;
        room_after = rw block (ground arith);
        blocks = λ q ne.
            update_ne grown pba q _ ne
            ∙ update_ne shared.storage pba q _ ne
            ∙ update_ne d.storage pba q _ ne;
        entries = λ l ne. update_ne d.ltp lba l _ ne;
        hash_table = refl;
        report = refl;
      }

  sharing-IsConsistent :
      (w : Disk × ℕ) → Shared d lba hash pba w → IsConsistent d → IsConsistent w.0
  unfolding lba_to_pba
  sharing-IsConsistent w n c = record { owned = owned_after }
    where
      owned_by :
          (l : ℕ) → l < 2 ^ 32 → member l (owners (w.0.storage pba)) ≡ true → IsOwned w.0 pba l
      owned_by l small m =
          let inside = f.on_disk in
          let bound = f.owners_bound in
          let count = n.count in
          record {
            on_disk = rw (n.report) inside;
            used = n.used;
            small = small;
            room = n.room_after;
            few = omega arith;
            owner = m;
          }

      other_owner : (l p : ℕ) → IsOwned d p l → IsOwned w.0 p l
      other_owner l p o = elim (Bool-cases (pba == p)) [
        | inl e ↦
            let same : p ≡ pba = ground arith in
            subst (λ (q : ℕ). IsOwned w.0 q l) (sym same)
              (owned_by l o.small (
                rw (n.owners_after)
                  (member-append l (owners (d.storage pba)) (lba ∷ []) (rw same at o.owner))))
        | inr e ↦
            let block = n.blocks p e in
            record {
              on_disk = rw (n.report) o.on_disk;
              used = rw block o.used;
              small = o.small;
              room = rw block o.room;
              few = rw block o.few;
              owner = rw block o.owner;
            }
      ]

      owned_after :
          (l : ℕ)
          → l < w.0.report.max_logical_block_num
          → (w.0.ltp l).valid ≡ true
          → IsOwned w.0 (lba_to_pba w.0 l) l
      owned_after l below valid = elim (Bool-cases (lba == l)) [
        | inl e ↦
            let same : l ≡ lba = ground arith in
            let logical = f.logical in
            let small = f.small in
            rw (same, n.leads)
              (owned_by lba (omega arith)
                (rw (n.owners_after) (member_last lba (owners (d.storage pba)))))
        | inr e ↦
            let entry = n.entries l e in
            subst (λ (x : LtpEntry). IsOwned w.0 x.pba l) (sym entry)
              (other_owner l (lba_to_pba d l)
                (c.owned l (rw (n.report) at below) (rw entry at valid)))
      ]

-- In the build with NEW_ALLOC or without it: if the logical block is one of the disk, which has fewer
-- than 2 ^ 32 of them and of blocks, as many blocks as tracks, and a phase 1 that starts at track 0, its
-- entry is neither valid nor trimed and leads to a block of the disk, a block in use is the first one
-- with the content among those that the search looks at, which are all blocks, or in phase 1 without
-- NEW_ALLOC as many bottom tracks as there are blocks in use, its owners fit it and they and its
-- capacity stay within an int, and the cells that the code compares, as many as block 0 has owners, are
-- cells of the block and do not name the logical block, then the write of the logical block returns 0
-- and writes no block: the block has the logical block as one more owner, after the others, and room for
-- it, the mapping leads to it, and no other block, no other entry and no item of the hash table changes;
-- if each valid entry led to a block of its owner it still does.
pub dedupe_lba_write-Shared :
    (s : Setting) (d : Disk) (lba : ℕ) (hash : Hash) (pba : ℕ)
    → IsShareable s d lba hash pba
    → Returns
        (dedupe_lba_write s d lba 1 hash)
        (λ w. Shared d lba hash pba w × (IsConsistent d → IsConsistent w.0))
unfolding dedupe_lba_write write_out
dedupe_lba_write-Shared s d lba hash pba f =
    let a = f.logical in
    let m = f.small in
    let fits : ltb d.report.max_logical_block_num lba
          || ltb d.report.max_logical_block_num (add64 lba 0)
        ≡ false =
      ground arith in
    let n = written-Shared s d lba hash pba f in
    (
      (written_disk s d lba hash pba f, 0),
      rw (fits, rounds-shared s d lba hash pba f) refl,
      (n, sharing-IsConsistent s d lba hash pba f (written_disk s d lba hash pba f, 0) n),
    )
