-- ===== src/Files/Delete.antt =====
-- src/lba.c (native_lba_delete): a deletion takes the blocks of the file that it looks at, and no others.
use imr_dedupe.Prelude.{
  ℕ, ◌+◌, ◌≤◌, ◌<◌, ◌≡◌, refl, sym, ap, subst, ◌∙◌, Bool, true, not, ◌&&◌, List, [], ◌∷◌, ◌++◌,
  ◌==◌, ltb, if◌then◌else◌, length, length-slice, ok, ◌>>=◌, Returns, returns_of_eq, arith,
  Bool-cases, inl, inr,
}
use imr_dedupe.Disk.{BbEntry, BbHead, BatchTable, Disk, invalid, set_status}
use imr_dedupe.Batch.{entries}
use imr_dedupe.Batch.Extend.{tracks}
use imr_dedupe.BlockIo.{batch_delete}
use imr_dedupe.BlockIo.Sort.{IsSort, IsFit, all_fit}
use imr_dedupe.BlockIo.Delete.{IsBacked, unmapped, named_by, batch_delete-BatchDeleted}
use imr_dedupe.Files.{put_table, native_lba_delete}
use imr_dedupe.Files.Collect.{
  belongs, of_file, IsStored, with_table, collect_file-entries, holds_file, tracks-of_file,
  count-of_file, of_file_fits, named-of_file, beyond-of_file,
}

-- What a deletion by a file comes to: it looks at as many logical blocks as the disk has blocks, and
-- the entries past those stay.
pub record FileDeleted (d : Disk) (fid : ℕ) (r : Disk × ℕ) : Type 0 where
  pub result : r.1 ≡ length (of_file d fid d.report.max_block_num 0)
  pub logical :
      (x : ℕ)
      → x < d.report.max_block_num
      → r.0.ltp x ≡ (if belongs d fid x then unmapped (d.ltp x) else d.ltp x)
  pub beyond : (x : ℕ) → d.report.max_block_num ≤ x → r.0.ltp x ≡ d.ltp x
  pub blocks :
      (q : ℕ)
      → r.0.storage q ≡ (
          if holds_file d fid d.report.max_block_num 0 q
          then set_status invalid (d.storage q)
          else d.storage q)

-- A deletion by a file looks at the logical blocks below the number of blocks of the disk. On a disk
-- with as many blocks as tracks and no more of them than logical blocks, while no batch is open and
-- `qsort` sorts, where each of these logical blocks that is of the file is mapped to a block of the
-- disk that is in use and names it first, the deletion returns how many of them are of the file;
-- exactly their entries are no longer valid, exactly their blocks are invalid, and every other entry,
-- those from the number of blocks on among them, and every other block is as it was.
pub native_lba_delete-FileDeleted :
    {qsort : List BbEntry → List BbEntry} (d : Disk) (lba n fid : ℕ)
    → IsSort qsort
    → IsStored d fid
    → d.report.max_block_num ≡ d.report.max_track_num
    → d.report.max_block_num ≤ d.report.max_logical_block_num
    → d.gbtable.block_head.size ≡ 0
    → Returns (native_lba_delete qsort d lba n fid) (FileDeleted d fid)
unfolding native_lba_delete
native_lba_delete-FileDeleted {qsort} d lba n fid sort s size inside closed =
    let max = d.report.max_block_num in
    let l = of_file d fid max 0 in
    let (r, runs, (g, same, all)) = collect_file-entries d fid max 0 0 d.gbtable (omega arith) in
    let list : entries g.block_head ≡ l =
      all ∙ ap (λ k. k ++ l) (no_entries d.gbtable.block_head closed) in
    let number : g.block_head.size ≡ length l =
      sym (length-slice g.block_head.table 0 g.block_head.size)
      ∙ ap (λ (k : List BbEntry). length k) list in
    let zero_more : 0 + length l ≡ length l = omega arith in
    returns_of_eq (rw (runs, same, zero_more) refl) (finish g list number)
  where
    no_entries : (h : BbHead) → h.size ≡ 0 → entries h ≡ []
    no_entries h e = rw e refl

    nothing : (k : List BbEntry) → length k ≡ 0 → k ≡ []
    nothing [] h = refl
    nothing (e ∷ k) h = absurd (omega arith)

    all_fit_same : (g : BatchTable) (k : List BbEntry) → all_fit (with_table d g) k ≡ all_fit d k
    all_fit_same g [] = refl
    all_fit_same g (e ∷ k) =
        ap (λ (v : Bool). (ltb e.pba d.report.max_track_num && not e.is_virtual) && v)
          (all_fit_same g k)

    fits :
        (g : BatchTable)
        → entries g.block_head ≡ of_file d fid d.report.max_block_num 0
        → IsFit (with_table d g) (entries g.block_head)
    fits g list = record {
      once = λ t.
          let c = count-of_file d fid s d.report.max_block_num 0 t (omega arith) in
          rw list (ground arith);
      fit =
          subst (λ (k : List BbEntry). all_fit (with_table d g) k ≡ true) (sym list)
            (all_fit_same g (of_file d fid d.report.max_block_num 0)
              ∙ of_file_fits d fid s d.report.max_block_num 0 (omega arith) size);
    }

    backed :
        (g : BatchTable)
        → entries g.block_head ≡ of_file d fid d.report.max_block_num 0
        → (p : ℕ) → tracks (entries g.block_head) p ≡ true
        → IsBacked (with_table d g) p
    backed g list p t =
        let x = (d.storage p).lba 0 in
        let held =
          sym (tracks-of_file d fid s d.report.max_block_num 0 p (omega arith)) ∙ rw list at t in
        let below : x < d.report.max_block_num = ground arith in
        let own : belongs d fid x ≡ true = ground arith in
        let at : (d.ltp x).pba ≡ p = ground arith in
        let b = rw at at (s.backed x below own) in
        record { used = b.used; logical = b.logical; valid = b.valid; back = b.back }

    finish :
        (g : BatchTable)
        → entries g.block_head ≡ of_file d fid d.report.max_block_num 0
        → g.block_head.size ≡ length (of_file d fid d.report.max_block_num 0)
        → Returns
            (if length (of_file d fid d.report.max_block_num 0) == 0
              then ok (with_table d g, 0)
              else (batch_delete qsort (with_table d g) g >>= λ r. ok (put_table r)))
            (FileDeleted d fid)
    finish g list number =
        let l = of_file d fid d.report.max_block_num 0 in
        elim (Bool-cases (length l == 0)) [
          | inl e ↦
              let empty : l ≡ [] = nothing l (ground arith) in
              (
                (with_table d g, 0),
                rw e refl,
                record {
                  result = sym (ap (λ (k : List BbEntry). length k) empty);
                  logical = λ x below.
                      let no_entry =
                        sym (named-of_file d fid s x below) ∙ ap (λ k. named_by d k x) empty in
                      rw no_entry refl;
                  beyond = λ x past. refl;
                  blocks = λ q.
                      let no_block =
                        sym (tracks-of_file d fid s d.report.max_block_num 0 q (omega arith))
                        ∙ ap (λ k. tracks k q) empty in
                      sym (
                        ap (λ b. if b then set_status invalid (d.storage q) else d.storage q)
                          no_block);
                },
              )
          | inr e ↦
              let (r, runs, b) =
                batch_delete-BatchDeleted (with_table d g) g sort (fits g list) size (ground arith)
                  (backed g list) in
              (
                put_table r,
                rw (e, runs) refl,
                record {
                  result = b.result ∙ number;
                  logical = λ x below.
                      b.logical x
                      ∙ ap
                          (λ (k : List BbEntry).
                            if named_by d k x then unmapped (d.ltp x) else d.ltp x)
                          list
                      ∙ ap (λ (v : Bool). if v then unmapped (d.ltp x) else d.ltp x)
                          (named-of_file d fid s x below);
                  beyond = λ x past.
                      b.logical x
                      ∙ ap
                          (λ (k : List BbEntry).
                            if named_by d k x then unmapped (d.ltp x) else d.ltp x)
                          list
                      ∙ ap (λ (v : Bool). if v then unmapped (d.ltp x) else d.ltp x)
                          (beyond-of_file d fid s x past);
                  blocks = λ q.
                      b.blocks q
                      ∙ ap
                          (λ (k : List BbEntry).
                            if tracks k q then set_status invalid (d.storage q) else d.storage q)
                          list
                      ∙ ap
                          (λ (v : Bool).
                            if v then set_status invalid (d.storage q) else d.storage q)
                          (tracks-of_file d fid s d.report.max_block_num 0 q (omega arith));
                },
              )
        ]
