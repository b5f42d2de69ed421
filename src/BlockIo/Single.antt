-- ===== src/BlockIo/Single.antt =====
-- src/batch.c (batch_write): a batch of one block.
use imr_dedupe.Prelude.{
  ℕ, ◌-◌, ◌^◌, max, ◌≤◌, ◌<◌, ◌≡◌, refl, sym, ap, ◌∙◌, Bool, true, false, ◌&&◌, List, [], ◌∷◌, ◌++◌,
  ◌==◌, ltb, if◌then◌else◌, subst, suc, slice-update_end, Returns, returns_map, arith, Bool-cases,
  inl, inr,
}
use imr_dedupe.Disk.{BbEntry, BbHead, BatchTable, Disk, is_in_use}
use imr_dedupe.Batch.{entry, entries, bb_table_add, batch_add}
use imr_dedupe.Batch.Extend.{tracks}
use imr_dedupe.Batch.Lookup.{add_table, add_size}
use imr_dedupe.Chs.{is_writable, written_block}
use imr_dedupe.RecordOp.Charges.{Grows}
use imr_dedupe.RecordOp.Frame.{sizes}
use imr_dedupe.BlockIo.{batch_write}
use imr_dedupe.BlockIo.Sort.{IsSort, IsFit}
use imr_dedupe.BlockIo.Write.{all_writable, unused, BatchWritten, batch_write-BatchWritten}

-- What the write of a batch of one block leaves.
pub record SingleWritten (d : Disk) (pba : ℕ) (r : Disk × BatchTable × ℕ) : Type 0 where
  pub block : r.0.storage pba ≡ written_block (d.storage pba)
  pub others : (q : ℕ) → (pba == q) ≡ false → r.0.storage q ≡ d.storage q
  pub logical : r.0.ltp ≡ d.ltp
  pub hash_table : r.0.hash_table ≡ d.hash_table
  pub zinfo : r.0.zinfo ≡ d.zinfo
  pub use_count :
      is_in_use (d.storage pba).status ≡ false
      → Grows 1 d.report.current_use_block_num r.0.report.current_use_block_num
  pub use_bound : r.0.report.current_use_block_num ≤ max d.report.current_use_block_num (2 ^ 64 - 1)
  pub closed : r.1.block_head.size ≡ 0
  pub result : r.2 ≡ 1
  pub sizes_kept : sizes r.0.report ≡ sizes d.report

pub entries-add :
    (h : BbHead) (pba : ℕ)
    → entries (bb_table_add h pba false) ≡ entries h ++ (entry pba false ∷ [])
entries-add h pba = rw (add_table, add_size) (slice-update_end h.table h.size (entry pba false))

no_entries : (h : BbHead) → h.size ≡ 0 → entries h ≡ []
no_entries h e = rw e refl

module _ (d : Disk) (t : BatchTable) (pba : ℕ) (closed : t.block_head.size ≡ 0) where
  one_entry : entries (batch_add pba t).block_head ≡ entry pba false ∷ []
  unfolding batch_add
  one_entry =
      entries-add t.block_head pba
      ∙ ap (λ (l : List BbEntry). l ++ (entry pba false ∷ [])) (no_entries t.block_head closed)

  one_size : (batch_add pba t).block_head.size ≡ 1
  unfolding batch_add
  one_size = add_size t.block_head pba false ∙ ap suc closed

  written_at :
      (q : ℕ) (b : Bool)
      → (pba == q) ≡ b
      → (r : Disk × BatchTable × ℕ) → BatchWritten d (batch_add pba t) r
      → r.0.storage q ≡ (if b then written_block (d.storage q) else d.storage q)
  written_at q b e r x =
      let here : tracks (entries (batch_add pba t).block_head) q ≡ b =
        ap (λ l. tracks l q) one_entry
        ∙ elim (Bool-cases b) [ inl f ↦ ground arith | inr f ↦ ground arith ] in
      x.blocks q ∙ ap (λ (v : Bool). if v then written_block (d.storage q) else d.storage q) here

  pub batch_write-SingleWritten :
      {qsort : List BbEntry → List BbEntry}
      → IsSort qsort
      → pba < d.report.max_block_num
      → d.report.max_block_num ≡ d.report.max_track_num
      → is_writable (d.storage pba).status ≡ true
      → Returns (batch_write qsort d (batch_add pba t)) (SingleWritten d pba)
  batch_write-SingleWritten sort inside size w =
      let below : ltb pba d.report.max_track_num ≡ true = ground arith in
      returns_map
        (λ r x. record {
          block = written_at pba true (ground arith) r x;
          others = λ q ne. written_at q false ne r x;
          logical = x.logical;
          hash_table = x.hash_table;
          zinfo = x.zinfo;
          use_count = λ u.
              let one : unused d (entries (batch_add pba t).block_head) ≡ 1 =
                ap (λ l. unused d l) one_entry ∙ rw u refl in
              let g = x.use_count in rw one at g;
          use_bound = x.use_bound;
          closed = x.table.0;
          result = x.result ∙ one_size;
          sizes_kept = x.sizes_kept;
        })
        (batch_write-BatchWritten sort d (batch_add pba t)
          (subst (IsFit d) (sym one_entry)
            (record { once = λ q. ground arith; fit = rw below refl }))
          size (ap (all_writable d) one_entry ∙ ap (λ (v : Bool). v && true) w))
