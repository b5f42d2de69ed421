-- ===== src/BlockIo/Write.antt =====
-- src/batch.c, src/pba.c and src/chs.c: what a batch of writes does to the disk.
use imr_dedupe.Prelude.{
  ℕ, suc, ◌+◌, ◌-◌, ◌^◌, max, ◌≤◌, ◌<◌, ◌≡◌, refl, ap, ◌∙◌, Bool, true, false, ◌&&◌, List, [], ◌∷◌,
  ltb, if◌then◌else◌, update, ok, stop, ◌>>=◌, aborted, Returns, returns_of_eq, returns_map, arith,
  Bool-cases, inl, inr,
}
use imr_dedupe.Disk.{BbEntry, BatchTable, Block, Disk, Report, is_in_use}
use imr_dedupe.Batch.{entries, batch_sync, batch_extend, batch_clear}
use imr_dedupe.Batch.Extend.{IsBatch, tracks}
use imr_dedupe.BlockIo.Sort.{
  IsSort, IsFit, perm_invariant, Bool-set, tracks-qsort, batch_sync-entries, batch_sync-IsBatch,
}
use imr_dedupe.RecordOp.Charges.{Grows}
use native.Mathlib.Nat.{ℕ_set}
use imr_dedupe.RecordOp.Frame.{sizes, record_write_frame, set_time_size_frame}
use imr_dedupe.Chs.{is_writable, written_block, count_use, chs_write}
use imr_dedupe.BlockIo.{
  write_blocks, pba_write, batch_write, record_batch_write, count_write_blocks,
}

and_comm : (a b c : Bool) → a && (b && c) ≡ b && (a && c)
and_comm a b c = ground arith

-- Every block of the list may be written.
abbrev pub all_writable : Disk → List BbEntry → Bool
all_writable d [] = true
all_writable d (e ∷ l) = is_writable (d.storage e.pba).status && all_writable d l

-- How many blocks of the list are not in use yet.
abbrev pub unused : Disk → List BbEntry → ℕ
unused d [] = 0
unused d (e ∷ l) = (if is_in_use (d.storage e.pba).status then 0 else 1) + unused d l

abbrev after_write : Disk → ℕ → Disk
after_write d pba = record (count_use (d.storage pba) d) {
  storage = update d.storage pba (written_block (d.storage pba));
}

module _ (d : Disk) (pba : ℕ) where
  chs_write-ok :
      pba < d.report.max_block_num
      → is_writable (d.storage pba).status ≡ true
      → chs_write d pba ≡ ok (after_write d pba)
  unfolding chs_write
  chs_write-ok inside w =
      let i : ltb pba d.report.max_block_num ≡ true = ground arith in rw (i, w) refl

  chs_write-aborted :
      pba < d.report.max_block_num
      → is_writable (d.storage pba).status ≡ false
      → chs_write d pba ≡ stop aborted
  unfolding chs_write
  chs_write-aborted inside w =
      let i : ltb pba d.report.max_block_num ≡ true = ground arith in rw (i, w) refl

-- Apart from the use count the writes leave the report alone.
abbrev pub with_use_count : Report → ℕ → Report
with_use_count p n = record p { current_use_block_num = n }

-- The disk after writes to the blocks of `l` on `d`, where these blocks were as in `d₀`.
pub record Written (d₀ d : Disk) (l : List BbEntry) (d' : Disk) : Type 0 where
  pub blocks :
      (q : ℕ) → d'.storage q ≡ (if tracks l q then written_block (d₀.storage q) else d.storage q)
  pub use_count : Grows (unused d₀ l) d.report.current_use_block_num d'.report.current_use_block_num
  pub use_bound : d'.report.current_use_block_num ≤ max d.report.current_use_block_num (2 ^ 64 - 1)
  pub rest : d' ≡ record d {
    storage = d'.storage;
    report = with_use_count d.report d'.report.current_use_block_num;
  }

use_count_step :
    (d d₀ : Disk) (pba : ℕ)
    → d.storage pba ≡ d₀.storage pba
    → Grows
        (if is_in_use (d₀.storage pba).status then 0 else 1)
        d.report.current_use_block_num
        (after_write d pba).report.current_use_block_num
use_count_step d d₀ pba e = rw (← e) (elim (Bool-cases (is_in_use (d.storage pba).status)) [
  | inl f ↦ rw f (omega arith)
  | inr f ↦ rw f (omega arith)
])

use_bound_step :
    (d : Disk) (pba : ℕ)
    → (after_write d pba).report.current_use_block_num
      ≤ max d.report.current_use_block_num (2 ^ 64 - 1)
use_bound_step d pba = elim (Bool-cases (is_in_use (d.storage pba).status)) [
  | inl f ↦ rw f (ground arith)
  | inr f ↦ rw f (ground arith)
]

rest_step :
    (d : Disk) (pba : ℕ) (s : ℕ → Block) (n : ℕ)
    → Path Disk
        (record (after_write d pba) {
          storage = s;
          report = with_use_count (after_write d pba).report n;
        })
        (record d { storage = s; report = with_use_count d.report n })
rest_step d pba s n = elim (Bool-cases (is_in_use (d.storage pba).status)) [
  | inl e ↦ rw e refl
  | inr e ↦ rw e refl
]

write_blocks-Written :
    (d₀ d : Disk) (b : ℕ) (l : List BbEntry)
    → IsBatch d₀ b l
    → all_writable d₀ l ≡ true
    → ((q : ℕ) → b ≤ q → d.storage q ≡ d₀.storage q)
    → d.report.max_block_num ≡ d₀.report.max_track_num
    → Returns (write_blocks l d) (Written d₀ d l)
unfolding write_blocks
write_blocks-Written d₀ d b [] batch w same size = (
  d,
  refl,
  record { blocks = λ q. refl; use_count = omega arith; use_bound = ground arith; rest = refl },
)
write_blocks-Written d₀ d b (e ∷ l) (after, inside, physical, batch) w same size =
    let here = same e.pba after in
    returns_of_eq
      (ap (λ m. m >>= write_blocks l)
        (chs_write-ok d e.pba (omega arith)
          (ap (λ (x : Block). is_writable x.status) here ∙ ground arith)))
      (returns_map
        (λ d' x. record {
          blocks = λ q.
              x.blocks q
              ∙ ground (arith, ap d.storage {x = e.pba} {y = q}, ap d₀.storage {x = e.pba} {y = q});
          use_count = let u = x.use_count in let c = use_count_step d d₀ e.pba here in omega arith;
          use_bound = let u = x.use_bound in let v = use_bound_step d e.pba in ground arith;
          rest = x.rest ∙ rest_step d e.pba d'.storage d'.report.current_use_block_num;
        })
        (write_blocks-Written d₀ (after_write d e.pba) (suc e.pba) l batch (ground arith)
          (λ q h. let s = same q (omega arith) in ground arith) (ground arith)))

write_blocks-aborted :
    (d₀ d : Disk) (b : ℕ) (l : List BbEntry)
    → IsBatch d₀ b l
    → all_writable d₀ l ≡ false
    → ((q : ℕ) → b ≤ q → d.storage q ≡ d₀.storage q)
    → d.report.max_block_num ≡ d₀.report.max_track_num
    → write_blocks l d ≡ stop aborted
unfolding write_blocks
write_blocks-aborted d₀ d b [] batch w same size = cc
write_blocks-aborted d₀ d b (e ∷ l) (after, inside, physical, batch) w same size =
    let here = ap (λ (x : Block). is_writable x.status) (same e.pba after) in
    elim (Bool-cases (is_writable (d₀.storage e.pba).status)) [
      | inl f ↦
          ap (λ m. m >>= write_blocks l) (chs_write-ok d e.pba (omega arith) (here ∙ f))
          ∙ write_blocks-aborted d₀ (after_write d e.pba) (suc e.pba) l batch (ground arith)
              (λ q h. let s = same q (omega arith) in ground arith) (ground arith)
      | inr f ↦ ap (λ m. m >>= write_blocks l) (chs_write-aborted d e.pba (omega arith) (here ∙ f))
    ]

module _ {qsort : List BbEntry → List BbEntry} (sort : IsSort qsort) (d : Disk)
    (l : List BbEntry) where
  all_writable-qsort : all_writable d (qsort l) ≡ all_writable d l
  all_writable-qsort =
      perm_invariant (all_writable d) (λ e b. is_writable (d.storage e.pba).status && b)
        (λ e m. refl) (λ x y b. and_comm _ _ b) Bool-set (sort.perm l)

  unused-qsort : unused d (qsort l) ≡ unused d l
  unused-qsort =
      perm_invariant (unused d) (λ e n. (if is_in_use (d.storage e.pba).status then 0 else 1) + n)
        (λ e m. refl) (λ x y n. omega arith) ℕ_set (sort.perm l)

-- What `batch_write` returns: the blocks of the batch are in use and counted once more, no other
-- block changes, the use count grows by the blocks that were not in use, both tables are empty, the
-- logical table, the hash table and the state of the allocator stay, and the result is the number of
-- entries.
pub record BatchWritten (d : Disk) (t : BatchTable) (r : Disk × BatchTable × ℕ) : Type 0 where
  pub blocks :
      (q : ℕ)
      → r.0.storage q
        ≡ (if tracks (entries t.block_head) q then written_block (d.storage q) else d.storage q)
  pub use_count :
      Grows
        (unused d (entries t.block_head))
        d.report.current_use_block_num
        r.0.report.current_use_block_num
  pub use_bound : r.0.report.current_use_block_num ≤ max d.report.current_use_block_num (2 ^ 64 - 1)
  pub logical : r.0.ltp ≡ d.ltp
  pub hash_table : r.0.hash_table ≡ d.hash_table
  pub zinfo : r.0.zinfo ≡ d.zinfo
  pub table : (r.1.block_head.size ≡ 0) × (r.1.extend_head.size ≡ 0)
  pub result : r.2 ≡ t.block_head.size
  pub sizes_kept : sizes r.0.report ≡ sizes d.report

kept_use :
    (d : Disk) (t : BatchTable) (n : ℕ)
    → (record_batch_write t (count_write_blocks n d)).report.current_use_block_num
      ≡ d.report.current_use_block_num
kept_use d t n =
    ap (λ (p : Report). p.current_use_block_num)
      (record_write_frame d.recording_mode t.extend_head (count_write_blocks n d).report
        ∙ set_time_size_frame d.recording_mode _ d.report)

module _ {qsort : List BbEntry → List BbEntry} (sort : IsSort qsort) (d : Disk) (t : BatchTable)
    (fit : IsFit d (entries t.block_head))
    (size : d.report.max_block_num ≡ d.report.max_track_num) where
  -- `batch_write` with a `qsort` that sorts, on a disk with as many blocks as tracks, of physical
  -- entries on tracks of the disk, no track twice, returns if every block is booked, in use or
  -- trimed, and leaves the disk as `BatchWritten` states.
  pub batch_write-BatchWritten :
      all_writable d (entries t.block_head) ≡ true
      → Returns (batch_write qsort d t) (BatchWritten d t)
  unfolding batch_write pba_write batch_extend batch_clear
  batch_write-BatchWritten w =
      let l = entries t.block_head in
      let (any, same, kept, ext) = batch_sync-entries t sort in
      let batch = rw same at (batch_sync-IsBatch d t sort fit) in
      let (d', runs, x) =
        write_blocks-Written d d 0 (qsort l) batch (all_writable-qsort sort d l ∙ w) (λ q h. refl)
          size in
      let t' = batch_extend d (batch_sync qsort t).0 in
      let sum = t'.block_head.size in
      (
        (record_batch_write t' (count_write_blocks sum d'), batch_clear t', sum),
        rw (same, runs) refl,
        record {
          blocks = λ q. x.blocks q ∙ rw (tracks-qsort sort l q) refl;
          use_count =
              let u = x.use_count in
              let v = unused-qsort sort d l in rw (kept_use d' t' sum) (rw v at u);
          use_bound = rw (kept_use d' t' sum) x.use_bound;
          logical = ap (λ (d : Disk). d.ltp) x.rest;
          hash_table = ap (λ (d : Disk). d.hash_table) x.rest;
          zinfo = ap (λ (d : Disk). d.zinfo) x.rest;
          table = (refl, refl);
          result = kept;
          sizes_kept =
              ap (λ (p : Report). sizes p)
                (record_write_frame d'.recording_mode t'.extend_head
                    (count_write_blocks sum d').report
                  ∙ set_time_size_frame d'.recording_mode _ d'.report)
              ∙ ap (λ (e : Disk). sizes e.report) x.rest;
        },
      )

  -- With such a `qsort`, disk and batch, `batch_write` aborts if some block of the batch is not
  -- booked, in use or trimed.
  pub batch_write-aborted :
      all_writable d (entries t.block_head) ≡ false → batch_write qsort d t ≡ stop aborted
  unfolding batch_write pba_write batch_extend
  batch_write-aborted w =
      let l = entries t.block_head in
      let same = (batch_sync-entries t sort).1 in
      let batch = rw same at (batch_sync-IsBatch d t sort fit) in
      let stops =
        write_blocks-aborted d d 0 (qsort l) batch (all_writable-qsort sort d l ∙ w) (λ q h. refl)
          size in
      rw (same, stops) refl
