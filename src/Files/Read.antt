-- ===== src/Files/Read.antt =====
-- src/lba.c (lba_read): a file reads its own blocks, and no others.
use imr_dedupe.Prelude.{
  ℕ, zero, suc, ◌+◌, ◌-◌, ◌*◌, ◌^◌, ◌≤◌, ◌<◌, ◌≡◌, refl, ap, ap₂, ◌∙◌, Bool, true, false, ◌&&◌,
  ◌||◌, List, [], ◌∷◌, ◌++◌, ◌==◌, ltb, if◌then◌else◌, slice-update_end, ok, ◌>>=◌, Returns,
  returns_of_eq, returns_map, arith, Bool-cases, inl, inr,
}
use imr_dedupe.Disk.{BbEntry, BbHead, BatchTable, Disk, is_in_use, add64, track_size}
use imr_dedupe.Batch.{entry, entries, batch_add, bb_table_add}
use imr_dedupe.Batch.Lookup.{add_table, add_size}
use imr_dedupe.RecordOp.Charges.{Grows, virtual}
use imr_dedupe.BlockIo.{batch_read}
use imr_dedupe.BlockIo.Sort.{IsSort}
use imr_dedupe.BlockIo.Read.{batch_read-BatchRead}
use imr_dedupe.Files.{
  is_ltp_mapping_valid, is_storage_data_valid, is_block_data_valid, read_rounds, out_of_range,
  put_table, lba_read,
}
use imr_dedupe.Dedupe.{lba_to_pba}

-- The logical block belongs to the file, and its physical block is in use.
abbrev pub is_readable : Disk → (fid l : ℕ) → Bool
is_readable d fid l =
    ((d.ltp l).valid && (d.ltp l).fid == fid) && is_in_use (d.storage (d.ltp l).pba).status

-- How many of `n` logical blocks from `l` on are.
abbrev pub readable : Disk → (fid n l : ℕ) → ℕ
readable d fid zero l = 0
readable d fid (suc n) l = (if is_readable d fid l then 1 else 0) + readable d fid n (l + 1)

-- The blocks of a disk that the mapping leads to are on the disk.
abbrev pub LeadsToDisk : Disk → Type 0
LeadsToDisk d =
    (l : ℕ) → l < d.report.max_logical_block_num → (d.ltp l).pba < d.report.max_block_num

pub data_valid :
    (d : Disk) (l fid : ℕ)
    → l < d.report.max_logical_block_num
    → (d.ltp l).pba < d.report.max_block_num
    → is_block_data_valid d l fid ≡ ok (is_readable d fid l)
unfolding is_block_data_valid is_ltp_mapping_valid is_storage_data_valid lba_to_pba
data_valid d l fid inside on_disk =
    let i : ltb l d.report.max_logical_block_num ≡ true = ground arith in
    let o : ltb (d.ltp l).pba d.report.max_block_num ≡ true = ground arith in
    elim (Bool-cases ((d.ltp l).valid && (d.ltp l).fid == fid)) [
      | inl e ↦ rw (i, e, o) refl
      | inr e ↦ rw (i, e) refl
    ]

virtual-append : (l m : List BbEntry) → virtual (l ++ m) ≡ virtual l + virtual m
virtual-append [] m = omega arith
virtual-append (e ∷ l) m = omega (arith, virtual-append l m)

-- A block that joins a batch is a physical entry at its end.
add_physical :
    (h : BbHead) (pba : ℕ) → virtual (entries (bb_table_add h pba false)) ≡ virtual (entries h)
add_physical h pba =
    let at_end = slice-update_end h.table h.size (entry pba false) in
    rw (add_table, add_size)
      (ap virtual at_end ∙ virtual-append (entries h) (entry pba false ∷ []) ∙ omega arith)

-- A disk in the midst of a read: only the batch table and the count of invalid reads have changed.
abbrev midway : Disk → BatchTable → ℕ → Disk
midway d g m = record d { gbtable = g; report = record d.report { num_invalid_read = m } }

record Collected (d : Disk) (fid n l : ℕ) (g : BatchTable) (m k : ℕ) (r : Disk × ℕ) : Type 0 where
  table : BatchTable
  number : ℕ
  bad : ℕ
  all : bad + readable d fid n l ≡ n
  disk : r.0 ≡ midway d table number
  counted : r.1 ≡ k + bad
  size : table.block_head.size ≡ g.block_head.size + readable d fid n l
  physical : virtual (entries table.block_head) ≡ virtual (entries g.block_head)
  grows : Grows bad m number

read_rounds-Collected :
    (d : Disk) (fid n l : ℕ) (g : BatchTable) (m k : ℕ)
    → LeadsToDisk d
    → l + n ≤ d.report.max_logical_block_num
    → l + n < 2 ^ 64
    → Returns (read_rounds fid n l (midway d g m, k)) (Collected d fid n l g m k)
unfolding read_rounds batch_add lba_to_pba
read_rounds-Collected d fid zero l g m k leads inside small = (
  (midway d g m, k),
  refl,
  record {
    table = g;
    number = m;
    bad = 0;
    all = refl;
    disk = refl;
    counted = omega arith;
    size = omega arith;
    physical = refl;
    grows = omega arith;
  },
)
read_rounds-Collected d fid (suc n) l g m k leads inside small =
    let here = data_valid (midway d g m) l fid (omega arith) (leads l (omega arith)) in
    let next : add64 l 1 ≡ l + 1 = ground arith in
    elim (Bool-cases (is_readable d fid l)) [
      | inl e ↦
          let g' = batch_add (d.ltp l).pba g in
          returns_of_eq (rw (here, e, next) refl) (
            returns_map
              (λ r c. record {
                table = c.table;
                number = c.number;
                bad = c.bad;
                all = let a = c.all in rw e (omega arith);
                disk = c.disk;
                counted = c.counted;
                size =
                    let s = c.size in
                    let a = add_size g.block_head (d.ltp l).pba false in rw e (omega arith);
                physical = c.physical ∙ add_physical g.block_head (d.ltp l).pba;
                grows = c.grows;
              })
              (read_rounds-Collected d fid n (l + 1) g' m k leads (omega arith) (omega arith)))
      | inr e ↦ returns_of_eq (rw (here, e, next) refl) (
          returns_map
            (λ r c. record {
              table = c.table;
              number = c.number;
              bad = c.bad + 1;
              all = let a = c.all in rw e (omega arith);
              disk = c.disk;
              counted = let a = c.counted in omega arith;
              size = let s = c.size in rw e (omega arith);
              physical = c.physical;
              grows = let a = c.grows in omega arith;
            })
            (read_rounds-Collected d fid n (l + 1) g (add64 m 1) (k + 1) leads (omega arith)
              (omega arith)))
    ]

-- A read of `n` logical blocks of the disk while no batch is open.
pub record IsRequest (d : Disk) (lba n : ℕ) : Type 0 where
  pub some_block : 0 < n
  pub on_disk : lba + n ≤ d.report.max_block_num
  pub logical : lba + n ≤ d.report.max_logical_block_num
  pub small : d.report.max_block_num < 2 ^ 64
  pub leads : LeadsToDisk d
  pub closed : d.gbtable.block_head.size ≡ 0

pub in_range : (d : Disk) (lba n : ℕ) → IsRequest d lba n → (n == 0 || out_of_range d lba n) ≡ false
in_range d lba n q =
    let s = q.some_block in
    let o = q.on_disk in
    let m = q.small in
    let last : add64 lba (n - 1) ≡ lba + (n - 1) = ground arith in rw last (ground arith)

-- What a read by a file comes to: the file reads its own blocks that are in use, the others are
-- counted, each block read is charged one track, and neither the blocks nor the mapping change.
pub record FileRead (d : Disk) (lba n fid : ℕ) (r : Disk × ℕ) : Type 0 where
  pub result : r.1 ≡ readable d fid n lba
  pub invalid :
      Grows (n - readable d fid n lba) d.report.num_invalid_read r.0.report.num_invalid_read
  pub charged :
      Grows (readable d fid n lba * track_size) d.report.total_read_size r.0.report.total_read_size
  pub storage : r.0.storage ≡ d.storage
  pub ltp : r.0.ltp ≡ d.ltp
  pub table : r.0.hash_table ≡ d.hash_table
  pub closed : r.0.gbtable.block_head.size ≡ 0

-- The batch is read, unless no block was valid.
finish :
    {qsort : List BbEntry → List BbEntry} (is_csv_flag : Bool) (d : Disk) (lba n fid : ℕ)
    → IsSort qsort
    → (g : BatchTable) (m bad : ℕ) → bad + readable d fid n lba ≡ n
    → g.block_head.size ≡ readable d fid n lba
    → virtual (entries g.block_head) ≡ 0
    → Grows bad d.report.num_invalid_read m
    → Returns
        (if bad == n
          then ok (midway d g m, 0)
          else (batch_read qsort is_csv_flag (midway d g m) g >>= λ r. ok (put_table r)))
        (FileRead d lba n fid)
finish {qsort} is_csv_flag d lba n fid sort g m bad all size physical grows =
    let split : n - readable d fid n lba ≡ bad = omega arith in
    elim (Bool-cases (bad == n)) [
      | inl e ↦
          let nothing : readable d fid n lba ≡ 0 = ground arith in
          (
            (midway d g m, 0),
            rw e refl,
            record {
              result = omega arith;
              invalid = rw split grows;
              charged = rw nothing (omega arith);
              storage = refl;
              ltp = refl;
              table = refl;
              closed = omega arith;
            },
          )
      | inr e ↦
          let some_read : 0 < g.block_head.size = ground arith in
          let (r, runs, b) =
            batch_read-BatchRead is_csv_flag (midway d g m) g sort some_read physical in
          (
            put_table r,
            rw (e, runs) refl,
            record {
              result = b.result ∙ size;
              invalid = rw (split, b.invalid) grows;
              charged = rw (← size) b.grows;
              storage = ap (λ (x : Disk). x.storage) b.disk;
              ltp = ap (λ (x : Disk). x.ltp) b.disk;
              table = ap (λ (x : Disk). x.hash_table) b.disk;
              closed = b.table;
            },
          )
    ]

-- A read of at least one logical block of the disk, while no batch is open, every entry of the mapping
-- leads to a block of the disk and `qsort` sorts, returns how many of the blocks are mapped for the
-- file to a block in use; the others are counted as invalid reads, each block read is charged one
-- track, and the blocks, the mapping and the hash table stay as they are.
pub lba_read-FileRead :
    {qsort : List BbEntry → List BbEntry} (is_csv_flag : Bool) (d : Disk) (lba n fid : ℕ)
    → IsSort qsort
    → IsRequest d lba n
    → Returns (lba_read qsort is_csv_flag d lba n fid) (FileRead d lba n fid)
unfolding lba_read
lba_read-FileRead {qsort} is_csv_flag d lba n fid sort q =
    let on_disk = q.on_disk in
    let small = q.small in
    let closed = q.closed in
    let range = in_range d lba n q in
    let (r, runs, c) =
      read_rounds-Collected d fid n lba d.gbtable d.report.num_invalid_read 0 q.leads q.logical
        (omega arith) in
    let same : r ≡ (midway d c.table c.number, c.bad) =
      ap₂ (λ (a : Disk) (b : ℕ). (a, b)) c.disk (let k = c.counted in omega arith) in
    let size = c.size in
    let physical : virtual (entries c.table.block_head) ≡ 0 =
      c.physical ∙ no_virtual d.gbtable.block_head closed in
    returns_of_eq (rw (range, runs, same) refl) (
      finish is_csv_flag d lba n fid sort c.table c.number c.bad c.all (omega arith) physical
        c.grows)
  where
    no_virtual : (h : BbHead) → h.size ≡ 0 → virtual (entries h) ≡ 0
    no_virtual h e = rw e refl
