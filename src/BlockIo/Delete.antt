-- ===== src/BlockIo/Delete.antt =====
-- src/batch.c (batch_delete), src/pba.c and src/chs.c: what a batch of deletions does to the disk.
use imr_dedupe.Prelude.{
  ℕ, suc, ◌*◌, ◌≤◌, ◌<◌, ◌≡◌, refl, sym, ap, ◌∙◌, Bool, true, false, ◌&&◌, List, [], ◌∷◌, ltb, ◌==◌,
  subst, if◌then◌else◌, update, update_self, update_ne, ok, ◌>>=◌, Returns, returns_of_eq,
  returns_map, arith, Bool-cases, inl, inr,
}
use imr_dedupe.Disk.{
  BbEntry, BatchTable, Block, LtpEntry, Disk, is_in_use, add64, block_size, invalid, set_status,
}
use imr_dedupe.Batch.{entries, batch_sync, batch_extend, batch_clear}
use imr_dedupe.Batch.Extend.{IsBatch, tracks}
use imr_dedupe.BlockIo.Sort.{IsSort, IsFit, tracks-qsort, batch_sync-entries, batch_sync-IsBatch}
use imr_dedupe.RecordOp.Frame.{sizes-record_delete}
use imr_dedupe.Chs.{chs_delete}
use imr_dedupe.BlockIo.{set_report, delete_blocks, pba_delete, batch_delete, record_batch_delete}

-- The block is in use, and the logical block that it names first is mapped to it.
pub record IsBacked (d : Disk) (p : ℕ) : Type 0 where
  pub used : is_in_use (d.storage p).status ≡ true
  pub logical : (d.storage p).lba 0 < d.report.max_logical_block_num
  pub valid : (d.ltp ((d.storage p).lba 0)).valid ≡ true
  pub back : (d.ltp ((d.storage p).lba 0)).pba ≡ p

abbrev pub unmapped : LtpEntry → LtpEntry
unmapped e = record e { valid = false }

-- Whether the logical block is the first of a block of the list.
abbrev pub named_by : Disk → List BbEntry → ℕ → Bool
named_by d l x = tracks l (d.ltp x).pba && (d.storage (d.ltp x).pba).lba 0 == x

-- The disk after deletions of the blocks of `l` on `d`, where these blocks were as in `d₀`.
record Erased (d₀ d : Disk) (l : List BbEntry) (d' : Disk) : Type 0 where
  blocks :
      (q : ℕ)
      → d'.storage q ≡ (if tracks l q then set_status invalid (d₀.storage q) else d.storage q)
  logical : (x : ℕ) → d'.ltp x ≡ (if named_by d₀ l x then unmapped (d₀.ltp x) else d.ltp x)
  report : d'.report ≡ d.report

abbrev after_delete : Disk → ℕ → Disk
after_delete d p =
    let x = (d.storage p).lba 0 in
    record d {
      storage = update d.storage p (set_status invalid (d.storage p));
      ltp = update d.ltp x (unmapped (d.ltp x));
    }

chs_delete-ok :
    (d : Disk) (p : ℕ)
    → p < d.report.max_block_num
    → IsBacked d p
    → chs_delete d p ≡ ok (after_delete d p)
unfolding chs_delete
chs_delete-ok d p inside b =
    let i : ltb p d.report.max_block_num ≡ true = ground arith in
    let x : ltb ((d.storage p).lba 0) d.report.max_logical_block_num ≡ true =
      let l = b.logical in ground arith in
    rw (i, b.used, x, b.valid) refl

module _ (d₀ d : Disk) (p : ℕ) (backed : IsBacked d₀ p) (here : d.storage p ≡ d₀.storage p)
    (entry : d.ltp ((d₀.storage p).lba 0) ≡ d₀.ltp ((d₀.storage p).lba 0)) where
  same-IsBacked : d.report.max_logical_block_num ≡ d₀.report.max_logical_block_num → IsBacked d p
  same-IsBacked size = record {
    used = rw here backed.used;
    logical = rw (here, size) backed.logical;
    valid = rw (here, entry) backed.valid;
    back = rw (here, entry) backed.back;
  }

  block_step :
      (l : List BbEntry) (v : Bool) (q : ℕ)
      → (if tracks l q then set_status invalid (d₀.storage q) else (after_delete d p).storage q) ≡ (
          if tracks (record { pba = p; is_virtual = v } ∷ l) q
          then set_status invalid (d₀.storage q)
          else d.storage q)
  block_step l v q = elim (Bool-cases (tracks l q)) [
    | inl t ↦ elim (Bool-cases (p == q)) [ inl e ↦ rw (t, e) refl | inr e ↦ rw (t, e) refl ]
    | inr t ↦ elim (Bool-cases (p == q)) [
      | inl e ↦
          let at : q ≡ p = ground arith in
          let self : (p == p) ≡ true = ground arith in
          let t' = rw at at t in rw (at, t', self) (ap (λ (b : Block). set_status invalid b) here)
      | inr e ↦ rw (t, e) refl
    ]
  ]

  named_first :
      (l : List BbEntry) (v : Bool) (x : ℕ)
      → (d₀.storage p).lba 0 ≡ x
      → named_by d₀ (record { pba = p; is_virtual = v } ∷ l) x ≡ true
  named_first l v x at =
      let back : (d₀.ltp x).pba ≡ p = ap (λ (y : ℕ). (d₀.ltp y).pba) (sym at) ∙ backed.back in
      rw (back, at) (ground arith)

  named_later :
      (l : List BbEntry) (v : Bool) (x : ℕ)
      → ((d₀.storage p).lba 0 == x) ≡ false
      → named_by d₀ (record { pba = p; is_virtual = v } ∷ l) x ≡ named_by d₀ l x
  named_later l v x e = elim (Bool-cases (p == (d₀.ltp x).pba)) [
    | inr f ↦ rw f refl
    | inl f ↦ let at : (d₀.ltp x).pba ≡ p = ground arith in rw (at, e) (ground arith)
  ]

  entry_step :
      (l : List BbEntry) (v : Bool) (x : ℕ)
      → (if named_by d₀ l x then unmapped (d₀.ltp x) else (after_delete d p).ltp x) ≡ (
          if named_by d₀ (record { pba = p; is_virtual = v } ∷ l) x
          then unmapped (d₀.ltp x)
          else d.ltp x)
  entry_step l v x = elim (Bool-cases ((d₀.storage p).lba 0 == x)) [
    | inl e ↦
        let at : (d₀.storage p).lba 0 ≡ x = ground arith in
        rw (named_first l v x at) (elim (Bool-cases (named_by d₀ l x)) [
          | inl t ↦ rw t refl
          | inr t ↦ rw t (first_gone x at)
        ])
    | inr e ↦
        let e' : ((d.storage p).lba 0 == x) ≡ false = rw here e in
        rw (named_later l v x e) (
          ap (λ (f : LtpEntry). if named_by d₀ l x then unmapped (d₀.ltp x) else f)
            (update_ne d.ltp ((d.storage p).lba 0) x (unmapped (d.ltp ((d.storage p).lba 0))) e'))
  ]
    where
      first_gone :
          (x : ℕ) → (d₀.storage p).lba 0 ≡ x → (after_delete d p).ltp x ≡ unmapped (d₀.ltp x)
      first_gone x at =
          let at' : (d.storage p).lba 0 ≡ x = ap (λ (b : Block). b.lba 0) here ∙ at in
          let same : d.ltp x ≡ d₀.ltp x = subst (λ (y : ℕ). d.ltp y ≡ d₀.ltp y) at entry in
          ap (λ (y : ℕ). update d.ltp y (unmapped (d.ltp y)) x) at'
          ∙ update_self d.ltp x (unmapped (d.ltp x))
          ∙ ap (λ (f : LtpEntry). unmapped f) same

-- The blocks of a list that is strictly ascending are deleted one by one.
delete_blocks-Erased :
    (d₀ d : Disk) (b : ℕ) (l : List BbEntry)
    → IsBatch d₀ b l
    → ((p : ℕ) → tracks l p ≡ true → IsBacked d₀ p)
    → ((q : ℕ) → b ≤ q → d.storage q ≡ d₀.storage q)
    → ((x : ℕ) → b ≤ (d₀.ltp x).pba → d.ltp x ≡ d₀.ltp x)
    → d.report.max_block_num ≡ d₀.report.max_track_num
    → d.report.max_logical_block_num ≡ d₀.report.max_logical_block_num
    → Returns (delete_blocks l d) (Erased d₀ d l)
unfolding delete_blocks
delete_blocks-Erased d₀ d b [] batch backed same same_ltp size logical =
    (d, refl, record { blocks = λ q. refl; logical = λ x. refl; report = refl })
delete_blocks-Erased d₀ d b (e ∷ l) (after, inside, physical, batch) backed same same_ltp size
      logical =
    let p = e.pba in
    let back = backed p (ground arith) in
    let here = same p after in
    let entry = same_ltp ((d₀.storage p).lba 0) (let k = back.back in omega arith) in
    returns_of_eq
      (ap (λ m. m >>= delete_blocks l)
        (chs_delete-ok d p (omega arith) (same-IsBacked d₀ d p back here entry logical)))
      (returns_map
        (λ d' x. record {
          blocks = λ q. x.blocks q ∙ block_step d₀ d p back here entry l e.is_virtual q;
          logical = λ y. x.logical y ∙ entry_step d₀ d p back here entry l e.is_virtual y;
          report = x.report;
        })
        (delete_blocks-Erased d₀ (after_delete d p) (suc p) l batch
          (λ q t. backed q (rw t (ground arith)))
          (λ q h. let s = same q (omega arith) in ground arith)
          (later d₀ d p back here b after same_ltp) size logical))
  where
    later :
        (d₀ d : Disk) (p : ℕ)
        → IsBacked d₀ p
        → d.storage p ≡ d₀.storage p
        → (b : ℕ) → b ≤ p
        → ((x : ℕ) → b ≤ (d₀.ltp x).pba → d.ltp x ≡ d₀.ltp x)
        → (x : ℕ) → suc p ≤ (d₀.ltp x).pba
        → (after_delete d p).ltp x ≡ d₀.ltp x
    later d₀ d p back here b after same_ltp x h = elim (Bool-cases ((d.storage p).lba 0 == x)) [
      | inr e ↦
          update_ne d.ltp ((d.storage p).lba 0) x (unmapped (d.ltp ((d.storage p).lba 0))) e
          ∙ same_ltp x (omega arith)
      | inl e ↦
          let at : (d₀.storage p).lba 0 ≡ x =
            ap (λ (k : Block). k.lba 0) (sym here) ∙ ground arith in
          let back' : (d₀.ltp x).pba ≡ p = subst (λ (y : ℕ). (d₀.ltp y).pba ≡ p) at back.back in
          absurd (omega arith)
    ]

-- What a batch of deletions returns: the blocks of the batch are invalid, the logical blocks that they
-- name are unmapped, the other blocks and entries stay, both tables are empty, and the result is the
-- number of entries.
pub record BatchDeleted (d : Disk) (t : BatchTable) (r : Disk × BatchTable × ℕ) : Type 0 where
  pub blocks :
      (q : ℕ)
      → r.0.storage q ≡ (
          if tracks (entries t.block_head) q then set_status invalid (d.storage q) else d.storage q)
  pub logical :
      (x : ℕ)
      → r.0.ltp x ≡ (if named_by d (entries t.block_head) x then unmapped (d.ltp x) else d.ltp x)
  pub table : (r.1.block_head.size ≡ 0) × (r.1.extend_head.size ≡ 0)
  pub result : r.2 ≡ t.block_head.size

-- `batch_delete` with a `qsort` that sorts, on a disk with as many blocks as tracks, of at least one
-- physical entry on tracks of the disk, no track twice, returns if the blocks are in use and the
-- logical blocks that they name are mapped to them, and leaves the disk as `BatchDeleted` states.
pub batch_delete-BatchDeleted :
    {qsort : List BbEntry → List BbEntry} (d : Disk) (t : BatchTable)
    → IsSort qsort
    → IsFit d (entries t.block_head)
    → d.report.max_block_num ≡ d.report.max_track_num
    → 0 < t.block_head.size
    → ((p : ℕ) → tracks (entries t.block_head) p ≡ true → IsBacked d p)
    → Returns (batch_delete qsort d t) (BatchDeleted d t)
unfolding batch_delete pba_delete batch_extend batch_clear
batch_delete-BatchDeleted {qsort} d t sort fit size some backed =
    let l = entries t.block_head in
    let (any, kept, number, ext) = batch_sync-entries t sort in
    let batch = rw kept at (batch_sync-IsBatch d t sort fit) in
    let some_left : (t.block_head.size == 0) ≡ false = ground arith in
    let any' : (batch_sync qsort t).1 ≡ true = any ∙ rw some_left refl in
    let t' = batch_extend d (batch_sync qsort t).0 in
    let d₁ = record_batch_delete t' d in
    let same_sizes = sizes-record_delete t'.extend_head d.report in
    let (d', runs, x) =
      delete_blocks-Erased d d₁ 0 (qsort l) batch
        (λ p h. backed p (sym (tracks-qsort sort l p) ∙ h)) (λ q h. refl) (λ y h. refl)
        (ap (λ (s : ℕ × ℕ × ℕ). s.0) same_sizes ∙ size) (ap (λ (s : ℕ × ℕ × ℕ). s.2) same_sizes) in
    let runs' : delete_blocks (entries t'.block_head) d₁ ≡ ok d' =
      ap (λ (m : List BbEntry). delete_blocks m d₁) kept ∙ runs in
    let total = add64 d'.report.total_delete_write_block_size (t'.block_head.size * block_size) in
    (
      (
        set_report d' (record d'.report { total_delete_write_block_size = total }),
        batch_clear t',
        t'.block_head.size,
      ),
      rw (any', runs') refl,
      record {
        blocks = λ q. x.blocks q ∙ rw (tracks-qsort sort l q) refl;
        logical = λ y. x.logical y ∙ rw (tracks-qsort sort l (d.ltp y).pba) refl;
        table = (refl, refl);
        result = number;
      },
    )
