-- ===== src/Dedupe/Write/Share.antt =====
-- src/lba.c (dedupe_lba_write): a logical block is written for the first time, with a content that a
-- block of the disk has.
pub mod Effects
use imr_dedupe.Prelude.{
  ℕ, zero, suc, ◌+◌, ◌*◌, ◌%◌, ◌^◌, ◌≤◌, ◌<◌, ◌≡◌, ◌≢◌, refl, sym, ap, ◌∙◌, Bool, true, false, not,
  ◌&&◌, ◌||◌, is_some, List, [], ◌∷◌, ◌++◌, Option, none, some, ltb, ◌==◌, if◌then◌else◌, update,
  update_self, update_ne, subst, slice-update_end, slice, Outcome, ok, ◌>>=◌, Returns, arith,
  Bool-cases, inl, inr,
}
use imr_dedupe.Disk.{
  Hash, hash_eq, Block, BlockStatus, free, booked, in_use, trimed, invalid, end, LtpEntry, Report,
  Disk, is_in_use, is_trimed, add32, add64,
}
use imr_dedupe.Disk.Compare.{hash_eq_refl, hash_eq→eq}
use imr_dedupe.Dedupe.{lba_to_pba, dedupe_update_ltp_table, find_lba, set_block}
use imr_dedupe.Dedupe.Release.{owners, member, IsOwned}
use imr_dedupe.Dedupe.Trim.Consistent.{IsConsistent}
use imr_dedupe.Dedupe.Search.{is_in_storage}
use imr_dedupe.Dedupe.Search.Least.{IsFirst, IsFirst-unique, scan, is_in_storage-IsFirst}
use imr_dedupe.Dedupe.Place.{
  Setting, Placed, dedupe_is_lba_valid, share, own, reuse, search_by_state, dedupe_pba_search,
}
use imr_dedupe.Dedupe.Place.Mapping.{IsMapped}
use imr_dedupe.Dedupe.Place.Stored.{search_by_state-reuse}
use imr_dedupe.Dedupe.Write.{
  increase_storage_lba_capacity, is_lba_in_storage, add_owner, write_shared, write_placed,
  write_rounds, write_out, dedupe_lba_write,
}

-- The capacity that a block has once it has room for one more owner.
abbrev pub capacity_with : Block → ℕ
capacity_with b =
    if ltb b.lba_capacity (b.referenced_count + 2) then b.lba_capacity * 2 else b.lba_capacity

-- As many cells as block 0 has owners are compared with the logical block.
abbrev pub compared : Disk → ℕ → ℕ
compared d pba = (d.storage 0).referenced_count + (if pba == 0 then 2 else 1)

-- No entry maps the logical block, the block is the first one with the content among those that the
-- search looks at, with NEW_ALLOC or without it, it is in use and has few owners, and the cells that
-- are compared are cells of the block and do not name the logical block.
pub record IsShareable (s : Setting) (d : Disk) (lba : ℕ) (hash : Hash) (pba : ℕ) : Type 0 where
  pub logical : lba < d.report.max_logical_block_num
  pub small : d.report.max_logical_block_num < 2 ^ 32
  pub leads : lba_to_pba d lba < d.report.max_block_num
  pub unmapped : (d.ltp lba).valid ≡ false
  pub kept : (d.ltp lba).trim ≡ false
  pub tracks : d.report.max_block_num ≡ d.report.max_track_num
  pub starts : d.zinfo.phase1_start ≡ 0
  pub on_disk : pba < d.report.max_block_num
  pub first : IsFirst (λ b. hash_eq b.hash hash) d (scan s.new_alloc d) (some pba)
  pub used : is_in_use (d.storage pba).status ≡ true
  pub room : (d.storage pba).referenced_count + 1 ≤ (d.storage pba).lba_capacity
  pub owners_bound : (d.storage pba).referenced_count + 1 < 2 ^ 31
  pub capacity_bound : (d.storage pba).lba_capacity < 2 ^ 31
  pub few : d.report.max_block_num < 2 ^ 32
  pub cells : compared d pba ≤ capacity_with (d.storage pba)
  pub counter : (d.storage 0).referenced_count < 2 ^ 31
  pub unlisted : (i : ℕ) → i < compared d pba → (d.storage pba).lba i ≢ lba

find_lba-none :
    (b : Block) (lba n i : ℕ)
    → i + n ≤ b.lba_capacity
    → ((j : ℕ) → j < i + n → b.lba j ≢ lba)
    → find_lba b lba n i ≡ ok none
unfolding find_lba
find_lba-none b lba zero i fits other = refl
find_lba-none b lba (suc n) i fits other =
    let inside : ltb i b.lba_capacity ≡ true = ground arith in
    let differs = other i (omega arith) in
    let no : (b.lba i == lba) ≡ false = ground arith in
    rw (find_lba, inside, no)
      (find_lba-none b lba n (i + 1) (omega arith) (λ j lt. other j (omega arith)))

zero_add : (n : ℕ) → 0 + n ≡ n
zero_add n = omega arith

module _ (s : Setting) (d : Disk) (lba : ℕ) (hash : Hash) (pba : ℕ)
    (f : IsShareable s d lba hash pba) where
  -- The mapping names the block, which counts one more owner.
  abbrev pub shared_disk : Disk
  shared_disk = share (dedupe_update_ltp_table d lba pba hash) pba

  search-shared : dedupe_pba_search s d lba hash false ≡ ok (shared_disk, pba, false)
  unfolding dedupe_pba_search dedupe_is_lba_valid reuse dedupe_update_ltp_table
  search-shared =
      let inside = f.logical in
      let on_disk = f.leads in
      let v = f.unmapped in
      let i : ltb lba d.report.max_logical_block_num ≡ true = ground arith in
      let o : ltb (lba_to_pba d lba) d.report.max_block_num ≡ true = ground arith in
      let invalid : is_in_use (d.storage (lba_to_pba d lba)).status && (d.ltp lba).valid ≡ false =
        ground arith in
      let (found, runs, first) = is_in_storage-IsFirst s.new_alloc d hash f.starts f.tracks in
      let stored : is_in_storage s.new_alloc d hash ≡ ok (some pba) =
        runs
        ∙ ap (λ o. ok o)
            (IsFirst-unique (λ b. hash_eq b.hash hash) d (scan s.new_alloc d) pba found f.first
              first) in
      rw (i, o, invalid)
        (search_by_state-reuse s d lba hash false pba v f.kept stored
          ∙ ap (λ (b : Bool). by_status b) not_trimed)
    where
      by_status : Bool → Outcome Placed
      by_status gone =
          let d' = dedupe_update_ltp_table d lba pba hash in
          ok (if gone then (own d' pba lba, pba, true) else (share d' pba, pba, false))

      not_trimed : is_trimed (d.storage pba).status ≡ false
      not_trimed = unused (d.storage pba).status f.used
        where
          unused : (t : BlockStatus) → is_in_use t ≡ true → is_trimed t ≡ false
          unused in_use h = refl
          unused trimed h = cc
          unused free h = refl
          unused booked h = refl
          unused invalid h = refl
          unused end h = refl

  -- The block that the write leaves.
  unfoldable pub shared_block : Block → Block
  shared_block b = record b {
    referenced_count = b.referenced_count + 1;
    lba_capacity = capacity_with b;
    lba = update b.lba (b.referenced_count + 1) lba;
  }

  -- Before its new owner is written down.
  abbrev pub grown_block : Block → Block
  grown_block b = record b {
    referenced_count = b.referenced_count + 1;
    lba_capacity = capacity_with b;
  }

  unfoldable pub written_disk : Disk
  written_disk =
      let b = d.storage pba in
      set_block (set_block shared_disk pba (grown_block b)) pba (shared_block b)

  counted : add32 (d.storage pba).referenced_count 1 ≡ (d.storage pba).referenced_count + 1
  counted = let bound = f.owners_bound in omega arith

  block-shared :
      shared_disk.storage pba
      ≡ record (d.storage pba) { referenced_count = (d.storage pba).referenced_count + 1 }
  unfolding dedupe_update_ltp_table
  block-shared =
      update_self d.storage pba _
      ∙ ap (λ (n : ℕ). record (d.storage pba) { referenced_count = n }) counted

  -- The room for the owner is made.
  grown-shared :
      (let b = shared_disk.storage pba in
        if ltb b.lba_capacity (add32 b.referenced_count 1)
        then increase_storage_lba_capacity b
        else b)
      ≡ grown_block (d.storage pba)
  unfolding increase_storage_lba_capacity
  grown-shared =
      let b = d.storage pba in
      let bound = f.owners_bound in
      let more = f.capacity_bound in
      let next : add32 (b.referenced_count + 1) 1 ≡ b.referenced_count + 2 = omega arith in
      let double : b.lba_capacity * 2 % 2 ^ 32 ≡ b.lba_capacity * 2 = omega arith in
      rw (block-shared, next)
        (elim (Bool-cases (ltb b.lba_capacity (b.referenced_count + 2))) [
          | inl e ↦ rw (e, double) refl
          | inr e ↦ rw e refl
        ])

  compared-shared :
      let d' = set_block shared_disk pba (grown_block (d.storage pba)) in
      add32 (d'.storage 0).referenced_count 1 ≡ compared d pba
  unfolding dedupe_update_ltp_table
  compared-shared =
      let g = grown_block (d.storage pba) in
      let s = shared_disk.storage in
      let bound = f.owners_bound in
      let counter = f.counter in
      elim (Bool-cases (pba == 0)) [
        | inl e ↦
            let same : pba ≡ 0 = ground arith in
            let here : update s pba g 0 ≡ g =
              ap (λ (q : ℕ). update s pba g q) (sym same) ∙ update_self s pba g in
            let count : (d.storage pba).referenced_count ≡ (d.storage 0).referenced_count =
              ap (λ (q : ℕ). (d.storage q).referenced_count) same in
            ap (λ (b : Block). add32 b.referenced_count 1) here ∙ rw e (omega arith)
        | inr e ↦
            ap (λ (b : Block). add32 b.referenced_count 1)
              (update_ne s pba 0 g e ∙ update_ne d.storage pba 0 _ e)
            ∙ rw e (omega arith)
      ]

  unlisted-shared :
      let d' = set_block shared_disk pba (grown_block (d.storage pba)) in
      is_lba_in_storage d' pba lba ≡ ok false
  unfolding is_lba_in_storage
  unlisted-shared =
      let g = grown_block (d.storage pba) in
      rw (compared-shared, update_self shared_disk.storage pba g)
        (ap (λ (m : Outcome (Option ℕ)). m >>= λ r. ok (is_some r))
          (find_lba-none g lba (compared d pba) 0 (rw (zero_add (compared d pba)) f.cells)
            (λ j lt. f.unlisted j (rw (zero_add (compared d pba)) at lt))))

  shared-write : write_shared shared_disk pba lba hash ≡ ok written_disk
  unfolding write_shared add_owner written_disk shared_block
  shared-write =
      let b = d.storage pba in
      let same = f.first.0 in
      let equal : hash_eq hash (shared_disk.storage pba).hash ≡ true =
        rw (block-shared, hash_eq→eq b.hash hash same) (hash_eq_refl hash) in
      let room = f.room in
      let fits : ltb (b.referenced_count + 1) (capacity_with b) ≡ true = ground arith in
      rw
        (
          equal,
          grown-shared,
          unlisted-shared,
          update_self shared_disk.storage pba (grown_block b),
          fits,
        )
        refl

  placed-shared :
      write_placed lba lba hash (shared_disk, pba, false) ≡ ok (written_disk, true, false)
  unfolding write_placed dedupe_update_ltp_table
  placed-shared =
      let inside = f.on_disk in
      let bound = f.owners_bound in
      let o : ltb pba shared_disk.report.max_block_num ≡ true = ground arith in
      let many : ltb 0 (shared_disk.storage pba).referenced_count ≡ true =
        rw block-shared (ground arith) in
      rw (o, many, shared-write) refl

  pub rounds-shared : write_rounds s lba hash 1 0 (d, false, false) ≡ ok (written_disk, true)
  unfolding write_rounds
  rounds-shared =
      let a = f.logical in
      let m = f.small in
      let z : add64 lba 0 ≡ lba = ground arith in rw (z, search-shared, placed-shared) refl
