-- ===== src/Dedupe/Place/Mapping.antt =====
-- src/pba.c (dedupe_pba_search): whichever way a block is chosen, the logical block is mapped to it.
use imr_dedupe.Prelude.{
  ℕ, ◌%◌, ◌^◌, ◌≤◌, ◌≡◌, ◌⊎◌, inl, inr, Bool-cases, refl, Bool, true, false, not, ◌&&◌, Option,
  none, some, ltb, if◌then◌else◌, update_self, ok, ◌>>=◌, ◌>>◌, require, undefined, Holds,
  Holds-bind, arith,
}
use imr_dedupe.Disk.{Hash, hash_eq, Disk, LtpEntry, is_in_use, is_trimed}
use imr_dedupe.Disk.Compare.{hash_eq_refl}
use imr_dedupe.Zalloc.Find.{zalloc_find_next_pba}
use imr_dedupe.Dedupe.{lba_to_pba, dedupe_update_ltp_table}
use imr_dedupe.Dedupe.Search.{is_in_storage, find_swapped_pba}
use imr_dedupe.Dedupe.Swap.{dedu_update}
use imr_dedupe.Dedupe.Place.{
  Setting, Placed, dedupe_is_lba_valid, share, own, overwrite, relocate, restore, reuse, allocate,
  first_write, search_by_state, dedupe_pba_search,
}

-- The entry is valid, not trimed, has the hash, and names the block.
abbrev pub IsMapped : LtpEntry → ℕ → Hash → Type 0
IsMapped e pba hash =
    (e.valid ≡ true) × (e.trim ≡ false) × (hash_eq e.hash hash ≡ true) × (e.pba ≡ pba)

-- The entry names the block, or the block is past what an `unsigned` holds and the entry names the one
-- that has its low 32 bits as its number.
abbrev pub IsPlaced : LtpEntry → ℕ → Hash → Type 0
IsPlaced e pba hash = IsMapped e pba hash ⊎ (2 ^ 32 ≤ pba) × IsMapped e (pba % 2 ^ 32) hash

abbrev HasPlace : (lba : ℕ) → Hash → Placed → Type 0
HasPlace lba hash (d, pba, pass) = IsPlaced (d.ltp lba) pba hash

module _ (lba : ℕ) (hash : Hash) where
  updated :
      (d : Disk) (pba : ℕ) → IsPlaced ((dedupe_update_ltp_table d lba pba hash).ltp lba) pba hash
  unfolding dedupe_update_ltp_table
  updated d pba =
      let e : LtpEntry = record (d.ltp lba) {
        pba = pba % 2 ^ 32;
        valid = true;
        trim = false;
        hash = hash;
      } in
      elim (Bool-cases (ltb pba (2 ^ 32))) [
        | inl small ↦
            let low : pba % 2 ^ 32 ≡ pba = ground arith in
            inl (rw (update_self d.ltp lba e) (refl, refl, hash_eq_refl hash, low))
        | inr large ↦
            inr (ground arith, rw (update_self d.ltp lba e) (refl, refl, hash_eq_refl hash, refl))
      ]

  overwrite-HasPlace :
      (s : Setting) (d : Disk) (pass : Bool)
      → Holds (HasPlace lba hash) (overwrite s d lba hash pass)
  unfolding overwrite
  overwrite-HasPlace s d pass =
      Holds-bind _ (dedu_update s.qsort s.trim s.trim_v2 d (lba_to_pba d lba)) _
        (λ r. updated r.0 r.1)

  relocate-HasPlace :
      (d : Disk) (pba temp : ℕ) → Holds (HasPlace lba hash) (relocate d lba pba temp hash)
  unfolding relocate
  relocate-HasPlace d pba temp = updated _ (if ltb temp d.report.max_block_num then temp else pba)

  restore-HasPlace : (d : Disk) → Holds (HasPlace lba hash) (restore d lba hash)
  unfolding restore
  restore-HasPlace d = either (hash_eq hash (d.storage (lba_to_pba d lba)).hash)
    where
      either :
          (same : Bool)
          → Holds (HasPlace lba hash) (
              if same
              then ok
                  (dedupe_update_ltp_table d lba (lba_to_pba d lba) hash, lba_to_pba d lba, true)
              else find_swapped_pba d hash >>= λ temp. relocate d lba (lba_to_pba d lba) temp hash)
      either true = updated d (lba_to_pba d lba)
      either false =
          Holds-bind _ (find_swapped_pba d hash) _ (relocate-HasPlace d (lba_to_pba d lba))

  reuse-HasPlace :
      (d : Disk) (pba : ℕ) (pass : Bool) → HasPlace lba hash (reuse d lba pba hash pass)
  unfolding reuse
  reuse-HasPlace d pba pass =
      let d' = dedupe_update_ltp_table d lba pba hash in either (is_trimed (d'.storage pba).status)
    where
      either :
          (gone : Bool)
          → let d' = dedupe_update_ltp_table d lba pba hash in
            HasPlace lba hash
              (if gone then (own d' pba lba, pba, true) else (share d' pba, pba, pass))
      either true = updated d pba
      either false = updated d pba

  allocate-HasPlace :
      (s : Setting) (d : Disk) (pass : Bool)
      → Holds (HasPlace lba hash) (allocate s d lba hash pass)
  unfolding allocate
  allocate-HasPlace s d pass =
      Holds-bind _ (zalloc_find_next_pba s.new_alloc s.fuel d) _ (λ r. updated r.0 r.1)

  first_write-HasPlace :
      (s : Setting) (d : Disk) (pass : Bool) (found : Option ℕ)
      → Holds (HasPlace lba hash) (first_write s d lba hash pass found)
  unfolding first_write
  first_write-HasPlace s d pass none = allocate-HasPlace s d pass
  first_write-HasPlace s d pass (some pba) = either (d.ltp lba).valid
    where
      either :
          (valid : Bool)
          → Holds
              (HasPlace lba hash)
              (if valid then allocate s d lba hash pass else ok (reuse d lba pba hash pass))
      either true = allocate-HasPlace s d pass
      either false = reuse-HasPlace d pba pass

  -- A block that is valid with the same hash stays where it is.
  kept :
      (d : Disk) (valid : Bool)
      → valid ≡ is_in_use (d.storage (lba_to_pba d lba)).status && (d.ltp lba).valid
      → not (d.ltp lba).trim && valid ≡ true
      → hash_eq (d.ltp lba).hash hash ≡ true
      → IsPlaced (d.ltp lba) (lba_to_pba d lba) hash
  unfolding lba_to_pba
  kept d valid v t h = inl (ground arith, ground arith, h, refl)

  search_by_state-HasPlace :
      (s : Setting) (d : Disk) (pass valid : Bool)
      → valid ≡ is_in_use (d.storage (lba_to_pba d lba)).status && (d.ltp lba).valid
      → Holds (HasPlace lba hash) (search_by_state s d lba hash pass valid)
  unfolding search_by_state
  search_by_state-HasPlace s d pass valid v =
      by_test (hash_eq (d.ltp lba).hash hash) ((d.ltp lba).trim && not valid)
        (not (d.ltp lba).trim && valid) (λ t h. kept d valid v t h)
    where
      by_test :
          (same restored current : Bool)
          → (current ≡ true → same ≡ true → IsPlaced (d.ltp lba) (lba_to_pba d lba) hash)
          → Holds (HasPlace lba hash) (
              if restored
              then (if same then restore d lba hash else overwrite s d lba hash pass)
              else if current
              then (if same then ok (d, lba_to_pba d lba, true) else overwrite s d lba hash pass)
              else is_in_storage s.new_alloc d hash >>= first_write s d lba hash pass)
      by_test true true current k = restore-HasPlace d
      by_test false true current k = overwrite-HasPlace s d pass
      by_test true false true k = k refl refl
      by_test false false true k = overwrite-HasPlace s d pass
      by_test same false false k =
          Holds-bind _ (is_in_storage s.new_alloc d hash) (first_write s d lba hash pass)
            (first_write-HasPlace s d pass)

-- Whichever block a search for a place returns, the entry of the logical block in the disk that it
-- returns is valid, not trimed, has the hash, and names exactly this block, or, if the number of the
-- block is 2 ^ 32 or more, the block with the low 32 bits of the number.
pub dedupe_pba_search-IsPlaced :
    (s : Setting) (d : Disk) (lba : ℕ) (hash : Hash) (pass : Bool)
    → Holds (λ r. IsPlaced (r.0.ltp lba) r.1 hash) (dedupe_pba_search s d lba hash pass)
unfolding dedupe_pba_search dedupe_is_lba_valid
dedupe_pba_search-IsPlaced s d lba hash pass =
    Holds-bind _ (require (ltb lba d.report.max_logical_block_num) undefined) _
      (λ _. bounded (ltb (lba_to_pba d lba) d.report.max_block_num))
  where
    bounded :
        (inside : Bool)
        → let valid = is_in_use (d.storage (lba_to_pba d lba)).status && (d.ltp lba).valid in
          Holds
            (λ r. IsPlaced (r.0.ltp lba) r.1 hash)
            ((require inside undefined >> ok valid) >>= search_by_state s d lba hash pass)
    bounded true = search_by_state-HasPlace lba hash s d pass _ refl
    bounded false = tt
