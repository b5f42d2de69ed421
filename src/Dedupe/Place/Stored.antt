-- ===== src/Dedupe/Place/Stored.antt =====
-- src/pba.c (dedupe_pba_search): a content that the disk holds already is shared, not written.
use imr_dedupe.Prelude.{
  ℕ, ◌≡◌, ap, ◌∙◌, Bool, true, false, not, ◌&&◌, some, if◌then◌else◌, Outcome, ok, ◌>>=◌,
}
use imr_dedupe.Disk.{Hash, hash_eq, Disk}
use imr_dedupe.Dedupe.{lba_to_pba}
use imr_dedupe.Dedupe.Search.{is_in_storage}
use imr_dedupe.Dedupe.Place.{
  Setting, Placed, overwrite, restore, allocate, reuse, first_write, search_by_state,
}

module _ (s : Setting) (d : Disk) (lba : ℕ) (hash : Hash) (pass : Bool) where
  pub search_by_state-reuse :
      (p : ℕ)
      → (d.ltp lba).valid ≡ false
      → (d.ltp lba).trim ≡ false
      → is_in_storage s.new_alloc d hash ≡ ok (some p)
      → search_by_state s d lba hash pass false ≡ ok (reuse d lba p hash pass)
  unfolding search_by_state first_write
  search_by_state-reuse p v t found =
      ap (λ (b : Bool). by_trim b) t
      ∙ ap (λ m. m >>= first_write s d lba hash pass) found
      ∙ ap (λ (b : Bool). by_valid b) v
    where
      by_trim : Bool → Outcome Placed
      by_trim b =
          if b && not false
          then (if hash_eq (d.ltp lba).hash hash
              then restore d lba hash
              else overwrite s d lba hash pass)
          else if not b && false
          then (if hash_eq (d.ltp lba).hash hash
              then ok (d, lba_to_pba d lba, true)
              else overwrite s d lba hash pass)
          else is_in_storage s.new_alloc d hash >>= first_write s d lba hash pass

      by_valid : Bool → Outcome Placed
      by_valid b = if b then allocate s d lba hash pass else ok (reuse d lba p hash pass)
