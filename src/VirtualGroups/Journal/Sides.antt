-- ===== src/VirtualGroups/Journal/Sides.antt =====
-- src/virtual_groups.c (vg_journal_check_bottom_free_1_sides and the like): what the checks of the
-- neighbours of a bottom track test.
use imr_dedupe.Prelude.{
  ℕ, ◌+◌, ◌-◌, ◌^◌, ◌<◌, ◌≡◌, refl, ap, ◌∙◌, Bool, true, false, not, ◌&&◌, ◌||◌, ltb, ◌==◌, Outcome,
  ok, ◌>>=◌, arith, Bool-cases, inl, inr,
}
use imr_dedupe.Disk.{Disk, add64, storage_is_in_use}
use imr_dedupe.Zalloc.{sub64}
use imr_dedupe.VirtualGroups.{CheckBottom, no_check, one_side, two_sides}
use imr_dedupe.VirtualGroups.Journal.{
  lower_in_use, higher_in_use, vg_journal_check_bottom_free_no_check,
  vg_journal_check_bottom_free_1_sides, vg_journal_check_bottom_free_2_sides, check_bottom_is_free,
}

-- Whether the neighbour of the track on a side is a track of the disk in use.
abbrev pub lower_used : Disk → ℕ → Bool
lower_used d track = not (track == 0) && storage_is_in_use d (track - 1)

abbrev pub higher_used : Disk → ℕ → Bool
higher_used d track = ltb (track + 1) d.report.max_track_num && storage_is_in_use d (track + 1)

-- What each of the three functions tells.
abbrev pub verdict : CheckBottom → Disk → ℕ → Bool
verdict no_check d track = true
verdict one_side d track = lower_used d track || higher_used d track
verdict two_sides d track = not (lower_used d track || higher_used d track)

module _ (d : Disk) (track : ℕ) (inside : track < d.report.max_track_num)
    (small : d.report.max_track_num < 2 ^ 63)
    (tracks : d.report.max_block_num ≡ d.report.max_track_num) where
  lower-used : lower_in_use d track ≡ ok (lower_used d track)
  unfolding lower_in_use
  lower-used = elim (Bool-cases (track == 0)) [
    | inl e ↦ rw (lower_in_use, e) refl
    | inr e ↦
        let i : ltb (track - 1) d.report.max_block_num ≡ true = ground arith in
        rw (lower_in_use, e, i) refl
  ]

  higher-used : higher_in_use d track ≡ ok (higher_used d track)
  unfolding higher_in_use
  higher-used =
      let one : sub64 d.report.max_track_num 1 ≡ d.report.max_track_num - 1 = omega arith in
      let next : add64 track 1 ≡ track + 1 = omega arith in
      elim (Bool-cases (ltb (track + 1) d.report.max_track_num)) [
        | inl e ↦
            let e' : ltb track (d.report.max_track_num - 1) ≡ true = ground arith in
            let i : ltb (track + 1) d.report.max_block_num ≡ true = ground arith in
            rw (higher_in_use, one, e', next, i, e) refl
        | inr e ↦
            let e' : ltb track (d.report.max_track_num - 1) ≡ false = ground arith in
            rw (higher_in_use, one, e', e) refl
      ]

  checked : (c : CheckBottom) → check_bottom_is_free c d track ≡ ok (verdict c d track)
  unfolding check_bottom_is_free vg_journal_check_bottom_free_no_check
      vg_journal_check_bottom_free_1_sides vg_journal_check_bottom_free_2_sides
  checked no_check = refl
  checked one_side =
      ap
        (λ m. m >>= λ (lower : Bool). elim lower [ true ↦ ok true | false ↦ higher_in_use d track ])
        lower-used
      ∙ by_side (lower_used d track)
    where
      by_side :
          (lower : Bool)
          → Path
              (Outcome Bool)
              (elim lower [ true ↦ ok true | false ↦ higher_in_use d track ])
              (ok (lower || higher_used d track))
      by_side true = refl
      by_side false = higher-used
  checked two_sides =
      ap
        (λ m. m >>= λ (lower : Bool). elim lower [
          | true ↦ ok false
          | false ↦ higher_in_use d track >>= λ higher. ok (not higher)
        ])
        lower-used
      ∙ by_side (lower_used d track)
    where
      by_side :
          (lower : Bool)
          → Path
              (Outcome Bool)
              (elim lower [
                | true ↦ ok false
                | false ↦ higher_in_use d track >>= λ higher. ok (not higher)
              ])
              (ok (not (lower || higher_used d track)))
      by_side true = refl
      by_side false = ap (λ m. m >>= λ (higher : Bool). ok (not higher)) higher-used

-- For each track of a disk with as many blocks as tracks and fewer than 2 ^ 63, the check without a
-- condition accepts it, the check of two sides accepts it if no neighbour that the disk has is in use,
-- and the check of one side accepts it if some neighbour is in use, which is the opposite.
pub check_bottom_is_free-verdict :
    (c : CheckBottom) (d : Disk) (track : ℕ)
    → track < d.report.max_track_num
    → d.report.max_track_num < 2 ^ 63
    → d.report.max_block_num ≡ d.report.max_track_num
    → check_bottom_is_free c d track ≡ ok (verdict c d track)
check_bottom_is_free-verdict c d track inside small tracks = checked d track inside small tracks c
