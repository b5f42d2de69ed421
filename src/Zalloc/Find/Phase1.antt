-- ===== src/Zalloc/Find/Phase1.antt =====
-- src/pba.c (zalloc_find_next_pba): phase 1 without NEW_ALLOC comes to the next bottom track that is
-- free, and a disk without a free top track in phase 4 is full.
use imr_dedupe.Prelude.{
  ℕ, zero, suc, ◌+◌, ◌*◌, ◌^◌, ◌≤◌, ◌<◌, ◌≡◌, refl, ap, ◌∙◌, Bool, true, false, ◌&&◌, ◌==◌, ltb,
  update, if◌then◌else◌, ok, ◌>>=◌, Returns, returns_of_eq, returns_map, Holds-ok, arith,
  Bool-cases, inl, inr,
}
use imr_dedupe.Disk.{
  Disk, ZallocInfo, phase1, is_normal, booked, set_status, add64, storage_is_free,
}
use imr_dedupe.Zalloc.Find.{
  again, book, set_zinfo, find_free, try_bottom, next_bottom, go_on_bottom, after_search, round1,
  rounds_of, zalloc_round, zalloc_find_next_pba,
}
use imr_dedupe.Zalloc.Find.Rounds.{Booking}
use imr_dedupe.Zalloc.Find.Booking.{zalloc_find_next_pba-Booking}

-- Whether the sequential part of phase 1 takes the track.
abbrev pub is_takable : Disk → ℕ → Bool
is_takable d t = storage_is_free d t && is_normal (d.ptt t).type

-- Phase 1, at a bottom track that is not past the last one.
pub record IsPhase1 (d : Disk) : Type 0 where
  pub phase : d.zinfo.phases ≡ phase1
  pub not_full : d.zinfo.phase1_is_full ≡ false
  pub on_disk : d.zinfo.phase1_end < d.report.max_block_num
  pub small : d.report.max_block_num < 2 ^ 63

abbrev moved : Disk → Disk
moved d = set_zinfo d (record d.zinfo { current_track = add64 d.zinfo.current_track 2 })

takable_moved : (d : Disk) (z : ZallocInfo) (t : ℕ) → is_takable (set_zinfo d z) t ≡ is_takable d t
unfolding storage_is_free
takable_moved d z t = refl

module _ (d : Disk) (pba : ℕ) (inside : pba < d.report.max_block_num) where
  try_bottom-takes : is_takable d pba ≡ true → try_bottom d pba ≡ ok (book d pba)
  unfolding try_bottom
  try_bottom-takes t =
      let i : ltb pba d.report.max_block_num ≡ true = ground arith in rw (i, t) refl

  try_bottom-passes : is_takable d pba ≡ false → try_bottom d pba ≡ ok (again d)
  unfolding try_bottom
  try_bottom-passes t =
      let i : ltb pba d.report.max_block_num ≡ true = ground arith in rw (i, t) refl

module _ (d : Disk) (p : IsPhase1 d) (here : d.zinfo.current_track ≤ d.zinfo.phase1_end) where
  goes_on : zalloc_round false d d.zinfo.phases ≡ go_on_bottom false d d.zinfo.current_track
  unfolding zalloc_round round1
  goes_on =
      let z = d.zinfo in
      let search =
        find_free d (rounds_of z.phase1_start z.phase1_end) z.phase1_start
        >>= after_search false d z.current_track in
      ap (zalloc_round false d) p.phase
      ∙ ap (λ (b : Bool). if b then search else go_on_bottom false d z.current_track) p.not_full

  moves :
      d.zinfo.current_track < d.zinfo.phase1_end
      → zalloc_round false d d.zinfo.phases ≡ try_bottom (moved d) d.zinfo.current_track
  unfolding go_on_bottom next_bottom
  moves before =
      let going : (d.zinfo.current_track == d.zinfo.phase1_end) ≡ false = ground arith in
      goes_on ∙ rw (go_on_bottom, going) refl

  takes :
      is_takable d d.zinfo.current_track ≡ true
      → (z : ZallocInfo) × (zalloc_round false d d.zinfo.phases
          ≡ ok (book (set_zinfo d z) d.zinfo.current_track))
  unfolding go_on_bottom next_bottom
  takes t =
      let on_disk = p.on_disk in
      let inside : d.zinfo.current_track < d.report.max_block_num = omega arith in
      let taken = λ (z : ZallocInfo).
        try_bottom-takes (set_zinfo d z) d.zinfo.current_track inside (takable_moved d z _ ∙ t) in
      elim (Bool-cases (d.zinfo.current_track == d.zinfo.phase1_end)) [
        | inl e ↦
            let z = record d.zinfo { phase1_is_full = true } in
            (z, goes_on ∙ rw (go_on_bottom, e) (taken z))
        | inr e ↦
            let z = record d.zinfo { current_track = add64 d.zinfo.current_track 2 } in
            (z, goes_on ∙ rw (go_on_bottom, e) (taken z))
      ]

  moved-IsPhase1 : IsPhase1 (moved d)
  moved-IsPhase1 = record {
    phase = p.phase;
    not_full = p.not_full;
    on_disk = p.on_disk;
    small = p.small;
  }

  moved_by : add64 d.zinfo.current_track 2 ≡ d.zinfo.current_track + 2
  moved_by = let on_disk = p.on_disk in let small = p.small in ground arith

zalloc_again :
    (new_alloc : Bool) (fuel : ℕ) (d d' : Disk)
    → zalloc_round new_alloc d d.zinfo.phases ≡ ok (again d')
    → zalloc_find_next_pba new_alloc (suc fuel) d ≡ zalloc_find_next_pba new_alloc fuel d'
unfolding zalloc_find_next_pba
zalloc_again new_alloc fuel d d' e = rw e refl

first_taken :
    (d : Disk) (k fuel : ℕ)
    → IsPhase1 d
    → d.zinfo.current_track + 2 * k ≤ d.zinfo.phase1_end
    → ((j : ℕ) → j < k → is_takable d (d.zinfo.current_track + 2 * j) ≡ false)
    → is_takable d (d.zinfo.current_track + 2 * k) ≡ true
    → k < fuel
    → Returns (zalloc_find_next_pba false fuel d) (λ r. r.1 ≡ d.zinfo.current_track + 2 * k)
unfolding zalloc_find_next_pba
first_taken d k zero p le passed taken enough = absurd (omega arith)
first_taken d zero (suc fuel) p le passed taken enough =
    let t : is_takable d d.zinfo.current_track ≡ true = ap (is_takable d) (omega arith) ∙ taken in
    let (z, runs) = takes d p (omega arith) t in
    (
      (
        record d {
          storage =
              update d.storage d.zinfo.current_track
                (set_status booked (d.storage d.zinfo.current_track));
          zinfo = z;
        },
        d.zinfo.current_track,
      ),
      rw runs refl,
      omega arith,
    )
first_taken d (suc k) (suc fuel) p le passed taken enough =
    let on_disk = p.on_disk in
    let free_here : is_takable d d.zinfo.current_track ≡ false =
      ap (is_takable d) (omega arith) ∙ passed 0 (omega arith) in
    let here : d.zinfo.current_track ≤ d.zinfo.phase1_end = omega arith in
    let to = moved_by d p here in
    let runs =
      moves d p here (omega arith)
      ∙ try_bottom-passes (moved d) d.zinfo.current_track (omega arith)
          (takable_moved d _ _ ∙ free_here) in
    let at : (j : ℕ) → add64 d.zinfo.current_track 2 + 2 * j ≡ d.zinfo.current_track + 2 * suc j =
      λ j. rw to (omega arith) in
    returns_of_eq (zalloc_again false fuel d (moved d) runs) (
      returns_map (λ r e. e ∙ at k)
        (first_taken (moved d) k fuel (moved-IsPhase1 d p here) (rw (at k) le)
          (λ j lt. takable_moved d _ _ ∙ ap (is_takable d) (at j) ∙ passed (suc j) (omega arith))
          (takable_moved d _ _ ∙ ap (is_takable d) (at k) ∙ taken) (omega arith)))

-- In phase 1 without NEW_ALLOC, the allocation returns the first bottom track from the current one on
-- that is free and has the normal type, if there is one up to the last bottom track, and books it;
-- as many rounds as it passes tracks, and one more, are enough.
pub zalloc_find_next_pba-first :
    (d : Disk) (k fuel : ℕ)
    → IsPhase1 d
    → d.zinfo.current_track + 2 * k ≤ d.zinfo.phase1_end
    → ((j : ℕ) → j < k → is_takable d (d.zinfo.current_track + 2 * j) ≡ false)
    → is_takable d (d.zinfo.current_track + 2 * k) ≡ true
    → k < fuel
    → Returns
        (zalloc_find_next_pba false fuel d)
        (λ r. (r.1 ≡ d.zinfo.current_track + 2 * k) × Booking d r)
zalloc_find_next_pba-first d k fuel p le passed taken enough =
    let (r, runs, at) = first_taken d k fuel p le passed taken enough in
    (r, runs, (at, Holds-ok (Booking d) (zalloc_find_next_pba-Booking false fuel d) runs))
