-- ===== src/VirtualGroups/Allocate/First.antt =====
-- src/virtual_groups.c (vg_get_block): as long as the current group of an attribute has an unused track,
-- the next one is taken.
use imr_dedupe.Prelude.{
  ℕ, zero, suc, ◌+◌, ◌-◌, ◌*◌, ◌/◌, ◌≤◌, ◌<◌, ◌≡◌, refl, sym, ap, ◌∙◌, true, false, Option, some,
  ltb, leb, update_self, Outcome, ok, ◌>>=◌, Returns, returns_of_eq, update, Holds-ok, arith,
}
use imr_dedupe.Disk.{Disk, add64, booked, set_status, storage_is_in_use}
use imr_dedupe.FidTable.{FileAttr}
use imr_dedupe.Zalloc.Find.{rounds_of}
use imr_dedupe.VirtualGroups.{ListOps, IsList, VirtualGroup, Groups, set_current_track, is_hot}
use imr_dedupe.VirtualGroups.Allocate.{
  find_track, is_unused, find_unused, this_of, go_on_at, continue_current, vg_get_from_current_vg,
  vg_get_from_free_list, vg_get_from_random_list, vg_get_from_constrained_list,
  vg_get_from_all_list, vg_get_from_another_current, Search, GotBlock, book_current,
  get_current_block, or_else, unless_identical, take_found, vg_get_block,
}
use imr_dedupe.VirtualGroups.Allocate.Unused.{vg_get_block-IsBooked}

find_track-first :
    (d : Disk) (n k i : ℕ)
    → k < n
    → i + 2 * k < d.report.max_block_num
    → ((j : ℕ) → j < k → storage_is_in_use d (i + 2 * j) ≡ true)
    → storage_is_in_use d (i + 2 * k) ≡ false
    → find_track (is_unused d) 2 n i ≡ ok (some (i + 2 * k))
unfolding find_track
find_track-first d zero k i lt inside used unused = absurd (omega arith)
find_track-first d (suc n) zero i lt inside used unused =
    let here : i + 2 * 0 ≡ i = omega arith in
    let unused' : storage_is_in_use d i ≡ false = ap (storage_is_in_use d) (sym here) ∙ unused in
    let within : ltb i d.report.max_block_num ≡ true = ground arith in
    rw (find_track, within, unused', here) refl
find_track-first d (suc n) (suc k) i lt inside used unused =
    let here : i + 2 * 0 ≡ i = omega arith in
    let used' : storage_is_in_use d i ≡ true =
      ap (storage_is_in_use d) (sym here) ∙ used 0 (omega arith) in
    let within : ltb i d.report.max_block_num ≡ true = ground arith in
    let on : (j : ℕ) → i + 2 + 2 * j ≡ i + 2 * suc j = λ j. omega arith in
    rw (find_track, within, used')
      (find_track-first d n k (i + 2) (omega arith) (omega arith)
          (λ j lt'. ap (storage_is_in_use d) (on j) ∙ used (suc j) (omega arith))
          (ap (storage_is_in_use d) (on k) ∙ unused)
        ∙ ap (λ (t : ℕ). ok (some t)) (on k))

book_current-Returns :
    {Heads : Type 0} (d : Disk) (g : Groups Heads) (vg track : ℕ)
    → (g.vg vg).current_track ≡ track
    → track < d.report.max_block_num
    → Returns (book_current d g (some vg)) (λ r. r.2 ≡ track)
unfolding book_current
book_current-Returns d g vg track e inside =
    let pba = (g.vg vg).current_track in
    let i : ltb pba d.report.max_block_num ≡ true = ground arith in
    (
      (
        record d { storage = update d.storage pba (set_status booked (d.storage pba)) },
        set_current_track g vg (add64 pba 2),
        pba,
      ),
      rw i refl,
      e,
    )

-- The `k`-th track from the current one on.
abbrev pub track_after : VirtualGroup → ℕ → ℕ
track_after vg k = vg.current_track + 2 * k

module _ {Heads : Type 0} (lists : ListOps Heads) (d : Disk) (attr : FileAttr) (g : Groups Heads)
    (vg k : ℕ) (current : g.current_vg (this_of (is_hot attr)) ≡ some vg)
    (fits : (g.vg vg).higher_border < d.report.max_block_num)
    (within : track_after (g.vg vg) k ≤ (g.vg vg).higher_border)
    (used : (j : ℕ) → j < k → storage_is_in_use d (track_after (g.vg vg) j) ≡ true)
    (unused : storage_is_in_use d (track_after (g.vg vg) k) ≡ false) where
  found-first :
      find_unused d (g.vg vg) (g.vg vg).current_track ≡ ok (some (track_after (g.vg vg) k))
  found-first =
      let v = g.vg vg in
      let ordered : leb v.current_track v.higher_border ≡ true = ground arith in
      let rounds : rounds_of v.current_track v.higher_border
          ≡ (v.higher_border - v.current_track) / 2 + 1 =
        rw ordered refl in
      find_track-first d (rounds_of v.current_track v.higher_border) k v.current_track (omega arith)
        (omega arith) used unused

  chosen : Groups Heads
  chosen =
      set_current_track (record g { this_vg = some (this_of (is_hot attr)) }) vg
        (track_after (g.vg vg) k)

  current-first : vg_get_from_current_vg lists d attr g ≡ ok (true, chosen)
  unfolding vg_get_from_current_vg continue_current go_on_at chosen
  current-first =
      ap
        (λ (o : Option ℕ).
          continue_current lists d (record g { this_vg = some (this_of (is_hot attr)) })
            (this_of (is_hot attr)) o)
        current
      ∙ rw found-first refl

  taken-first : Returns (take_found d (true, chosen)) (λ r. r.2 ≡ track_after (g.vg vg) k)
  unfolding take_found get_current_block chosen
  taken-first =
      let here : (chosen.vg vg).current_track ≡ track_after (g.vg vg) k =
        ap (λ (v : VirtualGroup). v.current_track) (update_self g.vg vg _) in
      returns_of_eq (ap (λ (o : Option ℕ). book_current d chosen o) current)
        (book_current-Returns d chosen vg (track_after (g.vg vg) k) here (omega arith))

  -- The searches that follow are not made.
  block-first : vg_get_block lists d attr g ≡ take_found d (true, chosen)
  unfolding vg_get_block
  block-first = ap (λ m. later m) current-first
    where
      later : Search Heads → Outcome (GotBlock Heads)
      later m =
          m
          >>= or_else (unless_identical (vg_get_from_free_list lists attr))
          >>= or_else (unless_identical (vg_get_from_random_list lists d attr))
          >>= or_else (unless_identical (vg_get_from_constrained_list lists d attr))
          >>= or_else (vg_get_from_all_list lists d)
          >>= or_else (vg_get_from_another_current lists d attr)
          >>= take_found d

-- If there is a current group for the attribute, within the disk, `vg_get_block` returns the first
-- track of it, from its current track on by steps of two, that is not in use, if there is one up to its
-- higher border; with lists that are lists, it is booked in the disk that is returned, in which nothing
-- else changes.
pub vg_get_block-first :
    {Heads : Type 0} (lists : ListOps Heads) (d : Disk) (attr : FileAttr) (g : Groups Heads)
    (vg k : ℕ)
    → IsList lists
    → g.current_vg (this_of (is_hot attr)) ≡ some vg
    → (g.vg vg).higher_border < d.report.max_block_num
    → track_after (g.vg vg) k ≤ (g.vg vg).higher_border
    → ((j : ℕ) → j < k → storage_is_in_use d (track_after (g.vg vg) j) ≡ true)
    → storage_is_in_use d (track_after (g.vg vg) k) ≡ false
    → Returns (vg_get_block lists d attr g) (λ r.
      (r.2 ≡ track_after (g.vg vg) k)
      × (r.0 ≡ record d { storage = update d.storage r.2 (set_status booked (d.storage r.2)) }))
vg_get_block-first {Heads} lists d attr g vg k laws current fits within used unused =
    let (r, runs, e) = taken-first lists d attr g vg k current fits within used unused in
    let all = block-first lists d attr g vg k current fits within used unused ∙ runs in
    let (was_unused, result) = Holds-ok _ (vg_get_block-IsBooked lists d attr g laws) all in
    (r, all, (e, result))
