-- ===== src/VirtualGroups/Allocate.antt =====
-- src/virtual_groups.c (vg_get_block and what it calls): the block that a write gets, by the attribute
-- of its file.
pub mod Searches
pub mod Unused
pub mod First
use imr_dedupe.Prelude.{
  ℕ, zero, suc, ◌+◌, ◌-◌, ◌*◌, ◌%◌, ◌^◌, Bool, true, false, not, List, [], ◌∷◌, Option, none, some,
  leb, ltb, if◌then◌else◌, update, Outcome, ok, stop, ◌>>=◌, ◌>>◌, require, undefined, aborted,
}
use imr_dedupe.Disk.{Disk, add64, booked, set_status, storage_is_in_use}
use imr_dedupe.Zalloc.{sub64}
use imr_dedupe.Zalloc.Find.{rounds_of}
use imr_dedupe.FidTable.{
  FileAttr, free_file_attr, hot_file_attr, cold_file_attr, error_file_attr, FidHead, get_attr,
  is_error,
}
use imr_dedupe.VirtualGroups.{
  VgHead, free_head, random_head, constrained_head, ListOps, VirtualGroup, vg_random, Groups,
  Current, hot_vg, cold_vg, is_hot, set_group, set_current_track, set_current, vg_init_attr, get_vg,
  set_vg, in_use_at,
}

-- The tracks from `i` on, by steps of `step`, of which there are `n`: the first that `test` accepts.
unfoldable pub find_track : (ℕ → Outcome Bool) → (step n i : ℕ) → Outcome (Option ℕ)
find_track test step zero i = ok none
find_track test step (suc n) i = test i >>= λ accepted. elim accepted [
  | true ↦ ok (some i)
  | false ↦ find_track test step n (i + step)
]

abbrev pub is_unused : Disk → ℕ → Outcome Bool
is_unused d track = in_use_at d track >>= λ used. ok (not used)

-- `for (track = from; track <= vg->higher_border; track += 2)`
abbrev pub find_unused : Disk → VirtualGroup → (from : ℕ) → Outcome (Option ℕ)
find_unused d vg from = find_track (is_unused d) 2 (rounds_of from vg.higher_border) from

-- The same from the lower border on, track by track.
abbrev pub find_any_unused : Disk → VirtualGroup → Outcome (Option ℕ)
find_any_unused d vg =
    let first = vg.lower_border in
    find_track (is_unused d) 1
      (if leb first vg.higher_border then vg.higher_border - first + 1 else 0) first

-- A search for a group, with whether it found one.
abbrev pub Search : Type 0 → Type 0
Search Heads = Outcome (Bool × Groups Heads)

abbrev pub this_of : Bool → Current
this_of hot = if hot then hot_vg else cold_vg

abbrev not_in_use : VirtualGroup → Outcome Bool
not_in_use vg = require (not vg.in_use) aborted >> ok true

-- The group from its current track on, and then from its lower border on.
unfoldable pub find_in_group : Disk → VirtualGroup → Outcome (Option ℕ)
find_in_group d vg = find_unused d vg vg.current_track >>= λ found. elim found [
  | some track ↦ ok (some track)
  | none ↦ find_any_unused d vg
]

abbrev pub attr_eq : FileAttr → FileAttr → Bool
attr_eq free_file_attr free_file_attr = true
attr_eq hot_file_attr hot_file_attr = true
attr_eq cold_file_attr cold_file_attr = true
attr_eq error_file_attr error_file_attr = true
attr_eq _ _ = false

-- The disk, the groups and the block.
abbrev pub GotBlock : Type 0 → Type 0
GotBlock Heads = Disk × Groups Heads × ℕ

-- `d->storage[pba].status = status_booked; vg->current_track += 2;` of the given current group
unfoldable pub book_current :
    {Heads : Type 0} → Disk → Groups Heads → Option ℕ → Outcome (GotBlock Heads)
book_current d g none = stop undefined
book_current d g (some vg) =
    let pba = (g.vg vg).current_track in
    require (ltb pba d.report.max_block_num) undefined
    >> ok (
      record d { storage = update d.storage pba (set_status booked (d.storage pba)) },
      set_current_track g vg (add64 pba 2),
      pba,
    )

unfoldable pub get_current_block : {Heads : Type 0} → Disk → Groups Heads → Outcome (GotBlock Heads)
get_current_block d g = elim g.this_vg [
  | none ↦ stop undefined
  | some this ↦ book_current d g (g.current_vg this)
]

-- The next search, where the one before found no group.
abbrev pub or_else :
    {Heads : Type 0} → (Groups Heads → Search Heads) → Bool × Groups Heads → Search Heads
or_else search (true, g) = ok (true, g)
or_else search (false, g) = search g

-- A search that is left out once the files are taken to be identical.
abbrev pub unless_identical :
    {Heads : Type 0} → (Groups Heads → Search Heads) → Groups Heads → Search Heads
unless_identical search g = elim g.identical_attr_files [ true ↦ ok (false, g) | false ↦ search g ]

-- `_vg_get_block`, if some search found a group
unfoldable pub take_found : {Heads : Type 0} → Disk → Bool × Groups Heads → Outcome (GotBlock Heads)
take_found d (true, g) = get_current_block d g
take_found d (false, g) = stop aborted

module _ {Heads : Type 0} (lists : ListOps Heads) where
  -- The current group goes on at the track, or is given up.
  unfoldable pub go_on_at : Groups Heads → (vg : ℕ) → Option ℕ → Bool × Groups Heads
  go_on_at g vg (some track) = (true, set_current_track g vg track)
  go_on_at g vg none = (false, set_vg lists g vg)

  unfoldable pub continue_current : Disk → Groups Heads → Current → Option ℕ → Search Heads
  continue_current d g this none = ok (false, g)
  continue_current d g this (some vg) = find_unused d (g.vg vg) (g.vg vg).current_track >>= λ found.
      let (success, g') = go_on_at g vg found in
      ok (success, if success then g' else set_current g' this none)

  unfoldable pub vg_get_from_current_vg : Disk → FileAttr → Groups Heads → Search Heads
  vg_get_from_current_vg d attr g =
      let this = this_of (is_hot attr) in
      continue_current d (record g { this_vg = some this }) this (g.current_vg this)

  -- There is no test that the other current group exists, and it stays current when it is given up.
  unfoldable pub continue_other : Disk → Groups Heads → Option ℕ → Search Heads
  continue_other d g none = stop undefined
  continue_other d g (some vg) =
      find_unused d (g.vg vg) (g.vg vg).current_track >>= λ found. ok (go_on_at g vg found)

  unfoldable pub vg_get_from_another_current : Disk → FileAttr → Groups Heads → Search Heads
  vg_get_from_another_current d attr g =
      let this = this_of (not (is_hot attr)) in
      continue_other d (record g { this_vg = some this }) (g.current_vg this)

  unfoldable pub take_free : FileAttr → Groups Heads → List ℕ → Search Heads
  take_free attr g [] = ok (false, g)
  take_free attr g (vg ∷ rest) = do
    require (not (g.vg vg).in_use) aborted
    g' ← get_vg lists (set_group g vg (vg_init_attr (g.vg vg) attr)) vg g.this_vg
    ok (true, set_group g' vg (record (g'.vg vg) { vg_status = vg_random }))

  unfoldable pub vg_get_from_free_list : FileAttr → Groups Heads → Search Heads
  vg_get_from_free_list attr g = take_free attr g (lists.entries free_head g.heads)

  -- `get_vg(vg, this_vg); vg->current_track = i;`
  abbrev pub take_at : Groups Heads → (vg track : ℕ) → Search Heads
  take_at g vg track =
      get_vg lists g vg g.this_vg >>= λ g'. ok (true, set_current_track g' vg track)

  -- What each group of a list is tried with: a test of the group, and a search for a track.
  unfoldable pub try_groups :
      (VirtualGroup → Outcome Bool)
      → (VirtualGroup → Outcome (Option ℕ))
      → Groups Heads
      → List ℕ
      → Search Heads
  try_groups fits find g [] = ok (false, g)
  try_groups fits find g (vg ∷ rest) = fits (g.vg vg) >>= λ fit. elim fit [
    | false ↦ try_groups fits find g rest
    | true ↦ find (g.vg vg) >>= λ found. elim found [
      | some track ↦ take_at g vg track
      | none ↦ try_groups fits find g rest
    ]
  ]

  unfoldable pub vg_get_from_all_list : Disk → Groups Heads → Search Heads
  vg_get_from_all_list d g =
      let g₁ = record g { identical_attr_files = true } in
      try_groups not_in_use (find_in_group d) g₁ (lists.entries random_head g₁.heads) >>= λ r.
      elim r.0 [
        | true ↦ ok r
        | false ↦
            try_groups not_in_use (find_in_group d) r.1 (lists.entries constrained_head r.1.heads)
      ]

  unfoldable pub vg_get_from_random_list : Disk → FileAttr → Groups Heads → Search Heads
  vg_get_from_random_list d attr g =
      try_groups (λ vg. require (not vg.in_use) aborted >> ok (attr_eq attr vg.f_attr))
        (λ vg. find_unused d vg vg.current_track) g (lists.entries random_head g.heads)

  unfoldable pub vg_get_from_constrained_list : Disk → FileAttr → Groups Heads → Search Heads
  vg_get_from_constrained_list d attr g =
      try_groups (λ vg. ok (not (attr_eq attr vg.f_attr))) (λ vg. find_unused d vg vg.current_track)
        g (lists.entries constrained_head g.heads)

  unfoldable pub vg_get_block : Disk → FileAttr → Groups Heads → Outcome (GotBlock Heads)
  vg_get_block d attr g =
      vg_get_from_current_vg d attr g
      >>= or_else (unless_identical (vg_get_from_free_list attr))
      >>= or_else (unless_identical (vg_get_from_random_list d attr))
      >>= or_else (unless_identical (vg_get_from_constrained_list d attr))
      >>= or_else (vg_get_from_all_list d)
      >>= or_else (vg_get_from_another_current d attr)
      >>= take_found d
