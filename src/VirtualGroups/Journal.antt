-- ===== src/VirtualGroups/Journal.antt =====
-- src/virtual_groups.c (vg_journal_get_block and what it calls) and src/pba.c (find_next_pba_jfs): the
-- block that a write of the journal gets.
pub mod Sides
pub mod Blocks
use imr_dedupe.Prelude.{
  ℕ, zero, suc, ◌+◌, ◌-◌, ◌*◌, ◌%◌, ◌^◌, Bool, true, false, not, ◌&&◌, ◌||◌, List, [], ◌∷◌, Option,
  none, some, leb, ltb, ◌==◌, if◌then◌else◌, update, Outcome, ok, stop, ◌>>=◌, ◌>>◌, require,
  undefined, aborted, exit_failure, out_of_fuel,
}
use imr_dedupe.Disk.{
  Disk, add64, booked, free, set_status, storage_is_in_use, is_toptrack, is_invalid,
}
use imr_dedupe.Zalloc.{sub64}
use imr_dedupe.Zalloc.Find.{rounds_of}
use imr_dedupe.VirtualGroups.{
  VgHead, jfs_head, ListOps, VirtualGroup, Groups, CheckBottom, no_check, one_side, two_sides,
  journal_vg, set_group, set_current_track, set_current, get_vg, in_use_at,
}
use imr_dedupe.VirtualGroups.Allocate.{find_track, find_unused, book_current, GotBlock, Search}

-- `(track != 0) && storage_is_in_use(d, track - 1)`, and the same of the track after it
unfoldable pub lower_in_use : Disk → ℕ → Outcome Bool
lower_in_use d track = elim (track == 0) [ true ↦ ok false | false ↦ in_use_at d (track - 1) ]

unfoldable pub higher_in_use : Disk → ℕ → Outcome Bool
higher_in_use d track = elim (ltb track (sub64 d.report.max_track_num 1)) [
  | true ↦ in_use_at d (add64 track 1)
  | false ↦ ok false
]

unfoldable pub vg_journal_check_bottom_free_no_check : Disk → ℕ → Outcome Bool
vg_journal_check_bottom_free_no_check d track = ok true

unfoldable pub vg_journal_check_bottom_free_1_sides : Disk → ℕ → Outcome Bool
vg_journal_check_bottom_free_1_sides d track =
    lower_in_use d track >>= λ lower. elim lower [ true ↦ ok true | false ↦ higher_in_use d track ]

unfoldable pub vg_journal_check_bottom_free_2_sides : Disk → ℕ → Outcome Bool
vg_journal_check_bottom_free_2_sides d track = lower_in_use d track >>= λ lower. elim lower [
  | true ↦ ok false
  | false ↦ higher_in_use d track >>= λ higher. ok (not higher)
]

-- `check_bottom_ptr(d, track)`
unfoldable pub check_bottom_is_free : CheckBottom → Disk → ℕ → Outcome Bool
check_bottom_is_free no_check = vg_journal_check_bottom_free_no_check
check_bottom_is_free one_side = vg_journal_check_bottom_free_1_sides
check_bottom_is_free two_sides = vg_journal_check_bottom_free_2_sides

-- A track that is not in use and, if `bottom` says that it is one to be checked, passes the check.
unfoldable pub is_available : Disk → CheckBottom → (bottom : ℕ → Bool) → ℕ → Outcome Bool
is_available d check bottom track = in_use_at d track >>= λ used. elim used [
  | true ↦ ok false
  | false ↦ elim (bottom track) [ true ↦ check_bottom_is_free check d track | false ↦ ok true ]
]

-- `for (track = from; track <= vg->higher_border; track += 2)`
abbrev pub find_available :
    Disk → CheckBottom → (bottom : ℕ → Bool) → VirtualGroup → (from : ℕ) → Outcome (Option ℕ)
find_available d check bottom vg from =
    find_track (is_available d check bottom) 2 (rounds_of from vg.higher_border) from

-- The bottom tracks of the group, and then its top tracks.
unfoldable pub find_in_journal_group : Disk → CheckBottom → VirtualGroup → Outcome (Option ℕ)
find_in_journal_group d check vg =
    find_available d check (λ _. true) vg vg.bottom_start >>= λ found. elim found [
      | some track ↦ ok (some track)
      | none ↦ find_unused d vg vg.top_start
    ]

abbrev pub same_group : Option ℕ → Option ℕ → Bool
same_group none none = true
same_group (some a) (some b) = a == b
same_group _ _ = false

-- The status of a block that is invalid becomes free.
unfoldable pub clear_track : Disk → ℕ → Outcome Disk
clear_track d track =
    require (ltb track d.report.max_block_num) undefined
    >> ok (
        let b = d.storage track in
        if is_invalid b.status
        then record d { storage = update d.storage track (set_status free b) }
        else d)

unfoldable pub clear_near_track : Disk → ℕ → Outcome Disk
clear_near_track d track = do
  d₁ ← elim (track == 0) [ true ↦ ok d | false ↦ clear_track d (track - 1) ]
  elim (ltb track (sub64 d₁.report.max_track_num 1)) [
    | true ↦ clear_track d₁ (add64 track 1)
    | false ↦ ok d₁
  ]

-- `_journal_get_block`
unfoldable pub get_journal_block : {Heads : Type 0} → Disk → Groups Heads → Outcome (GotBlock Heads)
get_journal_block d g = do
  (d₁, g₁, pba) ← book_current d g (g.current_vg journal_vg)
  d₂ ← clear_near_track d₁ pba
  ok (d₂, g₁, pba)

module _ {Heads : Type 0} (lists : ListOps Heads) where
  -- The groups from the given one to before the last one, of which there are at most as many as the
  -- fuel says.
  unfoldable pub try_journal_groups :
      Disk → Groups Heads → (fuel : ℕ) → (vg last : Option ℕ) → Search Heads
  try_journal_groups d g zero vg last = stop out_of_fuel
  try_journal_groups d g (suc fuel) none last = elim (same_group none last) [
    | true ↦ ok (false, g)
    | false ↦ stop undefined
  ]
  try_journal_groups d g (suc fuel) (some vg) last = elim (same_group (some vg) last) [
    | true ↦ ok (false, g)
    | false ↦ elim (g.vg vg).in_use [
      | true ↦ try_journal_groups d g fuel (g.vg vg).next last
      | false ↦ find_in_journal_group d g.check_bottom (g.vg vg) >>= λ found. elim found [
        | none ↦ try_journal_groups d g fuel (g.vg vg).next last
        | some track ↦
            get_vg lists (set_current_track g vg track) vg (some journal_vg) >>= λ g'. ok (true, g')
      ]
    ]
  ]

  abbrev all_groups : Groups Heads → ℕ
  all_groups g = g.num_of_groups + 1

  unfoldable pub journal_get_before_current_vg : Disk → Groups Heads → Search Heads
  journal_get_before_current_vg d g = elim (g.current_vg journal_vg) [
    | none ↦ ok (false, g)
    | some vg ↦ try_journal_groups d g (all_groups g) g.global_vg_list (some vg) >>= λ r. elim r.0 [
      | true ↦ ok r
      | false ↦ ok (false, set_current r.1 journal_vg none)
    ]
  ]

  unfoldable pub journal_get_after_current_vg : Disk → Groups Heads → Search Heads
  journal_get_after_current_vg d g =
      let first : Option ℕ = elim (g.current_vg journal_vg) [
        | none ↦ g.global_vg_list
        | some vg ↦ (g.vg vg).next
      ] in
      try_journal_groups d g (all_groups g) first none

  -- `vglist_add_tail(&vg_jfs_head, &vg->list); vg->in_use = false; return false;`
  abbrev pub give_up : Groups Heads → ℕ → Bool × Groups Heads
  give_up g vg = (
    false,
    record (set_group g vg (record (g.vg vg) { in_use = false })) {
      heads = lists.list_add_tail vg jfs_head g.heads;
    },
  )

  abbrev pub go_on_or_give_up : Groups Heads → ℕ → Option ℕ → Bool × Groups Heads
  go_on_or_give_up g vg (some track) = (true, set_current_track g vg track)
  go_on_or_give_up g vg none = give_up g vg

  unfoldable pub continue_journal : Disk → Groups Heads → Option ℕ → Search Heads
  continue_journal d g none = ok (false, g)
  continue_journal d g (some vg) =
      let v = g.vg vg in
      find_available d g.check_bottom (λ track. not (is_toptrack track)) v v.current_track
      >>= λ found. elim found [
        | some track ↦ ok (true, set_current_track g vg track)
        | none ↦ elim (is_toptrack v.current_track) [
          | true ↦ ok (give_up g vg)
          | false ↦ find_unused d v v.top_start >>= λ top. ok (go_on_or_give_up g vg top)
        ]
      ]

  unfoldable pub journal_get_from_current_vg : Disk → Groups Heads → Search Heads
  journal_get_from_current_vg d g = continue_journal d g (g.current_vg journal_vg)

  -- With the block; `none` is (unsigned long)-1.
  abbrev pub JournalBlock : Type 0
  JournalBlock = Disk × Groups Heads × Option ℕ

  abbrev pub take_or :
      (Disk → Groups Heads → Outcome JournalBlock)
      → Disk
      → Bool × Groups Heads
      → Outcome JournalBlock
  take_or otherwise d (true, g) = get_journal_block d g >>= λ r. ok (r.0, r.1, some r.2)
  take_or otherwise d (false, g) = otherwise d g

  abbrev pub no_block : Disk → Groups Heads → Outcome JournalBlock
  no_block d g = ok (d, g, none)

  abbrev pub get_before : Disk → Groups Heads → Outcome JournalBlock
  get_before d g = journal_get_before_current_vg d g >>= take_or no_block d

  abbrev pub get_after : Disk → Groups Heads → Outcome JournalBlock
  get_after d g = journal_get_after_current_vg d g >>= take_or get_before d

  unfoldable pub vg_journal_get_block : Disk → Groups Heads → Outcome JournalBlock
  vg_journal_get_block d g = journal_get_from_current_vg d g >>= take_or get_after d

-- The static `count` is `switch_count`.
unfoldable pub journal_switch_check_bottom : {Heads : Type 0} → Groups Heads → Bool × Groups Heads
journal_switch_check_bottom g =
    if g.switch_count == 0
    then (true, record g { check_bottom = one_side; switch_count = 1 })
    else if g.switch_count == 1
    then (true, record g { check_bottom = no_check; switch_count = 2 })
    else (false, g)

-- The rounds of `do ... while`, at most as many as the fuel says.
unfoldable pub find_next_pba_jfs :
    {Heads : Type 0} → ListOps Heads → (fuel : ℕ) → Disk → Groups Heads → Outcome (GotBlock Heads)
find_next_pba_jfs lists zero d g = stop out_of_fuel
find_next_pba_jfs lists (suc fuel) d g = vg_journal_get_block lists d g >>= λ (d', g', o). elim o [
  | some pba ↦ ok (d', g', pba)
  | none ↦ elim (journal_switch_check_bottom g').0 [
    | true ↦ find_next_pba_jfs lists fuel d' (journal_switch_check_bottom g').1
    | false ↦ stop exit_failure
  ]
]
