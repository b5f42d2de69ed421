-- ===== src/Tests/Groups.antt =====
-- The tracks of `eight` in groups of three, with lists that are functions of their head.
use imr_dedupe.Prelude.{
  Outcome, ◌>>=◌, ℕ, ◌+◌, ◌*◌, ◌≤◌, ◌<◌, ◌≡◌, refl, Bool, true, false, List, [], ◌∷◌, ◌++◌, none,
  some, ◌==◌, if◌then◌else◌, ok, update, Returns, Holds, arith, Bool-cases, inl, inr,
}
use imr_dedupe.Disk.{booked, set_status, storage_is_in_use, storage_is_free}
use imr_dedupe.Dedupe.Release.{erase}
use imr_dedupe.FidTable.{hot_file_attr, free_file_attr}
use imr_dedupe.VirtualGroups.{
  get_vg, vg_init_attr, VgHead, free_head, random_head, constrained_head, jfs_head, head_eq,
  ListOps, IsList, VirtualGroup, vg_free, vg_random, one_side, two_sides, hot_vg, cold_vg,
  journal_vg, Groups, init_virtual_groups, pba_to_vg, track_to_vg_index,
}
use imr_dedupe.VirtualGroups.Layout.{IsLayout, init_virtual_groups-IsLayout}
use imr_dedupe.VirtualGroups.Layout.Find.{pba_to_vg-track_to_vg_index}
use imr_dedupe.VirtualGroups.Allocate.{
  find_track, book_current, vg_get_block, GotBlock, vg_get_from_current_vg, continue_current,
  vg_get_from_free_list, take_free, take_found, get_current_block,
}
use imr_dedupe.VirtualGroups.Allocate.Unused.{IsUnusedOrFirst, vg_get_block-IsBooked}
use imr_dedupe.VirtualGroups.Allocate.First.{vg_get_block-first}
use imr_dedupe.VirtualGroups.Journal.{
  vg_journal_get_block, journal_get_from_current_vg, continue_journal, journal_get_after_current_vg,
  try_journal_groups, find_in_journal_group, is_available, vg_journal_check_bottom_free_2_sides,
  lower_in_use, higher_in_use, get_journal_block, clear_near_track, clear_track,
  check_bottom_is_free, find_next_pba_jfs,
}
use imr_dedupe.VirtualGroups.Journal.Sides.{verdict, check_bottom_is_free-verdict}
use imr_dedupe.VirtualGroups.Journal.Blocks.{IsJournalBlock, find_next_pba_jfs-IsJournalBlock}
use imr_dedupe.VirtualGroups.Update.{update_group}
use imr_dedupe.VirtualGroups.Update.Status.{
  Has, top_used, bottom_used, IsSorted, update_group-IsSorted,
}
use imr_dedupe.VirtualGroups.Swap.{dual_swap}
use imr_dedupe.VirtualGroups.Swap.Least.{Swapped, dual_swap-Swapped}
use imr_dedupe.Tests.Data.{eight}

abbrev Lists : Type 0
Lists = VgHead → List ℕ

abbrev lists : ListOps Lists
lists = record {
  init_list_head = λ h s k. if head_eq h k then [] else s k;
  list_add_tail = λ i h s k. if head_eq h k then s k ++ (i ∷ []) else s k;
  list_del = λ i s k. erase i (s k);
  entries = λ h s. s h;
}

head_eq_refl : (h : VgHead) → head_eq h h ≡ true
head_eq_refl free_head = refl
head_eq_refl random_head = refl
head_eq_refl constrained_head = refl
head_eq_refl jfs_head = refl

lists-IsList : IsList lists
lists-IsList = record {
  init = λ h s. rw (head_eq_refl h) refl;
  init_other = λ h k s e. rw e refl;
  add = λ i h s. rw (head_eq_refl h) refl;
  add_other = λ i h k s e. rw e refl;
  del = λ i h s. refl;
}

-- Before the start.
abbrev no_group : VirtualGroup
no_group = record {
  next = none;
  lower_border = 0;
  higher_border = 0;
  top_start = 0;
  top_end = 0;
  bottom_start = 0;
  bottom_end = 0;
  start_track = 0;
  current_top_track = 0;
  current_bottom_track = 0;
  current_track = 0;
  vg_id = 0;
  capacity = 0;
  vg_status = vg_free;
  f_attr = free_file_attr;
  in_use = false;
}

abbrev no_groups : Groups Lists
no_groups = record {
  vg = λ i. no_group;
  num_of_groups = 0;
  granularity = 3;
  global_vg_list = none;
  heads = λ h. [];
  current_vg = λ c. none;
  this_vg = none;
  identical_attr_files = false;
  check_bottom = two_sides;
  switch_count = 0;
  vg_update_arr = λ i. false;
}

init_virtual_groups-IsLayout_example :
    Returns (init_virtual_groups lists eight no_groups) (λ g. IsLayout 8 g × (g.granularity ≡ 3))
init_virtual_groups-IsLayout_example =
    init_virtual_groups-IsLayout lists eight no_groups (omega arith) (omega arith) (omega arith)
      (omega arith)

-- The groups after the start.
laid : Returns (init_virtual_groups lists eight no_groups) (λ g. IsLayout 8 g × (g.granularity ≡ 3))
laid =
    init_virtual_groups-IsLayout lists eight no_groups (omega arith) (omega arith) (omega arith)
      (omega arith)

pba_to_vg-track_to_vg_index_example :
    let g = laid.0 in
    (pba_to_vg g 5 ≡ ok (some (track_to_vg_index g 5)))
    × (track_to_vg_index g 5 < g.num_of_groups)
    × ((i : ℕ)
        → i < g.num_of_groups
        → (g.vg i).lower_border ≤ 5
        → 5 ≤ (g.vg i).higher_border
        → i ≡ track_to_vg_index g 5)
pba_to_vg-track_to_vg_index_example = pba_to_vg-track_to_vg_index 8 5 laid.0 laid.2.0 (omega arith)

-- The group of the tracks 1 to 7, whose next top track is 1; the tracks 1 and 3 are in use.
abbrev seven_tracks : VirtualGroup
seven_tracks = record no_group {
  lower_border = 1;
  higher_border = 7;
  top_start = 1;
  top_end = 7;
  bottom_start = 2;
  bottom_end = 6;
  current_top_track = 5;
  current_bottom_track = 6;
  current_track = 1;
  vg_status = vg_random;
  f_attr = hot_file_attr;
}

abbrev one_group : Groups Lists
one_group = record no_groups {
  vg = λ i. seven_tracks;
  num_of_groups = 1;
  granularity = 8;
  global_vg_list = some 0;
  heads = λ h. if head_eq h random_head then 0 ∷ [] else [];
}

abbrev hot_group : Groups Lists
hot_group = record one_group {
  heads = λ h. [];
  current_vg = λ c. elim c [ hot_vg ↦ some 0 | cold_vg ↦ none | journal_vg ↦ none ];
}

-- The same group in the list of free groups, of whose tracks 5 is the next top track.
abbrev free_group : Groups Lists
free_group = record one_group {
  vg = λ i. record seven_tracks { vg_status = vg_free };
  heads = λ h. if head_eq h free_head then 0 ∷ [] else [];
}

vg_get_block-IsBooked_example :
    Holds
      (λ (r : GotBlock Lists).
        IsUnusedOrFirst lists eight hot_file_attr free_group r.2
        × (r.0 ≡ record eight {
          storage = update eight.storage r.2 (set_status booked (eight.storage r.2));
        }))
      (vg_get_block lists eight hot_file_attr free_group)
vg_get_block-IsBooked_example =
    vg_get_block-IsBooked lists eight hot_file_attr free_group lists-IsList

-- Track 5 is returned.
free_group_taken : Returns (vg_get_block lists eight hot_file_attr free_group) (λ r. r.2 ≡ 5)
unfolding vg_get_block vg_get_from_current_vg continue_current vg_get_from_free_list take_free
    get_vg book_current take_found get_current_block vg_init_attr
free_group_taken = (_, refl, refl)

vg_get_block-first_example : Returns (vg_get_block lists eight hot_file_attr hot_group) (λ r.
    (r.2 ≡ 1 + 2 * 2)
    × (r.0 ≡ record eight {
      storage = update eight.storage r.2 (set_status booked (eight.storage r.2));
    }))
unfolding storage_is_in_use
vg_get_block-first_example =
    vg_get_block-first lists eight hot_file_attr hot_group 0 2 lists-IsList refl (omega arith)
      (omega arith) two_used refl
  where
    two_used : (j : ℕ) → j < 2 → storage_is_in_use eight (1 + 2 * j) ≡ true
    two_used j lt = elim (Bool-cases (j == 0)) [
      | inl e ↦ let e' : j ≡ 0 = ground arith in rw e' refl
      | inr e ↦ let e' : j ≡ 1 = ground arith in rw e' refl
    ]

check_bottom_is_free-verdict_example :
    check_bottom_is_free one_side eight 2 ≡ ok (verdict one_side eight 2)
check_bottom_is_free-verdict_example =
    check_bottom_is_free-verdict one_side eight 2 (omega arith) (omega arith) refl

find_next_pba_jfs-IsJournalBlock_example :
    Holds
      (λ (r : GotBlock Lists). IsJournalBlock eight r.2 r.0)
      (find_next_pba_jfs lists 3 eight one_group)
find_next_pba_jfs-IsJournalBlock_example = find_next_pba_jfs-IsJournalBlock lists 3 eight one_group

update_group-IsSorted_example : Returns (update_group lists eight 0 one_group) (λ g.
    (top : Bool) × (bottom : Bool) × Has (top_used eight) 1 7 top
    × Has (bottom_used eight) 1 7 bottom
    × IsSorted lists lists-IsList one_group 0 top bottom g)
update_group-IsSorted_example =
    update_group-IsSorted lists lists-IsList eight 0 one_group refl (omega arith) (omega arith)

dual_swap-Swapped_example : Returns (dual_swap eight seven_tracks 4) (Swapped eight (1 + 2 * 2) 4)
unfolding storage_is_free
dual_swap-Swapped_example =
    dual_swap-Swapped eight seven_tracks 4 2 (omega arith) (omega arith) (omega arith) refl
      two_taken (omega arith)
  where
    two_taken : (j : ℕ) → j < 2 → storage_is_free eight (1 + 2 * j) ≡ false
    two_taken j lt = elim (Bool-cases (j == 0)) [
      | inl e ↦ let e' : j ≡ 0 = ground arith in rw e' refl
      | inr e ↦ let e' : j ≡ 1 = ground arith in rw e' refl
    ]

-- The allocation for the journal does return there, with the first bottom track that no track in use
-- is next to.
journal_takes_six :
    Path (Outcome ℕ) (find_next_pba_jfs lists 1 eight one_group >>= (λ r. ok r.2)) (ok 6)
unfolding find_next_pba_jfs vg_journal_get_block journal_get_from_current_vg continue_journal
    journal_get_after_current_vg try_journal_groups find_in_journal_group find_track is_available
    check_bottom_is_free vg_journal_check_bottom_free_2_sides lower_in_use higher_in_use get_vg
    get_journal_block book_current clear_near_track clear_track storage_is_in_use
journal_takes_six = refl
