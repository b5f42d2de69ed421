-- ===== src/VirtualGroups.antt =====
-- src/virtual_groups.c and include/virtual_groups.h: the tracks of the disk in groups of neighbours, in
-- the build with VIRTUAL_GROUPS and without RESERVED_END_TRACK.
-- A pointer to a group is the index of the group in the array `vg`. The lists of include/list.h are a
-- parameter. The counts of the list heads and the sizes of the groups are left out: this file does not
-- read them.
pub mod Allocate
pub mod Journal
pub mod Update
pub mod Swap
pub mod Layout
use imr_dedupe.Prelude.{
  ℕ, ◌≡◌, ◌++◌, zero, suc, ◌+◌, ◌-◌, ◌*◌, ◌/◌, ◌%◌, ◌^◌, Bool, ◌&&◌, true, false, List, [], ◌∷◌,
  Option, none, some, ltb, leb, ◌==◌, if◌then◌else◌, update, Outcome, ok, stop, ◌>>=◌, ◌>>◌,
  require, undefined, aborted, out_of_fuel,
}
use imr_dedupe.Disk.{Disk, add64, is_toptrack, storage_is_in_use}
use imr_dedupe.Zalloc.{sub64}
use imr_dedupe.Dedupe.Release.{erase}
use imr_dedupe.FidTable.{FileAttr, free_file_attr, hot_file_attr}

pub data VgStatus : Type 0 where
  vg_free vg_random vg_constrain vg_jfs : VgStatus

-- `vg_free_head`, `vg_random_head`, `vg_constrained_head` and `vg_jfs_head`
pub data VgHead : Type 0 where
  free_head random_head constrained_head jfs_head : VgHead

-- What the code uses of include/list.h, for heads and links that are kept in `Heads`; `entries` are
-- the groups that `list_for_each` visits.
pub record ListOps (Heads : Type 0) : Type 0 where
  pub init_list_head : VgHead → Heads → Heads
  pub list_add_tail : ℕ → VgHead → Heads → Heads
  pub list_del : ℕ → Heads → Heads
  pub entries : VgHead → Heads → List ℕ

abbrev pub head_eq : VgHead → VgHead → Bool
head_eq free_head free_head = true
head_eq random_head random_head = true
head_eq constrained_head constrained_head = true
head_eq jfs_head jfs_head = true
head_eq _ _ = false

-- What include/list.h documents: an empty list, an entry at its end, and an entry that leaves its list.
pub record IsList {Heads : Type 0} (lists : ListOps Heads) : Type 0 where
  pub init : (h : VgHead) (s : Heads) → lists.entries h (lists.init_list_head h s) ≡ []
  pub init_other :
      (h k : VgHead) (s : Heads)
      → head_eq h k ≡ false
      → lists.entries k (lists.init_list_head h s) ≡ lists.entries k s
  pub add :
      (i : ℕ) (h : VgHead) (s : Heads)
      → lists.entries h (lists.list_add_tail i h s) ≡ lists.entries h s ++ (i ∷ [])
  pub add_other :
      (i : ℕ) (h k : VgHead) (s : Heads)
      → head_eq h k ≡ false
      → lists.entries k (lists.list_add_tail i h s) ≡ lists.entries k s
  pub del :
      (i : ℕ) (h : VgHead) (s : Heads)
      → lists.entries h (lists.list_del i s) ≡ erase i (lists.entries h s)

pub record VirtualGroup : Type 0 where
  pub next : Option ℕ
  pub lower_border : ℕ
  pub higher_border : ℕ
  pub top_start : ℕ
  pub top_end : ℕ
  pub bottom_start : ℕ
  pub bottom_end : ℕ
  pub start_track : ℕ
  pub current_top_track : ℕ
  pub current_bottom_track : ℕ
  pub current_track : ℕ
  pub vg_id : ℕ
  pub capacity : ℕ
  pub vg_status : VgStatus
  pub f_attr : FileAttr
  pub in_use : Bool

-- The functions that `check_bottom_ptr` points to.
pub data CheckBottom : Type 0 where
  no_check one_side two_sides : CheckBottom

-- The globals that hold the group in use, and to which `this_vg` points.
pub data Current : Type 0 where
  hot_vg cold_vg journal_vg : Current

pub record Groups (Heads : Type 0) : Type 0 where
  pub vg : ℕ → VirtualGroup
  pub num_of_groups : ℕ
  pub granularity : ℕ
  pub global_vg_list : Option ℕ
  pub heads : Heads
  pub current_vg : Current → Option ℕ
  pub this_vg : Option Current
  pub identical_attr_files : Bool
  pub check_bottom : CheckBottom
  pub switch_count : ℕ
  pub vg_update_arr : ℕ → Bool

abbrev pub current_eq : Current → Current → Bool
current_eq hot_vg hot_vg = true
current_eq cold_vg cold_vg = true
current_eq journal_vg journal_vg = true
current_eq _ _ = false

abbrev pub is_hot : FileAttr → Bool
is_hot hot_file_attr = true
is_hot _ = false

abbrev pub set_group : {Heads : Type 0} → Groups Heads → ℕ → VirtualGroup → Groups Heads
set_group g i vg = record g { vg = update g.vg i vg }

abbrev pub set_current_track : {Heads : Type 0} → Groups Heads → (i track : ℕ) → Groups Heads
set_current_track g i track = set_group g i (record (g.vg i) { current_track = track })

-- `*to = vg`
abbrev pub set_current : {Heads : Type 0} → Groups Heads → Current → Option ℕ → Groups Heads
set_current g to vg = record g { current_vg = λ c. if current_eq c to then vg else g.current_vg c }

unfoldable pub vg_init_attr : VirtualGroup → FileAttr → VirtualGroup
vg_init_attr vg attr = record vg {
  f_attr = attr;
  current_track = if is_hot attr then vg.current_top_track else vg.current_bottom_track;
}

-- But for the list, to which the group is added.
unfoldable pub init_vg_element : VirtualGroup → VirtualGroup
init_vg_element vg =
    let start = vg.lower_border in
    let last = vg.higher_border in
    let bottom_start = if is_toptrack start then add64 start 1 else start in
    let top_start = if is_toptrack start then start else add64 start 1 in
    record vg {
      vg_status = vg_free;
      capacity = add64 (sub64 last start) 1 % 2 ^ 32;
      f_attr = free_file_attr;
      top_start = top_start;
      bottom_start = bottom_start;
      top_end = if is_toptrack last then last else sub64 last 1;
      bottom_end = if is_toptrack last then sub64 last 1 else last;
      current_top_track = top_start;
      current_bottom_track = bottom_start;
      current_track = bottom_start;
      in_use = false;
    }

-- `*next = &vgh->vg[i]`, where `next` is the field of the group before, or the head.
abbrev pub set_next : {Heads : Type 0} → Groups Heads → Option ℕ → ℕ → Groups Heads
set_next g none i = record g { global_vg_list = some i }
set_next g (some before) i = set_group g before (record (g.vg before) { next = some i })

abbrev pub group_before : ℕ → Option ℕ
group_before zero = none
group_before (suc i) = some i

abbrev pub in_use_at : Disk → ℕ → Outcome Bool
in_use_at d track =
    require (ltb track d.report.max_block_num) undefined >> ok (storage_is_in_use d track)

module _ {Heads : Type 0} (lists : ListOps Heads) where
  -- The group `i` from its first track to the given last one.
  unfoldable pub init_group : (i last : ℕ) → Groups Heads → Groups Heads
  init_group i last g =
      let lower = i * g.granularity % 2 ^ 64 in
      let g' = set_next g (group_before i) i in
      let vg = record (g'.vg i) { lower_border = lower; higher_border = last; vg_id = i } in
      record (set_group g' i (init_vg_element vg)) {
        heads = lists.list_add_tail i free_head g'.heads;
      }

  -- The groups from `i` on but for the last one, of which there are `n`.
  unfoldable pub init_groups : (n i : ℕ) → Groups Heads → Groups Heads
  init_groups zero i g = g
  init_groups (suc n) i g =
      let last = sub64 (add64 (i * g.granularity % 2 ^ 64) g.granularity) 1 in
      init_groups n (i + 1) (init_group i last g)

  unfoldable pub init_last_group : (i max_track_num : ℕ) → Groups Heads → Groups Heads
  init_last_group i max_track_num g =
      let g' = init_group i (sub64 max_track_num 1) g in
      set_group g' i (record (g'.vg i) { next = none })

  abbrev pub init_heads : Heads → Heads
  init_heads h = lists.init_list_head jfs_head (
      lists.init_list_head constrained_head
        (lists.init_list_head random_head (lists.init_list_head free_head h)))

  -- `malloc` succeeds. A number of groups that is not positive or not an int is out of the model.
  unfoldable pub init_virtual_groups : Disk → Groups Heads → Outcome (Groups Heads)
  init_virtual_groups d g = do
    let max = d.report.max_track_num
    require (ltb 0 g.granularity) undefined
    let n = max / g.granularity + (if max % g.granularity == 0 then 0 else 1)
    require (ltb 0 n && ltb n (2 ^ 31)) undefined
    let g' = record g { num_of_groups = n; vg_update_arr = λ _. false; heads = init_heads g.heads }
    ok (init_last_group (n - 1) max (init_groups (n - 1) 0 g'))

  -- The links that the groups leave are not read before the next start.
  unfoldable pub end_virtual_groups : Groups Heads → Groups Heads
  end_virtual_groups g = record g {
    heads =
        lists.init_list_head constrained_head
          (lists.init_list_head random_head (lists.init_list_head free_head g.heads));
    current_vg =
        λ c. elim c [ hot_vg ↦ none | cold_vg ↦ none | journal_vg ↦ g.current_vg journal_vg ];
    global_vg_list = none;
  }

  unfoldable pub get_vg : Groups Heads → ℕ → Option Current → Outcome (Groups Heads)
  get_vg g i none = stop aborted
  get_vg g i (some to) =
      let g' = set_current (record g { heads = lists.list_del i g.heads }) to (some i) in
      ok (set_group g' i (record (g'.vg i) { in_use = true }))

  abbrev pub add_to : VgHead → Groups Heads → ℕ → VirtualGroup → Groups Heads
  add_to head g i vg = record (set_group g i vg) { heads = lists.list_add_tail i head g.heads }

  -- A group in the random state goes on as one in the constrained state does.
  unfoldable pub set_vg : Groups Heads → ℕ → Groups Heads
  set_vg g i =
      let vg = record (g.vg i) { start_track = (g.vg i).lower_border; in_use = false } in
      elim vg.vg_status [
        | vg_free ↦ add_to random_head g i (record vg { vg_status = vg_random })
        | vg_random ↦ add_to constrained_head g i (record vg {
          vg_status = vg_constrain;
          current_track = if is_hot vg.f_attr then vg.bottom_start else vg.top_start;
        })
        | vg_constrain ↦ add_to constrained_head g i vg
        | vg_jfs ↦ set_group g i vg
      ]

-- The groups from the given one on, of which at most as many as the fuel says are looked at.
unfoldable pub find_group :
    {Heads : Type 0} → Groups Heads → ℕ → (fuel : ℕ) → Option ℕ → Outcome (Option ℕ)
find_group g pba zero p = stop out_of_fuel
find_group g pba (suc fuel) none = ok none
find_group g pba (suc fuel) (some p) =
    elim (leb (g.vg p).lower_border pba && leb pba (g.vg p).higher_border) [
      | true ↦ ok (some p)
      | false ↦ find_group g pba fuel (g.vg p).next
    ]

unfoldable pub pba_to_vg : {Heads : Type 0} → Groups Heads → ℕ → Outcome (Option ℕ)
pba_to_vg g pba = find_group g pba (g.num_of_groups + 1) g.global_vg_list

unfoldable pub track_to_vg_index : {Heads : Type 0} → Groups Heads → ℕ → ℕ
track_to_vg_index g track = track / g.granularity
