-- ===== src/VirtualGroups/Update.antt =====
-- src/virtual_groups.c (update_vg_list): the groups are put into the lists by what their tracks hold.
pub mod Status
use imr_dedupe.Prelude.{
  ℕ, zero, suc, ◌+◌, ◌-◌, ◌*◌, ◌%◌, ◌^◌, Bool, true, false, not, ◌&&◌, ◌||◌, List, [], ◌∷◌, ltb,
  if◌then◌else◌, update, Outcome, ok, stop, ◌>>=◌, ◌>>◌, require, undefined,
}
use imr_dedupe.Disk.{Disk, BbHead, storage_is_in_use, is_toptrack}
use imr_dedupe.VirtualGroups.{
  VgHead, free_head, random_head, constrained_head, ListOps, VirtualGroup, vg_free, vg_random,
  vg_constrain, Groups, set_group, in_use_at, track_to_vg_index,
}

unfoldable pub clear_vg_update_arr : {Heads : Type 0} → Groups Heads → Groups Heads
clear_vg_update_arr g = record g {
  vg_update_arr = λ i. if ltb i g.num_of_groups then false else g.vg_update_arr i;
}

-- Whether a top track and whether a bottom track is in use, of the tracks from `i` on, of which there
-- are `n`.
unfoldable pub find_data :
    Disk → (n i : ℕ) → (top_has_data bottom_has_data : Bool) → Outcome (Bool × Bool)
find_data d zero i top bottom = ok (top, bottom)
find_data d (suc n) i top bottom = in_use_at d i >>= λ used.
    find_data d n (i + 1) (top || used && is_toptrack i) (bottom || used && not (is_toptrack i))

-- `for (i = vg->lower_border; i < vg->higher_border; i++)`: the last track is left out.
unfoldable pub group_data : Disk → VirtualGroup → Outcome (Bool × Bool)
group_data d vg = find_data d (vg.higher_border - vg.lower_border) vg.lower_border false false

module _ {Heads : Type 0} (lists : ListOps Heads) where
  abbrev move_to : VgHead → Groups Heads → ℕ → VirtualGroup → Groups Heads
  move_to head g i vg = record (set_group g i vg) {
    heads = lists.list_add_tail i head (lists.list_del i g.heads);
  }

  unfoldable pub sort_group : Groups Heads → ℕ → (data_found : Bool × Bool) → Groups Heads
  sort_group g i (top, bottom) =
      let vg = g.vg i in
      if top && bottom
      then move_to constrained_head g i (record vg { vg_status = vg_constrain })
      else if top || bottom
      then move_to random_head g i (record vg {
        vg_status = vg_random;
        current_track = if top then vg.top_start else vg.bottom_start;
      })
      else move_to free_head g i (record vg { vg_status = vg_free })

  -- `_update_vg_list`
  unfoldable pub update_group : Disk → ℕ → Groups Heads → Outcome (Groups Heads)
  update_group d i g = elim (g.vg i).in_use [
    | true ↦ ok g
    | false ↦ group_data d (g.vg i) >>= λ found. ok (sort_group g i found)
  ]

  -- The entries of the batch from `i` on, of which there are `n`.
  unfoldable pub mark_groups : BbHead → (n i : ℕ) → Groups Heads → Outcome (Groups Heads)
  mark_groups t zero i g = ok g
  mark_groups t (suc n) i g =
      let index = track_to_vg_index g (t.table i).pba in
      require (ltb index g.num_of_groups) undefined
      >> mark_groups t n (i + 1) (record g { vg_update_arr = update g.vg_update_arr index true })

  -- The groups from `i` on, of which there are `n`.
  unfoldable pub update_groups : Disk → (n i : ℕ) → Groups Heads → Outcome (Groups Heads)
  update_groups d zero i g = ok g
  update_groups d (suc n) i g = elim (g.vg_update_arr i) [
    | true ↦ update_group d i g >>= update_groups d n (i + 1)
    | false ↦ update_groups d n (i + 1) g
  ]

  unfoldable pub update_vg_list : Disk → BbHead → Groups Heads → Outcome (Groups Heads)
  update_vg_list d t g = do
    g₁ ← mark_groups t t.size 0 g
    g₂ ← update_groups d g₁.num_of_groups 0 g₁
    ok (clear_vg_update_arr g₂)
