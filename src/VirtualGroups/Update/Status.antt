-- ===== src/VirtualGroups/Update/Status.antt =====
-- src/virtual_groups.c (_update_vg_list): the state and the list that a group gets.
use imr_dedupe.Prelude.{
  ℕ, zero, suc, ◌+◌, ◌-◌, ◌≤◌, ◌<◌, ◌≡◌, refl, sym, ap, ap₂, ◌∙◌, Bool, true, false, not, ◌&&◌,
  ◌||◌, List, [], ◌∷◌, ◌++◌, ltb, update_self, Outcome, ok, ◌>>=◌, Returns, arith, Bool-cases, inl,
  inr, ◌==◌,
}
use imr_dedupe.Disk.{Disk, storage_is_in_use, is_toptrack}
use imr_dedupe.Dedupe.Release.{erase}
use imr_dedupe.VirtualGroups.{
  VgHead, free_head, random_head, constrained_head, ListOps, IsList, VirtualGroup, VgStatus,
  vg_free, vg_random, vg_constrain, Groups,
}
use imr_dedupe.VirtualGroups.Update.{find_data, group_data, sort_group, update_group}

-- Whether some track from `i` to before `last` passes the test.
abbrev pub Has : (ℕ → Bool) → (i last : ℕ) → Bool → Type 0
Has test i last true = (j : ℕ) × (i ≤ j) × (j < last) × (test j ≡ true)
Has test i last false = (j : ℕ) → i ≤ j → j < last → test j ≡ false

abbrev some_track : (ℕ → Bool) → (n i : ℕ) → Bool
some_track test zero i = false
some_track test (suc n) i = test i || some_track test n (i + 1)

some_track-Has : (test : ℕ → Bool) (n i : ℕ) → Has test i (i + n) (some_track test n i)
some_track-Has test zero i = λ j a b. absurd (omega arith)
some_track-Has test (suc n) i =
    let e : i + 1 + n ≡ i + suc n = omega arith in
    by_first (test i) refl (some_track test n (i + 1)) (rw e at (some_track-Has test n (i + 1)))
  where
    by_first :
        (here : Bool)
        → test i ≡ here
        → (later : Bool) → Has test (i + 1) (i + suc n) later
        → Has test i (i + suc n) (here || later)
    by_first true e later h = (i, omega arith, omega arith, e)
    by_first false e true (j, a, b, t) = (j, omega arith, b, t)
    by_first false e false h = λ j a b. elim (Bool-cases (i == j)) [
      | inl same ↦ let same' : j ≡ i = ground arith in rw same' e
      | inr other ↦ let apart : i + 1 ≤ j = ground arith in h j apart b
    ]

-- Whether a top track, or a bottom track, is in use.
abbrev pub top_used : Disk → ℕ → Bool
top_used d j = storage_is_in_use d j && is_toptrack j

abbrev pub bottom_used : Disk → ℕ → Bool
bottom_used d j = storage_is_in_use d j && not (is_toptrack j)

find_data-some_track :
    (d : Disk) (n i : ℕ) (top bottom : Bool)
    → i + n ≤ d.report.max_block_num
    → find_data d n i top bottom
      ≡ ok (top || some_track (top_used d) n i, bottom || some_track (bottom_used d) n i)
unfolding find_data
find_data-some_track d zero i top bottom fits =
    let a : top || false ≡ top = ground arith in
    let b : bottom || false ≡ bottom = ground arith in
    ap₂ (λ (t : Bool) (u : Bool). ok (t, u)) (sym a) (sym b)
find_data-some_track d (suc n) i top bottom fits =
    let inside : ltb i d.report.max_block_num ≡ true = ground arith in
    rw (find_data, inside)
      (find_data-some_track d n (i + 1) (top || top_used d i) (bottom || bottom_used d i)
          (omega arith)
        ∙ ap₂ (λ (t : Bool) (u : Bool). ok (t, u)) (or_assoc top _ _) (or_assoc bottom _ _))
  where
    or_assoc : (a b c : Bool) → (a || b) || c ≡ a || (b || c)
    or_assoc a b c = ground arith

-- The state of a group by what its tracks hold, and the list of a state.
abbrev pub state_of : (top bottom : Bool) → VgStatus
state_of true true = vg_constrain
state_of true false = vg_random
state_of false true = vg_random
state_of false false = vg_free

abbrev pub head_of : (top bottom : Bool) → VgHead
head_of true true = constrained_head
head_of true false = random_head
head_of false true = random_head
head_of false false = free_head

module _ {Heads : Type 0} (lists : ListOps Heads) (laws : IsList lists) where
  -- The group has the state, and stands at the end of its list.
  pub record IsSorted (g : Groups Heads) (i : ℕ) (top bottom : Bool) (g' : Groups Heads)
      : Type 0 where
    pub status : (g'.vg i).vg_status ≡ state_of top bottom
    pub listed :
        lists.entries (head_of top bottom) g'.heads
        ≡ erase i (lists.entries (head_of top bottom) g.heads) ++ (i ∷ [])

  at_end :
      (h : VgHead) (i : ℕ) (s : Heads)
      → lists.entries h (lists.list_add_tail i h (lists.list_del i s))
        ≡ erase i (lists.entries h s) ++ (i ∷ [])
  at_end h i s =
      laws.add i h (lists.list_del i s) ∙ ap (λ (l : List ℕ). l ++ (i ∷ [])) (laws.del i h s)

  sort_group-IsSorted :
      (g : Groups Heads) (i : ℕ) (top bottom : Bool)
      → IsSorted g i top bottom (sort_group lists g i (top, bottom))
  unfolding sort_group
  sort_group-IsSorted g i true true = record {
    status =
        ap (λ (v : VirtualGroup). v.vg_status)
          (update_self g.vg i (record (g.vg i) { vg_status = vg_constrain }));
    listed = at_end constrained_head i g.heads;
  }
  sort_group-IsSorted g i true false = record {
    status =
        ap (λ (v : VirtualGroup). v.vg_status)
          (update_self g.vg i
            (record (g.vg i) { vg_status = vg_random; current_track = (g.vg i).top_start }));
    listed = at_end random_head i g.heads;
  }
  sort_group-IsSorted g i false true = record {
    status =
        ap (λ (v : VirtualGroup). v.vg_status)
          (update_self g.vg i
            (record (g.vg i) { vg_status = vg_random; current_track = (g.vg i).bottom_start }));
    listed = at_end random_head i g.heads;
  }
  sort_group-IsSorted g i false false = record {
    status =
        ap (λ (v : VirtualGroup). v.vg_status)
          (update_self g.vg i (record (g.vg i) { vg_status = vg_free }));
    listed = at_end free_head i g.heads;
  }

  -- For a group of the disk that is not in use, whose lists are lists, `_update_vg_list` returns: the
  -- group is constrained if a top and a bottom track of it are in use, random if only one kind is, and
  -- free otherwise, and it is the last of the list of that state; the last track of the group is not
  -- looked at.
  pub update_group-IsSorted :
      (d : Disk) (i : ℕ) (g : Groups Heads)
      → (g.vg i).in_use ≡ false
      → (g.vg i).lower_border ≤ (g.vg i).higher_border
      → (g.vg i).higher_border < d.report.max_block_num
      → Returns (update_group lists d i g) (λ g'.
        (top : Bool) × (bottom : Bool) × Has
          (top_used d)
          (g.vg i).lower_border
          (g.vg i).higher_border
          top
        × Has (bottom_used d) (g.vg i).lower_border (g.vg i).higher_border bottom
        × IsSorted g i top bottom g')
  unfolding update_group group_data
  update_group-IsSorted d i g unused ordered inside =
      let lower = (g.vg i).lower_border in
      let n = (g.vg i).higher_border - lower in
      let e : lower + n ≡ (g.vg i).higher_border = omega arith in
      let runs = find_data-some_track d n lower false false (omega arith) in
      let top = some_track (top_used d) n lower in
      let bottom = some_track (bottom_used d) n lower in
      (
        sort_group lists g i (top, bottom),
        by_use (g.vg i).in_use unused
            ∙ ap (λ m. m >>= λ found. ok (sort_group lists g i found)) runs,
        (
          top,
          bottom,
          rw e at (some_track-Has (top_used d) n lower),
          rw e at (some_track-Has (bottom_used d) n lower),
          sort_group-IsSorted g i top bottom,
        ),
      )
    where
      by_use :
          (b : Bool)
          → b ≡ false
          → Path
              (Outcome (Groups Heads))
              (elim b [
                | true ↦ ok g
                | false ↦ group_data d (g.vg i) >>= λ found. ok (sort_group lists g i found)
              ])
              (group_data d (g.vg i) >>= λ found. ok (sort_group lists g i found))
      by_use false e = refl
      by_use true e = cc
