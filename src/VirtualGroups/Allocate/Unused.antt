-- ===== src/VirtualGroups/Allocate/Unused.antt =====
-- src/virtual_groups.c (vg_get_block): the block that a write gets was not in use.
use imr_dedupe.Prelude.{
  ℕ, ◌≡◌, ◌⊎◌, refl, sym, ap, subst, ◌∙◌, Bool, true, false, not, List, [], ◌∷◌, Option, none, some,
  ltb, ◌==◌, if◌then◌else◌, update, update_self, update_ne, ok, require, undefined, aborted, Holds,
  Holds-bind, Holds-chain, arith, Bool-cases, inl, inr,
}
use imr_dedupe.Disk.{Disk, booked, set_status, storage_is_in_use}
use imr_dedupe.Dedupe.Release.{member}
use imr_dedupe.FidTable.{FileAttr}
use imr_dedupe.VirtualGroups.{
  free_head, random_head, constrained_head, add_to, ListOps, IsList, VirtualGroup, VgStatus,
  vg_free, vg_random, vg_constrain, vg_jfs, Groups, Current, is_hot, set_group, set_current,
  vg_init_attr, get_vg, set_vg,
}
use imr_dedupe.VirtualGroups.Allocate.{
  Search, this_of, go_on_at, continue_current, vg_get_from_current_vg, take_free,
  vg_get_from_free_list, vg_get_from_random_list, vg_get_from_constrained_list, GotBlock,
  book_current, get_current_block, or_else, unless_identical, take_found, vg_get_block,
}
use imr_dedupe.VirtualGroups.Allocate.Searches.{
  IsUnused, find_track-IsUnused, IsFound, Anything, AreFree, first_track, get_vg-Taken,
  vg_get_from_random_list-IsFound, vg_get_from_constrained_list-IsFound,
  vg_get_from_all_list-IsFound, set_current_track-IsReady, another-IsFound,
}

module _ {Heads : Type 0} (lists : ListOps Heads) (d : Disk) (laws : IsList lists) (attr : FileAttr)
    (P : ℕ → Type 0) (accept : (track : ℕ) → storage_is_in_use d track ≡ false → P track) where
  AreFree-put :
      (g : Groups Heads) (i : ℕ) (v : VirtualGroup)
      → first_track attr v ≡ first_track attr (g.vg i)
      → AreFree lists d P accept attr g
      → (s : Heads) → lists.entries free_head s ≡ lists.entries free_head g.heads
      → AreFree lists d P accept attr (record (set_group g i v) { heads = s })
  AreFree-put g i v same_track free s e vg m =
      let p = free vg (rw e at m) in
      elim (Bool-cases (i == vg)) [
        | inr other ↦ rw (update_ne g.vg i vg v other) p
        | inl same ↦
            let same' : vg ≡ i = ground arith in
            rw (same', update_self g.vg i v, same_track) (rw same' at p)
      ]

  set_vg-AreFree :
      (g : Groups Heads) (i : ℕ)
      → AreFree lists d P accept attr g
      → AreFree lists d P accept attr (set_vg lists g i)
  unfolding set_vg
  set_vg-AreFree g i free = by_status (g.vg i).vg_status
    where
      by_status :
          (s : VgStatus)
          → let vg = record (g.vg i) { start_track = (g.vg i).lower_border; in_use = false } in
            (AreFree lists d P accept attr) (elim s [
              | vg_free ↦ add_to lists random_head g i (record vg { vg_status = vg_random })
              | vg_random ↦ add_to lists constrained_head g i (record vg {
                vg_status = vg_constrain;
                current_track = if is_hot vg.f_attr then vg.bottom_start else vg.top_start;
              })
              | vg_constrain ↦ add_to lists constrained_head g i vg
              | vg_jfs ↦ set_group g i vg
            ])
      by_status vg_free =
          AreFree-put g i _ refl free _ (laws.add_other i random_head free_head g.heads refl)
      by_status vg_random =
          AreFree-put g i _ refl free _ (laws.add_other i constrained_head free_head g.heads refl)
      by_status vg_constrain =
          AreFree-put g i _ refl free _ (laws.add_other i constrained_head free_head g.heads refl)
      by_status vg_jfs = AreFree-put g i _ refl free g.heads refl

  current-IsFound :
      (g : Groups Heads) (this : Current) (o : Option ℕ)
      → g.this_vg ≡ some this
      → g.current_vg this ≡ o
      → AreFree lists d P accept attr g
      → Holds
          (IsFound lists d P accept (AreFree lists d P accept attr))
          (continue_current lists d g this o)
  unfolding continue_current go_on_at set_vg
  current-IsFound g this none chosen e free = free
  current-IsFound g this (some vg) chosen e free =
      Holds-chain (IsFound lists d P accept (AreFree lists d P accept attr)) _ _
        (find_track-IsUnused d 2 _ (g.vg vg).current_track) by_track
    where
      by_track :
          (found : Option ℕ)
          → IsUnused d found
          → Holds (IsFound lists d P accept (AreFree lists d P accept attr)) (
              let (success, g') = go_on_at lists g vg found in
              ok (success, if success then g' else set_current g' this none))
      by_track none u = set_vg-AreFree g vg free
      by_track (some track) u =
          set_current_track-IsReady lists d P accept g this vg track chosen e (accept track u)

  take_free-IsFound :
      (g : Groups Heads) (l : List ℕ)
      → l ≡ lists.entries free_head g.heads
      → AreFree lists d P accept attr g
      → Holds (IsFound lists d P accept (Anything lists d P accept)) (take_free lists attr g l)
  unfolding take_free vg_init_attr
  take_free-IsFound g [] e free = tt
  take_free-IsFound g (vg ∷ rest) e free =
      let first : member vg (lists.entries free_head g.heads) ≡ true = rw (← e) (ground arith) in
      let start = free vg first in
      let g₁ = set_group g vg (vg_init_attr (g.vg vg) attr) in
      Holds-bind (IsFound lists d P accept (Anything lists d P accept))
        (require (not (g.vg vg).in_use) aborted) _
        (λ _.
          Holds-chain (IsFound lists d P accept (Anything lists d P accept))
            (get_vg lists g₁ vg g.this_vg) _ (get_vg-Taken lists d P accept g₁ vg g.this_vg refl)
            (λ g' t. record {
              this = t.this;
              vg = vg;
              chosen = t.chosen;
              current = t.current;
              accepted =
                  let track =
                    ap (λ (v : VirtualGroup). v.current_track)
                      (update_self g'.vg vg (record (g'.vg vg) { vg_status = vg_random })
                        ∙ (λ i. record (t.group i) { vg_status = vg_random })) in
                  let here =
                    ap (λ (v : VirtualGroup). v.current_track)
                      (update_self g.vg vg (vg_init_attr (g.vg vg) attr)) in
                  subst P (sym (track ∙ here)) start;
            }))

  or_else-IsFound :
      (Q : Groups Heads → Type 0) (search : Groups Heads → Search Heads) (r : Bool × Groups Heads)
      → ((g : Groups Heads)
          → Q g
          → Holds (IsFound lists d P accept (Anything lists d P accept)) (search g))
      → IsFound lists d P accept Q r
      → Holds (IsFound lists d P accept (Anything lists d P accept)) (or_else search r)
  or_else-IsFound Q search (true, g) h f = f
  or_else-IsFound Q search (false, g) h f = h g f

  unless-IsFound :
      (search : Groups Heads → Search Heads) (g : Groups Heads)
      → Holds (IsFound lists d P accept (Anything lists d P accept)) (search g)
      → Holds (IsFound lists d P accept (Anything lists d P accept)) (unless_identical search g)
  unless-IsFound search g h = go g.identical_attr_files
    where
      go :
          (b : Bool)
          → Holds
              (IsFound lists d P accept (Anything lists d P accept))
              (elim b [ true ↦ ok (false, g) | false ↦ search g ])
      go true = tt
      go false = h

  -- The block has `P`, and is booked; no other block changes.
  abbrev pub IsTaken : GotBlock Heads → Type 0
  IsTaken r =
      P r.2
      × (r.0 ≡ record d { storage = update d.storage r.2 (set_status booked (d.storage r.2)) })

  take_found-IsTaken :
      (r : Bool × Groups Heads)
      → IsFound lists d P accept (Anything lists d P accept) r
      → Holds IsTaken (take_found d r)
  unfolding take_found get_current_block book_current
  take_found-IsTaken (false, g) f = tt
  take_found-IsTaken (true, g) f =
      rw (f.chosen, f.current)
        (Holds-bind IsTaken
          (require (ltb (g.vg f.vg).current_track d.report.max_block_num) undefined) _
          (λ _. (f.accepted, refl)))

  pub vg_get_block-IsTaken :
      (g : Groups Heads)
      → AreFree lists d P accept attr g
      → Holds IsTaken (vg_get_block lists d attr g)
  unfolding vg_get_block vg_get_from_current_vg vg_get_from_free_list
  vg_get_block-IsTaken g free =
      let this = this_of (is_hot attr) in
      Holds-chain IsTaken _ (take_found d)
        (Holds-chain (IsFound lists d P accept (Anything lists d P accept)) _ _
          (Holds-chain (IsFound lists d P accept (Anything lists d P accept)) _ _
            (Holds-chain (IsFound lists d P accept (Anything lists d P accept)) _ _
              (Holds-chain (IsFound lists d P accept (Anything lists d P accept)) _ _
                (Holds-chain (IsFound lists d P accept (Anything lists d P accept)) _ _
                  (current-IsFound (record g { this_vg = some this }) this (g.current_vg this) refl
                    refl free)
                  (λ r. or_else-IsFound (AreFree lists d P accept attr) _ r (λ g' free'.
                    unless-IsFound (vg_get_from_free_list lists attr) g'
                      (take_free-IsFound g' _ refl free'))))
                (λ r. or_else-IsFound (Anything lists d P accept) _ r (λ g' _.
                  unless-IsFound (vg_get_from_random_list lists d attr) g'
                    (vg_get_from_random_list-IsFound lists d P accept attr g'))))
              (λ r. or_else-IsFound (Anything lists d P accept) _ r (λ g' _.
                unless-IsFound (vg_get_from_constrained_list lists d attr) g'
                  (vg_get_from_constrained_list-IsFound lists d P accept attr g'))))
            (λ r.
              or_else-IsFound (Anything lists d P accept) _ r
                (λ g' _. vg_get_from_all_list-IsFound lists d P accept g')))
          (λ r.
            or_else-IsFound (Anything lists d P accept) _ r
              (λ g' _. another-IsFound lists d P accept attr g')))
        take_found-IsTaken

-- Nothing is in the block, or a group of the list of free groups starts with it.
abbrev pub IsUnusedOrFirst :
    {Heads : Type 0} → ListOps Heads → Disk → FileAttr → Groups Heads → ℕ → Type 0
IsUnusedOrFirst lists d attr g track =
    (storage_is_in_use d track ≡ false)
    ⊎ ((vg : ℕ) × (member vg (lists.entries free_head g.heads) ≡ true)
        × (track ≡ first_track attr (g.vg vg)))

-- A block that `vg_get_block` returns, whichever of its searches found it, was not in use, or it is the
-- track that a group of the list of free groups starts with, which is taken without a test: the current
-- top track for a hot file and the current bottom track for another. The block is booked in the disk
-- that is returned, in which nothing else changes. The lists are lists.
pub vg_get_block-IsBooked :
    {Heads : Type 0} (lists : ListOps Heads) (d : Disk) (attr : FileAttr) (g : Groups Heads)
    → IsList lists
    → Holds
        (λ r.
          IsUnusedOrFirst lists d attr g r.2
          × (r.0 ≡ record d { storage = update d.storage r.2 (set_status booked (d.storage r.2)) }))
        (vg_get_block lists d attr g)
vg_get_block-IsBooked lists d attr g laws =
    vg_get_block-IsTaken lists d laws attr (IsUnusedOrFirst lists d attr g) (λ track e. inl e) g
      (λ vg m. inr (vg, m, refl))
