-- ===== src/VirtualGroups/Allocate/Searches.antt =====
-- src/virtual_groups.c: what the searches for a group find is not in use.
use imr_dedupe.Prelude.{
  ℕ, zero, suc, ◌+◌, ◌≡◌, refl, sym, subst, if◌then◌else◌, Bool, true, false, not, List, [], ◌∷◌,
  Option, none, some, ltb, update_self, Outcome, ok, stop, ◌>>=◌, ◌>>◌, require, undefined, Holds,
  Holds-bind, Holds-chain,
}
use imr_dedupe.Disk.{Disk, storage_is_in_use}
use imr_dedupe.Dedupe.Release.{member}
use imr_dedupe.FidTable.{FileAttr}
use imr_dedupe.VirtualGroups.{
  free_head, constrained_head, ListOps, VirtualGroup, Groups, Current, hot_vg, cold_vg, journal_vg,
  current_eq, is_hot, set_current_track, get_vg,
}
use imr_dedupe.VirtualGroups.Allocate.{
  find_track, is_unused, find_unused, find_any_unused, find_in_group, Search, this_of, not_in_use,
  go_on_at, continue_other, vg_get_from_another_current, take_at, try_groups, vg_get_from_all_list,
  vg_get_from_random_list, vg_get_from_constrained_list,
}

-- A track that is found is one that the test accepts.
abbrev pub FoundSome : (ℕ → Type 0) → Option ℕ → Type 0
FoundSome P none = Unit {0}
FoundSome P (some track) = P track

abbrev pub IsUnused : Disk → Option ℕ → Type 0
IsUnused d = FoundSome (λ track. storage_is_in_use d track ≡ false)

pub find_track-FoundSome :
    (P : ℕ → Type 0) (test : ℕ → Outcome Bool) (step n i : ℕ)
    → ((track : ℕ) → Holds (λ accepted. accepted ≡ true → P track) (test track))
    → Holds (FoundSome P) (find_track test step n i)
unfolding find_track
find_track-FoundSome P test step zero i h = tt
find_track-FoundSome P test step (suc n) i h =
    Holds-chain (FoundSome P) (test i) _ (h i) (λ accepted p.
      go accepted p (find_track test step n (i + step))
        (find_track-FoundSome P test step n (i + step) h))
  where
    go :
        (accepted : Bool)
        → (accepted ≡ true → P i)
        → (rest : Outcome (Option ℕ)) → Holds (FoundSome P) rest
        → Holds (FoundSome P) (elim accepted [ true ↦ ok (some i) | false ↦ rest ])
    go true p rest h = p refl
    go false p rest h = h

pub is_unused-unused :
    (d : Disk) (track : ℕ)
    → Holds (λ accepted. accepted ≡ true → storage_is_in_use d track ≡ false) (is_unused d track)
is_unused-unused d track = go (ltb track d.report.max_block_num) (storage_is_in_use d track) refl
  where
    go :
        (inside used : Bool)
        → storage_is_in_use d track ≡ used
        → Holds
            (λ accepted. accepted ≡ true → storage_is_in_use d track ≡ false)
            ((require inside undefined >> ok used) >>= λ used. ok (not used))
    go false used e = tt
    go true true e = λ k. cc
    go true false e = λ k. e

pub find_track-IsUnused :
    (d : Disk) (step n i : ℕ) → Holds (IsUnused d) (find_track (is_unused d) step n i)
find_track-IsUnused d step n i =
    find_track-FoundSome (λ track. storage_is_in_use d track ≡ false) (is_unused d) step n i
      (is_unused-unused d)

pub find_in_group-IsUnused :
    (d : Disk) (vg : VirtualGroup) → Holds (IsUnused d) (find_in_group d vg)
unfolding find_in_group
find_in_group-IsUnused d vg =
    go (find_unused d vg vg.current_track) (find_track-IsUnused d 2 _ vg.current_track)
  where
    go :
        (m : Outcome (Option ℕ))
        → Holds (IsUnused d) m
        → Holds (IsUnused d) (
            m >>= λ found. elim found [
              | some track ↦ ok (some track)
              | none ↦ find_any_unused d vg
            ])
    go (stop e) h = tt
    go (ok (some track)) h = h
    go (ok none) h = find_track-IsUnused d 1 _ vg.lower_border

-- The track that a group of the list of free groups starts with.
abbrev pub first_track : FileAttr → VirtualGroup → ℕ
first_track attr vg = if is_hot attr then vg.current_top_track else vg.current_bottom_track

-- `P` is what is known of the track that a search finds; a track that is not in use has it.
module _ {Heads : Type 0} (lists : ListOps Heads) (d : Disk) (P : ℕ → Type 0)
    (accept : (track : ℕ) → storage_is_in_use d track ≡ false → P track) where
  -- The current group that was chosen goes on at a track with `P`.
  pub record IsReady (g : Groups Heads) : Type 0 where
    pub this : Current
    pub vg : ℕ
    pub chosen : g.this_vg ≡ some this
    pub current : g.current_vg this ≡ some vg
    pub accepted : P (g.vg vg).current_track

  -- If a search found a group.
  abbrev pub IsFound : (Groups Heads → Type 0) → Bool × Groups Heads → Type 0
  IsFound otherwise (true, g) = IsReady g
  IsFound otherwise (false, g) = otherwise g

  abbrev pub Anything : Groups Heads → Type 0
  Anything g = Unit {0}

  -- The groups of the list of free groups start with tracks with `P`.
  abbrev pub AreFree : FileAttr → Groups Heads → Type 0
  AreFree attr g =
      (vg : ℕ) → member vg (lists.entries free_head g.heads) ≡ true → P (first_track attr (g.vg vg))

  pub record Taken (vg : ℕ) (old g : Groups Heads) : Type 0 where
    pub this : Current
    pub chosen : g.this_vg ≡ some this
    pub current : g.current_vg this ≡ some vg
    pub group : g.vg vg ≡ record (old.vg vg) { in_use = true }

  current_eq_refl : (c : Current) → current_eq c c ≡ true
  current_eq_refl hot_vg = refl
  current_eq_refl cold_vg = refl
  current_eq_refl journal_vg = refl

  pub get_vg-Taken :
      (g : Groups Heads) (vg : ℕ) (o : Option Current)
      → g.this_vg ≡ o
      → Holds (Taken vg g) (get_vg lists g vg o)
  unfolding get_vg
  get_vg-Taken g vg none e = tt
  get_vg-Taken g vg (some this) e = record {
    this = this;
    chosen = e;
    current = rw (current_eq_refl this) refl;
    group = update_self g.vg vg (record (g.vg vg) { in_use = true });
  }

  take_at-IsFound :
      (g : Groups Heads) (vg track : ℕ)
      → P track
      → Holds (IsFound Anything) (take_at lists g vg track)
  take_at-IsFound g vg track p =
      Holds-chain (IsFound Anything) (get_vg lists g vg g.this_vg)
        (λ g'. ok (true, set_current_track g' vg track)) (get_vg-Taken g vg g.this_vg refl)
        (λ g' t. record {
          this = t.this;
          vg = vg;
          chosen = t.chosen;
          current = t.current;
          accepted =
              subst (λ (v : VirtualGroup). P v.current_track)
                (sym (update_self g'.vg vg (record (g'.vg vg) { current_track = track }))) p;
        })

  try_groups-IsFound :
      (fits : VirtualGroup → Outcome Bool) (find : VirtualGroup → Outcome (Option ℕ))
      (g : Groups Heads) (l : List ℕ)
      → ((vg : VirtualGroup) → Holds (IsUnused d) (find vg))
      → Holds (IsFound Anything) (try_groups lists fits find g l)
  unfolding try_groups
  try_groups-IsFound fits find g [] h = tt
  try_groups-IsFound fits find g (vg ∷ rest) h =
      Holds-bind (IsFound Anything) (fits (g.vg vg)) _ (λ fit.
        by_fit fit (try_groups lists fits find g rest) (try_groups-IsFound fits find g rest h))
    where
      by_track :
          (found : Option ℕ)
          → IsUnused d found
          → (others : Search Heads) → Holds (IsFound Anything) others
          → Holds
              (IsFound Anything)
              (elim found [ some track ↦ take_at lists g vg track | none ↦ others ])
      by_track none u others ih = ih
      by_track (some track) u others ih = take_at-IsFound g vg track (accept track u)

      by_fit :
          (fit : Bool)
          → (others : Search Heads) → Holds (IsFound Anything) others
          → Holds (IsFound Anything) (elim fit [
            | false ↦ others
            | true ↦ find (g.vg vg) >>= λ found. elim found [
              | some track ↦ take_at lists g vg track
              | none ↦ others
            ]
          ])
      by_fit false others ih = ih
      by_fit true others ih =
          Holds-chain (IsFound Anything) (find (g.vg vg)) _ (h (g.vg vg))
            (λ found u. by_track found u others ih)

  pub vg_get_from_random_list-IsFound :
      (attr : FileAttr) (g : Groups Heads)
      → Holds (IsFound Anything) (vg_get_from_random_list lists d attr g)
  unfolding vg_get_from_random_list
  vg_get_from_random_list-IsFound attr g =
      try_groups-IsFound _ _ g _ (λ vg. find_track-IsUnused d 2 _ vg.current_track)

  pub vg_get_from_constrained_list-IsFound :
      (attr : FileAttr) (g : Groups Heads)
      → Holds (IsFound Anything) (vg_get_from_constrained_list lists d attr g)
  unfolding vg_get_from_constrained_list
  vg_get_from_constrained_list-IsFound attr g =
      try_groups-IsFound _ _ g _ (λ vg. find_track-IsUnused d 2 _ vg.current_track)

  pub vg_get_from_all_list-IsFound :
      (g : Groups Heads) → Holds (IsFound Anything) (vg_get_from_all_list lists d g)
  unfolding vg_get_from_all_list
  vg_get_from_all_list-IsFound g =
      Holds-chain (IsFound Anything) _ _ (try_groups-IsFound _ _ _ _ (find_in_group-IsUnused d))
        second
    where
      second :
          (r : Bool × Groups Heads)
          → IsFound Anything r
          → Holds (IsFound Anything) (elim r.0 [
            | true ↦ ok r
            | false ↦
                try_groups lists not_in_use
                  (find_in_group d)
                  r.1
                  (lists.entries constrained_head r.1.heads)
          ])
      second (true, g') h = h
      second (false, g') h = try_groups-IsFound _ _ _ _ (find_in_group-IsUnused d)

  pub set_current_track-IsReady :
      (g : Groups Heads) (this : Current) (vg track : ℕ)
      → g.this_vg ≡ some this
      → g.current_vg this ≡ some vg
      → P track
      → IsReady (set_current_track g vg track)
  set_current_track-IsReady g this vg track chosen current p = record {
    this = this;
    vg = vg;
    chosen = chosen;
    current = current;
    accepted =
        subst (λ (v : VirtualGroup). P v.current_track)
          (sym (update_self g.vg vg (record (g.vg vg) { current_track = track }))) p;
  }

  continue_other-IsFound :
      (g : Groups Heads) (this : Current) (o : Option ℕ)
      → g.this_vg ≡ some this
      → g.current_vg this ≡ o
      → Holds (IsFound Anything) (continue_other lists d g o)
  unfolding continue_other go_on_at
  continue_other-IsFound g this none chosen e = tt
  continue_other-IsFound g this (some vg) chosen e =
      Holds-chain (IsFound Anything) _ _ (find_track-IsUnused d 2 _ (g.vg vg).current_track)
        by_track
    where
      by_track :
          (found : Option ℕ)
          → IsUnused d found
          → Holds (IsFound Anything) (ok (go_on_at lists g vg found))
      by_track none u = tt
      by_track (some track) u = set_current_track-IsReady g this vg track chosen e (accept track u)

  pub another-IsFound :
      (attr : FileAttr) (g : Groups Heads)
      → Holds (IsFound Anything) (vg_get_from_another_current lists d attr g)
  unfolding vg_get_from_another_current
  another-IsFound attr g =
      let this = this_of (not (is_hot attr)) in
      continue_other-IsFound (record g { this_vg = some this }) this (g.current_vg this) refl refl
