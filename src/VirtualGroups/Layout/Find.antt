-- ===== src/VirtualGroups/Layout/Find.antt =====
-- src/virtual_groups.c (pba_to_vg, track_to_vg_index): the two ways to the group of a track.
use native.Mathlib.Nat.{mul-le-mul_right, suc-mul, div-add-mod', mod-lt, lt_of_mul-lt-mul_right}
use imr_dedupe.Prelude.{
  ℕ, zero, suc, ◌+◌, ◌-◌, ◌*◌, ◌/◌, ◌≤◌, ◌<◌, ◌≡◌, ap, ◌∙◌, true, false, ◌&&◌, Option, some, leb,
  ok, arith, Bool-cases, inl, inr, ltb,
}
use imr_dedupe.VirtualGroups.{Groups, find_group, pba_to_vg, track_to_vg_index}
use imr_dedupe.VirtualGroups.Layout.{IsLayout}

module _ {Heads : Type 0} (max track : ℕ) (g : Groups Heads) (l : IsLayout max g)
    (inside : track < max) where
  index : ℕ
  index = track / g.granularity

  index-borders : (index * g.granularity ≤ track) × (track < suc index * g.granularity)
  unfolding index
  index-borders =
      let parts = div-add-mod' track g.granularity in
      let few = mod-lt track l.some_track in
      let next = suc-mul (track / g.granularity) g.granularity in (omega arith, omega arith)

  index-inside : index < g.num_of_groups
  index-inside =
      let (from, to) = index-borders in
      let fits = l.last_fits in lt_of_mul-lt-mul_right g.granularity (omega arith)

  index-higher : track ≤ (g.vg index).higher_border
  index-higher =
      let (from, to) = index-borders in
      let below = index-inside in
      elim (Bool-cases (ltb (suc index) g.num_of_groups)) [
        | inl e ↦ let h = l.higher index (ground arith) in omega arith
        | inr e ↦
            let more : g.num_of_groups ≤ suc index = ground arith in
            let h = l.last index (omega arith) in omega arith
      ]

  -- Every group before ends before the track.
  before-index : (i : ℕ) → i < index → (g.vg i).higher_border < track
  before-index i lt =
      let (from, to) = index-borders in
      let below = index-inside in
      let h = l.higher i (omega arith) in
      let room : suc i * g.granularity ≤ index * g.granularity =
        mul-le-mul_right g.granularity lt in
      omega arith

  find_group-index :
      (m i rest : ℕ)
      → i + m ≡ index
      → find_group g track (suc (m + rest)) (some i) ≡ ok (some index)
  unfolding find_group
  find_group-index zero i rest e =
      let here : i ≡ index = omega arith in
      let (from, to) = index-borders in
      let lower = l.lower index index-inside in
      let higher = index-higher in
      let found : leb (g.vg index).lower_border track && leb track (g.vg index).higher_border
          ≡ true =
        rw lower (ground arith) in
      let found' : leb (g.vg i).lower_border track && leb track (g.vg i).higher_border ≡ true =
        rw here found in
      rw (find_group, found') (ap (λ (n : ℕ). ok (some n)) here)
  find_group-index (suc m) i rest e =
      let passed = before-index i (omega arith) in
      let below = index-inside in
      let no : leb (g.vg i).lower_border track && leb track (g.vg i).higher_border ≡ false =
        ground arith in
      let fuel : suc m + rest ≡ suc (m + rest) = omega arith in
      rw (find_group, no, l.next i (omega arith), fuel)
        (find_group-index m (suc i) rest (omega arith))

-- In groups that divide the tracks as after the start, `pba_to_vg` returns, for each track of the
-- disk, the group that `track_to_vg_index` computes; it is a group, and the only one whose borders
-- enclose the track.
pub pba_to_vg-track_to_vg_index :
    {Heads : Type 0} (max track : ℕ) (g : Groups Heads)
    → IsLayout max g
    → track < max
    → (pba_to_vg g track ≡ ok (some (track_to_vg_index g track)))
      × (track_to_vg_index g track < g.num_of_groups)
      × ((i : ℕ)
          → i < g.num_of_groups
          → (g.vg i).lower_border ≤ track
          → track ≤ (g.vg i).higher_border
          → i ≡ track_to_vg_index g track)
unfolding pba_to_vg track_to_vg_index index
pba_to_vg-track_to_vg_index max track g l inside =
    let k = index max track g l inside in
    let below = index-inside max track g l inside in
    let fuel : g.num_of_groups + 1 ≡ suc (k + (g.num_of_groups - k)) = omega arith in
    (
      ap (λ (p : Option ℕ). find_group g track (g.num_of_groups + 1) p) l.head
          ∙ ap (λ (n : ℕ). find_group g track n (some 0)) fuel
          ∙ find_group-index max track g l inside k 0 (g.num_of_groups - k) (omega arith),
      below,
      λ i few from to. elim (Bool-cases (ltb i k)) [
        | inl e ↦
            let passed = before-index max track g l inside i (ground arith) in absurd (omega arith)
        | inr e ↦ elim (Bool-cases (ltb k i)) [
          | inr f ↦ ground arith
          | inl f ↦
              let (a, b) = index-borders max track g l inside in
              let after : k < i = ground arith in
              let room : suc k * g.granularity ≤ i * g.granularity =
                mul-le-mul_right g.granularity after in
              let lower = l.lower i few in absurd (omega arith)
        ]
      ],
    )
