-- ===== src/Dedupe/Search/Most.antt =====
-- src/block_swap.c (find_empty_block_swap): the top track that a swap takes.
use imr_dedupe.Prelude.{
  ℕ, zero, suc, ◌+◌, ◌*◌, ◌/◌, ◌%◌, ◌≤◌, ◌<◌, ◌≡◌, ◌⊎◌, refl, Bool, true, false, ◌&&◌, ltb, arith,
  Bool-cases, inl, inr,
}
use imr_dedupe.Disk.{Disk, is_in_use}
use imr_dedupe.Dedupe.Search.{minus_one, most_shared, find_empty_block_swap}

-- The best of the top tracks before `last`: its owners beside the first are `best`, and no track in
-- use has more.
abbrev IsBest : Disk → (last best pba : ℕ) → Type 0
IsBest d last best pba =
    ((j : ℕ)
      → j % 2 ≡ 1
      → j < last
      → is_in_use (d.storage j).status ≡ true
      → (d.storage j).referenced_count ≤ best)
    × (((best ≡ 0) × (pba ≡ minus_one))
        ⊎ ((0 < best)
            × (pba % 2 ≡ 1)
            × (pba < last)
            × (is_in_use (d.storage pba).status ≡ true)
            × ((d.storage pba).referenced_count ≡ best)))

-- No top track in use is shared, or this is one of those that most logical blocks share.
abbrev pub IsMostShared : Disk → ℕ → Type 0
IsMostShared d pba =
    ((pba ≡ minus_one)
      × ((j : ℕ)
          → j % 2 ≡ 1
          → j < d.report.max_track_num
          → is_in_use (d.storage j).status ≡ true
          → (d.storage j).referenced_count ≡ 0))
    ⊎ ((pba % 2 ≡ 1)
        × (pba < d.report.max_track_num)
        × (is_in_use (d.storage pba).status ≡ true)
        × (0 < (d.storage pba).referenced_count)
        × ((j : ℕ)
            → j % 2 ≡ 1
            → j < d.report.max_track_num
            → is_in_use (d.storage j).status ≡ true
            → (d.storage j).referenced_count ≤ (d.storage pba).referenced_count))

-- One more track that is not better.
worse :
    (d : Disk) (i best pba : ℕ)
    → i % 2 ≡ 1
    → (is_in_use (d.storage i).status && ltb best (d.storage i).referenced_count) ≡ false
    → IsBest d i best pba
    → IsBest d (i + 2) best pba
worse d i best pba top e (bound, source) = (
  λ j odd below used. elim (Bool-cases (ltb j i)) [
    | inl before ↦ bound j odd (ground arith) used
    | inr after ↦
        let here : j ≡ i = ground arith in
        let used' = rw here at used in let e' = rw used' at e in rw here (ground arith)
  ],
  elim source [
    | inl nothing ↦ inl nothing
    | inr (shared, odd, below, used, same) ↦ inr (shared, odd, omega arith, used, same)
  ],
)

better :
    (d : Disk) (i best pba : ℕ)
    → i % 2 ≡ 1
    → is_in_use (d.storage i).status ≡ true
    → best < (d.storage i).referenced_count
    → IsBest d i best pba
    → IsBest d (i + 2) (d.storage i).referenced_count i
better d i best pba top used more (bound, source) = (
  λ j odd below used'. elim (Bool-cases (ltb j i)) [
    | inl before ↦ let b = bound j odd (ground arith) used' in omega arith
    | inr after ↦ let here : j ≡ i = ground arith in rw here (omega arith)
  ],
  inr (omega arith, top, omega arith, used, refl),
)

most_shared-IsBest :
    (d : Disk) (n i best pba : ℕ)
    → i % 2 ≡ 1
    → IsBest d i best pba
    → (best' : ℕ) × IsBest d (i + 2 * n) best' (most_shared d n i best pba)
unfolding most_shared
most_shared-IsBest d zero i best pba top b =
    (best, let here : i + 2 * 0 ≡ i = omega arith in rw here b)
most_shared-IsBest d (suc n) i best pba top b =
    let next : i + 2 * suc n ≡ i + 2 + 2 * n = omega arith in
    elim (Bool-cases (is_in_use (d.storage i).status && ltb best (d.storage i).referenced_count)) [
      | inl e ↦
          let (used, more) = parts (is_in_use (d.storage i).status) e in
          let (best', r) =
            most_shared-IsBest d n (i + 2) (d.storage i).referenced_count i (omega arith)
              (better d i best pba top used (ground arith) b) in
          (best', rw (most_shared, e, next) r)
      | inr e ↦
          let (best', r) =
            most_shared-IsBest d n (i + 2) best pba (omega arith) (worse d i best pba top e b) in
          (best', rw (most_shared, e, next) r)
    ]
  where
    parts : (u : Bool) {v : Bool} → (u && v) ≡ true → (u ≡ true) × (v ≡ true)
    parts true e = (refl, e)
    parts false e = cc

-- A search for the top track of a swap returns minus one if no top track in use is shared, and
-- otherwise a top track in use that is shared and that no other one exceeds in its owners.
pub find_empty_block_swap-IsMostShared : (d : Disk) → IsMostShared d (find_empty_block_swap d)
unfolding find_empty_block_swap
find_empty_block_swap-IsMostShared d =
    let half = d.report.max_track_num / 2 in
    let (best, (bound, source)) =
      most_shared-IsBest d half 1 0 minus_one refl
        (λ j odd below used. absurd (omega arith), inl (refl, refl)) in
    elim source [
      | inl (unshared, absent) ↦
          inl (absent, λ j odd below used. let b = bound j odd (omega arith) used in omega arith)
      | inr (shared, odd, below, used, same) ↦ inr (
        odd,
        omega arith,
        used,
        omega arith,
        λ j odd' below' used'. let b = bound j odd' (omega arith) used' in omega arith,
      )
    ]
