-- ===== src/HashTable/Laws.antt =====
-- src/hash_table.c: what the three operations do to a table whose items can be reached.
use native.Mathlib.Nat.{mod-lt}
use native.Mathlib.Decide.{dec_lt, ℕ_discrete}
use imr_dedupe.Prelude.{
  ℕ, ◌<◌, ◌≡◌, ◌≢◌, ◌⊎◌, refl, sym, ap, ◌∙◌, true, false, [], Option, none, some, stop, out_of_fuel,
  Returns, arith, Bool-cases, Option-cases, inl, inr,
}
use imr_dedupe.Disk.{Hash, DataItem, Disk}
use imr_dedupe.Disk.Compare.{hash_eq→eq}
use imr_dedupe.HashTable.{Cells, hash_code, probe, holds, is_null, search_stop, search_item}
use imr_dedupe.HashTable.Probe.{path, steps, path-steps, First, probe-Returns, probe-out_of_fuel}

-- No empty cell lies on the path from the home of an item that is not deleted to its cell.
abbrev pub IsReachable : Cells → ℕ → Type 0
IsReachable cells size =
    (i : ℕ) (item : DataItem) (k : ℕ)
    → i < size
    → cells i ≡ some item
    → item.hash ≢ []
    → k < size
    → path size (hash_code item.hash size) k ≡ i
    → (j : ℕ) → j < k
    → is_null cells (path size (hash_code item.hash size) j) ≡ false

-- The hash table has two NULL cells, and its items can be reached.
pub record IsRoomy (d : Disk) : Type 0 where
  pub a : ℕ
  pub b : ℕ
  pub reachable : IsReachable d.hash_table d.report.max_track_num
  pub inside_a : a < d.report.max_track_num
  pub inside_b : b < d.report.max_track_num
  pub empty_a : d.hash_table a ≡ none
  pub empty_b : d.hash_table b ≡ none
  pub apart : a ≢ b

-- What a search of the table for the hash may return: an item with the hash, or NULL if no cell
-- holds the hash.
abbrev pub Found : Cells → ℕ → Hash → Option DataItem → Type 0
Found cells size hash r =
    ((i : ℕ) × (i < size) × (r ≡ cells i) × (holds cells hash i ≡ true))
    ⊎ ((r ≡ none) × ((i : ℕ) → i < size → holds cells hash i ≡ false))

pub code-lt : (hash : Hash) (size : ℕ) → 0 < size → hash_code hash size < size
unfolding hash_code
code-lt hash size pos = mod-lt _ pos

module _ (cells : Cells) (hash : Hash) where
  pub null_stops : (c : ℕ) → is_null cells c ≡ true → search_stop cells hash c ≡ true
  unfolding search_stop
  null_stops c h = ground arith

  pub held_stops : (c : ℕ) → holds cells hash c ≡ true → search_stop cells hash c ≡ true
  unfolding search_stop
  held_stops c h = ground arith

  pub stop_cases :
      (c : ℕ) → search_stop cells hash c ≡ true → (holds cells hash c ≡ true) ⊎ (cells c ≡ none)
  unfolding search_stop
  stop_cases c h = elim (Option-cases (cells c)) [
    | inl e ↦ inr e
    | inr (item, e) ↦ inl (rw e (rw (search_stop, e) at h))
  ]

  passed :
      (c : ℕ)
      → is_null cells c ≡ false
      → holds cells hash c ≡ false
      → search_stop cells hash c ≡ false
  unfolding search_stop
  passed c n h = ground arith

  pub item_of_held :
      (c : ℕ)
      → holds cells hash c ≡ true
      → (item : DataItem) × (cells c ≡ some item) × (item.hash ≡ hash)
  item_of_held c h = elim (Option-cases (cells c)) [
    | inl e ↦ let h' = rw e at h in cc
    | inr (item, e) ↦ (item, e, hash_eq→eq item.hash hash (rw e at h))
  ]

  module _ (size : ℕ) (valid : IsReachable cells size) (real : hash ≢ []) where
    -- A search that ends at an empty cell has passed no cell with the hash, and missed none.
    pub stop_at_null :
        (r n : ℕ)
        → n < size
        → First (search_stop cells hash) size (hash_code hash size) r n
        → cells r ≡ none
        → (i : ℕ) → i < size
        → holds cells hash i ≡ false
    stop_at_null r n few f e i inside = elim (Bool-cases (holds cells hash i)) [
      | inr no_hash ↦ no_hash
      | inl h ↦
          let home = hash_code hash size in
          let k = steps size home i in
          let (there, few') = path-steps size home i (code-lt hash size (omega arith)) inside in
          let (item, content, same) = item_of_held i h in
          let stops = held_stops i h in
          elim (dec_lt k n) [
            | yes lt ↦ let b = f.before k lt in cc (ap (search_stop cells hash) there)
            | no ge ↦ elim (ℕ_discrete k n) [
              | yes eq ↦
                  let r_eq : r ≡ i = sym f.at ∙ ap (path size home) (sym eq) ∙ there in
                  let none_here : cells i ≡ none = ap cells (sym r_eq) ∙ e in
                  let h' = rw none_here at h in cc
              | no ne ↦
                  let there' : path size (hash_code item.hash size) k ≡ i =
                    ap (λ (x : Hash). path size (hash_code x size) k) same ∙ there in
                  let b =
                    valid i item k inside content (λ z. real (sym same ∙ z)) few' there' n
                      (omega arith) in
                  let b' : is_null cells r ≡ false =
                    sym (
                      ap (is_null cells)
                        (ap (λ (x : Hash). path size (hash_code x size) n) same ∙ f.at))
                    ∙ b in
                  let b'' = rw e at b' in cc
            ]
          ]
    ]

-- A search for a hash that is not empty, in a table whose items can be reached and which has an
-- empty cell, returns an item with the hash if a cell holds one, and NULL if none does.
pub search_item-Found :
    (d : Disk) (hash : Hash) (c : ℕ)
    → IsReachable d.hash_table d.report.max_track_num
    → hash ≢ []
    → c < d.report.max_track_num
    → d.hash_table c ≡ none
    → Returns (search_item d hash) (Found d.hash_table d.report.max_track_num hash)
unfolding search_item
search_item-Found d hash c valid real inside empty =
    let cells = d.hash_table in
    let size = d.report.max_track_num in
    let (r, runs, (n, few, inside', f)) =
      probe-Returns (search_stop cells hash) size (hash_code hash size) c
        (code-lt hash size (omega arith)) inside (null_stops cells hash c (rw empty refl)) in
    (
      cells r,
      rw runs refl,
      elim (stop_cases cells hash r f.halts) [
        | inl h ↦ inl (r, inside', refl, h)
        | inr e ↦ inr (e, stop_at_null cells hash size valid real r n few f e)
      ],
    )

-- In a table with no empty cell, a search for a hash that no cell holds does not end.
pub search_loop-out_of_fuel :
    (cells : Cells) (hash : Hash) (size fuel : ℕ)
    → 0 < size
    → ((c : ℕ) → c < size → is_null cells c ≡ false)
    → ((c : ℕ) → c < size → holds cells hash c ≡ false)
    → probe (search_stop cells hash) size fuel (hash_code hash size) ≡ stop out_of_fuel
search_loop-out_of_fuel cells hash size fuel pos full absent =
    probe-out_of_fuel (search_stop cells hash) size fuel (hash_code hash size)
      (code-lt hash size pos) (λ c l. passed cells hash c (full c l) (absent c l))
