-- ===== src/VirtualGroups/Swap/Least.antt =====
-- src/virtual_groups.c (dual_swap): which top track a bottom track changes places with.
use imr_dedupe.Prelude.{
  ℕ, zero, suc, ◌+◌, ◌-◌, ◌*◌, ◌^◌, ◌≤◌, ◌<◌, ◌≡◌, refl, sym, ap, ◌∙◌, subst, true, false, not,
  ◌&&◌, ◌||◌, Option, none, some, ltb, ◌==◌, update, update_self, update_ne, ok, stop, undefined,
  exit_failure, leb, ◌/◌, ◌≢◌, Returns, returns_map, returns_of_eq, arith, Bool-cases, inl, inr,
  ◌⊎◌,
}
use imr_dedupe.Disk.{
  Disk, BlockStatus, free, booked, in_use, trimed, invalid, end, is_booked, is_free, is_invalid,
  set_status, storage_is_free,
}
use imr_dedupe.Zalloc.Find.{rounds_of}
use imr_dedupe.VirtualGroups.{VirtualGroup}
use imr_dedupe.VirtualGroups.Swap.{swap_block, find_top, swap_with, dual_swap}

-- The `k`-th track from `track` on, of every second.
abbrev pub every_second : (track k : ℕ) → ℕ
every_second track k = track + 2 * k

-- Up to the first free track, none of them is free; a free one is found, and otherwise one that is not
-- booked, and has the least count of these, or the track before is kept.
pub record IsTop (d : Disk) (n track count : ℕ) (best : Option ℕ) (r : Option ℕ) : Type 0 where
  pub free_first :
      (k : ℕ)
      → k < n
      → storage_is_free d (every_second track k) ≡ true
      → ((j : ℕ) → j < k → storage_is_free d (every_second track j) ≡ false)
      → r ≡ some (every_second track k)
  pub least :
      ((k : ℕ) → k < n → storage_is_free d (every_second track k) ≡ false)
      → ((r ≡ best)
          × ((k : ℕ)
              → k < n
              → is_booked (d.storage (every_second track k)).status ≡ false
              → count ≤ (d.storage (every_second track k)).count))
        ⊎ ((k : ℕ) × (k < n)
            × (r ≡ some (every_second track k))
            × (is_booked (d.storage (every_second track k)).status ≡ false)
            × ((d.storage (every_second track k)).count < count)
            × ((j : ℕ)
                → j < n
                → is_booked (d.storage (every_second track j)).status ≡ false
                → (d.storage (every_second track k)).count
                  ≤ (d.storage (every_second track j)).count))

shifted : (track k : ℕ) → every_second (track + 2) k ≡ every_second track (suc k)
shifted track k = omega arith

module _ (d : Disk) (n track : ℕ) where
  abbrev status_at : ℕ → BlockStatus
  status_at k = (d.storage (every_second track k)).status

  abbrev count_at : ℕ → ℕ
  count_at k = (d.storage (every_second track k)).count

  at_first : every_second track 0 ≡ track
  at_first = omega arith

  -- The first of the tracks is not free.
  first-passed :
      (count : ℕ) (best r : Option ℕ)
      → storage_is_free d track ≡ false
      → IsTop d n (track + 2) count best r
      → (k : ℕ) → k < suc n
      → storage_is_free d (every_second track k) ≡ true
      → ((j : ℕ) → j < k → storage_is_free d (every_second track j) ≡ false)
      → r ≡ some (every_second track k)
  first-passed count best r taken t zero lt f before =
      let f' : storage_is_free d track ≡ true = ap (storage_is_free d) (sym at_first) ∙ f in cc
  first-passed count best r taken t (suc k) lt f before =
      t.free_first k (omega arith) (ap (storage_is_free d) (shifted track k) ∙ f)
        (λ j lt'. ap (storage_is_free d) (shifted track j) ∙ before (suc j) (omega arith))
      ∙ ap (λ (p : ℕ). some p) (shifted track k)

  none_after :
      ((k : ℕ) → k < suc n → storage_is_free d (every_second track k) ≡ false)
      → (k : ℕ) → k < n
      → storage_is_free d (every_second (track + 2) k) ≡ false
  none_after none_free k lt =
      ap (storage_is_free d) (shifted track k) ∙ none_free (suc k) (omega arith)

  -- A lower bound for the first track and for those after it.
  bound_all :
      (bound : ℕ)
      → (is_booked (d.storage track).status ≡ false → bound ≤ (d.storage track).count)
      → ((j : ℕ)
          → j < n
          → is_booked (d.storage (every_second (track + 2) j)).status ≡ false
          → bound ≤ (d.storage (every_second (track + 2) j)).count)
      → (j : ℕ) → j < suc n
      → is_booked (status_at j) ≡ false
      → bound ≤ count_at j
  bound_all bound first later zero lt b =
      subst (λ (p : ℕ). bound ≤ (d.storage p).count) (sym at_first)
        (first (ap (λ (p : ℕ). is_booked (d.storage p).status) (sym at_first) ∙ b))
  bound_all bound first later (suc j) lt b =
      subst (λ (p : ℕ). bound ≤ (d.storage p).count) (shifted track j)
        (later j (omega arith)
          (ap (λ (p : ℕ). is_booked (d.storage p).status) (shifted track j) ∙ b))

  module _ (count : ℕ) (best r : Option ℕ) (taken : storage_is_free d track ≡ false) where
    -- It is better than the one before.
    better-IsTop :
        is_booked (d.storage track).status ≡ false
        → (d.storage track).count < count
        → IsTop d n (track + 2) (d.storage track).count (some track) r
        → IsTop d (suc n) track count best r
    better-IsTop kept less t = record {
      free_first = first-passed (d.storage track).count (some track) r taken t;
      least = λ none_free. elim (t.least (none_after none_free)) [
        | inl (e, later) ↦ inr (
          0,
          omega arith,
          e ∙ ap (λ (p : ℕ). some p) (sym at_first),
          ap (λ (p : ℕ). is_booked (d.storage p).status) at_first ∙ kept,
          subst (λ (p : ℕ). (d.storage p).count < count) (sym at_first) less,
          λ j lt b.
              subst (λ (p : ℕ). (d.storage p).count ≤ count_at j) (sym at_first)
                (bound_all (d.storage track).count (λ _. omega arith) later j lt b),
        )
        | inr (k, lt, e, b, smaller, later) ↦ inr (
          suc k,
          omega arith,
          e ∙ ap (λ (p : ℕ). some p) (shifted track k),
          ap (λ (p : ℕ). is_booked (d.storage p).status) (sym (shifted track k)) ∙ b,
          subst (λ (p : ℕ). (d.storage p).count < count) (shifted track k) (omega arith),
          λ j lt' b'.
              subst (λ (p : ℕ). (d.storage p).count ≤ count_at j) (shifted track k)
                (bound_all (d.storage (every_second (track + 2) k)).count (λ _. omega arith) later j
                  lt' b'),
        )
      ];
    }

    -- It is not: it is booked, or its count is no less.
    worse-IsTop :
        (is_booked (d.storage track).status ≡ false → count ≤ (d.storage track).count)
        → IsTop d n (track + 2) count best r
        → IsTop d (suc n) track count best r
    worse-IsTop more t = record {
      free_first = first-passed count best r taken t;
      least = λ none_free. elim (t.least (none_after none_free)) [
        | inl (e, later) ↦ inl (e, bound_all count more later)
        | inr (k, lt, e, b, smaller, later) ↦ inr (
          suc k,
          omega arith,
          e ∙ ap (λ (p : ℕ). some p) (shifted track k),
          ap (λ (p : ℕ). is_booked (d.storage p).status) (sym (shifted track k)) ∙ b,
          subst (λ (p : ℕ). (d.storage p).count < count) (shifted track k) smaller,
          λ j lt' b'.
              subst (λ (p : ℕ). (d.storage p).count ≤ count_at j) (shifted track k)
                (bound_all (d.storage (every_second (track + 2) k)).count
                  (λ b₀. let m = more b₀ in omega arith) later j lt' b'),
        )
      ];
    }

-- A free track ends the search.
found-IsTop :
    (d : Disk) (n track count : ℕ) (best : Option ℕ)
    → storage_is_free d track ≡ true
    → IsTop d (suc n) track count best (some track)
found-IsTop d n track count best f = record {
  free_first = first;
  least = λ none_free.
      let f' = ap (storage_is_free d) (sym (at_first d n track)) ∙ none_free 0 (omega arith) in cc;
}
  where
    first :
        (k : ℕ)
        → k < suc n
        → storage_is_free d (every_second track k) ≡ true
        → ((j : ℕ) → j < k → storage_is_free d (every_second track j) ≡ false)
        → some track ≡ some (every_second track k)
    first zero lt f' before = ap (λ (p : ℕ). some p) (sym (at_first d n track))
    first (suc k) lt f' before =
        let b = ap (storage_is_free d) (sym (at_first d n track)) ∙ before 0 (omega arith) in cc

find_top-IsTop :
    (d : Disk) (n track count : ℕ) (best : Option ℕ)
    → ((k : ℕ) → k < n → every_second track k < d.report.max_block_num)
    → Returns (find_top d n track (best, count)) (IsTop d n track count best)
unfolding find_top
find_top-IsTop d zero track count best inside = (
  best,
  refl,
  record {
    free_first = λ k lt. absurd (omega arith);
    least = λ none_free. inl (refl, λ k lt. absurd (omega arith));
  },
)
find_top-IsTop d (suc n) track count best inside =
    let here = inside 0 (omega arith) in
    let i : ltb track d.report.max_block_num ≡ true = ground arith in
    let inside' : (k : ℕ) → k < n → every_second (track + 2) k < d.report.max_block_num =
      λ k lt. let h = inside (suc k) (omega arith) in omega arith in
    elim (Bool-cases (storage_is_free d track)) [
      | inl f ↦ (some track, rw (find_top, i, f) refl, found-IsTop d n track count best f)
      | inr f ↦
          elim (Bool-cases
            (not (is_booked (d.storage track).status) && ltb (d.storage track).count count)) [
              | inl e ↦ returns_of_eq (rw (find_top, i, f, e) refl) (
                  returns_map
                    (λ r t. better-IsTop d n track count best r f (ground arith) (ground arith) t)
                    (find_top-IsTop d n (track + 2) (d.storage track).count (some track) inside'))
              | inr e ↦ returns_of_eq (rw (find_top, i, f, e) refl) (
                  returns_map (λ r t. worse-IsTop d n track count best r f (λ b. ground arith) t)
                    (find_top-IsTop d n (track + 2) count best inside'))
            ]
    ]

-- The top track is booked, and the bottom track has its state; no other block changes.
pub record Swapped (d : Disk) (top bba : ℕ) (r : Disk × Option ℕ) : Type 0 where
  pub chosen : r.1 ≡ some top
  pub bottom : r.0.storage bba ≡ set_status (d.storage top).status (d.storage bba)
  pub booked_top : r.0.storage top ≡ set_status booked (d.storage top)
  pub others : (q : ℕ) → q ≢ top → q ≢ bba → r.0.storage q ≡ d.storage q

swap_block-Swapped :
    (d : Disk) (top bba : ℕ)
    → top ≢ bba
    → storage_is_free d top ≡ true
    → Returns (swap_block d top bba) (λ d'. Swapped d top bba (d', some top))
unfolding swap_block storage_is_free
swap_block-Swapped d top bba apart f = by_status (d.storage top).status refl f
  where
    put : BlockStatus → Disk
    put status =
        let storage = update d.storage bba (set_status status (d.storage bba)) in
        record d { storage = update storage top (set_status booked (storage top)) }

    put-Swapped :
        (s : BlockStatus) → (d.storage top).status ≡ s → Swapped d top bba (put s, some top)
    put-Swapped s e =
        let storage = update d.storage bba (set_status s (d.storage bba)) in
        let other : (top == bba) ≡ false = ground arith in
        let other' : (bba == top) ≡ false = ground arith in
        record {
          chosen = refl;
          bottom = rw e (update_ne storage top bba _ other ∙ update_self d.storage bba _);
          booked_top =
              update_self storage top _
              ∙ ap (set_status booked) (update_ne d.storage bba top _ other');
          others = λ q nt nb.
              let a : (top == q) ≡ false = ground arith in
              let b : (bba == q) ≡ false = ground arith in
              update_ne storage top q _ a ∙ update_ne d.storage bba q _ b;
        }

    by_status :
        (s : BlockStatus)
        → (d.storage top).status ≡ s
        → is_invalid s || is_free s ≡ true
        → Returns
            (elim s [
              | free ↦ ok (put free)
              | invalid ↦ ok (put invalid)
              | in_use ↦ stop undefined
              | booked ↦ stop exit_failure
              | trimed ↦ stop exit_failure
              | end ↦ stop exit_failure
            ])
            (λ d'. Swapped d top bba (d', some top))
    by_status free e f = (put free, refl, put-Swapped free e)
    by_status invalid e f = (put invalid, refl, put-Swapped invalid e)
    by_status in_use e f = cc
    by_status booked e f = cc
    by_status trimed e f = cc
    by_status end e f = cc

abbrev pub top_at : VirtualGroup → ℕ → ℕ
top_at vg k = vg.top_start + 2 * k

-- If a group of the disk has a top track that is free or invalid, a dual swap of a block of the disk
-- that is none of these top tracks returns the first of them: it is booked, the block has the state
-- that the track had, and no other block changes.
pub dual_swap-Swapped :
    (d : Disk) (vg : VirtualGroup) (bba k : ℕ)
    → vg.top_end < d.report.max_block_num
    → bba < d.report.max_block_num
    → top_at vg k ≤ vg.top_end
    → storage_is_free d (top_at vg k) ≡ true
    → ((j : ℕ) → j < k → storage_is_free d (top_at vg j) ≡ false)
    → top_at vg k ≢ bba
    → Returns (dual_swap d vg bba) (Swapped d (top_at vg k) bba)
unfolding dual_swap swap_with
dual_swap-Swapped d vg bba k fits inside within f before apart =
    let n = rounds_of vg.top_start vg.top_end in
    let ordered : leb vg.top_start vg.top_end ≡ true = ground arith in
    let rounds : n ≡ (vg.top_end - vg.top_start) / 2 + 1 = rw ordered refl in
    let i : ltb bba d.report.max_block_num ≡ true = ground arith in
    let (r, runs, t) = find_top-IsTop d n vg.top_start (2 ^ 32 - 1) none (λ j lt. omega arith) in
    let top : r ≡ some (top_at vg k) = t.free_first k (omega arith) f before in
    let (d', swaps, s) = swap_block-Swapped d (top_at vg k) bba apart f in
    ((d', some (top_at vg k)), rw runs (rw (top, i, swaps) refl), s)
