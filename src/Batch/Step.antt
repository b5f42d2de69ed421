-- ===== src/Batch/Step.antt =====
-- src/batch.c: what one round of `batch_extend` adds to the extended table.
use imr_dedupe.Prelude.{
  ℕ, suc, ◌+◌, ◌-◌, ◌≤◌, ◌<◌, ◌≡◌, refl, ap, Bool, true, false, not, ◌&&◌, ◌||◌, Option, none, some,
  ◌==◌, ltb, if◌then◌else◌, arith, Bool-cases, inl, inr, is_some, sym, ◌∙◌,
}
use imr_dedupe.Disk.{BbHead, Disk, is_toptrack, storage_is_in_use}
use imr_dedupe.Batch.{
  entry, bb_table_add, bb_table_add_entry, is_last, extend_top, extend_lower, extend_upper,
  extend_entry,
}
use imr_dedupe.Batch.Lookup.{
  lookup, IsAscending, IsUnder, lookup-add, add-IsUnder, add-IsAscending, last-lookup,
  lookup-modify, IsUnder-lookup, modify-IsAscending, modify-IsUnder, modify-IsAscending,
  modify-IsUnder,
}

-- What an extended table should hold of a track, from the set of tracks that are written: these are
-- physical, and an in-use top track beside a written one is virtual.
abbrev pub expected : Disk → (ℕ → Bool) → ℕ → Option Bool
expected d written t =
    if written t
    then some false
    else if is_toptrack t
        && storage_is_in_use d t
        && ltb t d.report.max_track_num
        && (written (t - 1) || written (t + 1))
    then some true
    else none

abbrev pub add_track : (ℕ → Bool) → ℕ → ℕ → Bool
add_track written k t = k == t || written t

-- The table after the tracks of `written`, which all lie below `b`.
pub record Extends (d : Disk) (written : ℕ → Bool) (b : ℕ) (h : BbHead) : Type 0 where
  pub bound : (t : ℕ) → written t ≡ true → t < b
  pub looks : (t : ℕ) → lookup h t ≡ expected d written t
  pub ascending : IsAscending h
  pub under : IsUnder h (suc b)

IsUnder-mono : (h : BbHead) (b : ℕ) → IsUnder h b → IsUnder h (suc b)
IsUnder-mono h b u i l = let q = u i l in omega arith

is_some-none {ℓ} : {A : Type ℓ} (o : Option A) → is_some o ≡ false → o ≡ none
is_some-none none e = refl
is_some-none (some a) e = cc

module _ (d : Disk) (written : ℕ → Bool) (t : ℕ) where
  expected-some :
      is_some (expected d written t) ≡ true → expected d written t ≡ some (not (written t))
  expected-some s = ground arith

  expected-none : is_some (expected d written t) ≡ false → written t ≡ false
  expected-none s = ground arith

module _ (d : Disk) (written : ℕ → Bool) (b k : ℕ) (h : BbHead) (x : Extends d written b h)
    (after : b ≤ k) (inside : k < d.report.max_track_num) where
  pub new_track : written k ≡ false
  new_track = ground (arith, x.bound k)

  past_new : written (k + 1) ≡ false
  past_new = ground (arith, x.bound (k + 1))

  IsUnder-suc : IsUnder h (suc k)
  IsUnder-suc i l = let u = x.under i l in omega arith

  module _ (top : is_toptrack k ≡ true) where
    top-lookup :
        (t : ℕ)
        → lookup (extend_top (entry k false) h) t ≡ (if k == t then some false else lookup h t)
    unfolding extend_top bb_table_add_entry
    top-lookup t = elim (Bool-cases (is_last h k)) [
      | inl e ↦ rw e (lookup-modify h k t e)
      | inr e ↦ rw e (lookup-add h k false t)
    ]

    top-Extends : Extends d (add_track written k) (suc k) (extend_top (entry k false) h)
    unfolding extend_top bb_table_add_entry
    top-Extends =
        let last = last-lookup h k x.ascending IsUnder-suc in
        let looks' : (t : ℕ)
            → lookup (extend_top (entry k false) h) t ≡ expected d (add_track written k) t =
          λ t. rw (top-lookup t, x.looks t) (ground arith) in
        let bound' : (t : ℕ) → add_track written k t ≡ true → t < suc k =
          λ t e. ground (arith, x.bound t) in
        elim (Bool-cases (is_last h k)) [
          | inl e ↦ record {
            bound = bound';
            looks = looks';
            ascending = rw e (modify-IsAscending h x.ascending);
            under = rw e (modify-IsUnder h (suc (suc k)) (IsUnder-mono h _ IsUnder-suc));
          }
          | inr e ↦
              let low = IsUnder-lookup h k IsUnder-suc (is_some-none _ (sym last ∙ e)) in
              record {
                bound = bound';
                looks = looks';
                ascending = rw e (add-IsAscending h k false x.ascending low);
                under = rw e (
                    add-IsUnder h k (suc (suc k)) false (IsUnder-mono h _ IsUnder-suc)
                      (omega arith));
              }
        ]

  module _ (bottom : is_toptrack k ≡ false) where
    below : IsUnder h k
    below = IsUnder-lookup h k IsUnder-suc (let e = x.looks k in ground (arith, new_track))

    -- The track before, if the table holds anything of it, and if not.
    held_before :
        is_some (lookup h (k - 1)) ≡ true → lookup h (k - 1) ≡ some (not (written (k - 1)))
    held_before s =
        let e = x.looks (k - 1) in let s' = rw e at s in e ∙ expected-some d written (k - 1) s'

    absent_before : is_some (lookup h (k - 1)) ≡ false → written (k - 1) ≡ false
    absent_before s = let s' = rw (x.looks (k - 1)) at s in expected-none d written (k - 1) s'

    lower-lookup :
        (t : ℕ)
        → lookup (extend_lower d k h) t ≡ (
            if (not (k == 0) && storage_is_in_use d (k - 1)) && (k - 1 == t)
            then some (not (written t))
            else lookup h t)
    unfolding extend_lower
    lower-lookup t = elim (Bool-cases (not (k == 0) && storage_is_in_use d (k - 1))) [
      | inr g ↦ rw g refl
      | inl g ↦
          let last = last-lookup h (k - 1) x.ascending (λ i l. let u = below i l in ground arith) in
          elim (Bool-cases (is_last h (k - 1))) [
            | inl l ↦
                rw (g, l)
                  (ground (
                    arith,
                    held_before (sym last ∙ l),
                    ap (lookup h) {x = k - 1} {y = t},
                    ap written {x = k - 1} {y = t},
                  ))
            | inr l ↦
                rw (g, l)
                  (lookup-add h (k - 1) true t
                    ∙ ground (arith, absent_before (sym last ∙ l), ap written {x = k - 1} {y = t}))
          ]
    ]

    lower-IsAscending : IsAscending (extend_lower d k h)
    unfolding extend_lower
    lower-IsAscending =
        elim (Bool-cases (not (k == 0) && storage_is_in_use d (k - 1) && not (is_last h (k - 1)))) [
          | inr g ↦ rw g x.ascending
          | inl g ↦ rw g (
              add-IsAscending h (k - 1) true x.ascending (
                IsUnder-lookup h (k - 1) (λ i l. let u = below i l in ground arith)
                  (is_some-none _ (
                    sym
                      (last-lookup h (k - 1) x.ascending (λ i l. let u = below i l in ground arith))
                    ∙ ground arith))))
        ]

    lower-IsUnder : IsUnder (extend_lower d k h) k
    unfolding extend_lower
    lower-IsUnder =
        elim (Bool-cases (not (k == 0) && storage_is_in_use d (k - 1) && not (is_last h (k - 1)))) [
          | inr g ↦ rw g below
          | inl g ↦ rw g (add-IsUnder h (k - 1) k true below (ground arith))
        ]

    mid : BbHead
    mid = bb_table_add (extend_lower d k h) k false

    mid-IsAscending : IsAscending mid
    unfolding mid
    mid-IsAscending = add-IsAscending (extend_lower d k h) k false lower-IsAscending lower-IsUnder

    mid-IsUnder : IsUnder mid (suc k)
    unfolding mid
    mid-IsUnder =
        add-IsUnder (extend_lower d k h) k (suc k) false
          (IsUnder-mono (extend_lower d k h) k lower-IsUnder) (omega arith)

    mid-lookup :
        (t : ℕ) → lookup mid t ≡ (if k == t then some false else lookup (extend_lower d k h) t)
    unfolding mid
    mid-lookup t = lookup-add (extend_lower d k h) k false t

    upper-lookup :
        (t : ℕ)
        → lookup (extend_upper d k mid) t ≡ (
            if (not (k == d.report.max_track_num - 1) && storage_is_in_use d (k + 1))
              && (k + 1 == t)
            then some true
            else lookup mid t)
    unfolding extend_upper
    upper-lookup t =
        elim (Bool-cases (not (k == d.report.max_track_num - 1) && storage_is_in_use d (k + 1))) [
          | inl g ↦ rw g (lookup-add mid (k + 1) true t)
          | inr g ↦ rw g refl
        ]

    upper-IsAscending : IsAscending (extend_upper d k mid)
    unfolding extend_upper
    upper-IsAscending =
        elim (Bool-cases (not (k == d.report.max_track_num - 1) && storage_is_in_use d (k + 1))) [
          | inl g ↦ rw g (
              add-IsAscending mid (k + 1) true mid-IsAscending
                (λ i l. let u = mid-IsUnder i l in omega arith))
          | inr g ↦ rw g mid-IsAscending
        ]

    upper-IsUnder : IsUnder (extend_upper d k mid) (suc (suc k))
    unfolding extend_upper
    upper-IsUnder =
        elim (Bool-cases (not (k == d.report.max_track_num - 1) && storage_is_in_use d (k + 1))) [
          | inl g ↦ rw g (
              add-IsUnder mid (k + 1) (suc (suc k)) true (IsUnder-mono mid (suc k) mid-IsUnder)
                (omega arith))
          | inr g ↦ rw g (IsUnder-mono mid (suc k) mid-IsUnder)
        ]

    merge :
        (t : ℕ)
        → (if (not (k == d.report.max_track_num - 1) && storage_is_in_use d (k + 1)) && (k + 1 == t)
            then some true
            else if k == t
            then some false
            else if (not (k == 0) && storage_is_in_use d (k - 1)) && (k - 1 == t)
            then some (not (written t))
            else expected d written t)
          ≡ expected d (add_track written k) t
    merge t = elim (Bool-cases (k == t)) [
      | inl e ↦ ground arith
      | inr e ↦ elim (Bool-cases (k + 1 == t)) [
        | inl u ↦ let u' : t ≡ k + 1 = ground arith in let q = past_new in rw u' (ground arith)
        | inr u ↦ elim (Bool-cases (t + 1 == k)) [
          | inl l ↦ let l' : k ≡ t + 1 = ground arith in ground arith
          | inr l ↦ ground arith
        ]
      ]
    ]

    bottom-Extends : Extends d (add_track written k) (suc k) (extend_upper d k mid)
    bottom-Extends = record {
      bound = λ t e. ground (arith, x.bound t);
      looks = λ t. rw (upper-lookup t, mid-lookup t, lower-lookup t, x.looks t) (merge t);
      ascending = upper-IsAscending;
      under = upper-IsUnder;
    }

    bottom-step : Extends d (add_track written k) (suc k) (extend_entry d (entry k false) h)
    unfolding extend_entry bb_table_add_entry mid
    bottom-step = rw bottom bottom-Extends

  pub entry-Extends : Extends d (add_track written k) (suc k) (extend_entry d (entry k false) h)
  unfolding extend_entry
  entry-Extends = elim (Bool-cases (is_toptrack k)) [
    | inl top ↦ rw top (top-Extends top)
    | inr bottom ↦ bottom-step bottom
  ]
