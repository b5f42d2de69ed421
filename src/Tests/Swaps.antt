-- ===== src/Tests/Swaps.antt =====
-- Top track 3 with the logical blocks 5 and 6, and bottom track 2 with the logical block 4.
use imr_dedupe.Prelude.{
  ℕ, ◌+◌, ◌<◌, ◌≡◌, refl, true, false, ◌&&◌, [], ◌==◌, if◌then◌else◌, Returns, ◌>>=◌, arith,
  Bool-cases, inl, inr, ltb,
}
use imr_dedupe.Disk.{free, in_use, Block, Disk}
use imr_dedupe.Dedupe.{lba_to_pba}
use imr_dedupe.Dedupe.Release.{IsOwned}
use imr_dedupe.Dedupe.Trim.Consistent.{IsConsistent}
use imr_dedupe.Dedupe.Search.{find_empty_block_swap}
use imr_dedupe.Dedupe.Search.Most.{IsMostShared, find_empty_block_swap-IsMostShared}
use imr_dedupe.Dedupe.Swap.{ltp_table_swap, block_info_swap}
use imr_dedupe.HashTable.Laws.{IsRoomy}
use imr_dedupe.Dedupe.Swap.Items.{IsHashed}
use imr_dedupe.Dedupe.Swap.Owners.{IsHeld}
use imr_dedupe.Dedupe.Swap.Content.{ltp_table_swap-content}
use imr_dedupe.Tests.Data.{ab, ba, eight}

abbrev block_of : ℕ → Block
block_of i = record {
  hash = if i == 3 then ab else if i == 2 then ba else [];
  lba = λ j. if i == 3 then 5 + j else 4;
  status = if i == 3 then in_use else if i == 2 then in_use else free;
  lba_capacity = 2;
  count = 0;
  referenced_count = if i == 3 then 1 else 0;
}

abbrev both_used : Disk
both_used = record eight {
  storage = block_of;
  ltp = λ lba. record {
    pba = if lba == 4 then 2 else 3;
    fid = 0;
    hash = ab;
    valid = ltb 3 lba && ltb lba 7;
    trim = false;
  };
}

both_used-IsConsistent : IsConsistent both_used
unfolding lba_to_pba
both_used-IsConsistent = record { owned = λ l below valid. owned l below valid }
  where
    owned :
        (l : ℕ) → l < 8 → (ltb 3 l && ltb l 7) ≡ true → IsOwned both_used (both_used.ltp l).pba l
    owned l below valid = elim (Bool-cases (l == 4)) [
      | inl e ↦
          let at : l ≡ 4 = ground arith in
          rw at (record {
            on_disk = omega arith;
            used = refl;
            small = omega arith;
            room = omega arith;
            few = omega arith;
            owner = refl;
          })
      | inr e ↦ elim (Bool-cases (l == 5)) [
        | inl e' ↦
            let at : l ≡ 5 = ground arith in
            rw at (record {
              on_disk = omega arith;
              used = refl;
              small = omega arith;
              room = omega arith;
              few = omega arith;
              owner = refl;
            })
        | inr e' ↦
            let at : l ≡ 6 = ground arith in
            rw at (record {
              on_disk = omega arith;
              used = refl;
              small = omega arith;
              room = omega arith;
              few = omega arith;
              owner = refl;
            })
      ]
    ]

three-IsHeld : IsHeld both_used 3
three-IsHeld = record {
  on_disk = omega arith;
  small = omega arith;
  room = omega arith;
  few = omega arith;
  mapped = λ x m. elim (Bool-cases (5 == x)) [
    | inl e ↦ let at : x ≡ 5 = ground arith in rw at (omega arith, refl)
    | inr e ↦ let at : x ≡ 6 = let m' = rw e at m in ground arith in rw at (omega arith, refl)
  ];
}

two-IsHeld : IsHeld both_used 2
two-IsHeld = record {
  on_disk = omega arith;
  small = omega arith;
  room = omega arith;
  few = omega arith;
  mapped = λ x m. let at : x ≡ 4 = ground arith in rw at (omega arith, refl);
}

both_used-IsRoomy : IsRoomy both_used
both_used-IsRoomy = record {
  a = 0;
  b = 1;
  reachable = λ i item k hi content. cc;
  inside_a = omega arith;
  inside_b = omega arith;
  empty_a = refl;
  empty_b = refl;
  apart = λ e. omega arith;
}

three-IsHashed : IsHashed both_used 3
three-IsHashed = record { real = λ e. cc; short = omega arith }

two-IsHashed : IsHashed both_used 2
two-IsHashed = record { real = λ e. cc; short = omega arith }

ltp_table_swap-content_example :
    Returns (ltp_table_swap both_used 3 2 >>= λ d₁. block_info_swap d₁ 2 3) (λ d₂.
      IsConsistent d₂
      × ((x : ℕ)
          → x < 8
          → (both_used.ltp x).valid ≡ true
          → d₂.storage (lba_to_pba d₂ x) ≡ both_used.storage (lba_to_pba both_used x)))
ltp_table_swap-content_example =
    ltp_table_swap-content both_used 3 2 (λ e. omega arith) both_used-IsConsistent three-IsHeld
      two-IsHeld both_used-IsRoomy three-IsHashed two-IsHashed

find_empty_block_swap-IsMostShared_example :
    IsMostShared both_used (find_empty_block_swap both_used)
find_empty_block_swap-IsMostShared_example = find_empty_block_swap-IsMostShared both_used
