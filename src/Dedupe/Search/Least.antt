-- ===== src/Dedupe/Search/Least.antt =====
-- src/pba.c (is_in_storage): the search finds the first block with the hash among those that it looks
-- at, which are all blocks or, in phase 1 without NEW_ALLOC, as many bottom tracks as there are blocks
-- in use.
use imr_dedupe.Prelude.{
  ℕ, zero, suc, ◌+◌, ◌*◌, ◌/◌, ◌%◌, ◌<◌, ◌≡◌, refl, sym, ap, subst, ◌∙◌, Bool, true, false, Option,
  none, some, min, ltb, ◌==◌, if◌then◌else◌, Returns, returns_of_eq, returns_map, arith, Bool-cases,
  inl, inr,
}
use imr_dedupe.Disk.{Hash, hash_eq, Block, Disk, ZallocInfo, is_phase1}
use imr_dedupe.Dedupe.Search.{phase1_total_block_num, find_block, find_in_phase, is_in_storage}

-- The blocks that a search looks at: how far they are apart, how many they are, and the first.
pub record Scan : Type 0 where
  pub step : ℕ
  pub count : ℕ
  pub start : ℕ

abbrev pub all_blocks : Disk → Scan
all_blocks d = record { step = 1; count = d.report.max_block_num; start = 0 }

abbrev pub bottom_tracks : Disk → Scan
bottom_tracks d = record {
  step = 2;
  count = min (phase1_total_block_num d) d.report.current_use_block_num;
  start = d.zinfo.phase1_start;
}

-- The first argument is whether NEW_ALLOC is defined, the second whether it is phase 1.
abbrev pub scan_in : (new_alloc in_phase1 : Bool) → Disk → Scan
scan_in true p d = all_blocks d
scan_in false true d = bottom_tracks d
scan_in false false d = all_blocks d

abbrev pub scan : (new_alloc : Bool) → Disk → Scan
scan new_alloc d = scan_in new_alloc (is_phase1 d.zinfo.phases) d

abbrev pub block_at : Scan → ℕ → ℕ
block_at c k = c.start + k * c.step

-- The block is one of those that are looked at.
abbrev pub IsScanned : Scan → ℕ → Type 0
IsScanned c q = (k : ℕ) × (k < c.count) × (q ≡ block_at c k)

-- The first of the blocks that are looked at that passes the test, or none.
abbrev pub IsFirst : (Block → Bool) → Disk → Scan → Option ℕ → Type 0
IsFirst test d c none = (k : ℕ) → k < c.count → test (d.storage (block_at c k)) ≡ false
IsFirst test d c (some q) =
    (test (d.storage q) ≡ true)
    × (k : ℕ) × (k < c.count)
    × (q ≡ block_at c k)
    × ((j : ℕ) → j < k → test (d.storage (block_at c j)) ≡ false)

abbrev StaysInside : Disk → Scan → Type 0
StaysInside d c = (k : ℕ) → k < c.count → block_at c k < d.report.max_block_num

abbrev next_scan : Scan → ℕ → Scan
next_scan c n = record c { count = n; start = c.start + c.step }

next_block : (c : Scan) (n k : ℕ) → block_at (next_scan c n) k ≡ block_at c (suc k)
next_block c n k = omega arith

step_back :
    (test : Block → Bool) (d : Disk) (c : Scan) (n : ℕ) (r : Option ℕ)
    → c.count ≡ suc n
    → test (d.storage (block_at c 0)) ≡ false
    → IsFirst test d (next_scan c n) r
    → IsFirst test d c r
step_back test d c n none size e f = all
  where
    all : (k : ℕ) → k < c.count → test (d.storage (block_at c k)) ≡ false
    all zero lt = e
    all (suc k) lt = subst (λ q. test (d.storage q) ≡ false) (next_block c n k) (f k (omega arith))
step_back test d c n (some q) size e (found, k, lt, here, before) =
    (found, suc k, omega arith, here ∙ next_block c n k, all)
  where
    all : (j : ℕ) → j < suc k → test (d.storage (block_at c j)) ≡ false
    all zero lt = e
    all (suc j) lt =
        subst (λ q. test (d.storage q) ≡ false) (next_block c n j) (before j (omega arith))

find_block-IsFirst :
    (test : Block → Bool) (d : Disk) (n : ℕ) (c : Scan)
    → c.count ≡ n
    → StaysInside d c
    → Returns (find_block test d c.step n c.start) (IsFirst test d c)
unfolding find_block
find_block-IsFirst test d zero c size stays = (none, refl, λ k lt. absurd (omega arith))
find_block-IsFirst test d (suc n) c size stays =
    let first = stays 0 (omega arith) in
    let inside : ltb c.start d.report.max_block_num ≡ true = ground arith in
    let zero_block : block_at c 0 ≡ c.start = omega arith in
    elim (Bool-cases (test (d.storage c.start))) [
      | inl e ↦ (
        some c.start,
        rw (find_block, inside, e) refl,
        (e, 0, omega arith, omega arith, λ j lt. absurd (omega arith)),
      )
      | inr e ↦ returns_of_eq (rw (find_block, inside, e) refl) (
          returns_map (λ r f. step_back test d c n r size (rw zero_block e) f)
            (find_block-IsFirst test d n (next_scan c n) refl (λ k lt.
              subst (λ q. q < d.report.max_block_num) (sym (next_block c n k))
                (stays (suc k) (omega arith)))))
    ]

-- On a disk with as many blocks as tracks, whose phase 1 starts at track 0, the search stays on the
-- disk.
pub scan-StaysInside :
    (new_alloc : Bool) (d : Disk)
    → d.zinfo.phase1_start ≡ 0
    → d.report.max_block_num ≡ d.report.max_track_num
    → StaysInside d (scan new_alloc d)
scan-StaysInside new_alloc d starts size = go new_alloc (is_phase1 d.zinfo.phases)
  where
    go : (a p : Bool) → StaysInside d (scan_in a p d)
    go true p k lt = omega arith
    go false true k lt = elim (Bool-cases (d.report.max_track_num % 2 == 0)) [
      | inl e ↦ let half = rw e at lt in ground arith
      | inr e ↦ let half = rw e at lt in ground arith
    ]
    go false false k lt = omega arith

-- The state of the allocator, the sizes and the use count tell which blocks are looked at.
pub scan-same :
    (new_alloc : Bool) (d e : Disk)
    → d.zinfo ≡ e.zinfo
    → d.report.max_block_num ≡ e.report.max_block_num
    → d.report.max_track_num ≡ e.report.max_track_num
    → d.report.current_use_block_num ≡ e.report.current_use_block_num
    → scan new_alloc d ≡ scan new_alloc e
scan-same new_alloc d e zinfo blocks tracks count =
    ap (λ (z : ZallocInfo). scan_in new_alloc (is_phase1 z.phases) d) zinfo
    ∙ go new_alloc (is_phase1 e.zinfo.phases)
  where
    bottom : (tracks count start : ℕ) → Scan
    bottom n count start = record {
      step = 2;
      count = min (if n % 2 == 0 then n / 2 else n / 2 + 1) count;
      start = start;
    }

    all_of : ℕ → Scan
    all_of n = record { step = 1; count = n; start = 0 }

    go : (a p : Bool) → scan_in a p d ≡ scan_in a p e
    go true p = ap (λ (n : ℕ). all_of n) blocks
    go false false = ap (λ (n : ℕ). all_of n) blocks
    go false true =
        ap (λ (n : ℕ). bottom n d.report.current_use_block_num d.zinfo.phase1_start) tracks
        ∙ ap (λ (n : ℕ). bottom e.report.max_track_num n d.zinfo.phase1_start) count
        ∙ ap
            (λ (z : ZallocInfo).
              bottom e.report.max_track_num e.report.current_use_block_num z.phase1_start)
            zinfo

-- The blocks that are looked at differ.
pub scan-apart :
    (new_alloc : Bool) (d : Disk) (j k : ℕ)
    → j < k
    → (block_at (scan new_alloc d) k == block_at (scan new_alloc d) j) ≡ false
scan-apart new_alloc d j k lt = go new_alloc (is_phase1 d.zinfo.phases)
  where
    go : (a p : Bool) → (block_at (scan_in a p d) k == block_at (scan_in a p d) j) ≡ false
    go true p = ground arith
    go false true = ground arith
    go false false = ground arith

-- On such a disk `is_in_storage` returns the first block with the hash among those that it looks at,
-- and returns false exactly if none of them has it.
pub is_in_storage-IsFirst :
    (new_alloc : Bool) (d : Disk) (hash : Hash)
    → d.zinfo.phase1_start ≡ 0
    → d.report.max_block_num ≡ d.report.max_track_num
    → Returns
        (is_in_storage new_alloc d hash)
        (IsFirst (λ b. hash_eq b.hash hash) d (scan new_alloc d))
unfolding is_in_storage find_in_phase
is_in_storage-IsFirst new_alloc d hash starts size =
    go new_alloc (is_phase1 d.zinfo.phases) (scan-StaysInside new_alloc d starts size)
  where
    test : Block → Bool
    test b = hash_eq b.hash hash

    go :
        (a p : Bool)
        → StaysInside d (scan_in a p d)
        → Returns
            (if a
              then find_block (λ b. hash_eq b.hash hash) d 1 d.report.max_block_num 0
              else if p
              then find_block
                  (λ b. hash_eq b.hash hash)
                  d
                  2
                  (min (phase1_total_block_num d) d.report.current_use_block_num)
                  d.zinfo.phase1_start
              else find_block (λ b. hash_eq b.hash hash) d 1 d.report.max_block_num 0)
            (IsFirst (λ b. hash_eq b.hash hash) d (scan_in a p d))
    go true p stays = find_block-IsFirst _ d _ (all_blocks d) refl stays
    go false true stays = find_block-IsFirst _ d _ (bottom_tracks d) refl stays
    go false false stays = find_block-IsFirst _ d _ (all_blocks d) refl stays

-- The result of a search is unique.
pub IsFirst-unique :
    (test : Block → Bool) (d : Disk) (c : Scan) (p : ℕ) (o : Option ℕ)
    → IsFirst test d c (some p)
    → IsFirst test d c o
    → o ≡ some p
IsFirst-unique test d c p none (found, k, lt, here, before) absent =
    let no = absent k lt in let yes = subst (λ q. test (d.storage q) ≡ true) here found in cc
IsFirst-unique test d c p (some q) (found, k, lt, here, before) (found', k', lt', here', before') =
    ap (λ (n : ℕ). some n) same
  where
    same : q ≡ p
    same = elim (Bool-cases (ltb k' k)) [
      | inl e ↦
          let no = before k' (ground arith) in
          let yes = subst (λ q. test (d.storage q) ≡ true) here' found' in cc
      | inr e ↦ elim (Bool-cases (ltb k k')) [
        | inl f ↦
            let no = before' k (ground arith) in
            let yes = subst (λ q. test (d.storage q) ≡ true) here found in cc
        | inr f ↦
            let equal : k' ≡ k = ground arith in
            here' ∙ ap (λ (n : ℕ). block_at c n) equal ∙ sym here
      ]
    ]
