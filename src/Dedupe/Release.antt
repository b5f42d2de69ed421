-- ===== src/Dedupe/Release.antt =====
-- src/lba.c (delete_lba_in_storage): how a physical block loses one of its owners.
use imr_dedupe.Prelude.{
  ℕ, zero, suc, ◌+◌, ◌-◌, ◌%◌, ◌^◌, ◌≤◌, ◌<◌, ◌≡◌, ◌≢◌, refl, ap₂, ◌∙◌, Bool, true, false, List, [],
  ◌∷◌, some, ◌==◌, ltb, leb, if◌then◌else◌, update, update_self, update_ne, slice, slice_congr, ok,
  Returns, arith, Bool-cases, inl, inr,
}
use imr_dedupe.Disk.{
  Block, BlockStatus, Disk, add32, free, booked, invalid, in_use, trimed, is_in_use, set_status,
}
use imr_dedupe.Dedupe.{
  find_lba, shift_lba, set_block, drop_lba, delete_lba_in_storage, release, trim_block,
}

-- The list without the first entry that is `x`.
abbrev pub erase : ℕ → List ℕ → List ℕ
erase x [] = []
erase x (y ∷ l) = if y == x then l else y ∷ erase x l

abbrev pub member : ℕ → List ℕ → Bool
member x [] = false
member x (y ∷ l) = if y == x then true else member x l

-- The logical blocks that share a block.
abbrev pub owners : Block → List ℕ
owners b = slice b.lba 0 (b.referenced_count + 1)

shift_lba-below : (n i : ℕ) (f : ℕ → ℕ) (j : ℕ) → j < i → shift_lba n i f j ≡ f j
unfolding shift_lba
shift_lba-below zero i f j h = refl
shift_lba-below (suc n) i f j h =
    shift_lba-below n (i + 1) (update f i (f (i + 1))) j (omega arith) ∙ ground arith

-- Shifting moves what stands above one place down.
slice-shift_lba : (n i : ℕ) (f : ℕ → ℕ) → slice (shift_lba n i f) i n ≡ slice f (i + 1) n
unfolding shift_lba
slice-shift_lba zero i f = refl
slice-shift_lba (suc n) i f =
    let g = update f i (f (i + 1)) in
    let head : shift_lba n (i + 1) g i ≡ f (i + 1) =
      shift_lba-below n (i + 1) g i (omega arith) ∙ update_self f i (f (i + 1)) in
    let tail =
      slice-shift_lba n (i + 1) g ∙ slice_congr g f (i + 1 + 1) n (λ j a b. ground arith) in
    rw (head, tail) refl

slice_pred : (f : ℕ → ℕ) (i n : ℕ) → 0 < n → slice f i n ≡ f i ∷ slice f (i + 1) (n - 1)
slice_pred f i zero h = absurd (omega arith)
slice_pred f i (suc n) h = let p : suc n - 1 ≡ n = omega arith in rw p refl

-- What the search finds: the first place of the logical block, at which shifting erases it.
pub record Place (b : Block) (lba n i at : ℕ) : Type 0 where
  from : i ≤ at
  within : at < i + n
  erased : slice (shift_lba (i + n - 1 - at) at b.lba) i (n - 1) ≡ erase lba (slice b.lba i n)

find_lba-Place :
    (b : Block) (lba n i : ℕ)
    → i + n ≤ b.lba_capacity
    → member lba (slice b.lba i n) ≡ true
    → Returns (find_lba b lba n i) (λ r. (at : ℕ) × (r ≡ some at) × Place b lba n i at)
unfolding find_lba
find_lba-Place b lba zero i fits h = cc
find_lba-Place b lba (suc n) i fits h =
    let fit : ltb i b.lba_capacity ≡ true = ground arith in
    elim (Bool-cases (b.lba i == lba)) [
      | inl e ↦ (
        some i,
        rw (find_lba, fit, e) refl,
        (
          i,
          refl,
          record {
            from = omega arith;
            within = omega arith;
            erased =
                let rounds : i + suc n - 1 - i ≡ n = omega arith in
                let last : suc n - 1 ≡ n = omega arith in
                rw (rounds, last, e) (slice-shift_lba n i b.lba);
          },
        ),
      )
      | inr e ↦
          let h' = rw e at h in
          let (r, runs, (at, r_eq, p)) = find_lba-Place b lba n (i + 1) (omega arith) h' in
          (
            r,
            rw (find_lba, fit, e) runs,
            (
              at,
              r_eq,
              record {
                from = let l = p.from in omega arith;
                within = let l = p.within in omega arith;
                erased =
                    let l = p.from in
                    let w = p.within in
                    let last : suc n - 1 ≡ n = omega arith in
                    let rounds : i + suc n - 1 - at ≡ i + 1 + n - 1 - at = omega arith in
                    let f = shift_lba (i + 1 + n - 1 - at) at b.lba in
                    rw (rounds, last, e)
                      (slice_pred f i n (omega arith)
                        ∙ ap₂ ◌∷◌ (shift_lba-below (i + 1 + n - 1 - at) at b.lba i (omega arith))
                            p.erased);
              },
            ),
          )
    ]

-- A block of which one owner leaves: with others left, it stays in use and they keep their order; the
-- last owner leaves it trimed.
pub record Released (d : Disk) (pba lba : ℕ) (d' : Disk) : Type 0 where
  pub shared :
      0 < (d.storage pba).referenced_count
      → ((d'.storage pba).status ≡ in_use)
        × ((d'.storage pba).referenced_count + 1 ≡ (d.storage pba).referenced_count)
        × (owners (d'.storage pba) ≡ erase lba (owners (d.storage pba)))
  pub last :
      (d.storage pba).referenced_count ≡ 0
      → ((d'.storage pba).status ≡ trimed)
        × ((d'.storage pba).referenced_count ≡ 0)
        × (d'.is_bottom_has_trimed_track ≡ true)
  pub hash : (d'.storage pba).hash ≡ (d.storage pba).hash
  pub others : (p : ℕ) → p ≢ pba → d'.storage p ≡ d.storage p
  pub capacity : (d'.storage pba).lba_capacity ≡ (d.storage pba).lba_capacity
  pub mapping : d'.ltp ≡ d.ltp
  pub report : d'.report ≡ d.report

-- The conditions under which a trim may take a block from an owner.
pub record IsOwned (d : Disk) (pba lba : ℕ) : Type 0 where
  pub on_disk : pba < d.report.max_block_num
  pub used : is_in_use (d.storage pba).status ≡ true
  pub small : lba < 2 ^ 32
  pub room : (d.storage pba).referenced_count + 1 ≤ (d.storage pba).lba_capacity
  pub few : (d.storage pba).referenced_count < 2 ^ 31
  pub owner : member lba (owners (d.storage pba)) ≡ true

status_of_used : (s : BlockStatus) → is_in_use s ≡ true → s ≡ in_use
status_of_used in_use e = refl
status_of_used free e = cc
status_of_used booked e = cc
status_of_used trimed e = cc
status_of_used invalid e = cc
status_of_used BlockStatus.end e = cc

-- The disk once the owner's entry is gone from the block.
abbrev without_owner : Disk → (pba at : ℕ) → Disk
without_owner d pba at =
    let b = d.storage pba in
    set_block d pba (record b { lba = shift_lba (b.referenced_count + 1 - 1 - at) at b.lba })

module _ (d : Disk) (pba : ℕ) (b : Block) (e : d.storage pba ≡ b) where
  pub release-shared :
      ltb 0 b.referenced_count ≡ true
      → release d pba ≡ set_block d pba (record b { referenced_count = b.referenced_count - 1 })
  unfolding release
  release-shared h = rw (release, e, h) refl

  pub release-last :
      ltb 0 b.referenced_count ≡ false
      → release d pba
        ≡ record (set_block d pba (set_status trimed b)) { is_bottom_has_trimed_track = true }
  unfolding release
  release-last h = rw (release, e, h) refl

-- What a block is to a disk into which it was put twice.
module _ (d : Disk) (pba : ℕ) (b b' : Block) where
  put_twice : (set_block (set_block d pba b) pba b').storage pba ≡ b'
  put_twice = update_self (update d.storage pba b) pba b'

  put_elsewhere : (p : ℕ) → p ≢ pba → (set_block (set_block d pba b) pba b').storage p ≡ d.storage p
  put_elsewhere p ne =
      let apart : (pba == p) ≡ false = ground arith in
      update_ne (update d.storage pba b) pba p b' apart ∙ update_ne d.storage pba p b apart

release-Released :
    (d : Disk) (pba lba at : ℕ)
    → is_in_use (d.storage pba).status ≡ true
    → Place (d.storage pba) lba ((d.storage pba).referenced_count + 1) 0 at
    → Released d pba lba (release (without_owner d pba at) pba)
release-Released d pba lba at used p =
    let b = d.storage pba in
    let b₁ = record b { lba = shift_lba (b.referenced_count + 1 - 1 - at) at b.lba } in
    let here = update_self d.storage pba b₁ in
    elim (Bool-cases (ltb 0 b.referenced_count)) [
      | inl e ↦
          let b₂ = record b₁ { referenced_count = b.referenced_count - 1 } in
          rw (release-shared (without_owner d pba at) pba b₁ here e) (record {
            shared = λ more.
                rw (put_twice d pba b₁ b₂)
                  (status_of_used b.status used, omega arith, kept b more p);
            last = λ none_left. absurd (ground arith);
            hash = rw (put_twice d pba b₁ b₂) refl;
            others = put_elsewhere d pba b₁ b₂;
            capacity = rw (put_twice d pba b₁ b₂) refl;
            mapping = refl;
            report = refl;
          })
      | inr e ↦
          let b₂ = set_status trimed b₁ in
          rw (release-last (without_owner d pba at) pba b₁ here e) (record {
            shared = λ more. absurd (ground arith);
            last = λ none_left. rw (put_twice d pba b₁ b₂) (refl, none_left, refl);
            hash = rw (put_twice d pba b₁ b₂) refl;
            others = put_elsewhere d pba b₁ b₂;
            capacity = rw (put_twice d pba b₁ b₂) refl;
            mapping = refl;
            report = refl;
          })
    ]
  where
    kept :
        (b : Block)
        → 0 < b.referenced_count
        → Place b lba (b.referenced_count + 1) 0 at
        → slice
            (shift_lba (b.referenced_count + 1 - 1 - at) at b.lba)
            0
            (b.referenced_count - 1 + 1)
          ≡ erase lba (owners b)
    kept b more p =
        let size : b.referenced_count - 1 + 1 ≡ b.referenced_count + 1 - 1 = omega arith in
        let rounds : b.referenced_count + 1 - 1 - at ≡ 0 + (b.referenced_count + 1) - 1 - at =
          omega arith in
        rw (size, rounds) p.erased

delete_lba-without :
    (d : Disk) (pba lba : ℕ)
    → IsOwned d pba lba
    → (at : ℕ) × (delete_lba_in_storage d pba lba ≡ ok (true, without_owner d pba at))
      × Place (d.storage pba) lba ((d.storage pba).referenced_count + 1) 0 at
unfolding delete_lba_in_storage drop_lba
delete_lba-without d pba lba o =
    let b = d.storage pba in
    let few = o.few in
    let room = o.room in
    let small = o.small in
    let num : add32 b.referenced_count 1 ≡ b.referenced_count + 1 = ground arith in
    let fits : leb (b.referenced_count + 1) (2 ^ 31) ≡ true = ground arith in
    let same : lba % 2 ^ 32 ≡ lba = omega arith in
    let inside : leb (b.referenced_count + 1) b.lba_capacity ≡ true = ground arith in
    let (r, runs, (at, r_eq, p)) =
      find_lba-Place b lba (b.referenced_count + 1) 0 (omega arith) o.owner in
    (at, rw (num, fits, same, runs, r_eq, num, inside) refl, p)

pub trim_block-Released :
    (d : Disk) (pba lba : ℕ)
    → IsOwned d pba lba
    → Returns (trim_block d pba lba) (Released d pba lba)
unfolding trim_block
trim_block-Released d pba lba o =
    let on_disk : ltb pba d.report.max_block_num ≡ true = let l = o.on_disk in ground arith in
    let (at, runs, p) = delete_lba-without d pba lba o in
    (
      release (without_owner d pba at) pba,
      rw (on_disk, o.used, runs) refl,
      release-Released d pba lba at o.used p,
    )
