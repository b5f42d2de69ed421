-- ===== src/Dedupe/Buffer/Join.antt =====
-- src/lba.c (buffer_write): one more logical block in a slot of the buffer.
use imr_dedupe.Prelude.{
  ℕ, suc, ◌+◌, ◌*◌, ◌%◌, ◌^◌, ◌≤◌, ◌<◌, ◌≡◌, ◌≢◌, ◌⊎◌, refl, true, false, List, [], ◌∷◌, ◌++◌, ◌==◌,
  ltb, if◌then◌else◌, update, slice, slice-update_end, stop, undefined, Returns, arith, Bool-cases,
  inl, inr,
}
use imr_dedupe.Disk.{BufferBlock, add32}
use imr_dedupe.Dedupe.Buffer.{room, join_slot}

-- The logical blocks that a slot holds, the oldest first.
abbrev pub slot_owners : BufferBlock → List ℕ
slot_owners b = slice b.lba 0 (b.referenced_count + 1)

-- The slot has been grown and its array is full.
abbrev pub IsFullSlot : BufferBlock → Type 0
IsFullSlot b = (b.lba_capacity ≢ 4) × (b.referenced_count + 1 ≡ b.lba_capacity)

-- The array of a slot has room for the logical blocks that it holds.
pub record IsSlot (b : BufferBlock) : Type 0 where
  pub held : b.referenced_count < room b
  pub least : 4 ≤ b.lba_capacity
  pub small : b.lba_capacity < 2 ^ 31

pub full_or_free : (b : BufferBlock) → IsFullSlot b ⊎ ¬ IsFullSlot b
full_or_free b = elim (Bool-cases (b.lba_capacity == 4)) [
  | inl t ↦ inr (λ (grown, full). let at : b.lba_capacity ≡ 4 = ground arith in grown at)
  | inr t ↦ elim (Bool-cases (b.referenced_count + 1 == b.lba_capacity)) [
    | inl u ↦
        let at : b.referenced_count + 1 ≡ b.lba_capacity = ground arith in inl (ground arith, at)
    | inr u ↦ inr (λ (grown, full). ground arith)
  ]
]

-- What joining a slot comes to.
pub record Joined (b : BufferBlock) (lba : ℕ) (b' : BufferBlock) : Type 0 where
  pub hash : b'.hash ≡ b.hash
  pub owners : slot_owners b' ≡ slot_owners b ++ (lba ∷ [])
  pub valid : IsSlot b'

abbrev grown_slot : BufferBlock → (lba capacity : ℕ) → BufferBlock
grown_slot b lba capacity = record b {
  lba = update b.lba (b.referenced_count + 1) lba;
  referenced_count = b.referenced_count + 1;
  lba_capacity = capacity;
  dedupe = true;
}

pub join_slot-Joined :
    (b : BufferBlock) (lba : ℕ)
    → IsSlot b
    → ¬ IsFullSlot b
    → Returns (join_slot b lba) (Joined b lba)
unfolding join_slot
join_slot-Joined b lba v free =
    let held = v.held in
    let small = v.small in
    let least = v.least in
    let num : add32 b.referenced_count 1 ≡ b.referenced_count + 1 = ground arith in
    let more : b.referenced_count + 1 + 1 ≡ suc (b.referenced_count + 1) = omega arith in
    let owners : slice (update b.lba (b.referenced_count + 1) lba) 0 (b.referenced_count + 1 + 1)
        ≡ slot_owners b ++ (lba ∷ []) =
      rw more (slice-update_end b.lba (b.referenced_count + 1) lba) in
    elim (Bool-cases (ltb b.lba_capacity (b.referenced_count + 1))) [
      | inl e ↦
          let fits : ltb (b.referenced_count + 1)
                (if b.lba_capacity * 2 % 2 ^ 32 == 4 then 5 else b.lba_capacity * 2 % 2 ^ 32)
              ≡ true =
            ground arith in
          (
            grown_slot b lba (b.lba_capacity * 2 % 2 ^ 32),
            rw (num, e, fits) refl,
            record {
              hash = refl;
              owners = owners;
              valid = record { held = ground arith; least = ground arith; small = ground arith };
            },
          )
      | inr e ↦
          let fits : ltb (b.referenced_count + 1) (room b) ≡ true = ground arith in
          (
            grown_slot b lba b.lba_capacity,
            rw (num, e, fits) refl,
            record {
              hash = refl;
              owners = owners;
              valid = record { held = ground arith; least = least; small = small };
            },
          )
    ]

-- A slot of the buffer that is grown and full takes no further logical block: its array is written
-- past its end.
pub join_slot-overflow :
    (b : BufferBlock) (lba : ℕ) → IsSlot b → IsFullSlot b → join_slot b lba ≡ stop undefined
unfolding join_slot
join_slot-overflow b lba v (grown, full) =
    let small = v.small in
    let num : add32 b.referenced_count 1 ≡ b.referenced_count + 1 = ground arith in
    let same : ltb b.lba_capacity (b.referenced_count + 1) ≡ false = ground arith in
    let out : ltb (b.referenced_count + 1) (room b) ≡ false = ground arith in
    rw (num, same, out) refl
