-- ===== src/Dedupe/Trim/Consistent.antt =====
-- src/lba.c (dedupe_trim): the mapping and the owners of the blocks agree before and after a trim.
use imr_dedupe.Prelude.{
  ℕ, ◌+◌, ◌<◌, ◌≡◌, ◌≢◌, refl, true, false, List, [], ◌∷◌, ◌==◌, ltb, Returns, arith, Bool-cases,
  inl, inr, length-slice, length,
}
use imr_dedupe.Disk.{Hash, LtpEntry, Disk}
use imr_dedupe.Dedupe.{lba_to_pba, is_live, trimmed_entry, dedupe_trim}
use imr_dedupe.Dedupe.Release.{erase, member, owners, IsOwned, Released}
use imr_dedupe.Dedupe.Trim.{dedupe_trim-Released}

-- Each logical block with a valid entry is among the owners of a block that is in use.
pub record IsConsistent (d : Disk) : Type 0 where
  pub owned :
      (l : ℕ)
      → l < d.report.max_logical_block_num
      → (d.ltp l).valid ≡ true
      → IsOwned d (lba_to_pba d l) l

member-erase : (x y : ℕ) (l : List ℕ) → x ≢ y → member x l ≡ true → member x (erase y l) ≡ true
member-erase x y [] ne h = h
member-erase x y (z ∷ l) ne h = elim (Bool-cases (z == x)) [
  | inl e ↦
      let other : (z == y) ≡ false = elim (Bool-cases (z == y)) [
        | inl e' ↦ let same : x ≡ y = ground arith in absurd (ne same)
        | inr e' ↦ e'
      ] in
      rw (other, e) refl
  | inr e ↦ elim (Bool-cases (z == y)) [
    | inl e' ↦ rw e' (rw e at h)
    | inr e' ↦ rw (e', e) (member-erase x y l ne (rw e at h))
  ]
]

-- Two owners are more than one.
member-two : (x y : ℕ) (l : List ℕ) → x ≢ y → member x l ≡ true → member y l ≡ true → 1 < length l
member-two x y [] ne h k = cc
member-two x y (z ∷ []) ne h k = elim (Bool-cases (z == x)) [
  | inr e ↦ let h' = rw e at h in cc
  | inl e ↦ elim (Bool-cases (z == y)) [
    | inl e' ↦ let same : x ≡ y = ground arith in absurd (ne same)
    | inr e' ↦ let k' = rw e' at k in cc
  ]
]
member-two x y (z ∷ w ∷ l) ne h k = omega arith

-- An owner that stays.
stays :
    (d d' : Disk) (p lba l : ℕ)
    → l ≢ lba
    → IsOwned d p lba
    → IsOwned d p l
    → Released (record d { ltp = d'.ltp }) p lba d'
    → IsOwned d' p l
stays d d' p lba l ne o o' r =
    let b = d.storage p in
    let two = member-two l lba (owners b) ne o'.owner o.owner in
    let size = length-slice b.lba 0 (b.referenced_count + 1) in
    let (used, less, kept) = r.shared (omega arith) in
    let capacity = r.capacity in
    let room = o.room in
    let few = o.few in
    record {
      on_disk = rw r.report o.on_disk;
      used = rw used refl;
      small = o'.small;
      room = omega arith;
      few = omega arith;
      owner = rw kept (member-erase l lba (owners b) ne o'.owner);
    }

-- The conditions say nothing of other blocks.
elsewhere :
    (d d' : Disk) (p l : ℕ)
    → d'.storage p ≡ d.storage p
    → d'.report ≡ d.report
    → IsOwned d p l
    → IsOwned d' p l
elsewhere d d' p l same report o = record {
  on_disk = rw report o.on_disk;
  used = rw same o.used;
  small = o.small;
  room = rw same o.room;
  few = rw same o.few;
  owner = rw same o.owner;
}

-- If every valid entry of the mapping leads to a block in use of which its logical block is an owner,
-- then a trim of a logical block of the disk, whether it is mapped with this hash or not, returns a
-- disk of which the same is true, with the report that it had.
pub dedupe_trim-IsConsistent :
    (d : Disk) (lba : ℕ) (hash : Hash)
    → lba < d.report.max_logical_block_num
    → IsConsistent d
    → Returns (dedupe_trim d lba hash) (λ d'. IsConsistent d' × (d'.report ≡ d.report))
unfolding dedupe_trim lba_to_pba
dedupe_trim-IsConsistent d lba hash inside m = elim (Bool-cases (is_live (d.ltp lba) hash)) [
  | inr dead ↦
      let inside' : ltb lba d.report.max_logical_block_num ≡ true = ground arith in
      (d, rw (inside', dead) refl, (m, refl))
  | inl live ↦
      let o = m.owned lba inside (valid_of_live (d.ltp lba) live) in
      let (d', runs, (here, others, r)) = dedupe_trim-Released d lba hash inside live o in
      (d', runs, (record { owned = kept d' o here others r }, r.report))
]
  where
    valid_of_live : (e : LtpEntry) → is_live e hash ≡ true → e.valid ≡ true
    valid_of_live e live = elim (Bool-cases e.valid) [
      | inl h ↦ h
      | inr h ↦ let live' = rw h at live in cc
    ]

    kept :
        (d' : Disk)
        → IsOwned d (lba_to_pba d lba) lba
        → d'.ltp lba ≡ trimmed_entry (d.ltp lba)
        → ((l : ℕ) → l ≢ lba → d'.ltp l ≡ d.ltp l)
        → Released (record d { ltp = d'.ltp }) (lba_to_pba d lba) lba d'
        → (l : ℕ) → l < d'.report.max_logical_block_num
        → (d'.ltp l).valid ≡ true
        → IsOwned d' (lba_to_pba d' l) l
    kept d' o here others r l below valid = elim (Bool-cases (l == lba)) [
      | inl e ↦
          let at : l ≡ lba = ground arith in
          let valid' : (trimmed_entry (d.ltp lba)).valid ≡ true = rw (at, here) at valid in cc
      | inr e ↦
          let apart : l ≢ lba = λ h. ground arith in
          let same = others l apart in
          let o' = m.owned l (rw r.report at below) (rw same at valid) in
          rw (lba_to_pba, same)
            (elim (Bool-cases ((d.ltp l).pba == (d.ltp lba).pba)) [
              | inl f ↦
                  let at : (d.ltp l).pba ≡ (d.ltp lba).pba = ground arith in
                  rw at (stays d d' (d.ltp lba).pba lba l apart o (rw at at o') r)
              | inr f ↦
                  let away : (d.ltp l).pba ≢ (d.ltp lba).pba = λ h. ground arith in
                  elsewhere d d' (d.ltp l).pba l (r.others (d.ltp l).pba away) r.report o'
            ])
    ]
