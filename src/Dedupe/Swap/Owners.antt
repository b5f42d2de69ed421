-- ===== src/Dedupe/Swap/Owners.antt =====
-- src/active_swap.c (ltp_table_swap): the owners of two blocks are mapped to the other one.
use imr_dedupe.Prelude.{
  ℕ, zero, suc, ◌+◌, ◌%◌, ◌^◌, ◌≤◌, ◌<◌, ◌≡◌, refl, ap, ◌∙◌, true, ◌&&◌, List, ◌∷◌, ◌==◌, ltb,
  if◌then◌else◌, update, update_self, update_ne, slice, subst, Returns, returns_bind, returns_map,
  returns_of_eq, arith, Bool-cases, inl, inr,
}
use imr_dedupe.Disk.{Block, LtpEntry, Disk, add32}
use imr_dedupe.Dedupe.Release.{member, owners}
use imr_dedupe.Dedupe.Swap.{move_lbas, ltp_table_swap}

abbrev pub remap : ℕ → LtpEntry → LtpEntry
remap pba e = record e { pba = pba }

-- The logical blocks of the list are mapped to the block, and nothing else is changed.
record Moved (d : Disk) (pba : ℕ) (l : List ℕ) (d' : Disk) : Type 0 where
  ltp : (x : ℕ) → d'.ltp x ≡ (if member x l then remap pba (d.ltp x) else d.ltp x)
  storage : d'.storage ≡ d.storage
  report : d'.report ≡ d.report
  table : d'.hash_table ≡ d.hash_table

-- The entry of the first logical block is rewritten, and then those of the others.
moved_first :
    (d : Disk) (pba y x : ℕ) (l : List ℕ)
    → (if member x l
        then remap pba (update d.ltp y (remap pba (d.ltp y)) x)
        else update d.ltp y (remap pba (d.ltp y)) x)
      ≡ (if member x (y ∷ l) then remap pba (d.ltp x) else d.ltp x)
moved_first d pba y x l = elim (Bool-cases (y == x)) [
  | inr other ↦ rw (update_ne d.ltp y x (remap pba (d.ltp y)) other, other) refl
  | inl same ↦
      let here : y ≡ x = ground arith in
      let self : (x == x) ≡ true = ground arith in
      rw (here, update_self d.ltp x (remap pba (d.ltp x)), self)
        (elim (Bool-cases (member x l)) [ inl m ↦ rw m refl | inr m ↦ rw m refl ])
]

move_lbas-Moved :
    (d : Disk) (from pba n i : ℕ)
    → i + n ≤ (d.storage from).lba_capacity
    → ((x : ℕ)
        → member x (slice (d.storage from).lba i n) ≡ true
        → x < d.report.max_logical_block_num)
    → Returns (move_lbas from pba n i d) (Moved d pba (slice (d.storage from).lba i n))
unfolding move_lbas
move_lbas-Moved d from pba zero i fits logical =
    (d, refl, record { ltp = λ x. refl; storage = refl; report = refl; table = refl })
move_lbas-Moved d from pba (suc n) i fits logical =
    let b = d.storage from in
    let y = b.lba i in
    let d₁ = record d { ltp = update d.ltp y (remap pba (d.ltp y)) } in
    let first : member y (slice b.lba i (suc n)) ≡ true = ground arith in
    let below = logical y first in
    let inside : (ltb i b.lba_capacity && ltb y d.report.max_logical_block_num) ≡ true =
      ground arith in
    returns_of_eq (rw (move_lbas, inside) refl) (
      returns_map
        (λ d' m. record {
          ltp = λ x. m.ltp x ∙ moved_first d pba y x (slice b.lba (i + 1) n);
          storage = m.storage;
          report = m.report;
          table = m.table;
        })
        (move_lbas-Moved d₁ from pba n (i + 1) (omega arith)
          (λ x m. logical x (later y x (slice b.lba (i + 1) n) m))))
  where
    later : (y x : ℕ) (l : List ℕ) → member x l ≡ true → member x (y ∷ l) ≡ true
    later y x l m = elim (Bool-cases (y == x)) [ inl e ↦ rw e refl | inr e ↦ rw (e, m) refl ]

-- A block whose owners are exactly logical blocks of the disk that are mapped to it.
pub record IsHeld (d : Disk) (p : ℕ) : Type 0 where
  pub on_disk : p < d.report.max_block_num
  pub small : p < 2 ^ 32
  pub room : (d.storage p).referenced_count + 1 ≤ (d.storage p).lba_capacity
  pub few : (d.storage p).referenced_count < 2 ^ 31
  pub mapped :
      (x : ℕ)
      → member x (owners (d.storage p)) ≡ true
      → (x < d.report.max_logical_block_num) × ((d.ltp x).pba ≡ p)

-- The owners of two blocks are mapped to the other one.
pub record OwnersSwapped (d : Disk) (from to : ℕ) (d' : Disk) : Type 0 where
  pub ltp :
      (x : ℕ)
      → d'.ltp x ≡ (
          if member x (owners (d.storage to))
          then remap from (d.ltp x)
          else if member x (owners (d.storage from))
          then remap to (d.ltp x)
          else d.ltp x)
  pub storage : d'.storage ≡ d.storage
  pub report : d'.report ≡ d.report
  pub table : d'.hash_table ≡ d.hash_table

twice :
    (d : Disk) (from to x : ℕ) (k l : List ℕ) (e : LtpEntry)
    → e ≡ (if member x l then remap to (d.ltp x) else d.ltp x)
    → (if member x k then remap from e else e) ≡ (
        if member x k
        then remap from (d.ltp x)
        else if member x l
        then remap to (d.ltp x)
        else d.ltp x)
twice d from to x k l e h = elim (Bool-cases (member x k)) [
  | inr no_k ↦ rw no_k h
  | inl yes_k ↦
      rw (yes_k, h) (elim (Bool-cases (member x l)) [ inl m ↦ rw m refl | inr m ↦ rw m refl ])
]

pub ltp_table_swap-OwnersSwapped :
    (d : Disk) (from to : ℕ)
    → IsHeld d from
    → IsHeld d to
    → Returns (ltp_table_swap d from to) (OwnersSwapped d from to)
unfolding ltp_table_swap
ltp_table_swap-OwnersSwapped d from to f t =
    let few_f = f.few in
    let few_t = t.few in
    let small = t.small in
    let room_f : 0 + ((d.storage from).referenced_count + 1) ≤ (d.storage from).lba_capacity =
      let r = f.room in omega arith in
    let room_t : 0 + ((d.storage to).referenced_count + 1) ≤ (d.storage to).lba_capacity =
      let r = t.room in omega arith in
    let same : to % 2 ^ 32 ≡ to = omega arith in
    let num_f : add32 (d.storage from).referenced_count 1 ≡ (d.storage from).referenced_count + 1 =
      ground arith in
    let num_t : add32 (d.storage to).referenced_count 1 ≡ (d.storage to).referenced_count + 1 =
      ground arith in
    rw (same, num_f)
      (returns_bind _
        (move_lbas-Moved d from to ((d.storage from).referenced_count + 1) 0 room_f
          (λ x m. (f.mapped x m).0))
        (λ d' m.
          let count : add32 (d'.storage to).referenced_count 1
              ≡ (d'.storage to).referenced_count + 1 =
            rw m.storage num_t in
          let room : 0 + ((d'.storage to).referenced_count + 1) ≤ (d'.storage to).lba_capacity =
            rw m.storage room_t in
          let logical = λ (x : ℕ) (h : member x (owners (d'.storage to)) ≡ true).
            let below : x < d'.report.max_logical_block_num =
              rw m.report
                (t.mapped x
                  (subst (λ (g : ℕ → Block). member x (owners (g to)) ≡ true) m.storage h)).0 in
            below in
          rw count (
            returns_map
              (λ d'' m'. record {
                ltp = λ x. swapped d' m d'' m' x;
                storage = m'.storage ∙ m.storage;
                report = m'.report ∙ m.report;
                table = m'.table ∙ m.table;
              })
              (move_lbas-Moved d' to from ((d'.storage to).referenced_count + 1) 0 room logical))))
  where
    swapped :
        (d' : Disk)
        → Moved d to (owners (d.storage from)) d'
        → (d'' : Disk) → Moved d' from (owners (d'.storage to)) d''
        → (x : ℕ)
        → d''.ltp x ≡ (
            if member x (owners (d.storage to))
            then remap from (d.ltp x)
            else if member x (owners (d.storage from))
            then remap to (d.ltp x)
            else d.ltp x)
    swapped d' m d'' m' x =
        m'.ltp x
        ∙ ap
            (λ (g : ℕ → Block).
              if member x (owners (g to)) then remap from (d'.ltp x) else d'.ltp x)
            m.storage
        ∙ twice d from to x (owners (d.storage to)) (owners (d.storage from)) (d'.ltp x) (m.ltp x)
