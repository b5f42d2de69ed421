-- ===== src/RecordOp/Charges.antt =====
-- src/record_op.c: what a batch is charged in all, run by run.
use imr_dedupe.Prelude.{
  ℕ, zero, suc, ◌+◌, ◌-◌, ◌*◌, ◌%◌, ◌^◌, ◌≤◌, ◌<◌, ◌≡◌, refl, Bool, true, false, ◌||◌, List, [],
  ◌∷◌, ◌==◌, if◌then◌else◌, slice, length, length-slice, subst₂, Returns, returns_of_eq,
  returns_map, arith, Bool-cases, inl, inr,
}
use imr_dedupe.Disk.{
  OpMode, normal_op_mode, journaling_op_mode, Report, BbEntry, BbHead, add64, track_size,
}
use imr_dedupe.Batch.{entries}
use imr_dedupe.RecordOp.{
  time_size, record_write_physical_tracks, record_write_virtual_tracks,
  record_delete_physical_tracks, record_delete_virtual_tracks, record_read_physical_tracks,
  write_group, delete_group, from_first, group_loop, record_write, record_delete, read_loop,
  record_read,
}

-- How many entries are physical, and how many are virtual.
abbrev pub physical : List BbEntry → ℕ
physical [] = 0
physical (e ∷ l) = (if e.is_virtual then 0 else 1) + physical l

abbrev pub virtual : List BbEntry → ℕ
virtual [] = 0
virtual (e ∷ l) = (if e.is_virtual then 1 else 0) + virtual l

-- A counter of the report grew by `n`, modulo 2 ^ 64.
abbrev pub Grows : ℕ → ℕ → ℕ → Type 0
Grows n before after = after % 2 ^ 64 ≡ add64 before n

-- A report after writes of `phy` tracks and rewrites of `vir` tracks, whatever time that took: the
-- time goes to the write time of the mode and to the access time alike.
pub record WriteCharged (mode : OpMode) (phy vir : ℕ) (p q : Report) : Type 0 where
  pub written : Grows (phy * track_size) p.total_write_size q.total_write_size
  pub written_in_mode :
      Grows
        (phy * track_size)
        (time_size mode p).total_write_size
        (time_size mode q).total_write_size
  pub rewritten : Grows (vir * track_size) p.total_rewrite_size q.total_rewrite_size
  pub times :
      add64 q.total_access_time (time_size mode p).total_write_time
      ≡ add64 p.total_access_time (time_size mode q).total_write_time

-- The same of a secure deletion.
pub record DeleteCharged (phy vir : ℕ) (p q : Report) : Type 0 where
  pub written : Grows (phy * track_size) p.total_delete_write_size q.total_delete_write_size
  pub rewritten : Grows (vir * track_size) p.total_delete_rewrite_size q.total_delete_rewrite_size
  pub times :
      add64 q.total_access_time p.total_delete_time ≡ add64 p.total_access_time q.total_delete_time

group-WriteCharged :
    (mode : OpMode) (v : Bool) (c n : ℕ) (p : Report)
    → n ≤ c
    → (v ≡ false → n ≡ c)
    → WriteCharged mode n (c - n) p (write_group mode v c n p)
unfolding write_group record_write_physical_tracks record_write_virtual_tracks
group-WriteCharged normal_op_mode true c n p le same = omega arith
group-WriteCharged normal_op_mode false c n p le same = let e = same refl in omega arith
group-WriteCharged journaling_op_mode true c n p le same = omega arith
group-WriteCharged journaling_op_mode false c n p le same = let e = same refl in omega arith

group-DeleteCharged :
    (v : Bool) (c n : ℕ) (p : Report)
    → n ≤ c
    → (v ≡ false → n ≡ c)
    → DeleteCharged n (c - n) p (delete_group v c n p)
unfolding delete_group record_delete_physical_tracks record_delete_virtual_tracks
group-DeleteCharged true c n p le same = omega arith
group-DeleteCharged false c n p le same = let e = same refl in omega arith

write_both :
    (mode : OpMode) (a b m n : ℕ) (p q r : Report)
    → WriteCharged mode a b p q
    → WriteCharged mode m n q r
    → WriteCharged mode (a + m) (b + n) p r
write_both normal_op_mode a b m n p q r x y = omega arith
write_both journaling_op_mode a b m n p q r x y = omega arith

delete_both :
    (a b m n : ℕ) (p q r : Report)
    → DeleteCharged a b p q
    → DeleteCharged m n q r
    → DeleteCharged (a + m) (b + n) p r
delete_both a b m n p q r x y = omega arith

-- Charges add up over the runs that the loop finds.
module _ (Charged : ℕ → ℕ → Report → Report → Type 0) (group : Bool → ℕ → ℕ → Report → Report)
    (one : (v : Bool) (c n : ℕ) (p : Report)
      → n ≤ c
      → (v ≡ false → n ≡ c)
      → Charged n (c - n) p (group v c n p))
    (both : (a b m n : ℕ) (p q r : Report)
      → Charged a b p q
      → Charged m n q r
      → Charged (a + m) (b + n) p r) where
  resize : {a b m n : ℕ} (p q : Report) → Charged a b p q → a ≡ m → b ≡ n → Charged m n p q
  resize p q x e f = subst₂ (λ (i j : ℕ). Charged i j p q) e f x

  loop-Charged :
      (curr : BbEntry) (l : List BbEntry) (c n : ℕ) (v : Bool) (p : Report)
      → n < c
      → (v ≡ false → n + 1 ≡ c)
      → Charged
          (n + physical (curr ∷ l))
          (c - 1 - n + virtual (curr ∷ l))
          p
          (group_loop group curr l c n v p)
  unfolding group_loop
  loop-Charged curr [] c n v p lt same =
      let w = v || curr.is_virtual in
      let k = if curr.is_virtual then n else n + 1 in
      resize _ _ (one w c k p (ground arith) (λ e. ground arith)) (ground arith) (ground arith)
  loop-Charged curr (next ∷ l) c n v p lt same =
      let w = v || curr.is_virtual in
      let k = if curr.is_virtual then n else n + 1 in
      elim (Bool-cases (add64 curr.pba 1 == next.pba)) [
        | inl e ↦
            rw (e, group_loop)
              (resize _ _ (loop-Charged next l (c + 1) k w p (ground arith) (λ e'. ground arith))
                (ground arith) (ground arith))
        | inr e ↦
            rw (e, group_loop)
              (resize _ _
                (both k (c - k) (0 + physical (next ∷ l)) (1 - 1 - 0 + virtual (next ∷ l)) p
                  (group w c k p) _ (one w c k p (ground arith) (λ e'. ground arith))
                  (loop-Charged next l 1 0 false (group w c k p) (omega arith) (λ e'. refl)))
                (ground arith) (ground arith))
      ]

  first-Charged :
      (h : BbHead) (p : Report)
      → 0 < h.size
      → Charged (physical (entries h)) (virtual (entries h)) p (from_first group h p)
  first-Charged h p some_entry = go h.size refl
    where
      go :
          (n : ℕ)
          → h.size ≡ n
          → Charged (physical (entries h)) (virtual (entries h)) p (from_first group h p)
      go zero f = absurd (omega arith)
      go (suc n) f =
          let less : suc n - 1 ≡ n = omega arith in
          rw (f, less)
            (resize _ _
              (loop-Charged (h.table 0) (slice h.table 1 n) 1 0 (h.table 0).is_virtual p
                (omega arith) (λ e. refl))
              (omega arith) (omega arith))

-- `record_write` charges each physical entry of the extended table, which has one at least, one
-- track of writing, each virtual entry one track of rewriting, and the time to both totals.
pub record_write-WriteCharged :
    (mode : OpMode) (h : BbHead) (p : Report)
    → 0 < h.size
    → WriteCharged mode (physical (entries h)) (virtual (entries h)) p (record_write mode h p)
unfolding record_write
record_write-WriteCharged mode =
    first-Charged (WriteCharged mode) (write_group mode) (group-WriteCharged mode) (write_both mode)

-- `record_delete` charges a secure deletion in the same way.
record_delete-DeleteCharged :
    (h : BbHead) (p : Report)
    → 0 < h.size
    → DeleteCharged (physical (entries h)) (virtual (entries h)) p (record_delete h p)
unfolding record_delete
record_delete-DeleteCharged =
    first-Charged DeleteCharged delete_group group-DeleteCharged delete_both

-- For an extended table with no entry `record_write` still charges the stale first entry of the
-- table: as a written track if it is physical, and as a rewritten one if it is virtual.
record_write-empty :
    (mode : OpMode) (h : BbHead) (p : Report)
    → h.size ≡ 0
    → WriteCharged mode
        (physical (h.table 0 ∷ []))
        (virtual (h.table 0 ∷ []))
        p
        (record_write mode h p)
unfolding record_write
record_write-empty mode h p empty = rw empty (
    resize (WriteCharged mode) (write_group mode) (group-WriteCharged mode) (write_both mode) _ _
      (loop-Charged (WriteCharged mode) (write_group mode) (group-WriteCharged mode)
        (write_both mode) (h.table 0) [] 1 0 (h.table 0).is_virtual p (omega arith) (λ e. refl))
      (omega arith) (omega arith))

read_tracks :
    (mode : OpMode) (c : ℕ) (p : Report)
    → Grows
        (c * track_size)
        p.total_read_size
        (record_read_physical_tracks mode c p).total_read_size
unfolding record_read_physical_tracks
read_tracks normal_op_mode c p = omega arith
read_tracks journaling_op_mode c p = omega arith

read_loop-Grows :
    (mode : OpMode) (curr : BbEntry) (l : List BbEntry) (c : ℕ) (p : Report)
    → virtual (curr ∷ l) ≡ 0
    → 0 < c
    → Returns
        (read_loop mode curr l c p)
        λ q. Grows ((c - 1 + length (curr ∷ l)) * track_size) p.total_read_size q.total_read_size
unfolding read_loop
read_loop-Grows mode curr [] c p physical_only pos = (_, refl, omega (arith, read_tracks mode c p))
read_loop-Grows mode curr (next ∷ l) c p physical_only pos =
    let curr_physical : curr.is_virtual ≡ false = ground arith in
    let rest_physical : virtual (next ∷ l) ≡ 0 = ground arith in
    elim (Bool-cases (add64 curr.pba 1 == next.pba)) [
      | inl e ↦ returns_of_eq (rw (curr_physical, e, read_loop) refl) (
          returns_map (λ q grows. omega arith)
            (read_loop-Grows mode next l (c + 1) p rest_physical (omega arith)))
      | inr e ↦
          let p' = record_read_physical_tracks mode c p in
          returns_of_eq (rw (curr_physical, e, read_loop) refl) (
            returns_map (λ q grows. omega (arith, read_tracks mode c p))
              (read_loop-Grows mode next l 1 p' rest_physical (omega arith)))
    ]

-- `record_read` of a block table that has an entry, and none that is virtual, does not exit, and
-- charges each entry one track of reading.
pub record_read-Grows :
    (mode : OpMode) (h : BbHead) (p : Report)
    → 0 < h.size
    → virtual (entries h) ≡ 0
    → Returns
        (record_read mode h p)
        λ q. Grows (h.size * track_size) p.total_read_size q.total_read_size
unfolding record_read
record_read-Grows mode h p some_entry = go h.size refl
  where
    go :
        (n : ℕ)
        → h.size ≡ n
        → virtual (entries h) ≡ 0
        → Returns
            (record_read mode h p)
            λ q. Grows (h.size * track_size) p.total_read_size q.total_read_size
    go zero f physical_only = absurd (omega arith)
    go (suc n) f physical_only =
        let less : suc n - 1 ≡ n = omega arith in
        let l = slice h.table 1 n in
        returns_of_eq (rw (f, less) refl) (
          returns_map (λ q grows. omega (arith, length-slice h.table 1 n))
            (read_loop-Grows mode (h.table 0) l 1 p (rw f at physical_only) (omega arith)))
