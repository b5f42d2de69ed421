-- ===== src/Dedupe/Buffer/Slots.antt =====
-- src/lba.c (buffer_write): the buffer is a list of hashes with their logical blocks.
use mathlib.Core.Option.{some-injective}
use imr_dedupe.Prelude.{
  ℕ, zero, suc, ◌+◌, ◌≤◌, ◌<◌, ◌≡◌, ◌↔◌, refl, sym, ap, ap₂, ◌∙◌, true, false, List, [], ◌∷◌, ◌++◌,
  Option, none, some, ◌==◌, ltb, if◌then◌else◌, update, length, Outcome, ok, stop, undefined,
  Returns, arith, Bool-cases, Option-cases, inl, inr,
}
use imr_dedupe.Disk.{Hash, hash_eq, BufferBlock, Disk, add32}
use imr_dedupe.Dedupe.Buffer.{
  set_slot, find_slot, new_slot, cleared, set_used, fill_slot, buffer_write,
}
use imr_dedupe.Dedupe.Buffer.Join.{
  slot_owners, IsFullSlot, IsSlot, full_or_free, join_slot-Joined, join_slot-overflow,
}

abbrev pub Slot : Type 0
Slot = Hash × List ℕ

-- The slots from `i` on, of which there are `n`.
abbrev pub slots : (ℕ → BufferBlock) → (n i : ℕ) → List Slot
slots f zero i = []
slots f (suc n) i = ((f i).hash, slot_owners (f i)) ∷ slots f n (i + 1)

-- What the buffer holds.
abbrev pub buffered : Disk → List Slot
buffered d = slots d.phase1_buf d.report.used_buffer_count 0

-- The logical block joins the first slot with its hash, or comes into a slot of its own at the end.
abbrev pub add_to : Hash → ℕ → List Slot → List Slot
add_to hash lba [] = (hash, lba ∷ []) ∷ []
add_to hash lba ((h, l) ∷ rest) =
    if hash_eq h hash then (h, l ++ (lba ∷ [])) ∷ rest else (h, l) ∷ add_to hash lba rest

slots_congr :
    (f g : ℕ → BufferBlock) (n i : ℕ)
    → ((j : ℕ) → i ≤ j → j < i + n → f j ≡ g j)
    → slots f n i ≡ slots g n i
slots_congr f g zero i h = refl
slots_congr f g (suc n) i h =
    ap₂ (λ (b : BufferBlock) (l : List Slot). (b.hash, slot_owners b) ∷ l)
      (h i (omega arith) (omega arith))
      (slots_congr f g n (i + 1) (λ j a c. h j (omega arith) (omega arith)))

module _ (d : Disk) (hash : Hash) (lba : ℕ) (b' : BufferBlock) where
  slots-join :
      (n i k : ℕ)
      → find_slot d hash n i ≡ some k
      → b'.hash ≡ (d.phase1_buf k).hash
      → slot_owners b' ≡ slot_owners (d.phase1_buf k) ++ (lba ∷ [])
      → (i ≤ k) × (slots (update d.phase1_buf k b') n i ≡ add_to hash lba (slots d.phase1_buf n i))
  unfolding find_slot
  slots-join zero i k e h o = cc
  slots-join (suc n) i k e h o = elim (Bool-cases (hash_eq (d.phase1_buf i).hash hash)) [
    | inl t ↦
        let e' : Path (Option ℕ) (some i) (some k) = rw (find_slot, t) at e in
        let at : i ≡ k = some-injective i k e' in
        let here : update d.phase1_buf k b' i ≡ b' = ground arith in
        let rest : slots (update d.phase1_buf k b') n (i + 1) ≡ slots d.phase1_buf n (i + 1) =
          slots_congr (update d.phase1_buf k b') d.phase1_buf n (i + 1) (λ j a c. ground arith) in
        (omega arith, rw (here, rest, h, o, ← at, t) refl)
    | inr t ↦
        let e' = rw (find_slot, t) at e in
        let (above, r) = slots-join n (i + 1) k e' h o in
        let here : update d.phase1_buf k b' i ≡ d.phase1_buf i = ground arith in
        (omega arith, rw (here, t, r) refl)
  ]

  slots-new :
      (n i k : ℕ)
      → k ≡ i + n
      → find_slot d hash n i ≡ none
      → b'.hash ≡ hash
      → slot_owners b' ≡ lba ∷ []
      → slots (update d.phase1_buf k b') (suc n) i ≡ add_to hash lba (slots d.phase1_buf n i)
  unfolding find_slot
  slots-new zero i k at e h o =
      let here : update d.phase1_buf k b' i ≡ b' = ground arith in rw (here, h, o) refl
  slots-new (suc n) i k at e h o = elim (Bool-cases (hash_eq (d.phase1_buf i).hash hash)) [
    | inl t ↦ let e' = rw (find_slot, t) at e in cc
    | inr t ↦
        let e' = rw (find_slot, t) at e in
        let here : update d.phase1_buf k b' i ≡ d.phase1_buf i = ground arith in
        let r = slots-new n (i + 1) k (omega arith) e' h o in
        rw (t, here) (ap (λ l. ((d.phase1_buf i).hash, slot_owners (d.phase1_buf i)) ∷ l) r)
  ]

-- What `buffer_write` needs of the buffer: the slots in use have room for what they hold, no slot
-- with the hash is grown and full, the slot after them has the array that `init_disk` gives it, and
-- the write does not fill the buffer.
pub record IsWritable (d : Disk) (hash : Hash) : Type 0 where
  pub slot : (k : ℕ) → k < d.report.used_buffer_count → IsSlot (d.phase1_buf k)
  pub grows :
      (k : ℕ)
      → k < d.report.used_buffer_count
      → hash_eq (d.phase1_buf k).hash hash ≡ true
      → ¬ IsFullSlot (d.phase1_buf k)
  pub next : (d.phase1_buf d.report.used_buffer_count).lba_capacity ≡ 4
  pub below : d.report.used_buffer_count + 1 < 32
  pub short : length hash < 20

find_slot-match :
    (d : Disk) (hash : Hash) (n i k : ℕ)
    → find_slot d hash n i ≡ some k
    → hash_eq (d.phase1_buf k).hash hash ≡ true
unfolding find_slot
find_slot-match d hash zero i k e = cc
find_slot-match d hash (suc n) i k e = elim (Bool-cases (hash_eq (d.phase1_buf i).hash hash)) [
  | inl t ↦
      let e' : Path (Option ℕ) (some i) (some k) = rw (find_slot, t) at e in
      rw (← some-injective i k e') t
  | inr t ↦ find_slot-match d hash n (i + 1) k (rw (find_slot, t) at e)
]

find_slot-below : (d : Disk) (hash : Hash) (n i k : ℕ) → find_slot d hash n i ≡ some k → k < i + n
unfolding find_slot
find_slot-below d hash zero i k e = cc
find_slot-below d hash (suc n) i k e = elim (Bool-cases (hash_eq (d.phase1_buf i).hash hash)) [
  | inl t ↦
      let e' : Path (Option ℕ) (some i) (some k) = rw (find_slot, t) at e in
      let at = some-injective i k e' in omega arith
  | inr t ↦ let below = find_slot-below d hash n (i + 1) k (rw (find_slot, t) at e) in omega arith
]

-- If the slots in use have room for the logical blocks that they hold, no slot with the hash is
-- grown and full, the slot after them has the array that it is given at first, the buffer is not
-- filled by the write and the hash is shorter than its field, then `buffer_write` returns, the
-- blocks on disk and the mapping stay, and the logical block is added to the first slot with the
-- hash, or to a slot of its own after the others if there is none, while the other slots stay as
-- they are.
pub buffer_write-buffered :
    (flush : Disk → Outcome Disk) (d : Disk) (lba : ℕ) (hash : Hash)
    → IsWritable d hash
    → Returns (buffer_write flush d lba hash) (λ d'.
      (buffered d' ≡ add_to hash lba (buffered d)) × (d'.storage ≡ d.storage) × (d'.ltp ≡ d.ltp))
unfolding buffer_write fill_slot new_slot
buffer_write-buffered flush d lba hash w =
    let used = d.report.used_buffer_count in
    elim (Option-cases (find_slot d hash used 0)) [
      | inl e ↦
          let below = w.below in
          let next = w.next in
          let num : add32 used 1 ≡ used + 1 = ground arith in
          let more : used + 1 ≡ suc used = omega arith in
          let in_buffer : ltb used 32 ≡ true = ground arith in
          let fits : ltb (length hash) 20 ≡ true = let h = w.short in ground arith in
          let partial : (used + 1 == 32) ≡ false = ground arith in
          let b' = record (d.phase1_buf used) {
            dedupe = false;
            hash = hash;
            lba = update (cleared (d.phase1_buf used)) 0 lba;
            referenced_count = 0;
          } in
          (
            set_used (set_slot d used b') (used + 1),
            rw (buffer_write, e, in_buffer, next, fits, num, partial) refl,
            (rw more (slots-new d hash lba b' used 0 used (omega arith) e refl refl), refl, refl),
          )
      | inr (k, e) ↦
          let same = find_slot-match d hash used 0 k e in
          let below : k < used = let h = find_slot-below d hash used 0 k e in omega arith in
          let (b', joins, j) =
            join_slot-Joined (d.phase1_buf k) lba (w.slot k below) (w.grows k below same) in
          let (above, added) = slots-join d hash lba b' used 0 k e j.hash j.owners in
          (set_slot d k b', rw (buffer_write, e, joins) refl, (added, refl, refl))
    ]

-- If a slot in use has the hash, and its array is as long as its capacity says and has room for the
-- logical blocks that it holds, then `buffer_write` writes past the end of that array exactly if the
-- slot has been grown and holds as many logical blocks as its capacity says.
pub buffer_write-overflow :
    (flush : Disk → Outcome Disk) (d : Disk) (lba : ℕ) (hash : Hash) (k : ℕ)
    → find_slot d hash d.report.used_buffer_count 0 ≡ some k
    → IsSlot (d.phase1_buf k)
    → (buffer_write flush d lba hash ≡ stop undefined) ↔ IsFullSlot (d.phase1_buf k)
unfolding buffer_write
buffer_write-overflow flush d lba hash k e v = (
  λ overflows. elim (full_or_free (d.phase1_buf k)) [
    | inl full ↦ full
    | inr free ↦
        let (b', joins, j) = join_slot-Joined (d.phase1_buf k) lba v free in
        let runs : buffer_write flush d lba hash ≡ ok (set_slot d k b') =
          rw (buffer_write, e, joins) refl in
        let both : Path (Outcome Disk) (stop undefined) (ok (set_slot d k b')) =
          sym overflows ∙ runs in
        cc
  ],
  λ full. rw (buffer_write, e, join_slot-overflow (d.phase1_buf k) lba v full) refl,
)
