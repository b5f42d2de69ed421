-- ===== src/Files/Collect.antt =====
-- src/lba.c (native_lba_delete): the loop that collects the blocks of a file.
use mathlib.Core.List.{append-nil, append_assoc}
use imr_dedupe.Prelude.{
  ℕ, zero, suc, ◌+◌, ◌≤◌, ◌<◌, ◌≡◌, ◌⊎◌, refl, sym, ap, ◌∙◌, Bool, true, false, ◌&&◌, List, [], ◌∷◌,
  ◌++◌, ◌==◌, ltb, leb, if◌then◌else◌, length, Returns, returns_of_eq, returns_map, arith,
  Bool-cases, inl, inr,
}
use imr_dedupe.Disk.{BbEntry, BatchTable, Disk}
use imr_dedupe.Batch.{entry, entries, batch_add}
use imr_dedupe.Batch.Extend.{tracks}
use imr_dedupe.BlockIo.Sort.{all_fit, count}
use imr_dedupe.BlockIo.Delete.{IsBacked, named_by}
use imr_dedupe.Dedupe.{lba_to_pba}
use imr_dedupe.BlockIo.Single.{entries-add}
use imr_dedupe.Files.{is_ltp_mapping_valid, collect_file}

-- The entry is valid, and of the file.
abbrev pub belongs : Disk → (fid l : ℕ) → Bool
belongs d fid l = (d.ltp l).valid && (d.ltp l).fid == fid

-- The blocks of the file, of `n` logical blocks from `i` on.
abbrev pub of_file : Disk → (fid n i : ℕ) → List BbEntry
of_file d fid zero i = []
of_file d fid (suc n) i =
    if belongs d fid i
    then entry (d.ltp i).pba false ∷ of_file d fid n (i + 1)
    else of_file d fid n (i + 1)

-- The file's logical blocks are mapped to blocks of the disk in use that name them first.
pub record IsStored (d : Disk) (fid : ℕ) : Type 0 where
  pub on_disk :
      (l : ℕ)
      → l < d.report.max_block_num
      → belongs d fid l ≡ true
      → (d.ltp l).pba < d.report.max_block_num
  pub named :
      (l : ℕ)
      → l < d.report.max_block_num
      → belongs d fid l ≡ true
      → (d.storage (d.ltp l).pba).lba 0 ≡ l
  pub backed :
      (l : ℕ) → l < d.report.max_block_num → belongs d fid l ≡ true → IsBacked d (d.ltp l).pba

abbrev pub with_table : Disk → BatchTable → Disk
with_table d g = record d { gbtable = g }

pub collect_file-entries :
    (d : Disk) (fid n i k : ℕ) (g : BatchTable)
    → i + n ≤ d.report.max_logical_block_num
    → Returns (collect_file fid n i (with_table d g, k)) (λ r.
      (g' : BatchTable) × (r ≡ (with_table d g', k + length (of_file d fid n i)))
      × (entries g'.block_head ≡ entries g.block_head ++ of_file d fid n i))
unfolding collect_file is_ltp_mapping_valid lba_to_pba batch_add
collect_file-entries d fid zero i k g inside =
    let same : k + 0 ≡ k = omega arith in
    ((with_table d g, k), refl, (g, rw same refl, sym (append-nil (entries g.block_head))))
collect_file-entries d fid (suc n) i k g inside =
    let here : ltb i d.report.max_logical_block_num ≡ true = ground arith in
    elim (Bool-cases (belongs d fid i)) [
      | inl e ↦
          let number : k + 1 + length (of_file d fid n (i + 1))
              ≡ k + suc (length (of_file d fid n (i + 1))) =
            omega arith in
          let g₁ = batch_add (d.ltp i).pba g in
          returns_of_eq (rw (here, e) refl) (
            returns_map
              (λ r (g', same, l). (
                g',
                rw (e, ← number) same,
                rw e (
                    l
                    ∙ ap (λ m. m ++ of_file d fid n (i + 1))
                        (entries-add g.block_head (d.ltp i).pba)
                    ∙ append_assoc (entries g.block_head) (entry (d.ltp i).pba false ∷ [])
                        (of_file d fid n (i + 1))),
              ))
              (collect_file-entries d fid n (i + 1) (k + 1) g₁ (omega arith)))
      | inr e ↦
          returns_of_eq (rw (here, e) refl)
            (returns_map (λ r c. rw e c) (collect_file-entries d fid n (i + 1) k g (omega arith)))
    ]

-- The block belongs to the file, through the logical block that it names first.
abbrev pub holds_file : Disk → (fid n i q : ℕ) → Bool
holds_file d fid n i q =
    let x = (d.storage q).lba 0 in
    (leb i x && ltb x (i + n)) && (belongs d fid x && (d.ltp x).pba == q)

module _ (d : Disk) (fid : ℕ) (s : IsStored d fid) where
  pub tracks-of_file :
      (n i q : ℕ)
      → i + n ≤ d.report.max_block_num
      → tracks (of_file d fid n i) q ≡ holds_file d fid n i q
  tracks-of_file zero i q inside = ground arith
  tracks-of_file (suc n) i q inside =
      let rest = tracks-of_file n (i + 1) q (omega arith) in
      elim (Bool-cases (belongs d fid i)) [
        | inl e ↦ elim (Bool-cases ((d.ltp i).pba == q)) [
          | inl f ↦
              let at : (d.ltp i).pba ≡ q = ground arith in
              let x : (d.storage q).lba 0 ≡ i = rw at at (s.named i (omega arith) e) in
              rw (e, f, x, e, f) (ground arith)
          | inr f ↦ rw (e, f) (rest ∙ other n i q (inr f))
        ]
        | inr e ↦ rw e (rest ∙ other n i q (inl e))
      ]
    where
      other :
          (n i q : ℕ)
          → (belongs d fid i ≡ false) ⊎ (((d.ltp i).pba == q) ≡ false)
          → holds_file d fid n (i + 1) q ≡ holds_file d fid (suc n) i q
      other n i q why = elim (Bool-cases ((d.storage q).lba 0 == i)) [
        | inr f ↦
            let low : leb (i + 1) ((d.storage q).lba 0) ≡ leb i ((d.storage q).lba 0) =
              ground arith in
            let high : ltb ((d.storage q).lba 0) (i + 1 + n)
                ≡ ltb ((d.storage q).lba 0) (i + suc n) =
              ground arith in
            rw (low, high) refl
        | inl f ↦
            let at : (d.storage q).lba 0 ≡ i = ground arith in
            let low : leb (i + 1) i ≡ false = ground arith in
            elim why [
              | inl e ↦ rw (at, low, e) (ground arith)
              | inr e ↦ rw (at, low, e) (ground arith)
            ]
      ]

  pub count-of_file :
      (n i q : ℕ)
      → i + n ≤ d.report.max_block_num
      → count q (of_file d fid n i)
        ≤ (if leb i ((d.storage q).lba 0) && ltb ((d.storage q).lba 0) (i + n) then 1 else 0)
  count-of_file zero i q inside = omega arith
  count-of_file (suc n) i q inside =
      let rest = count-of_file n (i + 1) q (omega arith) in
      elim (Bool-cases (belongs d fid i)) [
        | inl e ↦ elim (Bool-cases ((d.ltp i).pba == q)) [
          | inl f ↦
              let at : (d.ltp i).pba ≡ q = ground arith in
              let x : (d.storage q).lba 0 ≡ i = rw at at (s.named i (omega arith) e) in
              rw (e, f) (ground arith)
          | inr f ↦ rw (e, f) (ground arith)
        ]
        | inr e ↦ rw e (ground arith)
      ]

  pub of_file_fits :
      (n i : ℕ)
      → i + n ≤ d.report.max_block_num
      → d.report.max_block_num ≡ d.report.max_track_num
      → all_fit d (of_file d fid n i) ≡ true
  of_file_fits zero i inside size = refl
  of_file_fits (suc n) i inside size =
      let rest = of_file_fits n (i + 1) (omega arith) size in
      elim (Bool-cases (belongs d fid i)) [
        | inl e ↦
            let below = s.on_disk i (omega arith) e in
            let fits : ltb (d.ltp i).pba d.report.max_track_num ≡ true = ground arith in
            rw (e, fits) rest
        | inr e ↦ rw e rest
      ]

  -- The logical block of the file is named by a block of the batch.
  pub named-of_file :
      (x : ℕ)
      → x < d.report.max_block_num
      → named_by d (of_file d fid d.report.max_block_num 0) x ≡ belongs d fid x
  named-of_file x inside = elim (Bool-cases (belongs d fid x)) [
    | inl e ↦
        let name = s.named x inside e in
        let self : ((d.ltp x).pba == (d.ltp x).pba) ≡ true = ground arith in
        let t = tracks-of_file d.report.max_block_num 0 (d.ltp x).pba (omega arith) in
        rw (t, name, e, self) (ground arith)
    | inr e ↦
        let t = tracks-of_file d.report.max_block_num 0 (d.ltp x).pba (omega arith) in
        rw e (elim (Bool-cases ((d.storage (d.ltp x).pba).lba 0 == x)) [
          | inr f ↦ rw f (ground arith)
          | inl f ↦
              let at : (d.storage (d.ltp x).pba).lba 0 ≡ x = ground arith in
              rw (t, at, e) (ground arith)
        ])
  ]

  -- No block of the batch names a logical block past those that are looked at.
  pub beyond-of_file :
      (x : ℕ)
      → d.report.max_block_num ≤ x
      → named_by d (of_file d fid d.report.max_block_num 0) x ≡ false
  beyond-of_file x past =
      let t = tracks-of_file d.report.max_block_num 0 (d.ltp x).pba (omega arith) in
      elim (Bool-cases ((d.storage (d.ltp x).pba).lba 0 == x)) [
        | inr f ↦ rw f (ground arith)
        | inl f ↦
            let at : (d.storage (d.ltp x).pba).lba 0 ≡ x = ground arith in
            let out : ltb x (0 + d.report.max_block_num) ≡ false = ground arith in
            rw (t, at, out) (ground arith)
      ]
