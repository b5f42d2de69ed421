-- ===== src/Dedupe/Trim.antt =====
-- src/lba.c (delete_lba_in_storage, dedupe_trim): what a trim takes from the disk, and no more.
pub mod Consistent
use imr_dedupe.Prelude.{
  ℕ, ◌-◌, ◌%◌, ◌^◌, ◌<◌, ◌≡◌, ◌≢◌, refl, sym, ap, ◌∙◌, Bool, true, false, Option, none, some, ◌==◌,
  ltb, leb, update, update_self, update_ne, subst, Holds, Holds-bind, Holds-ok, ok-injective,
  Outcome, ok, stop, ◌>>=◌, ◌>>◌, require, undefined, exit_failure, Returns, arith, Bool-cases, inl,
  inr,
}
use imr_dedupe.Disk.{Hash, LtpEntry, Disk, add32, is_in_use}
use imr_dedupe.Dedupe.{
  lba_to_pba, find_lba, shift_lba, set_block, drop_lba, delete_lba_in_storage, is_live,
  trimmed_entry, release, trim_block, dedupe_trim,
}
use imr_dedupe.Dedupe.Release.{IsOwned, Released, release-last, release-shared, trim_block-Released}

-- The disk has the mapping and the report of another.
abbrev Maps : Disk → Disk → Type 0
Maps d d' = (d'.ltp ≡ d.ltp) × (d'.report ≡ d.report)

drop_lba-Maps :
    (d : Disk) (pba num : ℕ) (index : Option ℕ) → Holds (λ r. Maps d r.1) (drop_lba d pba num index)
unfolding drop_lba
drop_lba-Maps d pba num none = (refl, refl)
drop_lba-Maps d pba num (some i) =
    let b = d.storage pba in
    let d' = set_block d pba (record b { lba = shift_lba (num - 1 - i) i b.lba }) in
    Holds-bind _ (require (leb num b.lba_capacity) undefined) (λ _. ok (true, d'))
      (λ _. (refl, refl))

delete_lba-Maps :
    (d : Disk) (pba lba : ℕ) → Holds (λ r. Maps d r.1) (delete_lba_in_storage d pba lba)
unfolding delete_lba_in_storage
delete_lba-Maps d pba lba =
    let b = d.storage pba in
    let num = add32 b.referenced_count 1 in
    let found = find_lba b (lba % 2 ^ 32) num 0 in
    Holds-bind _ (require (leb num (2 ^ 31)) undefined) (λ _. found >>= drop_lba d pba num)
      (λ _. Holds-bind _ found (drop_lba d pba num) (drop_lba-Maps d pba num))

release-Maps : (d d' : Disk) (pba : ℕ) → Maps d d' → Maps d (release d' pba)
unfolding release
release-Maps d d' pba m = elim (Bool-cases (ltb 0 (d'.storage pba).referenced_count)) [
  | inl e ↦ rw (release-shared d' pba (d'.storage pba) refl e) m
  | inr e ↦ rw (release-last d' pba (d'.storage pba) refl e) m
]

trim_block-Maps : (d : Disk) (pba lba : ℕ) → Holds (Maps d) (trim_block d pba lba)
unfolding trim_block
trim_block-Maps d pba lba = elim (Bool-cases (ltb pba d.report.max_block_num)) [
  | inr e ↦ rw e tt
  | inl e ↦ elim (Bool-cases (is_in_use (d.storage pba).status)) [
    | inr e' ↦ rw (e, e') tt
    | inl e' ↦ rw (e, e') (released (delete_lba_in_storage d pba lba) (delete_lba-Maps d pba lba))
  ]
]
  where
    released :
        (m : Outcome (Bool × Disk))
        → Holds (λ r. Maps d r.1) m
        → Holds (Maps d) (m >>= λ r. require r.0 exit_failure >> ok (release r.1 pba))
    released (stop s) h = tt
    released (ok (false, d')) h = tt
    released (ok (true, d')) h = release-Maps d d' pba h

-- A trim leaves the physical block in the entry.
same_pba :
    (d : Disk) (lba : ℕ)
    → lba_to_pba (record d { ltp = update d.ltp lba (trimmed_entry (d.ltp lba)) }) lba
      ≡ lba_to_pba d lba
unfolding lba_to_pba
same_pba d lba = ap (λ (e : LtpEntry). e.pba) (update_self d.ltp lba (trimmed_entry (d.ltp lba)))

-- A trim of a logical block of the disk that is mapped with this hash, and whose physical block
-- satisfies `IsOwned`, returns a disk where the entry is trimed and not valid and otherwise as it
-- was, the other entries are unchanged, and the physical block is `Released`.
pub dedupe_trim-Released :
    (d : Disk) (lba : ℕ) (hash : Hash)
    → lba < d.report.max_logical_block_num
    → is_live (d.ltp lba) hash ≡ true
    → IsOwned d (lba_to_pba d lba) lba
    → Returns (dedupe_trim d lba hash) (λ d'.
      (d'.ltp lba ≡ trimmed_entry (d.ltp lba))
      × ((l : ℕ) → l ≢ lba → d'.ltp l ≡ d.ltp l)
      × Released (record d { ltp = d'.ltp }) (lba_to_pba d lba) lba d')
unfolding dedupe_trim
dedupe_trim-Released d lba hash inside live o =
    let e = d.ltp lba in
    let p = lba_to_pba d lba in
    let d₁ = record d { ltp = update d.ltp lba (trimmed_entry e) } in
    let inside' : ltb lba d.report.max_logical_block_num ≡ true = ground arith in
    let kept = same_pba d lba in
    let here = update_self d.ltp lba (trimmed_entry e) in
    let o₁ : IsOwned d₁ p lba = record {
      on_disk = o.on_disk;
      used = o.used;
      small = o.small;
      room = o.room;
      few = o.few;
      owner = o.owner;
    } in
    let (d', runs, r) = trim_block-Released d₁ p lba o₁ in
    (
      d',
      rw (inside', live, kept) runs,
      (
        ap (λ (f : ℕ → LtpEntry). f lba) r.mapping ∙ here,
        λ l ne.
            let apart : (lba == l) ≡ false = ground arith in
            ap (λ (f : ℕ → LtpEntry). f l) r.mapping
            ∙ update_ne d.ltp lba l (trimmed_entry e) apart,
        subst (λ (f : ℕ → LtpEntry). Released (record d { ltp = f }) p lba d') (sym r.mapping) r,
      ),
    )

-- A second trim of the same logical block changes nothing: whenever a trim returns a disk, the same
-- trim of that disk returns it as it is.
dedupe_trim-twice :
    (d d' : Disk) (lba : ℕ) (hash : Hash)
    → dedupe_trim d lba hash ≡ ok d'
    → dedupe_trim d' lba hash ≡ ok d'
unfolding dedupe_trim
dedupe_trim-twice d d' lba hash runs = elim (Bool-cases (ltb lba d.report.max_logical_block_num)) [
  | inr out ↦ let runs' = rw out at runs in cc
  | inl inside ↦ elim (Bool-cases (is_live (d.ltp lba) hash)) [
    | inr dead ↦
        let same : d ≡ d' = let runs' = rw (inside, dead) at runs in ok-injective runs' in
        subst (λ (x : Disk). dedupe_trim x lba hash ≡ ok x) same
          (rw (dedupe_trim, inside, dead) refl)
    | inl live ↦
        let d₁ = record d { ltp = update d.ltp lba (trimmed_entry (d.ltp lba)) } in
        let runs' = rw (inside, live) at runs in
        let (ltp_eq, report_eq) =
          Holds-ok (Maps d₁) (trim_block-Maps d₁ (lba_to_pba d₁ lba) lba) runs' in
        let dead : is_live (d'.ltp lba) hash ≡ false =
          rw
            (ap (λ (f : ℕ → LtpEntry). f lba) ltp_eq
              ∙ update_self d.ltp lba (trimmed_entry (d.ltp lba)))
            (ground arith) in
        rw (report_eq, inside, dead) refl
  ]
]
