-- ===== src/FidTable/Attrs.antt =====
-- src/fid_table.c: what a file's attribute is after an insertion.
use imr_dedupe.Prelude.{
  ℕ, zero, suc, ◌+◌, ◌≡◌, refl, ap, true, false, ◌==◌, if◌then◌else◌, update, arith, Bool-cases,
  inl, inr,
}
use imr_dedupe.FidTable.{
  FileAttr, error_file_attr, is_error, FidEntry, FidHead, ft_head_is_full, inc_ft, find_attr,
  get_attr, add_fid,
}

-- One more entry is the answer for its file if there was none, and changes nothing for the others.
find_attr-update :
    (table : ℕ → FidEntry) (e : FidEntry) (fid n i k : ℕ)
    → k ≡ i + n
    → ((j : ℕ) → is_error (table j).attr ≡ false)
    → find_attr (update table k e) fid (suc n) i ≡ (
        if is_error (find_attr table fid n i)
        then (if e.fid == fid then e.attr else error_file_attr)
        else find_attr table fid n i)
unfolding find_attr
find_attr-update table e fid zero i k at real =
    let here : update table k e i ≡ e = ground arith in
    elim (Bool-cases (e.fid == fid)) [
      | inl f ↦ rw (find_attr, here, f) (ap (λ (x : FidEntry). x.attr) here)
      | inr f ↦ rw (find_attr, here, f) refl
    ]
find_attr-update table e fid (suc n) i k at real =
    let here : update table k e i ≡ table i = ground arith in
    elim (Bool-cases ((table i).fid == fid)) [
      | inl f ↦ rw (find_attr, here, f, real i) (ap (λ (x : FidEntry). x.attr) here)
      | inr f ↦
          rw (find_attr, here, f) (find_attr-update table e fid n (i + 1) k (omega arith) real)
    ]

-- If the table holds no error attribute, then after an insertion of a file with an attribute that is
-- not an error the file has the attribute that it had before, if it was in the table, and the new one
-- otherwise; every other file has the attribute that it had.
pub get_attr-add_fid :
    (h : FidHead) (fid : ℕ) (attr : FileAttr) (other : ℕ)
    → ((j : ℕ) → is_error (h.table j).attr ≡ false)
    → get_attr (add_fid h fid attr).0 other ≡ (
        if is_error (get_attr h other)
        then (if fid == other then attr else error_file_attr)
        else get_attr h other)
unfolding get_attr add_fid inc_ft
get_attr-add_fid h fid attr other real =
    elim (Bool-cases (is_error (find_attr h.table fid h.count 0))) [
      | inr found ↦ rw found (elim (Bool-cases (is_error (find_attr h.table other h.count 0))) [
        | inr e ↦ rw e refl
        | inl e ↦ elim (Bool-cases (fid == other)) [
          | inr ne ↦ rw (e, ne) (error_of _ e)
          | inl eq ↦
              let same : fid ≡ other = ground arith in
              let e' : is_error (find_attr h.table fid h.count 0) ≡ true = rw same e in cc
        ]
      ])
      | inl absent ↦
          let next : h.count + 1 ≡ suc h.count = omega arith in
          let put =
            find_attr-update h.table (record { fid = fid; attr = attr }) other h.count 0 h.count
              (omega arith) real in
          elim (Bool-cases (ft_head_is_full h)) [
            | inl full ↦ rw (absent, full, next) put
            | inr room ↦ rw (absent, room, next) put
          ]
    ]
  where
    error_of : (a : FileAttr) → is_error a ≡ true → a ≡ error_file_attr
    error_of error_file_attr e = refl
    error_of FileAttr.free_file_attr e = cc
    error_of FileAttr.hot_file_attr e = cc
    error_of FileAttr.cold_file_attr e = cc
