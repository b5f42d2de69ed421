-- ===== src/Zalloc/Find/Rounds.antt =====
-- src/pba.c (zalloc_find_next_pba): what one round of the loop does to the disk.
use mathlib.Core.Option.{some-injective}
use imr_dedupe.Prelude.{
  ℕ, zero, suc, ◌+◌, ◌≡◌, refl, sym, ◌∙◌, subst, Bool, true, false, ◌&&◌, Option, none, some, ltb,
  leb, if◌then◌else◌, update, Outcome, ok, stop, ◌>>=◌, require, undefined, Holds, Holds-bind,
  arith, Bool-cases, inl, inr,
}
use imr_dedupe.Disk.{
  Disk, ZallocPhase, phase1, phase2, phase3, phase4, booked, add64, set_status, is_normal,
  storage_is_free, Report, ZallocInfo,
}
use imr_dedupe.RecordOp.Frame.{sizes}
use imr_dedupe.Zalloc.{sub64}
use imr_dedupe.Zalloc.Find.{
  Round, allocated, again, book, set_zinfo, find_free, rounds_of, try_bottom, take_between, try_top,
  next_bottom, go_on_bottom, after_search, round1, step2, step3, take_top, round4, zalloc_round,
}

-- The disk differs from another in the allocator's own state at most.
pub record Same (d d' : Disk) : Type 0 where
  pub storage : d'.storage ≡ d.storage
  pub ltp : d'.ltp ≡ d.ltp
  pub ptt : d'.ptt ≡ d.ptt
  pub hash_table : d'.hash_table ≡ d.hash_table
  pub batch : d'.gbtable ≡ d.gbtable
  pub sizes_kept : sizes d'.report ≡ sizes d.report

-- The block was free, and all that changes in the storage is that it is booked now.
pub record Booking (d : Disk) (r : Disk × ℕ) : Type 0 where
  pub was_free : storage_is_free d r.1 ≡ true
  pub storage : r.0.storage ≡ update d.storage r.1 (set_status booked (d.storage r.1))
  pub ltp : r.0.ltp ≡ d.ltp
  pub ptt : r.0.ptt ≡ d.ptt
  pub hash_table : r.0.hash_table ≡ d.hash_table
  pub batch : r.0.gbtable ≡ d.gbtable
  pub sizes_kept : sizes r.0.report ≡ sizes d.report

abbrev pub IsRound : Disk → Round → Type 0
IsRound d (allocated d' pba) = Booking d (d', pba)
IsRound d (again d') = Same d d'

Same-refl : (d : Disk) → Same d d
Same-refl d = record {
  storage = refl;
  ltp = refl;
  ptt = refl;
  hash_table = refl;
  batch = refl;
  sizes_kept = refl;
}

Same-state :
    (d : Disk) (z : ZallocInfo) (report : Report) (top : Bool)
    → sizes report ≡ sizes d.report
    → Same d (record d { zinfo = z; report = report; enable_top_buffer = top })
Same-state d z report top e = record {
  storage = refl;
  ltp = refl;
  ptt = refl;
  hash_table = refl;
  batch = refl;
  sizes_kept = e;
}

free_of_storage :
    (d d' : Disk) (pba : ℕ)
    → d'.storage ≡ d.storage
    → storage_is_free d' pba ≡ storage_is_free d pba
unfolding storage_is_free
free_of_storage d d' pba e = rw e refl

module _ {d d' : Disk} (s : Same d d') where
  pub Same-Booking : (r : Disk × ℕ) → Booking d' r → Booking d r
  Same-Booking r b = record {
    was_free = sym (free_of_storage d d' r.1 s.storage) ∙ b.was_free;
    storage = b.storage ∙ rw s.storage refl;
    ltp = b.ltp ∙ s.ltp;
    ptt = b.ptt ∙ s.ptt;
    hash_table = b.hash_table ∙ s.hash_table;
    batch = b.batch ∙ s.batch;
    sizes_kept = b.sizes_kept ∙ s.sizes_kept;
  }

  Same-IsRound : (r : Round) → IsRound d' r → IsRound d r
  Same-IsRound (allocated e pba) b = Same-Booking (e, pba) b
  Same-IsRound (again e) t = record {
    storage = t.storage ∙ s.storage;
    ltp = t.ltp ∙ s.ltp;
    ptt = t.ptt ∙ s.ptt;
    hash_table = t.hash_table ∙ s.hash_table;
    batch = t.batch ∙ s.batch;
    sizes_kept = t.sizes_kept ∙ s.sizes_kept;
  }

  Same-Holds : (m : Outcome Round) → Holds (IsRound d') m → Holds (IsRound d) m
  Same-Holds (ok r) h = Same-IsRound r h
  Same-Holds (stop e) h = tt

book-IsRound : (d : Disk) (pba : ℕ) → storage_is_free d pba ≡ true → IsRound d (book d pba)
book-IsRound d pba f = record {
  was_free = f;
  storage = refl;
  ltp = refl;
  ptt = refl;
  hash_table = refl;
  batch = refl;
  sizes_kept = refl;
}

-- A block that is booked if the test says so, which says that it is free.
book_if :
    (d : Disk) (pba : ℕ) (t : Bool)
    → (t ≡ true → storage_is_free d pba ≡ true)
    → IsRound d (if t then book d pba else again d)
book_if d pba true f = book-IsRound d pba (f refl)
book_if d pba false f = Same-refl d

try_bottom-IsRound : (d : Disk) (pba : ℕ) → Holds (IsRound d) (try_bottom d pba)
unfolding try_bottom
try_bottom-IsRound d pba =
    Holds-bind _ (require (ltb pba d.report.max_block_num) undefined) _
      (λ _. book_if d pba (storage_is_free d pba && is_normal (d.ptt pba).type) (λ h. ground arith))

take_between-IsRound : (d : Disk) (pba : ℕ) → Holds (IsRound d) (take_between d pba)
unfolding take_between
take_between-IsRound d pba =
    let shared = ltb 0 (d.storage (add64 pba 1)).referenced_count in
    Holds-bind _ (require (ltb (add64 pba 1) d.report.max_block_num) undefined) _ (λ _.
      Holds-bind _ (require (ltb pba d.report.max_block_num) undefined) _
        (λ _. book_if d pba (shared && storage_is_free d pba) (λ h. ground arith)))

try_top-IsRound : (d : Disk) (pba : ℕ) → Holds (IsRound d) (try_top d pba)
unfolding try_top
try_top-IsRound d pba =
    Holds-bind _ (require (ltb (sub64 pba 1) d.report.max_block_num) undefined) _
      (λ _. either (ltb 0 (d.storage (sub64 pba 1)).referenced_count))
  where
    either : (t : Bool) → Holds (IsRound d) (if t then take_between d pba else ok (again d))
    either true = take_between-IsRound d pba
    either false = Same-refl d

next_bottom-Same :
    (new_alloc : Bool) (d : Disk) (track : ℕ) → Same d (next_bottom new_alloc d track).0
unfolding next_bottom
next_bottom-Same false d track = Same-state d _ d.report d.enable_top_buffer refl
next_bottom-Same true d track =
    elim (Bool-cases (leb d.zinfo.phase1_end d.report.next_bottom_to_write)) [
      | inl e ↦ rw e (Same-state d _ d.report d.enable_top_buffer refl)
      | inr e ↦ rw e (Same-state d d.zinfo _ d.enable_top_buffer refl)
    ]

go_on_bottom-IsRound :
    (new_alloc : Bool) (d : Disk) (track : ℕ) → Holds (IsRound d) (go_on_bottom new_alloc d track)
unfolding go_on_bottom
go_on_bottom-IsRound new_alloc d track =
    let r = next_bottom new_alloc d track in
    Same-Holds (next_bottom-Same new_alloc d track) (try_bottom r.0 r.1)
      (try_bottom-IsRound r.0 r.1)

-- What a sequential search finds is free.
find_free-free :
    (d : Disk) (n i : ℕ)
    → Holds (λ r. (p : ℕ) → r ≡ some p → storage_is_free d p ≡ true) (find_free d n i)
unfolding find_free
find_free-free d zero i = λ p e. cc
find_free-free d (suc n) i = elim (Bool-cases (ltb i d.report.max_block_num)) [
  | inr e ↦ rw (find_free, e) tt
  | inl e ↦ elim (Bool-cases (storage_is_free d i)) [
    | inl f ↦
        rw (find_free, e, f)
          (λ p eq. subst (λ (q : ℕ). storage_is_free d q ≡ true) (some-injective i p eq) f)
    | inr f ↦ rw (find_free, e, f) (find_free-free d n (i + 2))
  ]
]

after_search-IsRound :
    (new_alloc : Bool) (d : Disk) (track : ℕ) (r : Option ℕ)
    → ((p : ℕ) → r ≡ some p → storage_is_free d p ≡ true)
    → Holds (IsRound d) (after_search new_alloc d track r)
unfolding after_search
after_search-IsRound new_alloc d track (some i) f =
    let d' = set_zinfo d (record d.zinfo { current_track = i; phase1_is_full = false }) in
    Same-IsRound (Same-state d d'.zinfo d.report d'.enable_top_buffer refl) (book d' i)
      (book-IsRound d' i (free_of_storage d d' i refl ∙ f i refl))
after_search-IsRound new_alloc d track none f =
    let z = record d.zinfo { phases = phase2; current_track = d.zinfo.phase2_start } in
    let d' = record (set_zinfo d z) { enable_top_buffer = true } in
    Same-Holds (Same-state d d'.zinfo d.report d'.enable_top_buffer refl)
      (go_on_bottom new_alloc d' track) (go_on_bottom-IsRound new_alloc d' track)

take_top-IsRound :
    (d : Disk) (r : Option ℕ)
    → ((p : ℕ) → r ≡ some p → storage_is_free d p ≡ true)
    → Holds (IsRound d) (take_top d r)
unfolding take_top
take_top-IsRound d none f = tt
take_top-IsRound d (some i) f =
    let d' = set_zinfo d (record d.zinfo { current_track = i }) in
    Same-IsRound (Same-state d d'.zinfo d.report d'.enable_top_buffer refl) (book d' i)
      (book-IsRound d' i (free_of_storage d d' i refl ∙ f i refl))

-- What follows a search whose results are free.
after_find :
    (d : Disk) (n i : ℕ) (k : Option ℕ → Outcome Round)
    → ((r : Option ℕ)
        → ((p : ℕ) → r ≡ some p → storage_is_free d p ≡ true)
        → Holds (IsRound d) (k r))
    → Holds (IsRound d) (find_free d n i >>= k)
after_find d n i k h = go (find_free d n i) (find_free-free d n i)
  where
    go :
        (m : Outcome (Option ℕ))
        → Holds (λ r. (p : ℕ) → r ≡ some p → storage_is_free d p ≡ true) m
        → Holds (IsRound d) (m >>= k)
    go (ok r) f = h r f
    go (stop s) f = tt

pub zalloc_round-IsRound :
    (new_alloc : Bool) (d : Disk) (phase : ZallocPhase)
    → Holds (IsRound d) (zalloc_round new_alloc d phase)
unfolding zalloc_round round1 round4
zalloc_round-IsRound new_alloc d phase1 = either d.zinfo.phase1_is_full
  where
    either :
        (full : Bool)
        → Holds (IsRound d) (
            if full
            then find_free d
                (rounds_of d.zinfo.phase1_start d.zinfo.phase1_end)
                d.zinfo.phase1_start
              >>= after_search new_alloc d d.zinfo.current_track
            else go_on_bottom new_alloc d d.zinfo.current_track)
    either true =
        after_find d _ _ (after_search new_alloc d d.zinfo.current_track)
          (after_search-IsRound new_alloc d d.zinfo.current_track)
    either false = go_on_bottom-IsRound new_alloc d d.zinfo.current_track
zalloc_round-IsRound new_alloc d phase2 =
    let d' = set_zinfo d (step2 d.zinfo) in
    Same-Holds (Same-state d d'.zinfo d.report d'.enable_top_buffer refl)
      (try_top d' d.zinfo.current_track) (try_top-IsRound d' _)
zalloc_round-IsRound new_alloc d phase3 =
    let d' = set_zinfo d (step3 d.zinfo d.report.max_track_num) in
    Same-Holds (Same-state d d'.zinfo d.report d'.enable_top_buffer refl)
      (try_top d' d.zinfo.current_track) (try_top-IsRound d' _)
zalloc_round-IsRound new_alloc d phase4 = after_find d _ _ (take_top d) (take_top-IsRound d)
