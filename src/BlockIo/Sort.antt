-- ===== src/BlockIo/Sort.antt =====
-- src/batch.c: what `qsort` of libc is taken to do, and what `batch_sync` makes of it.
use mathlib.Core.List.{Perm, Permᴰ}
use mathlib.Core.Logic.{∥∥₁_elim}
use native.Mathlib.Nat.{ℕ_set}
use imr_dedupe.Prelude.{
  ℕ, suc, ◌+◌, ◌≤◌, ◌<◌, ◌≡◌, refl, sym, ap, ap₂, ◌∙◌, subst, Bool, true, not, ◌&&◌, ◌||◌, List, [],
  ◌∷◌, ◌==◌, ltb, if◌then◌else◌, update, slice, length, length-slice, arith, Bool-cases, inl, inr,
}
use imr_dedupe.Disk.{BbEntry, BatchTable, Disk}
use imr_dedupe.Batch.{entries, fill, batch_sync}
use imr_dedupe.Batch.Extend.{IsBatch, tracks}

-- In order of their tracks, from track `b` on.
abbrev pub IsSorted : ℕ → List BbEntry → Type 0
IsSorted b [] = Unit {0}
IsSorted b (e ∷ l) = (b ≤ e.pba) × IsSorted e.pba l

-- The documented behaviour of `qsort` with `batch_cmp`.
pub record IsSort (qsort : List BbEntry → List BbEntry) : Type 0 where
  pub perm : (l : List BbEntry) → Perm (qsort l) l
  pub sorted : (l : List BbEntry) → IsSorted 0 (qsort l)

-- What a fold sees of a list does not depend on the order if its steps commute.
module _ {ℓ κ} {A : Type ℓ} {B : Type κ} (f : List A → B) (step : A → B → B)
    (f-cons : (x : A) (l : List A) → f (x ∷ l) ≡ step x (f l))
    (swap : (x y : A) (b : B) → step x (step y b) ≡ step y (step x b)) where
  permᴰ_invariant : {l m : List A} → Permᴰ l m → f l ≡ f m
  permᴰ_invariant Permᴰ.nil = refl
  permᴰ_invariant (Permᴰ.cons {a} {b} {l₁ = l} {l₂ = m} e p) =
      f-cons a l ∙ ap₂ step e (permᴰ_invariant p) ∙ sym (f-cons b m)
  permᴰ_invariant (Permᴰ.swap {a} {b} {a'} {b'} {l} e e') =
      f-cons a (b ∷ l)
      ∙ ap (step a) (f-cons b l)
      ∙ swap a b (f l)
      ∙ ap₂ (λ (x y : A). step x (step y (f l))) e' e
      ∙ sym (f-cons a' (b' ∷ l) ∙ ap (step a') (f-cons b' l))
  permᴰ_invariant (Permᴰ.trans p q) = permᴰ_invariant p ∙ permᴰ_invariant q

  pub perm_invariant : IsSet B → {l m : List A} → Perm l m → f l ≡ f m
  perm_invariant is_set p = ∥∥₁_elim p (is_set _ _) permᴰ_invariant

-- How many entries there are for a track.
abbrev pub count : ℕ → List BbEntry → ℕ
count t [] = 0
count t (e ∷ l) = (if e.pba == t then 1 else 0) + count t l

-- The entries are physical and on tracks of the disk.
abbrev pub all_fit : Disk → List BbEntry → Bool
all_fit d [] = true
all_fit d (e ∷ l) = (ltb e.pba d.report.max_track_num && not e.is_virtual) && all_fit d l

-- No track has two entries, and all fit.
pub record IsFit (d : Disk) (l : List BbEntry) : Type 0 where
  pub once : (t : ℕ) → count t l ≤ 1
  pub fit : all_fit d l ≡ true

pub Bool-set : IsSet Bool
Bool-set = hlevel

module _ {qsort : List BbEntry → List BbEntry} (sort : IsSort qsort) (l : List BbEntry) where
  pub length-qsort : length (qsort l) ≡ length l
  length-qsort =
      perm_invariant length (λ e n. suc n) (λ e m. refl) (λ x y n. refl) ℕ_set (sort.perm l)

  pub tracks-qsort : (t : ℕ) → tracks (qsort l) t ≡ tracks l t
  tracks-qsort t =
      perm_invariant (λ m. tracks m t) (λ e b. e.pba == t || b) (λ e m. refl)
        (λ x y b. ground arith) Bool-set (sort.perm l)

  count-qsort : (t : ℕ) → count t (qsort l) ≡ count t l
  count-qsort t =
      perm_invariant (count t) (λ e n. (if e.pba == t then 1 else 0) + n) (λ e m. refl)
        (λ x y n. ground arith) ℕ_set (sort.perm l)

  all_fit-qsort : (d : Disk) → all_fit d (qsort l) ≡ all_fit d l
  all_fit-qsort d =
      perm_invariant (all_fit d)
        (λ e b. (ltb e.pba d.report.max_track_num && not e.is_virtual) && b) (λ e m. refl)
        (λ x y b. ground arith) Bool-set (sort.perm l)

  pub qsort-IsFit : (d : Disk) → IsFit d l → IsFit d (qsort l)
  qsort-IsFit d f = record {
    once = λ t. rw (count-qsort t) (f.once t);
    fit = all_fit-qsort d ∙ f.fit;
  }

-- Sorted and without a track that stands twice: strictly ascending.
sorted-IsBatch :
    (d : Disk) (b : ℕ) (l : List BbEntry)
    → IsSorted b l
    → ((t : ℕ) → count t l ≤ 1)
    → all_fit d l ≡ true
    → IsBatch d b l
sorted-IsBatch d b [] s once fit = tt
sorted-IsBatch d b (e ∷ l) (le, s) once fit = (
  le,
  ground arith,
  ground arith,
  sorted-IsBatch d (suc e.pba) l (next l s (once e.pba)) (λ t. let o = once t in omega arith)
      (ground arith),
)
  where
    next : (m : List BbEntry) → IsSorted e.pba m → count e.pba (e ∷ m) ≤ 1 → IsSorted (suc e.pba) m
    next [] s o = tt
    next (x ∷ m) (le', s') o = (ground arith, s')

fill_below : (l : List BbEntry) (i : ℕ) (f : ℕ → BbEntry) (j : ℕ) → j < i → fill l i f j ≡ f j
unfolding fill
fill_below [] i f j h = refl
fill_below (e ∷ l) i f j h = fill_below l (i + 1) (update f i e) j (omega arith) ∙ ground arith

slice-fill : (l : List BbEntry) (i : ℕ) (f : ℕ → BbEntry) → slice (fill l i f) i (length l) ≡ l
unfolding fill
slice-fill [] i f = refl
slice-fill (e ∷ l) i f =
    ap₂ ◌∷◌ (fill_below l (i + 1) (update f i e) i (omega arith) ∙ ground arith)
      (slice-fill l (i + 1) (update f i e))

-- `batch_sync`, with a `qsort` that sorts, returns 0 exactly for an empty block table, and leaves
-- in the block table the entries that it had, in the order that `qsort` gives them.
pub batch_sync-entries :
    {qsort : List BbEntry → List BbEntry} (t : BatchTable)
    → IsSort qsort
    → let (t', any) = batch_sync qsort t in
      (any ≡ not (t.block_head.size == 0))
      × (entries t'.block_head ≡ qsort (entries t.block_head))
      × (t'.block_head.size ≡ t.block_head.size)
      × (t'.extend_head ≡ t.extend_head)
unfolding batch_sync
batch_sync-entries {qsort} t sort = elim (Bool-cases (t.block_head.size == 0)) [
  | inl e ↦
      let none_left : t.block_head.size ≡ 0 = ground arith in
      rw e (refl, rw none_left (sym (nil_of_length (qsort []) (length-qsort sort []))), refl, refl)
  | inr e ↦
      let l = entries t.block_head in
      let same : length (qsort l) ≡ t.block_head.size =
        length-qsort sort l ∙ length-slice t.block_head.table 0 t.block_head.size in
      rw e (
        refl,
        subst (λ (n : ℕ). slice (fill (qsort l) 0 t.block_head.table) 0 n ≡ qsort l) same
            (slice-fill (qsort l) 0 t.block_head.table),
        refl,
        refl,
      )
]
  where
    nil_of_length : (m : List BbEntry) → length m ≡ 0 → m ≡ []
    nil_of_length [] e = refl
    nil_of_length (x ∷ m) e = absurd (omega arith)

-- With a `qsort` that sorts, a batch of physical entries on tracks of the disk, no track twice, is
-- strictly ascending after `batch_sync`.
pub batch_sync-IsBatch :
    {qsort : List BbEntry → List BbEntry} (d : Disk) (t : BatchTable)
    → IsSort qsort
    → IsFit d (entries t.block_head)
    → IsBatch d 0 (entries (batch_sync qsort t).0.block_head)
batch_sync-IsBatch {qsort} d t sort f =
    let l = entries t.block_head in
    let g = qsort-IsFit sort l d f in
    rw ((batch_sync-entries t sort).1) (sorted-IsBatch d 0 (qsort l) (sort.sorted l) g.once g.fit)
