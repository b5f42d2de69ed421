-- ===== src/Tests/Sorting.antt =====
-- Insertion by track sorts a batch, as `qsort` does with `batch_cmp`.
use mathlib.Core.List.Permᴰ
use mathlib.Core.List.{Permᴰ}
use mathlib.Core.Path.{refl}
use imr_dedupe.Prelude.{ℕ, ◌≤◌, true, false, List, [], ◌∷◌, leb, arith, Bool-cases, inl, inr}
use imr_dedupe.Disk.{BbEntry}
use imr_dedupe.BlockIo.Sort.{IsSorted, IsSort}

unfoldable pub insert_entry : BbEntry → List BbEntry → List BbEntry
insert_entry e [] = e ∷ []
insert_entry e (x ∷ l) = elim (leb e.pba x.pba) [ true ↦ e ∷ x ∷ l | false ↦ x ∷ insert_entry e l ]

unfoldable pub sort_entries : List BbEntry → List BbEntry
sort_entries [] = []
sort_entries (e ∷ l) = insert_entry e (sort_entries l)

insert_entry-perm : (e : BbEntry) (l : List BbEntry) → Permᴰ (insert_entry e l) (e ∷ l)
unfolding insert_entry
insert_entry-perm e [] = Permᴰ.refl _
insert_entry-perm e (x ∷ l) = elim (Bool-cases (leb e.pba x.pba)) [
  | inl h ↦ rw (insert_entry, h) (Permᴰ.refl _)
  | inr h ↦
      rw (insert_entry, h)
        (Permᴰ.trans (Permᴰ.cons refl (insert_entry-perm e l)) (Permᴰ.swap refl refl))
]

sort_entries-perm : (l : List BbEntry) → Permᴰ (sort_entries l) l
unfolding sort_entries
sort_entries-perm [] = Permᴰ.nil
sort_entries-perm (e ∷ l) =
    Permᴰ.trans (insert_entry-perm e (sort_entries l)) (Permᴰ.cons refl (sort_entries-perm l))

insert_entry-IsSorted :
    (b : ℕ) (e : BbEntry) (l : List BbEntry)
    → b ≤ e.pba
    → IsSorted b l
    → IsSorted b (insert_entry e l)
unfolding insert_entry
insert_entry-IsSorted b e [] le s = (le, tt)
insert_entry-IsSorted b e (x ∷ l) le (le', s) = elim (Bool-cases (leb e.pba x.pba)) [
  | inl h ↦ rw (insert_entry, h) (le, (ground arith, s))
  | inr h ↦ rw (insert_entry, h) (le', insert_entry-IsSorted x.pba e l (ground arith) s)
]

sort_entries-IsSorted : (l : List BbEntry) → IsSorted 0 (sort_entries l)
unfolding sort_entries
sort_entries-IsSorted [] = tt
sort_entries-IsSorted (e ∷ l) =
    insert_entry-IsSorted 0 e (sort_entries l) (omega arith) (sort_entries-IsSorted l)

pub sort_entries-IsSort : IsSort sort_entries
sort_entries-IsSort = record {
  perm = λ l. ∣ sort_entries-perm l ∣₁;
  sorted = sort_entries-IsSorted;
}
