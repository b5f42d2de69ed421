-- ===== src/Tests/Hashes.antt =====
-- The hashes "ab" and "ba" have the same home, cell 3 of 8.
use mathlib.Core.Option.{some-injective}
use imr_dedupe.Prelude.{
  ℕ, ◌<◌, ◌≡◌, ◌≢◌, refl, sym, ap, ◌∙◌, false, [], Option, none, some, ◌==◌, if◌then◌else◌, ok,
  stop, ◌>>=◌, out_of_fuel, Returns, arith, Bool-cases, inl, inr,
}
use imr_dedupe.Disk.{hash_eq, pos, DataItem, Disk}
use imr_dedupe.HashTable.{
  Cells, char_sum, hash_code, probe, search_stop, insert_stop, holds, search_item, insert,
  delete_item, to_int,
}
use imr_dedupe.HashTable.Probe.{path, path_injective}
use imr_dedupe.HashTable.Laws.{IsReachable, Found, search_item-Found, search_loop-out_of_fuel}
use imr_dedupe.HashTable.Updates.{
  Inserted, Deleted, insert-Inserted, delete_item-Deleted, search_item-insert,
}
use imr_dedupe.Tests.Data.{ab, ba, eight}

abbrev ab_item : DataItem
ab_item = record { hash = ab; pba = pos 3 }

-- "ab" at its home, and no other item.
abbrev one_item : Disk
one_item = record eight { hash_table = λ i. if i == 3 then some ab_item else none }

one_item-IsReachable : IsReachable one_item.hash_table 8
unfolding hash_code char_sum
one_item-IsReachable i item k hi content real hk there j lt = elim (Bool-cases (i == 3)) [
  | inr e ↦ let c = rw e at content in cc
  | inl e ↦
      let c : Path (Option DataItem) (some ab_item) (some item) = rw e at content in
      let same = some-injective ab_item item c in
      let home : hash_code item.hash 8 ≡ 3 = ap (λ (x : DataItem). hash_code x.hash 8) (sym same) in
      let i_eq : i ≡ 3 = ground arith in
      let first =
        path_injective 8 3 k 0 (omega arith) hk (omega arith)
          (sym (ap (λ (h : ℕ). path 8 h k) home) ∙ there ∙ i_eq) in
      absurd (omega arith)
]

ab_real : ab ≢ []
ab_real e = cc

ba_real : ba ≢ []
ba_real e = cc

ba_absent : (i : ℕ) → i < 8 → holds one_item.hash_table ba i ≡ false
unfolding hash_eq
ba_absent i lt = elim (Bool-cases (i == 3)) [ inl e ↦ rw e refl | inr e ↦ rw e refl ]

search_item-Found_example : Returns (search_item one_item ba) (Found one_item.hash_table 8 ba)
search_item-Found_example =
    search_item-Found one_item ba 4 one_item-IsReachable ba_real (omega arith) refl

insert-Inserted_example : Returns (insert one_item ba 5) (Inserted one_item ba 5)
unfolding insert_stop
insert-Inserted_example =
    insert-Inserted one_item ba 5 4 one_item-IsReachable (omega arith) (omega arith) refl

delete_item-Deleted_example : Returns (delete_item one_item ab) (Deleted one_item ab)
delete_item-Deleted_example =
    delete_item-Deleted one_item ab 4 one_item-IsReachable ab_real (omega arith) refl

search_item-insert_example :
    (insert one_item ba 5 >>= λ d'. search_item d' ba)
    ≡ ok (some (record { hash = ba; pba = to_int 5 }))
search_item-insert_example =
    search_item-insert one_item ba 5 4 5 one_item-IsReachable ba_real (omega arith) ba_absent
      (omega arith) refl (omega arith) refl (omega arith)

-- A table all of whose cells hold "ab".
abbrev full_cells : Cells
full_cells i = some ab_item

search_loop-out_of_fuel_example :
    probe (search_stop full_cells ba) 8 1000 (hash_code ba 8) ≡ stop out_of_fuel
unfolding hash_eq
search_loop-out_of_fuel_example =
    search_loop-out_of_fuel full_cells ba 8 1000 (omega arith) (λ c l. refl) (λ c l. refl)
