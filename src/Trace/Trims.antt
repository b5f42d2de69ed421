-- ===== src/Trace/Trims.antt =====
-- src/parse.c (DEDU_parsing_csv): a run of deletions.
use imr_dedupe.Prelude.{
  ◌<◌, ◌≡◌, refl, ◌∙◌, true, List, [], ◌∷◌, length, ltb, ap, Returns, returns_of_eq, returns_map,
  returns_bind, arith,
}
use imr_dedupe.Disk.{Report, Disk}
use imr_dedupe.Dedupe.{lba_to_pba}
use imr_dedupe.Dedupe.Place.{Setting}
use imr_dedupe.Dedupe.Trim.Consistent.{IsConsistent, dedupe_trim-IsConsistent}
use imr_dedupe.RecordOp.Charges.{Grows}
use imr_dedupe.Trace.{DeduLine, count_ins, count_delete_ins, run_dedu_line, dedu_parsing_csv}

-- Every line deletes a logical block of the disk.
abbrev pub AreTrims : Disk → List DeduLine → Type 0
AreTrims d [] = Unit {0}
AreTrims d (x ∷ l) =
    (x.operation ≡ 3)
    × (length x.hash < 20)
    × (x.lba < d.report.max_logical_block_num)
    × AreTrims d l

-- The counters of the trace have no part in the agreement of the mapping with the owners.
counted-IsConsistent : (d : Disk) → IsConsistent d → IsConsistent (count_delete_ins (count_ins d))
unfolding lba_to_pba
counted-IsConsistent d c = record {
  owned = λ l below valid.
      let o = c.owned l below valid in
      record {
        on_disk = o.on_disk;
        used = o.used;
        small = o.small;
        room = o.room;
        few = o.few;
        owner = o.owner;
      };
}

trims_congr :
    (d d' : Disk) (l : List DeduLine)
    → d'.report.max_logical_block_num ≡ d.report.max_logical_block_num
    → AreTrims d l
    → AreTrims d' l
trims_congr d d' [] e t = tt
trims_congr d d' (x ∷ l) e (op, short, inside, t) = (op, short, rw e inside, trims_congr d d' l e t)

-- What a run of deletions keeps and counts.
pub record Trimmed (d : Disk) (l : List DeduLine) (d' : Disk) : Type 0 where
  pub consistent : IsConsistent d'
  pub lines : Grows (length l) d.report.ins_count d'.report.ins_count
  pub deletions : Grows (length l) d.report.delete_ins_count d'.report.delete_ins_count
  pub writes : d'.report.write_ins_count ≡ d.report.write_ins_count

-- If every valid entry of the mapping leads to a block in use of which its logical block is an owner,
-- then a trace of deletions of logical blocks of the disk, with hashes of at most 19 characters, runs
-- to its end; of the disk that it leaves the same is true, each line is counted once as an instruction
-- and once as a deletion, and none as a write.
pub dedu_parsing_csv-Trimmed :
    (s : Setting) (d : Disk) (l : List DeduLine)
    → IsConsistent d
    → AreTrims d l
    → Returns (dedu_parsing_csv s l d) (Trimmed d l)
unfolding dedu_parsing_csv run_dedu_line
dedu_parsing_csv-Trimmed s d [] c t = (
  d,
  refl,
  record { consistent = c; lines = omega arith; deletions = omega arith; writes = refl },
)
dedu_parsing_csv-Trimmed s d (x ∷ l) c (op, short, inside, t) =
    let fits : ltb (length x.hash) 20 ≡ true = ground arith in
    let d₁ = count_delete_ins (count_ins d) in
    returns_of_eq (rw (fits, op) refl) (
      returns_bind (dedu_parsing_csv s l)
        (dedupe_trim-IsConsistent d₁ x.lba x.hash inside (counted-IsConsistent d c))
        (λ d₂ (c₂, same).
          returns_map
            (λ d' r. record {
              consistent = r.consistent;
              lines =
                  let g = r.lines in let e = ap (λ (p : Report). p.ins_count) same in omega arith;
              deletions =
                  let g = r.deletions in
                  let e = ap (λ (p : Report). p.delete_ins_count) same in omega arith;
              writes = r.writes ∙ ap (λ (p : Report). p.write_ins_count) same;
            })
            (dedu_parsing_csv-Trimmed s d₂ l c₂
              (trims_congr d d₂ l (ap (λ (p : Report). p.max_logical_block_num) same) t))))
