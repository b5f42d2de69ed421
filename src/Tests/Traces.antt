-- ===== src/Tests/Traces.antt =====
-- Traces of one or two lines.
use imr_dedupe.Prelude.{ℕ, refl, [], ◌∷◌, List, Returns, arith}
use imr_dedupe.Trace.{DeduLine, dedu_parsing_csv}
use imr_dedupe.Trace.Trims.{Trimmed, dedu_parsing_csv-Trimmed}
use imr_dedupe.Tests.Data.{ab, eight}
use imr_dedupe.Tests.Trims.{eight-IsConsistent}
use imr_dedupe.Tests.Writes.{setting}

abbrev trim_of : ℕ → DeduLine
trim_of lba = record { operation = 3; hash = ab; size = 4096; lba = lba }

-- The logical block 5 is trimmed, and 4, which is not mapped.
abbrev two_trims : List DeduLine
two_trims = trim_of 5 ∷ trim_of 4 ∷ []

dedu_parsing_csv-Trimmed_example :
    Returns (dedu_parsing_csv setting two_trims eight) (Trimmed eight two_trims)
dedu_parsing_csv-Trimmed_example =
    dedu_parsing_csv-Trimmed setting eight two_trims eight-IsConsistent
      (refl, omega arith, omega arith, (refl, omega arith, omega arith, tt))
