-- ===== src/Tests/Start.antt =====
-- A disk of 2 gigabytes, with as many of logical blocks.
use imr_dedupe.Prelude.{◌*◌, ◌≡◌, Returns, arith}
use imr_dedupe.Init.{init_disk}
use imr_dedupe.Init.Sound.{IsSound, init_disk-IsSound}

init_disk-IsSound_example : Returns (init_disk (λ i j. i) 2 2) (λ d.
    IsSound d × (d.report.max_track_num ≡ 512 * 2) × (d.report.max_logical_block_num ≡ 512 * 2))
init_disk-IsSound_example =
    init_disk-IsSound (λ i j. i) 2 2 (omega arith) (omega arith) (omega arith)
