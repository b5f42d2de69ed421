-- ===== src/Tests/Batches.antt =====
-- A batch of the blocks 4 and 2: sorted, extended by the tracks 1 and 3, and written.
use imr_dedupe.Prelude.{ℕ, ◌≡◌, refl, false, stop, aborted, Returns, arith}
use imr_dedupe.Disk.{BatchTable}
use imr_dedupe.Batch.{entries, batch_extend}
use imr_dedupe.Batch.Lookup.{lookup, IsAscending}
use imr_dedupe.Batch.Step.{expected}
use imr_dedupe.Batch.Extend.{IsBatch, tracks, batch_extend-lookup}
use imr_dedupe.BlockIo.{batch_write}
use imr_dedupe.BlockIo.Sort.{IsFit}
use imr_dedupe.BlockIo.Write.{BatchWritten, batch_write-BatchWritten, batch_write-aborted}
use imr_dedupe.Tests.Data.{eight, two_blocks, two_sorted}
use imr_dedupe.Tests.Sorting.{sort_entries, sort_entries-IsSort}

two_blocks-IsFit : IsFit eight (entries two_blocks.block_head)
two_blocks-IsFit = record { once = λ t. ground arith; fit = refl }

two_sorted-IsBatch : IsBatch eight 0 (entries two_sorted.block_head)
two_sorted-IsBatch = (omega arith, omega arith, refl, (omega arith, omega arith, refl, tt))

batch_extend-lookup_example :
    let h = (batch_extend eight two_sorted).extend_head in
    ((track : ℕ) → lookup h track ≡ expected eight (tracks (entries two_sorted.block_head)) track)
    × IsAscending h
    × ((batch_extend eight two_sorted).block_head ≡ two_sorted.block_head)
batch_extend-lookup_example = batch_extend-lookup eight two_sorted two_sorted-IsBatch refl

batch_write-BatchWritten_example :
    Returns (batch_write sort_entries eight two_blocks) (BatchWritten eight two_blocks)
batch_write-BatchWritten_example =
    batch_write-BatchWritten sort_entries-IsSort eight two_blocks two_blocks-IsFit refl refl

-- Block 6 was never booked.
abbrev free_block : BatchTable
free_block = record two_blocks {
  block_head = record two_blocks.block_head {
    table = λ i. record { pba = 6; is_virtual = false };
    size = 1;
  };
}

free_block-IsFit : IsFit eight (entries free_block.block_head)
free_block-IsFit = record { once = λ t. ground arith; fit = refl }

batch_write-aborted_example : batch_write sort_entries eight free_block ≡ stop aborted
batch_write-aborted_example =
    batch_write-aborted sort_entries-IsSort eight free_block free_block-IsFit refl refl
