-- ===== src/Trace/Blocks.antt =====
-- test/main.c (parsing_csv) and src/parse.c: from bytes to blocks.
use imr_dedupe.Prelude.{
  ℕ, ◌+◌, ◌-◌, ◌*◌, ◌/◌, ◌%◌, ◌≤◌, ◌≡◌, ◌==◌, ltb, if◌then◌else◌, arith, Bool-cases, inl, inr,
}
use imr_dedupe.Disk.{block_size}
use imr_dedupe.Trace.{num_of_blocks, num_of_use_block}

-- The blocks from that of the first byte to that of the last.
abbrev pub touched : (bytes num_bytes : ℕ) → ℕ
touched bytes num_bytes =
    if num_bytes == 0 then 0 else (bytes + num_bytes - 1) / block_size - bytes / block_size + 1

-- The number of blocks that `parsing_csv` computes for a range of bytes is that of the blocks from the
-- one of its first byte to the one of its last, and 0 for an empty range.
num_of_blocks-touched :
    (bytes num_bytes : ℕ) → num_of_blocks bytes num_bytes ≡ touched bytes num_bytes
unfolding num_of_blocks
num_of_blocks-touched bytes num_bytes = ground arith

-- The number of blocks that `DEDU_parsing_csv` computes for a size is the least whose bytes are as
-- many as the size or more.
num_of_use_block-least :
    (size : ℕ)
    → (size ≤ num_of_use_block size * block_size)
      × ((n : ℕ) → size ≤ n * block_size → num_of_use_block size ≤ n)
unfolding num_of_use_block
num_of_use_block-least size = elim (Bool-cases (ltb 0 (size % block_size))) [
  | inl e ↦ rw e (omega arith, λ n h. ground arith)
  | inr e ↦ rw e (ground arith, λ n h. omega arith)
]
