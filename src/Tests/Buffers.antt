-- ===== src/Tests/Buffers.antt =====
-- The buffer of phase 1 with two slots in use.
use imr_dedupe.Prelude.{
  ℕ, ◌<◌, ◌≡◌, ◌↔◌, refl, true, false, [], ◌∷◌, ◌==◌, if◌then◌else◌, stop, undefined, Returns,
  arith,
}
use imr_dedupe.Disk.{BufferBlock, Disk, hash_eq}
use imr_dedupe.Dedupe.Place.{Setting}
use imr_dedupe.Dedupe.Buffer.{find_slot, buffer_write}
use imr_dedupe.Dedupe.Buffer.Slots.{
  buffered, add_to, IsWritable, buffer_write-buffered, buffer_write-overflow,
}
use imr_dedupe.Dedupe.Buffer.Join.{IsFullSlot, IsSlot}
use imr_dedupe.Dedupe.Flush.{buffer_flush}
use imr_dedupe.Tests.Data.{ab, ba, eight}
use imr_dedupe.Tests.Sorting.{sort_entries}

abbrev setting : Setting
setting = record { new_alloc = true; trim = false; trim_v2 = false; qsort = sort_entries; fuel = 8 }

-- Slot 0 has the hash "ab" and `count + 1` logical blocks, slot 1 the hash "x" and one.
abbrev slot_of : (count capacity i : ℕ) → BufferBlock
slot_of count capacity i = record {
  hash = if i == 0 then ab else if i == 1 then 120 ∷ [] else [];
  lba = λ j. j;
  lba_capacity = if i == 0 then capacity else 4;
  referenced_count = if i == 0 then count else 0;
  dedupe = false;
}

abbrev two_used : (count capacity : ℕ) → Disk
two_used count capacity = record eight {
  phase1_buf = slot_of count capacity;
  report = record eight.report { used_buffer_count = 2 };
}

ba-IsWritable : IsWritable (two_used 4 4) ba
unfolding hash_eq
ba-IsWritable = record {
  slot = λ k below. slot k below;
  grows = λ k below same. grows k below same;
  next = refl;
  below = omega arith;
  short = omega arith;
}
  where
    slot : (k : ℕ) → k < 2 → IsSlot (slot_of 4 4 k)
    slot k below = record { held = ground arith; least = ground arith; small = ground arith }

    grows : (k : ℕ) → k < 2 → hash_eq (slot_of 4 4 k).hash ba ≡ true → ¬ IsFullSlot (slot_of 4 4 k)
    grows k below same (grown, full) = ground arith

buffer_write-buffered_example :
    Returns (buffer_write (buffer_flush setting) (two_used 4 4) 7 ba) (λ d'.
      (buffered d' ≡ add_to ba 7 (buffered (two_used 4 4)))
      × (d'.storage ≡ (two_used 4 4).storage)
      × (d'.ltp ≡ (two_used 4 4).ltp))
buffer_write-buffered_example =
    buffer_write-buffered (buffer_flush setting) (two_used 4 4) 7 ba ba-IsWritable

buffer_write-overflow_example :
    (buffer_write (buffer_flush setting) (two_used 7 8) 7 ab ≡ stop undefined)
    ↔ IsFullSlot (slot_of 7 8 0)
unfolding hash_eq find_slot
buffer_write-overflow_example =
    buffer_write-overflow (buffer_flush setting) (two_used 7 8) 7 ab 0 refl
      (record { held = omega arith; least = omega arith; small = omega arith })
