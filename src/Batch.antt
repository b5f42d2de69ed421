-- ===== src/Batch.antt =====
-- src/batch.c: the tables of blocks that one request reads, writes or deletes.
-- `size_t` sizes stay far below 2 ^ 64, as memory holds the entries.
pub mod Step
pub mod Extend
pub mod Lookup
use imr_dedupe.Prelude.{
  ℕ, ◌+◌, ◌-◌, ◌*◌, Bool, true, false, not, ◌&&◌, List, [], ◌∷◌, Option, none, some, ◌==◌, ltb, leb,
  if◌then◌else◌, update, slice, length,
}
use imr_dedupe.Disk.{BbEntry, BbHead, BatchTable, Disk, is_toptrack, storage_is_in_use}

abbrev pub entry : ℕ → Bool → BbEntry
entry pba is_virtual = record { pba = pba; is_virtual = is_virtual }

-- `calloc` of `capacity` entries
abbrev pub empty_head : ℕ → BbHead
empty_head capacity = record { table = λ _. entry 0 false; capacity = capacity; size = 0 }

-- Allocation succeeds.
unfoldable pub init_batch_table : BatchTable
init_batch_table = record { block_head = empty_head 4096; extend_head = empty_head (3 * 4096) }

unfoldable pub end_batch_table : BatchTable → BatchTable
end_batch_table t = record {
  block_head = record t.block_head { capacity = 0; size = 0 };
  extend_head = record t.extend_head { capacity = 0; size = 0 };
}

unfoldable pub increase_bb_head_capacity : BbHead → ℕ → BbHead
increase_bb_head_capacity h i = record h { capacity = h.capacity * i }

-- The order by which `qsort` is called: 1, -1 and 0 as `gt`, `lt` and `eq`.
pub data Order : Type 0 where
  lt eq gt : Order

unfoldable pub batch_cmp : BbEntry → BbEntry → Order
batch_cmp a b = if ltb b.pba a.pba then gt else if ltb a.pba b.pba then lt else eq

unfoldable pub is_bb_table_full : BbHead → Bool
is_bb_table_full h = leb h.capacity h.size

unfoldable pub bb_table_add : BbHead → ℕ → Bool → BbHead
unfolding is_bb_table_full increase_bb_head_capacity
bb_table_add h pba is_virtual =
    let h' = if is_bb_table_full h then increase_bb_head_capacity h 2 else h in
    record h' { table = update h'.table h'.size (entry pba is_virtual); size = h'.size + 1 }

-- `none` for the return value false
unfoldable pub bb_table_get_last_pba : BbHead → Option ℕ
bb_table_get_last_pba h = if h.size == 0 then none else some (h.table (h.size - 1)).pba

unfoldable pub bb_table_add_entry : BbHead → BbEntry → BbHead
bb_table_add_entry h e = bb_table_add h e.pba e.is_virtual

unfoldable pub bb_table_add_entry_virtual : BbHead → BbEntry → BbHead
bb_table_add_entry_virtual h e = bb_table_add h e.pba true

unfoldable pub bb_table_get_size : BbHead → ℕ
bb_table_get_size h = h.size

-- The entry is not tested to be one of the table.
unfoldable pub bb_table_modify : BbHead → (index pba : ℕ) → Bool → BbHead
bb_table_modify h index pba is_virtual = record h {
  table = update h.table index (entry pba is_virtual);
}

unfoldable pub bb_table_modify_last_to_physical : BbHead → BbHead
bb_table_modify_last_to_physical h =
    let pos = h.size - 1 in
    if h.size == 0
    then h
    else record h { table = update h.table pos (record (h.table pos) { is_virtual = false }) }

unfoldable pub batch_add : ℕ → BatchTable → BatchTable
unfolding bb_table_add
batch_add pba t = record t { block_head = bb_table_add t.block_head pba false }

unfoldable pub batch_clear : BatchTable → BatchTable
batch_clear t = record {
  block_head = record t.block_head { size = 0 };
  extend_head = record t.extend_head { size = 0 };
}

-- `bb_table_get_last_pba(h, &pba) && pba == track`
unfoldable pub is_last : BbHead → ℕ → Bool
unfolding bb_table_get_last_pba
is_last h track = elim (bb_table_get_last_pba h) [ none ↦ false | some pba ↦ pba == track ]

-- One round of the loop of `batch_extend`, for one entry of the block table. A bottom track that is
-- written spoils its in-use neighbours, which go into the table as virtual entries.
unfoldable pub extend_top : BbEntry → BbHead → BbHead
extend_top e h =
    if is_last h e.pba then bb_table_modify_last_to_physical h else bb_table_add_entry h e

unfoldable pub extend_lower : Disk → ℕ → BbHead → BbHead
extend_lower d track h =
    if not (track == 0) && storage_is_in_use d (track - 1) && not (is_last h (track - 1))
    then bb_table_add h (track - 1) true
    else h

unfoldable pub extend_upper : Disk → ℕ → BbHead → BbHead
extend_upper d track h =
    if not (track == d.report.max_track_num - 1) && storage_is_in_use d (track + 1)
    then bb_table_add h (track + 1) true
    else h

unfoldable pub extend_entry : Disk → BbEntry → BbHead → BbHead
extend_entry d e h =
    if is_toptrack e.pba
    then extend_top e h
    else extend_upper d e.pba (bb_table_add_entry (extend_lower d e.pba h) e)

unfoldable pub extend_loop : Disk → List BbEntry → BbHead → BbHead
extend_loop d [] h = h
extend_loop d (e ∷ l) h = extend_loop d l (extend_entry d e h)

-- The entries that are in use, in order.
abbrev pub entries : BbHead → List BbEntry
entries h = slice h.table 0 h.size

unfoldable pub batch_extend : Disk → BatchTable → BatchTable
batch_extend d t = record t { extend_head = extend_loop d (entries t.block_head) t.extend_head }

-- `memcpy` of a list to an array
unfoldable pub fill : List BbEntry → ℕ → (ℕ → BbEntry) → ℕ → BbEntry
fill [] i table = table
fill (e ∷ l) i table = fill l (i + 1) (update table i e)

-- `qsort` of libc is an argument. The result is false for the return value 0.
unfoldable pub batch_sync : (List BbEntry → List BbEntry) → BatchTable → BatchTable × Bool
unfolding fill
batch_sync qsort t =
    let h = t.block_head in
    if h.size == 0
    then (t, false)
    else (record t { block_head = record h { table = fill (qsort (entries h)) 0 h.table } }, true)
