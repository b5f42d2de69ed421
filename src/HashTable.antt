-- ===== src/HashTable.antt =====
-- src/hash_table.c: the table from hashes to physical blocks, by open addressing. The cells are
-- pointers to items; a deleted item keeps its cell with the empty hash.
pub mod Probe
pub mod Laws
pub mod Updates
pub mod Replace
use imr_dedupe.Prelude.{
  ℕ, zero, suc, ◌+◌, ◌-◌, ◌%◌, ◌^◌, Bool, true, false, ◌||◌, List, [], ◌∷◌, Option, none, some, ltb,
  if◌then◌else◌, update, length, Outcome, ok, stop, ◌>>=◌, ◌>>◌, require, undefined, out_of_fuel,
}
use imr_dedupe.Disk.{Hash, hash_eq, ℤ, pos, negsuc, DataItem, Disk}

abbrev pub Cells : Type 0
Cells = ℕ → Option DataItem

-- The codes are those of ASCII, so that no `char` is negative; the sum of at most 19 of them is far
-- from the bounds of `int`.
unfoldable pub char_sum : Hash → ℕ
char_sum [] = 0
char_sum (c ∷ hash) = c + char_sum hash

unfoldable pub hash_code : Hash → ℕ → ℕ
hash_code hash size = char_sum hash % size

-- `while (!stop(i)) { ++i; i %= size; }`, the loop of all three operations. The index is an int in the
-- code, which can differ only on a table of 2 ^ 31 cells or more.
unfoldable pub probe : (ℕ → Bool) → (size fuel i : ℕ) → Outcome ℕ
probe halt size zero i = stop out_of_fuel
probe halt size (suc fuel) i = elim (halt i) [
  | true ↦ ok i
  | false ↦ probe halt size fuel ((i + 1) % size)
]

-- Whether a cell is NULL, and whether its item has the hash.
abbrev pub null_cell : Option DataItem → Bool
null_cell none = true
null_cell (some item) = false

abbrev pub has_hash : Hash → Option DataItem → Bool
has_hash hash none = false
has_hash hash (some item) = hash_eq item.hash hash

abbrev pub is_null : Cells → ℕ → Bool
is_null cells i = null_cell (cells i)

abbrev pub holds : Cells → Hash → ℕ → Bool
holds cells hash i = has_hash hash (cells i)

-- Searches and deletions stop at a cell that is NULL or has the hash, insertions at one that is
-- NULL or deleted.
unfoldable pub search_stop : Cells → Hash → ℕ → Bool
search_stop cells hash i = is_null cells i || holds cells hash i

unfoldable pub insert_stop : Cells → ℕ → Bool
insert_stop cells i = is_null cells i || holds cells [] i

-- `(int)pba`, which is what the parameter of `insert` takes
unfoldable pub to_int : ℕ → ℤ
to_int n = let w = n % 2 ^ 32 in if ltb w (2 ^ 31) then pos w else negsuc (2 ^ 32 - 1 - w)

-- As many rounds as there are cells.
unfoldable pub search_item : Disk → Hash → Outcome (Option DataItem)
search_item d hash = do
  let size = d.report.max_track_num
  i ← probe (search_stop d.hash_table hash) size size (hash_code hash size)
  ok (d.hash_table i)

-- A hash longer than 19 characters does not fit the item.
unfoldable pub insert : Disk → Hash → ℕ → Outcome Disk
insert d hash pba = do
  require (ltb (length hash) 20) undefined
  let size = d.report.max_track_num
  i ← probe (insert_stop d.hash_table) size size (hash_code hash size)
  let item : DataItem = record { hash = hash; pba = to_int pba }
  ok (record d { hash_table = update d.hash_table i (some item) })

-- What a deleted cell holds.
abbrev pub dead_item : DataItem
dead_item = record { hash = []; pba = negsuc 0 }

abbrev pub bury : Option DataItem → Option DataItem
bury none = none
bury (some item) = some dead_item

-- The copy that the function returns is the item of the cell before.
unfoldable pub delete_item : Disk → Hash → Outcome (Option DataItem × Disk)
delete_item d hash = do
  let size = d.report.max_track_num
  i ← probe (search_stop d.hash_table hash) size size (hash_code hash size)
  ok (d.hash_table i, record d { hash_table = update d.hash_table i (bury (d.hash_table i)) })
