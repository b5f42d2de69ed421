-- ===== src/Dedupe.antt =====
-- src/pba.c and src/lba.c: the mapping of logical blocks to physical ones, and the trim of a logical
-- block, which gives up its share of the physical block.
pub mod Search
pub mod Swap
pub mod Place
pub mod Release
pub mod Trim
pub mod Buffer
pub mod Flush
pub mod Write
pub mod Sharing
use imr_dedupe.Prelude.{
  ℕ, zero, suc, ◌+◌, ◌-◌, ◌%◌, ◌^◌, Bool, true, false, not, ◌&&◌, Option, none, some, ◌==◌, ltb,
  leb, if◌then◌else◌, update, Outcome, ok, ◌>>=◌, ◌>>◌, require, undefined, exit_failure,
}
use imr_dedupe.Disk.{Hash, hash_eq, Block, LtpEntry, Disk, add32, trimed, is_in_use, set_status}

unfoldable pub lba_to_pba : Disk → ℕ → ℕ
lba_to_pba d lba = (d.ltp lba).pba

unfoldable pub dedupe_update_ltp_table : Disk → (lba pba : ℕ) → Hash → Disk
dedupe_update_ltp_table d lba pba hash =
    let e : LtpEntry = record (d.ltp lba) {
      pba = pba % 2 ^ 32;
      valid = true;
      trim = false;
      hash = hash;
    } in
    record d { ltp = update d.ltp lba e }

-- The search from index `i` on, of `n` rounds. An index past the capacity is out of bounds.
unfoldable pub find_lba : Block → (lba n i : ℕ) → Outcome (Option ℕ)
find_lba b lba zero i = ok none
find_lba b lba (suc n) i = elim (ltb i b.lba_capacity) [
  | false ↦ require false undefined >> ok none
  | true ↦ elim (b.lba i == lba) [ true ↦ ok (some i) | false ↦ find_lba b lba n (i + 1) ]
]

-- `for (i = index; ...) lba[i] = lba[i + 1]`, of `n` rounds
unfoldable pub shift_lba : (n i : ℕ) → (ℕ → ℕ) → ℕ → ℕ
shift_lba zero i lba = lba
shift_lba (suc n) i lba = shift_lba n (i + 1) (update lba i (lba (i + 1)))

abbrev pub set_block : Disk → ℕ → Block → Disk
set_block d pba b = record d { storage = update d.storage pba b }

unfoldable pub drop_lba : Disk → (pba num_of_lba : ℕ) → Option ℕ → Outcome (Bool × Disk)
drop_lba d pba num_of_lba none = ok (false, d)
drop_lba d pba num_of_lba (some index) = do
  let b = d.storage pba
  require (leb num_of_lba b.lba_capacity) undefined
  ok (true, set_block d pba (record b { lba = shift_lba (num_of_lba - 1 - index) index b.lba }))

-- The parameter `lba` is `unsigned`. `index` is an int: a block of 2 ^ 31 owners is out of bounds.
unfoldable pub delete_lba_in_storage : Disk → (pba lba : ℕ) → Outcome (Bool × Disk)
delete_lba_in_storage d pba lba = do
  let b = d.storage pba
  let num_of_lba = add32 b.referenced_count 1
  require (leb num_of_lba (2 ^ 31)) undefined
  index ← find_lba b (lba % 2 ^ 32) num_of_lba 0
  drop_lba d pba num_of_lba index

-- Whether the logical block is mapped, with this hash.
abbrev pub is_live : LtpEntry → Hash → Bool
is_live e hash = e.valid && hash_eq hash e.hash && not e.trim

abbrev pub trimmed_entry : LtpEntry → LtpEntry
trimmed_entry e = record e { trim = true; valid = false }

-- The owner that leaves is one of several, or the last.
unfoldable pub release : Disk → ℕ → Disk
release d pba =
    let b = d.storage pba in
    if ltb 0 b.referenced_count
    then set_block d pba (record b { referenced_count = b.referenced_count - 1 })
    else record (set_block d pba (set_status trimed b)) { is_bottom_has_trimed_track = true }

unfoldable pub trim_block : Disk → (pba lba : ℕ) → Outcome Disk
trim_block d pba lba = do
  require (ltb pba d.report.max_block_num) undefined
  require (is_in_use (d.storage pba).status) exit_failure
  (is_sucess, d') ← delete_lba_in_storage d pba lba
  require is_sucess exit_failure
  ok (release d' pba)

unfoldable pub dedupe_trim : Disk → ℕ → Hash → Outcome Disk
dedupe_trim d lba hash =
    require (ltb lba d.report.max_logical_block_num) undefined
    >> (if is_live (d.ltp lba) hash
        then (let d' = record d { ltp = update d.ltp lba (trimmed_entry (d.ltp lba)) } in
            trim_block d' (lba_to_pba d' lba) lba)
        else ok d)
