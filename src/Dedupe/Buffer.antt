-- ===== src/Dedupe/Buffer.antt =====
-- src/lba.c (buffer_write, buffer_flush, dedupe_lba_write_p1_buf): in phase 1 writes are collected by
-- hash in a buffer of P1_BUF_NUM slots, which is written out when it is full.
pub mod Join
pub mod Slots
use imr_dedupe.Prelude.{
  ℕ, zero, suc, ◌+◌, ◌*◌, ◌%◌, ◌^◌, Bool, true, false, ◌==◌, ltb, Option, none, some, if◌then◌else◌,
  length, update, Outcome, ok, stop, ◌>>=◌, ◌>>◌, require, undefined,
}
use imr_dedupe.Disk.{Hash, hash_eq, BufferBlock, Report, Disk, add32}

abbrev pub set_slot : Disk → ℕ → BufferBlock → Disk
set_slot d i b = record d { phase1_buf = update d.phase1_buf i b }

-- How many logical blocks the array of a slot holds: `malloc` gives room for 5 of them with an
-- `lba_capacity` of 4, and `realloc`, whenever that is doubled, for as many as it then says.
abbrev pub room : BufferBlock → ℕ
room b = if b.lba_capacity == 4 then 5 else b.lba_capacity

-- The slot with the hash, of the `n` from `i` on.
unfoldable pub find_slot : Disk → Hash → (n i : ℕ) → Option ℕ
find_slot d hash zero i = none
find_slot d hash (suc n) i = elim (hash_eq (d.phase1_buf i).hash hash) [
  | true ↦ some i
  | false ↦ find_slot d hash n (i + 1)
]

-- One more logical block in a slot.
unfoldable pub join_slot : BufferBlock → ℕ → Outcome BufferBlock
join_slot b lba =
    let count = add32 b.referenced_count 1 in
    let grown = if ltb b.lba_capacity count then b.lba_capacity * 2 % 2 ^ 32 else b.lba_capacity in
    let b' = record b { referenced_count = count; lba_capacity = grown } in
    require (ltb count (room b')) undefined
    >> ok (record b' { lba = update b'.lba count lba; dedupe = true })

-- `for (i = 0; i <= lba_capacity; i++) lba[i] = 0;`
abbrev pub cleared : BufferBlock → ℕ → ℕ
cleared b i = if ltb b.lba_capacity i then b.lba i else 0

unfoldable pub new_slot : BufferBlock → ℕ → Hash → Outcome BufferBlock
new_slot b lba hash =
    require (ltb b.lba_capacity (room b)) undefined
    >> require (ltb (length hash) 20) undefined
    >> ok (record b {
      dedupe = false;
      hash = hash;
      lba = update (cleared b) 0 lba;
      referenced_count = 0;
    })

abbrev pub set_used : Disk → ℕ → Disk
set_used d n = record d { report = record d.report { used_buffer_count = n } }

-- `buffer_flush` is the first argument.
unfoldable pub fill_slot : (Disk → Outcome Disk) → Disk → (lba : ℕ) → Hash → Outcome Disk
fill_slot flush d lba hash = do
  let used = d.report.used_buffer_count
  require (ltb used 32) undefined
  b ← new_slot (d.phase1_buf used) lba hash
  let d' = set_used (set_slot d used b) (add32 used 1)
  if add32 used 1 == 32 then (flush d' >>= λ e. ok (set_used e 0)) else ok d'

unfoldable pub buffer_write : (Disk → Outcome Disk) → Disk → (lba : ℕ) → Hash → Outcome Disk
buffer_write flush d lba hash = elim (find_slot d hash d.report.used_buffer_count 0) [
  | some i ↦ join_slot (d.phase1_buf i) lba >>= λ b. ok (set_slot d i b)
  | none ↦ fill_slot flush d lba hash
]
