-- ===== src/FidTable.antt =====
-- src/fid_table.c, include/fid_table.h and include/file_attr.h: which attribute a file has. The table
-- is an array in the order of insertion; `count` and `capacity` are ints that stay small.
pub mod Attrs
use imr_dedupe.Prelude.{
  ℕ, zero, suc, ◌+◌, ◌-◌, ◌*◌, ◌/◌, ◌%◌, ◌^◌, Bool, true, false, not, ◌==◌, ltb, if◌then◌else◌,
  update, Outcome, ok, ◌>>=◌,
}
use imr_dedupe.Disk.{add64}
use imr_dedupe.Zalloc.{sub64}
use imr_dedupe.RingBuffer.{RingBuffer, ring_buffer_size, insert, delete}

pub data FileAttr : Type 0 where
  free_file_attr hot_file_attr cold_file_attr error_file_attr : FileAttr

abbrev pub is_error : FileAttr → Bool
is_error error_file_attr = true
is_error _ = false

pub record FidEntry : Type 0 where
  pub fid : ℕ
  pub attr : FileAttr

pub record FidHead : Type 0 where
  pub count : ℕ
  pub capacity : ℕ
  pub table : ℕ → FidEntry

-- Allocation succeeds. The array is not cleared.
unfoldable pub init_fid_table : FidHead → FidHead
init_fid_table h = record h { count = 0; capacity = 10 }

unfoldable pub end_ft_head : FidHead → FidHead
end_ft_head h = record h { count = 0; capacity = 0 }

abbrev pub ft_head_is_full : FidHead → Bool
ft_head_is_full h = h.capacity == h.count

unfoldable pub inc_ft : FidHead → FidHead
inc_ft h = record h { capacity = h.capacity * 2 }

-- The search from the entry `i` on, of `n` rounds
unfoldable pub find_attr : (ℕ → FidEntry) → (fid n i : ℕ) → FileAttr
find_attr table fid zero i = error_file_attr
find_attr table fid (suc n) i = elim ((table i).fid == fid) [
  | true ↦ (table i).attr
  | false ↦ find_attr table fid n (i + 1)
]

unfoldable pub get_attr : FidHead → ℕ → FileAttr
get_attr h fid = find_attr h.table fid h.count 0

abbrev pub in_fid_table : FidHead → ℕ → Bool
in_fid_table h fid = not (is_error (get_attr h fid))

-- The result is false for the return value -1.
unfoldable pub add_fid : FidHead → ℕ → FileAttr → FidHead × Bool
add_fid h fid attr =
    if in_fid_table h fid
    then (h, false)
    else (let h' = if ft_head_is_full h then inc_ft h else h in
        (
          record h' {
            table = update h'.table h'.count (record { fid = fid; attr = attr });
            count = h'.count + 1;
          },
          true,
        ))

-- With ATTR_HISTORY: `bytes` is the length of the request, and the window holds the last ones.
unfoldable pub generate_attr_by_history : (bytes : ℕ) → RingBuffer → Outcome (FileAttr × RingBuffer)
generate_attr_by_history bytes m_ring_buffer = do
  let attr = if ltb bytes m_ring_buffer.avg then hot_file_attr else cold_file_attr
  (old_len, r) ← delete m_ring_buffer
  let total = add64 (sub64 r.total old_len) bytes
  r' ← insert (record r { total = total; avg = total / ring_buffer_size }) bytes
  ok (attr, r')

-- Without it: the attributes alternate. The first argument is the static `count`, which is small.
unfoldable pub generate_attr : (count : ℕ) → FidHead → ℕ → FileAttr × ℕ × FidHead
generate_attr count h fid =
    let attr = if count % 2 == 0 then cold_file_attr else hot_file_attr in
    (attr, count + 1, (add_fid h fid attr).0)
