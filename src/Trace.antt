-- ===== src/Trace.antt =====
-- test/main.c (parsing_csv, parsing_postmark) and src/parse.c (DEDU_parsing_csv): the lines of a trace
-- are carried out one after the other. Reading a line and taking its fields apart is left to the C
-- library, so that a trace is a list of what each line says.
pub mod Blocks
pub mod Trims
use imr_dedupe.Prelude.{
  ℕ, zero, suc, ◌+◌, ◌-◌, ◌/◌, ◌%◌, Bool, true, false, ◌==◌, ltb, if◌then◌else◌, List, [], ◌∷◌,
  length, Outcome, ok, stop, ◌>>=◌, ◌>>◌, require, exit_failure, undefined,
}
use imr_dedupe.Disk.{Hash, Report, Disk, add64, block_size}
use imr_dedupe.BlockIo.{set_report}
use imr_dedupe.Dedupe.{dedupe_trim}
use imr_dedupe.Dedupe.Place.{Setting}
use imr_dedupe.Dedupe.Write.{dedupe_lba_write}
use imr_dedupe.Dedupe.Flush.{dedupe_lba_write_p1_buf}
use imr_dedupe.Files.{lba_read, lba_write, lba_delete}

-- `!!x`
abbrev pub is_positive : ℕ → ℕ
is_positive x = if x == 0 then 0 else 1

-- How many blocks the bytes from `bytes` on touch, of which there are `num_bytes`.
unfoldable pub num_of_blocks : (bytes num_bytes : ℕ) → ℕ
num_of_blocks bytes num_bytes =
    let remainder = bytes % block_size in
    let remain = if remainder == 0 then 0 else block_size - remainder in
    let left = num_bytes - remain in
    if num_bytes == 0
    then 0
    else if ltb remain num_bytes
    then is_positive remain + (left / block_size + is_positive (left % block_size))
    else 1

-- How many blocks hold `size` bytes.
unfoldable pub num_of_use_block : ℕ → ℕ
num_of_use_block size =
    if ltb 0 (size % block_size) then size / block_size + 1 else size / block_size

-- A line without hashes: a comment, a line of another form, or an operation with a file and two numbers.
pub data Line : Type 0 where
  comment malformed : Line
  request : (operation fid from amount : ℕ) → Line

-- A line with a hash: the operation, the hash, the size and the logical block.
pub record DeduLine : Type 0 where
  pub operation : ℕ
  pub hash : Hash
  pub size : ℕ
  pub lba : ℕ

abbrev pub count_ins : Disk → Disk
count_ins d = set_report d (record d.report { ins_count = add64 d.report.ins_count 1 })

abbrev pub count_read_ins : Disk → Disk
count_read_ins d =
    set_report d (record d.report { read_ins_count = add64 d.report.read_ins_count 1 })

abbrev pub count_write_ins : Disk → Disk
count_write_ins d =
    set_report d (record d.report { write_ins_count = add64 d.report.write_ins_count 1 })

abbrev pub count_delete_ins : Disk → Disk
count_delete_ins d =
    set_report d (record d.report { delete_ins_count = add64 d.report.delete_ins_count 1 })

abbrev pub max_traces : ℕ
max_traces = 4_500_000

module _ (s : Setting) where
  -- The number is `lba_read`'s, `lba_write`'s or `lba_delete`'s result; an operation that is none of
  -- them is reported and passed over, with the result `none_expected`.
  unfoldable pub run_operation :
      (is_csv_flag : Bool) → (operation fid lba n none_expected : ℕ) → Disk → Outcome (Disk × ℕ)
  run_operation is_csv_flag operation fid lba n none_expected d =
      if operation == 1
      then lba_read s.qsort is_csv_flag (count_read_ins d) lba n fid
      else if operation == 2
      then lba_write s.qsort s.new_alloc s.fuel (count_write_ins d) lba n fid
      else if operation == 3
      then (lba_delete s.qsort (count_delete_ins d) lba n fid >>= λ r. ok (r.0, none_expected))
      else ok (d, none_expected)

  unfoldable pub run_csv_line : Line → Disk → Outcome Disk
  run_csv_line comment d = ok d
  run_csv_line malformed d = stop exit_failure
  run_csv_line (request operation fid bytes num_bytes) d =
      run_operation true operation fid (bytes / block_size) (num_of_blocks bytes num_bytes) 0
        (count_ins d)
      >>= λ r. ok r.0

  -- At most `num_traces` lines are read.
  unfoldable pub parse_lines : (num_traces : ℕ) → List Line → Disk → Outcome Disk
  parse_lines zero l d = ok d
  parse_lines (suc num_traces) [] d = ok d
  parse_lines (suc num_traces) (x ∷ l) d = run_csv_line x d >>= parse_lines num_traces l

  unfoldable pub parsing_csv : List Line → Disk → Outcome Disk
  parsing_csv = parse_lines max_traces

  -- A read or a write of fewer blocks than asked for ends the run.
  unfoldable pub run_postmark_line : Line → Disk → Outcome Disk
  run_postmark_line comment d = ok d
  run_postmark_line malformed d = stop exit_failure
  run_postmark_line (request operation fid lba n) d =
      run_operation false operation fid lba n n (count_ins d) >>= λ r.
      require (r.1 == n) exit_failure >> ok r.0

  unfoldable pub parsing_postmark : List Line → Disk → Outcome Disk
  parsing_postmark [] d = ok d
  parsing_postmark (x ∷ l) d = run_postmark_line x d >>= parsing_postmark l

  -- The write of the build: with NEW_ALLOC the one with the buffer of phase 1.
  unfoldable pub dedu_write_line : DeduLine → Disk → Outcome Disk
  dedu_write_line x d =
      let n = num_of_use_block x.size in
      if s.new_alloc
      then dedupe_lba_write_p1_buf s d x.lba n x.hash
      else (dedupe_lba_write s d x.lba n x.hash >>= λ r. ok r.0)

  -- The field for the hash has room for 19 characters. A deletion trims the first block alone.
  unfoldable pub run_dedu_line : DeduLine → Disk → Outcome Disk
  run_dedu_line x d =
      require (ltb (length x.hash) 20) undefined
      >> (if x.operation == 2
          then dedu_write_line x (count_write_ins (count_ins d))
          else if x.operation == 3
          then dedupe_trim (count_delete_ins (count_ins d)) x.lba x.hash
          else stop exit_failure)

  unfoldable pub dedu_parsing_csv : List DeduLine → Disk → Outcome Disk
  dedu_parsing_csv [] d = ok d
  dedu_parsing_csv (x ∷ l) d = run_dedu_line x d >>= dedu_parsing_csv l
