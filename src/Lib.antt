-- ===== src/Lib.antt =====
-- The simulator of an interlaced magnetic recording (IMR) disk with deduplication
-- (imr_simulator-master/, where the paths below start).
--
-- On an IMR disk a bottom track (even) lies under its two top neighbours (odd): writing it spoils
-- them, so that they are read before and written again after. The simulator maps logical blocks to
-- tracks, allocates tracks in phases, shares a track among logical blocks with the same hash, and
-- accounts for the time and the sizes of all that.
--
-- The build that is modelled is the one with DEDU_WRITE, and with ZALLOC and DEDU_ORIGIN, which it
-- implies; NEW_ALLOC, TRIM and TRIM_V2 are arguments. TOP_BUFFER, BLOCK_SWAP, NO_DEDU and CMR are not
-- defined. VirtualGroups is about the files that the build with VIRTUAL_GROUPS adds, on the disk that
-- the others model.
--
-- - Prelude: names of the libraries, arrays as functions, and what a call comes to: a value, an
--   exit, a failed assertion, a jump, undefined behaviour, or a loop out of fuel.
-- - Disk: include/lba.h, include/batch.h, include/op_mode.h, include/hash_table.h: the state. The
--   globals that the operations share are fields of the disk.
-- - Batch: src/batch.c, the tables of a request. Batch/Lookup reads such a table as a map,
--   Batch/Step and Batch/Extend are about batch_extend.
-- - RecordOp: src/record_op.c, the accounting. The sums are in RecordOp/Charges; RecordOp/Frame says
--   what is left alone.
-- - Chs: src/chs.c, one block.
-- - BlockIo: the rest of src/batch.c with pba_read, pba_write and pba_delete of src/pba.c and
--   rw_block of src/rw.c. qsort of libc is an argument, and BlockIo/Sort states what is asked of it.
-- - HashTable: src/hash_table.c. HashTable/Probe is about the loop that the operations share,
--   HashTable/Laws and HashTable/Updates are about the operations, and HashTable/Replace about a
--   deletion with an insertion.
-- - RingBuffer: src/ring_buffer.c.
-- - Zalloc: the layout that init_disk of src/lba.c computes; Zalloc/Find is zalloc_find_next_pba of
--   src/pba.c.
-- - Dedupe: lba_to_pba and dedupe_update_ltp_table of src/pba.c, delete_lba_in_storage and
--   dedupe_trim of src/lba.c. Dedupe/Search is is_in_storage and find_swapped_pba of src/pba.c and
--   find_empty_block_swap of src/block_swap.c; Dedupe/Swap is src/active_swap.c and DEDU_update of
--   src/pba.c, with Swap/Owners, Swap/Items and Swap/Content about the exchange of two tracks;
--   Dedupe/Place is dedupe_pba_search of src/pba.c; Dedupe/Write is dedupe_lba_write of src/lba.c,
--   which calls them all, with Write/New and Write/Share about a content that the disk does not have
--   and one that it has, and Dedupe/Sharing about the two together with a trim. src/parse.c calls this
--   write in the build without NEW_ALLOC. Dedupe/Buffer is buffer_write of src/lba.c, and Dedupe/Flush
--   buffer_flush and dedupe_lba_write_p1_buf, the write of the build with NEW_ALLOC.
--   Dedupe/Trim/Consistent states the invariant of the mapping.
-- - Init: init_disk of src/lba.c; Init/Sound is about the empty disk that it returns.
-- - Files: the requests of traces without hashes: is_lba_valid, pba_search, lba_to_tba and the like of
--   src/pba.c, lba_read, lba_write, native_lba_delete, lba_invalid and journaling_write of src/lba.c.
--   Files/Collect is about the loop of native_lba_delete; BlockIo/Read and BlockIo/Delete are about
--   the batches of Files/Read and Files/Delete.
-- - FidTable: src/fid_table.c, the attributes of files that the build with VIRTUAL_GROUPS uses.
-- - VirtualGroups: src/virtual_groups.c, the groups of tracks and their start, with find_next_pba_jfs
--   of src/pba.c. VirtualGroups/Allocate is vg_get_block, VirtualGroups/Journal vg_journal_get_block,
--   VirtualGroups/Update update_vg_list and VirtualGroups/Swap the dual swap; VirtualGroups/Layout is
--   about the start. The lists of include/list.h, which is the list of the Linux kernel, are a record
--   of operations, and IsList states what is asked of them.
-- - Trace: parsing_csv and parsing_postmark of test/main.c and DEDU_parsing_csv of src/parse.c. A trace
--   is the list of its lines, as the C library reads them and takes them apart.
-- - Tests: small disks, and the theorems applied to them.
--
-- Loops over tables are recursion on the list of entries. The probe loop of the hash table has as
-- much fuel as the table has cells, since a run without a stop among so many cells repeats; the loop
-- of the allocator takes its fuel as an argument, and needs one round for each track that it passes. A
-- walk over the chain of the groups has as much fuel as there are groups, and one more; the loop of
-- find_next_pba_jfs takes its fuel as an argument.
-- An integer of w bits is computed modulo 2 ^ w where the code may overflow it. Allocation of memory
-- succeeds.
--
-- Not modelled: the command line, output and dumps; the top buffer, which is not in this build; the
-- counts of the list heads and the sizes of the groups, which nothing reads; src/min_access.c, which no target of the makefile compiles.
pub mod Prelude
pub mod Batch
pub mod BlockIo
pub mod Chs
pub mod Dedupe
pub mod Disk
pub mod FidTable
pub mod Files
pub mod HashTable
pub mod Init
pub mod RecordOp
pub mod RingBuffer
pub mod Tests
pub mod Trace
pub mod VirtualGroups
pub mod Zalloc
