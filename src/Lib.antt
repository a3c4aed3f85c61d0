-- ===== src/Lib.antt =====
-- RecastLib, the external-list IVF index for vector search: resident lists of four-bit codes with
-- three metadata bytes a row, exact records in page-aligned list files, and batched updates that
-- append to a list or delete by moving its last rows into the holes.
--
-- The parts modelled, from the bottom up (paths from the repository's root):
--
-- Checked: the arithmetic that guards sizes and offsets (adapters/external_io_util.h `checked_add`,
--   `checked_multiply`, `is_power_of_two`; adapters/external_list_ivf.cpp `round_up`;
--   adapters/list_file_record_store.cpp `page_count`, `page_offset`; adapters/pq4_update_packing.cpp
--   `flat_code_size`, `ranges_overlap`).
-- Metadata: the bytes beside the codes, packed in blocks of 32 rows (src/fastscan.cpp
--   `pack_metadata_bbs32`; adapters/pq4_update_packing.cpp, the metadata functions). Metadata/Lanes
--   reads the bytes row by row, Pack and Append state what packing and appending leave, and Blocks
--   is about one block.
-- Codes: the four-bit codes of the same blocks (adapters/pq4_update_packing.cpp, the code functions).
--   Faiss's functions on their layout are a record of functions, `PackedLayout`, that every operation
--   takes. Codes/Append is about an append and all its failures, Blocks about one block.
-- Grouping: the counting sort of a batch by list (adapters/external_list_ivf.cpp `group_by_list`).
--   Grouping/Counting, Placing and Plan follow its three loops.
-- Deletion: the plan of one list's deletion (adapters/external_list_ivf.cpp, the first stage of
--   `erase_batch`). Deletion/Sorting is about the sorted offsets, Balance about the numbers of holes
--   and sources, Survivors about the effect of the moves, and Plan puts them together.
-- Storage: one file and the exact transfers (adapters/external_io_util.h `pread_exact`, `pwrite_exact`,
--   `sync_file`, `AlignedBuffer`). Storage/Reading and Writing state what a transfer leaves, Triples
--   and Transfers how each call can end, as rules that the operations compose.
-- Records: the record store over such a file (adapters/list_file_record_store.cpp: the constructor,
--   `list_path`, `append_records`). Records/Layout, Page and Rows are about the place of a row,
--   Append about one stored page, Pages about the loop, Tail about the file before and after it,
--   Publish and Atomic about the whole append. Records/Lookup has the reads (`read_logical_ids`,
--   `validate_list_file`), with a child for each step and Roundtrip for a read after an append.
--   Records/Mutation has the deletions (`prepare_moves_and_truncate`, `commit_prepared_mutation`,
--   `apply_moves_and_truncate`): Sets and Needed are about the pages involved, Images, Tail,
--   Snapshot and Prepared about their images, Contract, Preparing, Committing and Whole about the operations.
-- Directory: the locations by Logical ID in one file over the same Storage
--   (adapters/external_location_directory.cpp: the constructor, `read_batch`, `write_batch`).
--   Directory/Runs is about the requests of a read and the runs of one page, Reading about the pages
--   it reads, and Batch about the whole read. Updates is about the sorted updates of a write, Stores
--   about the entries of a page, Writing and Pages about the pages it writes, Written about the
--   whole write, and Roundtrip about a read after a write.
-- Floats: the comparisons of float32 values by their bits.
-- Refine: the exact refinement (adapters/list_file_aio_refiner.cpp). Refine.antt has the read plans
--   (`build_read_plans`, `distinct_lists`), with Places, Builder and Plans about the locations, one
--   location and all of them; TopK the heap (`insert_exact`, `finish_topk`); Kernel the system calls;
--   Scan the blocking reads (`process_plan`, `open_files`, `close_files`, `refine_blocking`); Aio the
--   asynchronous ones (`prepare_aio`, `submit_requests`, `refine_aio`), with Pending, Steps, Events,
--   Queue, Loop and Started about the requests in flight; Refiner the constructor and `refine`, with
--   Files, Opening, Splitting, Batches, Loop and Whole about its batches of lists.
-- Selection: the choice of the candidates for the refinement. Selection.antt has the rank threshold
--   (src/interval_selection_internal.h `find_fuzzy_rank_threshold` and its helpers), and
--   Selection/Collector the class `FusedIntervalAccumulator` of src/fastscan.cpp. Sorting, Keys and
--   Counting are about sorts by a key, the keys of floats and the counting loops; Threshold about the
--   rank threshold, Planes about the compacting loops, Reservoir about one row, Uppers about the heap of
--   upper endpoints, Scanned about the blocks of a scan, Finish about the exact shrink, and Whole puts
--   them together.
-- Prelude: lists, tests, exceptions as results, counted loops and buffers. Tests: concrete inputs.
--
-- Numbers are natural numbers; `size_t` and `uint64_t` end at 2^64 - 1, `uint32_t` at 2^32 - 1 and
-- `off_t` at 2^63 - 1, and each guard of the source against a larger value is written out. A thrown
-- exception is an `err` with its class; the message is dropped. A buffer is its cells by index, with
-- an address that is 0 for nullptr. The operating system is a list of outcomes, one for each call, that
-- the theorems leave open: a call fails, is interrupted, or moves some of its bytes. The two transfer
-- loops take fuel, the number of the outcomes and two more: each round uses an outcome up, and without
-- one the calls succeed in full, so that a second round ends the loop; running out of fuel is the result
-- logic_error, which the theorems exclude. The refinement
-- has a kernel of its own, whose responses also say which reads are complete; a read that is interrupted
-- skips responses, the submission takes as much fuel as there are requests, since each round submits one
-- at least, and the loop over the completions as much as there are plans, since each round completes one
-- at least. The threshold search has the 200 rounds of the source. Every other loop runs over a list or a count.
--
-- Not modelled: the float32 arithmetic (training, encoding, distances, SIMD kernels), the calls of Faiss,
-- the AVX-512 paths, the scan that computes the estimates and their intervals, checkpoints, and the counters of time and pages.
-- The parallel loops over the lists of a batch are taken one list at a time, since their iterations
-- touch different lists.
mod Prelude
pub mod Checked
pub mod Floats
pub mod Metadata
pub mod Grouping
pub mod Codes
pub mod Deletion
pub mod Storage
pub mod Records
pub mod Directory
pub mod Refine
pub mod Selection
mod Tests
