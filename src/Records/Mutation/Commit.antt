-- ===== src/Records/Mutation/Commit.antt =====
-- A deletion in a list file: `prepare_moves_and_truncate`, `commit_prepared_mutation` and
-- `apply_moves_and_truncate` of adapters/list_file_record_store.cpp.
use recast.Prelude.{
  ℕ, ◌*◌, ◌%◌, ◌^◌, false, not, ◌||◌, List, [], ◌∷◌, Option, none, some, err, invalid_argument,
  runtime_error, system_error, throw_if, ltb, ◌==◌, length,
}
use recast.Checked.{off_max, page_count, page_offset, checked_multiply}
use recast.Storage.{
  M, pure, lift, ◌>>=◌, ◌>>◌, open_file, fstat, ftruncate, sync_file, pwrite_exact,
}
use recast.Deletion.{RecordMove}
use recast.Records.{ListFileRecordStore, list_path}
use recast.Records.Mutation.{
  PreparedMutation, check_moves, check_offsets, add_observed, add_moves, add_destinations, add_tail,
  read_pages, page_at, observe, take_snapshots, store_snapshots, clear_tail, pages_below,
}

unfoldable pub prepare_moves_and_truncate :
    ListFileRecordStore → ℕ → ℕ → ℕ → List RecordMove → List ℕ → M PreparedMutation
prepare_moves_and_truncate records list_no old_size new_size moves observed_offsets = do
  lift (throw_if (ltb old_size new_size) invalid_argument)
  lift (check_moves old_size new_size moves)
  lift (check_offsets old_size observed_offsets)
  path ← lift (list_path records list_no)
  let per_page = records.records_per_page
  let old_pages = page_count old_size per_page
  let new_pages = page_count new_size per_page
  let needed_pages =
      add_tail per_page new_size
        (add_moves per_page moves (add_observed per_page observed_offsets []))
  let write_pages = add_tail per_page new_size (add_destinations per_page moves [])
  open_file false
  size ← fstat
  lift (throw_if (not (size == old_pages * records.page_size % 2 ^ 64)) runtime_error)
  pages ← read_pages records needed_pages (λ _. none)
  observed_ids ← lift (observe records pages observed_offsets)
  bytes ← lift (checked_multiply (length moves) records.record_stride)
  snapshots ← lift (take_snapshots records pages moves)
  moved ← lift (store_snapshots records moves snapshots pages)
  cleared ← lift (clear_tail records new_size moved)
  pure (record {
    path = (records.root, path.0, path.1);
    list_no = list_no;
    old_size = old_size;
    new_size = new_size;
    old_pages = old_pages;
    new_pages = new_pages;
    page_size = records.page_size;
    record_stride = records.record_stride;
    records_per_page = per_page;
    pages = cleared;
    write_pages = pages_below new_pages write_pages;
    observed_ids = observed_ids;
  })

unfoldable pub commit_pages : ListFileRecordStore → (ℕ → Option (ℕ → ℕ)) → List ℕ → M (Unit {0})
commit_pages records pages [] = pure tt
commit_pages records pages (page_id ∷ write_pages) = do
  bytes ← lift (page_at pages page_id)
  offset ← lift (page_offset page_id records.page_size)
  pwrite_exact bytes records.page_size offset
  commit_pages records pages write_pages

-- A mutation that was moved from or never prepared is `none`.
unfoldable pub commit_prepared_mutation :
    ListFileRecordStore → Option PreparedMutation → M (Unit {0})
commit_prepared_mutation records none = lift (err invalid_argument)
commit_prepared_mutation records (some prepared) = do
  lift (
      throw_if
        (not (prepared.page_size == records.page_size)
          || not (prepared.record_stride == records.record_stride)
          || not (prepared.records_per_page == records.records_per_page))
        invalid_argument)
  path ← lift (list_path records prepared.list_no)
  lift (
      throw_if
        (not (prepared.path.0 == records.root)
          || not (prepared.path.1 == path.0)
          || not (prepared.path.2 == path.1))
        invalid_argument)
  open_file false
  size ← fstat
  lift (throw_if (not (size == prepared.old_pages * records.page_size % 2 ^ 64)) runtime_error)
  commit_pages records prepared.pages prepared.write_pages
  let final_bytes = prepared.new_pages * records.page_size % 2 ^ 64
  lift (throw_if (ltb off_max final_bytes) system_error)
  ftruncate final_bytes
  sync_file records.sync_writes

unfoldable pub apply_moves_and_truncate :
    ListFileRecordStore → ℕ → ℕ → ℕ → List RecordMove → M (Unit {0})
apply_moves_and_truncate records list_no old_size new_size moves =
    prepare_moves_and_truncate records list_no old_size new_size moves [] >>= λ prepared.
    commit_prepared_mutation records (some prepared)
