-- ===== src/Records/Mutation.antt =====
-- The parts of a deletion in a list file (adapters/list_file_record_store.cpp,
-- `prepare_moves_and_truncate`): its tests, its sets of pages, and the images of the pages. The map of page buffers is a
-- function that has `none` for a page that was not read, and a std::set is its sorted list.
pub mod Sets
pub mod Needed
pub mod Images
pub mod Tail
pub mod Snapshot
pub mod Prepared
pub mod Commit
pub mod Contract
pub mod Preparing
pub mod Committing
pub mod Whole
use recast.Prelude.{
  ℕ, zero, suc, ◌+◌, ◌-◌, ◌*◌, ◌/◌, ◌%◌, ◌^◌, Bool, true, false, not, ◌&&◌, ◌||◌, List, [], ◌∷◌,
  Option, none, some, Result, ok, err, invalid_argument, out_of_range, runtime_error, system_error,
  throw_if, ltb, leb, ◌==◌, if◌then◌else◌, copy, fill, store, length, Pointer,
}
use recast.Prelude
use recast.Checked.{off_max, page_count, page_offset, checked_multiply}
use recast.Storage.{
  M, pure, lift, ◌>>=◌, ◌>>◌, open_file, fstat, ftruncate, sync_file, pread_exact, pwrite_exact,
}
use recast.Deletion.{RecordMove}
use recast.Records.{ListFileRecordStore, list_path, load_u32, aligned_buffer}

-- `PreparedRecordMutation::Impl`; the path is its root, shard and list.
pub record PreparedMutation : Type 0 where
  pub path : ℕ × ℕ × ℕ
  pub list_no : ℕ
  pub old_size : ℕ
  pub new_size : ℕ
  pub old_pages : ℕ
  pub new_pages : ℕ
  pub page_size : ℕ
  pub record_stride : ℕ
  pub records_per_page : ℕ
  pub pages : ℕ → Option (ℕ → ℕ)
  pub write_pages : List ℕ
  pub observed_ids : List ℕ

unfoldable pub check_moves : ℕ → ℕ → List RecordMove → Result (Unit {0})
check_moves old_size new_size [] = ok tt
check_moves old_size new_size (move ∷ moves) =
    Prelude.◌>>◌
      (throw_if
        (leb new_size move.destination || ltb move.source new_size || leb old_size move.source)
        invalid_argument)
      (check_moves old_size new_size moves)

unfoldable pub check_offsets : ℕ → List ℕ → Result (Unit {0})
check_offsets old_size [] = ok tt
check_offsets old_size (offset ∷ offsets) =
    Prelude.◌>>◌ (throw_if (leb old_size offset) invalid_argument) (check_offsets old_size offsets)

-- `insert` of a std::set.
unfoldable pub insert_page : ℕ → List ℕ → List ℕ
insert_page page [] = page ∷ []
insert_page page (p ∷ pages) =
    if ltb page p
    then page ∷ p ∷ pages
    else if page == p
    then p ∷ pages
    else p ∷ insert_page page pages

unfoldable pub add_observed : ℕ → List ℕ → List ℕ → List ℕ
add_observed per_page [] pages = pages
add_observed per_page (offset ∷ offsets) pages =
    add_observed per_page offsets (insert_page (offset / per_page) pages)

unfoldable pub add_moves : ℕ → List RecordMove → List ℕ → List ℕ
add_moves per_page [] pages = pages
add_moves per_page (move ∷ moves) pages =
    add_moves per_page moves
      (insert_page (move.source / per_page) (insert_page (move.destination / per_page) pages))

unfoldable pub add_destinations : ℕ → List RecordMove → List ℕ → List ℕ
add_destinations per_page [] pages = pages
add_destinations per_page (move ∷ moves) pages =
    add_destinations per_page moves (insert_page (move.destination / per_page) pages)

-- Whether the last retained page has stale lanes.
abbrev pub has_tail : ℕ → ℕ → Bool
has_tail per_page new_size = not (new_size == 0) && not (new_size % per_page == 0)

unfoldable pub add_tail : ℕ → ℕ → List ℕ → List ℕ
add_tail per_page new_size pages =
    if has_tail per_page new_size then insert_page (new_size / per_page) pages else pages

unfoldable pub read_pages :
    ListFileRecordStore → List ℕ → (ℕ → Option (ℕ → ℕ)) → M (ℕ → Option (ℕ → ℕ))
read_pages records [] pages = pure pages
read_pages records (page_id ∷ needed) pages = do
  buffer ← aligned_buffer records.page_size records.page_size
  offset ← lift (page_offset page_id records.page_size)
  bytes ← pread_exact buffer records.page_size offset
  read_pages records needed (store pages page_id (some bytes))

-- `pages.at(page_id)`
unfoldable pub page_at : (ℕ → Option (ℕ → ℕ)) → ℕ → Result (ℕ → ℕ)
page_at pages page_id = elim (pages page_id) [ none ↦ err out_of_range | some bytes ↦ ok bytes ]

-- The bytes of one record, from its own start on.
unfoldable pub record_at : ListFileRecordStore → (ℕ → Option (ℕ → ℕ)) → ℕ → Result (ℕ → ℕ)
record_at records pages offset =
    Prelude.◌>>=◌ (page_at pages (offset / records.records_per_page))
      λ bytes. ok (λ b. bytes (offset % records.records_per_page * records.record_stride + b))

unfoldable pub observe : ListFileRecordStore → (ℕ → Option (ℕ → ℕ)) → List ℕ → Result (List ℕ)
observe records pages [] = ok []
observe records pages (offset ∷ offsets) =
    Prelude.◌>>=◌ (record_at records pages offset)
      λ bytes. Prelude.◌>>=◌ (observe records pages offsets) λ ids. ok (load_u32 bytes ∷ ids)

unfoldable pub take_snapshots :
    ListFileRecordStore → (ℕ → Option (ℕ → ℕ)) → List RecordMove → Result (List (ℕ → ℕ))
take_snapshots records pages [] = ok []
take_snapshots records pages (move ∷ moves) =
    Prelude.◌>>=◌ (record_at records pages move.source) λ bytes.
      Prelude.◌>>=◌ (take_snapshots records pages moves) λ snapshots. ok (bytes ∷ snapshots)

unfoldable pub store_snapshots :
    ListFileRecordStore
    → List RecordMove
    → List (ℕ → ℕ)
    → (ℕ → Option (ℕ → ℕ))
    → Result (ℕ → Option (ℕ → ℕ))
store_snapshots records (move ∷ moves) (snapshot ∷ snapshots) pages =
    Prelude.◌>>=◌ (page_at pages (move.destination / records.records_per_page)) λ bytes.
      store_snapshots records moves snapshots (
        store pages (move.destination / records.records_per_page) (
          some (
            copy bytes (move.destination % records.records_per_page * records.record_stride)
              snapshot 0 records.record_stride)))
store_snapshots records _ _ pages = ok pages

unfoldable pub clear_tail :
    ListFileRecordStore → ℕ → (ℕ → Option (ℕ → ℕ)) → Result (ℕ → Option (ℕ → ℕ))
clear_tail records new_size pages =
    if has_tail records.records_per_page new_size
    then (Prelude.◌>>=◌ (page_at pages (new_size / records.records_per_page)) λ bytes.
        let first_stale = new_size % records.records_per_page in
        ok (
          store pages (new_size / records.records_per_page) (
            some (
              fill bytes (first_stale * records.record_stride)
                ((records.records_per_page - first_stale) * records.record_stride) 0))))
    else ok pages

unfoldable pub pages_below : ℕ → List ℕ → List ℕ
pages_below new_pages [] = []
pages_below new_pages (page ∷ pages) =
    if ltb page new_pages then page ∷ pages_below new_pages pages else pages_below new_pages pages
