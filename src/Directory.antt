-- ===== src/Directory.antt =====
-- The location directory of adapters/external_location_directory.cpp: entry `id` of eight bytes, list
-- and offset, stands at byte `id * 8` of one file. `std::sort` is an insertion sort; requests that its
-- order does not separate read one entry, for two places of the result, and updates of one ID are
-- refused. The inner loops find the runs of neighbours with one page; `page_runs` does so at once.
pub mod Runs
pub mod Reading
pub mod Batch
pub mod Stores
pub mod Updates
pub mod Writing
pub mod Pages
pub mod Written
pub mod Roundtrip
use recast.Prelude.{
  ℕ, zero, suc, ◌+◌, ◌*◌, ◌/◌, ◌%◌, Bool, true, false, not, ◌&&◌, ◌||◌, List, [], ◌∷◌, none, some,
  Result, ok, invalid_argument, out_of_range, runtime_error, throw_if, ltb, leb, ◌==◌,
  if◌then◌else◌, store, copy, fill, max,
}
use recast.Checked.{is_power_of_two, page_offset}
use recast.Storage.{
  File, World, M, pure, lift, ◌>>=◌, ◌>>◌, open_file, fstat, ftruncate, sync_file, resize_file,
  pread_exact, pwrite_exact,
}
use recast.Records.{u32_byte, load_u32, aligned_buffer}

pub record DiskLocation : Type 0 where
  pub list_no : ℕ
  pub offset : ℕ

abbrev pub tombstone : DiskLocation
tombstone = record { list_no = 4294967295; offset = 4294967295 }

unfoldable pub active : DiskLocation → Bool
active location = not (location.list_no == 4294967295) && not (location.offset == 4294967295)

pub record ExternalLocationDirectory : Type 0 where
  pub path : ℕ
  pub page_size : ℕ
  pub direct_io : Bool
  pub sync_writes : Bool

-- O_TRUNC of the file that was opened.
unfoldable pub truncate_opened : M (Unit {0})
truncate_opened w = elim w.file [
  | none ↦ (ok tt, w)
  | some file ↦ (ok tt, record w { file = some (resize_file file 0) })
]

-- The constructor. Paths are named by numbers, and 0 is the empty path; O_TRUNC empties the file.
unfoldable pub new_directory :
    Bool → Bool → ExternalLocationDirectory → Bool → M ExternalLocationDirectory
new_directory little_endian linux_aio directory create = do
  lift (
      throw_if
        (directory.path == 0
          || not (is_power_of_two directory.page_size)
          || ltb directory.page_size 8
          || not (directory.page_size % 8 == 0)
          || not little_endian)
        invalid_argument)
  lift (throw_if (directory.direct_io && not linux_aio) invalid_argument)
  open_file create
  if create then truncate_opened else pure tt
  pure directory

abbrev pub entries_per_page : ExternalLocationDirectory → ℕ
entries_per_page directory = directory.page_size / 8

-- The entry at `lane` of a page, and a store to it.
unfoldable pub entry_at : (ℕ → ℕ) → ℕ → DiskLocation
entry_at bytes lane = record {
  list_no = load_u32 (λ i. bytes (lane * 8 + i));
  offset = load_u32 (λ i. bytes (lane * 8 + 4 + i));
}

unfoldable pub store_entry : (ℕ → ℕ) → ℕ → DiskLocation → ℕ → ℕ
store_entry bytes lane location =
    copy (copy bytes (lane * 8) (u32_byte location.list_no) 0 4) (lane * 8 + 4)
      (u32_byte location.offset) 0 4

-- Neighbours with one page.
unfoldable pub add_run {ℓ} : {A : Type ℓ} → ℕ → A → List (ℕ × List A) → List (ℕ × List A)
add_run page x [] = (page, x ∷ []) ∷ []
add_run page x ((p, run) ∷ runs) =
    if page == p then (p, x ∷ run) ∷ runs else (page, x ∷ []) ∷ (p, run) ∷ runs

unfoldable pub page_runs {ℓ} : {A : Type ℓ} → (A → ℕ) → List A → List (ℕ × List A)
page_runs page [] = []
page_runs page (x ∷ xs) = add_run (page x) x (page_runs page xs)

pub record Request : Type 0 where
  pub page : ℕ
  pub id : ℕ
  pub input_index : ℕ

unfoldable pub make_requests : ExternalLocationDirectory → List ℕ → ℕ → List Request
make_requests directory [] input = []
make_requests directory (id ∷ ids) input =
    record { page = id / entries_per_page directory; id = id; input_index = input }
    ∷ make_requests directory ids (input + 1)

unfoldable pub request_before : Request → Request → Bool
request_before lhs rhs =
    if not (lhs.page == rhs.page) then ltb lhs.page rhs.page else ltb lhs.id rhs.id

unfoldable pub insert_request : Request → List Request → List Request
insert_request r [] = r ∷ []
insert_request r (s ∷ requests) =
    if request_before s r then s ∷ insert_request r requests else r ∷ s ∷ requests

unfoldable pub sort_requests : List Request → List Request
sort_requests [] = []
sort_requests (r ∷ requests) = insert_request r (sort_requests requests)

unfoldable pub take_entries :
    ExternalLocationDirectory → (ℕ → ℕ) → List Request → (ℕ → DiskLocation) → ℕ → DiskLocation
take_entries directory bytes [] result = result
take_entries directory bytes (r ∷ requests) result =
    take_entries directory bytes requests
      (store result r.input_index (entry_at bytes (r.id % entries_per_page directory)))

unfoldable pub read_runs :
    ExternalLocationDirectory
    → ℕ
    → List (ℕ × List Request)
    → (ℕ → ℕ)
    → (ℕ → DiskLocation)
    → M (ℕ → DiskLocation)
read_runs directory size [] bytes result = pure result
read_runs directory size ((page, run) ∷ runs) bytes result = do
  offset ← lift (page_offset page directory.page_size)
  lift (throw_if (ltb size (offset + directory.page_size)) out_of_range)
  bytes' ← pread_exact bytes directory.page_size offset
  read_runs directory size runs bytes' (take_entries directory bytes' run result)

unfoldable pub read_batch : ExternalLocationDirectory → List ℕ → M (ℕ → DiskLocation)
read_batch directory [] = pure (λ _. tombstone)
read_batch directory (first ∷ more) = do
  open_file false
  size ← fstat
  lift (throw_if (not (size % directory.page_size == 0)) runtime_error)
  let requests = sort_requests (make_requests directory (first ∷ more) 0)
  page ← aligned_buffer directory.page_size directory.page_size
  read_runs directory size (page_runs (λ (r : Request). r.page) requests) page (λ _. tombstone)

-- The updates sorted by ID.
unfoldable pub insert_update : ℕ × DiskLocation → List (ℕ × DiskLocation) → List (ℕ × DiskLocation)
insert_update u [] = u ∷ []
insert_update u (v ∷ updates) = if ltb v.0 u.0 then v ∷ insert_update u updates else u ∷ v ∷ updates

unfoldable pub sort_updates : List (ℕ × DiskLocation) → List (ℕ × DiskLocation)
sort_updates [] = []
sort_updates (u ∷ updates) = insert_update u (sort_updates updates)

-- Two neighbours with one ID.
unfoldable pub has_duplicate : List (ℕ × DiskLocation) → Bool
has_duplicate [] = false
has_duplicate (u ∷ []) = false
has_duplicate (u ∷ v ∷ updates) = u.0 == v.0 || has_duplicate (v ∷ updates)

unfoldable pub store_entries : ExternalLocationDirectory → List (ℕ × DiskLocation) → (ℕ → ℕ) → ℕ → ℕ
store_entries directory [] bytes = bytes
store_entries directory ((id, location) ∷ updates) bytes =
    store_entries directory updates (store_entry bytes (id % entries_per_page directory) location)

-- The loop over the pages; it returns the size that the file should have.
unfoldable pub write_runs :
    ExternalLocationDirectory → List (ℕ × List (ℕ × DiskLocation)) → (ℕ → ℕ) → ℕ → M ℕ
write_runs directory [] bytes current_bytes = pure current_bytes
write_runs directory ((page_id, run) ∷ runs) bytes current_bytes = do
  offset ← lift (page_offset page_id directory.page_size)
  page ←
      if ltb offset current_bytes
      then pread_exact bytes directory.page_size offset
      else pure (fill bytes 0 directory.page_size 255)
  let written = store_entries directory run page
  pwrite_exact written directory.page_size offset
  write_runs directory runs written (max current_bytes (offset + directory.page_size))

unfoldable pub write_batch : ExternalLocationDirectory → List (ℕ × DiskLocation) → M (Unit {0})
write_batch directory [] = pure tt
write_batch directory (first ∷ more) = do
  let updates = sort_updates (first ∷ more)
  lift (throw_if (has_duplicate updates) invalid_argument)
  open_file false
  size ← fstat
  lift (throw_if (not (size % directory.page_size == 0)) runtime_error)
  page ← aligned_buffer directory.page_size directory.page_size
  let runs = page_runs (λ (u : ℕ × DiskLocation). u.0 / entries_per_page directory) updates
  current_bytes ← write_runs directory runs page size
  ftruncate current_bytes
  sync_file directory.sync_writes
