-- ===== src/Records.antt =====
-- The list files of adapters/list_file_record_store.cpp: records of a Logical ID and a payload, a
-- whole number of them to a page. The operations work on the file of one list; `list_path` says
-- which. Directories are made by the surroundings, and `little_endian` and `linux_aio` are the
-- platform's answers.
pub mod Layout
pub mod Page
pub mod Rows
pub mod Append
pub mod Pages
pub mod Tail
pub mod Publish
pub mod Atomic
pub mod Lookup
pub mod Mutation
use recast.Prelude.{
  ℕ, zero, suc, ◌+◌, ◌-◌, ◌*◌, ◌/◌, ◌%◌, ◌^◌, Bool, true, false, not, ◌&&◌, ◌||◌, Result, ok, err,
  invalid_argument, out_of_range, runtime_error, system_error, throw_if, ltb, leb, ◌==◌,
  if◌then◌else◌, Pointer, is_null, fill, copy, iterate, min, max,
}
use recast.Prelude
use recast.Checked.{uint32_max, off_max, is_power_of_two, page_count, page_offset}
use recast.Storage.{
  M, pure, lift, ◌>>=◌, ◌>>◌, call, open_file, fstat, ftruncate, sync_file, pread_exact,
  pwrite_exact,
}

pub record ListFileStoreOptions : Type 0 where
  pub page_size : ℕ
  pub payload_bytes : ℕ
  pub lists_per_shard : ℕ
  pub direct_io : Bool
  pub sync_writes : Bool

pub record ListFileRecordStore : Type 0 where
  pub root : ℕ
  pub nlist : ℕ
  pub options : ListFileStoreOptions
  pub open options use *
  pub record_stride : ℕ
  pub records_per_page : ℕ

-- The constructor, up to the directories. Roots are named by numbers, and 0 is the empty path.
unfoldable pub new_store :
    Bool → Bool → ℕ → ℕ → ListFileStoreOptions → Bool → Bool → Result ListFileRecordStore
new_store little_endian linux_aio root nlist options create is_directory =
    let stride = (4 + options.payload_bytes) % 2 ^ 64 in
    let per_page = if stride == 0 then 0 else options.page_size / stride in
    Prelude.◌>>◌
      (throw_if
        (root == 0
          || nlist == 0
          || options.payload_bytes == 0
          || options.lists_per_shard == 0
          || not (is_power_of_two options.page_size)
          || ltb options.page_size 8
          || ltb options.page_size stride
          || per_page == 0
          || not little_endian)
        invalid_argument)
      (Prelude.◌>>◌ (throw_if (options.direct_io && not linux_aio) invalid_argument) (
        Prelude.◌>>◌ (throw_if (not create && not is_directory) invalid_argument) (
          ok (record {
            root = root;
            nlist = nlist;
            options = options;
            record_stride = stride;
            records_per_page = per_page;
          }))))

-- The shard and the list that the path of a list's file spells out in decimal.
unfoldable pub list_path : ListFileRecordStore → ℕ → Result (ℕ × ℕ)
list_path store list_no =
    Prelude.◌>>◌ (throw_if (leb store.nlist list_no) out_of_range)
      (ok (list_no / (store.lists_per_shard % 2 ^ 32), list_no))

-- The bytes of a uint32_t, lowest first.
unfoldable pub u32_byte : ℕ → ℕ → ℕ
u32_byte value i =
    if i == 0
    then value % 256
    else if i == 1
    then value / 256 % 256
    else if i == 2
    then value / 65536 % 256
    else value / 16777216 % 256

unfoldable pub load_u32 : (ℕ → ℕ) → ℕ
load_u32 bytes = bytes 0 + 256 * bytes 1 + 65536 * bytes 2 + 16777216 * bytes 3

-- `new AlignedBuffer(alignment, bytes)`; its memory is zero here, and is never read before a write.
unfoldable pub aligned_buffer : ℕ → ℕ → M (ℕ → ℕ)
aligned_buffer alignment bytes = do
  lift
      (throw_if (not (is_power_of_two alignment) || ltb alignment 8 || bytes == 0) invalid_argument)
  call
  pure (λ _. 0)

-- The two copies of one row into its page.
unfoldable pub store_record : ListFileRecordStore → (ℕ → ℕ) → ℕ → ℕ → (ℕ → ℕ) → ℕ → ℕ → ℕ
store_record store bytes in_page id payloads from =
    copy (copy bytes in_page (u32_byte id) 0 4) (in_page + 4) payloads from store.payload_bytes

-- The inner loop of an append, over the rows of one page.
unfoldable pub fill_rows :
    ListFileRecordStore → ℕ → Pointer ℕ → Pointer ℕ → ℕ → ℕ → ℕ → ℕ → (ℕ → ℕ) → ℕ → ℕ
fill_rows store old_size ids payloads payload_stride page_first begin rows page =
    iterate rows
      (λ k bytes.
        let row = begin + k in
        let input = row - old_size in
        store_record store bytes ((row - page_first) * store.record_stride) (ids.cells input)
          payloads.cells (input * payload_stride))
      page

-- One page of an append.
unfoldable pub append_page :
    ListFileRecordStore → ℕ → ℕ → Pointer ℕ → Pointer ℕ → ℕ → ℕ → (ℕ → ℕ) → M (ℕ → ℕ)
append_page store old_size new_size ids payloads payload_stride page_id buffer = do
  page ←
      if ltb page_id (page_count old_size store.records_per_page)
      then (lift (page_offset page_id store.page_size) >>= λ offset.
          pread_exact buffer store.page_size offset)
      else pure (fill buffer 0 store.page_size 0)
  let page_first = page_id * store.records_per_page
  let begin = max old_size page_first
  let end = min new_size (page_first + store.records_per_page)
  let bytes =
      fill_rows store old_size ids payloads payload_stride page_first begin (end - begin) page
  offset ← lift (page_offset page_id store.page_size)
  pwrite_exact bytes store.page_size offset
  pure bytes

-- The loop over the pages, `pages` of them from `page_id` on.
unfoldable pub append_pages :
    ListFileRecordStore → ℕ → ℕ → Pointer ℕ → Pointer ℕ → ℕ → ℕ → ℕ → (ℕ → ℕ) → M (Unit {0})
append_pages store old_size new_size ids payloads payload_stride zero page_id buffer = pure tt
append_pages store old_size new_size ids payloads payload_stride (suc pages) page_id buffer =
    append_page store old_size new_size ids payloads payload_stride page_id buffer >>= λ bytes.
    append_pages store old_size new_size ids payloads payload_stride pages (page_id + 1) bytes

-- `append_records` from the open file on.
unfoldable pub append_to_file :
    ListFileRecordStore → ℕ → Pointer ℕ → Pointer ℕ → ℕ → ℕ → M (Unit {0})
append_to_file store old_size ids payloads payload_stride count = do
  size ← fstat
  let old_pages = page_count old_size store.records_per_page
  let expected_bytes = old_pages * store.page_size % 2 ^ 64
  lift (throw_if (ltb size expected_bytes || not (size % store.page_size == 0)) runtime_error)
  if ltb expected_bytes size then ftruncate expected_bytes else pure tt
  let new_size = old_size + count
  let new_pages = page_count new_size store.records_per_page
  buffer ← aligned_buffer store.page_size store.page_size
  let first_page = old_size / store.records_per_page
  append_pages store old_size new_size ids payloads payload_stride (new_pages - first_page)
      first_page buffer
  let final_bytes = new_pages * store.page_size % 2 ^ 64
  lift (throw_if (ltb off_max final_bytes) system_error)
  ftruncate final_bytes
  sync_file store.sync_writes

unfoldable pub append_records :
    ListFileRecordStore → ℕ → ℕ → Pointer ℕ → Pointer ℕ → ℕ → ℕ → M (Unit {0})
append_records store list_no old_size ids payloads payload_stride count =
    if count == 0 then pure tt else do
      lift (
          throw_if
            (is_null ids
              || is_null payloads
              || ltb payload_stride store.payload_bytes
              || ltb (uint32_max - old_size) count)
            invalid_argument)
      path ← lift (list_path store list_no)
      open_file true
      append_to_file store old_size ids payloads payload_stride count
