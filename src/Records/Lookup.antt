-- ===== src/Records/Lookup.antt =====
-- The reads of a list file: `read_logical_ids` and `validate_list_file` of
-- adapters/list_file_record_store.cpp. `std::sort` of the requests is an insertion sort; requests
-- that its order does not separate read the same row, for two places of the result. A failing `fstat`
-- is a system_error here as elsewhere; both names stand for std::runtime_error.
pub mod Requests
pub mod Found
pub mod Ids
pub mod Roundtrip
pub mod Validate
use recast.Prelude.{
  ℕ, zero, suc, ◌+◌, ◌*◌, ◌/◌, ◌%◌, ◌^◌, Bool, true, false, not, ◌&&◌, ◌||◌, List, [], ◌∷◌, Option,
  none, some, Result, ok, err, out_of_range, runtime_error, system_error, throw_if, ltb, leb, ◌==◌,
  if◌then◌else◌, store, length,
}
use recast.Prelude
use recast.Checked.{page_count, page_offset}
use recast.Storage.{M, pure, lift, ◌>>=◌, ◌>>◌, call, open_file, fstat, pread_exact}
use recast.Records.{ListFileRecordStore, list_path, load_u32, aligned_buffer}

pub record Request : Type 0 where
  pub page : ℕ
  pub offset : ℕ
  pub input : ℕ

-- The requests for the offsets from number `input` on.
unfoldable pub make_requests : ListFileRecordStore → ℕ → List ℕ → ℕ → Result (List Request)
make_requests records logical_size [] input = ok []
make_requests records logical_size (offset ∷ offsets) input =
    Prelude.◌>>◌ (throw_if (leb logical_size offset) out_of_range) (
      Prelude.◌>>=◌ (make_requests records logical_size offsets (input + 1)) λ requests. ok (
        record {
          page = offset / (records.records_per_page % 2 ^ 32);
          offset = offset;
          input = input;
        }
        ∷ requests))

unfoldable pub request_before : Request → Request → Bool
request_before lhs rhs =
    if not (lhs.page == rhs.page) then ltb lhs.page rhs.page else ltb lhs.offset rhs.offset

unfoldable pub insert_request : Request → List Request → List Request
insert_request r [] = r ∷ []
insert_request r (s ∷ requests) =
    if request_before s r then s ∷ insert_request r requests else r ∷ s ∷ requests

unfoldable pub sort_requests : List Request → List Request
sort_requests [] = []
sort_requests (r ∷ requests) = insert_request r (sort_requests requests)

-- The copy of one ID out of the page.
unfoldable pub take_id : ListFileRecordStore → (ℕ → ℕ) → Request → (ℕ → ℕ) → ℕ → ℕ
take_id records bytes r result =
    let lane = r.offset % records.records_per_page in
    store result r.input (load_u32 (λ i. bytes (lane * records.record_stride + i)))

abbrev pub is_loaded : Option ℕ → ℕ → Bool
is_loaded none page = false
is_loaded (some loaded) page = page == loaded

-- The two loops: the inner one goes on while the request is for the page that was read last, which
-- is `loaded`.
unfoldable pub read_requests :
    ListFileRecordStore → List Request → Option ℕ → (ℕ → ℕ) → (ℕ → ℕ) → M (ℕ → ℕ)
read_requests records [] loaded bytes result = pure result
read_requests records (r ∷ requests) loaded bytes result = elim (is_loaded loaded r.page) [
  | true ↦ read_requests records requests loaded bytes (take_id records bytes r result)
  | false ↦ lift (page_offset r.page records.page_size) >>= λ offset.
      pread_exact bytes records.page_size offset >>= λ bytes.
      read_requests records requests (some r.page) bytes (take_id records bytes r result)
]

unfoldable pub read_logical_ids : ListFileRecordStore → ℕ → ℕ → List ℕ → M (ℕ → ℕ)
read_logical_ids records list_no logical_size [] = pure (λ _. 0)
read_logical_ids records list_no logical_size (first ∷ more) = do
  requests ← lift (make_requests records logical_size (first ∷ more) 0)
  path ← lift (list_path records list_no)
  open_file false
  size ← fstat
  lift (
      throw_if
        (not
          (size == page_count logical_size records.records_per_page * records.page_size % 2 ^ 64))
        runtime_error)
  page ← aligned_buffer records.page_size records.page_size
  read_requests records (sort_requests requests) none page (λ _. 0)

-- `stat`, whose failure with ENOENT is the missing file.
unfoldable pub validate_list_file : ListFileRecordStore → ℕ → ℕ → M (Unit {0})
validate_list_file records list_no logical_size = do
  path ← lift (list_path records list_no)
  call
  let expected = page_count logical_size records.records_per_page * records.page_size % 2 ^ 64
  λ w. elim w.file [
    | none ↦ (throw_if (not (logical_size == 0)) system_error, w)
    | some file ↦ (throw_if (not (file.size == expected)) runtime_error, w)
  ]
