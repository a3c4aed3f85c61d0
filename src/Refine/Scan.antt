-- ===== src/Refine/Scan.antt =====
-- The reads of a refinement: `process_plan`, `descriptor_for`, `open_files`, `close_files` and
-- `refine_blocking` of adapters/list_file_aio_refiner.cpp. `distance` is the caller's function with the
-- query in it. The statistics are left out. `std::lower_bound` finds the first file whose list is not
-- below the wanted one.
pub mod Processed
pub mod Calls
pub mod Blocking
use recast.Prelude.{
  ℕ, zero, suc, ◌+◌, ◌-◌, ◌*◌, ◌≡◌, Bool, true, false, not, ◌||◌, List, [], ◌∷◌, ◌++◌, Option, none,
  some, Result, ok, err, logic_error, runtime_error, invalid_argument, throw_if, ltb, leb, ◌==◌,
  if◌then◌else◌,
}
use recast.Prelude
use recast.Checked.{is_power_of_two}
use recast.Records.{ListFileRecordStore, load_u32, list_path}
use recast.Refine.{CandidateInRequest, ReadPlan}
use recast.Refine.TopK.{Neighbor, insert_exact}
use recast.Refine.Kernel.{
  Kernel, K, pure, lift, ◌>>=◌, ◌>>◌, try_catch, call, open_list, close_fd, pread,
}

-- `fd` is `none` for -1.
pub record OpenFile : Type 0 where
  pub list_no : ℕ
  pub fd : Option ℕ

-- `new AlignedBuffer(alignment, bytes)`; its memory is zero here, and is never read before a write.
unfoldable pub new_buffer : ℕ → ℕ → K (ℕ → ℕ)
new_buffer alignment bytes =
    lift
      (throw_if (not (is_power_of_two alignment) || ltb alignment 8 || bytes == 0) invalid_argument)
    >> (call >> pure (λ _. 0))

unfoldable pub descriptor_for : List OpenFile → ℕ → Result (Option ℕ)
descriptor_for [] list_no = err logic_error
descriptor_for (file ∷ files) list_no =
    let rest = descriptor_for files list_no in
    if ltb file.list_no list_no
    then rest
    else Prelude.◌>>◌ (throw_if (not (file.list_no == list_no)) logic_error) (ok file.fd)

-- The close of one descriptor, unless it was closed before.
unfoldable pub close_one : Option ℕ → K (Unit {0})
close_one none = pure tt
close_one (some fd) = close_fd fd

abbrev pub close_file : OpenFile → K (Unit {0})
close_file file = close_one file.fd

-- The cleanup, which takes no notice of an error.
unfoldable pub close_all : List OpenFile → Kernel → Kernel
close_all [] k = k
close_all (file ∷ files) k = close_all files (close_file file k).1

-- `fd = -1` in all of them.
unfoldable pub closed : List OpenFile → List OpenFile
closed [] = []
closed (file ∷ files) = record file { fd = none } ∷ closed files

-- All files are closed, and the first error is thrown then.
unfoldable pub close_files : List OpenFile → K (Unit {0})
close_files [] k = (ok tt, k)
close_files (file ∷ files) k =
    let (r, k) = close_file file k in
    let (rest, k) = close_files files k in (Prelude.◌>>◌ r rest, k)

-- The file of one list.
unfoldable pub open_path : ListFileRecordStore → ℕ → K ℕ
open_path store list_no = lift (list_path store list_no) >>= λ path. open_list list_no

-- The loop over the lists, with the files that are open already.
unfoldable pub open_each : ListFileRecordStore → List ℕ → List OpenFile → K (List OpenFile)
open_each store [] files k = (ok files, k)
open_each store (list_no ∷ lists) files k =
    try_catch (open_path store list_no k)
      (λ fd. open_each store lists (files ++ (record { list_no = list_no; fd = some fd } ∷ [])))
      (λ e k. (err e, close_all files k))

unfoldable pub open_files : ListFileRecordStore → List ℕ → K (List OpenFile)
open_files store lists = open_each store lists []

module _ (store : ListFileRecordStore) (topk : ℕ) (distance : (ℕ → ℕ) → ℕ) where
  unfoldable pub process_items :
      (ℕ → ℕ) → ℕ → List CandidateInRequest → List Neighbor → Result (List Neighbor)
  process_items bytes request_bytes [] heap = ok heap
  process_items bytes request_bytes (item ∷ items) heap =
      Prelude.◌>>◌
        (throw_if
          (ltb request_bytes item.record_in_buffer
            || ltb (request_bytes - item.record_in_buffer) store.record_stride
            || ltb store.record_stride (4 + store.payload_bytes))
          logic_error)
        (Prelude.◌>>=◌
          (insert_exact heap topk (load_u32 (λ i. bytes (item.record_in_buffer + i)))
            (distance (λ i. bytes (item.record_in_buffer + 4 + i))))
          (process_items bytes request_bytes items))

  unfoldable pub process_plan : (ℕ → ℕ) → ReadPlan → List Neighbor → Result (List Neighbor)
  process_plan bytes plan = process_items bytes plan.request_bytes plan.candidates

  -- One read of the blocking loop, into a buffer that is large enough.
  unfoldable pub read_plan :
      List OpenFile → ReadPlan → (ℕ → ℕ) → List Neighbor → K ((ℕ → ℕ) × List Neighbor)
  read_plan files plan buffer heap = lift (descriptor_for files plan.list_no) >>= λ fd.
      pread fd plan.request_bytes plan.aligned_offset buffer >>= λ (result, buffer).
      lift (throw_if (not (result == plan.request_bytes)) runtime_error)
      >> (lift (process_plan buffer plan heap) >>= λ heap. pure (buffer, heap))

  -- The buffer of the loop, made anew when a plan needs more.
  unfoldable pub grow_buffer : ℕ → ℕ → (ℕ → ℕ) → K (ℕ × (ℕ → ℕ))
  grow_buffer capacity bytes buffer =
      if ltb capacity bytes
      then (new_buffer store.page_size bytes >>= λ buffer. pure (bytes, buffer))
      else pure (capacity, buffer)

  unfoldable pub read_plans :
      List OpenFile → List ReadPlan → ℕ → (ℕ → ℕ) → List Neighbor → K (List Neighbor)
  read_plans files [] capacity buffer heap = pure heap
  read_plans files (plan ∷ plans) capacity buffer heap =
      grow_buffer capacity plan.request_bytes buffer >>= λ (capacity, buffer).
      read_plan files plan buffer heap >>= λ (buffer, heap).
      read_plans files plans capacity buffer heap

  unfoldable pub refine_blocking : List OpenFile → List ReadPlan → List Neighbor → K (List Neighbor)
  refine_blocking files plans heap = new_buffer store.page_size store.page_size >>= λ buffer.
      read_plans files plans store.page_size buffer heap
