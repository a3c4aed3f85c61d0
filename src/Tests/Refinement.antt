-- ===== src/Tests/Refinement.antt =====
-- Refinements of a few candidates, with reads that complete out of order.
use native.Mathlib.Nat.{mod-lt}
use recast.Prelude.{
  ℕ, ◌+◌, ◌%◌, ◌≤◌, ◌<◌, ◌≡◌, refl, ◌⊎◌, true, false, List, [], ◌∷◌, none, ok, err, Error, map, All,
  arith,
}
use recast.Checked.{uint32_max}
use recast.Refine.{ListCandidate, ReadPlan, build_read_plans}
use recast.Refine.Plans.{IsReadPlans, TooFar, build_read_plans-cases}
use recast.Refine.TopK.{Neighbor}
use recast.Refine.TopK.Heap.{key}
use recast.Refine.TopK.Selected.{IsTopK}
use recast.Refine.Kernel.{Kernel, Completion, all_bytes, succeeded, completed, Response}
use recast.Refine.Scan.Processed.{neighbor_of}
use recast.Refine.Refiner.{ListFileRefineOptions, new_refiner, refine}
use recast.Refine.Refiner.Whole.{Unchanged, Trouble, refine-cases, refine-agree}
use recast.Refine.Refiner.{
  check_lists, refine_batches, abandon, last_list, refine_batch, scan, split_plans,
}
use recast.Refine.{
  add_locations, sort_locations, make_locations, insert_location, location_before, location_of,
  add_location, start_plan, add_page, add_candidate, distinct_lists, in_order, lists_after,
}
use recast.Checked.{checked_multiply, is_power_of_two}
use recast.Refine.Kernel.{
  acquire_context, call, reset_context, close_fd, complete, fresh_fd, io_getevents, io_submit,
  list_of, open_list, pick, pread, remove_fd, skip_interrupted,
}
use recast.Floats.{equal, is_finite, less}
use recast.Records.{list_path, load_u32}
use recast.Refine.Aio.{
  aio_loop, ensure_capacity, fill_slots, make_slots, next_request, prepare_aio, process_event,
  process_events, refine_aio, submit_requests,
}
use recast.Refine.Scan.{
  close_all, close_files, close_one, closed, descriptor_for, grow_buffer, new_buffer, open_each,
  open_files, open_path, process_items, process_plan, read_plan, read_plans, refine_blocking,
}
use recast.Refine.TopK.{exact_pair_worse_first, finish_topk, insert_exact, push}
use recast.Tests.Files.{records, records-IsValid}

-- Two rows to a page: lists 2 and 5, with adjacent pages in list 5.
abbrev candidates : List ListCandidate
candidates =
    record { list_no = 5; offset = 3 }
    ∷ record { list_no = 2; offset = 1 }
    ∷ record { list_no = 5; offset = 0 }
    ∷ record { list_no = 5; offset = 9 }
    ∷ []

abbrev pub small : All (λ (c : ListCandidate). c.offset ≤ uint32_max) candidates
small = (omega arith, (omega arith, (omega arith, (omega arith, tt))))

build_read_plans-cases_example :
    ((plans : List ReadPlan) × (build_read_plans records candidates ≡ ok plans)
      × IsReadPlans records candidates plans)
    ⊎ ((build_read_plans records candidates ≡ err Error.overflow_error) × TooFar records candidates)
build_read_plans-cases_example = build_read_plans-cases records candidates records-IsValid small

abbrev completion : ℕ → Completion
completion choice = record { choice = choice; lost = false; amount = all_bytes; res2 = 0 }

-- The second of the two requests in flight completes first.
abbrev kernel : List Response → Kernel
kernel responses = record {
  lists = λ l. record { size = 80; bytes = λ i. (i + l) % 250 };
  descriptors = (7, 3) ∷ [];
  context = none;
  inflight = [];
  responses = responses;
}

abbrev responses : List Response
responses =
    succeeded
    ∷ succeeded
    ∷ succeeded
    ∷ succeeded
    ∷ succeeded
    ∷ succeeded
    ∷ completed (completion 1 ∷ [])
    ∷ []

abbrev distance : (ℕ → ℕ) → ℕ
distance payload = payload 0

abbrev asynchronous : ListFileRefineOptions
asynchronous = record { queue_depth = 2; max_open_files = 4 }

abbrev blocking : ListFileRefineOptions
blocking = record { queue_depth = 1; max_open_files = 1 }

abbrev nearest : List Neighbor
nearest = record { id = 134678021; distance = 9 } ∷ record { id = 218893066; distance = 14 } ∷ []

asynchronous_run :
    (refine records asynchronous 2 distance true 4 candidates true (kernel responses)).0
    ≡ ok nearest
unfolding check_lists add_locations sort_locations make_locations insert_location location_before
    location_of add_location start_plan checked_multiply add_page add_candidate acquire_context call
    reset_context refine_batches distinct_lists is_power_of_two equal is_finite less list_path
    load_u32 aio_loop ensure_capacity fill_slots make_slots next_request prepare_aio process_event
    process_events refine_aio submit_requests close_fd complete fresh_fd io_getevents io_submit
    list_of open_list pick pread remove_fd skip_interrupted abandon last_list refine_batch scan
    split_plans close_all close_files close_one closed descriptor_for grow_buffer new_buffer
    open_each open_files open_path process_items process_plan read_plan read_plans refine_blocking
    exact_pair_worse_first finish_topk insert_exact push in_order lists_after build_read_plans
    refine
asynchronous_run = refl

blocking_run :
    (refine records blocking 2 distance true 4 candidates true (kernel [])).0 ≡ ok nearest
unfolding check_lists add_locations sort_locations make_locations insert_location location_before
    location_of add_location start_plan checked_multiply add_page add_candidate acquire_context call
    reset_context refine_batches distinct_lists is_power_of_two equal is_finite less list_path
    load_u32 aio_loop ensure_capacity fill_slots make_slots next_request prepare_aio process_event
    process_events refine_aio submit_requests close_fd complete fresh_fd io_getevents io_submit
    list_of open_list pick pread remove_fd skip_interrupted abandon last_list refine_batch scan
    split_plans close_all close_files close_one closed descriptor_for grow_buffer new_buffer
    open_each open_files open_path process_items process_plan read_plan read_plans refine_blocking
    exact_pair_worse_first finish_topk insert_exact push in_order lists_after build_read_plans
    refine
blocking_run = refl

bytes_fit : (rs : List Response) (l i : ℕ) → ((kernel rs).lists l).bytes i < 256
bytes_fit rs l i =
    let positive : 0 < 250 = omega arith in
    let below : (i + l) % 250 < 250 = mod-lt (i + l) positive in omega (arith, below)

distance_local :
    (p q : ℕ → ℕ) → ((i : ℕ) → i < records.payload_bytes → p i ≡ q i) → distance p ≡ distance q
distance_local p q h = h 0 (omega arith)

asynchronous_accepted : new_refiner true asynchronous ≡ ok asynchronous
unfolding new_refiner
asynchronous_accepted = refl

blocking_accepted : new_refiner false blocking ≡ ok blocking
unfolding new_refiner
blocking_accepted = refl

refine-cases_example :
    Unchanged
      (kernel responses)
      (refine records asynchronous 2 distance true 4 candidates true (kernel responses)).1
    × (((output : List Neighbor) × ((refine records asynchronous 2 distance true 4 candidates true
              (kernel responses)).0
            ≡ ok output)
          × IsTopK 2
              (map (neighbor_of records (kernel responses).lists distance) candidates)
              output)
        ⊎ ((e : Error) × ((refine records asynchronous 2 distance true 4 candidates true
                (kernel responses)).0
              ≡ err e)
            × Trouble records 2 4 distance true true candidates (kernel responses)))
refine-cases_example =
    refine-cases records true asynchronous 2 4 distance true true candidates (kernel responses)
      records-IsValid asynchronous_accepted distance_local (bytes_fit responses) refl small

refine-agree_example : map key nearest ≡ map key nearest
refine-agree_example =
    refine-agree records true false asynchronous blocking 2 4 distance candidates (kernel responses)
      (kernel []) nearest nearest records-IsValid asynchronous_accepted blocking_accepted
      distance_local (bytes_fit responses) refl refl refl small asynchronous_run blocking_run
