-- ===== src/Refine.antt =====
-- The exact refinement of adapters/list_file_aio_refiner.cpp. This module has the read plans
-- (`build_read_plans`, `distinct_lists`): one read for each run of adjacent pages of a list. `std::sort`
-- of the locations is an insertion sort; no two locations have one candidate index, so that the
-- order separates them. The list `plans` of a builder has the last plan first.
pub mod Places
pub mod TopK
pub mod Kernel
pub mod Scan
pub mod Aio
pub mod Refiner
pub mod Builder
pub mod Plans
use recast.Prelude.{
  ℕ, zero, suc, ◌+◌, ◌-◌, ◌*◌, ◌/◌, ◌%◌, ◌^◌, Bool, true, false, not, ◌&&◌, List, [], ◌∷◌, ◌++◌,
  Result, ok, err, overflow_error, logic_error, throw_if, ◌>>=◌, ◌>>◌, ltb, ◌==◌, if◌then◌else◌,
}
use recast.Checked.{size_max, uint32_max, off_max, checked_multiply}
use recast.Records.{ListFileRecordStore}

-- The two estimates of a candidate are not read here.
pub record ListCandidate : Type 0 where
  pub list_no : ℕ
  pub offset : ℕ

pub record CandidateInRequest : Type 0 where
  pub candidate_index : ℕ
  pub record_in_buffer : ℕ

pub record ReadPlan : Type 0 where
  pub list_no : ℕ
  pub aligned_offset : ℕ
  pub request_bytes : ℕ
  pub page_count : ℕ
  pub candidates : List CandidateInRequest

pub record Location : Type 0 where
  pub list_no : ℕ
  pub page_no : ℕ
  pub candidate_index : ℕ
  pub record_in_page : ℕ

-- The place of candidate number `index`.
unfoldable pub location_of : ListFileRecordStore → ListCandidate → ℕ → Location
location_of store candidate index = record {
  list_no = candidate.list_no;
  page_no = candidate.offset / store.records_per_page;
  candidate_index = index;
  record_in_page = candidate.offset % store.records_per_page * store.record_stride;
}

unfoldable pub make_locations : ListFileRecordStore → List ListCandidate → ℕ → List Location
make_locations store [] index = []
make_locations store (candidate ∷ candidates) index =
    location_of store candidate index ∷ make_locations store candidates (index + 1)

unfoldable pub location_before : Location → Location → Bool
location_before lhs rhs =
    if not (lhs.list_no == rhs.list_no)
    then ltb lhs.list_no rhs.list_no
    else if not (lhs.page_no == rhs.page_no)
    then ltb lhs.page_no rhs.page_no
    else ltb lhs.candidate_index rhs.candidate_index

unfoldable pub insert_location : Location → List Location → List Location
insert_location l [] = l ∷ []
insert_location l (m ∷ locations) =
    if location_before m l then m ∷ insert_location l locations else l ∷ m ∷ locations

unfoldable pub sort_locations : List Location → List Location
sort_locations [] = []
sort_locations (l ∷ locations) = insert_location l (sort_locations locations)

pub record PlanBuilder : Type 0 where
  pub previous_list : ℕ
  pub previous_page : ℕ
  pub plans : List ReadPlan

-- The variables before the loop.
abbrev pub start_builder : PlanBuilder
start_builder = record { previous_list = uint32_max; previous_page = size_max; plans = [] }

-- `ReadPlan{list_no, byte_offset, 0, 0, {}}`.
abbrev pub new_plan : ℕ → ℕ → ReadPlan
new_plan list_no byte_offset = record {
  list_no = list_no;
  aligned_offset = byte_offset;
  request_bytes = 0;
  page_count = 0;
  candidates = [];
}

-- `plans.push_back` for a page that does not follow the last one.
unfoldable pub start_plan : ListFileRecordStore → Location → List ReadPlan → Result (List ReadPlan)
start_plan store location plans =
    checked_multiply location.page_no store.page_size >>= λ byte_offset.
    throw_if (ltb off_max byte_offset) overflow_error
    >> ok (new_plan location.list_no byte_offset ∷ plans)

-- One more page for `plans.back()`. There is none in an empty vector, and the source does not ask.
unfoldable pub add_page : ListFileRecordStore → List ReadPlan → Result (List ReadPlan)
add_page store [] = err logic_error
add_page store (plan ∷ plans) = checked_multiply (plan.page_count + 1) store.page_size >>= λ bytes.
    ok (record plan { page_count = plan.page_count + 1; request_bytes = bytes } ∷ plans)

-- The location's candidate at the end of those of a plan.
abbrev pub with_candidate : ListFileRecordStore → Location → ReadPlan → ReadPlan
with_candidate store location plan =
    let first_page = plan.aligned_offset / store.page_size in
    let page_in_request = location.page_no - first_page in
    record plan {
      candidates =
          plan.candidates
          ++ (record {
            candidate_index = location.candidate_index;
            record_in_buffer =
                (page_in_request * store.page_size + location.record_in_page) % 2 ^ 64;
          }
              ∷ []);
    }

unfoldable pub add_candidate :
    ListFileRecordStore → Location → List ReadPlan → Result (List ReadPlan)
add_candidate store location [] = err logic_error
add_candidate store location (plan ∷ plans) = ok (with_candidate store location plan ∷ plans)

abbrev pub is_same_page : PlanBuilder → Location → Bool
is_same_page builder location =
    location.list_no == builder.previous_list && location.page_no == builder.previous_page

abbrev pub is_adjacent : PlanBuilder → Location → Bool
is_adjacent builder location =
    location.list_no == builder.previous_list
    && (not (builder.previous_page == size_max) && location.page_no == builder.previous_page + 1)

-- The body of the loop over the locations.
unfoldable pub add_location : ListFileRecordStore → Location → PlanBuilder → Result PlanBuilder
add_location store location builder =
    (if is_same_page builder location
      then ok builder.plans
      else (if is_adjacent builder location
          then ok builder.plans
          else start_plan store location builder.plans)
        >>= add_page store)
    >>= λ plans. add_candidate store location plans >>= λ plans. ok (record {
      previous_list = location.list_no;
      previous_page = location.page_no;
      plans = plans;
    })

unfoldable pub add_locations :
    ListFileRecordStore → List Location → PlanBuilder → Result PlanBuilder
add_locations store [] builder = ok builder
add_locations store (location ∷ locations) builder =
    add_location store location builder >>= add_locations store locations

-- The plans of a builder in the order of the vector.
unfoldable pub in_order : List ReadPlan → List ReadPlan
in_order [] = []
in_order (plan ∷ plans) = in_order plans ++ (plan ∷ [])

unfoldable pub build_read_plans : ListFileRecordStore → List ListCandidate → Result (List ReadPlan)
build_read_plans store candidates =
    add_locations store (sort_locations (make_locations store candidates 0)) start_builder
    >>= λ builder. ok (in_order builder.plans)

-- The lists of the plans from one after `list_no` on.
unfoldable pub lists_after : ℕ → List ReadPlan → List ℕ
lists_after list_no [] = []
lists_after list_no (plan ∷ plans) =
    let rest = lists_after plan.list_no plans in
    if plan.list_no == list_no then rest else plan.list_no ∷ rest

unfoldable pub distinct_lists : List ReadPlan → List ℕ
distinct_lists [] = []
distinct_lists (plan ∷ plans) = plan.list_no ∷ lists_after plan.list_no plans
