-- ===== src/Selection.antt =====
-- The interval selection: the rank threshold of src/interval_selection_internal.h and the collector
-- `FusedIntervalAccumulator` of src/fastscan.cpp, on its portable path. A float is its bits.
-- `std::sort` and `std::nth_element` are an insertion sort, and the priority queue is a list with its
-- top first.
pub mod Collector
pub mod Sorting
pub mod Keys
pub mod Counting
pub mod Threshold
pub mod Planes
pub mod Reservoir
pub mod Uppers
pub mod Scanned
pub mod Finish
pub mod Whole
use recast.Prelude.{
  ℕ, zero, suc, ◌+◌, ◌-◌, ◌*◌, ◌/◌, ◌%◌, ◌^◌, Bool, true, false, not, ◌&&◌, ◌||◌, Option, none,
  some, List, [], ◌∷◌, ◌++◌, map, Result, ok, invalid_argument, logic_error, throw_if, ◌>>=◌, ◌>>◌,
  ltb, leb, ◌==◌, if◌then◌else◌, length, get_or, numbers, min, Pointer, is_null, store, iterate,
  try_iterate,
}
use recast.Floats.{
  less, equal, is_finite, is_nan, is_infinite, magnitude, infinity, negative_infinity,
}

pub record DistanceEstimate : Type 0 where
  pub id : ℕ
  pub estimated_distance : ℕ
  pub uncertainty : ℕ

pub record FuzzyRankThreshold : Type 0 where
  pub estimate : ℕ
  pub id : ℕ
  pub output_size : ℕ
  pub equal_to_keep : ℕ

unfoldable pub insert_by {ℓ} : {A : Type ℓ} → (A → A → Bool) → A → List A → List A
insert_by before x [] = x ∷ []
insert_by before x (y ∷ ys) = if before x y then x ∷ y ∷ ys else y ∷ insert_by before x ys

-- `std::sort` by an order.
unfoldable pub sort_by {ℓ} : {A : Type ℓ} → (A → A → Bool) → List A → List A
sort_by before [] = []
sort_by before (x ∷ xs) = insert_by before x (sort_by before xs)

-- What `std::nth_element` leaves at its place.
unfoldable pub nth_element : (ℕ → ℕ → Bool) → List ℕ → ℕ → ℕ
nth_element before xs n = get_or (sort_by before xs) n 0

unfoldable pub fuzzy_median3 : ℕ → ℕ → ℕ → ℕ
fuzzy_median3 a b c =
    let lo = if less b a then b else a in
    let hi = if less b a then a else b in if less hi c then hi else if less lo c then c else lo

-- The loop of the sample, from index `i` on, until three values are found.
unfoldable pub gather_sample : (ℕ → ℕ) → ℕ → ℕ → ℕ → ℕ → ℕ → List ℕ → List ℕ
gather_sample values count lower upper i zero sample = sample
gather_sample values count lower upper i (suc n) sample =
    let value = values (i * 6700417 % 2 ^ 64 % count) in
    let next = if less lower value && less value upper then sample ++ (value ∷ []) else sample in
    let rest = gather_sample values count lower upper (i + 1) n next in
    if length next == 3 then next else rest

unfoldable pub sample_fuzzy_threshold : (ℕ → ℕ) → ℕ → ℕ → ℕ → ℕ
sample_fuzzy_threshold values count lower upper =
    let sample = gather_sample values count lower upper 0 count [] in
    if length sample == 3
    then fuzzy_median3 (get_or sample 0 0) (get_or sample 1 0) (get_or sample 2 0)
    else if length sample == 0
    then lower
    else get_or sample 0 0

abbrev pub to_number : Bool → ℕ
to_number true = 1
to_number false = 0

-- `less` and `equal`.
unfoldable pub count_fuzzy_threshold : (ℕ → ℕ) → ℕ → ℕ → ℕ × ℕ
count_fuzzy_threshold values count threshold =
    iterate count
      (λ i (s : ℕ × ℕ).
        (s.0 + to_number (less (values i) threshold), s.1 + to_number (equal (values i) threshold)))
      (0, 0)

-- The local variables of the search: the threshold, `less`, `equal` and `output`.
pub record RankSearch : Type 0 where
  pub threshold : ℕ
  pub below : ℕ
  pub ties : ℕ
  pub output : ℕ

-- The rounds of the search, while there are any; without a result it stops.
unfoldable pub search_threshold : (ℕ → ℕ) → ℕ → ℕ → ℕ → ℕ → ℕ → ℕ → ℕ → Option RankSearch
search_threshold values count q_min q_max zero lower upper threshold = none
search_threshold values count q_min q_max (suc rounds) lower upper threshold =
    let counts = count_fuzzy_threshold values count threshold in
    let below = counts.0 in
    let ties = counts.1 in
    let next_lower = if leb below q_min then threshold else lower in
    let next_upper = if leb below q_min then upper else threshold in
    let next = sample_fuzzy_threshold values count next_lower next_upper in
    let rest = search_threshold values count q_min q_max rounds next_lower next_upper next in
    if leb below q_min && leb q_min (below + ties)
    then some (record { threshold = threshold; below = below; ties = ties; output = q_min })
    else if not (leb below q_min) && leb below q_max
    then some (record { threshold = threshold; below = below; ties = ties; output = below })
    else if equal next next_lower
    then none
    else rest

-- The exact search that follows when the rounds found nothing.
unfoldable pub partition_values : (ℕ → ℕ) → ℕ → ℕ → RankSearch
partition_values values count q_min =
    let threshold = nth_element less (map values (numbers 0 count)) (q_min - 1) in
    let counts = count_fuzzy_threshold values count threshold in
    record { threshold = threshold; below = counts.0; ties = counts.1; output = q_min }

-- The IDs of the rows at the threshold.
unfoldable pub tied_ids : (ℕ → ℕ) → (ℕ → ℕ) → ℕ → ℕ → List ℕ
tied_ids values ids count threshold =
    iterate count
      (λ i scratch. if equal (values i) threshold then scratch ++ (ids i ∷ []) else scratch) []

unfoldable pub find_fuzzy_rank_threshold :
    Pointer ℕ → Pointer ℕ → ℕ → ℕ → ℕ → ℕ → ℕ → Result FuzzyRankThreshold
find_fuzzy_rank_threshold estimates ids count q_min q_max value_scratch id_scratch = do
  throw_if
      (is_null estimates
        || is_null ids
        || value_scratch == 0
        || id_scratch == 0
        || q_min == 0
        || ltb q_max q_min
        || leb count q_max)
      invalid_argument
  let values = estimates.cells
  let first = fuzzy_median3 (values 0) (values (count / 2)) (values (count - 1))
  let tried =
      if leb 3 count
      then search_threshold values count q_min q_max 200 negative_infinity infinity first
      else none
  let found : RankSearch = elim tried [ some f ↦ f | none ↦ partition_values values count q_min ]
  throw_if (ltb found.output found.below || ltb found.ties (found.output - found.below)) logic_error
  let equal_to_keep = found.output - found.below
  let threshold_id =
      if equal_to_keep == 0
      then 0
      else nth_element ltb (tied_ids values ids.cells count found.threshold) (equal_to_keep - 1)
  ok (record {
    estimate = found.threshold;
    id = threshold_id;
    output_size = found.output;
    equal_to_keep = equal_to_keep;
  })
