-- ===== src/Selection/Collector.antt =====
-- The collector `FusedIntervalAccumulator` of src/fastscan.cpp, without its AVX-512 paths. The arrays of
-- estimates, uncertainties and IDs are functions of the index; growing them is not a step of its own.
use recast.Prelude.{
  ℕ, ◌+◌, ◌-◌, ◌*◌, ◌/◌, ◌%◌, ◌^◌, Bool, true, false, not, ◌&&◌, ◌||◌, List, [], ◌∷◌, map, Result,
  ok, invalid_argument, logic_error, throw_if, ◌>>=◌, ◌>>◌, ltb, leb, ◌==◌, if◌then◌else◌, length,
  get_or, numbers, min, Pointer, is_null, store, iterate, try_iterate,
}
use recast.Checked.{size_max}
use recast.Floats.{less, equal, is_finite, is_nan, is_infinite, infinity, negative_infinity}
use recast.Selection.{DistanceEstimate, find_fuzzy_rank_threshold, nth_element, sort_by}

pub record Planes : Type 0 where
  pub estimates : ℕ → ℕ
  pub uncertainties : ℕ → ℕ
  pub ids : ℕ → ℕ

pub record FusedIntervalAccumulator : Type 0 where
  pub topk : ℕ
  pub z_score : ℕ
  pub max_candidates : ℕ
  pub reservoir_capacity : ℕ
  pub reservoir_size : ℕ
  pub seen : ℕ
  pub smallest_uppers : List ℕ
  pub planes : Planes
  pub admission_threshold_estimate : ℕ
  pub admission_threshold_id : ℕ
  pub has_admission_threshold : Bool

pub record SelectionResult : Type 0 where
  pub candidates : List DistanceEstimate
  pub kth_upper_bound : ℕ
  pub truncated : Bool

-- The row at an index of the three arrays, and a store of one.
abbrev pub row_of : Planes → ℕ → DistanceEstimate
row_of planes i = record {
  id = planes.ids i;
  estimated_distance = planes.estimates i;
  uncertainty = planes.uncertainties i;
}

abbrev pub store_row : Planes → ℕ → DistanceEstimate → Planes
store_row planes i row = record {
  estimates = store planes.estimates i row.estimated_distance;
  uncertainties = store planes.uncertainties i row.uncertainty;
  ids = store planes.ids i row.id;
}

-- Empty vectors, and the initializers of the class.
unfoldable pub new_accumulator : ℕ → ℕ → ℕ → Result FusedIntervalAccumulator
new_accumulator topk z_score max_candidates =
    throw_if
      (topk == 0
        || not (is_finite z_score)
        || less z_score 0
        || ltb 0 max_candidates && ltb max_candidates topk
        || ltb (size_max / 2) max_candidates)
      invalid_argument
    >> ok (record {
      topk = topk;
      z_score = z_score;
      max_candidates = max_candidates;
      reservoir_capacity = if ltb 0 max_candidates then 2 * max_candidates else 0;
      reservoir_size = 0;
      seen = 0;
      smallest_uppers = [];
      planes = record { estimates = λ i. 0; uncertainties = λ i. 0; ids = λ i. 0 };
      admission_threshold_estimate = infinity;
      admission_threshold_id = 4294967295;
      has_admission_threshold = false;
    })

unfoldable pub push_upper : ℕ → List ℕ → List ℕ
push_upper upper [] = upper ∷ []
push_upper upper (u ∷ uppers) =
    if less upper u then u ∷ push_upper upper uppers else upper ∷ u ∷ uppers

abbrev pub pop_upper : List ℕ → List ℕ
pop_upper [] = []
pop_upper (u ∷ uppers) = uppers

unfoldable pub update_upper : ℕ → List ℕ → ℕ → List ℕ
update_upper topk uppers upper =
    if ltb (length uppers) topk
    then push_upper upper uppers
    else if less upper (get_or uppers 0 0)
    then push_upper upper (pop_upper uppers)
    else uppers

unfoldable pub admit : FusedIntervalAccumulator → ℕ → ℕ → Bool
admit acc estimate id =
    not acc.has_admission_threshold
    || less estimate acc.admission_threshold_estimate
    || equal estimate acc.admission_threshold_estimate && ltb id acc.admission_threshold_id

-- The loops that keep some rows in place, in their order: the number kept, and the arrays.
unfoldable pub compact : (DistanceEstimate → Bool) → ℕ → Planes → ℕ × Planes
compact keep size planes =
    iterate size
      (λ read (s : ℕ × Planes).
        if keep (row_of s.1 read) then (s.0 + 1, store_row s.1 s.0 (row_of s.1 read)) else s)
      (0, planes)

-- A vector that is not empty has its cells somewhere.
abbrev pub vector_data : (ℕ → ℕ) → Pointer ℕ
vector_data cells = record { address = 1; cells = cells }

unfoldable pub fuzzy_shrink_shortlist :
    ℕ → ℕ → FusedIntervalAccumulator → Result FusedIntervalAccumulator
fuzzy_shrink_shortlist q_min q_max acc = if leb acc.reservoir_size q_max then ok acc else do
  threshold ←
      find_fuzzy_rank_threshold (vector_data acc.planes.estimates) (vector_data acc.planes.ids)
        acc.reservoir_size q_min q_max 1 1
  let kept =
      compact
        (λ row.
          less row.estimated_distance threshold.estimate
          || ltb 0 threshold.equal_to_keep
            && equal row.estimated_distance threshold.estimate
            && leb row.id threshold.id)
        acc.reservoir_size acc.planes
  throw_if (not (kept.0 == threshold.output_size)) logic_error
  ok (record acc {
    reservoir_size = kept.0;
    planes = kept.1;
    admission_threshold_estimate = threshold.estimate;
    admission_threshold_id = threshold.id;
    has_admission_threshold = true;
  })

unfoldable pub shrink_if_full : FusedIntervalAccumulator → Result FusedIntervalAccumulator
shrink_if_full acc =
    if acc.max_candidates == 0 || ltb acc.reservoir_size acc.reservoir_capacity
    then ok acc
    else fuzzy_shrink_shortlist acc.max_candidates
        (acc.max_candidates + (acc.reservoir_capacity - acc.max_candidates) / 2) acc

unfoldable pub append_scalar :
    DistanceEstimate → FusedIntervalAccumulator → Result FusedIntervalAccumulator
append_scalar row acc = shrink_if_full (record acc {
  reservoir_size = acc.reservoir_size + 1;
  planes = store_row acc.planes acc.reservoir_size row;
})

-- The ID of a lane.
unfoldable pub lane_id : Pointer ℕ → ℕ → ℕ → ℕ
lane_id ids implicit_id_base lane =
    if is_null ids then (implicit_id_base + lane) % 2 ^ 32 else ids.cells lane

unfoldable pub add_scalar_block :
    Pointer ℕ
    → ℕ
    → (ℕ → ℕ)
    → (ℕ → ℕ)
    → (ℕ → ℕ)
    → ℕ
    → FusedIntervalAccumulator
    → Result FusedIntervalAccumulator
add_scalar_block ids implicit_id_base estimates uncertainties uppers count acc =
    try_iterate count
      (λ lane acc.
        let id = lane_id ids implicit_id_base lane in
        if not (admit acc (estimates lane) id)
        then ok acc
        else append_scalar
            (record {
              id = id;
              estimated_distance = estimates lane;
              uncertainty = uncertainties lane;
            })
            acc)
      (record acc {
        seen = acc.seen + count;
        smallest_uppers =
            iterate count (λ lane heap. update_upper acc.topk heap (uppers lane))
              acc.smallest_uppers;
      })

unfoldable pub ordered_float_key : ℕ → ℕ
ordered_float_key value =
    let bits = if equal value 0 then 0 else value in
    if leb 2147483648 bits then 4294967295 - bits else bits + 2147483648

unfoldable pub float_from_ordered_key : ℕ → ℕ
float_from_ordered_key ordered =
    if leb 2147483648 ordered then ordered - 2147483648 else 4294967295 - ordered

unfoldable pub rank_key : ℕ → ℕ → ℕ
rank_key estimate id = ordered_float_key estimate * 2 ^ 32 + id

unfoldable pub shrink_shortlist : ℕ → FusedIntervalAccumulator → FusedIntervalAccumulator
shrink_shortlist keep acc =
    if leb acc.reservoir_size keep
    then acc
    else let threshold_key =
        nth_element ltb
          (map (λ i. rank_key (acc.planes.estimates i) (acc.planes.ids i))
            (numbers 0 acc.reservoir_size))
          (keep - 1) in
      let threshold_estimate = float_from_ordered_key (threshold_key / 2 ^ 32) in
      let threshold_id = threshold_key % 2 ^ 32 in
      let kept =
        compact
          (λ row.
            less row.estimated_distance threshold_estimate
            || equal row.estimated_distance threshold_estimate && leb row.id threshold_id)
          acc.reservoir_size acc.planes in
      record acc {
        reservoir_size = min kept.0 keep;
        planes = kept.1;
        admission_threshold_estimate = threshold_estimate;
        admission_threshold_id = threshold_id;
        has_admission_threshold = true;
      }

-- The order of the result.
unfoldable pub candidate_before : DistanceEstimate → DistanceEstimate → Bool
candidate_before lhs rhs =
    if not (equal lhs.estimated_distance rhs.estimated_distance)
    then less lhs.estimated_distance rhs.estimated_distance
    else ltb lhs.id rhs.id

-- `a <= b`
abbrev pub less_equal : ℕ → ℕ → Bool
less_equal a b = less a b || equal a b

-- The product and the difference of two floats are arguments.
module _ (multiply subtract : ℕ → ℕ → ℕ) where
  unfoldable pub lower : ℕ → DistanceEstimate → ℕ
  lower z_score row =
      if equal z_score 0 || equal row.uncertainty 0
      then row.estimated_distance
      else if is_infinite row.uncertainty
      then negative_infinity
      else let endpoint = subtract row.estimated_distance (multiply z_score row.uncertainty) in
        if is_nan endpoint then negative_infinity else endpoint

  unfoldable pub filter_by_lower : ℕ → FusedIntervalAccumulator → FusedIntervalAccumulator
  filter_by_lower kth_upper acc =
      let kept =
        compact (λ row. less_equal (lower acc.z_score row) kth_upper) acc.reservoir_size
          acc.planes in
      record acc { reservoir_size = kept.0; planes = kept.1 }

  unfoldable pub finish : FusedIntervalAccumulator → Result SelectionResult
  finish acc =
      throw_if (ltb acc.seen acc.topk) invalid_argument
      >> ok (
          let kth_upper_bound = get_or acc.smallest_uppers 0 0 in
          let shrunk =
            if ltb 0 acc.max_candidates then shrink_shortlist acc.max_candidates acc else acc in
          let kept = filter_by_lower kth_upper_bound shrunk in
          record {
            candidates =
                sort_by candidate_before (map (row_of kept.planes) (numbers 0 kept.reservoir_size));
            kth_upper_bound = kth_upper_bound;
            truncated = ltb 0 acc.max_candidates && ltb acc.max_candidates acc.seen;
          })
