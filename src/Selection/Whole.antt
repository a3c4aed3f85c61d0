-- ===== src/Selection/Whole.antt =====
-- The whole selection: a new collector, the blocks of every list, and `finish`.
use recast.Prelude.{
  ℕ, ◌*◌, ◌/◌, ◌≤◌, ◌<◌, ◌≡◌, refl, sym, ap, subst, ◌∙◌, ◌⊎◌, inl, inr, Bool, true, false, not,
  ◌&&◌, ◌||◌, List, [], ◌∷◌, Result, ok, err, invalid_argument, ◌>>=◌, if◌then◌else◌, ltb, ◌==◌,
  length, length-append, get_or, take, All, Bool-cases, arith,
}
use recast.Checked.{size_max}
use recast.Floats.{less, is_finite, infinity}
use recast.Selection.{DistanceEstimate, sort_by}
use recast.Selection.Collector.{
  FusedIntervalAccumulator, SelectionResult, new_accumulator, candidate_before, less_equal, lower,
  filter_by_lower, finish, shrink_shortlist,
}
use recast.Selection.Sorting.{
  filter, chosen, other, Distinct, sort, sort_by-by_key, filter-sort, All-filter,
}
use recast.Selection.Keys.{IsNumber, IsRow, rank, candidate_before-rank}
use recast.Selection.Planes.{compact-IsCompacted}
use recast.Selection.Reservoir.{rows_of}
use recast.Selection.Uppers.{empty-IsHeap, IsKth, top-IsKth}
use recast.Selection.Scanned.{
  Block, scanned_rows, scanned_uppers, block_rows, block_uppers, add_blocks, IsCollected, blocks_ok,
  length-block_rows, length-block_uppers,
}
use recast.Selection.Finish.{IsShrunk, shrink_shortlist-IsShrunk}

-- What the constructor accepts.
pub record CanCollect (topk z_score limit : ℕ) : Type 0 where
  pub some_asked : 0 < topk
  pub finite : is_finite z_score ≡ true
  pub not_negative : less z_score 0 ≡ false
  pub enough : (limit ≡ 0) ⊎ (topk ≤ limit)
  pub doubled : limit ≤ size_max / 2

length-scanned :
    (blocks : List Block) → length (scanned_uppers blocks) ≡ length (scanned_rows blocks)
length-scanned [] = refl
length-scanned (b ∷ blocks) = omega (
  arith,
  length-append (block_uppers b b.count) (scanned_uppers blocks),
  length-append (block_rows b b.count) (scanned_rows blocks),
  length-block_uppers b b.count,
  length-block_rows b b.count,
  length-scanned blocks,
)

false_not_true : false ≡ true → ⊥
false_not_true e = ground arith

abbrev fresh : ℕ → ℕ → ℕ → FusedIntervalAccumulator
fresh topk z limit = record {
  topk = topk;
  z_score = z;
  max_candidates = limit;
  reservoir_capacity = if ltb 0 limit then 2 * limit else 0;
  reservoir_size = 0;
  seen = 0;
  smallest_uppers = [];
  planes = record { estimates = λ i. 0; uncertainties = λ i. 0; ids = λ i. 0 };
  admission_threshold_estimate = infinity;
  admission_threshold_id = 4294967295;
  has_admission_threshold = false;
}

start_ok :
    (topk z limit : ℕ)
    → CanCollect topk z limit
    → (acc : FusedIntervalAccumulator) × (new_accumulator topk z limit ≡ ok acc)
      × IsCollected topk z limit [] [] acc
unfolding new_accumulator
start_ok topk z limit can =
    let test : (topk == 0
          || not (is_finite z)
          || less z 0
          || ltb 0 limit && ltb limit topk
          || ltb (size_max / 2) limit)
        ≡ false =
      let s = can.some_asked in
      let f = can.finite in
      let n = can.not_negative in let e = can.enough in let d = can.doubled in ground arith in
    (
      fresh topk z limit,
      rw test refl,
      record {
        topk_is = refl;
        z_is = refl;
        seen_is = refl;
        reservoir = record {
          limited = refl;
          capacity = ground arith;
          best = refl;
          all_kept = λ e. refl;
          from = λ P all. tt;
          distinct = tt;
          admission = λ e. absurd (false_not_true e);
        };
        room = λ pos. omega arith;
        heap = empty-IsHeap topk;
      },
    )

module _ (multiply subtract : ℕ → ℕ → ℕ) where
  -- A selection from beginning to end.
  abbrev pub select : ℕ → ℕ → ℕ → List Block → Result SelectionResult
  select topk z_score limit blocks = new_accumulator topk z_score limit >>= λ acc.
      add_blocks blocks acc >>= finish multiply subtract

  -- The best rows of the scan whose lower endpoints reach the threshold.
  abbrev pub chosen_rows : ℕ → ℕ → ℕ → List DistanceEstimate → List DistanceEstimate
  chosen_rows z_score limit bound seen =
      filter (λ row. less_equal (lower multiply subtract z_score row) bound)
        (if ltb 0 limit then take limit (sort rank seen) else sort rank seen)

  pub record IsSelection (topk z_score limit : ℕ) (blocks : List Block) (result : SelectionResult)
      : Type 0 where
    pub kth : IsKth topk result.kth_upper_bound (scanned_uppers blocks)
    pub candidates :
        result.candidates ≡ chosen_rows z_score limit result.kth_upper_bound (scanned_rows blocks)
    pub truncated : result.truncated ≡ (ltb 0 limit && ltb limit (length (scanned_rows blocks)))

  -- Sorting what the filter leaves.
  filtered :
      (bound : ℕ) (acc : FusedIntervalAccumulator)
      → All IsRow (rows_of acc)
      → sort_by candidate_before (rows_of (filter_by_lower multiply subtract bound acc))
        ≡ filter
            (λ row. less_equal (lower multiply subtract acc.z_score row) bound)
            (sort rank (rows_of acc))
  unfolding filter_by_lower
  filtered bound acc all =
      let keep : DistanceEstimate → Bool =
        λ row. less_equal (lower multiply subtract acc.z_score row) bound in
      let c = compact-IsCompacted keep acc.reservoir_size acc.planes in
      ap (λ (xs : List DistanceEstimate). sort_by candidate_before xs) c.kept
      ∙ sort_by-by_key candidate_before rank IsRow candidate_before-rank (filter keep (rows_of acc))
          (All-filter IsRow keep (rows_of acc) all)
      ∙ sym (filter-sort rank keep (rows_of acc))

  abbrev keeps_row : ℕ → ℕ → DistanceEstimate → Bool
  keeps_row z bound row = less_equal (lower multiply subtract z row) bound

  filtered_from :
      (z bound : ℕ) (acc : FusedIntervalAccumulator) (sorted : List DistanceEstimate)
      → All IsRow (rows_of acc)
      → acc.z_score ≡ z
      → sort rank (rows_of acc) ≡ sorted
      → sort_by candidate_before (rows_of (filter_by_lower multiply subtract bound acc))
        ≡ filter (keeps_row z bound) sorted
  filtered_from z bound acc sorted all e f =
      filtered bound acc all
      ∙ ap (λ (k : ℕ). filter (keeps_row k bound) (sort rank (rows_of acc))) e
      ∙ ap (λ (xs : List DistanceEstimate). filter (keeps_row z bound) xs) f

  collected-IsSelection :
      (topk z limit : ℕ) (blocks : List Block) (acc : FusedIntervalAccumulator)
      → 0 < topk
      → IsCollected topk z limit (scanned_rows blocks) (scanned_uppers blocks) acc
      → All IsRow (scanned_rows blocks)
      → All IsNumber (scanned_uppers blocks)
      → topk ≤ length (scanned_rows blocks)
      → (result : SelectionResult) × (finish multiply subtract acc ≡ ok result)
        × IsSelection topk z limit blocks result
  unfolding finish
  collected-IsSelection topk z limit blocks acc pos is all numbers many =
      let bound = get_or acc.smallest_uppers 0 0 in
      let seen = scanned_rows blocks in
      let (number, kth) =
        top-IsKth topk (scanned_uppers blocks) acc.smallest_uppers pos
          (omega (arith, length-scanned blocks, many)) numbers is.heap in
      let limited = is.reservoir.limited in
      let asked : ltb acc.seen acc.topk ≡ false =
        let s = is.seen_is in let k = is.topk_is in ground arith in
      let cap : (ltb 0 acc.max_candidates && ltb acc.max_candidates acc.seen)
          ≡ (ltb 0 limit && ltb limit (length seen)) =
        let s = is.seen_is in ground arith in
      elim (Bool-cases (ltb 0 limit)) [
        | inl t ↦
            let given : ltb 0 acc.max_candidates ≡ true = ground arith in
            let shrunk : IsShrunk limit seen acc (shrink_shortlist acc.max_candidates acc) =
              subst (λ (k : ℕ). IsShrunk limit seen acc (shrink_shortlist k acc)) (sym limited)
                (shrink_shortlist-IsShrunk limit seen acc is.reservoir all (ground arith)) in
            (
              record {
                candidates = sort_by candidate_before (
                    rows_of (
                      filter_by_lower multiply subtract bound
                        (shrink_shortlist acc.max_candidates acc)));
                kth_upper_bound = bound;
                truncated = ltb 0 acc.max_candidates && ltb acc.max_candidates acc.seen;
              },
              rw (asked, given) refl,
              record {
                kth = kth;
                candidates =
                    filtered_from z bound (shrink_shortlist acc.max_candidates acc)
                      (take limit (sort rank seen)) shrunk.are_rows (shrunk.z_score ∙ is.z_is)
                      shrunk.first
                    ∙ ap (λ (xs : List DistanceEstimate). filter (keeps_row z bound) xs)
                        (sym (chosen t (take limit (sort rank seen)) (sort rank seen)));
                truncated = cap;
              },
            )
        | inr t ↦
            let given : ltb 0 acc.max_candidates ≡ false = ground arith in
            (
              record {
                candidates =
                    sort_by candidate_before
                      (rows_of (filter_by_lower multiply subtract bound acc));
                kth_upper_bound = bound;
                truncated = ltb 0 acc.max_candidates && ltb acc.max_candidates acc.seen;
              },
              rw (asked, given) refl,
              record {
                kth = kth;
                candidates =
                    filtered_from z bound acc (sort rank seen) (is.reservoir.from IsRow all) is.z_is
                      (ap (λ (xs : List DistanceEstimate). sort rank xs)
                        (is.reservoir.all_kept (ground arith)))
                    ∙ ap (λ (xs : List DistanceEstimate). filter (keeps_row z bound) xs)
                        (sym (other t (take limit (sort rank seen)) (sort rank seen)));
                truncated = cap;
              },
            )
      ]

  -- For accepted parameters, and rows with estimates and endpoints that are no NaN and with different
  -- pairs of estimate and ID, a selection over any blocks ends in one of two ways. With fewer rows than
  -- `topk` it throws invalid_argument. Otherwise it returns a threshold that has fewer than `topk`
  -- upper endpoints below it and at least `topk` not above it, the best `limit` rows by estimate and ID
  -- (all for a limit of zero), in that order, less those whose lower endpoint is above the threshold,
  -- and whether the limit left rows out.
  pub select-cases :
      (topk z_score limit : ℕ) (blocks : List Block)
      → CanCollect topk z_score limit
      → All IsRow (scanned_rows blocks)
      → Distinct rank (scanned_rows blocks)
      → All IsNumber (scanned_uppers blocks)
      → ((length (scanned_rows blocks) < topk)
          × (select topk z_score limit blocks ≡ err invalid_argument))
        ⊎ ((topk ≤ length (scanned_rows blocks))
            × (result : SelectionResult) × (select topk z_score limit blocks ≡ ok result)
            × IsSelection topk z_score limit blocks result)
  unfolding finish
  select-cases topk z limit blocks can all d numbers =
      let pos = can.some_asked in
      let (start, starts, is) = start_ok topk z limit can in
      let (acc, adds, collected) = blocks_ok topk z limit [] [] start blocks pos is all d numbers in
      elim (Bool-cases (ltb (length (scanned_rows blocks)) topk)) [
        | inl few ↦
            let asked : ltb acc.seen acc.topk ≡ true =
              let s = collected.seen_is in let k = collected.topk_is in ground arith in
            inl (ground arith, rw (starts, adds, asked) refl)
        | inr many ↦
            let (result, e, selection) =
              collected-IsSelection topk z limit blocks acc pos collected all numbers
                (ground arith) in
            inr (ground arith, result, rw (starts, adds) e, selection)
      ]
