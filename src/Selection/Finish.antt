-- ===== src/Selection/Finish.antt =====
-- The exact shrink at the end (`shrink_shortlist`): the first rows by estimate and ID are left.
use recast.Prelude.{
  ℕ, zero, suc, ◌+◌, ◌-◌, ◌*◌, ◌/◌, ◌%◌, ◌^◌, ◌≤◌, ◌<◌, ◌≡◌, refl, sym, ap, subst, ◌∙◌, inl, inr,
  Bool, ◌&&◌, ◌||◌, List, [], ◌∷◌, map, ltb, leb, ◌==◌, length, length-map, numbers, take, min,
  tally, tally-map, All, All-mono, Bool-cases, arith,
}
use recast.Floats.{less, equal}
use recast.Selection.{DistanceEstimate, nth_element}
use recast.Selection.Collector.{
  FusedIntervalAccumulator, row_of, compact, shrink_shortlist, rank_key, ordered_float_key,
  float_from_ordered_key,
}
use recast.Selection.Sorting.{
  filter, sort, length-sort_by, by_key, tally-Distinct, All-filter, length-filter,
}
use recast.Selection.Keys.{
  IsRow, rank, less-ordered_float_key, equal-ordered_float_key, float_from_ordered_key-IsNumber,
  ordered_float_key-float_from_ordered_key,
}
use recast.Selection.Counting.{All-map, length-numbers}
use recast.Selection.Threshold.{nth_element-ranks}
use recast.Selection.Planes.{rows, length-rows, compact-IsCompacted}
use recast.Selection.Reservoir.{IsReservoir, rows_of, filter_cong, best-filter, All-unmap}

take_all : (n : ℕ) (xs : List DistanceEstimate) → length xs ≤ n → take n xs ≡ xs
take_all n [] h = refl
take_all zero (x ∷ xs) h = absurd (omega (arith, h))
take_all (suc n) (x ∷ xs) h =
    ap (λ (ys : List DistanceEstimate). x ∷ ys) (take_all n xs (omega (arith, h)))

-- A number that is the rank of a row.
abbrev IsRank : ℕ → Type 0
IsRank k = (row : DistanceEstimate) × IsRow row × (k ≡ rank row)

split_rank :
    (a x : ℕ)
    → x < 4294967296
    → ((a * 4294967296 + x) / 4294967296 ≡ a) × ((a * 4294967296 + x) % 4294967296 ≡ x)
split_rank a x h = (omega arith, omega arith)

upto_rank :
    (a b x c : ℕ)
    → x < 4294967296
    → c < 4294967296
    → (ltb a b || a == b && leb x c) ≡ ltb (a * 4294967296 + x) (b * 4294967296 + c + 1)
upto_rank a b x c p q = ground arith

-- The final test of a row is that of its rank.
abbrev final_keep : ℕ → DistanceEstimate → Bool
final_keep key row =
    less row.estimated_distance (float_from_ordered_key (key / 2 ^ 32))
    || equal row.estimated_distance (float_from_ordered_key (key / 2 ^ 32))
      && leb row.id (key % 2 ^ 32)

final_keep-rank :
    (key : ℕ) (row : DistanceEstimate)
    → IsRank key
    → IsRow row
    → final_keep key row ≡ ltb (rank row) (key + 1)
unfolding rank_key
final_keep-rank key row (r, (p, i), e) (q, j) =
    let (high, low) = split_rank (ordered_float_key r.estimated_distance) r.id i in
    let number = float_from_ordered_key-IsNumber r.estimated_distance p in
    let back = ordered_float_key-float_from_ordered_key r.estimated_distance p in
    rw
      (
        e,
        high,
        low,
        less-ordered_float_key row.estimated_distance
            (float_from_ordered_key (ordered_float_key r.estimated_distance)) q number,
        equal-ordered_float_key row.estimated_distance
            (float_from_ordered_key (ordered_float_key r.estimated_distance)) q number,
        back,
      )
      (upto_rank (ordered_float_key row.estimated_distance) (ordered_float_key r.estimated_distance)
        row.id r.id j i)

upto_split :
    (key : ℕ) (xs : List DistanceEstimate)
    → tally (λ row. ltb (rank row) (key + 1)) xs
      ≡ tally (λ row. ltb (rank row) key) xs + tally (λ row. rank row == key) xs
upto_split key [] = refl
upto_split key (x ∷ xs) = ground (arith, upto_split key xs)

upto_same :
    (key : ℕ) (xs : List DistanceEstimate)
    → tally (λ row. leb (rank row) key) xs ≡ tally (λ row. ltb (rank row) (key + 1)) xs
upto_same key [] = refl
upto_same key (x ∷ xs) = ground (arith, upto_same key xs)

-- The rows that the final shrink leaves.
pub record IsShrunk (limit : ℕ) (seen : List DistanceEstimate)
    (acc after : FusedIntervalAccumulator) : Type 0 where
  pub first : sort rank (rows_of after) ≡ take limit (sort rank seen)
  pub are_rows : All IsRow (rows_of after)
  pub z_score : after.z_score ≡ acc.z_score

module _ (limit : ℕ) (seen : List DistanceEstimate) (acc : FusedIntervalAccumulator)
    (is : IsReservoir limit seen acc) (all : All IsRow seen) where
  abbrev row_ranks : List ℕ
  row_ranks =
      map (λ i. rank_key (acc.planes.estimates i) (acc.planes.ids i)) (numbers 0 acc.reservoir_size)

  ranks_ok : All IsRank row_ranks
  ranks_ok =
      All-map IsRank (λ i. rank_key (acc.planes.estimates i) (acc.planes.ids i))
        (numbers 0 acc.reservoir_size)
        (All-mono (numbers 0 acc.reservoir_size) (λ i p. (row_of acc.planes i, p, refl))
          (All-unmap IsRow (row_of acc.planes) (numbers 0 acc.reservoir_size) (is.from IsRow all)))

  shrink_exact :
      (key : ℕ)
      → tally (λ x. ltb x key) row_ranks ≤ limit - 1
      → limit - 1 < tally (λ x. leb x key) row_ranks
      → 0 < limit
      → tally (λ row. ltb (rank row) (key + 1)) (rows_of acc) ≡ limit
  shrink_exact key under over pos =
      let rank_at : ℕ → ℕ = λ i. rank_key (acc.planes.estimates i) (acc.planes.ids i) in
      let idx = numbers 0 acc.reservoir_size in
      omega (
        arith,
        under,
        over,
        pos,
        tally-map (λ x. ltb x key) rank_at idx,
        tally-map (λ x. leb x key) rank_at idx,
        tally-map (λ row. ltb (rank row) key) (row_of acc.planes) idx,
        tally-map (λ row. leb (rank row) key) (row_of acc.planes) idx,
        upto_same key (rows_of acc),
        upto_split key (rows_of acc),
        tally-Distinct rank (rows_of acc) key is.distinct,
      )

  pub shrink_shortlist-IsShrunk : 0 < limit → IsShrunk limit seen acc (shrink_shortlist limit acc)
  unfolding shrink_shortlist
  shrink_shortlist-IsShrunk pos = elim (Bool-cases (leb acc.reservoir_size limit)) [
    | inl t ↦
        let len = length-sort_by (by_key rank) (rows_of acc) in
        let size = length-rows acc.planes acc.reservoir_size in
        let fits : acc.reservoir_size ≤ limit = ground arith in
        rw t (record {
          first =
              sym (take_all limit (sort rank (rows_of acc)) (omega (arith, len, size, fits)))
              ∙ is.best;
          are_rows = is.from IsRow all;
          z_score = refl;
        })
    | inr t ↦
        let key = nth_element ltb row_ranks (limit - 1) in
        let many : limit < acc.reservoir_size = ground arith in
        let len : length row_ranks ≡ acc.reservoir_size =
          length-map (numbers 0 acc.reservoir_size)
            (λ i. rank_key (acc.planes.estimates i) (acc.planes.ids i))
          ∙ length-numbers 0 acc.reservoir_size in
        let (is_rank, under, over) =
          nth_element-ranks ltb (λ k. k) IsRank row_ranks (limit - 1) (λ x y p q. refl) ranks_ok
            (omega (arith, len, many, pos)) in
        let keep : DistanceEstimate → Bool = final_keep key in
        let test : DistanceEstimate → Bool = λ row. ltb (rank row) (key + 1) in
        let agree : All (λ row. keep row ≡ test row) (rows_of acc) =
          All-mono (rows_of acc) (λ row p. final_keep-rank key row is_rank p) (is.from IsRow all) in
        let exact : tally test (rows_of acc) ≡ limit = shrink_exact key under over pos in
        let s = compact keep acc.reservoir_size acc.planes in
        let c = compact-IsCompacted keep acc.reservoir_size acc.planes in
        let left : filter keep (rows_of acc) ≡ filter test (rows_of acc) =
          filter_cong keep test (rows_of acc) agree in
        let size : s.0 ≡ limit =
          sym (length-rows s.1 s.0)
          ∙ ap (λ (xs : List DistanceEstimate). length xs) (c.kept ∙ left)
          ∙ length-filter test (rows_of acc)
          ∙ exact in
        let least : s.0 ≡ min s.0 limit = omega arith in
        let kept : rows s.1 (min s.0 limit) ≡ filter test (rows_of acc) =
          ap (λ (n : ℕ). rows s.1 n) (sym least) ∙ c.kept ∙ left in
        let many_rows : length (sort rank (filter test (rows_of acc))) ≤ limit = omega (
          arith,
          length-sort_by (by_key rank) (filter test (rows_of acc)),
          length-filter test (rows_of acc),
          exact,
        ) in
        rw t (record {
          first =
              ap (λ (xs : List DistanceEstimate). sort rank xs) kept
              ∙ sym (take_all limit (sort rank (filter test (rows_of acc))) many_rows)
              ∙ best-filter limit (key + 1) (rows_of acc) (omega (arith, exact))
              ∙ is.best;
          are_rows =
              subst (λ (xs : List DistanceEstimate). All IsRow xs) (sym kept)
                (All-filter IsRow test (rows_of acc) (is.from IsRow all));
          z_score = refl;
        })
  ]
