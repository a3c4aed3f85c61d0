-- ===== src/Selection/Reservoir.antt =====
-- The reservoir of the collector: what an added row and a shrink leave (`append_scalar`,
-- `shrink_if_full`, `fuzzy_shrink_shortlist`).
use recast.Prelude.{
  ℕ, zero, suc, ◌+◌, ◌-◌, ◌*◌, ◌/◌, ◌≤◌, ◌<◌, ◌≡◌, ◌≢◌, refl, sym, ap, subst, ◌∙◌, inl, inr, Bool,
  true, false, ◌&&◌, ◌||◌, List, [], ◌∷◌, ◌++◌, map, ok, if◌then◌else◌, ltb, leb, ◌==◌, numbers,
  take, tally, tally-append, tally-map, All, All-mono, All-append, All-unappend, Bool-cases, arith,
}
use recast.Floats.{less, equal}
use recast.Selection.{DistanceEstimate, FuzzyRankThreshold, find_fuzzy_rank_threshold}
use recast.Selection.Collector.{
  FusedIntervalAccumulator, row_of, store_row, compact, admit, fuzzy_shrink_shortlist,
  shrink_if_full, rank_key, ordered_float_key,
}
use recast.Selection.Sorting.{
  filter, Apart, Distinct, insert, sort, sort-Sorted, sort-snoc, filter-sort, take-filter,
  take-insert_rejected, take-insert, tally-sort_by, by_key, All-filter,
}
use recast.Selection.Keys.{IsNumber, IsRow, rank, less-ordered_float_key, equal-ordered_float_key}
use recast.Selection.Counting.{tally-filter_both, tally-cong}
use recast.Selection.Threshold.{IsThreshold, find_fuzzy_rank_threshold-ok}
use recast.Selection.Planes.{rows, rows-store_row, compact-IsCompacted, compact_count}

abbrev pub rows_of : FusedIntervalAccumulator → List DistanceEstimate
rows_of acc = rows acc.planes acc.reservoir_size

-- The rank that a row has to be below to be admitted.
abbrev pub admission_rank : FusedIntervalAccumulator → ℕ
admission_rank acc = rank_key acc.admission_threshold_estimate acc.admission_threshold_id

-- The reservoir of `limit` rows after the rows `seen`.
pub record IsReservoir (limit : ℕ) (seen : List DistanceEstimate) (acc : FusedIntervalAccumulator)
    : Type 1 where
  pub limited : acc.max_candidates ≡ limit
  pub capacity : acc.reservoir_capacity ≡ 2 * limit
  pub best : take limit (sort rank (rows_of acc)) ≡ take limit (sort rank seen)
  pub all_kept : limit ≡ 0 → rows_of acc ≡ seen
  pub from : (P : DistanceEstimate → Type 0) → All P seen → All P (rows_of acc)
  pub distinct : Distinct rank (rows_of acc)
  pub admission :
      acc.has_admission_threshold ≡ true
      → (0 < limit)
        × IsNumber acc.admission_threshold_estimate
        × (acc.admission_threshold_id < 4294967296)
        × (limit ≤ tally (λ row. leb (rank row) (admission_rank acc)) (rows_of acc))

Distinct-filter :
    (test : DistanceEstimate → Bool) (xs : List DistanceEstimate)
    → Distinct rank xs
    → Distinct rank (filter test xs)
Distinct-filter test [] d = tt
Distinct-filter test (x ∷ xs) (apart, d) = elim (Bool-cases (test x)) [
  | inl t ↦ rw t (All-filter (λ y. rank x ≢ rank y) test xs apart, Distinct-filter test xs d)
  | inr t ↦ rw t (Distinct-filter test xs d)
]

Distinct-snoc :
    (xs : List DistanceEstimate) (x : DistanceEstimate)
    → Distinct rank xs
    → Apart rank x xs
    → Distinct rank (xs ++ (x ∷ []))
Distinct-snoc [] x d apart = (tt, tt)
Distinct-snoc (y ∷ xs) x (away, d) (ne, apart) = (
  All-append (λ z. rank y ≢ rank z) xs (x ∷ []) away ((λ e. ne (sym e)), tt),
  Distinct-snoc xs x d apart,
)

pub filter_cong :
    (test test' : DistanceEstimate → Bool) (xs : List DistanceEstimate)
    → All (λ x. test x ≡ test' x) xs
    → filter test xs ≡ filter test' xs
filter_cong test test' [] all = refl
filter_cong test test' (x ∷ xs) (e, all) = elim (Bool-cases (test' x)) [
  | inl t ↦ rw (e, t) (ap (λ (zs : List DistanceEstimate). x ∷ zs) (filter_cong test test' xs all))
  | inr t ↦ rw (e, t) (filter_cong test test' xs all)
]

-- The rows that a threshold keeps are those below a rank.
abbrev keep_row : FuzzyRankThreshold → DistanceEstimate → Bool
keep_row t row =
    less row.estimated_distance t.estimate
    || ltb 0 t.equal_to_keep && equal row.estimated_distance t.estimate && leb row.id t.id

abbrev cut : FuzzyRankThreshold → ℕ
cut t = ordered_float_key t.estimate * 4294967296 + (if ltb 0 t.equal_to_keep then t.id + 1 else 0)

cut_rows :
    (a b x c : ℕ) (keep : Bool)
    → x < 4294967296
    → c < 4294967296
    → (ltb a b || keep && (a == b) && leb x c)
      ≡ ltb (a * 4294967296 + x) (b * 4294967296 + (if keep then c + 1 else 0))
cut_rows a b x c keep p q = ground arith

keep_row-cut :
    (t : FuzzyRankThreshold) (row : DistanceEstimate)
    → IsNumber t.estimate
    → t.id < 4294967296
    → IsRow row
    → keep_row t row ≡ ltb (rank row) (cut t)
unfolding rank_key
keep_row-cut t row number narrow (p, q) =
    rw
      (
        less-ordered_float_key row.estimated_distance t.estimate p number,
        equal-ordered_float_key row.estimated_distance t.estimate p number,
      )
      (cut_rows (ordered_float_key row.estimated_distance) (ordered_float_key t.estimate) row.id
        t.id (ltb 0 t.equal_to_keep) q narrow)

-- Only the rows below a bound, when there are enough of them.
pub best-filter :
    (limit bound : ℕ) (xs : List DistanceEstimate)
    → limit ≤ tally (λ row. ltb (rank row) bound) xs
    → take limit (sort rank (filter (λ row. ltb (rank row) bound) xs)) ≡ take limit (sort rank xs)
best-filter limit bound xs h =
    let test : DistanceEstimate → Bool = λ row. ltb (rank row) bound in
    ap (λ (zs : List DistanceEstimate). take limit zs) (sym (filter-sort rank test xs))
    ∙ take-filter rank limit bound (sort rank xs) (sort-Sorted rank xs)
        (omega (arith, h, tally-sort_by (by_key rank) test xs))

not_below :
    (a b x y : ℕ)
    → y < 4294967296
    → ltb a b ≡ false
    → (a == b && ltb x y) ≡ false
    → b * 4294967296 + y ≤ a * 4294967296 + x
not_below a b x y narrow h k = ground arith

both_tests : (a b : Bool) → (a ≡ true → b ≡ true) → (a && b) ≡ a
both_tests true b h = h refl
both_tests false b h = refl

-- The parts of the collector that the reservoir's steps leave.
pub record IsSame (acc after : FusedIntervalAccumulator) : Type 0 where
  pub topk : after.topk ≡ acc.topk
  pub z_score : after.z_score ≡ acc.z_score
  pub seen : after.seen ≡ acc.seen
  pub uppers : after.smallest_uppers ≡ acc.smallest_uppers

abbrev pub same : (acc : FusedIntervalAccumulator) → IsSame acc acc
same acc = record { topk = refl; z_score = refl; seen = refl; uppers = refl }

All-index :
    (P : DistanceEstimate → Type 0) (f : ℕ → DistanceEstimate) (first n i : ℕ)
    → All P (map f (numbers first n))
    → i < n
    → P (f (first + i))
All-index P f first zero i all h = absurd (omega arith)
All-index P f first (suc n) zero (p, all) h =
    let e : first ≡ first + 0 = omega arith in subst (λ (k : ℕ). P (f k)) e p
All-index P f first (suc n) (suc i) (p, all) h =
    let e : first + 1 + i ≡ first + suc i = omega arith in
    subst (λ (k : ℕ). P (f k)) e (All-index P f (first + 1) n i all (omega arith))

pub All-unmap :
    (P : DistanceEstimate → Type 0) (f : ℕ → DistanceEstimate) (xs : List ℕ)
    → All P (map f xs)
    → All (λ i. P (f i)) xs
All-unmap P f [] all = tt
All-unmap P f (x ∷ xs) (p, all) = (p, All-unmap P f xs all)

Distinct-unmap :
    (f : ℕ → DistanceEstimate) (xs : List ℕ)
    → Distinct rank (map f xs)
    → Distinct (λ i. rank (f i)) xs
Distinct-unmap f [] d = tt
Distinct-unmap f (x ∷ xs) (apart, d) =
    (All-unmap (λ y. rank (f x) ≢ rank y) f xs apart, Distinct-unmap f xs d)

module _ (limit : ℕ) (seen : List DistanceEstimate) (acc : FusedIntervalAccumulator)
    (is : IsReservoir limit seen acc) (all : All IsRow seen) where
  rows_ok : All IsRow (rows_of acc)
  rows_ok = is.from IsRow all

  row_ok : (i : ℕ) → i < acc.reservoir_size → IsRow (row_of acc.planes i)
  row_ok i h =
      let e : 0 + i ≡ i = omega arith in
      subst (λ (k : ℕ). IsRow (row_of acc.planes k)) e
        (All-index IsRow (row_of acc.planes) 0 acc.reservoir_size i rows_ok h)

  found-IsThreshold :
      (q_max : ℕ)
      → 0 < limit
      → limit ≤ q_max
      → q_max < acc.reservoir_size
      → (t : FuzzyRankThreshold) × (find_fuzzy_rank_threshold
            (record { address = 1; cells = acc.planes.estimates })
            (record { address = 1; cells = acc.planes.ids })
            acc.reservoir_size
            limit
            q_max
            1
            1
          ≡ ok t)
        × IsThreshold acc.planes.estimates acc.reservoir_size
            (λ i h. (row_ok i h).0)
            acc.planes.ids
            limit
            q_max
            t
  found-IsThreshold q_max pos le room =
      find_fuzzy_rank_threshold-ok acc.planes.estimates acc.reservoir_size (λ i h. (row_ok i h).0)
        acc.planes.ids (λ i h. (row_ok i h).1)
        (Distinct-unmap (row_of acc.planes) (numbers 0 acc.reservoir_size) is.distinct) limit q_max
        1 1 1 1 (λ e. omega arith) (λ e. omega arith) (λ e. omega arith) (λ e. omega arith) pos le
        room

  -- What is left is below the rank at which the threshold cuts.
  kept_below :
      (t : FuzzyRankThreshold)
      → IsNumber t.estimate
      → t.id < 4294967296
      → filter (keep_row t) (rows_of acc) ≡ filter (λ row. ltb (rank row) (cut t)) (rows_of acc)
  kept_below t number narrow =
      filter_cong (keep_row t) (λ row. ltb (rank row) (cut t)) (rows_of acc)
        (All-mono (rows_of acc) (λ row p. keep_row-cut t row number narrow p) rows_ok)

  abbrev shrunk : FuzzyRankThreshold → FusedIntervalAccumulator
  shrunk t = record acc {
    reservoir_size = (compact (keep_row t) acc.reservoir_size acc.planes).0;
    planes = (compact (keep_row t) acc.reservoir_size acc.planes).1;
    admission_threshold_estimate = t.estimate;
    admission_threshold_id = t.id;
    has_admission_threshold = true;
  }

  cut_bound :
      (t : FuzzyRankThreshold) (r : ℕ)
      → ltb r (cut t) ≡ true
      → leb r (rank_key t.estimate t.id) ≡ true
  unfolding rank_key
  cut_bound t r h = ground arith

  -- The rows kept are all admitted by the new threshold.
  shrunk_tally :
      (t : FuzzyRankThreshold)
      → IsNumber t.estimate
      → t.id < 4294967296
      → tally (λ row. leb (rank row) (rank_key t.estimate t.id)) (filter (keep_row t) (rows_of acc))
        ≡ tally (keep_row t) (rows_of acc)
  shrunk_tally t number narrow =
      tally-filter_both (λ row. leb (rank row) (rank_key t.estimate t.id)) (keep_row t)
        (rows_of acc)
      ∙ tally-cong (λ row. keep_row t row && leb (rank row) (rank_key t.estimate t.id)) (keep_row t)
          (rows_of acc)
          (All-mono (rows_of acc)
            (λ row p.
              let e = keep_row-cut t row number narrow p in
              let b = cut_bound t (rank row) in
              both_tests (keep_row t row) (leb (rank row) (rank_key t.estimate t.id))
                λ h. b (sym e ∙ h))
            rows_ok)

  shrunk-IsReservoir :
      (q_max : ℕ) (t : FuzzyRankThreshold)
      → 0 < limit
      → IsThreshold acc.planes.estimates acc.reservoir_size
          (λ i h. (row_ok i h).0)
          acc.planes.ids
          limit
          q_max
          t
      → IsReservoir limit seen (shrunk t)
  shrunk-IsReservoir q_max t pos th =
      let compacted = compact-IsCompacted (keep_row t) acc.reservoir_size acc.planes in
      let kept = compacted.kept in
      let total : tally (keep_row t) (rows_of acc) ≡ t.output_size =
        tally-map (keep_row t) (row_of acc.planes) (numbers 0 acc.reservoir_size) ∙ th.exact in
      let below = kept_below t th.number th.id_bound in
      let enough : limit ≤ tally (λ row. ltb (rank row) (cut t)) (rows_of acc) = omega (
        arith,
        th.least,
        total,
        tally-cong (keep_row t) (λ row. ltb (rank row) (cut t)) (rows_of acc)
            (All-mono (rows_of acc) (λ row p. keep_row-cut t row th.number th.id_bound p) rows_ok),
      ) in
      record {
        limited = is.limited;
        capacity = is.capacity;
        best =
            ap (λ (xs : List DistanceEstimate). take limit (sort rank xs)) (kept ∙ below)
            ∙ best-filter limit (cut t) (rows_of acc) enough
            ∙ is.best;
        all_kept = λ e. absurd (omega arith);
        from = λ P p.
            subst (λ (xs : List DistanceEstimate). All P xs) (sym kept)
              (All-filter P (keep_row t) (rows_of acc) (is.from P p));
        distinct =
            subst (λ (xs : List DistanceEstimate). Distinct rank xs) (sym kept)
              (Distinct-filter (keep_row t) (rows_of acc) is.distinct);
        admission = λ e. (
          pos,
          th.number,
          th.id_bound,
          subst
              (λ (xs : List DistanceEstimate).
                limit ≤ tally (λ row. leb (rank row) (rank_key t.estimate t.id)) xs)
              (sym kept) (omega (arith, shrunk_tally t th.number th.id_bound, total, th.least)),
        );
      }

  fuzzy_shrink_shortlist-ok :
      (q_max : ℕ)
      → 0 < limit
      → limit ≤ q_max
      → q_max < acc.reservoir_size
      → (after : FusedIntervalAccumulator) × (fuzzy_shrink_shortlist limit q_max acc ≡ ok after)
        × IsReservoir limit seen after
        × (after.reservoir_size ≤ q_max)
        × IsSame acc after
  unfolding fuzzy_shrink_shortlist
  fuzzy_shrink_shortlist-ok q_max pos le room =
      let (t, finds, th) = found-IsThreshold q_max pos le room in
      let kept = compact_count (keep_row t) acc.reservoir_size acc.planes ∙ th.exact in
      let more : leb acc.reservoir_size q_max ≡ false = ground arith in
      let agree : ((compact (keep_row t) acc.reservoir_size acc.planes).0 == t.output_size) ≡ true =
        ground arith in
      (
        shrunk t,
        rw (more, finds, agree) refl,
        shrunk-IsReservoir q_max t pos th,
        omega (arith, kept, th.most),
        record { topk = refl; z_score = refl; seen = refl; uppers = refl },
      )

  pub shrink_if_full-ok :
      (0 < limit → acc.reservoir_size ≤ 2 * limit)
      → (after : FusedIntervalAccumulator) × (shrink_if_full acc ≡ ok after)
        × IsReservoir limit seen after
        × (0 < limit → after.reservoir_size < 2 * limit)
        × IsSame acc after
  unfolding shrink_if_full
  shrink_if_full-ok room =
      elim (Bool-cases (acc.max_candidates == 0 || ltb acc.reservoir_size acc.reservoir_capacity)) [
        | inl t ↦ (
          acc,
          rw t refl,
          is,
          λ pos. let l = is.limited in let c = is.capacity in ground arith,
          same acc,
        )
        | inr t ↦
            let l = is.limited in
            let c = is.capacity in
            let pos : 0 < limit = ground arith in
            let full : acc.reservoir_size ≡ 2 * limit = let r = room pos in ground arith in
            let q_max = limit + (2 * limit - limit) / 2 in
            let (after, e, reservoir, size, kept) =
              fuzzy_shrink_shortlist-ok q_max pos (omega arith) (omega arith) in
            let given = acc.max_candidates + (acc.reservoir_capacity - acc.max_candidates) / 2 in
            let most : given ≡ q_max = omega arith in
            (
              after,
              rw t (
                  ap (λ (k : ℕ). fuzzy_shrink_shortlist k given acc) l
                  ∙ ap (λ (k : ℕ). fuzzy_shrink_shortlist limit k acc) most
                  ∙ e),
              reservoir,
              λ _. omega arith,
              kept,
            )
      ]

pub Apart-from :
    (limit : ℕ) (seen : List DistanceEstimate) (acc : FusedIntervalAccumulator)
    → IsReservoir limit seen acc
    → (row : DistanceEstimate) → Apart rank row seen
    → Apart rank row (rows_of acc)
Apart-from limit seen acc is row apart = is.from (λ y. rank row ≢ rank y) apart

module _ (limit : ℕ) (seen : List DistanceEstimate) (acc : FusedIntervalAccumulator)
    (is : IsReservoir limit seen acc) (all : All IsRow seen) (row : DistanceEstimate)
    (row_is : IsRow row) (apart : Apart rank row seen) where
  abbrev pub next : List DistanceEstimate
  next = seen ++ (row ∷ [])

  -- The first rows after one more hang on the first rows before.
  best_next :
      (xs : List DistanceEstimate)
      → take limit (sort rank xs) ≡ take limit (sort rank seen)
      → take limit (insert rank row (sort rank xs)) ≡ take limit (sort rank next)
  best_next xs e =
      take-insert rank limit row (sort rank xs)
      ∙ ap (λ (zs : List DistanceEstimate). take limit (insert rank row zs)) e
      ∙ sym (take-insert rank limit row (sort rank seen))
      ∙ ap (λ (zs : List DistanceEstimate). take limit zs) (sym (sort-snoc rank seen row apart))

  abbrev pub appended : FusedIntervalAccumulator
  appended = record acc {
    reservoir_size = acc.reservoir_size + 1;
    planes = store_row acc.planes acc.reservoir_size row;
  }

  pub appended-IsReservoir : IsReservoir limit next appended
  appended-IsReservoir =
      let grown : rows_of appended ≡ rows_of acc ++ (row ∷ []) =
        rows-store_row acc.planes acc.reservoir_size row in
      let away = Apart-from limit seen acc is row apart in
      record {
        limited = is.limited;
        capacity = is.capacity;
        best =
            ap (λ (xs : List DistanceEstimate). take limit (sort rank xs)) grown
            ∙ ap (λ (xs : List DistanceEstimate). take limit xs)
                (sort-snoc rank (rows_of acc) row away)
            ∙ best_next (rows_of acc) is.best;
        all_kept =
            λ e. grown ∙ ap (λ (xs : List DistanceEstimate). xs ++ (row ∷ [])) (is.all_kept e);
        from = λ P p.
            let (q, r) = All-unappend P seen (row ∷ []) p in
            subst (λ (xs : List DistanceEstimate). All P xs) (sym grown)
              (All-append P (rows_of acc) (row ∷ []) (is.from P q) r);
        distinct =
            subst (λ (xs : List DistanceEstimate). Distinct rank xs) (sym grown)
              (Distinct-snoc (rows_of acc) row is.distinct away);
        admission = λ e.
            let (pos, number, narrow, enough) = is.admission e in
            let test : DistanceEstimate → Bool = λ r. leb (rank r) (admission_rank acc) in
            (
              pos,
              number,
              narrow,
              subst (λ (xs : List DistanceEstimate). limit ≤ tally test xs) (sym grown)
                  (omega (arith, enough, tally-append test (rows_of acc) (row ∷ []))),
            );
      }

  -- A row that is not admitted is not below the rank.
  rejected_rank :
      admit acc row.estimated_distance row.id ≡ false
      → (acc.has_admission_threshold ≡ true) × (admission_rank acc ≤ rank row)
  unfolding admit rank_key
  rejected_rank t =
      let has : acc.has_admission_threshold ≡ true = ground arith in
      let (pos, number, narrow, enough) = is.admission has in
      let l =
        less-ordered_float_key row.estimated_distance acc.admission_threshold_estimate row_is.0
          number in
      let e =
        equal-ordered_float_key row.estimated_distance acc.admission_threshold_estimate row_is.0
          number in
      let below : ltb (ordered_float_key row.estimated_distance)
            (ordered_float_key acc.admission_threshold_estimate)
          ≡ false =
        ground arith in
      let ties : (ordered_float_key row.estimated_distance
              == ordered_float_key acc.admission_threshold_estimate
            && ltb row.id acc.admission_threshold_id)
          ≡ false =
        ground arith in
      (
        has,
        not_below (ordered_float_key row.estimated_distance)
            (ordered_float_key acc.admission_threshold_estimate) row.id acc.admission_threshold_id
            narrow below ties,
      )

  pub rejected-IsReservoir :
      admit acc row.estimated_distance row.id ≡ false → IsReservoir limit next acc
  rejected-IsReservoir t =
      let (has, beyond) = rejected_rank t in
      let (pos, number, narrow, enough) = is.admission has in
      let test : DistanceEstimate → Bool = λ r. leb (rank r) (admission_rank acc) in
      record {
        limited = is.limited;
        capacity = is.capacity;
        best =
            sym (
              take-insert_rejected rank limit (admission_rank acc) row (sort rank (rows_of acc))
                (sort-Sorted rank (rows_of acc))
                (omega (arith, enough, tally-sort_by (by_key rank) test (rows_of acc))) beyond)
            ∙ best_next (rows_of acc) is.best;
        all_kept = λ e. absurd (omega arith);
        from = λ P p. is.from P (All-unappend P seen (row ∷ []) p).0;
        distinct = is.distinct;
        admission = is.admission;
      }
