-- ===== src/Selection/Threshold.antt =====
-- The rank threshold (`find_fuzzy_rank_threshold`) cuts off an exact number of rows.
use native.Mathlib.Nat.{mod-lt}
use recast.Prelude.{
  ℕ, zero, suc, ◌+◌, ◌-◌, ◌*◌, ◌/◌, ◌%◌, ◌^◌, ◌≤◌, ◌<◌, ◌≡◌, ◌≢◌, refl, sym, ap, ◌∙◌, ◌⊎◌, inl, inr,
  Bool, true, false, ◌&&◌, ◌||◌, not, none, some, List, [], ◌∷◌, ◌++◌, map, Result, ok, logic_error,
  if◌then◌else◌, ltb, leb, ◌==◌, numbers, length, tally, tally-map, length-map, All, All-zip,
  All-mono, All-append, All-inside, All-get_or, Bool-cases, get_or, arith, throw_if, ◌>>◌,
}
use recast.Floats.{less, equal, negative_infinity, infinity}
use recast.Selection.{
  FuzzyRankThreshold, RankSearch, fuzzy_median3, gather_sample, sample_fuzzy_threshold,
  count_fuzzy_threshold, search_threshold, partition_values, tied_ids, nth_element,
  find_fuzzy_rank_threshold,
}
use recast.Selection.Collector.{ordered_float_key, rank_key}
use recast.Selection.Sorting.{
  filter, Distinct, sort, sort-Sorted, sort_by-by_key, tally-sort_by, length-sort_by, All-sort_by,
  ranks, tally-Distinct, All-filter, length-filter, by_key,
}
use recast.Selection.Keys.{IsNumber, less-ordered_float_key, equal-ordered_float_key}
use recast.Selection.Counting.{
  All-numbers, All-map, tally-cong, tally_or, All-filter_of, tally_split, length-numbers,
  count_fuzzy_threshold-tally, tied_ids-map, tally-filter_both,
}

equal_excludes_less : (a b : ℕ) → equal a b ≡ true → less a b ≡ false
unfolding equal less
equal_excludes_less a b h = ground arith

-- The element that a partition puts at its place, by a key that the comparison follows.
pub nth_element-ranks :
    (before : ℕ → ℕ → Bool) (key : ℕ → ℕ) (P : ℕ → Type 0) (xs : List ℕ) (k : ℕ)
    → ((x y : ℕ) → P x → P y → before x y ≡ by_key key x y)
    → All P xs
    → k < length xs
    → P (nth_element before xs k)
      × (tally (λ x. ltb (key x) (key (nth_element before xs k))) xs ≤ k)
      × (k < tally (λ x. leb (key x) (key (nth_element before xs k))) xs)
unfolding nth_element
nth_element-ranks before key P xs k agrees all h =
    let e = sort_by-by_key before key P agrees xs all in
    let len = length-sort_by (by_key key) xs in
    let v = get_or (sort key xs) k 0 in
    let (below, upto) = ranks key (sort key xs) k 0 (sort-Sorted key xs) (omega (arith, len, h)) in
    rw e (
      All-inside P (sort key xs) k 0 (All-sort_by (by_key key) P xs all) (omega (arith, len, h)),
      omega (arith, below, tally-sort_by (by_key key) (λ x. ltb (key x) (key v)) xs),
      omega (arith, upto, tally-sort_by (by_key key) (λ x. leb (key x) (key v)) xs),
    )

fuzzy_median3-IsNumber :
    (a b c : ℕ) → IsNumber a → IsNumber b → IsNumber c → IsNumber (fuzzy_median3 a b c)
unfolding fuzzy_median3
fuzzy_median3-IsNumber a b c p q r = elim (Bool-cases (less b a)) [
  | inl e ↦ elim (Bool-cases (less a c)) [
    | inl f ↦ rw (e, f) p
    | inr f ↦ elim (Bool-cases (less b c)) [ inl g ↦ rw (e, f, g) r | inr g ↦ rw (e, f, g) q ]
  ]
  | inr e ↦ elim (Bool-cases (less b c)) [
    | inl f ↦ rw (e, f) q
    | inr f ↦ elim (Bool-cases (less a c)) [ inl g ↦ rw (e, f, g) r | inr g ↦ rw (e, f, g) p ]
  ]
]

module _ (values : ℕ → ℕ) (count : ℕ) (is_number : (i : ℕ) → i < count → IsNumber (values i)) where
  gather_sample-IsNumber :
      (lower upper i n : ℕ) (sample : List ℕ)
      → 0 < count
      → All IsNumber sample
      → All IsNumber (gather_sample values count lower upper i n sample)
  unfolding gather_sample
  gather_sample-IsNumber lower upper i zero sample pos all = all
  gather_sample-IsNumber lower upper i (suc n) sample pos all =
      let at = i * 6700417 % 2 ^ 64 % count in
      let here : IsNumber (values at) = is_number at (mod-lt (i * 6700417 % 2 ^ 64) pos) in
      let test = less lower (values at) && less (values at) upper in
      let next : List ℕ = if test then sample ++ (values at ∷ []) else sample in
      let all_next : All IsNumber next = elim (Bool-cases test) [
        | inl t ↦ rw t (All-append IsNumber sample (values at ∷ []) all (here, tt))
        | inr t ↦ rw t all
      ] in
      elim (Bool-cases (length next == 3)) [
        | inl t ↦ rw t all_next
        | inr t ↦ rw t (gather_sample-IsNumber lower upper (i + 1) n next pos all_next)
      ]

  sample_fuzzy_threshold-IsNumber :
      (lower upper : ℕ)
      → 0 < count
      → IsNumber lower
      → IsNumber (sample_fuzzy_threshold values count lower upper)
  unfolding sample_fuzzy_threshold
  sample_fuzzy_threshold-IsNumber lower upper pos p =
      let sample = gather_sample values count lower upper 0 count [] in
      let all = gather_sample-IsNumber lower upper 0 count [] pos tt in
      let zero_ok : IsNumber 0 = (omega arith, refl) in
      elim (Bool-cases (length sample == 3)) [
        | inl t ↦ rw t (
            fuzzy_median3-IsNumber (get_or sample 0 0) (get_or sample 1 0) (get_or sample 2 0)
              (All-get_or IsNumber sample 0 0 all zero_ok)
              (All-get_or IsNumber sample 1 0 all zero_ok)
              (All-get_or IsNumber sample 2 0 all zero_ok))
        | inr t ↦ elim (Bool-cases (length sample == 0)) [
          | inl u ↦ rw (t, u) p
          | inr u ↦ rw (t, u) (All-get_or IsNumber sample 0 0 all zero_ok)
        ]
      ]

  -- What a search that stops has found: a threshold and a rank in the range.
  record IsFound (q_min q_max : ℕ) (f : RankSearch) : Type 0 where
    number : IsNumber f.threshold
    below_is : f.below ≡ tally (λ i. less (values i) f.threshold) (numbers 0 count)
    ties_is : f.ties ≡ tally (λ i. equal (values i) f.threshold) (numbers 0 count)
    least : q_min ≤ f.output
    most : f.output ≤ q_max
    from : f.below ≤ f.output
    upto : f.output ≤ f.below + f.ties

  found :
      (q_min q_max threshold output : ℕ)
      → IsNumber threshold
      → q_min ≤ output
      → output ≤ q_max
      → (count_fuzzy_threshold values count threshold).0 ≤ output
      → output
        ≤ (count_fuzzy_threshold values count threshold).0
          + (count_fuzzy_threshold values count threshold).1
      → IsFound q_min q_max (record {
        threshold = threshold;
        below = (count_fuzzy_threshold values count threshold).0;
        ties = (count_fuzzy_threshold values count threshold).1;
        output = output;
      })
  found q_min q_max threshold output number least most from upto = record {
    number = number;
    below_is = (count_fuzzy_threshold-tally values count threshold).0;
    ties_is = (count_fuzzy_threshold-tally values count threshold).1;
    least = least;
    most = most;
    from = from;
    upto = upto;
  }

  search_threshold-cases :
      (q_min q_max rounds lower upper threshold : ℕ)
      → 0 < count
      → q_min ≤ q_max
      → IsNumber lower
      → IsNumber threshold
      → (search_threshold values count q_min q_max rounds lower upper threshold ≡ none)
        ⊎ ((f : RankSearch) × (search_threshold values count q_min q_max rounds lower upper
                threshold
              ≡ some f)
            × IsFound q_min q_max f)
  unfolding search_threshold
  search_threshold-cases q_min q_max zero lower upper threshold pos le p q = inl refl
  search_threshold-cases q_min q_max (suc rounds) lower upper threshold pos le p q =
      let below = (count_fuzzy_threshold values count threshold).0 in
      let ties = (count_fuzzy_threshold values count threshold).1 in
      let next_lower = if leb below q_min then threshold else lower in
      let next_upper = if leb below q_min then upper else threshold in
      let next = sample_fuzzy_threshold values count next_lower next_upper in
      let r : IsNumber next_lower = elim (Bool-cases (leb below q_min)) [
        | inl t ↦ rw t q
        | inr t ↦ rw t p
      ] in
      elim (Bool-cases (leb below q_min && leb q_min (below + ties))) [
        | inl t ↦ inr (
          record { threshold = threshold; below = below; ties = ties; output = q_min },
          rw t refl,
          found q_min q_max threshold q_min q (omega arith) le (ground arith) (ground arith),
        )
        | inr t ↦ elim (Bool-cases (not (leb below q_min) && leb below q_max)) [
          | inl u ↦ inr (
            record { threshold = threshold; below = below; ties = ties; output = below },
            rw (t, u) refl,
            found q_min q_max threshold below q (ground arith) (ground arith) (omega arith)
                (omega arith),
          )
          | inr u ↦ elim (Bool-cases (equal next next_lower)) [
            | inl v ↦ inl (rw (t, u, v) refl)
            | inr v ↦
                let later =
                  search_threshold-cases q_min q_max rounds next_lower next_upper next pos le r
                    (sample_fuzzy_threshold-IsNumber next_lower next_upper pos r) in
                rw (t, u, v) later
          ]
        ]
      ]

  -- The counts by the floats' comparisons are those by the keys.
  values-tally :
      (v : ℕ)
      → IsNumber v
      → (tally (λ i. less (values i) v) (numbers 0 count)
          ≡ tally
              (λ x. ltb (ordered_float_key x) (ordered_float_key v))
              (map values (numbers 0 count)))
        × (tally (λ i. equal (values i) v) (numbers 0 count)
            ≡ tally
                (λ x. ordered_float_key x == ordered_float_key v)
                (map values (numbers 0 count)))
  values-tally v number =
      let all = All-numbers (λ i. IsNumber (values i)) 0 count λ i p q. is_number i (omega arith) in
      (
        tally-cong (λ i. less (values i) v)
              (λ i. ltb (ordered_float_key (values i)) (ordered_float_key v)) (numbers 0 count)
              (All-mono (numbers 0 count) (λ i p. less-ordered_float_key (values i) v p number) all)
            ∙ sym (
                tally-map (λ x. ltb (ordered_float_key x) (ordered_float_key v)) values
                  (numbers 0 count)),
        tally-cong (λ i. equal (values i) v)
              (λ i. ordered_float_key (values i) == ordered_float_key v) (numbers 0 count)
              (All-mono (numbers 0 count) (λ i p. equal-ordered_float_key (values i) v p number)
                all)
            ∙ sym (
                tally-map (λ x. ordered_float_key x == ordered_float_key v) values
                  (numbers 0 count)),
      )

  partition_values-IsFound :
      (q_min q_max : ℕ)
      → 0 < q_min
      → q_min ≤ q_max
      → q_max < count
      → IsFound q_min q_max (partition_values values count q_min)
  unfolding partition_values
  partition_values-IsFound q_min q_max pos le room =
      let xs = map values (numbers 0 count) in
      let len : length xs ≡ count = length-map (numbers 0 count) values ∙ length-numbers 0 count in
      let v = nth_element less xs (q_min - 1) in
      let all : All IsNumber xs =
        All-map IsNumber values (numbers 0 count)
          (All-numbers (λ i. IsNumber (values i)) 0 count λ i p q. is_number i (omega arith)) in
      let (number, under, over) =
        nth_element-ranks less ordered_float_key IsNumber xs (q_min - 1) less-ordered_float_key all
          (omega (arith, len)) in
      let same = values-tally v number in
      let split = tally_split ordered_float_key (ordered_float_key v) xs in
      let (b, t) = count_fuzzy_threshold-tally values count v in
      found q_min q_max v q_min number (omega arith) le (omega (arith, b, same.0, under))
        (omega (arith, b, t, same.0, same.1, split, over, pos))

  -- The test by which the caller keeps a row.
  abbrev pub keeps : FuzzyRankThreshold → (ℕ → ℕ) → ℕ → Bool
  keeps t ids i =
      less (values i) t.estimate
      || ltb 0 t.equal_to_keep && equal (values i) t.estimate && leb (ids i) t.id

  -- A threshold that cuts off a number of rows in the range.
  pub record IsThreshold (ids : ℕ → ℕ) (q_min q_max : ℕ) (t : FuzzyRankThreshold) : Type 0 where
    pub number : IsNumber t.estimate
    pub id_bound : t.id < 4294967296
    pub least : q_min ≤ t.output_size
    pub most : t.output_size ≤ q_max
    pub exact : tally (keeps t ids) (numbers 0 count) ≡ t.output_size

  module _ (ids : ℕ → ℕ) (narrow : (i : ℕ) → i < count → ids i < 4294967296)
      (distinct : Distinct (λ i. rank_key (values i) (ids i)) (numbers 0 count)) where
    abbrev tied : ℕ → List ℕ
    tied threshold = map ids (filter (λ i. equal (values i) threshold) (numbers 0 count))

    tied_of :
        (threshold : ℕ) (number : IsNumber threshold) (xs : List ℕ)
        → All (λ i. IsNumber (values i)) xs
        → Distinct (λ i. rank_key (values i) (ids i)) xs
        → Distinct (λ (id : ℕ). id) (map ids (filter (λ i. equal (values i) threshold) xs))
    unfolding rank_key
    tied_of threshold number [] all d = tt
    tied_of threshold number (x ∷ xs) (p, all) (apart, d) =
        let later = tied_of threshold number xs all d in
        elim (Bool-cases (equal (values x) threshold)) [
          | inr t ↦ rw t later
          | inl t ↦
              let here = equal-ordered_float_key (values x) threshold p number in
              rw t (
                All-map (λ id. ids x ≢ id) ids (filter (λ i. equal (values i) threshold) xs)
                    (All-filter_of
                      (λ i.
                        (rank_key (values x) (ids x) ≢ rank_key (values i) (ids i))
                        × IsNumber (values i))
                      (λ i. ids x ≢ ids i) (λ i. equal (values i) threshold) xs
                      (λ i u (ne, q) e.
                        let there = equal-ordered_float_key (values i) threshold q number in
                        ne (ground arith))
                      (All-zip (λ i. rank_key (values x) (ids x) ≢ rank_key (values i) (ids i))
                        (λ i. IsNumber (values i)) xs apart all)),
                later,
              )
        ]

    tied_narrow : (threshold : ℕ) → All (λ id. id < 4294967296) (tied threshold)
    tied_narrow threshold =
        All-map (λ id. id < 4294967296) ids
          (filter (λ i. equal (values i) threshold) (numbers 0 count))
          (All-filter (λ i. ids i < 4294967296) (λ i. equal (values i) threshold) (numbers 0 count)
            (All-numbers (λ i. ids i < 4294967296) 0 count λ i p q. narrow i (omega arith)))

    tied-Distinct :
        (threshold : ℕ) → IsNumber threshold → Distinct (λ (id : ℕ). id) (tied threshold)
    tied-Distinct threshold number =
        tied_of threshold number (numbers 0 count)
          (All-numbers (λ i. IsNumber (values i)) 0 count λ i p q. is_number i (omega arith))
          distinct

    kept_none :
        (t : FuzzyRankThreshold)
        → t.equal_to_keep ≡ 0
        → tally (keeps t ids) (numbers 0 count)
          ≡ tally (λ i. less (values i) t.estimate) (numbers 0 count)
    kept_none t e =
        tally-cong (keeps t ids) (λ i. less (values i) t.estimate) (numbers 0 count)
          (All-numbers (λ i. keeps t ids i ≡ less (values i) t.estimate) 0 count
            λ i p q. let none_kept : ltb 0 t.equal_to_keep ≡ false = ground arith in ground arith)

    kept_some :
        (t : FuzzyRankThreshold)
        → 0 < t.equal_to_keep
        → tally (keeps t ids) (numbers 0 count)
          ≡ tally (λ i. less (values i) t.estimate) (numbers 0 count)
            + tally (λ id. leb id t.id) (tied t.estimate)
    kept_some t pos =
        let some_kept : ltb 0 t.equal_to_keep ≡ true = ground arith in
        tally-cong (keeps t ids)
          (λ i. less (values i) t.estimate || equal (values i) t.estimate && leb (ids i) t.id)
          (numbers 0 count)
          (All-numbers
            (λ i.
              keeps t ids i
              ≡ (less (values i) t.estimate || equal (values i) t.estimate && leb (ids i) t.id))
            0 count λ i p q. rw some_kept refl)
        ∙ tally_or (λ i. less (values i) t.estimate)
            (λ i. equal (values i) t.estimate && leb (ids i) t.id) (numbers 0 count)
            (λ i h. equal_excludes_less (values i) t.estimate (ground arith))
        ∙ ap (λ (k : ℕ). tally (λ i. less (values i) t.estimate) (numbers 0 count) + k)
            (sym (
              tally-map (λ id. leb id t.id) ids
                (filter (λ i. equal (values i) t.estimate) (numbers 0 count))
              ∙ tally-filter_both (λ i. leb (ids i) t.id) (λ i. equal (values i) t.estimate)
                  (numbers 0 count)))

    -- The steps after the search.
    abbrev finish_search : RankSearch → Result FuzzyRankThreshold
    finish_search f = do
      throw_if (ltb f.output f.below || ltb f.ties (f.output - f.below)) logic_error
      ok (record {
        estimate = f.threshold;
        id =
            if f.output - f.below == 0
            then 0
            else nth_element ltb (tied_ids values ids count f.threshold) (f.output - f.below - 1);
        output_size = f.output;
        equal_to_keep = f.output - f.below;
      })

    finish_search-ok :
        (q_min q_max : ℕ) (f : RankSearch)
        → IsFound q_min q_max f
        → (t : FuzzyRankThreshold) × (finish_search f ≡ ok t) × IsThreshold ids q_min q_max t
    finish_search-ok q_min q_max f is =
        let sane : (ltb f.output f.below || ltb f.ties (f.output - f.below)) ≡ false =
          let a = is.from in let b = is.upto in ground arith in
        elim (Bool-cases (f.output - f.below == 0)) [
          | inl z ↦
              let t : FuzzyRankThreshold = record {
                estimate = f.threshold;
                id = 0;
                output_size = f.output;
                equal_to_keep = f.output - f.below;
              } in
              (
                t,
                rw (sane, z) refl,
                record {
                  number = is.number;
                  id_bound = omega arith;
                  least = is.least;
                  most = is.most;
                  exact =
                      let none_left : f.output - f.below ≡ 0 = ground arith in
                      omega (arith, kept_none t none_left, is.below_is, is.from);
                },
              )
          | inr z ↦
              let keep = f.output - f.below in
              let some_left : 0 < keep = ground arith in
              let xs = tied f.threshold in
              let v = nth_element ltb xs (keep - 1) in
              let len : length xs ≡ f.ties =
                length-map (filter (λ i. equal (values i) f.threshold) (numbers 0 count)) ids
                ∙ length-filter (λ i. equal (values i) f.threshold) (numbers 0 count)
                ∙ sym is.ties_is in
              let (bound, under, over) =
                nth_element-ranks ltb (λ id. id) (λ id. id < 4294967296) xs (keep - 1)
                  (λ x y p q. refl) (tied_narrow f.threshold)
                  (omega (arith, len, is.upto, some_left)) in
              let once =
                tally-Distinct (λ (id : ℕ). id) xs v (tied-Distinct f.threshold is.number) in
              let t : FuzzyRankThreshold = record {
                estimate = f.threshold;
                id = v;
                output_size = f.output;
                equal_to_keep = keep;
              } in
              (
                t,
                rw (sane, z, tied_ids-map values ids count f.threshold) refl,
                record {
                  number = is.number;
                  id_bound = bound;
                  least = is.least;
                  most = is.most;
                  exact = omega (
                    arith,
                    kept_some t some_left,
                    is.below_is,
                    is.from,
                    under,
                    over,
                    once,
                    tally_split (λ (id : ℕ). id) v xs,
                    some_left,
                  );
                },
              )
        ]

    -- For values that are no NaN, IDs of 32 bits, different pairs of both, and a range from a positive
    -- `q_min` to a `q_max` below the count, with buffers that are not null, the search returns: it does
    -- not throw. Its threshold is no NaN, the size that it names is in the range, and exactly so many
    -- rows are below the threshold, or at it with an ID up to the one named when ties are kept.
    pub find_fuzzy_rank_threshold-ok :
        (q_min q_max address address' scratch scratch' : ℕ)
        → address ≢ 0
        → address' ≢ 0
        → scratch ≢ 0
        → scratch' ≢ 0
        → 0 < q_min
        → q_min ≤ q_max
        → q_max < count
        → (t : FuzzyRankThreshold) × (find_fuzzy_rank_threshold
              (record { address = address; cells = values })
              (record { address = address'; cells = ids })
              count
              q_min
              q_max
              scratch
              scratch'
            ≡ ok t)
          × IsThreshold ids q_min q_max t
    unfolding find_fuzzy_rank_threshold
    find_fuzzy_rank_threshold-ok q_min q_max address address' scratch scratch' a a' s s' pos le
          room =
        let first = fuzzy_median3 (values 0) (values (count / 2)) (values (count - 1)) in
        let number : IsNumber first =
          fuzzy_median3-IsNumber (values 0) (values (count / 2)) (values (count - 1))
            (is_number 0 (omega arith)) (is_number (count / 2) (omega arith))
            (is_number (count - 1) (omega arith)) in
        let exact = partition_values-IsFound q_min q_max pos le room in
        let last = finish_search-ok q_min q_max (partition_values values count q_min) exact in
        let test : (address == 0
              || address' == 0
              || scratch == 0
              || scratch' == 0
              || q_min == 0
              || ltb q_max q_min
              || leb count q_max)
            ≡ false =
          ground arith in
        elim (Bool-cases (leb 3 count)) [
          | inr small ↦ rw (test, small) last
          | inl large ↦
              elim (search_threshold-cases q_min q_max 200 negative_infinity infinity first
                (omega arith) le (omega arith, refl) number) [
                  | inl e ↦ rw (test, large, e) last
                  | inr (f, e, is) ↦ rw (test, large, e) (finish_search-ok q_min q_max f is)
                ]
        ]
