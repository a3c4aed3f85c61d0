-- ===== src/Grouping/Plan.antt =====
-- What the plan of a batch promises to the insertion and the deletion.
use recast.Prelude.{
  ℕ, zero, suc, ◌+◌, ◌-◌, ◌≤◌, ◌<◌, ◌≡◌, ◌∙◌, sym, refl, List, [], ◌∷◌, ok, err, invalid_argument,
  length, get_or, All, arith,
}
use native.Mathlib.Decide.{dec_lt}
use recast.Checked.{size_max}
use recast.Grouping.{ListBatchPlan, place, group_by_list}
use recast.Grouping.Counting.{
  count, count_below, take, touched_below, count_below-suc, count_below-zero, count_below-All,
  count_below_mono, count_lists-ok, count_lists-err, prefix-ok,
}
use recast.Grouping.Placing.{Apart, place-slot, nth_input, count-take-lt, count-take_mono}

-- The slots of a list follow those of the lists below it; each slot of a list holds one of its
-- inputs, each input stands in a slot of its list, and the inputs of a list keep their order.
pub record IsGrouping (rows : List ℕ) (nlist : ℕ) (plan : ListBatchPlan) : Type 0 where
  pub first : plan.offsets 0 ≡ 0
  pub last : plan.offsets nlist ≡ length rows
  pub width : (l : ℕ) → l < nlist → plan.offsets (suc l) ≡ plan.offsets l + count l rows
  pub slot :
      (l p : ℕ)
      → l < nlist
      → plan.offsets l ≤ p
      → p < plan.offsets (suc l)
      → (plan.order p < length rows) × (get_or rows (plan.order p) 0 ≡ l)
  pub reached :
      (j : ℕ)
      → j < length rows
      → (p : ℕ) × (plan.offsets (get_or rows j 0) ≤ p)
        × (p < plan.offsets (suc (get_or rows j 0)))
        × (plan.order p ≡ j)
  pub stable :
      (l p q : ℕ)
      → l < nlist
      → plan.offsets l ≤ p
      → p < q
      → q < plan.offsets (suc l)
      → plan.order p < plan.order q
  pub touched : plan.touched_lists ≡ touched_below nlist rows

All-get :
    (n : ℕ) (rows : List ℕ) (j : ℕ) → All (λ a. a < n) rows → j < length rows → get_or rows j 0 < n
All-get n [] j h lt = absurd (omega arith)
All-get n (a ∷ rows) zero h lt = h.0
All-get n (a ∷ rows) (suc j) h lt = All-get n rows j h.1 (omega arith)

module _ (rows : List ℕ) (nlist : ℕ) (offsets : ℕ → ℕ)
    (starts : (l : ℕ) → l ≤ nlist → offsets l ≡ count_below l rows)
    (valid : All (λ a. a < nlist) rows) where
  abbrev final : ℕ → ℕ
  final = place rows 0 offsets (λ _. 0)

  -- The slot of input `j`.
  abbrev rank : ℕ → ℕ
  rank j = offsets (get_or rows j 0) + count (get_or rows j 0) (take j rows)

  next_start : (l : ℕ) → l < nlist → offsets (suc l) ≡ offsets l + count l rows
  next_start l h = omega (arith, starts l, starts (suc l), count_below-suc l rows)

  starts-Apart : Apart nlist rows offsets
  starts-Apart k l lt hi =
      omega (arith, starts k, starts l, count_below-suc k rows, count_below_mono (suc k) l rows)

  final-rank : (j : ℕ) → j < length rows → final (rank j) ≡ j
  final-rank j h = place-slot nlist rows 0 offsets (λ _. 0) j valid starts-Apart h ∙ omega arith

  -- The input whose slot is `p`.
  ranked :
      (l p : ℕ)
      → l < nlist
      → offsets l ≤ p
      → p < offsets (suc l)
      → (j : ℕ) × (j < length rows) × (get_or rows j 0 ≡ l) × (p ≡ rank j) × (final p ≡ j)
  ranked l p hi lo lt =
      let (j, h, e, n) = nth_input l rows (p - offsets l) (omega (arith, next_start l hi)) in
      let at : p ≡ rank j = rw (e, n) (omega arith) in (j, h, e, at, rw at (final-rank j h))

  rank_mono :
      (i j : ℕ) → j < length rows → get_or rows i 0 ≡ get_or rows j 0 → i ≤ j → rank i ≤ rank j
  rank_mono i j h e le = elim (dec_lt i j) [
    | yes lt ↦ rw e (omega (arith, count-take_mono rows i j lt h e))
    | no ge ↦ let same : i ≡ j = omega arith in rw same (omega arith)
  ]

  grouped :
      (touched : List ℕ)
      → touched ≡ touched_below nlist rows
      → IsGrouping rows nlist (record { offsets = offsets; order = final; touched_lists = touched })
  grouped touched t = record {
    first = starts 0 (omega arith) ∙ count_below-zero rows;
    last = starts nlist (omega arith) ∙ count_below-All nlist rows valid;
    width = next_start;
    slot = λ l p hi lo lt. let (j, h, e, _, f) = ranked l p hi lo lt in (rw f h, rw f e);
    reached = λ j h.
        let inside = All-get nlist rows j valid h in
        (
          rank j,
          omega arith,
          omega (arith, next_start (get_or rows j 0) inside, count-take-lt rows j h),
          final-rank j h,
        );
    stable = λ l p q hi lo lt up.
        let (i, hi', e, at, f) = ranked l p hi lo (omega arith) in
        let (j, hj, e', at', f') = ranked l q hi (omega arith) up in
        let back = rank_mono j i hi' (e' ∙ sym e) in rw (f, f') (ground (arith, back));
    touched = t;
  }

-- A batch of at most 2^64 - 1 rows whose list numbers are all below `nlist` is grouped: the slots of
-- the lists follow one another from 0 to the number of rows, each list has as many slots as rows,
-- each slot of a list holds one of its inputs, each input stands in a slot of its list, the inputs
-- of a list keep their order, and the touched lists are those with a row, in increasing order.
pub group_by_list-IsGrouping :
    (rows : List ℕ) (nlist : ℕ)
    → length rows ≤ size_max
    → All (λ a. a < nlist) rows
    → (plan : ListBatchPlan) × (group_by_list rows nlist ≡ ok plan) × IsGrouping rows nlist plan
unfolding group_by_list
group_by_list-IsGrouping rows nlist small valid =
    let (counted, counts, z, s) = count_lists-ok nlist rows (λ _. 0) valid in
    let (offsets, prefixes, starts, _) =
      prefix-ok nlist rows counted small z (λ l. omega (arith, s l)) in
    (
      record {
        offsets = offsets;
        order = place rows 0 offsets (λ _. 0);
        touched_lists = touched_below nlist rows;
      },
      rw (counts, prefixes) refl,
      grouped rows nlist offsets starts valid (touched_below nlist rows) refl,
    )

-- A batch with a list number at or above `nlist`, at whatever position, is refused with
-- invalid_argument.
pub group_by_list-err :
    (rows : List ℕ) (nlist j : ℕ)
    → j < length rows
    → nlist ≤ get_or rows j 0
    → group_by_list rows nlist ≡ err invalid_argument
unfolding group_by_list
group_by_list-err rows nlist j h g = rw (count_lists-err nlist rows (λ _. 0) j h g) refl
