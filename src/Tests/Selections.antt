-- ===== src/Tests/Selections.antt =====
-- A scan of five rows in two blocks, with a limit of two.
use recast.Prelude.{
  zero, suc, numbers, ℕ, ◌+◌, ◌-◌, ◌<◌, ◌≤◌, ◌≡◌, refl, ◌⊎◌, inr, List, [], ◌∷◌, ok, err,
  invalid_argument, get_or, arith, length, All,
}
use recast.Selection.Collector.{SelectionResult, lane_id, rank_key, ordered_float_key}
use recast.Selection.Sorting.{Distinct}
use recast.Selection.Keys.{IsRow, IsNumber, rank}
use recast.Selection.{FuzzyRankThreshold, find_fuzzy_rank_threshold}
use recast.Selection.Threshold.{IsThreshold, find_fuzzy_rank_threshold-ok}
use recast.Selection.Scanned.{Block, scanned_rows, scanned_uppers}
use recast.Selection.Whole.{CanCollect, IsSelection, select, select-cases}

-- The floats 1, 2, 3, 4 and 5.
abbrev floats : List ℕ
floats = 1065353216 ∷ 1073741824 ∷ 1077936128 ∷ 1082130432 ∷ 1084227584 ∷ []

abbrev block : ℕ → ℕ → Block
block first count = record {
  ids = record { address = 0; cells = λ i. 0 };
  implicit_id_base = 10 + first;
  estimates = λ i. get_or floats (4 - (first + i)) 0;
  uncertainties = λ i. 0;
  uppers = λ i. get_or floats (4 - (first + i)) 0;
  count = count;
}

abbrev blocks : List Block
blocks = block 0 3 ∷ block 3 2 ∷ []

-- Every uncertainty is 0, so that no product or difference is taken.
abbrev no_float : ℕ → ℕ → ℕ
no_float a b = 0

can_collect : CanCollect 1 0 2
unfolding recast.Floats.is_finite recast.Floats.less
can_collect = record {
  some_asked = omega arith;
  finite = refl;
  not_negative = refl;
  enough = inr (omega arith);
  doubled = omega arith;
}

rows_ok : All IsRow (scanned_rows blocks)
unfolding lane_id
rows_ok = (
  ((omega arith, refl), omega arith),
  (
    ((omega arith, refl), omega arith),
    (
      ((omega arith, refl), omega arith),
      (((omega arith, refl), omega arith), (((omega arith, refl), omega arith), tt)),
    ),
  ),
)

uppers_ok : All IsNumber (scanned_uppers blocks)
uppers_ok = (
  (omega arith, refl),
  ((omega arith, refl), ((omega arith, refl), ((omega arith, refl), ((omega arith, refl), tt)))),
)

rows-Distinct : Distinct rank (scanned_rows blocks)
unfolding lane_id rank_key ordered_float_key recast.Floats.equal
rows-Distinct = (
  ((λ e. omega arith), ((λ e. omega arith), ((λ e. omega arith), ((λ e. omega arith), tt)))),
  (
    ((λ e. omega arith), ((λ e. omega arith), ((λ e. omega arith), tt))),
    (((λ e. omega arith), ((λ e. omega arith), tt)), (((λ e. omega arith), tt), (tt, tt))),
  ),
)

select-cases_example :
    ((length (scanned_rows blocks) < 1)
      × (select no_float no_float 1 0 2 blocks ≡ err invalid_argument))
    ⊎ ((1 ≤ length (scanned_rows blocks))
        × (result : SelectionResult) × (select no_float no_float 1 0 2 blocks ≡ ok result)
        × IsSelection no_float no_float 1 0 2 blocks result)
select-cases_example =
    select-cases no_float no_float 1 0 2 blocks can_collect rows_ok rows-Distinct uppers_ok

floats_ok : (i : ℕ) → i < 5 → IsNumber (get_or floats i 0)
floats_ok zero h = (omega arith, refl)
floats_ok (suc zero) h = (omega arith, refl)
floats_ok (suc (suc zero)) h = (omega arith, refl)
floats_ok (suc (suc (suc zero))) h = (omega arith, refl)
floats_ok (suc (suc (suc (suc zero)))) h = (omega arith, refl)
floats_ok (suc (suc (suc (suc (suc i))))) h = absurd (omega arith)

abbrev values : ℕ → ℕ
values i = get_or floats i 0

abbrev own_ids : ℕ → ℕ
own_ids i = i

values-Distinct : Distinct (λ i. rank_key (values i) (own_ids i)) (numbers 0 5)
unfolding rank_key ordered_float_key recast.Floats.equal
values-Distinct = (
  ((λ e. omega arith), ((λ e. omega arith), ((λ e. omega arith), ((λ e. omega arith), tt)))),
  (
    ((λ e. omega arith), ((λ e. omega arith), ((λ e. omega arith), tt))),
    (((λ e. omega arith), ((λ e. omega arith), tt)), (((λ e. omega arith), tt), (tt, tt))),
  ),
)

find_fuzzy_rank_threshold-ok_example :
    (t : FuzzyRankThreshold) × (find_fuzzy_rank_threshold
        (record { address = 4096; cells = values })
        (record { address = 8192; cells = own_ids })
        5
        2
        3
        64
        128
      ≡ ok t)
    × IsThreshold values 5 floats_ok own_ids 2 3 t
find_fuzzy_rank_threshold-ok_example =
    find_fuzzy_rank_threshold-ok values 5 floats_ok own_ids (λ i h. omega arith) values-Distinct 2 3
      4096 8192 64 128 (λ e. omega arith) (λ e. omega arith) (λ e. omega arith) (λ e. omega arith)
      (omega arith) (omega arith) (omega arith)
