-- ===== src/Tests/Batches.antt =====
-- The plans of small batches.
use recast.Prelude.{ℕ, ◌≤◌, ◌≡◌, ◌⊎◌, List, [], ◌∷◌, ok, err, invalid_argument, arith}
use recast.Grouping.{ListBatchPlan, group_by_list}
use recast.Grouping.Counting.{count}
use recast.Grouping.Plan.{IsGrouping, group_by_list-IsGrouping, group_by_list-err}
use recast.Deletion.{PreparedDeletion, plan_deletion}
use recast.Deletion.Sorting.{offsets_of}
use recast.Deletion.Plan.{IsSwapPlan, plan_deletion-cases}

abbrev assignments : List ℕ
assignments = 2 ∷ 0 ∷ 2 ∷ 1 ∷ 0 ∷ []

group_by_list-IsGrouping_example :
    (plan : ListBatchPlan) × (group_by_list assignments 4 ≡ ok plan) × IsGrouping assignments 4 plan
group_by_list-IsGrouping_example =
    group_by_list-IsGrouping assignments 4 (omega arith) (omega arith)

group_by_list-err_example : group_by_list assignments 2 ≡ err invalid_argument
group_by_list-err_example = group_by_list-err assignments 2 2 (omega arith) (omega arith)

-- Slots 1 and 4 of six go; slot 5 fills the hole.
abbrev deleted_rows : List (ℕ × ℕ)
deleted_rows = (4, 70) ∷ (1, 71) ∷ []

plan_deletion-cases_example :
    (((x : ℕ) × (2 ≤ count x (offsets_of deleted_rows)))
      × (plan_deletion 3 6 deleted_rows ≡ err invalid_argument))
    ⊎ (((x : ℕ) → count x (offsets_of deleted_rows) ≤ 1)
        × ((plan : PreparedDeletion) × (plan_deletion 3 6 deleted_rows ≡ ok plan)
            × IsSwapPlan 6 (offsets_of deleted_rows) plan))
plan_deletion-cases_example = plan_deletion-cases 3 6 deleted_rows (omega arith) (omega arith)
