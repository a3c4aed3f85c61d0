-- ===== src/Grouping.antt =====
-- The grouping of a batch by IVF list: `ListBatchPlan` and `group_by_list` of
-- adapters/external_list_ivf.cpp. A vector of fixed length is its contents by index.
pub mod Counting
pub mod Placing
pub mod Plan
use recast.Prelude.{
  ℕ, ◌+◌, ◌≡◌, Bool, not, List, [], ◌∷◌, ◌++◌, Result, ok, invalid_argument, throw_if, ◌>>=◌, ◌>>◌,
  leb, ◌==◌, if◌then◌else◌, store, try_iterate, length,
}
use recast.Checked.{checked_add}

pub record ListBatchPlan : Type 0 where
  pub offsets : ℕ → ℕ
  pub order : ℕ → ℕ
  pub touched_lists : List ℕ

-- The first loop: the rows of list `l` are counted at `l + 1`.
unfoldable pub count_lists : ℕ → List ℕ → (ℕ → ℕ) → Result (ℕ → ℕ)
count_lists nlist [] offsets = ok offsets
count_lists nlist (list_no ∷ assignments) offsets =
    throw_if (leb nlist list_no) invalid_argument
    >> count_lists nlist assignments (store offsets (list_no + 1) (offsets (list_no + 1) + 1))

-- The body of the second loop.
unfoldable pub add_prefix : ℕ → (ℕ → ℕ) × List ℕ → Result ((ℕ → ℕ) × List ℕ)
add_prefix list_no (offsets, touched_lists) = do
  sum ← checked_add (offsets list_no) (offsets (list_no + 1))
  ok (
    store offsets (list_no + 1) sum,
    if not (offsets list_no == sum) then touched_lists ++ list_no ∷ [] else touched_lists,
  )

-- The last loop, from the input `input` on.
unfoldable pub place : List ℕ → ℕ → (ℕ → ℕ) → (ℕ → ℕ) → ℕ → ℕ
place [] input cursors order = order
place (list_no ∷ assignments) input cursors order =
    place assignments (input + 1) (store cursors list_no (cursors list_no + 1))
      (store order (cursors list_no) input)

unfoldable pub group_by_list : List ℕ → ℕ → Result ListBatchPlan
group_by_list assignments nlist = do
  counted ← count_lists nlist assignments (λ _. 0)
  (offsets, touched_lists) ← try_iterate nlist add_prefix (counted, [])
  ok (record {
    offsets = offsets;
    order = place assignments 0 offsets (λ _. 0);
    touched_lists = touched_lists;
  })
