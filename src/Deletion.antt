-- ===== src/Deletion.antt =====
-- The swap-with-last plan of one list: the first parallel stage of `erase_batch` in
-- adapters/external_list_ivf.cpp, with `RecordMove` of adapters/list_file_record_store.h.
-- `std::sort` of the pairs is an insertion sort by the pairs' order, which determines the result;
-- `std::binary_search` in the sorted offsets is membership.
pub mod Sorting
pub mod Balance
pub mod Survivors
pub mod Plan
use recast.Prelude.{
  ℕ, zero, suc, ◌+◌, ◌-◌, ◌%◌, ◌^◌, Bool, true, false, not, ◌&&◌, ◌||◌, List, [], ◌∷◌, map, Result,
  ok, invalid_argument, logic_error, throw_if, ◌>>=◌, ◌>>◌, ltb, ◌==◌, if◌then◌else◌, length, store,
}
use recast.Checked.{round_up}

pub record RecordMove : Type 0 where
  pub destination : ℕ
  pub source : ℕ

-- `PreparedDeletion` as this stage leaves it.
pub record PreparedDeletion : Type 0 where
  pub list_no : ℕ
  pub old_size : ℕ
  pub new_size : ℕ
  pub new_padded_size : ℕ
  pub deleted_ids : List ℕ
  pub deleted_offsets : List ℕ
  pub expected_deleted_ids : List ℕ
  pub holes : List ℕ
  pub sources : List ℕ
  pub record_moves : List RecordMove

-- `operator<` of std::pair<uint32_t, uint32_t>.
abbrev pub less_row : ℕ × ℕ → ℕ × ℕ → Bool
less_row r s = ltb r.0 s.0 || r.0 == s.0 && ltb r.1 s.1

unfoldable pub insert_row : ℕ × ℕ → List (ℕ × ℕ) → List (ℕ × ℕ)
insert_row r [] = r ∷ []
insert_row r (s ∷ rows) = if less_row s r then s ∷ insert_row r rows else r ∷ s ∷ rows

unfoldable pub sort_rows : List (ℕ × ℕ) → List (ℕ × ℕ)
sort_rows [] = []
sort_rows (r ∷ rows) = insert_row r (sort_rows rows)

-- Two neighbours with one offset.
unfoldable pub has_shared_slot : List (ℕ × ℕ) → Bool
has_shared_slot [] = false
has_shared_slot (r ∷ []) = false
has_shared_slot (r ∷ s ∷ rows) = r.0 == s.0 || has_shared_slot (s ∷ rows)

unfoldable pub contains : ℕ → List ℕ → Bool
contains x [] = false
contains x (y ∷ ys) = x == y || contains x ys

unfoldable pub holes_below : ℕ → List ℕ → List ℕ
holes_below new_size [] = []
holes_below new_size (offset ∷ offsets) =
    if ltb offset new_size
    then offset ∷ holes_below new_size offsets
    else holes_below new_size offsets

-- The descending loop over the last `n` slots, from `new_size + n - 1` on.
unfoldable pub sources_above : ℕ → List ℕ → ℕ → List ℕ
sources_above new_size deleted zero = []
sources_above new_size deleted (suc n) =
    if contains (new_size + n) deleted
    then sources_above new_size deleted n
    else (new_size + n) ∷ sources_above new_size deleted n

unfoldable pub pair_moves : List ℕ → List ℕ → List RecordMove
pair_moves (hole ∷ holes) (source ∷ sources) =
    record { destination = hole; source = source } ∷ pair_moves holes sources
pair_moves _ _ = []

-- `rows` are the offsets and Logical IDs of the list's share of the batch.
unfoldable pub plan_deletion : ℕ → ℕ → List (ℕ × ℕ) → Result PreparedDeletion
plan_deletion list_no logical_size rows = do
  throw_if (ltb logical_size (length rows)) invalid_argument
  let new_size = logical_size - length rows
  rounded ← round_up new_size 32
  let sorted = sort_rows rows
  throw_if (has_shared_slot sorted) invalid_argument
  let deleted_offsets = map (λ (r : ℕ × ℕ). r.0) sorted
  let holes = holes_below new_size deleted_offsets
  let sources = sources_above new_size deleted_offsets (logical_size - new_size)
  throw_if (not (length holes == length sources)) logic_error
  ok (record {
    list_no = list_no;
    old_size = logical_size;
    new_size = new_size;
    new_padded_size = rounded % 2 ^ 32;
    deleted_ids = map (λ (r : ℕ × ℕ). r.1) rows;
    deleted_offsets = deleted_offsets;
    expected_deleted_ids = map (λ (r : ℕ × ℕ). r.1) sorted;
    holes = holes;
    sources = sources;
    record_moves = pair_moves holes sources;
  })

-- What the moves leave in a slot, every source being read before the first write.
unfoldable pub move_records {ℓ} : {A : Type ℓ} → List RecordMove → (ℕ → A) → (ℕ → A) → ℕ → A
move_records [] snapshot slots = slots
move_records (m ∷ moves) snapshot slots =
    move_records moves snapshot (store slots m.destination (snapshot m.source))
