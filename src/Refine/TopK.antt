-- ===== src/Refine/TopK.antt =====
-- The heap of the nearest vectors (`ExactPairWorseFirst`, `insert_exact` and `finish_topk` of
-- adapters/list_file_aio_refiner.cpp). The priority queue is a list with its top first.
pub mod Heap
pub mod Selected
pub mod Unique
use recast.Prelude.{
  ℕ, ◌≡◌, Bool, true, false, not, ◌||◌, List, [], ◌∷◌, ◌++◌, Result, ok, err, runtime_error,
  throw_if, ◌>>=◌, ◌>>◌, ltb, if◌then◌else◌, length,
}
use recast.Floats.{is_finite, less, equal}

pub record Neighbor : Type 0 where
  pub id : ℕ
  pub distance : ℕ

unfoldable pub exact_pair_worse_first : Neighbor → Neighbor → Bool
exact_pair_worse_first lhs rhs =
    if not (equal lhs.distance rhs.distance)
    then less lhs.distance rhs.distance
    else ltb lhs.id rhs.id

unfoldable pub push : Neighbor → List Neighbor → List Neighbor
push n [] = n ∷ []
push n (m ∷ heap) = if exact_pair_worse_first n m then m ∷ push n heap else n ∷ m ∷ heap

abbrev pub pop : List Neighbor → List Neighbor
pop [] = []
pop (n ∷ heap) = heap

unfoldable pub insert_exact : List Neighbor → ℕ → ℕ → ℕ → Result (List Neighbor)
insert_exact heap topk id distance =
    throw_if (not (is_finite distance) || less distance 0) runtime_error
    >> ok (
        let pushed = push (record { id = id; distance = distance }) heap in
        if ltb topk (length pushed) then pop pushed else pushed)

-- The tops in turn, in the opposite order.
unfoldable pub finish_topk : List Neighbor → List Neighbor
finish_topk [] = []
finish_topk (n ∷ heap) = finish_topk heap ++ (n ∷ [])
