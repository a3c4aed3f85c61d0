-- ===== src/Refine/Refiner.antt =====
-- The class of adapters/list_file_aio_refiner.cpp: its constructor and `refine`. `linux_aio` is the
-- platform's answer; `has_query` and `has_function` say that the pointers are not null.
pub mod Files
pub mod Opening
pub mod Splitting
pub mod Batches
pub mod Loop
pub mod Whole
use recast.Prelude.{
  ℕ, zero, suc, ◌+◌, ◌≡◌, Bool, true, false, not, ◌&&◌, ◌||◌, List, [], ◌∷◌, Option, none, some,
  Result, ok, err, invalid_argument, out_of_range, logic_error, throw_if, ltb, leb, ◌==◌,
  if◌then◌else◌, length, take, drop,
}
use recast.Prelude
use recast.Records.{ListFileRecordStore}
use recast.Refine.{ListCandidate, ReadPlan, build_read_plans, distinct_lists}
use recast.Refine.TopK.{Neighbor, finish_topk}
use recast.Refine.Kernel.{
  Kernel, K, pure, lift, ◌>>=◌, ◌>>◌, try_catch, reset_context, acquire_context,
}
use recast.Refine.Scan.{OpenFile, close_all, closed, close_files, open_files, refine_blocking}
use recast.Refine.Aio.{refine_aio}

pub record ListFileRefineOptions : Type 0 where
  pub queue_depth : ℕ
  pub max_open_files : ℕ

unfoldable pub new_refiner : Bool → ListFileRefineOptions → Result ListFileRefineOptions
new_refiner linux_aio options =
    Prelude.◌>>◌
      (throw_if (options.queue_depth == 0 || ltb options.max_open_files options.queue_depth)
        invalid_argument)
      (Prelude.◌>>◌ (throw_if (not linux_aio && not (options.queue_depth == 1)) invalid_argument)
        (ok options))

-- The loop that checks the lists of the candidates.
unfoldable pub check_lists : ℕ → List ListCandidate → Result (Unit {0})
check_lists nlist [] = ok tt
check_lists nlist (candidate ∷ candidates) =
    Prelude.◌>>◌ (throw_if (leb nlist candidate.list_no) out_of_range)
      (check_lists nlist candidates)

-- The last of some lists.
unfoldable pub last_list : ℕ → List ℕ → ℕ
last_list list_no [] = list_no
last_list list_no (next ∷ lists) = last_list next lists

-- The plans up to the last list of a batch, and the others.
unfoldable pub split_plans : ℕ → List ReadPlan → List ReadPlan × List ReadPlan
split_plans last [] = ([], [])
split_plans last (plan ∷ plans) =
    let (mine, later) = split_plans last plans in
    if leb plan.list_no last then (plan ∷ mine, later) else ([], plan ∷ plans)

module _ (store : ListFileRecordStore) (options : ListFileRefineOptions) (topk : ℕ)
    (distance : (ℕ → ℕ) → ℕ) where
  -- The reset of the AIO context, if there is one.
  unfoldable pub abandon : Kernel → Kernel
  abandon k = if ltb 1 options.queue_depth then reset_context k else k

  unfoldable pub scan : List OpenFile → List ReadPlan → List Neighbor → K (List Neighbor)
  scan files plans heap =
      if options.queue_depth == 1
      then refine_blocking store topk distance files plans heap
      else refine_aio store topk distance files options.queue_depth plans heap

  -- The inner try block and its handler: the context goes before the files are closed.
  unfoldable pub refine_batch : List OpenFile → List ReadPlan → List Neighbor → K (List Neighbor)
  refine_batch files plans heap k =
      try_catch (scan files plans heap k)
        (λ heap k.
          try_catch (close_files files k) (λ done k. (ok heap, k))
            (λ e k. (err e, close_all (closed files) (abandon k))))
        (λ e k. (err e, close_all files (abandon k)))

  -- The loop over batches of lists, and its handler; each batch has one list at least.
  unfoldable pub refine_batches : ℕ → List ℕ → List ReadPlan → List Neighbor → K (List Neighbor)
  refine_batches fuel [] plans heap k = (ok heap, k)
  refine_batches zero (list_no ∷ lists) plans heap k = (err logic_error, k)
  refine_batches (suc fuel) (list_no ∷ lists) plans heap k =
      let batch = take options.max_open_files (list_no ∷ lists) in
      try_catch (open_files store batch k)
        (λ files k.
          let (mine, later) = split_plans (last_list list_no batch) plans in
          try_catch (refine_batch files mine heap k)
            (λ heap. refine_batches fuel (drop options.max_open_files (list_no ∷ lists)) later heap)
            (λ e k. (err e, k)))
        (λ e k. (err e, abandon k))

  unfoldable pub refine : Bool → ℕ → List ListCandidate → Bool → K (List Neighbor)
  refine has_query dimension candidates has_function =
      lift (
        throw_if
          (not has_query
            || dimension == 0
            || topk == 0
            || ltb (length candidates) topk
            || not has_function)
          invalid_argument)
      >> (lift (check_lists store.nlist candidates)
          >> (lift (build_read_plans store candidates) >>= λ plans.
              let lists = distinct_lists plans in
              (if ltb 1 options.queue_depth then acquire_context options.queue_depth else pure tt)
              >> (refine_batches (length lists) lists plans [] >>= λ heap.
                  pure (finish_topk heap))))
