-- ===== src/Refine/Refiner/Whole.antt =====
-- `refine`: the nearest candidates by their exact distance, or an error with a reason.
use recast.Prelude.{
  ℕ, zero, suc, ◌+◌, ◌≤◌, ◌<◌, ◌≡◌, refl, sym, ap, subst, ◌∙◌, ◌⊎◌, inl, inr, Bool, true, not, ◌||◌,
  List, [], ◌∷◌, map, length, All, All-inside, All-mono, All-zip, All-Any, Any, Chain, tally,
  numbers, Result, ok, err, Error, arith, ltb, leb, leb→le, ◌==◌, Bool-cases, if◌then◌else◌,
}
use recast.Checked.{uint32_max}
use recast.Floats.{is_finite, less}
use recast.Storage.{File}
use recast.Records.{ListFileRecordStore}
use recast.Records.Layout.{IsValid}
use recast.Refine.{ListCandidate, ReadPlan, build_read_plans, distinct_lists}
use recast.Refine.Builder.{IsPlan, Apart}
use recast.Refine.Plans.{candidate_at, IsReadPlans, TooFar, build_read_plans-cases}
use recast.Refine.TopK.{Neighbor, finish_topk}
use recast.Refine.TopK.Heap.{key}
use recast.Refine.TopK.Unique.{IsTopK-unique}
use recast.Refine.TopK.Selected.{IsTopK, finish_topk-IsTopK, IsTopK-same}
use recast.Refine.Kernel.{
  Kernel, IsFault, pure, fresh_fd, acquire_context, reset_context, has_capacity, call, fails,
  first_response,
}
use recast.Refine.Scan.Calls.{
  Ends, bind_rule, throw_rule, ends_cases, Frame, Ends-mono, later-Any, fails-Any,
}
use recast.Refine.Scan.Processed.{Scene, neighbor_of, exact, IsChosen}
use recast.Refine.Refiner.{ListFileRefineOptions, check_lists, new_refiner, refine_batches, refine}
use recast.Refine.Refiner.Opening.{Failed}
use recast.Refine.Refiner.Splitting.{Sorted, distinct_lists-Increasing, distinct_lists-All}
use recast.Refine.Refiner.Batches.{Scanned}
use recast.Refine.Refiner.Loop.{refine_batches_rule}

module _ (store : ListFileRecordStore) (topk dimension : ℕ) (distance : (ℕ → ℕ) → ℕ)
    (has_query has_function : Bool) (candidates : List ListCandidate) (k : Kernel) where
  -- The exact record of the candidate of a number.
  abbrev pub record_of : ℕ → Neighbor
  record_of i = neighbor_of store k.lists distance (candidate_at candidates i)

  -- Why a refinement throws.
  pub data Trouble : Type 0 where
    bad_request :
        (not has_query
            || dimension == 0
            || topk == 0
            || ltb (length candidates) topk
            || not has_function)
          ≡ true
        → Trouble
    unknown_list : Any (λ (c : ListCandidate). store.nlist ≤ c.list_no) candidates → Trouble
    too_far : TooFar store candidates → Trouble
    system_call : Any IsFault k.responses → Trouble
    no_distance :
        (i : ℕ)
        → i < length candidates
        → (not (is_finite (record_of i).distance) || less (record_of i).distance 0) ≡ true
        → Trouble
    short_file :
        (plans : List ReadPlan)
        → build_read_plans store candidates ≡ ok plans
        → Any
            (λ (p : ReadPlan). (k.lists p.list_no).size < p.aligned_offset + p.request_bytes)
            plans
        → Trouble

check_lists-cases :
    (nlist : ℕ) (candidates : List ListCandidate)
    → ((check_lists nlist candidates ≡ ok tt)
        × All (λ (c : ListCandidate). c.list_no < nlist) candidates)
      ⊎ ((e : Error) × (check_lists nlist candidates ≡ err e)
          × Any (λ (c : ListCandidate). nlist ≤ c.list_no) candidates)
unfolding check_lists
check_lists-cases nlist [] = inl (refl, tt)
check_lists-cases nlist (c ∷ candidates) = elim (Bool-cases (leb nlist c.list_no)) [
  | inl t ↦ rw t (inr (_, refl, inl (leb→le _ _ t)))
  | inr t ↦ rw t (elim (check_lists-cases nlist candidates) [
    | inl (e, all) ↦ inl (e, (ground arith, all))
    | inr (x, e, any) ↦ inr (x, e, inr any)
  ])
]

Apart-Sorted : (plans : List ReadPlan) → Chain Apart plans → Sorted plans
Apart-Sorted [] c = tt
Apart-Sorted (p ∷ []) c = tt
Apart-Sorted (p ∷ q ∷ plans) (apart, c) =
    (elim apart [ inl lt ↦ omega arith | inr (e, far) ↦ omega arith ], Apart-Sorted (q ∷ plans) c)

-- The records by the numbers of the candidates are those of the candidates.
tally-numbers :
    (test : Neighbor → Bool) (f : ListCandidate → Neighbor) (all candidates : List ListCandidate)
    (first : ℕ)
    → ((j : ℕ) → j < length candidates → candidate_at all (first + j) ≡ candidate_at candidates j)
    → tally (λ i. test (f (candidate_at all i))) (numbers first (length candidates))
      ≡ tally test (map f candidates)
tally-numbers test f all [] first h = refl
tally-numbers test f all (c ∷ candidates) first h =
    let z : first + 0 ≡ first = omega arith in
    let e : candidate_at all first ≡ c = ap (candidate_at all) (sym z) ∙ h 0 (omega arith) in
    let rest = tally-numbers test f all candidates (first + 1) (λ j lt.
      let s : first + 1 + j ≡ first + suc j = omega arith in
      ap (candidate_at all) s ∙ h (suc j) (omega arith)) in
    rw e (omega (arith, rest))

zero_plus : (m : ℕ) → 0 + m ≡ m
zero_plus m = omega arith

-- The files are as before, and the same descriptors are open.
abbrev pub Unchanged : Kernel → Kernel → Type 0
Unchanged k k' = (k'.lists ≡ k.lists) × (k'.descriptors ≡ k.descriptors)

module _ (store : ListFileRecordStore) (valid : IsValid store) (topk dimension depth n : ℕ)
    (deep : 0 < depth) (distance : (ℕ → ℕ) → ℕ)
    (local : (p q : ℕ → ℕ)
      → ((i : ℕ) → i < store.payload_bytes → p i ≡ q i)
      → distance p ≡ distance q)
    (has_query has_function : Bool) (candidates : List ListCandidate) (k : Kernel)
    (bytes_fit : (l i : ℕ) → (k.lists l).bytes i < 256) (idle : k.inflight ≡ [])
    (small : All (λ (c : ListCandidate). c.offset ≤ uint32_max) candidates) where
  abbrev Reason : Type 0
  Reason = Trouble store topk dimension distance has_query has_function candidates k

  abbrev scene : Scene
  scene = record {
    store = store;
    valid = valid;
    at = candidate_at candidates;
    count = length candidates;
    lists = k.lists;
    bytes_fit = bytes_fit;
    distance = distance;
    local = local;
  }

  abbrev Lost : Kernel → Type 0
  Lost k' = Unchanged k k' × Reason

  abbrev Found : List Neighbor → Kernel → Type 0
  Found output k' =
      Unchanged k k' × IsTopK topk (map (neighbor_of store k.lists distance) candidates) output

  acquire_rule :
      Ends
        ((if ltb 1 depth then acquire_context depth else pure tt) k)
        (λ _ k'. Frame Reason k.lists k.descriptors [] k')
        Lost
  unfolding acquire_context reset_context call
  acquire_rule =
      let before : Frame Reason k.lists k.descriptors [] k = record {
        same_lists = refl;
        same_descriptors = refl;
        same_inflight = idle;
        fault = λ any. system_call any;
      } in
      elim (Bool-cases (ltb 1 depth)) [
        | inr t ↦ rw t before
        | inl t ↦ rw t (elim (Bool-cases (has_capacity k.context depth)) [
          | inl u ↦ rw u before
          | inr u ↦ rw u (elim (Bool-cases (fails (first_response k.responses))) [
            | inl v ↦ rw v ((refl, refl), system_call (fails-Any k.responses v))
            | inr v ↦ rw v (record {
              same_lists = refl;
              same_descriptors = refl;
              same_inflight = refl;
              fault = λ any. system_call (later-Any k.responses any);
            })
          ])
        ])
      ]

  -- The loop and the result.
  read_all :
      (plans : List ReadPlan) (k' : Kernel)
      → build_read_plans store candidates ≡ ok plans
      → IsReadPlans store candidates plans
      → All (λ (c : ListCandidate). c.list_no < store.nlist) candidates
      → Frame Reason k.lists k.descriptors [] k'
      → Ends
          (refine_batches store
            (record { queue_depth = depth; max_open_files = suc n })
            topk
            distance
            (length (distinct_lists plans))
            (distinct_lists plans)
            plans
            []
            k')
          (λ heap k2. Found (finish_topk heap) k2)
          Lost
  read_all plans k' made is_plans known frame =
      let sorted = Apart-Sorted plans is_plans.apart in
      let (increasing, has) = distinct_lists-Increasing plans sorted in
      let nobody : IsChosen scene topk [] (λ test. 0) = record {
        seen = [];
        rest = [];
        selected = record {
          heap_is = (tt, tt);
          same = λ test. omega arith;
          size = omega arith;
          full = inl refl;
          bound = tt;
        };
        same = λ test. refl;
      } in
      Ends-mono
        (refine_batches store (record { queue_depth = depth; max_open_files = suc n }) topk distance
          (length (distinct_lists plans)) (distinct_lists plans) plans [] k')
        (Scanned scene Reason (record { queue_depth = depth; max_open_files = suc n }) topk deep
          (λ (i, lt, bad). no_distance i lt bad) k.descriptors (λ test. 0) plans)
        (λ heap k2. Found (finish_topk heap) k2)
        (Failed store Reason k.lists k.descriptors (fresh_fd k.descriptors)) Lost
        (refine_batches_rule scene Reason topk depth n deep (λ (i, lt, bad). no_distance i lt bad)
          k.descriptors (length (distinct_lists plans)) (distinct_lists plans) plans [] (λ test. 0)
          k' (omega arith) increasing
          (distinct_lists-All (λ l. l < store.nlist) plans
            (All-mono plans
              (λ p is_plan.
                let (i, lt, e) = is_plan.read.list_known in
                subst (λ l. l < store.nlist) e
                  (All-inside (λ (c : ListCandidate). c.list_no < store.nlist) candidates i _ known
                    lt))
              is_plans.reads))
          has sorted
          (All-zip (IsPlan store (candidate_at candidates) (length candidates))
            (λ (p : ReadPlan).
              (k.lists p.list_no).size < p.aligned_offset + p.request_bytes → Reason)
            plans is_plans.reads
            (All-mono plans (λ p any short. short_file plans made (any short))
              (All-Any
                (λ (p : ReadPlan). (k.lists p.list_no).size < p.aligned_offset + p.request_bytes)
                plans)))
          frame nobody)
        (λ heap k2 (frame2, c). (
          (frame2.same_lists, frame2.same_descriptors),
          IsTopK-same topk c.seen (map (neighbor_of store k.lists distance) candidates)
              (finish_topk heap)
              (λ test. omega (
                arith,
                c.same test,
                is_plans.once (λ i. test (exact scene i)),
                tally-numbers test (neighbor_of store k.lists distance) candidates candidates 0
                    (λ j lt. ap (candidate_at candidates) (zero_plus j)),
              ))
              (finish_topk-IsTopK topk c.seen heap c.rest c.selected),
        ))
        (λ k2 failed. ((failed.same_lists, failed.descriptors_are), failed.reason))

  refine_rule :
      Ends
        (refine store
          (record { queue_depth = depth; max_open_files = suc n })
          topk
          distance
          has_query
          dimension
          candidates
          has_function
          k)
        Found
        Lost
  unfolding refine
  refine_rule =
      let options : ListFileRefineOptions = record {
        queue_depth = depth;
        max_open_files = suc n;
      } in
      throw_rule
        (not has_query
          || dimension == 0
          || topk == 0
          || ltb (length candidates) topk
          || not has_function)
        _ _ k Found Lost (λ t. ((refl, refl), bad_request t))
        (λ t. elim (check_lists-cases store.nlist candidates) [
          | inr (y, f, any) ↦ rw f ((refl, refl), unknown_list any)
          | inl (f, known) ↦ rw f (elim (build_read_plans-cases store candidates valid small) [
            | inr (made, far) ↦ rw made ((refl, refl), too_far far)
            | inl (plans, made, is_plans) ↦ rw made (
                bind_rule ((if ltb 1 depth then acquire_context depth else pure tt) k) _
                  (λ _ k'. Frame Reason k.lists k.descriptors [] k') Found Lost acquire_rule
                  (λ _ k' frame.
                    bind_rule
                      (refine_batches store options topk distance (length (distinct_lists plans))
                        (distinct_lists plans) plans [] k')
                      _ (λ heap k2. Found (finish_topk heap) k2) Found Lost
                      (read_all plans k' made is_plans known frame) (λ heap k2 found. found)))
          ])
        ])

accepted_bounds :
    (linux_aio : Bool) (options : ListFileRefineOptions)
    → new_refiner linux_aio options ≡ ok options
    → (0 < options.queue_depth) × (0 < options.max_open_files)
unfolding new_refiner
accepted_bounds linux_aio options e = ground arith

successor : (m : ℕ) → 0 < m → (n : ℕ) × (m ≡ suc n)
successor zero h = let no_such : ⊥ = omega arith in elim no_such [ ]
successor (suc n) h = (n, refl)

-- For a valid store, records of bytes below 256, offsets of 32 bits, options that the constructor
-- accepts, no request in flight and a distance that reads the payload only: a refinement returns the
-- `topk` nearest of the exact records of the candidates, in order, whatever the order in which the
-- reads complete, or it throws for one of the reasons; either way the files are as they were and no
-- other descriptor is open than before.
pub refine-cases :
    (store : ListFileRecordStore) (linux_aio : Bool) (options : ListFileRefineOptions)
    (topk dimension : ℕ) (distance : (ℕ → ℕ) → ℕ) (has_query has_function : Bool)
    (candidates : List ListCandidate) (k : Kernel)
    → IsValid store
    → new_refiner linux_aio options ≡ ok options
    → ((p q : ℕ → ℕ) → ((i : ℕ) → i < store.payload_bytes → p i ≡ q i) → distance p ≡ distance q)
    → ((l i : ℕ) → (k.lists l).bytes i < 256)
    → k.inflight ≡ []
    → All (λ (c : ListCandidate). c.offset ≤ uint32_max) candidates
    → Unchanged k
        (refine store options topk distance has_query dimension candidates has_function k).1
      × (((output : List Neighbor) × ((refine store options topk distance has_query dimension
                candidates has_function k).0
              ≡ ok output)
            × IsTopK topk (map (neighbor_of store k.lists distance) candidates) output)
          ⊎ ((e : Error) × ((refine store options topk distance has_query dimension candidates
                  has_function k).0
                ≡ err e)
              × Trouble store topk dimension distance has_query has_function candidates k))
refine-cases store linux_aio options topk dimension distance has_query has_function candidates k
      valid accepted local bytes_fit idle small =
    let Returned : List Neighbor → Kernel → Type 0 = λ output k'.
      Unchanged k k' × IsTopK topk (map (neighbor_of store k.lists distance) candidates) output in
    let Threw : Kernel → Type 0 = λ k'.
      Unchanged k k' × Trouble store topk dimension distance has_query has_function candidates k in
    let Ended : ListFileRefineOptions → Type 0 = λ o.
      Ends (refine store o topk distance has_query dimension candidates has_function k) Returned
        Threw in
    let (deep, room) = accepted_bounds linux_aio options accepted in
    let (n, e) = successor options.max_open_files room in
    let ended : Ended options =
      subst (λ (m : ℕ). Ended (record { queue_depth = options.queue_depth; max_open_files = m }))
        (sym e)
        (refine_rule store valid topk dimension options.queue_depth n deep distance local has_query
          has_function candidates k bytes_fit idle small) in
    elim (ends_cases
      (refine store options topk distance has_query dimension candidates has_function k) Returned
      Threw ended) [
        | inl (output, r, (same, top)) ↦ (same, inl (output, r, top))
        | inr (x, r, (same, trouble)) ↦ (same, inr (x, r, trouble))
      ]

abbrev value_or : Result (List Neighbor) → List Neighbor → List Neighbor
value_or (ok output) other = output
value_or (err e) other = other

-- The output of a refinement that returns has the property of the case in which it does.
returned :
    (P : List Neighbor → Type 0) (Q : Error → Type 0) (r : Result (List Neighbor))
    (output : List Neighbor)
    → ((o : List Neighbor) × (r ≡ ok o) × P o) ⊎ ((e : Error) × (r ≡ err e) × Q e)
    → r ≡ ok output
    → P output
returned P Q r output (inl (o, e, p)) f =
    subst P (ap (λ (t : Result (List Neighbor)). value_or t output) (sym e ∙ f)) p
returned P Q r output (inr (x, e, q)) f = let no_such : ⊥ = cc in elim no_such [ ]

-- Two refinements of the same candidates over the same files that both return, by blocking or by
-- asynchronous reads, with any options and any outcomes of the calls, return the same distances and
-- IDs in the same order, up to the sign of a zero distance.
pub refine-agree :
    (store : ListFileRecordStore) (linux_aio linux_aio' : Bool)
    (options options' : ListFileRefineOptions) (topk dimension : ℕ) (distance : (ℕ → ℕ) → ℕ)
    (candidates : List ListCandidate) (k k' : Kernel) (output output' : List Neighbor)
    → IsValid store
    → new_refiner linux_aio options ≡ ok options
    → new_refiner linux_aio' options' ≡ ok options'
    → ((p q : ℕ → ℕ) → ((i : ℕ) → i < store.payload_bytes → p i ≡ q i) → distance p ≡ distance q)
    → ((l i : ℕ) → (k.lists l).bytes i < 256)
    → k'.lists ≡ k.lists
    → k.inflight ≡ []
    → k'.inflight ≡ []
    → All (λ (c : ListCandidate). c.offset ≤ uint32_max) candidates
    → (refine store options topk distance true dimension candidates true k).0 ≡ ok output
    → (refine store options' topk distance true dimension candidates true k').0 ≡ ok output'
    → map key output ≡ map key output'
refine-agree store linux_aio linux_aio' options options' topk dimension distance candidates k k'
      output output' valid accepted accepted' local bytes_fit same idle idle' small e e' =
    let Top =
      λ (o : List Neighbor). IsTopK topk (map (neighbor_of store k.lists distance) candidates) o in
    let Top' =
      λ (o : List Neighbor). IsTopK topk (map (neighbor_of store k'.lists distance) candidates) o in
    let top : Top output =
      returned Top (λ x. Trouble store topk dimension distance true true candidates k) _ output
        (refine-cases store linux_aio options topk dimension distance true true candidates k valid
          accepted local bytes_fit idle small).1
        e in
    let top' : Top' output' =
      returned Top' (λ x. Trouble store topk dimension distance true true candidates k') _ output'
        (refine-cases store linux_aio' options' topk dimension distance true true candidates k'
          valid accepted' local
          (λ l i. subst (λ (f : ℕ → File). (f l).bytes i < 256) (sym same) (bytes_fit l i)) idle'
          small).1
        e' in
    IsTopK-unique topk (map (neighbor_of store k.lists distance) candidates)
      (map (neighbor_of store k'.lists distance) candidates) output output'
      (λ test.
        ap (λ (f : ℕ → File). tally test (map (neighbor_of store f distance) candidates))
          (sym same))
      top top'
