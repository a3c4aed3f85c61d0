-- ===== src/Refine/Refiner/Loop.antt =====
-- The loop over the batches of lists.
use recast.Prelude.{
  ℕ, zero, suc, ◌+◌, ◌≤◌, ◌<◌, ◌≡◌, sym, ap, subst, ◌∙◌, Bool, List, [], ◌∷◌, length, length-drop,
  All, All-mono, All-take, All-drop, All-zip, Any, take, drop, err, arith,
}
use recast.Deletion.Sorting.{Increasing}
use recast.Refine.{CandidateInRequest, ReadPlan}
use recast.Refine.Builder.{IsPlan, items}
use recast.Refine.TopK.{Neighbor}
use recast.Refine.Kernel.{Kernel, try_catch, fresh_fd}
use recast.Refine.Scan.{OpenFile, open_files}
use recast.Refine.Scan.Calls.{Ends, Ends-mono, catch_rule, Frame}
use recast.Refine.Scan.Processed.{Scene, exact, Invalid, IsChosen, tally_items}
use recast.Refine.Aio.Steps.{Ready}
use recast.Refine.Refiner.{
  ListFileRefineOptions, last_list, split_plans, abandon, refine_batch, refine_batches,
}
use recast.Refine.Refiner.Files.{entries, fresh_fd-Below}
use recast.Refine.Refiner.Opening.{Opened, Failed, lists_of, open_each-Opened, files-HasFile}
use recast.Refine.Refiner.Splitting.{
  Sorted, HasList, split_plans-IsSplit, split_plans-All, take-Increasing, drop-Increasing,
  mine_lists, later_lists,
}
use recast.Refine.Refiner.Batches.{Scanned, abandon_same, refine_batch_rule}

plus_zero : (m : ℕ) → m + 0 ≡ m
plus_zero m = omega arith

module _ (scene : Scene) (F : Type 0) (topk depth n : ℕ) (deep : 0 < depth)
    (invalid : Invalid scene → F) (descriptors : List (ℕ × ℕ)) where
  -- One file at least may be open.
  abbrev pub options : ListFileRefineOptions
  options = record { queue_depth = depth; max_open_files = suc n }

  -- A plan that can be read when its file is open, or there is a reason why not.
  abbrev pub Readable : ReadPlan → Type 0
  Readable plan =
      IsPlan scene.store scene.at scene.count plan
      × ((scene.lists plan.list_no).size < plan.aligned_offset + plan.request_bytes → F)

  -- The plans of a batch, with its files open.
  batch-Ready :
      (lists : List ℕ) (files : List OpenFile) (k : Kernel) (mine : List ReadPlan)
      → Increasing lists
      → Opened scene.store F scene.lists descriptors (fresh_fd descriptors) files k
      → lists_of files ≡ lists
      → All Readable mine
      → All (HasList lists) mine
      → All (Ready scene F (entries files descriptors) topk files) mine
  batch-Ready lists files k mine increasing opened same readable has =
      All-mono mine
        (λ p ((is_plan, short), any). record {
          is_plan = is_plan;
          file =
              files-HasFile (fresh_fd descriptors) p.list_no files descriptors opened.numbered
                (subst Increasing (sym same) increasing)
                (subst (λ (ls : List ℕ). Any (λ l. l ≡ p.list_no) ls) (sym same) any);
          short = short;
        })
        (All-zip Readable (HasList lists) mine readable has)

  pub refine_batches_rule :
      (fuel : ℕ) (lists : List ℕ) (plans : List ReadPlan) (heap : List Neighbor)
      (amount : (Neighbor → Bool) → ℕ) (k : Kernel)
      → length lists ≤ fuel
      → Increasing lists
      → All (λ l. l < scene.store.nlist) lists
      → All (HasList lists) plans
      → Sorted plans
      → All Readable plans
      → Frame F scene.lists descriptors [] k
      → IsChosen scene topk heap amount
      → Ends
          (refine_batches scene.store options topk scene.distance fuel lists plans heap k)
          (Scanned scene F options topk deep invalid descriptors amount plans)
          (Failed scene.store F scene.lists descriptors (fresh_fd descriptors))
  unfolding refine_batches open_files last_list
  refine_batches_rule fuel [] [] heap amount k le increasing known has sorted readable frame
        chosen =
      (
        frame,
        record {
          seen = chosen.seen;
          rest = chosen.rest;
          selected = chosen.selected;
          same = λ test. omega (arith, chosen.same test);
        },
      )
  refine_batches_rule fuel [] (p ∷ plans) heap amount k le increasing known has sorted readable
        frame chosen =
      elim has.0 [ ]
  refine_batches_rule zero (l ∷ lists) plans heap amount k le increasing known has sorted readable
        frame chosen =
      let no_such : ⊥ = omega arith in elim no_such [ ]
  refine_batches_rule (suc fuel) (l ∷ lists) plans heap amount k le increasing known has sorted
        readable frame chosen =
      let first = fresh_fd descriptors in
      let batch : List ℕ = l ∷ take n lists in
      let later_all : List ℕ = drop n lists in
      let last = last_list l (take n lists) in
      let split = split_plans-IsSplit last plans sorted in
      let mine = (split_plans last plans).0 in
      let later = (split_plans last plans).1 in
      let (mine_readable, later_readable) = split_plans-All Readable last plans readable in
      let (mine_has, later_has) = split_plans-All (HasList (l ∷ lists)) last plans has in
      let Goal : List Neighbor → Kernel → Type 0 =
        Scanned scene F options topk deep invalid descriptors amount plans in
      let Lost : Kernel → Type 0 = Failed scene.store F scene.lists descriptors first in
      let Batch : List OpenFile → Kernel → Type 0 = λ files k'.
        Opened scene.store F scene.lists descriptors first files k' × (lists_of files ≡ batch) in
      catch_rule (open_files scene.store batch k)
        (λ files k'.
          try_catch (refine_batch scene.store options topk scene.distance files mine heap k')
            (λ heap'.
              refine_batches scene.store options topk scene.distance fuel later_all later heap')
            (λ e k2. (err e, k2)))
        (λ e k'. (err e, abandon scene.store options topk scene.distance k')) Batch Lost Goal Lost
        (open_each-Opened scene.store F scene.lists descriptors first batch [] k
          (All-take (λ x. x < scene.store.nlist) (suc n) (l ∷ lists) known)
          (fresh_fd-Below descriptors)
          (record {
            same_lists = frame.same_lists;
            descriptors_are = frame.same_descriptors;
            next = ap fresh_fd frame.same_descriptors ∙ sym (plus_zero first);
            none_inflight = frame.same_inflight;
            fault = frame.fault;
            numbered = tt;
          }))
        (λ files k' (opened, same).
          catch_rule (refine_batch scene.store options topk scene.distance files mine heap k')
            (λ heap'.
              refine_batches scene.store options topk scene.distance fuel later_all later heap')
            (λ e k2. (err e, k2))
            (Scanned scene F options topk deep invalid descriptors amount mine) Lost Goal Lost
            (refine_batch_rule scene F options topk deep invalid descriptors first
              (fresh_fd-Below descriptors) files mine heap amount k'
              (batch-Ready batch files k' mine (take-Increasing (suc n) (l ∷ lists) increasing)
                opened same mine_readable
                (mine_lists n l lists mine increasing mine_has split.mine_below))
              chosen opened)
            (λ heap' k2 (frame2, chosen2).
              Ends-mono
                (refine_batches scene.store options topk scene.distance fuel later_all later heap'
                  k2)
                (Scanned scene F options topk deep invalid descriptors
                  (λ test. tally_items scene (items mine) test + amount test) later)
                Goal Lost Lost
                (refine_batches_rule fuel later_all later heap'
                  (λ test. tally_items scene (items mine) test + amount test) k2
                  (omega (arith, length-drop n lists))
                  (drop-Increasing (suc n) (l ∷ lists) increasing)
                  (All-drop (λ x. x < scene.store.nlist) (suc n) (l ∷ lists) known)
                  (later_lists n l lists later increasing later_has split.later_above)
                  split.later_sorted later_readable frame2 chosen2)
                (λ heap3 k3 (frame3, c). (
                  frame3,
                  record {
                    seen = c.seen;
                    rest = c.rest;
                    selected = c.selected;
                    same = λ test. omega (
                      arith,
                      c.same test,
                      split.same (λ (i : CandidateInRequest). test (exact scene i.candidate_index)),
                    );
                  },
                ))
                (λ k3 failed. failed))
            (λ e k2 failed. failed))
        (λ e k' failed.
          let (sl, sd) = abandon_same scene F options topk deep invalid k' in
          record {
            same_lists = sl ∙ failed.same_lists;
            descriptors_are = sd ∙ failed.descriptors_are;
            reason = failed.reason;
          })
