-- ===== src/Refine/Refiner/Batches.antt =====
-- One batch of lists: its files are opened, its plans read, and its files closed.
use recast.Prelude.{
  ℕ, ◌+◌, ◌<◌, ◌≡◌, refl, ap, ◌∙◌, inl, inr, Bool, List, [], ◌∷◌, All, All-mono, ok, err, ltb, ◌==◌,
  Bool-cases,
}
use recast.Refine.{ReadPlan}
use recast.Refine.Builder.{items}
use recast.Refine.TopK.{Neighbor}
use recast.Refine.Kernel.{Kernel, try_catch, reset_context}
use recast.Refine.Scan.{OpenFile, close_all, closed, close_files, refine_blocking}
use recast.Refine.Scan.Calls.{Ends, Ends-mono, catch_rule, ends_rule, Frame, Thrown}
use recast.Refine.Scan.Processed.{Scene, Invalid, IsChosen, tally_items}
use recast.Refine.Scan.Blocking.{refine_blocking_rule}
use recast.Refine.Aio.Steps.{Ready, Stopped, Thrown-Stopped}
use recast.Refine.Aio.Started.{refine_aio_rule}
use recast.Refine.Refiner.{ListFileRefineOptions, abandon, scan, refine_batch}
use recast.Refine.Refiner.Files.{
  entries, Below, closed_descriptors, closed_descriptors-entries, close_all-Kept, close_files-Kept,
}
use recast.Refine.Refiner.Opening.{Opened, Failed}

module _ (scene : Scene) (F : Type 0) (options : ListFileRefineOptions) (topk : ℕ)
    (deep : 0 < options.queue_depth) (invalid : Invalid scene → F) where
  -- The heap has the records of some plans besides those from before.
  abbrev pub Scanned :
      List (ℕ × ℕ) → ((Neighbor → Bool) → ℕ) → List ReadPlan → List Neighbor → Kernel → Type 0
  Scanned descriptors amount plans heap k =
      Frame F scene.lists descriptors [] k
      × IsChosen scene topk heap (λ test. tally_items scene (items plans) test + amount test)

  scan_rule :
      (descriptors : List (ℕ × ℕ)) (files : List OpenFile) (plans : List ReadPlan)
      (heap : List Neighbor) (amount : (Neighbor → Bool) → ℕ) (k : Kernel)
      → All (Ready scene F descriptors topk files) plans
      → IsChosen scene topk heap amount
      → Frame F scene.lists descriptors [] k
      → Ends
          (scan scene.store options topk scene.distance files plans heap k)
          (Scanned descriptors amount plans)
          (Stopped scene F descriptors topk files)
  unfolding scan
  scan_rule descriptors files plans heap amount k ready chosen frame =
      elim (Bool-cases (options.queue_depth == 1)) [
        | inl t ↦ rw t (
            Ends-mono (refine_blocking scene.store topk scene.distance files plans heap k)
              (Scanned descriptors amount plans) (Scanned descriptors amount plans)
              (Thrown F scene.lists descriptors []) (Stopped scene F descriptors topk files)
              (refine_blocking_rule scene F descriptors [] topk files plans heap amount k
                (All-mono plans (λ p r. r.is_plan) ready)
                (record { invalid = invalid; short = All-mono plans (λ p r. r.short) ready })
                (All-mono plans (λ p r. r.file) ready) (frame, chosen))
              (λ heap' k' done. done) (Thrown-Stopped scene F descriptors topk files []))
        | inr t ↦ rw t (
            refine_aio_rule scene F descriptors topk files options.queue_depth _ invalid heap plans
              amount k deep ready chosen (λ test. refl) frame)
      ]

  pub abandon_same :
      (k : Kernel)
      → ((abandon scene.store options topk scene.distance k).lists ≡ k.lists)
        × ((abandon scene.store options topk scene.distance k).descriptors ≡ k.descriptors)
  unfolding abandon reset_context
  abandon_same k = elim (Bool-cases (ltb 1 options.queue_depth)) [
    | inl t ↦ rw t (refl, refl)
    | inr t ↦ rw t (refl, refl)
  ]

  -- Files that were closed are not closed again.
  closed_nothing :
      (files : List OpenFile) (descriptors : List (ℕ × ℕ))
      → closed_descriptors (closed files) descriptors ≡ descriptors
  unfolding closed
  closed_nothing [] descriptors = refl
  closed_nothing (file ∷ files) descriptors = closed_nothing files descriptors

  module _ (descriptors : List (ℕ × ℕ)) (first : ℕ) (below : Below first descriptors) where
    -- The cleanup after an error: the context is abandoned, then the files are closed.
    cleaned :
        (files : List OpenFile) (k : Kernel)
        → k.lists ≡ scene.lists
        → closed_descriptors files k.descriptors ≡ descriptors
        → F
        → Failed scene.store F scene.lists descriptors first
            (close_all files (abandon scene.store options topk scene.distance k))
    cleaned files k same all_closed reason =
        let (l, d) = abandon_same k in
        let kept = close_all-Kept files (abandon scene.store options topk scene.distance k) in
        record {
          same_lists = kept.same_lists ∙ (l ∙ same);
          descriptors_are = kept.descriptors_are ∙ (ap (closed_descriptors files) d ∙ all_closed);
          reason = reason;
        }

    pub refine_batch_rule :
        (files : List OpenFile) (plans : List ReadPlan) (heap : List Neighbor)
        (amount : (Neighbor → Bool) → ℕ) (k : Kernel)
        → All (Ready scene F (entries files descriptors) topk files) plans
        → IsChosen scene topk heap amount
        → Opened scene.store F scene.lists descriptors first files k
        → Ends
            (refine_batch scene.store options topk scene.distance files plans heap k)
            (Scanned descriptors amount plans)
            (Failed scene.store F scene.lists descriptors first)
    unfolding refine_batch
    refine_batch_rule files plans heap amount k ready chosen opened =
        let Goal = Scanned descriptors amount plans in
        let Lost = Failed scene.store F scene.lists descriptors first in
        let all_closed = closed_descriptors-entries first files descriptors opened.numbered below in
        catch_rule (scan scene.store options topk scene.distance files plans heap k)
          (λ heap' k'.
            try_catch (close_files files k') (λ done k2. (ok heap', k2))
              (λ e k2. (
                err e,
                close_all (closed files) (abandon scene.store options topk scene.distance k2),
              )))
          (λ e k'. (err e, close_all files (abandon scene.store options topk scene.distance k')))
          (Scanned (entries files descriptors) amount plans)
          (Stopped scene F (entries files descriptors) topk files) Goal Lost
          (scan_rule (entries files descriptors) files plans heap amount k ready chosen (record {
            same_lists = opened.same_lists;
            same_descriptors = opened.descriptors_are;
            same_inflight = opened.none_inflight;
            fault = opened.fault;
          }))
          (λ heap' k' (frame', chosen').
            let (kept, thrown) = close_files-Kept files k' in
            let d : (close_files files k').1.descriptors ≡ descriptors =
              kept.descriptors_are
              ∙ (ap (closed_descriptors files) frame'.same_descriptors ∙ all_closed) in
            catch_rule (close_files files k') (λ done k2. (ok heap', k2))
              (λ e k2. (
                err e,
                close_all (closed files) (abandon scene.store options topk scene.distance k2),
              ))
              (λ _ k2. Frame F scene.lists descriptors [] k2)
              (λ k2. (k2.lists ≡ scene.lists) × (k2.descriptors ≡ descriptors) × F) Goal Lost
              (ends_rule (close_files files k') (λ _ k2. Frame F scene.lists descriptors [] k2)
                (λ k2. (k2.lists ≡ scene.lists) × (k2.descriptors ≡ descriptors) × F)
                (λ a e. record {
                  same_lists = kept.same_lists ∙ frame'.same_lists;
                  same_descriptors = d;
                  same_inflight = kept.same_inflight ∙ frame'.same_inflight;
                  fault = λ any. frame'.fault (kept.fault any);
                })
                (λ x e. (kept.same_lists ∙ frame'.same_lists, d, frame'.fault (thrown x e))))
              (λ _ k2 frame2. (frame2, chosen'))
              (λ e k2 (l, d, reason).
                cleaned (closed files) k2 l (closed_nothing files k2.descriptors ∙ d) reason))
          (λ e k' stopped.
            cleaned files k' stopped.same_lists
              (ap (closed_descriptors files) stopped.same_descriptors ∙ all_closed) stopped.reason)
