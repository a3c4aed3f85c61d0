-- ===== src/Refine/Aio/Queue.antt =====
-- Submitting requests and waiting for events, as rules.
use recast.Prelude.{
  ℕ, zero, suc, ◌+◌, ◌≤◌, ◌<◌, ◌≡◌, refl, ap, subst, ◌∙◌, ◌⊎◌, inl, inr, false, List, [], ◌∷◌, ◌++◌,
  All, Any, total, take, drop, take-drop, length-drop, append_assoc, append-nil, arith, ◌==◌,
  Bool-cases, length,
}
use recast.Refine.Kernel.{
  Kernel, ReadRequest, Event, Response, failed, interrupted, succeeded, transferred, completed,
  all_bytes, IsBad, IsFault, complete, completions_of, skip_interrupted, io_submit, io_getevents,
  amount_of, fails, first_response, later_responses,
}
use recast.Refine.Scan.{OpenFile}
use recast.Refine.Scan.Calls.{Ends, throw_rule, Frame, later-Any, skip-Any, fails-Any, whole_amount}
use recast.Refine.Scan.Processed.{Scene}
use recast.Refine.Aio.{submit_requests}
use recast.Refine.Aio.Pending.{
  IsEvent, requests_of, total-complete, complete-All, complete-IsEvent, complete_some,
}
use recast.Refine.Aio.Steps.{Stopped}

whole_read : IsBad (record { choice = 0; lost = false; amount = all_bytes; res2 = 0 }) → ⊥
whole_read (inl (inl e)) = cc
whole_read (inl (inr e)) = cc
whole_read (inr (inl (k, e))) = cc
whole_read (inr (inr e)) = cc

bad-Any :
    (responses : List Response)
    → Any IsBad (completions_of (first_response responses))
    → Any IsFault responses
bad-Any [] (inl b) = elim (whole_read b) [ ]
bad-Any [] (inr b) = elim b [ ]
bad-Any (failed ∷ responses) any = inl tt
bad-Any (interrupted ∷ responses) any = inl tt
bad-Any (succeeded ∷ responses) (inl b) = elim (whole_read b) [ ]
bad-Any (succeeded ∷ responses) (inr b) = elim b [ ]
bad-Any (transferred n ∷ responses) any = inl tt
bad-Any (completed (c ∷ cs) ∷ responses) any = inl any
bad-Any (completed [] ∷ responses) any = inl tt

completions_some :
    (responses : List Response)
    → (0 < length (completions_of (first_response responses))) ⊎ Any IsFault responses
completions_some [] = inl (omega arith)
completions_some (failed ∷ responses) = inl (omega arith)
completions_some (interrupted ∷ responses) = inl (omega arith)
completions_some (succeeded ∷ responses) = inl (omega arith)
completions_some (transferred n ∷ responses) = inl (omega arith)
completions_some (completed (c ∷ cs) ∷ responses) = inl (omega arith)
completions_some (completed [] ∷ responses) = inr (inl tt)

module _ (scene : Scene) (F : Type 0) (descriptors : List (ℕ × ℕ)) (topk : ℕ)
    (files : List OpenFile) where
  -- Some of the requests in flight are completed.
  pub record Completes (P : ReadRequest → Type 0) (inflight : List ReadRequest)
      (events : List Event) (k : Kernel) : Type 0 where
    pub left : List ReadRequest
    pub frame : Frame F scene.lists descriptors left k
    pub are_events : All (IsEvent scene.lists descriptors F) events
    pub events_all : All P (requests_of events)
    pub left_all : All P left
    pub totals :
        (f : ReadRequest → ℕ) → total f (requests_of events) + total f left ≡ total f inflight
    pub some_events : 0 < length inflight → (0 < length events) ⊎ F

  pub io_getevents_rule :
      (P : ReadRequest → Type 0) (inflight : List ReadRequest) (k : Kernel)
      → All P inflight
      → Frame F scene.lists descriptors inflight k
      → Ends (io_getevents k) (Completes P inflight) (Stopped scene F descriptors topk files)
  unfolding io_getevents
  io_getevents_rule P inflight k all frame =
      let responses = skip_interrupted k.responses in
      let cs = completions_of (first_response responses) in
      let later : Any IsFault (later_responses responses) → F =
        λ any. frame.fault (skip-Any k.responses (later-Any responses any)) in
      rw (frame.same_lists, frame.same_descriptors, frame.same_inflight)
        (elim (Bool-cases (fails (first_response responses))) [
          | inl t ↦ rw t (record {
            same_lists = refl;
            same_descriptors = refl;
            reason = frame.fault (skip-Any k.responses (fails-Any responses t));
          })
          | inr t ↦ rw t (record {
            left = (complete scene.lists descriptors cs inflight).1;
            frame = record {
              same_lists = refl;
              same_descriptors = refl;
              same_inflight = refl;
              fault = later;
            };
            are_events =
                complete-IsEvent scene.lists descriptors cs inflight F
                  (λ bad. frame.fault (skip-Any k.responses (bad-Any responses bad)));
            events_all = (complete-All P scene.lists descriptors cs inflight all).0;
            left_all = (complete-All P scene.lists descriptors cs inflight all).1;
            totals = λ f. total-complete f scene.lists descriptors cs inflight;
            some_events = λ h. elim (completions_some responses) [
              | inl c ↦ inl (complete_some scene.lists descriptors cs inflight c h)
              | inr any ↦ inr (frame.fault (skip-Any k.responses any))
            ];
          })
        ])

  pub submit_requests_rule :
      (fuel : ℕ) (requests inflight : List ReadRequest) (k : Kernel)
      → length requests ≤ fuel
      → Frame F scene.lists descriptors inflight k
      → Ends
          (submit_requests fuel requests k)
          (λ _ k'. Frame F scene.lists descriptors (inflight ++ requests) k')
          (Stopped scene F descriptors topk files)
  unfolding submit_requests io_submit
  submit_requests_rule fuel [] inflight k le frame = rw (append-nil inflight) frame
  submit_requests_rule zero (r ∷ requests) inflight k le frame =
      let no_such : ⊥ = omega arith in elim no_such [ ]
  submit_requests_rule (suc fuel) (r ∷ requests) inflight k le frame =
      let n = amount_of (first_response k.responses) (suc (length requests)) in
      let k' : Kernel = record k {
        inflight = k.inflight ++ take n (r ∷ requests);
        responses = later_responses k.responses;
      } in
      elim (Bool-cases (fails (first_response k.responses))) [
        | inl t ↦ rw t (record {
          same_lists = frame.same_lists;
          same_descriptors = frame.same_descriptors;
          reason = frame.fault (fails-Any k.responses t);
        })
        | inr t ↦ rw t (
            throw_rule (n == 0) _ _ _
              (λ _ k'. Frame F scene.lists descriptors (inflight ++ (r ∷ requests)) k')
              (Stopped scene F descriptors topk files)
              (λ z. record {
                same_lists = frame.same_lists;
                same_descriptors = frame.same_descriptors;
                reason = elim (whole_amount k.responses (suc (length requests))) [
                  | inl e ↦ let no_such : ⊥ = ground arith in elim no_such [ ]
                  | inr any ↦ frame.fault any
                ];
              })
              (λ z.
                subst
                  (λ (xs : List ReadRequest).
                    Ends (submit_requests fuel (drop n (r ∷ requests)) k')
                      (λ _ k2. Frame F scene.lists descriptors xs k2)
                      (Stopped scene F descriptors topk files))
                  (append_assoc inflight (take n (r ∷ requests)) (drop n (r ∷ requests))
                    ∙ ap (λ (xs : List ReadRequest). inflight ++ xs) (take-drop n (r ∷ requests)))
                  (submit_requests_rule fuel (drop n (r ∷ requests))
                    (inflight ++ take n (r ∷ requests)) k'
                    (ground (arith, length-drop n (r ∷ requests)))
                    (record {
                      same_lists = frame.same_lists;
                      same_descriptors = frame.same_descriptors;
                      same_inflight =
                          ap (λ (xs : List ReadRequest). xs ++ take n (r ∷ requests))
                            frame.same_inflight;
                      fault = λ any. frame.fault (later-Any k.responses any);
                    }))))
      ]
