-- ===== src/Refine/Aio/Loop.antt =====
-- The loop of `refine_aio`: in whatever order the reads complete, every plan is processed once.
use recast.Prelude.{
  ℕ, zero, suc, ◌+◌, ◌-◌, ◌≤◌, ◌<◌, ◌≡◌, refl, ap, subst, ◌∙◌, inl, inr, Bool, true, List, [], ◌∷◌,
  ◌++◌, All, All-append, List-cases, total_one, total, total-append, length-append, arith, ◌==◌,
  ==→eq, Bool-cases, length, length-map,
}
use recast.Refine.{ReadPlan}
use recast.Refine.Builder.{items}
use recast.Refine.TopK.{Neighbor}
use recast.Refine.Kernel.{Kernel, ReadRequest, Event, io_getevents}
use recast.Refine.Scan.{OpenFile}
use recast.Refine.Scan.Calls.{Ends, bind_rule, throw_rule, Frame}
use recast.Refine.Scan.Processed.{Scene, Invalid, IsChosen, tally_items}
use recast.Refine.Aio.{AioState, submit_requests, process_event, process_events, aio_loop}
use recast.Refine.Aio.Pending.{IsEvent, requests_of}
use recast.Refine.Aio.Steps.{at_slot, Matches, weight, Stopped, Running}
use recast.Refine.Aio.Events.{Runs, process_event_rule}
use recast.Refine.Aio.Queue.{Completes, io_getevents_rule, submit_requests_rule}

module _ (scene : Scene) (F : Type 0) (descriptors : List (ℕ × ℕ)) (topk : ℕ)
    (files : List OpenFile) where
  module _ (depth : ℕ) (all : (Neighbor → Bool) → ℕ) (invalid : Invalid scene → F) where
    process_events_rule :
        (m n : ℕ) (events : List Event) (inflight submissions : List ReadRequest) (state : AioState)
        (k : Kernel)
        → m ≡ length events + n
        → All (IsEvent scene.lists descriptors F) events
        → Runs scene F descriptors topk files depth all 0 m
            (requests_of events)
            inflight
            (state, submissions)
            k
        → Ends
            (process_events scene.store topk scene.distance files events state submissions k)
            (Runs scene F descriptors topk files depth all 0 n [] inflight)
            (Stopped scene F descriptors topk files)
    unfolding process_events
    process_events_rule m n [] inflight submissions state k same es runs =
        let e : m ≡ n = omega arith in
        subst
          (λ (t : ℕ).
            Runs scene F descriptors topk files depth all 0 t [] inflight (state, submissions) k)
          e runs
    process_events_rule m n (event ∷ events) inflight submissions state k same (e, es) runs =
        let f : m ≡ suc (length events + n) = omega arith in
        bind_rule (process_event scene.store topk scene.distance files event state submissions k) _
          (Runs scene F descriptors topk files depth all 0 (length events + n) (requests_of events)
            inflight)
          (Runs scene F descriptors topk files depth all 0 n [] inflight)
          (Stopped scene F descriptors topk files)
          (process_event_rule scene F descriptors topk files depth all (length events + n) event
            (requests_of events) inflight submissions state k invalid e
            (subst
              (λ (t : ℕ).
                Runs scene F descriptors topk files depth all 0 t (requests_of (event ∷ events))
                  inflight (state, submissions) k)
              f runs))
          (λ (state', submissions') k' runs'.
            process_events_rule (length events + n) n events inflight submissions' state' k' refl es
              runs')

    -- The heap has the records of all plans.
    abbrev pub Done : List Neighbor → Kernel → Type 0
    Done heap k = Frame F scene.lists descriptors [] k × IsChosen scene topk heap all

    -- Nothing is in flight, and so nothing waits.
    finished :
        (n : ℕ) (inflight : List ReadRequest) (state : AioState) (k : Kernel)
        → 0 < depth
        → state.inflight ≡ 0
        → Runs scene F descriptors topk files depth all 0 n [] inflight (state, []) k
        → Done state.heap k
    finished n inflight state k deep none_left (frame, run) =
        let no_requests : inflight ≡ [] = elim (List-cases inflight) [
          | inl e ↦ e
          | inr (r, rs, e) ↦
              let len = ap length e in
              let no_such : ⊥ = omega (arith, run.counter) in elim no_such [ ]
        ] in
        let no_plans : state.waiting ≡ [] = elim run.full [
          | inl e ↦ e
          | inr e ↦ let no_such : ⊥ = omega (arith, run.counter) in elim no_such [ ]
        ] in
        (
          record {
            same_lists = frame.same_lists;
            same_descriptors = frame.same_descriptors;
            same_inflight = frame.same_inflight ∙ no_requests;
            fault = frame.fault;
          },
          record {
            seen = run.chosen.seen;
            rest = run.chosen.rest;
            selected = run.chosen.selected;
            same = λ test.
                let weigh = weight scene F descriptors topk files state.slots test in
                let w = ap (total weigh) no_requests in
                let i =
                  ap (λ (plans : List ReadPlan). tally_items scene (items plans) test) no_plans in
                omega (arith, run.chosen.same test, run.work test, w, i);
          },
        )

    -- The submitted requests are in flight.
    pub submitted :
        (n : ℕ) (inflight submissions : List ReadRequest) (state : AioState)
        → Running scene F descriptors topk files depth all 0 n [] inflight submissions state
        → Running scene F descriptors topk files depth all 0 n []
            (inflight ++ submissions)
            []
            (record state { inflight = state.inflight + length submissions })
    submitted n inflight submissions state run =
        let len = length-append inflight submissions in
        record {
          distinct =
              λ s. omega (arith, run.distinct s, total-append (at_slot s) inflight submissions);
          completed_match = tt;
          inflight_match =
              All-append (Matches scene F descriptors topk files state.slots) inflight submissions
                run.inflight_match run.submitted_match;
          submitted_match = tt;
          waiting_ready = run.waiting_ready;
          amount = run.amount;
          chosen = run.chosen;
          work = λ test. omega (
            arith,
            run.work test,
            total-append (weight scene F descriptors topk files state.slots test) inflight
                submissions,
          );
          counter = omega (arith, run.counter);
          bound = omega (arith, run.bound);
          full = elim run.full [ inl e ↦ inl e | inr e ↦ inr (omega (arith, e)) ];
          left = omega (arith, run.left);
        }

    -- The events and what is still in flight, in place of what was in flight.
    received :
        (n : ℕ) (inflight : List ReadRequest) (events : List Event) (state : AioState) (k : Kernel)
        (c : Completes scene F descriptors topk files
          (Matches scene F descriptors topk files state.slots)
          inflight
          events
          k)
        → Running scene F descriptors topk files depth all 0 n [] inflight [] state
        → Running scene F descriptors topk files depth all 0 n (requests_of events) c.left [] state
    received n inflight events state k c run =
        let len : length (requests_of events) + length c.left ≡ length inflight = omega (
          arith,
          c.totals (λ r. 1),
          total_one (requests_of events),
          total_one c.left,
          total_one inflight,
        ) in
        record {
          distinct = λ s. omega (arith, run.distinct s, c.totals (at_slot s));
          completed_match = c.events_all;
          inflight_match = c.left_all;
          submitted_match = tt;
          waiting_ready = run.waiting_ready;
          amount = run.amount;
          chosen = run.chosen;
          work = λ test. omega (
            arith,
            run.work test,
            c.totals (weight scene F descriptors topk files state.slots test),
          );
          counter = omega (arith, run.counter);
          bound = omega (arith, run.bound);
          full = elim run.full [ inl e ↦ inl e | inr e ↦ inr (omega (arith, e)) ];
          left = omega (arith, run.left);
        }

    pub aio_loop_rule :
        (fuel n : ℕ) (inflight : List ReadRequest) (state : AioState) (k : Kernel)
        → n ≤ fuel
        → 0 < depth
        → Runs scene F descriptors topk files depth all 0 n [] inflight (state, []) k
        → Ends
            (aio_loop scene.store topk scene.distance files fuel state k)
            Done
            (Stopped scene F descriptors topk files)
    unfolding aio_loop
    aio_loop_rule zero n inflight state k le deep (frame, run) =
        let none_left : state.inflight ≡ 0 = omega (arith, run.counter, run.left) in
        let t : (state.inflight == 0) ≡ true = ground arith in
        rw t (finished n inflight state k deep none_left (frame, run))
    aio_loop_rule (suc fuel) n inflight state k le deep (frame, run) =
        elim (Bool-cases (state.inflight == 0)) [
          | inl t ↦ rw t (finished n inflight state k deep (==→eq _ _ t) (frame, run))
          | inr t ↦ rw t (
              let positive : 0 < length inflight = ground (arith, run.counter) in
              bind_rule (io_getevents k) _
                (Completes scene F descriptors topk files
                  (Matches scene F descriptors topk files state.slots) inflight)
                Done (Stopped scene F descriptors topk files)
                (io_getevents_rule scene F descriptors topk files
                  (Matches scene F descriptors topk files state.slots) inflight k run.inflight_match
                  frame)
                (λ events k' c.
                  throw_rule (length events == 0) _ _ k' Done
                    (Stopped scene F descriptors topk files)
                    (λ z. record {
                      same_lists = c.frame.same_lists;
                      same_descriptors = c.frame.same_descriptors;
                      reason = elim (c.some_events positive) [
                        | inl lt ↦ let no_such : ⊥ = ground arith in elim no_such [ ]
                        | inr f ↦ f
                      ];
                    })
                    (λ z.
                      let run' = received n inflight events state k' c run in
                      let count = length-map events (λ (e : Event). e.obj) in
                      let rest = n - length events in
                      bind_rule
                        (process_events scene.store topk scene.distance files events state [] k') _
                        (Runs scene F descriptors topk files depth all 0 rest [] c.left) Done
                        (Stopped scene F descriptors topk files)
                        (process_events_rule n rest events c.left [] state k'
                          (omega (arith, run'.left, count)) c.are_events (c.frame, run'))
                        (λ (state2, submissions) k2 (frame2, run2).
                          bind_rule (submit_requests (length submissions) submissions k2) _
                            (λ _ k3. Frame F scene.lists descriptors (c.left ++ submissions) k3)
                            Done (Stopped scene F descriptors topk files)
                            (submit_requests_rule scene F descriptors topk files
                              (length submissions) submissions c.left k2 (omega arith) frame2)
                            (λ _ k3 frame3.
                              aio_loop_rule fuel rest (c.left ++ submissions)
                                (record state2 { inflight = state2.inflight + length submissions })
                                k3 (ground arith) deep
                                (frame3, submitted rest c.left submissions state2 run2))))))
        ]
