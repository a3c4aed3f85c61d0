-- ===== src/Refine/Aio/Events.antt =====
-- The events of one `io_getevents`: each puts the records of its plan into the heap, and gives its
-- slot to the next plan.
use recast.Prelude.{
  ℕ, suc, ◌+◌, ◌-◌, ◌<◌, ◌≡◌, ◌≢◌, refl, sym, ap, subst, ◌∙◌, ◌⊎◌, inl, inr, Bool, true, not, List,
  [], ◌∷◌, ◌++◌, All-append, tally-append, total, total-append, length-append, arith, ◌==◌, ==→eq,
  Bool-cases, length, min, copy,
}
use recast.Refine.{CandidateInRequest, ReadPlan}
use recast.Refine.Builder.{items}
use recast.Refine.TopK.{Neighbor}
use recast.Refine.Kernel.{Kernel, ReadRequest, Event}
use recast.Refine.Scan.{OpenFile, process_plan}
use recast.Refine.Scan.Calls.{Ends, bind_rule, throw_rule, Frame, copy-inside}
use recast.Refine.Scan.Processed.{Scene, exact, Invalid, tally_items, process_items-cases}
use recast.Refine.Aio.{AioSlot, AioState, prepare_aio, next_request, process_event}
use recast.Refine.Aio.Pending.{IsEvent}
use recast.Refine.Aio.Steps.{
  at_slot, Matches, weight, Stopped, Running, Prepares, Prepared, prepare_aio_rule, kept_All,
  kept_total,
}

module _ (scene : Scene) (F : Type 0) (descriptors : List (ℕ × ℕ)) (topk : ℕ)
    (files : List OpenFile) (depth : ℕ) (all : (Neighbor → Bool) → ℕ) where
  abbrev pub Runs :
      ℕ → ℕ → List ReadRequest → List ReadRequest → AioState × List ReadRequest → Kernel → Type 0
  Runs spare n events inflight (state, submissions) k =
      Frame F scene.lists descriptors inflight k
      × Running scene F descriptors topk files depth all spare n events inflight submissions state

  abbrev pub state_of : (ℕ → AioSlot) → List ReadPlan → ℕ → List Neighbor → AioState
  state_of slots waiting counter heap = record {
    slots = slots;
    waiting = waiting;
    inflight = counter;
    heap = heap;
  }

  -- A spare slot is given to the first of the plans that wait.
  pub with_request :
      (spare n slot_no counter : ℕ) (events inflight submissions : List ReadRequest)
      (slots slots' : ℕ → AioSlot) (plan : ReadPlan) (plans : List ReadPlan) (heap : List Neighbor)
      (r : ReadRequest)
      → Running scene F descriptors topk files depth all
          (suc spare)
          n
          events
          inflight
          submissions
          (state_of slots (plan ∷ plans) counter heap)
      → Prepared scene F descriptors topk files slot_no plan slots slots' r
      → total (at_slot slot_no) events
          + (total (at_slot slot_no) inflight + total (at_slot slot_no) submissions)
        ≡ 0
      → Running scene F descriptors topk files depth all spare n events inflight
          (submissions ++ (r ∷ []))
          (state_of slots' plans counter heap)
  with_request spare n slot_no counter events inflight submissions slots slots' plan plans heap r
        run prepared none_at =
      let (ready, ready_rest) = run.waiting_ready in
      let none_events : total (at_slot slot_no) events ≡ 0 = omega arith in
      let none_inflight : total (at_slot slot_no) inflight ≡ 0 = omega arith in
      let none_submitted : total (at_slot slot_no) submissions ≡ 0 = omega arith in
      record {
        distinct = λ s. elim (Bool-cases (r.slot == s)) [
          | inr t ↦
              let zero_at : at_slot s r ≡ 0 = rw t refl in
              omega (arith, run.distinct s, total-append (at_slot s) submissions (r ∷ []), zero_at)
          | inl t ↦
              let same : slot_no ≡ s = sym prepared.own_slot ∙ ==→eq _ _ t in
              let one_at : at_slot s r ≡ 1 = rw t refl in
              let none_s : total (at_slot s) events
                    + (total (at_slot s) inflight + total (at_slot s) submissions)
                  ≡ 0 =
                subst
                  (λ (s : ℕ).
                    total (at_slot s) events
                      + (total (at_slot s) inflight + total (at_slot s) submissions)
                    ≡ 0)
                  same none_at in
              omega (arith, total-append (at_slot s) submissions (r ∷ []), one_at)
        ];
        completed_match =
            kept_All scene F descriptors topk files slot_no slots slots' events prepared.others
              none_events run.completed_match;
        inflight_match =
            kept_All scene F descriptors topk files slot_no slots slots' inflight prepared.others
              none_inflight run.inflight_match;
        submitted_match =
            All-append (Matches scene F descriptors topk files slots') submissions (r ∷ [])
              (kept_All scene F descriptors topk files slot_no slots slots' submissions
                prepared.others none_submitted run.submitted_match)
              (prepared.reads, tt);
        waiting_ready = ready_rest;
        amount = run.amount;
        chosen = run.chosen;
        work = λ test.
            let weigh = weight scene F descriptors topk files in
            let own_weight : weigh slots' test r ≡ tally_items scene plan.candidates test =
              ap (λ (i : ℕ). tally_items scene (slots' i).plan.candidates test) prepared.own_slot
              ∙ ap (λ (p : ReadPlan). tally_items scene p.candidates test) prepared.own_plan in
            omega (
              arith,
              run.work test,
              kept_total scene F descriptors topk files slot_no slots slots' test events
                  prepared.others none_events,
              kept_total scene F descriptors topk files slot_no slots slots' test inflight
                  prepared.others none_inflight,
              kept_total scene F descriptors topk files slot_no slots slots' test submissions
                  prepared.others none_submitted,
              total-append (weigh slots' test) submissions (r ∷ []),
              tally-append (λ (i : CandidateInRequest). test (exact scene i.candidate_index))
                  plan.candidates (items plans),
              own_weight,
            );
        counter = run.counter;
        bound = omega (arith, run.bound, length-append submissions (r ∷ []));
        full = inr (elim run.full [
          | inl e ↦ let len = ap length e in let no_such : ⊥ = omega arith in elim no_such [ ]
          | inr e ↦ omega (arith, e, length-append submissions (r ∷ []))
        ]);
        left = omega (arith, run.left, length-append submissions (r ∷ []));
      }

  next_request_rule :
      (n slot_no : ℕ) (events inflight submissions : List ReadRequest) (k : Kernel)
      (slots : ℕ → AioSlot) (waiting : List ReadPlan) (counter : ℕ) (heap : List Neighbor)
      → Runs 1 n events inflight (state_of slots waiting counter heap, submissions) k
      → total (at_slot slot_no) events
          + (total (at_slot slot_no) inflight + total (at_slot slot_no) submissions)
        ≡ 0
      → Ends
          (next_request scene.store topk scene.distance files slot_no
            (state_of slots waiting counter heap)
            submissions
            k)
          (Runs 0 n events inflight)
          (Stopped scene F descriptors topk files)
  unfolding next_request
  next_request_rule n slot_no events inflight submissions k slots [] counter heap (frame, run)
        none_at =
      (
        frame,
        record {
          distinct = run.distinct;
          completed_match = run.completed_match;
          inflight_match = run.inflight_match;
          submitted_match = run.submitted_match;
          waiting_ready = run.waiting_ready;
          amount = run.amount;
          chosen = run.chosen;
          work = run.work;
          counter = run.counter;
          bound = omega (arith, run.bound);
          full = inl refl;
          left = run.left;
        },
      )
  next_request_rule n slot_no events inflight submissions k slots (plan ∷ plans) counter heap
        (frame, run) none_at =
      let (ready, ready_rest) = run.waiting_ready in
      bind_rule (prepare_aio scene.store topk scene.distance files slot_no plan slots k) _
        (Prepares scene F descriptors topk files slot_no plan slots inflight)
        (Runs 0 n events inflight) (Stopped scene F descriptors topk files)
        (prepare_aio_rule scene F descriptors topk files slot_no plan slots inflight k ready frame)
        (λ (slots', r) k' (frame', prepared). (
          frame',
          with_request 0 n slot_no counter events inflight submissions slots slots' plan plans heap
              r run prepared none_at,
        ))

  -- One event, whose request is the first of those still to be processed.
  pub process_event_rule :
      (n : ℕ) (event : Event) (events inflight submissions : List ReadRequest) (state : AioState)
      (k : Kernel)
      → (Invalid scene → F)
      → IsEvent scene.lists descriptors F event
      → Runs 0 (suc n) (event.obj ∷ events) inflight (state, submissions) k
      → Ends
          (process_event scene.store topk scene.distance files event state submissions k)
          (Runs 0 n events inflight)
          (Stopped scene F descriptors topk files)
  unfolding process_event process_plan
  process_event_rule n event events inflight submissions state k invalid is_event (frame, run) =
      let (reads, reads_rest) = run.completed_match in
      let slot = state.slots event.obj.slot in
      let plan = slot.plan in
      let stop : F → Stopped scene F descriptors topk files k = λ f. record {
        same_lists = frame.same_lists;
        same_descriptors = frame.same_descriptors;
        reason = f;
      } in
      let short_read : (m : ℕ)
          → (m ≡ min event.obj.bytes ((scene.lists plan.list_no).size - event.obj.offset)) ⊎ F
          → not (m == plan.request_bytes) ≡ true
          → F =
        λ m whole t. elim whole [
          | inr f ↦ f
          | inl e ↦
              let ne : m ≢ plan.request_bytes = ground arith in
              reads.ready.short (omega (arith, reads.offset, reads.bytes))
        ] in
      let agree : (m : ℕ)
          → m ≡ plan.request_bytes
          → (i : ℕ) → i < plan.request_bytes
          → copy slot.buffer 0 event.bytes 0 m i
            ≡ (scene.lists plan.list_no).bytes (plan.aligned_offset + i) =
        λ m e i lt.
          let at_place : event.obj.offset + (0 + i) ≡ plan.aligned_offset + i =
            omega (arith, reads.offset) in
          copy-inside slot.buffer event.bytes 0 m i (omega arith)
          ∙ (is_event.cells plan.list_no reads.open_file (0 + i)
              ∙ ap (scene.lists plan.list_no).bytes at_place) in
      let none_left : total (at_slot event.obj.slot) events
            + (total (at_slot event.obj.slot) inflight + total (at_slot event.obj.slot) submissions)
          ≡ 0 =
        ground (arith, run.distinct event.obj.slot) in
      elim is_event.pointer [
        | inr (e, f) ↦ rw e (stop f)
        | inl e ↦ rw e (
            throw_rule (not (event.res2 == 0)) _ _ k (Runs 0 n events inflight)
              (Stopped scene F descriptors topk files)
              (λ t. elim is_event.second [
                | inl z ↦ let no_such : ⊥ = ground arith in elim no_such [ ]
                | inr f ↦ stop f
              ])
              (λ t. elim (is_event.result plan.list_no reads.open_file) [
                | inr (r, f) ↦ rw r (stop f)
                | inl (m, r, whole) ↦ rw r (
                    throw_rule (not (m == plan.request_bytes)) _ _ k (Runs 0 n events inflight)
                      (Stopped scene F descriptors topk files) (λ t. stop (short_read m whole t))
                      (λ t.
                        let same : m ≡ plan.request_bytes = ground arith in
                        elim (process_items-cases scene topk plan.list_no plan.aligned_offset
                          plan.request_bytes (copy slot.buffer 0 event.bytes 0 m) plan.candidates
                          state.heap run.amount reads.ready.is_plan.read.records (agree m same)
                          run.chosen) [
                            | inr (q, bad) ↦ rw q (stop (invalid bad))
                            | inl (heap', q, chosen) ↦ rw q (
                                next_request_rule n event.obj.slot events inflight submissions k
                                  state.slots state.waiting (state.inflight - 1) heap'
                                  (
                                    frame,
                                    record {
                                      distinct = λ s. omega (arith, run.distinct s);
                                      completed_match = reads_rest;
                                      inflight_match = run.inflight_match;
                                      submitted_match = run.submitted_match;
                                      waiting_ready = run.waiting_ready;
                                      amount = _;
                                      chosen = chosen;
                                      work = λ test. omega (arith, run.work test);
                                      counter = omega (arith, run.counter);
                                      bound = omega (arith, run.bound);
                                      full = elim run.full [
                                        | inl f ↦ inl f
                                        | inr f ↦ inr (omega (arith, f))
                                      ];
                                      left = omega (arith, run.left);
                                    },
                                  )
                                  none_left)
                          ]))
              ]))
      ]
