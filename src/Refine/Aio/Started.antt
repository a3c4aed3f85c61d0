-- ===== src/Refine/Aio/Started.antt =====
-- The start of `refine_aio`, and the whole of it.
use recast.Prelude.{
  ℕ, zero, suc, ◌+◌, ◌≤◌, ◌<◌, ◌≡◌, refl, subst, inl, inr, Bool, List, [], ◌∷◌, ◌++◌, All, total,
  total-append, arith, length,
}
use recast.Refine.{ReadPlan}
use recast.Refine.Builder.{items}
use recast.Refine.TopK.{Neighbor}
use recast.Refine.Kernel.{Kernel, ReadRequest}
use recast.Refine.Scan.{OpenFile, new_buffer}
use recast.Refine.Scan.Calls.{Ends, bind_rule, Ends-mono, Frame, Thrown, new_buffer_rule}
use recast.Refine.Scan.Processed.{Scene, Invalid, IsChosen, tally_items}
use recast.Refine.Aio.{
  AioSlot, new_slot, submit_requests, prepare_aio, fill_slots, make_slots, refine_aio,
}
use recast.Refine.Aio.Steps.{
  at_slot, Ready, Stopped, Running, Prepares, prepare_aio_rule, Thrown-Stopped,
}
use recast.Refine.Aio.Events.{state_of, with_request}
use recast.Refine.Aio.Queue.{submit_requests_rule}
use recast.Refine.Aio.Loop.{Done, aio_loop_rule, submitted}

module _ (scene : Scene) (F : Type 0) (descriptors : List (ℕ × ℕ)) (topk : ℕ)
    (files : List OpenFile) where
  make_slots_rule :
      (n : ℕ) (inflight : List ReadRequest) (k : Kernel)
      → Frame F scene.lists descriptors inflight k
      → Ends
          (make_slots scene.store topk scene.distance n k)
          (λ _ k'. Frame F scene.lists descriptors inflight k')
          (Stopped scene F descriptors topk files)
  unfolding make_slots
  make_slots_rule zero inflight k frame = frame
  make_slots_rule (suc n) inflight k frame =
      bind_rule (make_slots scene.store topk scene.distance n k) _
        (λ _ k'. Frame F scene.lists descriptors inflight k')
        (λ _ k'. Frame F scene.lists descriptors inflight k')
        (Stopped scene F descriptors topk files) (make_slots_rule n inflight k frame)
        (λ _ k' frame'.
          bind_rule (new_buffer scene.store.page_size scene.store.page_size k') _
            (λ _ k2. Frame F scene.lists descriptors inflight k2)
            (λ _ k2. Frame F scene.lists descriptors inflight k2)
            (Stopped scene F descriptors topk files)
            (Ends-mono (new_buffer scene.store.page_size scene.store.page_size k')
              (λ _ k2. Frame F scene.lists descriptors inflight k2)
              (λ _ k2. Frame F scene.lists descriptors inflight k2)
              (Thrown F scene.lists descriptors inflight) (Stopped scene F descriptors topk files)
              (new_buffer_rule F scene.lists descriptors inflight scene.store.page_size
                scene.store.page_size k' scene.valid.power scene.valid.wide
                (omega (arith, scene.valid.wide)) frame')
              (λ buffer k2 after. after) (Thrown-Stopped scene F descriptors topk files inflight))
            (λ buffer k2 after. after))

  module _ (depth : ℕ) (all : (Neighbor → Bool) → ℕ) (invalid : Invalid scene → F)
      (heap : List Neighbor) where
    -- The first requests, not yet submitted, each in a slot of its own.
    abbrev Filled : ℕ → (ℕ → AioSlot) × List ReadPlan × List ReadRequest → Kernel → Type 0
    Filled n (slots, waiting, submissions) k =
        Frame F scene.lists descriptors [] k
        × Running scene F descriptors topk files depth all 0 n [] [] submissions
            (state_of scene F descriptors topk files depth all slots waiting 0 heap)

    fill_slots_rule :
        (room slot_no n : ℕ) (plans : List ReadPlan) (slots : ℕ → AioSlot)
        (submissions : List ReadRequest) (k : Kernel)
        → Frame F scene.lists descriptors [] k
        → Running scene F descriptors topk files depth all room n [] [] submissions
            (state_of scene F descriptors topk files depth all slots plans 0 heap)
        → ((s : ℕ) → slot_no ≤ s → total (at_slot s) submissions ≡ 0)
        → Ends
            (fill_slots scene.store topk scene.distance files room slot_no plans slots submissions
              k)
            (Filled n)
            (Stopped scene F descriptors topk files)
    unfolding fill_slots
    fill_slots_rule zero slot_no n plans slots submissions k frame run free = (frame, run)
    fill_slots_rule (suc room) slot_no n [] slots submissions k frame run free = (
      frame,
      record {
        distinct = run.distinct;
        completed_match = run.completed_match;
        inflight_match = run.inflight_match;
        submitted_match = run.submitted_match;
        waiting_ready = run.waiting_ready;
        amount = run.amount;
        chosen = run.chosen;
        work = run.work;
        counter = run.counter;
        bound = omega (arith, run.bound);
        full = inl refl;
        left = run.left;
      },
    )
    fill_slots_rule (suc room) slot_no n (plan ∷ plans) slots submissions k frame run free =
        bind_rule (prepare_aio scene.store topk scene.distance files slot_no plan slots k) _
          (Prepares scene F descriptors topk files slot_no plan slots []) (Filled n)
          (Stopped scene F descriptors topk files)
          (prepare_aio_rule scene F descriptors topk files slot_no plan slots [] k
            run.waiting_ready.0 frame)
          (λ (slots', r) k' (frame', prepared).
            fill_slots_rule room (slot_no + 1) n plans slots' (submissions ++ (r ∷ [])) k' frame'
              (with_request scene F descriptors topk files depth all room n slot_no 0 [] []
                submissions slots slots' plan plans heap r run prepared
                (omega (arith, free slot_no (omega arith))))
              (λ s le.
                let other : at_slot s r ≡ 0 = ground (arith, prepared.own_slot) in
                omega (
                  arith,
                  total-append (at_slot s) submissions (r ∷ []),
                  other,
                  free s (omega arith),
                )))

    -- Every plan is read and its records are in the heap, in whatever order the reads complete.
    pub refine_aio_rule :
        (plans : List ReadPlan) (amount : (Neighbor → Bool) → ℕ) (k : Kernel)
        → 0 < depth
        → All (Ready scene F descriptors topk files) plans
        → IsChosen scene topk heap amount
        → ((test : Neighbor → Bool) → tally_items scene (items plans) test + amount test ≡ all test)
        → Frame F scene.lists descriptors [] k
        → Ends
            (refine_aio scene.store topk scene.distance files depth plans heap k)
            (Done scene F descriptors topk files depth all invalid)
            (Stopped scene F descriptors topk files)
    unfolding refine_aio
    refine_aio_rule plans amount k deep ready chosen sum frame =
        bind_rule (make_slots scene.store topk scene.distance depth k) _
          (λ _ k'. Frame F scene.lists descriptors [] k')
          (Done scene F descriptors topk files depth all invalid)
          (Stopped scene F descriptors topk files) (make_slots_rule depth [] k frame)
          (λ _ k' frame'.
            bind_rule
              (fill_slots scene.store topk scene.distance files depth 0 plans
                (λ slot_no. new_slot scene.store topk scene.distance) [] k')
              _ (Filled (length plans)) (Done scene F descriptors topk files depth all invalid)
              (Stopped scene F descriptors topk files)
              (fill_slots_rule depth 0 (length plans) plans
                (λ slot_no. new_slot scene.store topk scene.distance) [] k' frame'
                (record {
                  distinct = λ s. omega arith;
                  completed_match = tt;
                  inflight_match = tt;
                  submitted_match = tt;
                  waiting_ready = ready;
                  amount = amount;
                  chosen = chosen;
                  work = λ test. omega (arith, sum test);
                  counter = omega arith;
                  bound = omega arith;
                  full = inr (omega arith);
                  left = omega arith;
                })
                (λ s le. refl))
              (λ (slots, waiting, submissions) k2 (frame2, run).
                bind_rule (submit_requests (length submissions) submissions k2) _
                  (λ _ k3. Frame F scene.lists descriptors submissions k3)
                  (Done scene F descriptors topk files depth all invalid)
                  (Stopped scene F descriptors topk files)
                  (submit_requests_rule scene F descriptors topk files (length submissions)
                    submissions [] k2 (omega arith) frame2)
                  (λ _ k3 frame3.
                    let zero_more : 0 + length submissions ≡ length submissions = omega arith in
                    aio_loop_rule scene F descriptors topk files depth all invalid (length plans)
                      (length plans) submissions
                      (state_of scene F descriptors topk files depth all slots waiting
                        (length submissions) heap)
                      k3 (omega arith) deep
                      (
                        frame3,
                        subst
                            (λ (t : ℕ).
                              Running scene F descriptors topk files depth all 0 (length plans) []
                                submissions []
                                (state_of scene F descriptors topk files depth all slots waiting t
                                  heap))
                            zero_more
                            (submitted scene F descriptors topk files depth all invalid
                              (length plans) [] submissions
                              (state_of scene F descriptors topk files depth all slots waiting 0
                                heap)
                              run),
                      ))))
