-- ===== src/Refine/Scan/Blocking.antt =====
-- The blocking loop: every plan is read and its records go into the heap.
use recast.Prelude.{
  ℕ, ◌+◌, ◌<◌, ◌≡◌, inl, inr, Bool, not, List, [], ◌∷◌, All, tally-append, Option, some, ok, arith,
  ltb, ltb→lt, ◌==◌, Bool-cases,
}
use recast.Refine.{CandidateInRequest, ReadPlan}
use recast.Refine.Builder.{IsPlan, items}
use recast.Refine.TopK.{Neighbor}
use recast.Refine.Kernel.{Kernel, lift, pread, file_of, ReadRequest}
use recast.Refine.Scan.{
  OpenFile, descriptor_for, process_plan, read_plan, grow_buffer, read_plans, refine_blocking,
  new_buffer,
}
use recast.Refine.Scan.Calls.{
  Ends, bind_rule, throw_rule, Ends-mono, Frame, Thrown, pread_rule, HasRead, new_buffer_rule,
}
use recast.Refine.Scan.Processed.{Scene, exact, Invalid, IsChosen, tally_items, process_items-cases}

-- The files have an open descriptor for a list.
abbrev pub HasFile : List (ℕ × ℕ) → List OpenFile → ℕ → Type 0
HasFile descriptors files list_no =
    (fd : Option ℕ) × (descriptor_for files list_no ≡ ok fd)
    × (file_of fd descriptors ≡ some list_no)

-- What a refinement may throw for: a fault of a call, a distance that is none, and a file that ends
-- before the reads of a plan do.
pub record Reasons (scene : Scene) (plans : List ReadPlan) (F : Type 0) : Type 0 where
  pub invalid : Invalid scene → F
  pub short :
      All
        (λ (p : ReadPlan). (scene.lists p.list_no).size < p.aligned_offset + p.request_bytes → F)
        plans

module _ (scene : Scene) (F : Type 0) (descriptors : List (ℕ × ℕ)) (inflight : List ReadRequest)
    (topk : ℕ) (files : List OpenFile) where
  -- The state of the loop.
  abbrev pub Chosen : ((Neighbor → Bool) → ℕ) → List Neighbor → Kernel → Type 0
  Chosen amount heap k =
      Frame F scene.lists descriptors inflight k × IsChosen scene topk heap amount

  abbrev pub tally_plans : List ReadPlan → (Neighbor → Bool) → ℕ
  tally_plans plans test = tally_items scene (items plans) test

  process_rule :
      (plan : ReadPlan) (buffer : ℕ → ℕ) (heap : List Neighbor) (amount : (Neighbor → Bool) → ℕ)
      (k : Kernel)
      → IsPlan scene.store scene.at scene.count plan
      → (Invalid scene → F)
      → ((i : ℕ)
          → i < plan.request_bytes
          → buffer i ≡ (scene.lists plan.list_no).bytes (plan.aligned_offset + i))
      → Chosen amount heap k
      → Ends
          (lift (process_plan scene.store topk scene.distance buffer plan heap) k)
          (λ heap' k'.
            Chosen (λ test. tally_items scene plan.candidates test + amount test) heap' k')
          (Thrown F scene.lists descriptors inflight)
  unfolding process_plan
  process_rule plan buffer heap amount k is_plan invalid agree (frame, chosen) =
      elim (process_items-cases scene topk plan.list_no plan.aligned_offset plan.request_bytes
        buffer plan.candidates heap amount is_plan.read.records agree chosen) [
          | inl (heap', e, chosen') ↦ rw (e, Ends) (frame, chosen')
          | inr (e, bad) ↦ rw (e, Ends) (frame, invalid bad)
        ]

  read_plan_rule :
      (plan : ReadPlan) (buffer : ℕ → ℕ) (heap : List Neighbor) (amount : (Neighbor → Bool) → ℕ)
      (k : Kernel)
      → IsPlan scene.store scene.at scene.count plan
      → (Invalid scene → F)
      → ((scene.lists plan.list_no).size < plan.aligned_offset + plan.request_bytes → F)
      → HasFile descriptors files plan.list_no
      → Chosen amount heap k
      → Ends
          (read_plan scene.store topk scene.distance files plan buffer heap k)
          (λ (buffer', heap') k'.
            Chosen (λ test. tally_items scene plan.candidates test + amount test) heap' k')
          (Thrown F scene.lists descriptors inflight)
  unfolding read_plan
  read_plan_rule plan buffer heap amount k is_plan invalid short (fd, e, f) (frame, chosen) = rw e (
      bind_rule (pread fd plan.request_bytes plan.aligned_offset buffer k) _
        (HasRead F scene.lists descriptors inflight plan.list_no plan.request_bytes
          plan.aligned_offset)
        (λ (_, heap') k'.
          Chosen (λ test. tally_items scene plan.candidates test + amount test) heap' k')
        (Thrown F scene.lists descriptors inflight)
        (pread_rule F scene.lists descriptors inflight fd plan.list_no plan.request_bytes
          plan.aligned_offset buffer k f short frame)
        (λ (n, buffer') k' (frame', full, agree).
          throw_rule (not (n == plan.request_bytes)) _ _ k'
            (λ (_, heap') k'.
              Chosen (λ test. tally_items scene plan.candidates test + amount test) heap' k')
            (Thrown F scene.lists descriptors inflight)
            (λ t. elim full [
              | inl same ↦ let no_such : ⊥ = ground arith in elim no_such [ ]
              | inr reason ↦ (frame', reason)
            ])
            (λ t.
              let same : n ≡ plan.request_bytes = ground arith in
              bind_rule (lift (process_plan scene.store topk scene.distance buffer' plan heap) k') _
                (λ heap' k'.
                  Chosen (λ test. tally_items scene plan.candidates test + amount test) heap' k')
                (λ (_, heap') k'.
                  Chosen (λ test. tally_items scene plan.candidates test + amount test) heap' k')
                (Thrown F scene.lists descriptors inflight)
                (process_rule plan buffer' heap amount k' is_plan invalid
                  (λ i lt. agree i (omega arith)) (frame', chosen))
                (λ heap' k2 done. done))))

  grow_buffer_rule :
      (capacity : ℕ) (plan : ReadPlan) (buffer : ℕ → ℕ) (k : Kernel)
      → IsPlan scene.store scene.at scene.count plan
      → Frame F scene.lists descriptors inflight k
      → Ends
          (grow_buffer scene.store topk scene.distance capacity plan.request_bytes buffer k)
          (λ _ k'. Frame F scene.lists descriptors inflight k')
          (Thrown F scene.lists descriptors inflight)
  unfolding grow_buffer
  grow_buffer_rule capacity plan buffer k is_plan frame =
      elim (Bool-cases (ltb capacity plan.request_bytes)) [
        | inr t ↦ rw t frame
        | inl t ↦ rw t (
            bind_rule (new_buffer scene.store.page_size plan.request_bytes k) _
              (λ _ k'. Frame F scene.lists descriptors inflight k')
              (λ _ k'. Frame F scene.lists descriptors inflight k')
              (Thrown F scene.lists descriptors inflight)
              (new_buffer_rule F scene.lists descriptors inflight scene.store.page_size
                plan.request_bytes k scene.valid.power scene.valid.wide
                (omega (arith, ltb→lt _ _ t)) frame)
              (λ buffer' k' after. after))
      ]

  -- All the plans, one after the other.
  read_plans_rule :
      (plans : List ReadPlan) (capacity : ℕ) (buffer : ℕ → ℕ) (heap : List Neighbor)
      (amount : (Neighbor → Bool) → ℕ) (k : Kernel)
      → All (IsPlan scene.store scene.at scene.count) plans
      → Reasons scene plans F
      → All (λ (p : ReadPlan). HasFile descriptors files p.list_no) plans
      → Chosen amount heap k
      → Ends
          (read_plans scene.store topk scene.distance files plans capacity buffer heap k)
          (λ heap' k'. Chosen (λ test. tally_plans plans test + amount test) heap' k')
          (Thrown F scene.lists descriptors inflight)
  unfolding read_plans
  read_plans_rule [] capacity buffer heap amount k plan_is reasons files_are (frame, chosen) = (
    frame,
    record {
      seen = chosen.seen;
      rest = chosen.rest;
      selected = chosen.selected;
      same = λ test. omega (arith, chosen.same test);
    },
  )
  read_plans_rule (plan ∷ plans) capacity buffer heap amount k (is_plan, plan_is) reasons
        (file, files_are) (frame, chosen) =
      let Goal = λ (heap' : List Neighbor) (k' : Kernel).
        Chosen (λ test. tally_plans (plan ∷ plans) test + amount test) heap' k' in
      bind_rule (grow_buffer scene.store topk scene.distance capacity plan.request_bytes buffer k) _
        (λ _ k'. Frame F scene.lists descriptors inflight k') Goal
        (Thrown F scene.lists descriptors inflight)
        (grow_buffer_rule capacity plan buffer k is_plan frame)
        (λ (capacity', buffer') k' frame'.
          bind_rule (read_plan scene.store topk scene.distance files plan buffer' heap k') _
            (λ (_, heap') k'.
              Chosen (λ test. tally_items scene plan.candidates test + amount test) heap' k')
            Goal (Thrown F scene.lists descriptors inflight)
            (read_plan_rule plan buffer' heap amount k' is_plan reasons.invalid reasons.short.0 file
              (frame', chosen))
            (λ (buffer2, heap2) k2 chosen2.
              Ends-mono
                (read_plans scene.store topk scene.distance files plans capacity' buffer2 heap2 k2)
                (λ heap' k'.
                  Chosen
                    (λ test.
                      tally_plans plans test
                      + (tally_items scene plan.candidates test + amount test))
                    heap' k')
                Goal (Thrown F scene.lists descriptors inflight)
                (Thrown F scene.lists descriptors inflight)
                (read_plans_rule plans capacity' buffer2 heap2 _ k2 plan_is
                  (record { invalid = reasons.invalid; short = reasons.short.1 }) files_are chosen2)
                (λ heap3 k3 (frame3, c). (
                  frame3,
                  record {
                    seen = c.seen;
                    rest = c.rest;
                    selected = c.selected;
                    same = λ test. omega (
                      arith,
                      c.same test,
                      tally-append
                          (λ (i : CandidateInRequest). test (exact scene i.candidate_index))
                          plan.candidates (items plans),
                    );
                  },
                ))
                (λ k3 t. t)))

  pub refine_blocking_rule :
      (plans : List ReadPlan) (heap : List Neighbor) (amount : (Neighbor → Bool) → ℕ) (k : Kernel)
      → All (IsPlan scene.store scene.at scene.count) plans
      → Reasons scene plans F
      → All (λ (p : ReadPlan). HasFile descriptors files p.list_no) plans
      → Chosen amount heap k
      → Ends
          (refine_blocking scene.store topk scene.distance files plans heap k)
          (λ heap' k'. Chosen (λ test. tally_plans plans test + amount test) heap' k')
          (Thrown F scene.lists descriptors inflight)
  unfolding refine_blocking
  refine_blocking_rule plans heap amount k plan_is reasons files_are (frame, chosen) =
      bind_rule (new_buffer scene.store.page_size scene.store.page_size k) _
        (λ _ k'. Frame F scene.lists descriptors inflight k')
        (λ heap' k'. Chosen (λ test. tally_plans plans test + amount test) heap' k')
        (Thrown F scene.lists descriptors inflight)
        (new_buffer_rule F scene.lists descriptors inflight scene.store.page_size
          scene.store.page_size k scene.valid.power scene.valid.wide
          (omega (arith, scene.valid.wide)) frame)
        (λ buffer k' frame'.
          read_plans_rule plans scene.store.page_size buffer heap amount k' plan_is reasons
            files_are (frame', chosen))
