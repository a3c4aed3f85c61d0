-- ===== src/Refine/Aio/Steps.antt =====
-- The requests in flight, the plans of their slots and the heap: what one completion does to them.
use recast.Prelude.{
  ℕ, ◌+◌, ◌≤◌, ◌<◌, ◌≡◌, refl, sym, ap, subst, ◌⊎◌, inl, inr, Bool, true, false, List, [], ◌∷◌, All,
  total, some, arith, ltb, ltb→lt, ◌==◌, eq→==, Bool-cases, length, store, if◌then◌else◌,
}
use recast.Refine.{ReadPlan}
use recast.Refine.Builder.{IsPlan, items}
use recast.Refine.TopK.{Neighbor}
use recast.Refine.Kernel.{Kernel, ReadRequest, file_of}
use recast.Refine.Scan.{OpenFile, new_buffer}
use recast.Refine.Scan.Calls.{Ends, bind_rule, Ends-mono, Frame, Thrown, new_buffer_rule}
use recast.Refine.Scan.Processed.{Scene, IsChosen, tally_items}
use recast.Refine.Scan.Blocking.{HasFile}
use recast.Refine.Aio.{AioSlot, AioState, ensure_capacity, prepare_aio}

abbrev pub at_slot : ℕ → ReadRequest → ℕ
at_slot s r = if r.slot == s then 1 else 0

store_other :
    (slots : ℕ → AioSlot) (i s : ℕ) (slot : AioSlot)
    → (s == i) ≡ false
    → store slots i slot s ≡ slots s
store_other slots i s slot h = let e : (i == s) ≡ false = ground arith in rw e refl

store_same : (slots : ℕ → AioSlot) (i : ℕ) (slot : AioSlot) → store slots i slot i ≡ slot
store_same slots i slot = let e : (i == i) ≡ true = eq→== i i refl in rw e refl

module _ (scene : Scene) (F : Type 0) (descriptors : List (ℕ × ℕ)) (topk : ℕ)
    (files : List OpenFile) where
  -- A plan that can be read, or there is a reason why not.
  pub record Ready (plan : ReadPlan) : Type 0 where
    pub is_plan : IsPlan scene.store scene.at scene.count plan
    pub file : HasFile descriptors files plan.list_no
    pub short : (scene.lists plan.list_no).size < plan.aligned_offset + plan.request_bytes → F

  -- The request reads a plan, from a file that is open.
  pub record Reads (plan : ReadPlan) (r : ReadRequest) : Type 0 where
    pub ready : Ready plan
    pub offset : r.offset ≡ plan.aligned_offset
    pub bytes : r.bytes ≡ plan.request_bytes
    pub open_file : file_of r.fd descriptors ≡ some plan.list_no

  abbrev pub Matches : (ℕ → AioSlot) → ReadRequest → Type 0
  Matches slots r = Reads (slots r.slot).plan r

  abbrev pub weight : (ℕ → AioSlot) → (Neighbor → Bool) → ReadRequest → ℕ
  weight slots test r = tally_items scene (slots r.slot).plan.candidates test

  -- Thrown for a reason, with the files open.
  pub record Stopped (k : Kernel) : Type 0 where
    pub same_lists : k.lists ≡ scene.lists
    pub same_descriptors : k.descriptors ≡ descriptors
    pub reason : F

  pub Thrown-Stopped :
      (inflight : List ReadRequest) (k : Kernel)
      → Thrown F scene.lists descriptors inflight k
      → Stopped k
  Thrown-Stopped inflight k (frame, reason) = record {
    same_lists = frame.same_lists;
    same_descriptors = frame.same_descriptors;
    reason = reason;
  }

  module _ (depth : ℕ) (all : (Neighbor → Bool) → ℕ) where
    -- The events still to be processed are about `events`, the kernel has `inflight`, and
    -- `submissions` are to be submitted: no two of them use one slot, and what they read, the plans
    -- that wait and what was put into the heap are all there is to read. `spare` slots wait for a plan.
    pub record Running (spare n : ℕ) (events inflight submissions : List ReadRequest)
        (state : AioState) : Type 0 where
      pub distinct :
          (s : ℕ)
          → total (at_slot s) events + (total (at_slot s) inflight + total (at_slot s) submissions)
            ≤ 1
      pub completed_match : All (Matches state.slots) events
      pub inflight_match : All (Matches state.slots) inflight
      pub submitted_match : All (Matches state.slots) submissions
      pub waiting_ready : All Ready state.waiting
      pub amount : (Neighbor → Bool) → ℕ
      pub chosen : IsChosen scene topk state.heap amount
      pub work :
          (test : Neighbor → Bool)
          → amount test
              + (total (weight state.slots test) events
                  + (total (weight state.slots test) inflight
                      + (total (weight state.slots test) submissions
                          + tally_items scene (items state.waiting) test)))
            ≡ all test
      pub counter : state.inflight ≡ length events + length inflight
      pub bound : length events + (length inflight + length submissions) + spare ≤ depth
      pub full :
          (state.waiting ≡ [])
          ⊎ (length events + (length inflight + length submissions) + spare ≡ depth)
      pub left : length events + (length inflight + (length submissions + length state.waiting)) ≡ n

  -- The slots after one has a new plan, and the request for it.
  pub record Prepared (slot_no : ℕ) (plan : ReadPlan) (slots slots' : ℕ → AioSlot) (r : ReadRequest)
      : Type 0 where
    pub others : (s : ℕ) → (s == slot_no) ≡ false → slots' s ≡ slots s
    pub own_slot : r.slot ≡ slot_no
    pub reads : Matches slots' r
    pub own_plan : (slots' slot_no).plan ≡ plan

  abbrev pub Prepares :
      ℕ
      → ReadPlan
      → (ℕ → AioSlot)
      → List ReadRequest
      → (ℕ → AioSlot) × ReadRequest
      → Kernel
      → Type 0
  Prepares slot_no plan slots inflight (slots', r) k =
      Frame F scene.lists descriptors inflight k × Prepared slot_no plan slots slots' r

  ensure_capacity_rule :
      (slot : AioSlot) (plan : ReadPlan) (inflight : List ReadRequest) (k : Kernel)
      → Ready plan
      → Frame F scene.lists descriptors inflight k
      → Ends
          (ensure_capacity scene.store topk scene.distance slot plan.request_bytes k)
          (λ _ k'. Frame F scene.lists descriptors inflight k')
          Stopped
  unfolding ensure_capacity
  ensure_capacity_rule slot plan inflight k ready frame =
      elim (Bool-cases (ltb slot.capacity plan.request_bytes)) [
        | inr t ↦ rw t frame
        | inl t ↦ rw t (
            bind_rule (new_buffer scene.store.page_size plan.request_bytes k) _
              (λ _ k'. Frame F scene.lists descriptors inflight k')
              (λ _ k'. Frame F scene.lists descriptors inflight k') Stopped
              (Ends-mono (new_buffer scene.store.page_size plan.request_bytes k)
                (λ _ k'. Frame F scene.lists descriptors inflight k')
                (λ _ k'. Frame F scene.lists descriptors inflight k')
                (Thrown F scene.lists descriptors inflight) Stopped
                (new_buffer_rule F scene.lists descriptors inflight scene.store.page_size
                  plan.request_bytes k scene.valid.power scene.valid.wide
                  (omega (arith, ltb→lt _ _ t)) frame)
                (λ buffer k' after. after) (λ k'. Thrown-Stopped inflight k'))
              (λ buffer k' after. after))
      ]

  pub prepare_aio_rule :
      (slot_no : ℕ) (plan : ReadPlan) (slots : ℕ → AioSlot) (inflight : List ReadRequest)
      (k : Kernel)
      → Ready plan
      → Frame F scene.lists descriptors inflight k
      → Ends
          (prepare_aio scene.store topk scene.distance files slot_no plan slots k)
          (Prepares slot_no plan slots inflight)
          Stopped
  unfolding prepare_aio
  prepare_aio_rule slot_no plan slots inflight k ready frame =
      let (fd, e, open_file) = ready.file in
      rw e (
        bind_rule
          (ensure_capacity scene.store topk scene.distance (slots slot_no) plan.request_bytes k) _
          (λ _ k'. Frame F scene.lists descriptors inflight k')
          (Prepares slot_no plan slots inflight) Stopped
          (ensure_capacity_rule (slots slot_no) plan inflight k ready frame)
          (λ slot k' frame'.
            let slot' : AioSlot = record slot { plan = plan } in
            let r : ReadRequest = record {
              slot = slot_no;
              fd = fd;
              offset = plan.aligned_offset;
              bytes = plan.request_bytes;
            } in
            let own : (store slots slot_no slot' slot_no).plan ≡ plan =
              ap (λ (t : AioSlot). t.plan) (store_same slots slot_no slot') in
            (
              frame',
              record {
                others = λ s h. store_other slots slot_no s slot' h;
                own_slot = refl;
                reads =
                    subst (λ (p : ReadPlan). Reads p r) (sym own)
                      (record {
                        ready = ready;
                        offset = refl;
                        bytes = refl;
                        open_file = open_file;
                      });
                own_plan = own;
              },
            )))

  -- Requests of other slots are not touched by a new plan for a slot.
  pub kept_All :
      (slot_no : ℕ) (slots slots' : ℕ → AioSlot) (xs : List ReadRequest)
      → ((s : ℕ) → (s == slot_no) ≡ false → slots' s ≡ slots s)
      → total (at_slot slot_no) xs ≡ 0
      → All (Matches slots) xs
      → All (Matches slots') xs
  kept_All slot_no slots slots' [] others none_at all = tt
  kept_All slot_no slots slots' (r ∷ xs) others none_at (m, all) =
      let e : (r.slot == slot_no) ≡ false = ground (arith, none_at) in
      (
        subst (λ (t : AioSlot). Reads t.plan r) (sym (others r.slot e)) m,
        kept_All slot_no slots slots' xs others (ground (arith, none_at)) all,
      )

  pub kept_total :
      (slot_no : ℕ) (slots slots' : ℕ → AioSlot) (test : Neighbor → Bool) (xs : List ReadRequest)
      → ((s : ℕ) → (s == slot_no) ≡ false → slots' s ≡ slots s)
      → total (at_slot slot_no) xs ≡ 0
      → total (weight slots' test) xs ≡ total (weight slots test) xs
  kept_total slot_no slots slots' test [] others none_at = refl
  kept_total slot_no slots slots' test (r ∷ xs) others none_at =
      let e : (r.slot == slot_no) ≡ false = ground (arith, none_at) in
      let w = ap (λ (t : AioSlot). tally_items scene t.plan.candidates test) (others r.slot e) in
      omega (arith, w, kept_total slot_no slots slots' test xs others (ground (arith, none_at)))
