-- ===== src/Refine/Aio.antt =====
-- The asynchronous reads of adapters/list_file_aio_refiner.cpp (`prepare_aio`, `submit_requests`,
-- `refine_aio`). A slot has its plan where the source has the plan's index, and `waiting` are the plans
-- from `next_plan` on.
pub mod Pending
pub mod Steps
pub mod Events
pub mod Queue
pub mod Loop
pub mod Started
use recast.Prelude.{
  ℕ, zero, suc, ◌+◌, ◌-◌, ◌≡◌, Bool, true, false, not, List, [], ◌∷◌, ◌++◌, Option, none, some,
  Result, ok, err, logic_error, runtime_error, system_error, throw_if, ltb, ◌==◌, if◌then◌else◌,
  length, min, store, copy, drop,
}
use recast.Records.{ListFileRecordStore}
use recast.Refine.{ReadPlan}
use recast.Refine.TopK.{Neighbor}
use recast.Refine.Kernel.{
  ReadRequest, Kernel, K, pure, lift, ◌>>=◌, ◌>>◌, Event, io_submit, io_getevents,
}
use recast.Refine.Scan.{OpenFile, new_buffer, descriptor_for, process_plan}

pub record AioSlot : Type 0 where
  pub plan : ReadPlan
  pub buffer : ℕ → ℕ
  pub capacity : ℕ

-- The variables of the loop.
pub record AioState : Type 0 where
  pub slots : ℕ → AioSlot
  pub waiting : List ReadPlan
  pub inflight : ℕ
  pub heap : List Neighbor

-- `submit_requests`; each round takes one request at least, or throws.
unfoldable pub submit_requests : ℕ → List ReadRequest → K (Unit {0})
submit_requests fuel [] = pure tt
submit_requests zero (r ∷ requests) = lift (err logic_error)
submit_requests (suc fuel) (r ∷ requests) = io_submit (r ∷ requests) >>= λ result.
    lift (throw_if (result == 0) runtime_error) >> submit_requests fuel (drop result (r ∷ requests))

module _ (records : ListFileRecordStore) (topk : ℕ) (distance : (ℕ → ℕ) → ℕ) where
  unfoldable pub ensure_capacity : AioSlot → ℕ → K AioSlot
  ensure_capacity slot bytes =
      if ltb slot.capacity bytes
      then (new_buffer records.page_size bytes >>= λ buffer.
          pure (record slot { buffer = buffer; capacity = bytes }))
      else pure slot

  -- A slot is given a plan; the request that reads it comes after the others.
  unfoldable pub prepare_aio :
      List OpenFile → ℕ → ReadPlan → (ℕ → AioSlot) → K ((ℕ → AioSlot) × ReadRequest)
  prepare_aio files slot_no plan slots = lift (descriptor_for files plan.list_no) >>= λ fd.
      ensure_capacity (slots slot_no) plan.request_bytes >>= λ slot. pure (
        store slots slot_no (record slot { plan = plan }),
        record {
          slot = slot_no;
          fd = fd;
          offset = plan.aligned_offset;
          bytes = plan.request_bytes;
        },
      )

  -- The first plans, one for each of the `room` slots from number `slot_no` on.
  unfoldable pub fill_slots :
      List OpenFile
      → ℕ
      → ℕ
      → List ReadPlan
      → (ℕ → AioSlot)
      → List ReadRequest
      → K ((ℕ → AioSlot) × List ReadPlan × List ReadRequest)
  fill_slots files zero slot_no plans slots submissions = pure (slots, plans, submissions)
  fill_slots files (suc room) slot_no [] slots submissions = pure (slots, [], submissions)
  fill_slots files (suc room) slot_no (plan ∷ plans) slots submissions =
      prepare_aio files slot_no plan slots >>= λ (slots, request).
      fill_slots files room (slot_no + 1) plans slots (submissions ++ (request ∷ []))

  -- A slot is used again for the next plan, if there is one.
  unfoldable pub next_request :
      List OpenFile → ℕ → AioState → List ReadRequest → K (AioState × List ReadRequest)
  next_request files slot_no state submissions = elim state.waiting [
    | [] ↦ pure (state, submissions)
    | plan ∷ plans ↦ prepare_aio files slot_no plan state.slots >>= λ (slots, request).
        pure (record state { slots = slots; waiting = plans }, submissions ++ (request ∷ []))
  ]

  unfoldable pub process_event :
      List OpenFile → Event → AioState → List ReadRequest → K (AioState × List ReadRequest)
  process_event files event state submissions = elim event.data_pointer [
    | none ↦ lift (err runtime_error)
    | some slot_no ↦
        let slot = state.slots slot_no in
        lift (throw_if (not (event.res2 == 0)) runtime_error) >> elim event.res [
          | none ↦ lift (err system_error)
          | some result ↦
              lift (throw_if (not (result == slot.plan.request_bytes)) runtime_error)
              >> (lift (
                    process_plan records topk distance (copy slot.buffer 0 event.bytes 0 result)
                      slot.plan state.heap)
                  >>= λ heap.
                      next_request files slot_no
                        (record state { heap = heap; inflight = state.inflight - 1 }) submissions)
        ]
  ]

  unfoldable pub process_events :
      List OpenFile → List Event → AioState → List ReadRequest → K (AioState × List ReadRequest)
  process_events files [] state submissions = pure (state, submissions)
  process_events files (event ∷ events) state submissions =
      process_event files event state submissions >>= λ (state, submissions).
      process_events files events state submissions

  -- The loop while requests are in flight; each round completes one at least.
  unfoldable pub aio_loop : List OpenFile → ℕ → AioState → K (List Neighbor)
  aio_loop files zero state =
      if state.inflight == 0 then pure state.heap else lift (err logic_error)
  aio_loop files (suc fuel) state =
      if state.inflight == 0
      then pure state.heap
      else (io_getevents >>= λ events.
          lift (throw_if (length events == 0) runtime_error)
          >> (process_events files events state [] >>= λ (state, submissions).
              submit_requests (length submissions) submissions
              >> aio_loop files fuel
                  (record state { inflight = state.inflight + length submissions })))

  abbrev pub new_slot : AioSlot
  new_slot = record {
    plan = record {
      list_no = 0;
      aligned_offset = 0;
      request_bytes = 0;
      page_count = 0;
      candidates = [];
    };
    buffer = λ i. 0;
    capacity = records.page_size;
  }

  -- `slots.emplace_back(page_size)`, so many times.
  unfoldable pub make_slots : ℕ → K (Unit {0})
  make_slots zero = pure tt
  make_slots (suc n) =
      make_slots n >> (new_buffer records.page_size records.page_size >>= λ buffer. pure tt)

  unfoldable pub refine_aio : List OpenFile → ℕ → List ReadPlan → List Neighbor → K (List Neighbor)
  refine_aio files queue_depth plans heap =
      make_slots queue_depth
      >> (fill_slots files queue_depth 0 plans (λ slot_no. new_slot) []
          >>= λ (slots, waiting, submissions).
              submit_requests (length submissions) submissions
              >> aio_loop files (length plans) (record {
                slots = slots;
                waiting = waiting;
                inflight = length submissions;
                heap = heap;
              }))
