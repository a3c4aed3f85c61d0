-- ===== src/Refine/Aio/Pending.antt =====
-- The requests in flight: which of them a call completes, and which it leaves.
use recast.Prelude.{
  ℕ, zero, suc, ◌+◌, ◌-◌, ◌%◌, ◌<◌, ◌≡◌, refl, ◌⊎◌, inl, inr, true, List, [], ◌∷◌, map, All, Any,
  none, some, arith, total, length, min, ◌==◌, Bool-cases, Bool-cases,
}
use recast.Storage.{File}
use recast.Refine.Kernel.{
  Amount, all_bytes, no_bytes, some_bytes, Completion, IsBad, ReadRequest, Event, amount_read,
  read_event, pick, complete, file_of,
}

abbrev pub requests_of : List Event → List ReadRequest
requests_of events = map (λ (e : Event). e.obj) events

total-pick :
    (f : ReadRequest → ℕ) (n : ℕ) (request : ReadRequest) (requests : List ReadRequest)
    → f (pick n request requests).0 + total f (pick n request requests).1
      ≡ f request + total f requests
unfolding pick
total-pick f zero request requests = refl
total-pick f (suc n) request [] = refl
total-pick f (suc n) request (next ∷ requests) = omega (arith, total-pick f n next requests)

-- What a call completes and what it leaves are what was in flight.
pub total-complete :
    (f : ReadRequest → ℕ) (lists : ℕ → File) (descriptors : List (ℕ × ℕ)) (cs : List Completion)
    (inflight : List ReadRequest)
    → total f (requests_of (complete lists descriptors cs inflight).0)
        + total f (complete lists descriptors cs inflight).1
      ≡ total f inflight
unfolding complete
total-complete f lists descriptors [] inflight = omega arith
total-complete f lists descriptors (c ∷ cs) [] = refl
total-complete f lists descriptors (c ∷ cs) (request ∷ requests) =
    let n = c.choice % suc (length requests) in
    omega (
      arith,
      total-pick f n request requests,
      total-complete f lists descriptors cs (pick n request requests).1,
    )

module _ (P : ReadRequest → Type 0) where
  pick-All :
      (n : ℕ) (request : ReadRequest) (requests : List ReadRequest)
      → P request
      → All P requests
      → P (pick n request requests).0 × All P (pick n request requests).1
  unfolding pick
  pick-All zero request requests p all = (p, all)
  pick-All (suc n) request [] p all = (p, tt)
  pick-All (suc n) request (next ∷ requests) p (q, all) =
      let (found, others) = pick-All n next requests q all in (found, (p, others))

  pub complete-All :
      (lists : ℕ → File) (descriptors : List (ℕ × ℕ)) (cs : List Completion)
      (inflight : List ReadRequest)
      → All P inflight
      → All P (requests_of (complete lists descriptors cs inflight).0)
        × All P (complete lists descriptors cs inflight).1
  unfolding complete
  complete-All lists descriptors [] inflight all = (tt, all)
  complete-All lists descriptors (c ∷ cs) [] all = (tt, tt)
  complete-All lists descriptors (c ∷ cs) (request ∷ requests) (p, all) =
      let n = c.choice % suc (length requests) in
      let (q, others) = pick-All n request requests p all in
      let (done, left) = complete-All lists descriptors cs (pick n request requests).1 others in
      ((q, done), left)

-- What an event tells of its request; whatever is amiss has a reason.
pub record IsEvent (lists : ℕ → File) (descriptors : List (ℕ × ℕ)) (Bad : Type 0) (event : Event)
    : Type 0 where
  pub pointer : (event.data_pointer ≡ some event.obj.slot) ⊎ ((event.data_pointer ≡ none) × Bad)
  pub second : ((event.res2 == 0) ≡ true) ⊎ Bad
  pub result :
      (list_no : ℕ)
      → file_of event.obj.fd descriptors ≡ some list_no
      → ((m : ℕ) × (event.res ≡ some m)
          × ((m ≡ min event.obj.bytes ((lists list_no).size - event.obj.offset)) ⊎ Bad))
        ⊎ ((event.res ≡ none) × Bad)
  pub cells :
      (list_no : ℕ)
      → file_of event.obj.fd descriptors ≡ some list_no
      → (i : ℕ) → event.bytes i ≡ (lists list_no).bytes (event.obj.offset + i)

read_amount :
    (a : Amount) (available : ℕ)
    → ((m : ℕ) × (amount_read a available ≡ some m)
        × ((m ≡ available) ⊎ ((a ≡ no_bytes) ⊎ ((k : ℕ) × (a ≡ some_bytes k)))))
      ⊎ ((amount_read a available ≡ none) × (a ≡ no_bytes))
read_amount all_bytes available = inl (available, refl, inl refl)
read_amount no_bytes available = inr (refl, refl)
read_amount (some_bytes k) available = inl (min k available, refl, inr (inr (k, refl)))

read_event-IsEvent :
    (lists : ℕ → File) (descriptors : List (ℕ × ℕ)) (c : Completion) (request : ReadRequest)
    → IsEvent lists descriptors
        (IsBad c)
        (read_event lists (file_of request.fd descriptors) c request)
read_event-IsEvent lists descriptors c request = record {
  pointer = elim (Bool-cases c.lost) [
    | inl lost ↦ inr (rw lost refl, inl (inl lost))
    | inr kept ↦ inl (rw kept refl)
  ];
  second = elim (Bool-cases (c.res2 == 0)) [ inl e ↦ inl e | inr e ↦ inr (inr (inr e)) ];
  result = λ list_no file.
      rw file
        (elim (read_amount c.amount (min request.bytes ((lists list_no).size - request.offset))) [
          | inl (m, e, inl same) ↦ inl (m, e, inl same)
          | inl (m, e, inr (inl none_read)) ↦ inl (m, e, inr (inl (inr none_read)))
          | inl (m, e, inr (inr short)) ↦ inl (m, e, inr (inr (inl short)))
          | inr (e, none_read) ↦ inr (e, inl (inr none_read))
        ]);
  cells = λ list_no file i. rw file refl;
}

IsEvent-mono :
    (lists : ℕ → File) (descriptors : List (ℕ × ℕ)) (A B : Type 0) (event : Event)
    → (A → B)
    → IsEvent lists descriptors A event
    → IsEvent lists descriptors B event
IsEvent-mono lists descriptors A B event f e = record {
  pointer = elim e.pointer [ inl p ↦ inl p | inr (p, a) ↦ inr (p, f a) ];
  second = elim e.second [ inl p ↦ inl p | inr a ↦ inr (f a) ];
  result = λ list_no file. elim (e.result list_no file) [
    | inl (m, r, inl same) ↦ inl (m, r, inl same)
    | inl (m, r, inr a) ↦ inl (m, r, inr (f a))
    | inr (r, a) ↦ inr (r, f a)
  ];
  cells = e.cells;
}

-- The events of a call, whose reasons are its bad completions.
pub complete-IsEvent :
    (lists : ℕ → File) (descriptors : List (ℕ × ℕ)) (cs : List Completion)
    (inflight : List ReadRequest) (F : Type 0)
    → (Any IsBad cs → F)
    → All (IsEvent lists descriptors F) (complete lists descriptors cs inflight).0
unfolding complete
complete-IsEvent lists descriptors [] inflight F f = tt
complete-IsEvent lists descriptors (c ∷ cs) [] F f = tt
complete-IsEvent lists descriptors (c ∷ cs) (request ∷ requests) F f =
    let (found, others) = pick (c.choice % suc (length requests)) request requests in
    (
      IsEvent-mono lists descriptors (IsBad c) F _ (λ b. f (inl b))
          (read_event-IsEvent lists descriptors c found),
      complete-IsEvent lists descriptors cs others F (λ any. f (inr any)),
    )

-- Some request is completed.
pub complete_some :
    (lists : ℕ → File) (descriptors : List (ℕ × ℕ)) (cs : List Completion)
    (inflight : List ReadRequest)
    → 0 < length cs
    → 0 < length inflight
    → 0 < length (complete lists descriptors cs inflight).0
unfolding complete
complete_some lists descriptors [] inflight h k = h
complete_some lists descriptors (c ∷ cs) [] h k = k
complete_some lists descriptors (c ∷ cs) (request ∷ requests) h k = omega arith
