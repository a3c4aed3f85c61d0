-- ===== src/Records/Lookup/Requests.antt =====
-- The requests of a read, made and sorted.
use recast.Prelude.{
  ℕ, zero, suc, ◌+◌, ◌/◌, ◌%◌, ◌^◌, ◌≤◌, ◌<◌, ◌≡◌, refl, sym, ◌⊎◌, inl, inr, List, [], ◌∷◌, Result,
  ok, err, ◌>>=◌, out_of_range, leb, length, get_or, All, Any, arith, Bool-cases,
}
use recast.Records.{ListFileRecordStore}
use recast.Records.Lookup.{Request, make_requests, request_before, insert_request, sort_requests}

module _ (P : Request → Type 0) where
  insert_request-All :
      (r : Request) (requests : List Request)
      → P r
      → All P requests
      → All P (insert_request r requests)
  unfolding insert_request
  insert_request-All r [] p all = (p, tt)
  insert_request-All r (s ∷ requests) p (q, all) = elim (Bool-cases (request_before s r)) [
    | inl e ↦ rw e (q, insert_request-All r requests p all)
    | inr e ↦ rw e (p, (q, all))
  ]

  pub sort_requests-All :
      (requests : List Request) → All P requests → All P (sort_requests requests)
  unfolding sort_requests
  sort_requests-All [] all = tt
  sort_requests-All (r ∷ requests) (p, all) =
      insert_request-All r (sort_requests requests) p (sort_requests-All requests all)

  insert_request-Any :
      (r : Request) (requests : List Request)
      → P r ⊎ Any P requests
      → Any P (insert_request r requests)
  unfolding insert_request
  insert_request-Any r [] any = any
  insert_request-Any r (s ∷ requests) any = elim (Bool-cases (request_before s r)) [
    | inl e ↦ rw e (elim any [
      | inl p ↦ inr (insert_request-Any r requests (inl p))
      | inr (inl q) ↦ inl q
      | inr (inr a) ↦ inr (insert_request-Any r requests (inr a))
    ])
    | inr e ↦ rw e any
  ]

  pub sort_requests-Any :
      (requests : List Request) → Any P requests → Any P (sort_requests requests)
  unfolding sort_requests
  sort_requests-Any [] any = any
  sort_requests-Any (r ∷ requests) (inl p) = insert_request-Any r (sort_requests requests) (inl p)
  sort_requests-Any (r ∷ requests) (inr a) =
      insert_request-Any r (sort_requests requests) (inr (sort_requests-Any requests a))

-- The request for `offset`, which stands at `at` among the offsets.
pub record IsRequest (store : ListFileRecordStore) (logical_size : ℕ) (at : ℕ → ℕ) (r : Request)
    : Type 0 where
  pub page : r.page ≡ r.offset / (store.records_per_page % 2 ^ 32)
  pub offset : r.offset ≡ at r.input
  pub inside : r.offset < logical_size

module _ (store : ListFileRecordStore) (logical_size : ℕ) (at : ℕ → ℕ) where
  -- Every offset is refused or has its request.
  abbrev pub Made : List ℕ → ℕ → Result (List Request) → Type 0
  Made offsets input r =
      ((requests : List Request) × (r ≡ ok requests)
        × All (IsRequest store logical_size at) requests
        × ((j : ℕ) → j < length offsets → Any (λ s. s.input ≡ input + j) requests))
      ⊎ ((r ≡ err out_of_range) × Any (λ offset. logical_size ≤ offset) offsets)

  -- One more offset in front.
  Made-cons :
      (offset : ℕ) (offsets : List ℕ) (input : ℕ) (r : Result (List Request))
      → at input ≡ offset
      → offset < logical_size
      → Made offsets (input + 1) r
      → Made (offset ∷ offsets) input (
          r >>= λ requests. ok (
            record {
              page = offset / (store.records_per_page % 2 ^ 32);
              offset = offset;
              input = input;
            }
            ∷ requests))
  Made-cons offset offsets input r here lt (inl (requests, e, all, found)) = rw e (
      inl
        (_, refl, (record { page = refl; offset = sym here; inside = lt }, all), λ j h. places j h))
    where
      places :
          (j : ℕ)
          → j < length (offset ∷ offsets)
          → (input ≡ input + j) ⊎ Any (λ s. s.input ≡ input + j) requests
      places zero h = inl (omega arith)
      places (suc j) h =
          let next : input + 1 + j ≡ input + suc j = omega arith in
          inr (rw next at (found j (omega arith)))
  Made-cons offset offsets input r here lt (inr (e, bad)) = rw e (inr (refl, inr bad))

  pub make_requests-Made :
      (offsets : List ℕ) (input : ℕ)
      → ((j : ℕ) → j < length offsets → at (input + j) ≡ get_or offsets j 0)
      → Made offsets input (make_requests store logical_size offsets input)
  unfolding make_requests
  make_requests-Made [] input same = inl ([], refl, tt, λ j lt. absurd (omega arith))
  make_requests-Made (offset ∷ offsets) input same = elim (Bool-cases (leb logical_size offset)) [
    | inl e ↦ rw e (inr (refl, inl (ground arith)))
    | inr e ↦
        let here : input + 0 ≡ input = omega arith in
        rw e (
          Made-cons offset offsets input (make_requests store logical_size offsets (input + 1))
            (rw here at (same 0 (omega arith))) (ground arith)
            (make_requests-Made offsets (input + 1) λ j h.
              let next : input + suc j ≡ input + 1 + j = omega arith in
              rw next at (same (suc j) (omega arith))))
  ]
