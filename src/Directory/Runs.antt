-- ===== src/Directory/Runs.antt =====
-- The requests of a read of the directory: made, sorted and cut into runs of one page.
use recast.Prelude.{
  ℕ, zero, suc, ◌+◌, ◌/◌, ◌<◌, ◌≡◌, refl, sym, ◌≤◌, ◌⊎◌, inl, inr, List, [], ◌∷◌, ◌==◌, length,
  get_or, All, Any, arith, Bool-cases,
}
use recast.Directory.{
  ExternalLocationDirectory, entries_per_page, Request, make_requests, request_before,
  insert_request, sort_requests, add_run, page_runs,
}

module _ (P : Request → Type 0) where
  insert_request-All :
      (r : Request) (requests : List Request)
      → P r
      → All P requests
      → All P (insert_request r requests)
  unfolding insert_request
  insert_request-All r [] p all = (p, tt)
  insert_request-All r (s ∷ requests) p (q, all) = elim (Bool-cases (request_before s r)) [
    | inl e ↦ rw e (q, insert_request-All r requests p all)
    | inr e ↦ rw e (p, (q, all))
  ]

  pub sort_requests-All :
      (requests : List Request) → All P requests → All P (sort_requests requests)
  unfolding sort_requests
  sort_requests-All [] all = tt
  sort_requests-All (r ∷ requests) (p, all) =
      insert_request-All r (sort_requests requests) p (sort_requests-All requests all)

  insert_request-Any :
      (r : Request) (requests : List Request)
      → P r ⊎ Any P requests
      → Any P (insert_request r requests)
  unfolding insert_request
  insert_request-Any r [] any = any
  insert_request-Any r (s ∷ requests) any = elim (Bool-cases (request_before s r)) [
    | inr e ↦ rw e any
    | inl e ↦ rw e (elim any [
      | inl p ↦ inr (insert_request-Any r requests (inl p))
      | inr (inl q) ↦ inl q
      | inr (inr a) ↦ inr (insert_request-Any r requests (inr a))
    ])
  ]

  pub sort_requests-Any :
      (requests : List Request) → Any P requests → Any P (sort_requests requests)
  unfolding sort_requests
  sort_requests-Any [] any = any
  sort_requests-Any (r ∷ requests) (inl p) = insert_request-Any r (sort_requests requests) (inl p)
  sort_requests-Any (r ∷ requests) (inr a) =
      insert_request-Any r (sort_requests requests) (inr (sort_requests-Any requests a))

-- Cutting into runs, for any kind of thing that has a page.
module _ {A : Type 0} (page : A → ℕ) where
  -- A run has a thing, and all it has are of its page.
  abbrev pub IsRun : (A → Type 0) → ℕ × List A → Type 0
  IsRun P run =
      (Any (λ x. P x × (page x ≡ run.0)) run.1) × (All (λ x. P x × (page x ≡ run.0)) run.1)

  add_run-IsRun :
      (P : A → Type 0) (x : A) (runs : List (ℕ × List A))
      → P x
      → All (IsRun P) runs
      → All (IsRun P) (add_run (page x) x runs)
  unfolding add_run
  add_run-IsRun P x [] p all = ((inl (p, refl), ((p, refl), tt)), tt)
  add_run-IsRun P x ((q, run) ∷ runs) p ((some_of, all_of), all) = elim (Bool-cases (page x == q)) [
    | inl e ↦
        let same : page x ≡ q = ground arith in rw e ((inl (p, same), ((p, same), all_of)), all)
    | inr e ↦ rw e ((inl (p, refl), ((p, refl), tt)), ((some_of, all_of), all))
  ]

  pub page_runs-IsRun :
      (P : A → Type 0) (xs : List A) → All P xs → All (IsRun P) (page_runs page xs)
  unfolding page_runs
  page_runs-IsRun P [] all = tt
  page_runs-IsRun P (x ∷ xs) (p, all) =
      add_run-IsRun P x (page_runs page xs) p (page_runs-IsRun P xs all)

  add_run-Any :
      (P : A → Type 0) (x : A) (runs : List (ℕ × List A))
      → P x ⊎ Any (λ run. Any P run.1) runs
      → Any (λ run. Any P run.1) (add_run (page x) x runs)
  unfolding add_run
  add_run-Any P x [] (inl p) = inl (inl p)
  add_run-Any P x [] (inr any) = elim any [ ]
  add_run-Any P x ((q, run) ∷ runs) any = elim (Bool-cases (page x == q)) [
    | inl e ↦
        rw e (elim any [ inl p ↦ inl (inl p) | inr (inl a) ↦ inl (inr a) | inr (inr a) ↦ inr a ])
    | inr e ↦ rw e (elim any [ inl p ↦ inl (inl p) | inr a ↦ inr a ])
  ]

  pub page_runs-Any :
      (P : A → Type 0) (xs : List A) → Any P xs → Any (λ run. Any P run.1) (page_runs page xs)
  unfolding page_runs
  page_runs-Any P [] any = elim any [ ]
  page_runs-Any P (x ∷ xs) (inl p) = add_run-Any P x (page_runs page xs) (inl p)
  page_runs-Any P (x ∷ xs) (inr a) =
      add_run-Any P x (page_runs page xs) (inr (page_runs-Any P xs a))

-- The request for the ID that stands at its place among the `count` IDs.
pub record IsRequest (directory : ExternalLocationDirectory) (at : ℕ → ℕ) (count : ℕ) (r : Request)
    : Type 0 where
  pub page : r.page ≡ r.id / entries_per_page directory
  pub id : r.id ≡ at r.input_index
  pub known : r.input_index < count

module _ (directory : ExternalLocationDirectory) (at : ℕ → ℕ) (count : ℕ) where
  pub make_requests-IsRequest :
      (ids : List ℕ) (input : ℕ)
      → ((j : ℕ) → j < length ids → at (input + j) ≡ get_or ids j 0)
      → input + length ids ≤ count
      → All (IsRequest directory at count) (make_requests directory ids input)
  unfolding make_requests
  make_requests-IsRequest [] input same le = tt
  make_requests-IsRequest (id ∷ ids) input same le =
      let here : input + 0 ≡ input = omega arith in
      (
        record { page = refl; id = sym (rw here at (same 0 (omega arith))); known = omega arith },
        make_requests-IsRequest ids (input + 1)
            (λ j h.
              let next : input + suc j ≡ input + 1 + j = omega arith in
              rw next at (same (suc j) (omega arith)))
            (omega arith),
      )

pub make_requests-Any :
    (directory : ExternalLocationDirectory) (ids : List ℕ) (input j : ℕ)
    → j < length ids
    → Any (λ (r : Request). r.input_index ≡ input + j) (make_requests directory ids input)
unfolding make_requests
make_requests-Any directory [] input j lt = absurd (omega arith)
make_requests-Any directory (id ∷ ids) input zero lt = inl (omega arith)
make_requests-Any directory (id ∷ ids) input (suc j) lt =
    let next : input + 1 + j ≡ input + suc j = omega arith in
    inr (rw next at (make_requests-Any directory ids (input + 1) j (omega arith)))
