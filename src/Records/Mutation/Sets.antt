-- ===== src/Records/Mutation/Sets.antt =====
-- The tests of a deletion, and its sets of pages.
use recast.Prelude.{
  ℕ, ◌/◌, ◌≤◌, ◌<◌, ◌≡◌, refl, ◌⊎◌, inl, inr, ◌||◌, List, [], ◌∷◌, ok, err, invalid_argument, ltb,
  leb, ◌==◌, All, All-mono, Any, arith, Bool-cases, ap,
}
use recast.Deletion.{RecordMove}
use recast.Records.Mutation.{
  check_moves, check_offsets, insert_page, add_observed, add_moves, add_destinations,
}

abbrev pub Member : ℕ → List ℕ → Type 0
Member p pages = Any (λ q. q ≡ p) pages

abbrev pub IsMove : ℕ → ℕ → RecordMove → Type 0
IsMove old_size new_size m =
    (m.destination < new_size) × (new_size ≤ m.source) × (m.source < old_size)

pub check_moves-cases :
    (old_size new_size : ℕ) (moves : List RecordMove)
    → ((check_moves old_size new_size moves ≡ ok tt) × All (IsMove old_size new_size) moves)
      ⊎ ((check_moves old_size new_size moves ≡ err invalid_argument)
          × (All (IsMove old_size new_size) moves → ⊥))
unfolding check_moves
check_moves-cases old_size new_size [] = inl (refl, tt)
check_moves-cases old_size new_size (m ∷ moves) =
    elim (Bool-cases
      (leb new_size m.destination || ltb m.source new_size || leb old_size m.source)) [
        | inl e ↦ inr (rw (e, check_moves) refl, λ ((d, lo, hi), all). ground arith)
        | inr e ↦ elim (check_moves-cases old_size new_size moves) [
          | inl (x, all) ↦
              inl (rw (e, check_moves) x, ((ground arith, ground arith, ground arith), all))
          | inr (x, bad) ↦ inr (rw (e, check_moves) x, λ (h, all). bad all)
        ]
      ]

pub check_offsets-cases :
    (old_size : ℕ) (offsets : List ℕ)
    → ((check_offsets old_size offsets ≡ ok tt) × All (λ o. o < old_size) offsets)
      ⊎ ((check_offsets old_size offsets ≡ err invalid_argument)
          × (All (λ o. o < old_size) offsets → ⊥))
unfolding check_offsets
check_offsets-cases old_size [] = inl (refl, tt)
check_offsets-cases old_size (o ∷ offsets) = elim (Bool-cases (leb old_size o)) [
  | inl e ↦ inr (rw (e, check_offsets) refl, λ (h, all). ground arith)
  | inr e ↦ elim (check_offsets-cases old_size offsets) [
    | inl (x, all) ↦ inl (rw (e, check_offsets) x, (ground arith, all))
    | inr (x, bad) ↦ inr (rw (e, check_offsets) x, λ (h, all). bad all)
  ]
]

pub insert_page-Member :
    (q p : ℕ) (pages : List ℕ) → (p ≡ q) ⊎ Member q pages → Member q (insert_page p pages)
unfolding insert_page
insert_page-Member q p [] h = h
insert_page-Member q p (x ∷ pages) h = elim (Bool-cases (ltb p x)) [
  | inl e ↦ rw e h
  | inr e ↦ elim (Bool-cases (p == x)) [
    | inl s ↦ rw (e, s) (elim h [ inl m ↦ inl (ground arith) | inr m ↦ m ])
    | inr s ↦
        rw (e, s)
          (elim h [
            | inl m ↦ inr (insert_page-Member q p pages (inl m))
            | inr (inl m) ↦ inl m
            | inr (inr m) ↦ inr (insert_page-Member q p pages (inr m))
          ])
  ]
]

module _ (P : ℕ → Type 0) where
  pub insert_page-All : (p : ℕ) (pages : List ℕ) → P p → All P pages → All P (insert_page p pages)
  unfolding insert_page
  insert_page-All p [] h all = (h, tt)
  insert_page-All p (x ∷ pages) h (k, all) = elim (Bool-cases (ltb p x)) [
    | inl e ↦ rw e (h, (k, all))
    | inr e ↦ elim (Bool-cases (p == x)) [
      | inl s ↦ rw (e, s) (k, all)
      | inr s ↦ rw (e, s) (k, insert_page-All p pages h all)
    ]
  ]

-- A set's pages in their order, each of them once.
abbrev pub Rising : List ℕ → Type 0
Rising [] = Unit
Rising (p ∷ pages) = All (λ q. p < q) pages × Rising pages

pub insert_page-Rising : (p : ℕ) (pages : List ℕ) → Rising pages → Rising (insert_page p pages)
unfolding insert_page
insert_page-Rising p [] rising = (tt, tt)
insert_page-Rising p (x ∷ pages) (above, rising) = elim (Bool-cases (ltb p x)) [
  | inl e ↦
      let lt : p < x = ground arith in
      rw e ((lt, All-mono pages (λ q h. omega (arith, h, lt)) above), (above, rising))
  | inr e ↦ elim (Bool-cases (p == x)) [
    | inl s ↦ rw (e, s) (above, rising)
    | inr s ↦
        let lt : x < p = ground arith in
        rw (e, s) (insert_page-All (λ q. x < q) p pages lt above, insert_page-Rising p pages rising)
  ]
]

module _ (n : ℕ) where
  pub add_destinations-Rising :
      (moves : List RecordMove) (pages : List ℕ)
      → Rising pages
      → Rising (add_destinations n moves pages)
  unfolding add_destinations
  add_destinations-Rising [] pages rising = rising
  add_destinations-Rising (m ∷ moves) pages rising =
      add_destinations-Rising moves _ (insert_page-Rising (m.destination / n) pages rising)

  pub add_observed_keeps :
      (q : ℕ) (offsets pages : List ℕ) → Member q pages → Member q (add_observed n offsets pages)
  unfolding add_observed
  add_observed_keeps q [] pages h = h
  add_observed_keeps q (o ∷ offsets) pages h =
      add_observed_keeps q offsets (insert_page (o / n) pages)
        (insert_page-Member q (o / n) pages (inr h))

  pub add_observed-Member :
      (offsets pages : List ℕ) → All (λ o. Member (o / n) (add_observed n offsets pages)) offsets
  unfolding add_observed
  add_observed-Member [] pages = tt
  add_observed-Member (o ∷ offsets) pages = (
    add_observed_keeps (o / n) offsets (insert_page (o / n) pages)
        (insert_page-Member (o / n) (o / n) pages (inl refl)),
    add_observed-Member offsets (insert_page (o / n) pages),
  )

  pub add_moves_keeps :
      (q : ℕ) (moves : List RecordMove) (pages : List ℕ)
      → Member q pages
      → Member q (add_moves n moves pages)
  unfolding add_moves
  add_moves_keeps q [] pages h = h
  add_moves_keeps q (m ∷ moves) pages h = add_moves_keeps q moves _ (
      insert_page-Member q (m.source / n) (insert_page (m.destination / n) pages)
        (inr (insert_page-Member q (m.destination / n) pages (inr h))))

  pub add_moves-Member :
      (moves : List RecordMove) (pages : List ℕ)
      → All
          (λ m.
            Member (m.source / n) (add_moves n moves pages)
            × Member (m.destination / n) (add_moves n moves pages))
          moves
  unfolding add_moves
  add_moves-Member [] pages = tt
  add_moves-Member (m ∷ moves) pages =
      let both = insert_page (m.source / n) (insert_page (m.destination / n) pages) in
      (
        (
          add_moves_keeps (m.source / n) moves both (
              insert_page-Member (m.source / n) (m.source / n)
                (insert_page (m.destination / n) pages) (inl refl)),
          add_moves_keeps (m.destination / n) moves both (
              insert_page-Member (m.destination / n) (m.source / n)
                (insert_page (m.destination / n) pages)
                (inr
                  (insert_page-Member (m.destination / n) (m.destination / n) pages (inl refl)))),
        ),
        add_moves-Member moves both,
      )

  pub add_destinations_keeps :
      (q : ℕ) (moves : List RecordMove) (pages : List ℕ)
      → Member q pages
      → Member q (add_destinations n moves pages)
  unfolding add_destinations
  add_destinations_keeps q [] pages h = h
  add_destinations_keeps q (m ∷ moves) pages h =
      add_destinations_keeps q moves _ (insert_page-Member q (m.destination / n) pages (inr h))

  pub add_destinations-Member :
      (r : ℕ) (moves : List RecordMove) (pages : List ℕ)
      → Any (λ m. m.destination ≡ r) moves
      → Member (r / n) (add_destinations n moves pages)
  unfolding add_destinations
  add_destinations-Member r [] pages any = elim any [ ]
  add_destinations-Member r (m ∷ moves) pages (inl e) =
      add_destinations_keeps (r / n) moves _
        (insert_page-Member (r / n) (m.destination / n) pages (inl (ap (λ (t : ℕ). t / n) e)))
  add_destinations-Member r (m ∷ moves) pages (inr any) =
      add_destinations-Member r moves (insert_page (m.destination / n) pages) any
