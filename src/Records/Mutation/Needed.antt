-- ===== src/Records/Mutation/Needed.antt =====
-- The pages that a deletion reads and writes.
use recast.Prelude.{
  ℕ, ◌/◌, ◌<◌, ◌≡◌, refl, inl, inr, ◌⊎◌, true, List, [], ◌∷◌, ltb, All, All-mono, Any, arith,
  Bool-cases,
}
use recast.Deletion.{RecordMove}
use recast.Records.Mutation.{
  add_observed, add_moves, add_destinations, has_tail, add_tail, pages_below,
}
use recast.Records.Mutation.Sets.{
  Member, Rising, insert_page-Rising, add_destinations-Rising, insert_page-Member, insert_page-All,
  add_observed-Member, add_moves_keeps, add_moves-Member, add_destinations-Member,
}

module _ (n : ℕ) where
  module _ (P : ℕ → Type 0) where
    add_observed-All :
        (offsets pages : List ℕ)
        → All (λ o. P (o / n)) offsets
        → All P pages
        → All P (add_observed n offsets pages)
    unfolding add_observed
    add_observed-All [] pages all there = there
    add_observed-All (o ∷ offsets) pages (p, all) there =
        add_observed-All offsets _ all (insert_page-All P (o / n) pages p there)

    add_moves-All :
        (moves : List RecordMove) (pages : List ℕ)
        → All (λ m. P (m.source / n) × P (m.destination / n)) moves
        → All P pages
        → All P (add_moves n moves pages)
    unfolding add_moves
    add_moves-All [] pages all there = there
    add_moves-All (m ∷ moves) pages ((s, d), all) there =
        add_moves-All moves _ all (
          insert_page-All P (m.source / n) _ s
            (insert_page-All P (m.destination / n) pages d there))

    add_destinations-All :
        (moves : List RecordMove) (pages : List ℕ)
        → All (λ m. P (m.destination / n)) moves
        → All P pages
        → All P (add_destinations n moves pages)
    unfolding add_destinations
    add_destinations-All [] pages all there = there
    add_destinations-All (m ∷ moves) pages (d, all) there =
        add_destinations-All moves _ all (insert_page-All P (m.destination / n) pages d there)

    add_tail-All :
        (new_size : ℕ) (pages : List ℕ)
        → (has_tail n new_size ≡ true → P (new_size / n))
        → All P pages
        → All P (add_tail n new_size pages)
    unfolding add_tail
    add_tail-All new_size pages tail there = elim (Bool-cases (has_tail n new_size)) [
      | inl e ↦ rw (e, add_tail) (insert_page-All P (new_size / n) pages (tail e) there)
      | inr e ↦ rw (e, add_tail) there
    ]

    pub pages_below-All :
        (limit : ℕ) (pages : List ℕ)
        → All P pages
        → All (λ q. P q × (q < limit)) (pages_below limit pages)
    unfolding pages_below
    pages_below-All limit [] all = tt
    pages_below-All limit (q ∷ pages) (p, all) = elim (Bool-cases (ltb q limit)) [
      | inl e ↦ rw (e, pages_below) ((p, ground arith), pages_below-All limit pages all)
      | inr e ↦ rw (e, pages_below) (pages_below-All limit pages all)
    ]

  add_tail_keeps :
      (q new_size : ℕ) (pages : List ℕ) → Member q pages → Member q (add_tail n new_size pages)
  unfolding add_tail
  add_tail_keeps q new_size pages h = elim (Bool-cases (has_tail n new_size)) [
    | inl e ↦ rw (e, add_tail) (insert_page-Member q (new_size / n) pages (inr h))
    | inr e ↦ rw (e, add_tail) h
  ]

  add_tail-Member :
      (new_size : ℕ) (pages : List ℕ)
      → has_tail n new_size ≡ true
      → Member (new_size / n) (add_tail n new_size pages)
  unfolding add_tail
  add_tail-Member new_size pages e =
      rw (e, add_tail) (insert_page-Member (new_size / n) (new_size / n) pages (inl refl))

  pages_below-Rising :
      (limit : ℕ) (pages : List ℕ) → Rising pages → Rising (pages_below limit pages)
  unfolding pages_below
  pages_below-Rising limit [] rising = tt
  pages_below-Rising limit (q ∷ pages) (above, rising) = elim (Bool-cases (ltb q limit)) [
    | inl e ↦
        rw (e, pages_below)
          (
            All-mono (pages_below limit pages) (λ p h. h.0)
                (pages_below-All (λ p. q < p) limit pages above),
            pages_below-Rising limit pages rising,
          )
    | inr e ↦ rw (e, pages_below) (pages_below-Rising limit pages rising)
  ]

  add_tail-Rising :
      (new_size : ℕ) (pages : List ℕ) → Rising pages → Rising (add_tail n new_size pages)
  unfolding add_tail
  add_tail-Rising new_size pages rising = elim (Bool-cases (has_tail n new_size)) [
    | inl e ↦ rw (e, add_tail) (insert_page-Rising (new_size / n) pages rising)
    | inr e ↦ rw (e, add_tail) rising
  ]

  pub pages_below-Member :
      (q limit : ℕ) (pages : List ℕ)
      → q < limit
      → Member q pages
      → Member q (pages_below limit pages)
  unfolding pages_below
  pages_below-Member q limit [] lt any = any
  pages_below-Member q limit (x ∷ pages) lt any = elim (Bool-cases (ltb x limit)) [
    | inl e ↦
        rw (e, pages_below)
          (elim any [ inl m ↦ inl m | inr m ↦ inr (pages_below-Member q limit pages lt m) ])
    | inr e ↦
        rw (e, pages_below)
          (elim any [
            | inl m ↦ absurd (ground arith)
            | inr m ↦ pages_below-Member q limit pages lt m
          ])
  ]

  module _ (new_size : ℕ) (moves : List RecordMove) (observed : List ℕ) where
    abbrev pub needed_pages : List ℕ
    needed_pages = add_tail n new_size (add_moves n moves (add_observed n observed []))

    abbrev pub written_pages : List ℕ
    written_pages = add_tail n new_size (add_destinations n moves [])

    pub needed-offsets : All (λ o. Member (o / n) needed_pages) observed
    needed-offsets =
        All-mono observed
          (λ o h. add_tail_keeps (o / n) new_size _ (add_moves_keeps n (o / n) moves _ h))
          (add_observed-Member n observed [])

    pub needed-moves :
        All
          (λ m. Member (m.source / n) needed_pages × Member (m.destination / n) needed_pages)
          moves
    needed-moves =
        All-mono moves
          (λ m (s, d). (
            add_tail_keeps (m.source / n) new_size _ s,
            add_tail_keeps (m.destination / n) new_size _ d,
          ))
          (add_moves-Member n moves (add_observed n observed []))

    pub needed-tail : has_tail n new_size ≡ true → Member (new_size / n) needed_pages
    needed-tail = add_tail-Member new_size _

    pub needed-All :
        (P : ℕ → Type 0)
        → All (λ o. P (o / n)) observed
        → All (λ m. P (m.source / n) × P (m.destination / n)) moves
        → (has_tail n new_size ≡ true → P (new_size / n))
        → All P needed_pages
    needed-All P offsets both tail =
        add_tail-All P new_size _ tail
          (add_moves-All P moves _ both (add_observed-All P observed [] offsets tt))

    pub written-needed : All (λ q. Member q needed_pages) written_pages
    written-needed =
        add_tail-All (λ q. Member q needed_pages) new_size _ needed-tail
          (add_destinations-All (λ q. Member q needed_pages) moves []
            (All-mono moves (λ m h. h.1) needed-moves) tt)

    pub written-destination :
        (r : ℕ) → Any (λ m. m.destination ≡ r) moves → Member (r / n) written_pages
    written-destination r any =
        add_tail_keeps (r / n) new_size _ (add_destinations-Member n r moves [] any)

    pub written-tail : has_tail n new_size ≡ true → Member (new_size / n) written_pages
    written-tail = add_tail-Member new_size _

  own_pages :
      (moves : List RecordMove)
      → All
          (λ (m : RecordMove).
            Any (λ (m' : RecordMove). m'.destination / n ≡ m.destination / n) moves)
          moves
  own_pages [] = tt
  own_pages (m ∷ moves) = (inl refl, All-mono moves (λ k any. inr any) (own_pages moves))

  module _ (new_size : ℕ) (moves : List RecordMove) (limit : ℕ) where
    abbrev Wanted : ℕ → Type 0
    Wanted q =
        Any (λ (m : RecordMove). m.destination / n ≡ q) moves
        ⊎ ((has_tail n new_size ≡ true) × (new_size / n ≡ q))

    -- No page is written but those of the destinations and the tail.
    pub written-only : All Wanted (pages_below limit (written_pages new_size moves []))
    written-only =
        All-mono (pages_below limit (written_pages new_size moves [])) (λ q h. h.0)
          (pages_below-All Wanted limit (written_pages new_size moves []) (
            add_tail-All Wanted new_size _ (λ e. inr (e, refl))
              (add_destinations-All Wanted moves []
                (All-mono moves (λ m any. inl any) (own_pages moves)) tt)))

    pub written-Rising : Rising (pages_below limit (written_pages new_size moves []))
    written-Rising =
        pages_below-Rising limit _
          (add_tail-Rising new_size _ (add_destinations-Rising n moves [] tt))
