-- ===== src/Refine/Places.antt =====
-- The sorted locations of `build_read_plans`: each candidate once, by list and page.
use recast.Prelude.{
  ℕ, suc, ◌+◌, ◌≤◌, ◌<◌, ◌≡◌, refl, ◌⊎◌, inl, inr, Bool, List, [], ◌∷◌, length, get_or, All, tally,
  numbers, Chain, arith, Bool-cases, ap, sym, ◌∙◌,
}
use recast.Records.{ListFileRecordStore}
use recast.Refine.{
  ListCandidate, Location, location_of, make_locations, location_before, insert_location,
  sort_locations,
}

-- Lists and pages do not fall.
abbrev pub NotAfter : ℕ → ℕ → Location → Type 0
NotAfter list_no page_no m = (list_no < m.list_no) ⊎ ((list_no ≡ m.list_no) × (page_no ≤ m.page_no))

abbrev pub Ordered : List Location → Type 0
Ordered locations = Chain (λ (l m : Location). NotAfter l.list_no l.page_no m) locations

insert_location-Ordered :
    (l : Location) (locations : List Location)
    → Ordered locations
    → Ordered (insert_location l locations)
unfolding insert_location location_before
insert_location-Ordered l [] h = tt
insert_location-Ordered l (m ∷ []) h = ground arith
insert_location-Ordered l (m ∷ n ∷ locations) h =
    ground (arith, insert_location-Ordered l (n ∷ locations) h.1)

pub sort_locations-Ordered : (locations : List Location) → Ordered (sort_locations locations)
unfolding sort_locations
sort_locations-Ordered [] = tt
sort_locations-Ordered (l ∷ locations) =
    insert_location-Ordered l (sort_locations locations) (sort_locations-Ordered locations)

tally-insert_location :
    (test : Location → Bool) (l : Location) (locations : List Location)
    → tally test (insert_location l locations) ≡ tally test (l ∷ locations)
unfolding insert_location
tally-insert_location test l [] = refl
tally-insert_location test l (m ∷ locations) = elim (Bool-cases (location_before m l)) [
  | inl e ↦ rw e (omega (arith, tally-insert_location test l locations))
  | inr e ↦ rw e refl
]

pub tally-sort_locations :
    (test : Location → Bool) (locations : List Location)
    → tally test (sort_locations locations) ≡ tally test locations
unfolding sort_locations
tally-sort_locations test [] = refl
tally-sort_locations test (l ∷ locations) = omega (
  arith,
  tally-insert_location test l (sort_locations locations),
  tally-sort_locations test locations,
)

module _ (P : Location → Type 0) where
  insert_location-All :
      (l : Location) (locations : List Location)
      → P l
      → All P locations
      → All P (insert_location l locations)
  unfolding insert_location
  insert_location-All l [] p all = (p, tt)
  insert_location-All l (m ∷ locations) p (q, all) = elim (Bool-cases (location_before m l)) [
    | inl e ↦ rw e (q, insert_location-All l locations p all)
    | inr e ↦ rw e (p, (q, all))
  ]

  pub sort_locations-All :
      (locations : List Location) → All P locations → All P (sort_locations locations)
  unfolding sort_locations
  sort_locations-All [] all = tt
  sort_locations-All (l ∷ locations) (p, all) =
      insert_location-All l (sort_locations locations) p (sort_locations-All locations all)

module _ (store : ListFileRecordStore) (at : ℕ → ListCandidate) where
  -- The location of the candidate whose index it names, one of those below `count`.
  abbrev pub IsPlace : ℕ → Location → Type 0
  IsPlace count l =
      (l.candidate_index < count) × (l ≡ location_of store (at l.candidate_index) l.candidate_index)

  pub make_locations-IsPlace :
      (candidates : List ListCandidate) (index count : ℕ)
      → ((j : ℕ) (d : ListCandidate)
          → j < length candidates
          → at (index + j) ≡ get_or candidates j d)
      → index + length candidates ≤ count
      → All (IsPlace count) (make_locations store candidates index)
  unfolding make_locations location_of
  make_locations-IsPlace [] index count h le = tt
  make_locations-IsPlace (c ∷ candidates) index count h le =
      let i : index + 0 ≡ index = omega arith in
      let e : at index ≡ c = ap at (sym i) ∙ h 0 c (omega arith) in
      (
        (omega arith, ap (λ (k : ListCandidate). location_of store k index) (sym e)),
        make_locations-IsPlace candidates (index + 1) count
            (λ j d lt.
              let s : index + 1 + j ≡ index + suc j = omega arith in
              ap at s ∙ h (suc j) d (omega arith))
            (omega arith),
      )

  pub tally-make_locations :
      (test : ℕ → Bool) (candidates : List ListCandidate) (index : ℕ)
      → tally (λ (l : Location). test l.candidate_index) (make_locations store candidates index)
        ≡ tally test (numbers index (length candidates))
  unfolding make_locations location_of
  tally-make_locations test [] index = refl
  tally-make_locations test (c ∷ candidates) index =
      omega (arith, tally-make_locations test candidates (index + 1))
