-- ===== src/Refine/Plans.antt =====
-- What `build_read_plans` returns.
use native.Mathlib.Nat.{div-le_self}
use recast.Prelude.{
  ℕ, ◌+◌, ◌*◌, ◌/◌, ◌≤◌, ◌<◌, ◌≡◌, refl, ap, ◌∙◌, ◌⊎◌, inl, inr, Bool, List, [], ◌∷◌, ◌++◌, length,
  get_or, All, All-append, All-get_or, Any, Any-All, get_or_inside, Chain, Chain-snoc, tally,
  numbers, tally-append, Result, ok, err, overflow_error, arith, ◌>>=◌,
}
use recast.Checked.{size_max, uint32_max, off_max}
use recast.Records.{ListFileRecordStore}
use recast.Records.Layout.{IsValid}
use recast.Refine.{
  ListCandidate, CandidateInRequest, ReadPlan, Location, location_of, make_locations,
  sort_locations, PlanBuilder, start_builder, add_locations, in_order, build_read_plans,
}
use recast.Refine.Places.{
  Ordered, IsPlace, sort_locations-Ordered, tally-sort_locations, sort_locations-All,
  make_locations-IsPlace, tally-make_locations,
}
use recast.Refine.Builder.{items, IsPlan, Apart, IsBuilt, add_location-Stepped, add_location-first}

tally-items-append :
    (test : CandidateInRequest → Bool) (plans more : List ReadPlan)
    → tally test (items (plans ++ more)) ≡ tally test (items plans) + tally test (items more)
tally-items-append test [] more = omega arith
tally-items-append test (plan ∷ plans) more = omega (
  arith,
  tally-append test plan.candidates (items (plans ++ more)),
  tally-append test plan.candidates (items plans),
  tally-items-append test plans more,
)

tally-items-in_order :
    (test : CandidateInRequest → Bool) (plans : List ReadPlan)
    → tally test (items (in_order plans)) ≡ tally test (items plans)
unfolding in_order
tally-items-in_order test [] = refl
tally-items-in_order test (plan ∷ plans) = omega (
  arith,
  tally-items-append test (in_order plans) (plan ∷ []),
  tally-items-in_order test plans,
  tally-append test plan.candidates (items plans),
  tally-append test plan.candidates [],
)

in_order-All :
    (P : ReadPlan → Type 0) (plans : List ReadPlan) → All P plans → All P (in_order plans)
unfolding in_order
in_order-All P [] all = tt
in_order-All P (plan ∷ plans) (p, all) =
    All-append P (in_order plans) (plan ∷ []) (in_order-All P plans all) (p, tt)

in_order-Chain :
    (plans : List ReadPlan)
    → Chain (λ (later earlier : ReadPlan). Apart earlier later) plans
    → Chain Apart (in_order plans)
unfolding in_order
in_order-Chain [] c = tt
in_order-Chain (plan ∷ []) c = tt
in_order-Chain (plan ∷ plan' ∷ plans) c =
    Chain-snoc Apart (in_order plans) plan' plan (in_order-Chain (plan' ∷ plans) c.1) c.0

module _ (store : ListFileRecordStore) (at : ℕ → ListCandidate) (valid : IsValid store) (count : ℕ)
    (small : (i : ℕ) → (at i).offset ≤ uint32_max) where
  -- All the locations have their candidates, or a page ends too far.
  abbrev Finished : List ReadPlan → List Location → Result PlanBuilder → Type 0
  Finished old locations r =
      ((b : PlanBuilder) × (r ≡ ok b)
        × IsBuilt store at count b
        × ((test : ℕ → Bool)
            → tally (λ (i : CandidateInRequest). test i.candidate_index) (items b.plans)
              ≡ tally (λ (l : Location). test l.candidate_index) locations
                + tally (λ (i : CandidateInRequest). test i.candidate_index) (items old)))
      ⊎ ((r ≡ err overflow_error)
          × Any (λ (l : Location). off_max < (l.page_no + 1) * store.page_size) locations)

  page_below : (l : Location) → IsPlace store at count l → l.page_no < size_max
  unfolding location_of
  page_below l (_, e) =
      let p : l.page_no ≡ (at l.candidate_index).offset / store.records_per_page =
        ap (λ (k : Location). k.page_no) e in
      omega (
        arith,
        div-le_self (at l.candidate_index).offset store.records_per_page,
        small l.candidate_index,
      )

  add_locations-Finished :
      (b : PlanBuilder) (l : Location) (locations : List Location)
      → IsBuilt store at count b
      → b.previous_list ≡ l.list_no
      → b.previous_page ≡ l.page_no
      → Ordered (l ∷ locations)
      → All (IsPlace store at count) locations
      → Finished b.plans locations (add_locations store locations b)
  unfolding add_locations
  add_locations-Finished b l [] built list page order all =
      inl (b, refl, built, λ test. omega arith)
  add_locations-Finished b l (m ∷ locations) built list page (order, chain) (place, all) =
      elim (add_location-Stepped store at count valid b m built place (page_below m place)
        (rw list (rw page order))) [
          | inr (e, over) ↦ rw e (inr (refl, inl over))
          | inl (b', e, built', list', page', tallies) ↦
              rw e (elim (add_locations-Finished b' m locations built' list' page' chain all) [
                | inr (f, over) ↦ inr (f, inr over)
                | inl (b2, f, built2, more) ↦
                    inl (b2, f, built2, λ test. omega (arith, more test, tallies test))
              ])
        ]

  sorted-Finished :
      (l : Location) (locations : List Location)
      → Ordered (l ∷ locations)
      → All (IsPlace store at count) (l ∷ locations)
      → Finished [] (l ∷ locations) (add_locations store (l ∷ locations) start_builder)
  unfolding add_locations
  sorted-Finished l locations order (place, all) =
      elim (add_location-first store at count valid l place (page_below l place)) [
        | inr (e, over) ↦ rw e (inr (refl, inl over))
        | inl (b, e, built, list, page, tallies) ↦
            rw e (elim (add_locations-Finished b l locations built list page order all) [
              | inr (f, over) ↦ inr (f, inr over)
              | inl (b2, f, built2, more) ↦
                  inl (b2, f, built2, λ test. omega (arith, more test, tallies test))
            ])
      ]

-- The candidate of a number.
abbrev pub candidate_at : List ListCandidate → ℕ → ListCandidate
candidate_at candidates i = get_or candidates i (record { list_no = 0; offset = 0 })

-- The plans for some candidates: whole pages, each with the row of a candidate that its read holds,
-- in the order of the lists and pages, with a page that no candidate has between two reads of one
-- list, and every candidate in one of them, once.
pub record IsReadPlans (store : ListFileRecordStore) (candidates : List ListCandidate)
    (plans : List ReadPlan) : Type 0 where
  pub reads : All (IsPlan store (candidate_at candidates) (length candidates)) plans
  pub apart : Chain Apart plans
  pub once :
      (test : ℕ → Bool)
      → tally (λ (i : CandidateInRequest). test i.candidate_index) (items plans)
        ≡ tally test (numbers 0 (length candidates))

-- The end of a page of a candidate lies past the last offset of a file.
abbrev pub TooFar : ListFileRecordStore → List ListCandidate → Type 0
TooFar store candidates =
    (i : ℕ) × (i < length candidates)
    × (off_max
        < ((candidate_at candidates i).offset / store.records_per_page + 1) * store.page_size)

-- The plans are made, or a page ends too far.
abbrev pub Planned : ListFileRecordStore → List ListCandidate → Result (List ReadPlan) → Type 0
Planned store candidates r =
    ((plans : List ReadPlan) × (r ≡ ok plans) × IsReadPlans store candidates plans)
    ⊎ ((r ≡ err overflow_error) × TooFar store candidates)

module _ (store : ListFileRecordStore) (candidates : List ListCandidate) (valid : IsValid store)
    (small : All (λ (c : ListCandidate). c.offset ≤ uint32_max) candidates) where
  locations-Planned :
      (locations : List Location)
      → Ordered locations
      → All (IsPlace store (candidate_at candidates) (length candidates)) locations
      → ((test : ℕ → Bool)
          → tally (λ (l : Location). test l.candidate_index) locations
            ≡ tally test (numbers 0 (length candidates)))
      → Planned store candidates
          (add_locations store locations start_builder >>= λ b. ok (in_order b.plans))
  unfolding add_locations in_order location_of
  locations-Planned [] order all once =
      inl ([], refl, record { reads = tt; apart = tt; once = once })
  locations-Planned (l ∷ locations) order all once =
      elim (sorted-Finished store (candidate_at candidates) valid (length candidates)
        (λ i.
          All-get_or (λ (c : ListCandidate). c.offset ≤ uint32_max) candidates i _ small
            (omega arith))
        l locations order all) [
          | inl (b, e, built, tallies) ↦ rw e (
              inl (
                in_order b.plans,
                refl,
                record {
                  reads =
                      in_order-All (IsPlan store (candidate_at candidates) (length candidates))
                        b.plans (rw built.plans built.all);
                  apart = in_order-Chain b.plans (rw built.plans built.chain);
                  once = λ test. omega (
                    arith,
                    once test,
                    tallies test,
                    tally-items-in_order (λ (i : CandidateInRequest). test i.candidate_index)
                        b.plans,
                  );
                },
              ))
          | inr (e, over) ↦ rw e (
              inr (
                refl,
                let (l, far, (lt, e)) =
                      Any-All (λ (l : Location). off_max < (l.page_no + 1) * store.page_size)
                        (IsPlace store (candidate_at candidates) (length candidates))
                        (l ∷ locations) over all in
                    let page = ap (λ (k : Location). (k.page_no + 1) * store.page_size) e in
                    (l.candidate_index, lt, omega arith),
              ))
        ]

-- For 32-bit offsets in a valid store, plans are made, or overflow_error is thrown and the page of a
-- candidate ends past the last offset of a file. The plans (`IsReadPlans`) are reads of whole pages
-- in the order of lists and pages. Each page of a read holds the row of a candidate of that read,
-- two reads of one list leave out a page between them, and every candidate is in one read, once,
-- at the place of its row.
pub build_read_plans-cases :
    (store : ListFileRecordStore) (candidates : List ListCandidate)
    → IsValid store
    → All (λ (c : ListCandidate). c.offset ≤ uint32_max) candidates
    → ((plans : List ReadPlan) × (build_read_plans store candidates ≡ ok plans)
        × IsReadPlans store candidates plans)
      ⊎ ((build_read_plans store candidates ≡ err overflow_error) × TooFar store candidates)
unfolding build_read_plans
build_read_plans-cases store candidates valid small =
    let locations = make_locations store candidates 0 in
    locations-Planned store candidates valid small (sort_locations locations)
      (sort_locations-Ordered locations)
      (sort_locations-All (IsPlace store (candidate_at candidates) (length candidates)) locations (
        make_locations-IsPlace store (candidate_at candidates) candidates 0 (length candidates)
          (λ j d lt.
            let z : 0 + j ≡ j = omega arith in
            ap (candidate_at candidates) z ∙ get_or_inside candidates j _ d lt)
          (omega arith)))
      (λ test. omega (
        arith,
        tally-sort_locations (λ (l : Location). test l.candidate_index) locations,
        tally-make_locations store (candidate_at candidates) test candidates 0,
      ))
