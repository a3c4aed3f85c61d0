-- ===== src/Refine/Refiner/Splitting.antt =====
-- The lists of a batch and the plans for them.
use recast.Prelude.{
  ℕ, zero, suc, ◌+◌, ◌≤◌, ◌<◌, ◌≡◌, refl, sym, subst, inl, inr, Bool, List, [], ◌∷◌, All, All-mono,
  All-take, Any, Any-All, Any-take-drop, Chain, take, drop, tally, tally-append, arith, leb, leb→le,
  ◌==◌, ==→eq, Bool-cases,
}
use recast.Deletion.Sorting.{Increasing}
use recast.Refine.{CandidateInRequest, ReadPlan, lists_after, distinct_lists}
use recast.Refine.Builder.{items}
use recast.Refine.Refiner.{last_list, split_plans}

-- The lists of the plans do not fall.
abbrev pub Sorted : List ReadPlan → Type 0
Sorted plans = Chain (λ (p q : ReadPlan). p.list_no ≤ q.list_no) plans

abbrev pub HasList : List ℕ → ReadPlan → Type 0
HasList lists plan = Any (λ l. l ≡ plan.list_no) lists

-- The plans from the second on have larger lists.
tail_above :
    (p : ReadPlan) (plans : List ReadPlan)
    → Sorted (p ∷ plans)
    → All (λ (q : ReadPlan). p.list_no ≤ q.list_no) plans
tail_above p [] c = tt
tail_above p (q ∷ plans) (le, c) =
    (le, All-mono plans (λ r h. omega (arith, h, le)) (tail_above q plans c))

tail_Sorted : (p : ReadPlan) (plans : List ReadPlan) → Sorted (p ∷ plans) → Sorted plans
tail_Sorted p [] c = tt
tail_Sorted p (q ∷ plans) c = c.1

-- The plans of a batch and those after it.
pub record IsSplit (last : ℕ) (plans mine later : List ReadPlan) : Type 0 where
  pub mine_below : All (λ (p : ReadPlan). p.list_no ≤ last) mine
  pub later_above : All (λ (p : ReadPlan). last < p.list_no) later
  pub later_sorted : Sorted later
  pub same :
      (test : CandidateInRequest → Bool)
      → tally test (items plans) ≡ tally test (items mine) + tally test (items later)

pub split_plans-IsSplit :
    (last : ℕ) (plans : List ReadPlan)
    → Sorted plans
    → IsSplit last plans (split_plans last plans).0 (split_plans last plans).1
unfolding split_plans
split_plans-IsSplit last [] c = record {
  mine_below = tt;
  later_above = tt;
  later_sorted = tt;
  same = λ test. omega arith;
}
split_plans-IsSplit last (p ∷ plans) c = elim (Bool-cases (leb p.list_no last)) [
  | inl t ↦
      let rest = split_plans-IsSplit last plans (tail_Sorted p plans c) in
      rw t (record {
        mine_below = (leb→le _ _ t, rest.mine_below);
        later_above = rest.later_above;
        later_sorted = rest.later_sorted;
        same = λ test. omega (
          arith,
          rest.same test,
          tally-append test p.candidates (items plans),
          tally-append test p.candidates (items (split_plans last plans).0),
        );
      })
  | inr t ↦
      let above : last < p.list_no = ground arith in
      rw t (record {
        mine_below = tt;
        later_above = (above, All-mono plans (λ q h. omega (arith, h)) (tail_above p plans c));
        later_sorted = c;
        same = λ test. omega arith;
      })
]

pub split_plans-All :
    (P : ReadPlan → Type 0) (last : ℕ) (plans : List ReadPlan)
    → All P plans
    → All P (split_plans last plans).0 × All P (split_plans last plans).1
unfolding split_plans
split_plans-All P last [] all = (tt, tt)
split_plans-All P last (p ∷ plans) (h, all) =
    let (a, b) = split_plans-All P last plans all in
    elim (Bool-cases (leb p.list_no last)) [
      | inl t ↦ rw t ((h, a), b)
      | inr t ↦ rw t (tt, (h, all))
    ]

-- The first lists, and those after them, which are above the last of the first.
pub take-Increasing : (n : ℕ) (xs : List ℕ) → Increasing xs → Increasing (take n xs)
take-Increasing n [] h = tt
take-Increasing zero (x ∷ xs) h = tt
take-Increasing (suc n) (x ∷ xs) (a, h) = (All-take (λ y. x < y) n xs a, take-Increasing n xs h)

pub drop-Increasing : (n : ℕ) (xs : List ℕ) → Increasing xs → Increasing (drop n xs)
drop-Increasing n [] h = tt
drop-Increasing zero (x ∷ xs) h = h
drop-Increasing (suc n) (x ∷ xs) (a, h) = drop-Increasing n xs h

pub last_bounds :
    (x : ℕ) (xs : List ℕ) → Increasing (x ∷ xs) → All (λ y. y ≤ last_list x xs) (x ∷ xs)
unfolding last_list
last_bounds x [] h = (omega arith, tt)
last_bounds x (y ∷ xs) ((lt, a), h) = let rest = last_bounds y xs h in (omega (arith, rest.0), rest)

pub drop_above :
    (n x : ℕ) (xs : List ℕ)
    → Increasing (x ∷ xs)
    → All (λ y. last_list x (take n xs) < y) (drop n xs)
unfolding last_list
drop_above n x [] h = tt
drop_above zero x (y ∷ xs) h = h.0
drop_above (suc n) x (y ∷ xs) h = drop_above n y xs h.1

-- The distinct lists of sorted plans increase, and have the list of every plan.
lists_after-Increasing :
    (p : ReadPlan) (plans : List ReadPlan)
    → Sorted (p ∷ plans)
    → Increasing (p.list_no ∷ lists_after p.list_no plans)
      × All (HasList (p.list_no ∷ lists_after p.list_no plans)) (p ∷ plans)
unfolding lists_after
lists_after-Increasing p [] c = ((tt, tt), (inl refl, tt))
lists_after-Increasing p (q ∷ plans) (le, c) =
    let (increasing, has) = lists_after-Increasing q plans c in
    let rest = lists_after q.list_no plans in
    elim (Bool-cases (q.list_no == p.list_no)) [
      | inl t ↦
          let e : q.list_no ≡ p.list_no = ==→eq _ _ t in
          let step : lists_after p.list_no (q ∷ plans) ≡ rest = rw t refl in
          subst
            (λ (ls : List ℕ).
              Increasing (p.list_no ∷ ls) × All (HasList (p.list_no ∷ ls)) (p ∷ q ∷ plans))
            (sym step)
            (subst (λ (l : ℕ). Increasing (l ∷ rest) × All (HasList (l ∷ rest)) (p ∷ q ∷ plans)) e
              (increasing, (inl e, has)))
      | inr t ↦
          let lt : p.list_no < q.list_no = ground arith in
          let step : lists_after p.list_no (q ∷ plans) ≡ q.list_no ∷ rest = rw t refl in
          subst
            (λ (ls : List ℕ).
              Increasing (p.list_no ∷ ls) × All (HasList (p.list_no ∷ ls)) (p ∷ q ∷ plans))
            (sym step)
            (
              ((lt, All-mono rest (λ y h. omega (arith, h, lt)) increasing.0), increasing),
              (inl refl, All-mono (q ∷ plans) (λ r h. inr h) has),
            )
    ]

pub distinct_lists-Increasing :
    (plans : List ReadPlan)
    → Sorted plans
    → Increasing (distinct_lists plans) × All (HasList (distinct_lists plans)) plans
unfolding distinct_lists
distinct_lists-Increasing [] c = (tt, tt)
distinct_lists-Increasing (p ∷ plans) c = lists_after-Increasing p plans c

-- Each list comes from a plan.
lists_after-All :
    (P : ℕ → Type 0) (list_no : ℕ) (plans : List ReadPlan)
    → All (λ (p : ReadPlan). P p.list_no) plans
    → All P (lists_after list_no plans)
unfolding lists_after
lists_after-All P list_no [] all = tt
lists_after-All P list_no (p ∷ plans) (h, all) = elim (Bool-cases (p.list_no == list_no)) [
  | inl t ↦ rw t (lists_after-All P p.list_no plans all)
  | inr t ↦ rw t (h, lists_after-All P p.list_no plans all)
]

pub distinct_lists-All :
    (P : ℕ → Type 0) (plans : List ReadPlan)
    → All (λ (p : ReadPlan). P p.list_no) plans
    → All P (distinct_lists plans)
unfolding distinct_lists
distinct_lists-All P [] all = tt
distinct_lists-All P (p ∷ plans) (h, all) = (h, lists_after-All P p.list_no plans all)

-- The plans of a batch are for its lists, and the later ones for the later lists.
pub mine_lists :
    (n x : ℕ) (xs : List ℕ) (plans : List ReadPlan)
    → Increasing (x ∷ xs)
    → All (HasList (x ∷ xs)) plans
    → All (λ (p : ReadPlan). p.list_no ≤ last_list x (take n xs)) plans
    → All (HasList (x ∷ take n xs)) plans
mine_lists n x xs [] h has below = tt
mine_lists n x xs (p ∷ plans) h (has, more) (le, below) = (
  elim (Any-take-drop (λ l. l ≡ p.list_no) (suc n) (x ∷ xs) has) [
    | inl any ↦ any
    | inr any ↦
        let (y, e, lt) =
          Any-All (λ l. l ≡ p.list_no) (λ y. last_list x (take n xs) < y) (drop n xs) any
            (drop_above n x xs h) in
        let no_such : ⊥ = omega arith in elim no_such [ ]
  ],
  mine_lists n x xs plans h more below,
)

pub later_lists :
    (n x : ℕ) (xs : List ℕ) (plans : List ReadPlan)
    → Increasing (x ∷ xs)
    → All (HasList (x ∷ xs)) plans
    → All (λ (p : ReadPlan). last_list x (take n xs) < p.list_no) plans
    → All (HasList (drop n xs)) plans
later_lists n x xs [] h has above = tt
later_lists n x xs (p ∷ plans) h (has, more) (lt, above) = (
  elim (Any-take-drop (λ l. l ≡ p.list_no) (suc n) (x ∷ xs) has) [
    | inr any ↦ any
    | inl any ↦
        let (y, e, le) =
          Any-All (λ l. l ≡ p.list_no) (λ y. y ≤ last_list x (take n xs)) (x ∷ take n xs) any
            (last_bounds x (take n xs) (take-Increasing (suc n) (x ∷ xs) h)) in
        let no_such : ⊥ = omega arith in elim no_such [ ]
  ],
  later_lists n x xs plans h more above,
)
