-- ===== src/Selection/Counting.antt =====
-- The counting loops of the threshold search as tallies over the rows' indices.
use recast.Prelude.{
  ℕ, zero, suc, ◌+◌, ◌≤◌, ◌<◌, ◌≡◌, refl, sym, ap, ◌∙◌, inl, inr, Bool, true, false, ◌&&◌, ◌||◌,
  List, [], ◌∷◌, ◌++◌, map, if◌then◌else◌, ltb, leb, ◌==◌, numbers, iterate, append-nil, tally,
  tally-append, All, Bool-cases, arith, length,
}
use recast.Floats.{less, equal}
use recast.Selection.{to_number, count_fuzzy_threshold, tied_ids}
use recast.Selection.Sorting.{filter, chosen, other}

pub numbers-snoc : (first n : ℕ) → numbers first (suc n) ≡ numbers first n ++ ((first + n) ∷ [])
numbers-snoc first zero = let e : first ≡ first + 0 = omega arith in ap (λ (i : ℕ). i ∷ []) e
numbers-snoc first (suc n) =
    let e : first + 1 + n ≡ first + suc n = omega arith in
    ap (λ (xs : List ℕ). first ∷ xs) (numbers-snoc (first + 1) n)
    ∙ ap (λ (i : ℕ). first ∷ (numbers (first + 1) n ++ (i ∷ []))) e

pub length-numbers : (first n : ℕ) → length (numbers first n) ≡ n
length-numbers first zero = refl
length-numbers first (suc n) = ap suc (length-numbers (first + 1) n)

pub All-numbers {κ} :
    (P : ℕ → Type κ) (first n : ℕ)
    → ((i : ℕ) → first ≤ i → i < first + n → P i)
    → All P (numbers first n)
All-numbers P first zero h = tt
All-numbers P first (suc n) h = (
  h first (omega arith) (omega arith),
  All-numbers P (first + 1) n λ i p q. h i (omega arith) (omega arith),
)

module _ {ℓ} {A : Type ℓ} where
  pub filter-append :
      (test : A → Bool) (xs ys : List A) → filter test (xs ++ ys) ≡ filter test xs ++ filter test ys
  filter-append test [] ys = refl
  filter-append test (x ∷ xs) ys = elim (Bool-cases (test x)) [
    | inl t ↦ rw t (ap (λ (zs : List A). x ∷ zs) (filter-append test xs ys))
    | inr t ↦ rw t (filter-append test xs ys)
  ]

  pub map-append {κ} :
      {B : Type κ} (f : A → B) (xs ys : List A) → map f (xs ++ ys) ≡ map f xs ++ map f ys
  map-append f [] ys = refl
  map-append f (x ∷ xs) ys = ap (λ (zs : List _). f x ∷ zs) (map-append f xs ys)

  pub tally-filter_both :
      (test keep : A → Bool) (xs : List A)
      → tally test (filter keep xs) ≡ tally (λ x. keep x && test x) xs
  tally-filter_both test keep [] = refl
  tally-filter_both test keep (x ∷ xs) = elim (Bool-cases (keep x)) [
    | inl t ↦ rw t (omega (arith, tally-filter_both test keep xs))
    | inr t ↦ rw t (omega (arith, tally-filter_both test keep xs))
  ]

module _ {ℓ} {A : Type ℓ} where
  pub All-map {κ μ} :
      {B : Type κ} (P : B → Type μ) (f : A → B) (xs : List A)
      → All (λ x. P (f x)) xs
      → All P (map f xs)
  All-map P f [] all = tt
  All-map P f (x ∷ xs) (p, all) = (p, All-map P f xs all)

  pub tally-cong :
      (test test' : A → Bool) (xs : List A)
      → All (λ x. test x ≡ test' x) xs
      → tally test xs ≡ tally test' xs
  tally-cong test test' [] all = refl
  tally-cong test test' (x ∷ xs) (e, all) = rw e (omega (arith, tally-cong test test' xs all))

  pub All-filter_of {κ μ} :
      (P : A → Type κ) (Q : A → Type μ) (test : A → Bool) (xs : List A)
      → ((x : A) → test x ≡ true → P x → Q x)
      → All P xs
      → All Q (filter test xs)
  All-filter_of P Q test [] h all = tt
  All-filter_of P Q test (x ∷ xs) h (p, all) = elim (Bool-cases (test x)) [
    | inl t ↦ rw t (h x t p, All-filter_of P Q test xs h all)
    | inr t ↦ rw t (All-filter_of P Q test xs h all)
  ]

  -- Two tests that exclude each other.
  pub tally_or :
      (test test' : A → Bool) (xs : List A)
      → ((x : A) → test' x ≡ true → test x ≡ false)
      → tally (λ x. test x || test' x) xs ≡ tally test xs + tally test' xs
  tally_or test test' [] h = refl
  tally_or test test' (x ∷ xs) h = elim (Bool-cases (test' x)) [
    | inl t ↦ rw (t, h x t) (omega (arith, tally_or test test' xs h))
    | inr t ↦ elim (Bool-cases (test x)) [
      | inl u ↦ rw (t, u) (omega (arith, tally_or test test' xs h))
      | inr u ↦ rw (t, u) (omega (arith, tally_or test test' xs h))
    ]
  ]

  pub tally_split :
      (key : A → ℕ) (c : ℕ) (xs : List A)
      → tally (λ x. leb (key x) c) xs ≡ tally (λ x. ltb (key x) c) xs + tally (λ x. key x == c) xs
  tally_split key c [] = refl
  tally_split key c (x ∷ xs) = ground (arith, tally_split key c xs)

-- One more index.
tally_next :
    (test : ℕ → Bool) (n : ℕ)
    → tally test (numbers 0 (suc n)) ≡ tally test (numbers 0 n) + to_number (test n)
tally_next test n =
    let z : 0 + n ≡ n = omega arith in
    ap (λ (xs : List ℕ). tally test xs) (numbers-snoc 0 n)
    ∙ tally-append test (numbers 0 n) ((0 + n) ∷ [])
    ∙ ap (λ (k : ℕ). tally test (numbers 0 n) + tally test (k ∷ [])) z
    ∙ elim (Bool-cases (test n)) [ inl t ↦ rw t (omega arith) | inr t ↦ rw t (omega arith) ]

pub filter_next :
    (test : ℕ → Bool) (n : ℕ)
    → filter test (numbers 0 (suc n)) ≡ filter test (numbers 0 n) ++ (if test n then n ∷ [] else [])
filter_next test n =
    let z : 0 + n ≡ n = omega arith in
    ap (λ (xs : List ℕ). filter test xs) (numbers-snoc 0 n)
    ∙ filter-append test (numbers 0 n) ((0 + n) ∷ [])
    ∙ ap (λ (k : ℕ). filter test (numbers 0 n) ++ filter test (k ∷ [])) z

-- The two counts.
pub count_fuzzy_threshold-tally :
    (values : ℕ → ℕ) (n threshold : ℕ)
    → ((count_fuzzy_threshold values n threshold).0
        ≡ tally (λ i. less (values i) threshold) (numbers 0 n))
      × ((count_fuzzy_threshold values n threshold).1
          ≡ tally (λ i. equal (values i) threshold) (numbers 0 n))
unfolding count_fuzzy_threshold iterate
count_fuzzy_threshold-tally values zero threshold = (refl, refl)
count_fuzzy_threshold-tally values (suc n) threshold =
    let (l, e) = count_fuzzy_threshold-tally values n threshold in
    (
      ap (λ (k : ℕ). k + to_number (less (values n) threshold)) l
          ∙ sym (tally_next (λ i. less (values i) threshold) n),
      ap (λ (k : ℕ). k + to_number (equal (values n) threshold)) e
          ∙ sym (tally_next (λ i. equal (values i) threshold) n),
    )

-- The IDs at the threshold.
pub tied_ids-map :
    (values ids : ℕ → ℕ) (n threshold : ℕ)
    → tied_ids values ids n threshold
      ≡ map ids (filter (λ i. equal (values i) threshold) (numbers 0 n))
unfolding tied_ids iterate
tied_ids-map values ids zero threshold = refl
tied_ids-map values ids (suc n) threshold =
    let test : ℕ → Bool = λ i. equal (values i) threshold in
    let next = ap (λ (xs : List ℕ). map ids xs) (filter_next test n) in
    let before = tied_ids-map values ids n threshold in
    let kept = map ids (filter test (numbers 0 n)) in
    let tied = tied_ids values ids n threshold in
    elim (Bool-cases (test n)) [
      | inl t ↦
          chosen t (tied ++ (ids n ∷ [])) tied
          ∙ ap (λ (xs : List ℕ). xs ++ (ids n ∷ [])) before
          ∙ sym (map-append ids (filter test (numbers 0 n)) (n ∷ []))
          ∙ sym (
              next
              ∙ ap (λ (xs : List ℕ). map ids (filter test (numbers 0 n) ++ xs))
                  (chosen t (n ∷ []) []))
      | inr t ↦
          other t (tied ++ (ids n ∷ [])) tied
          ∙ before
          ∙ sym (
              next
              ∙ ap (λ (xs : List ℕ). map ids (filter test (numbers 0 n) ++ xs))
                  (other t (n ∷ []) [])
              ∙ ap (λ (xs : List ℕ). map ids xs) (append-nil (filter test (numbers 0 n))))
    ]
