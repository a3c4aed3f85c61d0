-- ===== src/Selection/Sorting.antt =====
-- The sort by a numeric key: what it keeps, and the first elements of its result.
use recast.Prelude.{
  ℕ, zero, suc, ◌≤◌, ◌<◌, ◌≡◌, ◌≢◌, refl, sym, ap, ◌∙◌, inl, inr, Bool, true, false, List, [], ◌∷◌,
  ◌++◌, ltb, leb, if◌then◌else◌, length, get_or, arith, take, tally, All, All-mono, All-inside,
  ◌==◌, Bool-cases,
}
use recast.Selection.{insert_by, sort_by}

-- The elements that pass a test, in their order.
abbrev pub filter {ℓ} : {A : Type ℓ} → (A → Bool) → List A → List A
filter test [] = []
filter test (x ∷ xs) = if test x then x ∷ filter test xs else filter test xs

module _ {ℓ} {A : Type ℓ} (key : A → ℕ) where
  abbrev pub by_key : A → A → Bool
  by_key x y = ltb (key x) (key y)

  abbrev pub Sorted : List A → Type 0
  Sorted [] = Unit
  Sorted (x ∷ xs) = All (λ y. key x ≤ key y) xs × Sorted xs

  -- No two elements with one key.
  abbrev pub Apart : A → List A → Type 0
  Apart x ys = All (λ y. key x ≢ key y) ys

  abbrev pub Distinct : List A → Type 0
  Distinct [] = Unit
  Distinct (x ∷ xs) = Apart x xs × Distinct xs

module _ {ℓ} {A : Type ℓ} where
  pub All-filter {κ} :
      (P : A → Type κ) (test : A → Bool) (xs : List A) → All P xs → All P (filter test xs)
  All-filter P test [] all = tt
  All-filter P test (x ∷ xs) (p, all) = elim (Bool-cases (test x)) [
    | inl t ↦ rw t (p, All-filter P test xs all)
    | inr t ↦ rw t (All-filter P test xs all)
  ]

  pub chosen : {b : Bool} → b ≡ true → (xs ys : List A) → (if b then xs else ys) ≡ xs
  chosen e xs ys = rw e refl

  pub other : {b : Bool} → b ≡ false → (xs ys : List A) → (if b then xs else ys) ≡ ys
  other e xs ys = rw e refl

  pub tally_none :
      (test : A → Bool) (xs : List A) → All (λ x. test x ≡ false) xs → tally test xs ≡ 0
  tally_none test [] all = refl
  tally_none test (x ∷ xs) (e, all) = rw e (omega (arith, tally_none test xs all))

  pub length-filter : (test : A → Bool) (xs : List A) → length (filter test xs) ≡ tally test xs
  length-filter test [] = refl
  length-filter test (x ∷ xs) = elim (Bool-cases (test x)) [
    | inl t ↦ rw t (omega (arith, length-filter test xs))
    | inr t ↦ rw t (omega (arith, length-filter test xs))
  ]

  pub tally-filter :
      (test keep : A → Bool) (xs : List A) → tally test (filter keep xs) ≤ tally test xs
  tally-filter test keep [] = omega arith
  tally-filter test keep (x ∷ xs) = elim (Bool-cases (keep x)) [
    | inl t ↦ rw t (omega (arith, tally-filter test keep xs))
    | inr t ↦ rw t (omega (arith, tally-filter test keep xs))
  ]

module _ {ℓ} {A : Type ℓ} (before : A → A → Bool) where
  pub tally-insert_by :
      (test : A → Bool) (x : A) (ys : List A)
      → tally test (insert_by before x ys) ≡ tally test (x ∷ ys)
  unfolding insert_by
  tally-insert_by test x [] = refl
  tally-insert_by test x (y ∷ ys) = elim (Bool-cases (before x y)) [
    | inl e ↦ rw e refl
    | inr e ↦ rw e (omega (arith, tally-insert_by test x ys))
  ]

  pub tally-sort_by :
      (test : A → Bool) (xs : List A) → tally test (sort_by before xs) ≡ tally test xs
  unfolding sort_by
  tally-sort_by test [] = refl
  tally-sort_by test (x ∷ xs) =
      omega (arith, tally-insert_by test x (sort_by before xs), tally-sort_by test xs)

  pub length-insert_by : (x : A) (ys : List A) → length (insert_by before x ys) ≡ suc (length ys)
  unfolding insert_by
  length-insert_by x [] = refl
  length-insert_by x (y ∷ ys) = elim (Bool-cases (before x y)) [
    | inl e ↦ rw e refl
    | inr e ↦ rw e (ap suc (length-insert_by x ys))
  ]

  pub length-sort_by : (xs : List A) → length (sort_by before xs) ≡ length xs
  unfolding sort_by
  length-sort_by [] = refl
  length-sort_by (x ∷ xs) = omega (arith, length-insert_by x (sort_by before xs), length-sort_by xs)

  pub All-insert_by {κ} :
      (P : A → Type κ) (x : A) (ys : List A) → P x → All P ys → All P (insert_by before x ys)
  unfolding insert_by
  All-insert_by P x [] p all = (p, tt)
  All-insert_by P x (y ∷ ys) p all = elim (Bool-cases (before x y)) [
    | inl e ↦ rw e (p, all)
    | inr e ↦ rw e (all.0, All-insert_by P x ys p all.1)
  ]

  pub All-sort_by {κ} : (P : A → Type κ) (xs : List A) → All P xs → All P (sort_by before xs)
  unfolding sort_by
  All-sort_by P [] all = tt
  All-sort_by P (x ∷ xs) (p, all) = All-insert_by P x (sort_by before xs) p (All-sort_by P xs all)

module _ {ℓ} {A : Type ℓ} (before : A → A → Bool) (key : A → ℕ) (P : A → Type ℓ)
    (agrees : (x y : A) → P x → P y → before x y ≡ by_key key x y) where
  insert_by-by_key :
      (x : A) (ys : List A) → P x → All P ys → insert_by before x ys ≡ insert_by (by_key key) x ys
  unfolding insert_by
  insert_by-by_key x [] p all = refl
  insert_by-by_key x (y ∷ ys) p (q, all) = rw (agrees x y p q) (
      ap (λ (zs : List A). if by_key key x y then x ∷ y ∷ ys else y ∷ zs)
        (insert_by-by_key x ys p all))

  -- Elements that a comparison orders as a key does are sorted as by the key.
  pub sort_by-by_key : (xs : List A) → All P xs → sort_by before xs ≡ sort_by (by_key key) xs
  unfolding sort_by
  sort_by-by_key [] all = refl
  sort_by-by_key (x ∷ xs) (p, all) =
      insert_by-by_key x (sort_by before xs) p (All-sort_by before P xs all)
      ∙ ap (λ (zs : List A). insert_by (by_key key) x zs) (sort_by-by_key xs all)

module _ {ℓ} {A : Type ℓ} (key : A → ℕ) where
  abbrev pub insert : A → List A → List A
  insert x ys = insert_by (by_key key) x ys

  abbrev pub sort : List A → List A
  sort xs = sort_by (by_key key) xs

  pub insert-Sorted : (x : A) (ys : List A) → Sorted key ys → Sorted key (insert x ys)
  unfolding insert_by
  insert-Sorted x [] s = (tt, tt)
  insert-Sorted x (y ∷ ys) (le, s) = elim (Bool-cases (by_key key x y)) [
    | inl e ↦
        let lt : key x ≤ key y = ground arith in
        rw e ((lt, All-mono ys (λ z h. omega (arith, h)) le), (le, s))
    | inr e ↦
        let ge : key y ≤ key x = ground arith in
        rw e (All-insert_by (by_key key) (λ z. key y ≤ key z) x ys ge le, insert-Sorted x ys s)
  ]

  pub sort-Sorted : (xs : List A) → Sorted key (sort xs)
  unfolding sort_by
  sort-Sorted [] = tt
  sort-Sorted (x ∷ xs) = insert-Sorted x (sort xs) (sort-Sorted xs)

  insert_both :
      (x y : A) (zs : List A) → key x < key y → insert x (insert y zs) ≡ insert y (insert x zs)
  unfolding insert_by
  insert_both x y [] lt =
      let e : by_key key x y ≡ true = ground arith in
      let f : by_key key y x ≡ false = ground arith in rw (e, f) refl
  insert_both x y (z ∷ zs) lt =
      let e : by_key key x y ≡ true = ground arith in
      let f : by_key key y x ≡ false = ground arith in
      elim (Bool-cases (by_key key y z)) [
        | inl g ↦ let h : by_key key x z ≡ true = ground arith in rw (g, h, e, f, g) refl
        | inr g ↦ elim (Bool-cases (by_key key x z)) [
          | inl h ↦ rw (g, h, f, g) refl
          | inr h ↦ rw (g, h, g) (ap (λ (ws : List A). z ∷ ws) (insert_both x y zs lt))
        ]
      ]

  insert-insert :
      (x y : A) (zs : List A) → key x ≢ key y → insert x (insert y zs) ≡ insert y (insert x zs)
  insert-insert x y zs apart = elim (Bool-cases (by_key key x y)) [
    | inl e ↦ insert_both x y zs (ground arith)
    | inr e ↦ sym (insert_both y x zs (ground arith))
  ]

  insert_first : (x : A) (ys : List A) → All (λ y. key x < key y) ys → insert x ys ≡ x ∷ ys
  unfolding insert_by
  insert_first x [] all = refl
  insert_first x (y ∷ ys) (lt, all) = let e : by_key key x y ≡ true = ground arith in rw e refl

  -- A new element goes to its place among the others.
  pub sort-snoc :
      (xs : List A) (x : A) → Apart key x xs → sort (xs ++ (x ∷ [])) ≡ insert x (sort xs)
  unfolding sort_by
  sort-snoc [] x apart = refl
  sort-snoc (y ∷ xs) x (ne, apart) =
      ap (λ (zs : List A). insert y zs) (sort-snoc xs x apart)
      ∙ insert-insert y x (sort xs) (λ e. ne (sym e))

  take_zero : (xs : List A) → take 0 xs ≡ []
  take_zero [] = refl
  take_zero (x ∷ xs) = refl

  take-take : (r : ℕ) (xs : List A) → take r (take (suc r) xs) ≡ take r xs
  take-take r [] = refl
  take-take zero (x ∷ xs) = refl
  take-take (suc r) (x ∷ xs) = ap (λ (zs : List A). x ∷ zs) (take-take r xs)

  take_again : (r : ℕ) (y : A) (ys : List A) → take r (y ∷ ys) ≡ take r (y ∷ take r ys)
  take_again zero y ys = refl
  take_again (suc r) y ys = ap (λ (zs : List A). y ∷ zs) (sym (take-take r ys))

  -- The test keeps the order of what it keeps.
  filter-insert :
      (test : A → Bool) (x : A) (ys : List A)
      → Sorted key ys
      → filter test (insert x ys) ≡ (if test x then insert x (filter test ys) else filter test ys)
  unfolding insert_by
  filter-insert test x [] s = elim (Bool-cases (test x)) [ inl t ↦ rw t refl | inr t ↦ rw t refl ]
  filter-insert test x (y ∷ ys) (le, s) = elim (Bool-cases (by_key key x y)) [
    | inl e ↦
        let above : All (λ z. key x < key z) (filter test (y ∷ ys)) =
          All-filter (λ z. key x < key z) test (y ∷ ys)
            (ground arith, All-mono ys (λ z h. ground arith) le) in
        elim (Bool-cases (test x)) [
          | inl t ↦ rw (e, t) (sym (insert_first x (filter test (y ∷ ys)) above))
          | inr t ↦ rw (e, t) refl
        ]
    | inr e ↦
        let ih = filter-insert test x ys s in
        elim (Bool-cases (test y)) [
          | inl t ↦ elim (Bool-cases (test x)) [
            | inl u ↦
                let kept = ih ∙ chosen u (insert x (filter test ys)) (filter test ys) in
                rw (e, t, u, e) (ap (λ (zs : List A). y ∷ zs) kept)
            | inr u ↦
                let kept = ih ∙ other u (insert x (filter test ys)) (filter test ys) in
                rw (e, t, u) (ap (λ (zs : List A). y ∷ zs) kept)
          ]
          | inr t ↦ rw (e, t) ih
        ]
  ]

  pub filter-sort : (test : A → Bool) (xs : List A) → filter test (sort xs) ≡ sort (filter test xs)
  unfolding sort_by
  filter-sort test [] = refl
  filter-sort test (x ∷ xs) = elim (Bool-cases (test x)) [
    | inl t ↦
        rw (filter-insert test x (sort xs) (sort-Sorted xs), t)
          (ap (λ (zs : List A). insert x zs) (filter-sort test xs))
    | inr t ↦ rw (filter-insert test x (sort xs) (sort-Sorted xs), t) (filter-sort test xs)
  ]

  -- Nothing is below the bound when the first is not.
  tally_above :
      (test : A → Bool) (bound : ℕ) (ys : List A)
      → ((y : A) → bound ≤ key y → test y ≡ false)
      → All (λ y. bound ≤ key y) ys
      → tally test ys ≡ 0
  tally_above test bound [] h all = refl
  tally_above test bound (y ∷ ys) h (le, all) =
      rw (h y le) (omega (arith, tally_above test bound ys h all))

  -- The first elements are found below any bound that has as many below it.
  pub take-filter :
      (r bound : ℕ) (ys : List A)
      → Sorted key ys
      → r ≤ tally (λ y. ltb (key y) bound) ys
      → take r (filter (λ y. ltb (key y) bound) ys) ≡ take r ys
  take-filter r bound [] s h = refl
  take-filter zero bound (y ∷ ys) s h = take_zero (filter (λ z. ltb (key z) bound) (y ∷ ys))
  take-filter (suc r) bound (y ∷ ys) (le, s) h = elim (Bool-cases (ltb (key y) bound)) [
    | inl e ↦ rw e (ap (λ (zs : List A). y ∷ zs) (take-filter r bound ys s (ground arith)))
    | inr e ↦
        let bound_holds : bound ≤ key y = ground arith in
        absurd (
          omega (
            arith,
            h,
            tally_above (λ z. ltb (key z) bound) bound (y ∷ ys) (λ z q. ground arith)
                (bound_holds, All-mono ys (λ z q. omega (arith, q, bound_holds)) le),
          ))
  ]

  -- An element that is not below the first ones does not change them.
  pub take-insert_rejected :
      (r bound : ℕ) (x : A) (ys : List A)
      → Sorted key ys
      → r ≤ tally (λ y. leb (key y) bound) ys
      → bound ≤ key x
      → take r (insert x ys) ≡ take r ys
  unfolding insert_by
  take-insert_rejected zero bound x ys s h le = take_zero (insert x ys) ∙ sym (take_zero ys)
  take-insert_rejected (suc r) bound x [] s h le = absurd (omega (arith, h))
  take-insert_rejected (suc r) bound x (y ∷ ys) (above, s) h le =
      elim (Bool-cases (by_key key x y)) [
        | inl e ↦
            let bound_holds : suc bound ≤ key y = ground arith in
            absurd (
              omega (
                arith,
                h,
                tally_above (λ z. leb (key z) bound) (suc bound) (y ∷ ys) (λ z q. ground arith)
                    (bound_holds, All-mono ys (λ z q. omega (arith, q, bound_holds)) above),
              ))
        | inr e ↦
            rw e
              (ap (λ (zs : List A). y ∷ zs) (take-insert_rejected r bound x ys s (ground arith) le))
      ]

  -- The first elements after an insertion hang on the first ones before it only.
  pub take-insert :
      (r : ℕ) (x : A) (ys : List A) → take r (insert x ys) ≡ take r (insert x (take r ys))
  unfolding insert_by
  take-insert zero x ys = take_zero (insert x ys) ∙ sym (take_zero (insert x (take 0 ys)))
  take-insert (suc r) x [] = refl
  take-insert (suc r) x (y ∷ ys) = elim (Bool-cases (by_key key x y)) [
    | inl e ↦ rw e (ap (λ (zs : List A). x ∷ zs) (take_again r y ys))
    | inr e ↦ rw e (ap (λ (zs : List A). y ∷ zs) (take-insert r x ys))
  ]

  -- The element at a place of a sorted list: at most so many are before it, and more are not after it.
  pub ranks :
      (xs : List A) (k : ℕ) (d : A)
      → Sorted key xs
      → k < length xs
      → (tally (λ x. ltb (key x) (key (get_or xs k d))) xs ≤ k)
        × (k < tally (λ x. leb (key x) (key (get_or xs k d))) xs)
  ranks [] k d s h = absurd (omega (arith, h))
  ranks (x ∷ xs) zero d (le, s) h =
      let self : ltb (key x) (key x) ≡ false = ground arith in
      let here : leb (key x) (key x) ≡ true = ground arith in
      (
        rw self (
            omega
              (arith, tally_above (λ y. ltb (key y) (key x)) (key x) xs (λ z q. ground arith) le)),
        rw here (omega arith),
      )
  ranks (x ∷ xs) (suc k) d (le, s) h =
      let (below, upto) = ranks xs k d s (omega arith) in
      let first = All-inside (λ y. key x ≤ key y) xs k d le (omega arith) in
      let here : leb (key x) (key (get_or xs k d)) ≡ true = ground arith in
      (ground arith, rw here (omega arith))

  -- A key occurs once.
  pub tally-Distinct : (xs : List A) (c : ℕ) → Distinct key xs → tally (λ x. key x == c) xs ≤ 1
  tally-Distinct [] c d = omega arith
  tally-Distinct (x ∷ xs) c (apart, d) = elim (Bool-cases (key x == c)) [
    | inl e ↦
        rw e (
          omega (arith, tally_none (λ y. key y == c) xs (All-mono xs (λ y ne. ground arith) apart)))
    | inr e ↦ rw e (omega (arith, tally-Distinct xs c d))
  ]
