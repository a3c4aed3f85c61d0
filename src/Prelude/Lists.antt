-- ===== src/Prelude/Lists.antt =====
-- Lists measured and indexed by native numbers, under the library's names.
use Prim.Native.Nat.{ℕ, zero, suc, ◌+◌, ◌-◌, ◌<◌}
use mathlib.Core.Path.{◌≡◌, refl, ap}
use mathlib.Core.Logic.{◌⊎◌, inl, inr}
use mathlib.Core.List.{List, [], ◌∷◌, ◌++◌, map}
use mathlib.Core.Bool.{Bool, true, false}
use native.Mathlib.Omega.{arith}

module _ {ℓ} {A : Type ℓ} where
  abbrev pub length : List A → ℕ
  length [] = 0
  length (x ∷ xs) = suc (length xs)

  abbrev pub get_or : List A → ℕ → A → A
  get_or [] i d = d
  get_or (x ∷ xs) zero d = x
  get_or (x ∷ xs) (suc i) d = get_or xs i d

  pub length-append : (xs ys : List A) → length (xs ++ ys) ≡ length xs + length ys
  length-append [] ys = omega arith
  length-append (x ∷ xs) ys = omega (arith, length-append xs ys)

  -- A property of every element.
  abbrev pub All {κ} : (A → Type κ) → List A → Type κ
  All P [] = Unit
  All P (x ∷ xs) = P x × All P xs

  -- A property of some element.
  abbrev pub Any : (A → Type 0) → List A → Type 0
  Any P [] = ⊥
  Any P (x ∷ xs) = P x ⊎ Any P xs

  pub All-mono {κ μ} :
      {P : A → Type κ} {Q : A → Type μ} (xs : List A) → ((x : A) → P x → Q x) → All P xs → All Q xs
  All-mono [] f all = tt
  All-mono (x ∷ xs) f (p, all) = (f x p, All-mono xs f all)

module _ {ℓ} {A : Type ℓ} where
  pub length-map {κ} : {B : Type κ} (xs : List A) (f : A → B) → length (map f xs) ≡ length xs
  length-map [] f = refl
  length-map (x ∷ xs) f = ap suc (length-map xs f)

-- How many elements pass a test. Two lists with the same tallies have the same elements, each as often.
abbrev pub tally {ℓ} : {A : Type ℓ} → (A → Bool) → List A → ℕ
tally test [] = 0
tally test (x ∷ xs) = elim (test x) [ true ↦ 1 | false ↦ 0 ] + tally test xs

module _ {ℓ} {A : Type ℓ} where
  pub tally-append :
      (test : A → Bool) (xs ys : List A) → tally test (xs ++ ys) ≡ tally test xs + tally test ys
  tally-append test [] ys = omega arith
  tally-append test (x ∷ xs) ys = omega (arith, tally-append test xs ys)

  pub tally-map {κ} :
      {B : Type κ} (test : B → Bool) (f : A → B) (xs : List A)
      → tally test (map f xs) ≡ tally (λ x. test (f x)) xs
  tally-map test f [] = refl
  tally-map test f (x ∷ xs) = omega (arith, tally-map test f xs)

  pub All-append {κ} : (P : A → Type κ) (xs ys : List A) → All P xs → All P ys → All P (xs ++ ys)
  All-append P [] ys a b = b
  All-append P (x ∷ xs) ys (p, a) b = (p, All-append P xs ys a b)

  -- Neighbours are related.
  abbrev pub Chain {κ} : (A → A → Type κ) → List A → Type κ
  Chain R [] = Unit
  Chain R (x ∷ []) = Unit
  Chain R (x ∷ y ∷ xs) = R x y × Chain R (y ∷ xs)

  pub Chain-snoc {κ} :
      (R : A → A → Type κ) (xs : List A) (y z : A)
      → Chain R (xs ++ (y ∷ []))
      → R y z
      → Chain R ((xs ++ (y ∷ [])) ++ (z ∷ []))
  Chain-snoc R [] y z c r = (r, tt)
  Chain-snoc R (x ∷ []) y z c r = (c.0, (r, tt))
  Chain-snoc R (x ∷ w ∷ xs) y z c r = (c.0, Chain-snoc R (w ∷ xs) y z c.1 r)

  -- Another head that is related to whatever the old one is.
  pub Chain-head {κ} :
      (R : A → A → Type κ) (x x' : A) (xs : List A)
      → ((y : A) → R x y → R x' y)
      → Chain R (x ∷ xs)
      → Chain R (x' ∷ xs)
  Chain-head R x x' [] f c = tt
  Chain-head R x x' (y ∷ xs) f c = (f y c.0, c.1)

  -- An element with a property, among elements that all have another.
  pub Any-All : (P Q : A → Type 0) (xs : List A) → Any P xs → All Q xs → (x : A) × P x × Q x
  Any-All P Q [] any all = elim any [ ]
  Any-All P Q (x ∷ xs) (inl p) (q, all) = (x, p, q)
  Any-All P Q (x ∷ xs) (inr any) (q, all) = Any-All P Q xs any all

  pub All-get_or {κ} :
      (P : A → Type κ) (xs : List A) (i : ℕ) (d : A) → All P xs → P d → P (get_or xs i d)
  All-get_or P [] i d all p = p
  All-get_or P (x ∷ xs) zero d (q, all) p = q
  All-get_or P (x ∷ xs) (suc i) d (q, all) p = All-get_or P xs i d all p

  pub All-inside {κ} :
      (P : A → Type κ) (xs : List A) (i : ℕ) (d : A) → All P xs → i < length xs → P (get_or xs i d)
  All-inside P [] i d all h = let no_such : ⊥ = omega (arith, h) in elim no_such [ ]
  All-inside P (x ∷ xs) zero d (p, all) h = p
  All-inside P (x ∷ xs) (suc i) d (p, all) h = All-inside P xs i d all (omega arith)

  -- The default does not matter inside the list.
  pub get_or_inside :
      (xs : List A) (i : ℕ) (d d' : A) → i < length xs → get_or xs i d ≡ get_or xs i d'
  get_or_inside [] i d d' h = let no_such : ⊥ = omega (arith, h) in elim no_such [ ]
  get_or_inside (x ∷ xs) zero d d' h = refl
  get_or_inside (x ∷ xs) (suc i) d d' h = get_or_inside xs i d d' (omega arith)

-- The first elements, and those after them.
abbrev pub take {ℓ} : {A : Type ℓ} → ℕ → List A → List A
take n [] = []
take zero (x ∷ xs) = []
take (suc n) (x ∷ xs) = x ∷ take n xs

abbrev pub drop {ℓ} : {A : Type ℓ} → ℕ → List A → List A
drop n [] = []
drop zero (x ∷ xs) = x ∷ xs
drop (suc n) (x ∷ xs) = drop n xs

-- The sum of what a function gives.
abbrev pub total {ℓ} : {A : Type ℓ} → (A → ℕ) → List A → ℕ
total f [] = 0
total f (x ∷ xs) = f x + total f xs

module _ {ℓ} {A : Type ℓ} where
  pub total-append : (f : A → ℕ) (xs ys : List A) → total f (xs ++ ys) ≡ total f xs + total f ys
  total-append f [] ys = omega arith
  total-append f (x ∷ xs) ys = omega (arith, total-append f xs ys)

  pub total-take-drop :
      (f : A → ℕ) (n : ℕ) (xs : List A) → total f xs ≡ total f (take n xs) + total f (drop n xs)
  total-take-drop f n [] = omega arith
  total-take-drop f zero (x ∷ xs) = omega arith
  total-take-drop f (suc n) (x ∷ xs) = omega (arith, total-take-drop f n xs)

  pub total_one : (xs : List A) → total (λ x. 1) xs ≡ length xs
  total_one [] = refl
  total_one (x ∷ xs) = omega (arith, total_one xs)

  pub total-cong : (f g : A → ℕ) (xs : List A) → All (λ x. f x ≡ g x) xs → total f xs ≡ total g xs
  total-cong f g [] all = refl
  total-cong f g (x ∷ xs) (e, all) = omega (arith, e, total-cong f g xs all)

  pub All-take {κ} : (P : A → Type κ) (n : ℕ) (xs : List A) → All P xs → All P (take n xs)
  All-take P n [] all = tt
  All-take P zero (x ∷ xs) all = tt
  All-take P (suc n) (x ∷ xs) (p, all) = (p, All-take P n xs all)

  pub All-drop {κ} : (P : A → Type κ) (n : ℕ) (xs : List A) → All P xs → All P (drop n xs)
  All-drop P n [] all = tt
  All-drop P zero (x ∷ xs) all = all
  All-drop P (suc n) (x ∷ xs) (p, all) = All-drop P n xs all

  pub All-unappend {κ} : (P : A → Type κ) (xs ys : List A) → All P (xs ++ ys) → All P xs × All P ys
  All-unappend P [] ys all = (tt, all)
  All-unappend P (x ∷ xs) ys (p, all) = let (a, b) = All-unappend P xs ys all in ((p, a), b)

  pub List-cases : (xs : List A) → (xs ≡ []) ⊎ ((x : A) × (rest : List A) × (xs ≡ x ∷ rest))
  List-cases [] = inl refl
  List-cases (x ∷ xs) = inr (x, xs, refl)

  pub take-drop : (n : ℕ) (xs : List A) → take n xs ++ drop n xs ≡ xs
  take-drop n [] = refl
  take-drop zero (x ∷ xs) = refl
  take-drop (suc n) (x ∷ xs) = ap (λ (ys : List A). x ∷ ys) (take-drop n xs)

  pub length-drop : (n : ℕ) (xs : List A) → length (drop n xs) ≡ length xs - n
  length-drop n [] = omega arith
  length-drop zero (x ∷ xs) = omega arith
  length-drop (suc n) (x ∷ xs) = omega (arith, length-drop n xs)

-- So many numbers from one on.
abbrev pub numbers : ℕ → ℕ → List ℕ
numbers first zero = []
numbers first (suc n) = first ∷ numbers (first + 1) n

module _ {A : Type 0} where
  -- What holds of some element holds of one of the first ones or of one of the others.
  pub Any-take-drop :
      (P : A → Type 0) (n : ℕ) (xs : List A) → Any P xs → Any P (take n xs) ⊎ Any P (drop n xs)
  Any-take-drop P n [] any = elim any [ ]
  Any-take-drop P zero (x ∷ xs) any = inr any
  Any-take-drop P (suc n) (x ∷ xs) (inl p) = inl (inl p)
  Any-take-drop P (suc n) (x ∷ xs) (inr any) = elim (Any-take-drop P n xs any) [
    | inl a ↦ inl (inr a)
    | inr a ↦ inr a
  ]

module _ {ℓ} {A : Type ℓ} where
  pub All-zip {κ μ} :
      (P : A → Type κ) (Q : A → Type μ) (xs : List A)
      → All P xs
      → All Q xs
      → All (λ x. P x × Q x) xs
  All-zip P Q [] a b = tt
  All-zip P Q (x ∷ xs) (p, a) (q, b) = ((p, q), All-zip P Q xs a b)

module _ {A : Type 0} where
  -- An element with a property makes the list one with such an element.
  pub All-Any : (P : A → Type 0) (xs : List A) → All (λ x. P x → Any P xs) xs
  All-Any P [] = tt
  All-Any P (x ∷ xs) = ((λ p. inl p), All-mono xs (λ y f p. inr (f p)) (All-Any P xs))
