-- ===== src/Grouping/Placing.antt =====
-- The last loop: each input is stored in the range of its list, in input order.
use recast.Prelude.{
  ℕ, zero, suc, ◌+◌, ◌-◌, ◌≤◌, ◌<◌, ◌≡◌, ◌∙◌, sym, refl, ◌⊎◌, inl, inr, List, [], ◌∷◌, ◌==◌,
  if◌then◌else◌, store, length, get_or, All, arith,
}
use recast.Grouping.{place}
use recast.Grouping.Counting.{count, take}

-- The ranges that the cursors still have to fill follow one another.
abbrev pub Apart : ℕ → List ℕ → (ℕ → ℕ) → Type 0
Apart nlist rows cursors = (k l : ℕ) → k < l → l < nlist → cursors k + count k rows ≤ cursors l

abbrev pub Outside : ℕ → List ℕ → (ℕ → ℕ) → ℕ → Type 0
Outside nlist rows cursors p =
    (l : ℕ) → l < nlist → (p < cursors l) ⊎ (cursors l + count l rows ≤ p)

Apart-tail :
    (nlist a : ℕ) (rows : List ℕ) (cursors : ℕ → ℕ)
    → Apart nlist (a ∷ rows) cursors
    → Apart nlist rows (store cursors a (cursors a + 1))
unfolding count
Apart-tail nlist a rows cursors h k l lt hi = ground (arith, h k l)

-- Slots outside the ranges are left alone.
place-Outside :
    (nlist : ℕ) (rows : List ℕ) (input : ℕ) (cursors order : ℕ → ℕ) (p : ℕ)
    → All (λ a. a < nlist) rows
    → Outside nlist rows cursors p
    → place rows input cursors order p ≡ order p
unfolding place count
place-Outside nlist [] input cursors order p valid out = refl
place-Outside nlist (a ∷ rows) input cursors order p valid out =
    place-Outside nlist rows (input + 1) (store cursors a (cursors a + 1))
      (store order (cursors a) input) p valid.1 (λ l hi. ground (arith, out l))
    ∙ ground (arith, out a valid.0)

-- Input `j` is stored behind the earlier inputs of its list.
pub place-slot :
    (nlist : ℕ) (rows : List ℕ) (input : ℕ) (cursors order : ℕ → ℕ) (j : ℕ)
    → All (λ a. a < nlist) rows
    → Apart nlist rows cursors
    → j < length rows
    → place rows input cursors order
        (cursors (get_or rows j 0) + count (get_or rows j 0) (take j rows))
      ≡ input + j
unfolding place count take
place-slot nlist [] input cursors order j valid apart h = absurd (omega arith)
place-slot nlist (a ∷ rows) input cursors order zero valid apart h =
    let e : cursors a + 0 ≡ cursors a = omega arith in
    rw e (
      place-Outside nlist rows (input + 1) (store cursors a (cursors a + 1))
        (store order (cursors a) input) (cursors a) valid.1
        (λ l hi. ground (arith, apart l a, apart a l, valid.0))
      ∙ ground arith)
place-slot nlist (a ∷ rows) input cursors order (suc j) valid apart h =
    let b = get_or rows j 0 in
    let e : cursors b + ((if a == b then 1 else 0) + count b (take j rows))
        ≡ store cursors a (cursors a + 1) b + count b (take j rows) =
      ground arith in
    rw e (
      place-slot nlist rows (input + 1) (store cursors a (cursors a + 1))
        (store order (cursors a) input) j valid.1 (Apart-tail nlist a rows cursors apart)
        (omega arith)
      ∙ omega arith)

nth_case : (a l c : ℕ) → ((a ≡ l) × (c ≡ 0)) ⊎ ((if a == l then 1 else 0) ≤ c)
nth_case a l c = ground arith

-- Every occurrence of a list is the next one of some input.
pub nth_input :
    (l : ℕ) (rows : List ℕ) (c : ℕ)
    → c < count l rows
    → (j : ℕ) × (j < length rows) × (get_or rows j 0 ≡ l) × (count l (take j rows) ≡ c)
unfolding count take
nth_input l [] c h = absurd (omega arith)
nth_input l (a ∷ rows) c h = elim (nth_case a l c) [
  | inl (e, z) ↦ (0, omega arith, e, sym z)
  | inr p ↦
      let (j, lt, e, n) = nth_input l rows (c - (if a == l then 1 else 0)) (ground arith) in
      (suc j, omega arith, e, ground arith)
]

pub count-take-lt :
    (rows : List ℕ) (j : ℕ)
    → j < length rows
    → count (get_or rows j 0) (take j rows) < count (get_or rows j 0) rows
unfolding count take
count-take-lt [] j h = absurd (omega arith)
count-take-lt (a ∷ rows) zero h = ground arith
count-take-lt (a ∷ rows) (suc j) h = ground (arith, count-take-lt rows j)

-- An earlier input of the same list has fewer before it.
pub count-take_mono :
    (rows : List ℕ) (i j : ℕ)
    → i < j
    → j < length rows
    → get_or rows i 0 ≡ get_or rows j 0
    → count (get_or rows j 0) (take i rows) < count (get_or rows j 0) (take j rows)
unfolding count take
count-take_mono [] i j lt h e = absurd (omega arith)
count-take_mono (a ∷ rows) i zero lt h e = absurd (omega arith)
count-take_mono (a ∷ rows) zero (suc j) lt h e = ground arith
count-take_mono (a ∷ rows) (suc i) (suc j) lt h e = ground (arith, count-take_mono rows i j)
