-- ===== src/Deletion/Sorting.antt =====
-- The sorted offsets: the same slots, and strictly increasing unless two rows share one.
use recast.Prelude.{
  ℕ, suc, ◌+◌, ◌≤◌, ◌<◌, ◌≡◌, refl, ◌⊎◌, inl, inr, true, false, List, [], ◌∷◌, map, ◌||◌, ◌==◌,
  if◌then◌else◌, length, All, arith, Bool-cases,
}
use recast.Grouping.Counting.{count}
use recast.Deletion.{insert_row, sort_rows, has_shared_slot, contains}

abbrev pub offsets_of : List (ℕ × ℕ) → List ℕ
offsets_of rows = map (λ (r : ℕ × ℕ). r.0) rows

abbrev pub Increasing : List ℕ → Type 0
Increasing [] = Unit {0}
Increasing (x ∷ xs) = All (λ y. x < y) xs × Increasing xs

-- Neighbours do not fall.
abbrev Ordered : List (ℕ × ℕ) → Type 0
Ordered [] = Unit {0}
Ordered (r ∷ []) = Unit {0}
Ordered (r ∷ s ∷ rows) = (r.0 ≤ s.0) × Ordered (s ∷ rows)

insert_row-Ordered : (r : ℕ × ℕ) (rows : List (ℕ × ℕ)) → Ordered rows → Ordered (insert_row r rows)
unfolding insert_row
insert_row-Ordered r [] h = tt
insert_row-Ordered r (s ∷ []) h = ground arith
insert_row-Ordered r (s ∷ t ∷ rows) h = ground (arith, insert_row-Ordered r (t ∷ rows) h.1)

sort_rows-Ordered : (rows : List (ℕ × ℕ)) → Ordered (sort_rows rows)
unfolding sort_rows
sort_rows-Ordered [] = tt
sort_rows-Ordered (r ∷ rows) = insert_row-Ordered r (sort_rows rows) (sort_rows-Ordered rows)

All-lower : (x y : ℕ) (ys : List ℕ) → x < y → All (λ z. y < z) ys → All (λ z. x < z) ys
All-lower x y [] h a = tt
All-lower x y (z ∷ ys) h a = (omega arith, All-lower x y ys h a.1)

Ordered-Increasing :
    (rows : List (ℕ × ℕ))
    → Ordered rows
    → has_shared_slot rows ≡ false
    → Increasing (offsets_of rows)
unfolding has_shared_slot
Ordered-Increasing [] h d = tt
Ordered-Increasing (r ∷ []) h d = (tt, tt)
Ordered-Increasing (r ∷ s ∷ rows) h d =
    let rest = Ordered-Increasing (s ∷ rows) h.1 (ground arith) in
    let lt : r.0 < s.0 = ground arith in ((lt, All-lower r.0 s.0 (offsets_of rows) lt rest.0), rest)

-- Without a shared slot the sorted offsets increase.
pub sort_rows-Increasing :
    (rows : List (ℕ × ℕ))
    → has_shared_slot (sort_rows rows) ≡ false
    → Increasing (offsets_of (sort_rows rows))
sort_rows-Increasing rows = Ordered-Increasing (sort_rows rows) (sort_rows-Ordered rows)

length-insert_row :
    (r : ℕ × ℕ) (rows : List (ℕ × ℕ)) → length (insert_row r rows) ≡ suc (length rows)
unfolding insert_row
length-insert_row r [] = refl
length-insert_row r (s ∷ rows) = ground (arith, length-insert_row r rows)

pub length-sort_rows : (rows : List (ℕ × ℕ)) → length (sort_rows rows) ≡ length rows
unfolding sort_rows
length-sort_rows [] = refl
length-sort_rows (r ∷ rows) =
    omega (arith, length-insert_row r (sort_rows rows), length-sort_rows rows)

contains-insert_row :
    (x : ℕ) (r : ℕ × ℕ) (rows : List (ℕ × ℕ))
    → contains x (offsets_of (insert_row r rows)) ≡ (x == r.0 || contains x (offsets_of rows))
unfolding insert_row contains
contains-insert_row x r [] = refl
contains-insert_row x r (s ∷ rows) = ground (arith, contains-insert_row x r rows)

-- The same slots as in the batch.
pub contains-sort_rows :
    (x : ℕ) (rows : List (ℕ × ℕ))
    → contains x (offsets_of (sort_rows rows)) ≡ contains x (offsets_of rows)
unfolding sort_rows contains
contains-sort_rows x [] = refl
contains-sort_rows x (r ∷ rows) =
    ground (arith, contains-insert_row x r (sort_rows rows), contains-sort_rows x rows)

count-insert_row :
    (x : ℕ) (r : ℕ × ℕ) (rows : List (ℕ × ℕ))
    → count x (offsets_of (insert_row r rows))
      ≡ (if r.0 == x then 1 else 0) + count x (offsets_of rows)
unfolding insert_row count
count-insert_row x r [] = refl
count-insert_row x r (s ∷ rows) = ground (arith, count-insert_row x r rows)

count-sort_rows :
    (x : ℕ) (rows : List (ℕ × ℕ))
    → count x (offsets_of (sort_rows rows)) ≡ count x (offsets_of rows)
unfolding sort_rows count
count-sort_rows x [] = refl
count-sort_rows x (r ∷ rows) =
    omega (arith, count-insert_row x r (sort_rows rows), count-sort_rows x rows)

All-above-count : (x y : ℕ) (ys : List ℕ) → y ≤ x → All (λ z. x < z) ys → count y ys ≡ 0
unfolding count
All-above-count x y [] h a = refl
All-above-count x y (z ∷ ys) h a = ground (arith, All-above-count x y ys h a.1)

-- An increasing list holds a slot once, or not at all.
pub count-Increasing :
    (x : ℕ) (xs : List ℕ) → Increasing xs → count x xs ≡ (if contains x xs then 1 else 0)
unfolding count contains
count-Increasing x [] h = refl
count-Increasing x (y ∷ ys) h = ground (arith, All-above-count y x ys, count-Increasing x ys h.1)

-- Two rows name one slot.
shared-count :
    (rows : List (ℕ × ℕ)) → has_shared_slot rows ≡ true → (x : ℕ) × (2 ≤ count x (offsets_of rows))
unfolding has_shared_slot count
shared-count [] h = cc
shared-count (r ∷ []) h = cc
shared-count (r ∷ s ∷ rows) h = elim (Bool-cases (r.0 == s.0)) [
  | inl e ↦ (r.0, ground arith)
  | inr e ↦ let (x, le) = shared-count (s ∷ rows) (ground arith) in (x, ground arith)
]

-- The test after the sort tells whether two rows of the batch name one slot.
pub has_shared_slot-cases :
    (rows : List (ℕ × ℕ))
    → ((has_shared_slot (sort_rows rows) ≡ true) × ((x : ℕ) × (2 ≤ count x (offsets_of rows))))
      ⊎ ((has_shared_slot (sort_rows rows) ≡ false)
          × Increasing (offsets_of (sort_rows rows))
          × ((x : ℕ) → count x (offsets_of rows) ≤ 1))
has_shared_slot-cases rows = elim (Bool-cases (has_shared_slot (sort_rows rows))) [
  | inl e ↦
      let (x, le) = shared-count (sort_rows rows) e in
      inl (e, (x, omega (arith, count-sort_rows x rows)))
  | inr e ↦
      let up = sort_rows-Increasing rows e in
      inr (
        e,
        up,
        λ x.
            ground
              (arith, count-Increasing x (offsets_of (sort_rows rows)) up, count-sort_rows x rows),
      )
]
